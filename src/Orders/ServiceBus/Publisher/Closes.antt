-- ===== src/Orders/ServiceBus/Publisher/Closes.antt =====
-- `async with ServiceBusEventPublisher(...)` (apps/orders/servicebus.py): what the exit closes.
use swarmscope.Base.{
  ℕ, ◌≡◌, ap, refl, ◌∙◌, inl, inr, Option, none, some, List, [], ◌∷◌, Text, ok, err, Option-cases,
  is_none,
}
use swarmscope.Orders.Messaging.{OutboundEvent}
use swarmscope.Orders.ServiceBus.{Printer, to_service_bus_message}
use swarmscope.Orders.ServiceBus.Publisher.{
  sdk_retry_total, sdk_retry_backoff_max, SdkCall, default_azure_credential, service_bus_client,
  get_topic_sender, send_messages, close_sender, close_client, close_credential, not_open,
  ServiceBusEventPublisher, new_publisher, Session, Method, and_then, open_client, enter, exit,
  publish, publish_each, answered, exit_credential, set_credential,
}

-- the calls of an entry with these objects, after the calls before it
abbrev pub opening : Text → Text → Option ℕ → ℕ → ℕ → List SdkCall → List SdkCall
opening namespace topic given credential client calls =
    get_topic_sender client topic
    ∷ service_bus_client namespace credential sdk_retry_total sdk_retry_backoff_max
    ∷ elim given [ none ↦ default_azure_credential ∷ calls | some _ ↦ calls ]

-- the calls of the block that publishes these events
abbrev pub sending : Printer → ℕ → List OutboundEvent → List SdkCall → List SdkCall
sending printer sender [] calls = calls
sending printer sender (e ∷ es) calls =
    sending printer sender es (send_messages sender (to_service_bus_message printer e) ∷ calls)

-- the calls of the exit, where only an own credential is closed
abbrev pub closing : Option ℕ → ℕ → ℕ → ℕ → List SdkCall → List SdkCall
closing given credential client sender calls = elim given [
  | none ↦ close_credential credential ∷ close_client client ∷ close_sender sender ∷ calls
  | some _ ↦ close_client client ∷ close_sender sender ∷ calls
]

-- The credential in use is the given one, where one is given.
abbrev pub IsUsed : Option ℕ → ℕ → Type 0
IsUsed none credential = Unit
IsUsed (some c) credential = c ≡ credential

-- the object after `__aenter__`
abbrev pub opened : Text → Text → Option ℕ → ℕ → ℕ → ℕ → ServiceBusEventPublisher
opened namespace topic given credential client sender =
    record (new_publisher namespace topic given) {
      credential = some credential;
      client = some client;
      sender = some sender;
    }

module _ (sdk : List SdkCall → SdkCall → Option ℕ) where
  open_client_opens :
      (credential : ℕ) (s : Session)
      → (open_client sdk credential s).0 ≡ ok tt
      → (client : ℕ) × (sender : ℕ) × ((open_client sdk credential s).1 ≡ record {
        publisher = record s.publisher { client = some client; sender = some sender };
        calls =
            get_topic_sender client s.publisher.topic_name
            ∷ service_bus_client s.publisher.fully_qualified_namespace credential sdk_retry_total
                sdk_retry_backoff_max
            ∷ s.calls;
      })
  open_client_opens credential s h =
      let connect : SdkCall =
        service_bus_client s.publisher.fully_qualified_namespace credential sdk_retry_total
          sdk_retry_backoff_max in
      elim (Option-cases (sdk s.calls connect)) [
        | inl fails ↦ absurd (let h' = rw (fails, and_then, answered) at h in cc)
        | inr (client, made) ↦
            elim (Option-cases
              (sdk (connect ∷ s.calls) (get_topic_sender client s.publisher.topic_name))) [
                | inl fails ↦ absurd (let h' = rw (made, fails, and_then, answered) at h in cc)
                | inr (sender, made') ↦ (client, sender, rw (made, made') refl)
              ]
      ]

  module _ (namespace topic : Text) (calls : List SdkCall) where
    -- a new object, before its block
    abbrev pub fresh : Option ℕ → Session
    fresh given = record { publisher = new_publisher namespace topic given; calls = calls }

    enter_opens :
        (given : Option ℕ)
        → (enter sdk (fresh given)).0 ≡ ok tt
        → (credential : ℕ) × (client : ℕ) × (sender : ℕ) × ((enter sdk (fresh given)).1 ≡ record {
          publisher = opened namespace topic given credential client sender;
          calls = opening namespace topic given credential client calls;
        })
          × IsUsed given credential
    unfolding enter
    enter_opens none h = elim (Option-cases (sdk calls default_azure_credential)) [
      | inl fails ↦ absurd (let h' = rw (fails, and_then, answered) at h in cc)
      | inr (credential, made) ↦
          let (client, sender, e) =
            open_client_opens credential
              (set_credential credential (record {
                publisher = new_publisher namespace topic none;
                calls = default_azure_credential ∷ calls;
              }))
              (rw (made, and_then, answered) at h) in
          (credential, client, sender, rw made e, tt)
    ]
    enter_opens (some credential) h =
        let (client, sender, e) =
          open_client_opens credential (set_credential credential (fresh (some credential))) h in
        (credential, client, sender, e, refl)

    publish_each-sending :
        (printer : Printer) (given : Option ℕ) (credential client sender : ℕ)
        (events : List OutboundEvent) (before : List SdkCall)
        → publish_each sdk printer events (record {
          publisher = opened namespace topic given credential client sender;
          calls = before;
        })
          ≡ record {
            publisher = opened namespace topic given credential client sender;
            calls = sending printer sender events before;
          }
    unfolding publish_each publish
    publish_each-sending printer given credential client sender [] before = refl
    publish_each-sending printer given credential client sender (e ∷ es) before =
        elim (Option-cases (sdk before (send_messages sender (to_service_bus_message printer e)))) [
          | inl fails ↦ rw fails (
              publish_each-sending printer given credential client sender es
                (send_messages sender (to_service_bus_message printer e) ∷ before))
          | inr (n, sent) ↦ rw sent (
              publish_each-sending printer given credential client sender es
                (send_messages sender (to_service_bus_message printer e) ∷ before))
        ]

    -- the object with its sender and its client closed
    abbrev half_closed : Option ℕ → ℕ → List SdkCall → Session
    half_closed given credential before = record {
      publisher = record (new_publisher namespace topic given) { credential = some credential };
      calls = before;
    }

    exit_credential_closes :
        (given : Option ℕ) (credential : ℕ) (before : List SdkCall)
        → IsUsed given credential
        → (exit_credential sdk
            (is_none given)
            (some credential)
            (half_closed given credential before)).0
          ≡ ok tt
        → (exit_credential sdk
            (is_none given)
            (some credential)
            (half_closed given credential before)).1
          ≡ record {
            publisher = new_publisher namespace topic given;
            calls = elim given [ none ↦ close_credential credential ∷ before | some _ ↦ before ];
          }
    exit_credential_closes none credential before used h =
        elim (Option-cases (sdk before (close_credential credential))) [
          | inl fails ↦ absurd (let h' = rw (fails, and_then, answered) at h in cc)
          | inr (_, closed) ↦ rw closed refl
        ]
    exit_credential_closes (some c) credential before used h = rw used refl

    exit-closing :
        (given : Option ℕ) (credential client sender : ℕ) (before : List SdkCall)
        → IsUsed given credential
        → (exit sdk (record {
          publisher = opened namespace topic given credential client sender;
          calls = before;
        })).0
          ≡ ok tt
        → (exit sdk (record {
          publisher = opened namespace topic given credential client sender;
          calls = before;
        })).1
          ≡ record {
            publisher = new_publisher namespace topic given;
            calls = closing given credential client sender before;
          }
    unfolding exit
    exit-closing given credential client sender before used h =
        elim (Option-cases (sdk before (close_sender sender))) [
          | inl fails ↦ absurd (let h' = rw (fails, and_then, answered) at h in cc)
          | inr (_, closed) ↦
              elim (Option-cases (sdk (close_sender sender ∷ before) (close_client client))) [
                | inl fails ↦ absurd (let h' = rw (closed, fails, and_then, answered) at h in cc)
                | inr (_, closed') ↦
                    rw (closed, closed')
                      (exit_credential_closes given credential
                        (close_client client ∷ close_sender sender ∷ before) used
                        (rw (closed, closed', and_then, answered) at h))
              ]
        ]

    -- the object after `async with` and a block that publishes these events
    abbrev pub after_block : Printer → Option ℕ → List OutboundEvent → Method (Unit {0})
    after_block printer given events =
        exit sdk (publish_each sdk printer events (enter sdk (fresh given)).1)

    -- When a new object's entry and exit return, then whatever the sends between them did: the
    -- entry's calls, one send for each event in order, and the closing of the sender, of the
    -- client, and of the credential just when the object made it, are all the SDK has seen; the
    -- object is as it was made, and another `publish` raises without a call.
    pub after_block_closes :
        (printer : Printer) (given : Option ℕ) (events : List OutboundEvent)
        → (enter sdk (fresh given)).0 ≡ ok tt
        → (after_block printer given events).0 ≡ ok tt
        → (credential : ℕ) × (client : ℕ) × (sender : ℕ) × ((after_block printer given events).1
            ≡ record {
              publisher = new_publisher namespace topic given;
              calls = closing given credential client sender (
                  sending printer sender events
                    (opening namespace topic given credential client calls));
            })
          × IsUsed given credential
          × ((e : OutboundEvent)
              → publish sdk printer e (after_block printer given events).1
                ≡ (err not_open, (after_block printer given events).1))
    unfolding publish
    after_block_closes printer given events enters exits =
        let (credential, client, sender, at, used) = enter_opens given enters in
        let sent =
          ap (publish_each sdk printer events) at
          ∙ publish_each-sending printer given credential client sender events
              (opening namespace topic given credential client calls) in
        let closed =
          ap (λ s. (exit sdk s).1) sent
          ∙ exit-closing given credential client sender
              (sending printer sender events
                (opening namespace topic given credential client calls))
              used (rw sent at exits) in
        (credential, client, sender, closed, used, λ e. rw closed refl)
