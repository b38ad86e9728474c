-- ===== src/Orders/Outbox/Calls.antt =====
-- What every call of `run_once` (apps/orders/outbox.py) does, however its transactions end.
use swarmscope.Base.{
  take, leb, Bool-cases, ℕ, ◌+◌, ◌≤◌, ◌≡◌, refl, ap, ◌≢◌, Bool, true, false, Option, none, some,
  List, Text, arith, All, IsKeyed, length, Result, ok, err, transaction, inl, inr, ◌>>=◌, err_inj,
  transaction_raises,
}
use swarmscope.Orders.Models.{OutboxEvent, IsAdmitted, storable, integer_max}
use swarmscope.Orders.Messaging.{OutboundEvent}
use swarmscope.Orders.Outbox.Database.{Engine}
use swarmscope.Orders.Outbox.{
  OutboxPublisher, Outbox, World, Turn, Tx, ClaimedEvent, OutboxError, connection_lost, cancelled,
  Delivery, delivered, refused, interrupted, accept, PublishOutcome, published, settle,
  datetime_max, retry_update, outcome_published, outcome_failed, claim_next_event, claim_event,
  mark_published, release_for_retry, release_after, run_once, after_claim, settle_delivery,
  database_time, due_event_statement, or_backoff,
}
use swarmscope.Orders.Backoff.{BackoffError, max_error_length}
use swarmscope.Orders.Outbox.Changes.{
  Change, event_key, claim_next_event-Change, mark_published-Change, release_for_retry-Change,
}
use swarmscope.Orders.Outbox.Admission.{Change-IsKeyed, Change-IsAdmitted}

-- Rows that the database admits, each under its own key.
pub record IsWellFormed (rows : Outbox) : Type 0 where
  pub keyed : IsKeyed event_key rows
  pub admitted : All IsAdmitted rows

Change-IsWellFormed :
    {read may : ℕ → Type 0} {self : OutboxPublisher} {rows rows' : Outbox}
    → Change read may self rows rows'
    → IsWellFormed rows
    → IsWellFormed rows'
Change-IsWellFormed ch h = record {
  keyed = Change-IsKeyed ch h.keyed;
  admitted = Change-IsAdmitted ch h.keyed h.admitted;
}

rows-settle :
    (outcome : PublishOutcome) (r : Result OutboxError (Unit {0}) × Outbox)
    → (settle outcome r).1 ≡ r.1
rows-settle outcome (ok _, rows) = refl
rows-settle outcome (err _, rows) = refl

settle_delivery-IsWellFormed :
    (self : OutboxPublisher) (tx : Tx) (c : ClaimedEvent) (rows : Outbox) (d : Delivery)
    → IsWellFormed rows
    → IsWellFormed (settle_delivery self tx c rows d).1
unfolding settle_delivery
settle_delivery-IsWellFormed self tx c rows delivered h =
    rw (rows-settle (outcome_published c) (mark_published self tx c rows))
      (Change-IsWellFormed (mark_published-Change (λ _. ⊥) self tx rows c) h)
settle_delivery-IsWellFormed self tx c rows (refused error _) h =
    rw (rows-settle (outcome_failed c error) (release_for_retry self tx c error rows))
      (Change-IsWellFormed (release_for_retry-Change (λ _. ⊥) (λ _. ⊥) self tx rows c error) h)
settle_delivery-IsWellFormed self tx c rows (interrupted _) h = h

after_claim-IsWellFormed :
    (self : OutboxPublisher) (turn : Turn) (r : Result OutboxError (Option ClaimedEvent))
    (rows : Outbox) (broker : List OutboundEvent)
    → IsWellFormed rows
    → IsWellFormed (after_claim self turn (r, rows) broker).1.outbox
unfolding after_claim
after_claim-IsWellFormed self turn (err e) rows broker h = h
after_claim-IsWellFormed self turn (ok none) rows broker h = h
after_claim-IsWellFormed self turn (ok (some c)) rows broker h =
    settle_delivery-IsWellFormed self turn.settle_tx c rows turn.delivery h

-- Whatever its transactions and the broker do, a call on a keyed table of rows that the database
-- admits leaves such a table.
pub run_once-IsWellFormed :
    (engine : Engine) (self : OutboxPublisher) (turn : Turn) (world : World)
    → IsWellFormed world.outbox
    → IsWellFormed (run_once engine self turn world).1.outbox
unfolding run_once
run_once-IsWellFormed engine self turn world h =
    after_claim-IsWellFormed self turn
      (claim_next_event engine self turn.claim_tx turn.locked world.outbox).0
      (claim_next_event engine self turn.claim_tx turn.locked world.outbox).1 world.broker
      (Change-IsWellFormed
        (claim_next_event-Change (λ _. ⊥) self turn.claim_tx world.outbox engine turn.locked) h)

abbrev pub is_interrupted : Delivery → Bool
is_interrupted (interrupted _) = true
is_interrupted _ = false

database_time-calm : (tx : Tx) → database_time tx ≢ err cancelled
database_time-calm tx = go tx.clock
  where
    go : (clock : Option ℕ) → database_time (record tx { clock = clock }) ≢ err cancelled
    go none h = cc
    go (some now) h = cc

bind-calm :
    {A B : Type 0} (m : Result OutboxError A) (f : A → Result OutboxError B)
    → m ≢ err cancelled
    → ((a : A) → f a ≢ err cancelled)
    → (m >>= f) ≢ err cancelled
bind-calm (ok a) f hm hf = hf a
bind-calm {A} (err e) f hm hf = λ h. hm (ap (λ x. err x) (err_inj h))

-- A method whose block is never cancelled does not raise a cancellation.
tx-calm :
    {A : Type 0} (tx : Tx) (rows : Outbox) (body : ℕ → Result OutboxError (A × Outbox))
    → ((now : ℕ) → body now ≢ err cancelled)
    → (transaction connection_lost tx.ending rows (database_time tx >>= body)).0 ≢ err cancelled
tx-calm tx rows body calm h =
    elim (transaction_raises connection_lost tx.ending rows (database_time tx >>= body) h) [
      | inl e ↦ cc
      | inr e ↦ bind-calm (database_time tx) body (database_time-calm tx) calm e
    ]

claim_event-calm :
    (self : OutboxPublisher) (now : ℕ) (rows : Outbox) (found : Option OutboxEvent)
    → claim_event self now rows found ≢ err cancelled
unfolding claim_event
claim_event-calm self now rows none h = cc
claim_event-calm self now rows (some e) h =
    elim (Bool-cases (leb (now + self.lease_duration) datetime_max)) [
      | inr late ↦ let h' = rw late at h in cc
      | inl early ↦ elim (Bool-cases (leb (e.publish_attempts + 1) integer_max)) [
        | inl room ↦ let h' = rw (early, room) at h in cc
        | inr full ↦ let h' = rw (early, full) at h in cc
      ]
    ]

retry_update-calm :
    (self : OutboxPublisher) (c : ClaimedEvent) (error : Text) (rows : Outbox) (next : ℕ)
    → retry_update self c error rows next ≢ err cancelled
retry_update-calm self c error rows next h = elim (Bool-cases (leb next datetime_max)) [
  | inr late ↦ let h' = rw late at h in cc
  | inl early ↦ elim (Bool-cases (storable (take max_error_length error))) [
    | inl fit ↦ let h' = rw (early, fit) at h in cc
    | inr unfit ↦ let h' = rw (early, unfit) at h in cc
  ]
]

release_after-calm :
    (self : OutboxPublisher) (tx : Tx) (c : ClaimedEvent) (error : Text) (rows : Outbox)
    (delay : Result BackoffError ℕ)
    → (release_after self tx c error rows (or_backoff delay)).0 ≢ err cancelled
unfolding release_after
release_after-calm self tx c error rows (err e) = λ h. cc
release_after-calm self tx c error rows (ok delay) =
    tx-calm tx rows _ (λ now. retry_update-calm self c error rows (now + delay))

settle-calm :
    (outcome : PublishOutcome) (r : Result OutboxError (Unit {0}) × Outbox)
    → r.0 ≢ err cancelled
    → (settle outcome r).0 ≢ err cancelled
settle-calm outcome (ok _, rows) calm h = cc
settle-calm outcome (err e, rows) calm h = calm (ap (λ x. err x) (err_inj h))

settle_delivery-calm :
    (self : OutboxPublisher) (tx : Tx) (c : ClaimedEvent) (rows : Outbox) (d : Delivery)
    → is_interrupted d ≡ false
    → (settle_delivery self tx c rows d).0 ≢ err cancelled
unfolding settle_delivery mark_published release_for_retry
settle_delivery-calm self tx c rows delivered calm =
    settle-calm (outcome_published c) _ (tx-calm tx rows _ (λ now h. cc))
settle_delivery-calm self tx c rows (refused error _) calm =
    settle-calm (outcome_failed c error) _ (release_after-calm self tx c error rows _)
settle_delivery-calm self tx c rows (interrupted _) calm = absurd (cc)

after_claim-calm :
    (self : OutboxPublisher) (turn : Turn) (r : Result OutboxError (Option ClaimedEvent))
    (rows : Outbox) (broker : List OutboundEvent)
    → r ≢ err cancelled
    → is_interrupted turn.delivery ≡ false
    → (after_claim self turn (r, rows) broker).0 ≢ err cancelled
unfolding after_claim
after_claim-calm self turn (err e) rows broker calm d = λ h. calm (ap (λ x. err x) (err_inj h))
after_claim-calm self turn (ok none) rows broker calm d = λ h. cc
after_claim-calm self turn (ok (some c)) rows broker calm d =
    settle_delivery-calm self turn.settle_tx c rows turn.delivery d

-- Only a cancelled delivery leaves `run_once` as a cancellation.
pub run_once-calm :
    (engine : Engine) (self : OutboxPublisher) (turn : Turn) (world : World)
    → is_interrupted turn.delivery ≡ false
    → (run_once engine self turn world).0 ≢ err cancelled
unfolding run_once
run_once-calm engine self turn world =
    after_claim-calm self turn
      (claim_next_event engine self turn.claim_tx turn.locked world.outbox).0
      (claim_next_event engine self turn.claim_tx turn.locked world.outbox).1 world.broker
      (tx-calm turn.claim_tx world.outbox _ (λ now.
        claim_event-calm self now world.outbox
          (engine.scalar (due_event_statement now) turn.locked world.outbox)))

-- one for a call that reports a publication
abbrev pub publications : Result OutboxError PublishOutcome → ℕ
publications (ok o) = elim o.result [ published ↦ 1 | _ ↦ 0 ]
publications (err _) = 0

publications-settle :
    (outcome : PublishOutcome) (r : Result OutboxError (Unit {0}) × Outbox)
    → publications (settle outcome r).0 ≤ publications (ok outcome)
publications-settle outcome (ok _, rows) = omega arith
publications-settle outcome (err _, rows) = omega arith

accepted-settle :
    (self : OutboxPublisher) (tx : Tx) (c : ClaimedEvent) (rows : Outbox) (d : Delivery)
    (broker : List OutboundEvent)
    → publications (settle_delivery self tx c rows d).0 + length broker
      ≤ length (accept d c.outbound broker)
unfolding settle_delivery
accepted-settle self tx c rows delivered broker =
    omega (arith, publications-settle (outcome_published c) (mark_published self tx c rows))
accepted-settle self tx c rows (refused error true) broker =
    omega
      (arith, publications-settle (outcome_failed c error) (release_for_retry self tx c error rows))
accepted-settle self tx c rows (refused error false) broker =
    omega
      (arith, publications-settle (outcome_failed c error) (release_for_retry self tx c error rows))
accepted-settle self tx c rows (interrupted true) broker = omega arith
accepted-settle self tx c rows (interrupted false) broker = omega arith

after_claim-accepted :
    (self : OutboxPublisher) (turn : Turn) (r : Result OutboxError (Option ClaimedEvent))
    (rows : Outbox) (broker : List OutboundEvent)
    → let (result, after) = after_claim self turn (r, rows) broker in
      publications result + length broker ≤ length after.broker
unfolding after_claim
after_claim-accepted self turn (err e) rows broker = omega arith
after_claim-accepted self turn (ok none) rows broker = omega arith
after_claim-accepted self turn (ok (some c)) rows broker =
    accepted-settle self turn.settle_tx c rows turn.delivery broker

-- A call that reports a publication has had a message accepted, and no call loses one.
pub run_once-accepted :
    (engine : Engine) (self : OutboxPublisher) (turn : Turn) (world : World)
    → let (result, after) = run_once engine self turn world in
      publications result + length world.broker ≤ length after.broker
unfolding run_once
run_once-accepted engine self turn world =
    after_claim-accepted self turn
      (claim_next_event engine self turn.claim_tx turn.locked world.outbox).0
      (claim_next_event engine self turn.claim_tx turn.locked world.outbox).1 world.broker
