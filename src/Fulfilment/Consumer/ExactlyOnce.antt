-- ===== src/Fulfilment/Consumer/ExactlyOnce.antt =====
-- The consumer's loop (apps/fulfilment/consumer.py) over any deliveries, endings of transactions and
-- settlements.
use swarmscope.Base.{
  All-map, ℕ, ◌+◌, ◌≡◌, refl, inl, inr, Option, none, some, List, [], ◌∷◌, Text, Bool-cases, In,
  All, Result, ok, err,
}
use swarmscope.Runtime.{is_set}
use swarmscope.Contracts.{OrderPlacedV1}
use swarmscope.Fulfilment.Models.{Tables, DatabaseError}
use swarmscope.Fulfilment.Service.{Handled, fulfil_order}
use swarmscope.Fulfilment.Service.Once.{fulfil_order-Outcome}
use swarmscope.Fulfilment.Consumer.{
  Settlement, completed, dead_lettered, abandoned, Body, Delivery, Consumer, ConsumerError,
  read_body, tell, settle_handled, settle_parsed, settle_read, settle_message, LoopState,
  LoopConfig, Round, LoopEnd, raised, after_settlement, settle_batch, consumer_round,
  run_consumer_loop, state_of,
}
use swarmscope.Fulfilment.Consumer.Account.{Agrees, IsOnce, Grows, Outcome-Grows}

module _ (decode : List ℕ → Option Text) (validate_json : Text → Option OrderPlacedV1)
    (sent : List OrderPlacedV1) where
  -- The body is that of the event.
  abbrev pub Carries : Body → OrderPlacedV1 → Type 0
  Carries body e =
      (text : Text) × (read_body decode validate_json body ≡ ok text)
      × (validate_json text ≡ some e)

  -- A delivery whose body is valid is that of an event that was sent.
  abbrev pub IsSent : Delivery → Type 0
  IsSent d = (e : OrderPlacedV1) → Carries d.body e → In e sent

  -- A completed message has its event among these.
  abbrev pub IsBacked : List OrderPlacedV1 → Settlement × Body → Type 0
  IsBacked es (completed, body) = (e : OrderPlacedV1) × Carries body e × In e es
  IsBacked es (dead_lettered, body) = Unit
  IsBacked es (abandoned, body) = Unit

  abbrev pub IsSettled : Consumer → Type 0
  IsSettled c = (es : List OrderPlacedV1) × IsOnce sent es c.tables × All (IsBacked es) c.told

  tell-IsSettled :
      (settlement : Settlement) (d : Delivery) (c : Consumer) (es : List OrderPlacedV1)
      → IsOnce sent es c.tables
      → All (IsBacked es) c.told
      → IsBacked es (settlement, d.body)
      → IsSettled (tell decode validate_json settlement d c).1
  unfolding tell
  tell-IsSettled settlement d c es once told backed = elim (Bool-cases d.receiver_returns) [
    | inl returns ↦ rw returns (es, once, (backed, told))
    | inr raises ↦ elim (Bool-cases d.receiver_reaches) [
      | inl reaches ↦ rw (raises, reaches) (es, once, (backed, told))
      | inr lost ↦ rw (raises, lost) (es, once, told)
    ]
  ]

  IsBacked-grows :
      (es now : List OrderPlacedV1)
      → ((e : OrderPlacedV1) → In e es → In e now)
      → (x : Settlement × Body) → IsBacked es x
      → IsBacked now x
  IsBacked-grows es now kept (completed, body) (e, carries, at) = (e, carries, kept e at)
  IsBacked-grows es now kept (dead_lettered, body) h = tt
  IsBacked-grows es now kept (abandoned, body) h = tt

  settle_handled-IsSettled :
      (d : Delivery) (event : OrderPlacedV1) (c : Consumer) (es : List OrderPlacedV1)
      (r : Result DatabaseError Handled) (t : Tables)
      → Grows sent event es r t
      → All (IsBacked es) c.told
      → Carries d.body event
      → IsSettled (settle_handled decode validate_json d (r, t) c).1
  unfolding settle_handled
  settle_handled-IsSettled d event c es (ok h) t g told carries =
      tell-IsSettled completed d (record c { tables = t }) g.now g.once
        (All-map (IsBacked es) (IsBacked g.now) c.told (IsBacked-grows es g.now g.kept) told)
        (event, carries, g.done h refl)
  settle_handled-IsSettled d event c es (err e) t g told carries =
      tell-IsSettled abandoned d (record c { tables = t }) g.now g.once
        (All-map (IsBacked es) (IsBacked g.now) c.told (IsBacked-grows es g.now g.kept) told) tt

  -- the deliveries of a round
  abbrev pub AllSent : Round → Type 0
  AllSent r = elim r.received [ none ↦ Unit | some ds ↦ All IsSent ds ]

  module _ (agrees : Agrees sent) where
    settle_parsed-IsSettled :
        (d : Delivery) (parsed : Option OrderPlacedV1) (c : Consumer)
        → ((e : OrderPlacedV1) → parsed ≡ some e → Carries d.body e × In e sent)
        → IsSettled c
        → IsSettled (settle_parsed decode validate_json d parsed c).1
    unfolding settle_parsed
    settle_parsed-IsSettled d none c meaning (es, once, told) =
        tell-IsSettled dead_lettered d c es once told tt
    settle_parsed-IsSettled d (some event) c meaning (es, once, told) =
        settle_handled-IsSettled d event c es (fulfil_order d.call event c.tables).0
          (fulfil_order d.call event c.tables).1
          (Outcome-Grows sent agrees d.call event es c.tables
            (fulfil_order-Outcome d.call event c.tables) once (meaning event refl).1)
          told (meaning event refl).0

    settle_read-IsSettled :
        (d : Delivery) (text : Result ConsumerError Text) (c : Consumer)
        → read_body decode validate_json d.body ≡ text
        → IsSent d
        → IsSettled c
        → IsSettled (settle_read decode validate_json d text c).1
    unfolding settle_read
    settle_read-IsSettled d (err e) c reads genuine h = h
    settle_read-IsSettled d (ok text) c reads genuine h =
        settle_parsed-IsSettled d (validate_json text) c
          (λ e valid. ((text, reads, valid), genuine e (text, reads, valid))) h

    -- One delivery of a sent event, or of a body that is not valid, keeps the account, however its
    -- transaction and its settlement end.
    pub settle_message-IsSettled :
        (d : Delivery) (c : Consumer)
        → IsSent d
        → IsSettled c
        → IsSettled (settle_message decode validate_json d c).1
    unfolding settle_message
    settle_message-IsSettled d c genuine h =
        settle_read-IsSettled d (read_body decode validate_json d.body) c refl genuine h

    after_settlement-IsSettled :
        (s : LoopState) (x : Result ConsumerError Settlement × Consumer)
        → IsSettled x.1
        → IsSettled (after_settlement s x).1.consumer
    after_settlement-IsSettled s (ok settlement, c) h = h
    after_settlement-IsSettled s (err e, c) h = h

    batch-IsSettled :
        (x rest : Result ConsumerError (Unit {0}) × LoopState)
        → IsSettled x.1.consumer
        → IsSettled rest.1.consumer
        → IsSettled
            (elim x.0 as (λ _. Result ConsumerError (Unit {0}) × LoopState) [
              | ok _ ↦ rest
              | err e ↦ (err e, x.1)
            ]).1.consumer
    batch-IsSettled (ok _, s') rest h k = k
    batch-IsSettled (err e, s') rest h k = h

    loop-IsSettled :
        (x : Result ConsumerError (Unit {0}) × LoopState) (rest : LoopEnd)
        → IsSettled x.1.consumer
        → IsSettled (state_of rest).consumer
        → IsSettled
            (state_of (elim x.0 as (λ _. LoopEnd) [ ok _ ↦ rest | err e ↦ raised e x.1 ])).consumer
    loop-IsSettled (ok _, s') rest h k = k
    loop-IsSettled (err e, s') rest h k = h

    settle_batch-IsSettled :
        (ds : List Delivery) (s : LoopState)
        → All IsSent ds
        → IsSettled s.consumer
        → IsSettled (settle_batch decode validate_json ds s).1.consumer
    unfolding settle_batch
    settle_batch-IsSettled [] s genuine h = h
    settle_batch-IsSettled (d ∷ ds) s genuine h =
        let kept =
          after_settlement-IsSettled s (settle_message decode validate_json d s.consumer)
            (settle_message-IsSettled d s.consumer genuine.0 h) in
        batch-IsSettled (after_settlement s (settle_message decode validate_json d s.consumer))
          (settle_batch decode validate_json ds
            (after_settlement s (settle_message decode validate_json d s.consumer)).1)
          kept
          (settle_batch-IsSettled ds
            (after_settlement s (settle_message decode validate_json d s.consumer)).1 genuine.1
            kept)

    round-IsSettled :
        (config : LoopConfig) (received : Option (List Delivery)) (s : LoopState)
        → elim received as (λ _. Type 0) [ none ↦ Unit | some ds ↦ All IsSent ds ]
        → IsSettled s.consumer
        → IsSettled (consumer_round decode validate_json config received s).1.consumer
    unfolding consumer_round
    round-IsSettled config none s genuine h = h
    round-IsSettled config (some []) s genuine h = h
    round-IsSettled config (some (d ∷ ds)) s genuine h = settle_batch-IsSettled (d ∷ ds) s genuine h

    -- If events that were sent agree where they share an id or an order, every valid delivery was
    -- sent, and the account is in order at the start, then however the consumer's loop ends it is in
    -- order: the rows are those of sent events, one for each event and each order with the event's
    -- contents, and every message that the broker was told is completed has its event among them.
    pub exactly_once :
        (config : LoopConfig) (rounds : List Round) (s : LoopState)
        → All AllSent rounds
        → IsSettled s.consumer
        → IsSettled (state_of (run_consumer_loop decode validate_json config rounds s)).consumer
    unfolding run_consumer_loop
    exactly_once config [] s genuine h = elim (Bool-cases (is_set config.shutdown s.time)) [
      | inl stop ↦ rw stop h
      | inr go ↦ rw go h
    ]
    exactly_once config (r ∷ rounds) s genuine h =
        let after =
          consumer_round decode validate_json config r.received
            (record s { time = s.time + r.takes }) in
        let kept =
          round-IsSettled config r.received (record s { time = s.time + r.takes }) genuine.0 h in
        elim (Bool-cases (is_set config.shutdown s.time)) [
          | inl stop ↦ rw stop h
          | inr go ↦ rw go (
              loop-IsSettled after (run_consumer_loop decode validate_json config rounds after.1)
                kept (exactly_once config rounds after.1 genuine.1 kept))
        ]
