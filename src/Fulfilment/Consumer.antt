-- ===== src/Fulfilment/Consumer.antt =====
-- apps/fulfilment/consumer.py: each delivery is settled with the broker, and the loop that receives
-- them. The parsing of a body is pydantic's and a parameter.
pub mod Account
pub mod ExactlyOnce
pub mod Settles
use swarmscope.Base.{
  ℕ, ◌+◌, ◌*◌, Bool, true, false, Option, none, some, List, [], ◌∷◌, ◌++◌, Text, if◌then◌else◌,
  Result, ok, err, ◌>>=◌,
}
use swarmscope.Runtime.{is_set, sleep_unless_shutdown}
use swarmscope.Contracts.{OrderPlacedV1}
use swarmscope.Fulfilment.Models.{Tables, DatabaseError}
use swarmscope.Fulfilment.Service.{Call, Handled, fulfil_order}

abbrev pub default_error_backoff : ℕ
default_error_backoff = 5 * 1000000

pub data Settlement : Type 0 where
  completed dead_lettered abandoned : Settlement

pub record ConsumerStats : Type 0 where
  pub fulfilled : ℕ
  pub dead_lettered : ℕ
  pub abandoned : ℕ
  pub idle : ℕ
  pub errors : ℕ

abbrev pub no_stats : ConsumerStats
no_stats = record { fulfilled = 0; dead_lettered = 0; abandoned = 0; idle = 0; errors = 0 }

-- The SDK's body: bytes, a text, or an iterable of chunks.
pub data Body : Type 0 where
  bytes : List ℕ → Body
  string : Text → Body
  chunks : List (List ℕ) → Body

-- What escapes `settle_message`: a body that is not UTF-8, or the receiver's own failure.
pub data ConsumerError : Type 0 where
  unicode_decode_error receiver_error : ConsumerError

-- `b"".join(body)`
abbrev pub join : List (List ℕ) → List ℕ
join [] = []
join (c ∷ cs) = c ++ join cs

-- One delivery: the message's body, the surroundings of `fulfil_order`, and whether the receiver's
-- settling call returns; one that raises may have reached the broker.
pub record Delivery : Type 0 where
  pub body : Body
  pub call : Call
  pub receiver_returns : Bool
  pub receiver_reaches : Bool

-- The tables, and what the broker has been told, the last one first.
pub record Consumer : Type 0 where
  pub tables : Tables
  pub told : List (Settlement × Body)

-- What the code reads of the libraries: `bytes.decode` and `model_validate_json`.
module _ (decode : List ℕ → Option Text) (validate_json : Text → Option OrderPlacedV1) where
  abbrev pub decoded : List ℕ → Result ConsumerError Text
  decoded b = elim (decode b) [ none ↦ err unicode_decode_error | some text ↦ ok text ]

  unfoldable pub read_body : Body → Result ConsumerError Text
  read_body (bytes b) = decoded b
  read_body (string t) = ok t
  read_body (chunks cs) = decoded (join cs)

  -- `await receiver.…_message(message)`
  unfoldable pub tell :
      Settlement → Delivery → Consumer → Result ConsumerError Settlement × Consumer
  tell settlement d c =
      let after = record c { told = (settlement, d.body) ∷ c.told } in
      if d.receiver_returns
      then (ok settlement, after)
      else (err receiver_error, if d.receiver_reaches then after else c)

  -- the second `try` with what follows it
  unfoldable pub settle_handled :
      Delivery
      → Result DatabaseError Handled × Tables
      → Consumer
      → Result ConsumerError Settlement × Consumer
  unfolding tell
  settle_handled d (ok _, tables) c = tell completed d (record c { tables = tables })
  settle_handled d (err _, tables) c = tell abandoned d (record c { tables = tables })

  -- from the parsed body on
  unfoldable pub settle_parsed :
      Delivery → Option OrderPlacedV1 → Consumer → Result ConsumerError Settlement × Consumer
  unfolding tell settle_handled
  settle_parsed d none c = tell dead_lettered d c
  settle_parsed d (some event) c = settle_handled d (fulfil_order d.call event c.tables) c

  unfoldable pub settle_read :
      Delivery → Result ConsumerError Text → Consumer → Result ConsumerError Settlement × Consumer
  unfolding settle_parsed
  settle_read d (err e) c = (err e, c)
  settle_read d (ok text) c = settle_parsed d (validate_json text) c

  unfoldable pub settle_message : Delivery → Consumer → Result ConsumerError Settlement × Consumer
  unfolding settle_read read_body
  settle_message d c = settle_read d (read_body d.body) c

abbrev pub count : Settlement → ConsumerStats → ConsumerStats
count dead_lettered s = record s { dead_lettered = s.dead_lettered + 1 }
count abandoned s = record s { abandoned = s.abandoned + 1 }
count completed s = record s { fulfilled = s.fulfilled + 1 }

pub record LoopState : Type 0 where
  pub stats : ConsumerStats
  pub consumer : Consumer
  pub time : ℕ

pub record LoopConfig : Type 0 where
  pub shutdown : Option ℕ
  pub error_backoff : ℕ

-- One `receive_messages`, which raises or returns a batch, and the time that the round takes.
pub record Round : Type 0 where
  pub received : Option (List Delivery)
  pub takes : ℕ

pub data LoopEnd : Type 0 where
  returned : LoopState → LoopEnd
  raised : ConsumerError → LoopState → LoopEnd
  unfinished : LoopState → LoopEnd

-- what the loop keeps of one settlement
abbrev pub after_settlement :
    LoopState
    → Result ConsumerError Settlement × Consumer
    → Result ConsumerError (Unit {0}) × LoopState
after_settlement s (ok settlement, c) =
    (ok tt, record s { stats = count settlement s.stats; consumer = c })
after_settlement s (err e, c) = (err e, record s { consumer = c })

-- `sleep_unless_shutdown` after a receive that raised
abbrev pub after_receive_error : LoopConfig → LoopState → LoopState
after_receive_error config s = record s {
  stats = record s.stats { errors = s.stats.errors + 1 };
  time = sleep_unless_shutdown config.shutdown s.time config.error_backoff;
}

module _ (decode : List ℕ → Option Text) (validate_json : Text → Option OrderPlacedV1) where
  -- `for message in messages`
  unfoldable pub settle_batch :
      List Delivery → LoopState → Result ConsumerError (Unit {0}) × LoopState
  settle_batch [] s = (ok tt, s)
  settle_batch (d ∷ ds) s =
      let (r, s') = after_settlement s (settle_message decode validate_json d s.consumer) in
      let rest : Result ConsumerError (Unit {0}) × LoopState = settle_batch ds s' in
      elim r [ ok _ ↦ rest | err e ↦ (err e, s') ]

  -- the body of the loop
  unfoldable pub consumer_round :
      LoopConfig → Option (List Delivery) → LoopState → Result ConsumerError (Unit {0}) × LoopState
  unfolding settle_batch
  consumer_round config none s = (ok tt, after_receive_error config s)
  consumer_round config (some []) s =
      (ok tt, record s { stats = record s.stats { idle = s.stats.idle + 1 } })
  consumer_round config (some (d ∷ ds)) s = settle_batch (d ∷ ds) s

  unfoldable pub run_consumer_loop : LoopConfig → List Round → LoopState → LoopEnd
  unfolding consumer_round
  run_consumer_loop config [] s = if is_set config.shutdown s.time then returned s else unfinished s
  run_consumer_loop config (r ∷ rounds) s =
      let (result, s') = consumer_round config r.received (record s { time = s.time + r.takes }) in
      let rest : LoopEnd = run_consumer_loop config rounds s' in
      if is_set config.shutdown s.time
      then returned s
      else elim result [ ok _ ↦ rest | err e ↦ raised e s' ]

-- where the loop stands, however it ends
abbrev pub state_of : LoopEnd → LoopState
state_of (returned s) = s
state_of (raised _ s) = s
state_of (unfinished s) = s
