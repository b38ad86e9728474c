-- ===== src/Orders/Outbox.antt =====
-- apps/orders/outbox.py: `OutboxPublisher` claims one due row, hands its event to the broker and
-- records the outcome, each write in a transaction of its own.
pub mod Database
pub mod Changes
pub mod Admission
pub mod Content
pub mod RunOnce
pub mod Due
pub mod Recovery
pub mod Calls
pub mod Workers
use swarmscope.Base.{
  ℕ, ◌+◌, ◌-◌, ◌*◌, Bool, true, false, ◌&&◌, ◌||◌, Option, none, some, List, [], ◌∷◌, ◌++◌, Text,
  take, ltb, leb, ◌==◌, if◌then◌else◌, is_none, holds, update_where, Result, ok, err, ◌>>=◌, Ending,
  transaction,
}
use swarmscope.Orders.Models.{OutboxEvent, integer_max, storable}
use swarmscope.Orders.Messaging.{OutboundEvent}
use swarmscope.Orders.Outbox.Database.{Select, Engine}
use swarmscope.Orders.Backoff.{
  BackoffError, value_error, overflow_error, backoff_delay, max_error_length,
}

-- the next claimable event
unfoldable pub due_event_statement : ℕ → Select
due_event_statement now = record {
  condition = λ e.
      is_none e.published_at
      && leb e.next_attempt_at now
      && (is_none e.lease_expires_at || holds (λ t. leb t now) e.lease_expires_at);
  first_key = λ e. e.next_attempt_at;
  second_key = λ e. e.occurred_at;
}

pub data PublishResult : Type 0 where
  published failed idle : PublishResult

pub record PublishOutcome : Type 0 where
  pub result : PublishResult
  pub event_id : Option ℕ
  pub attempts : Option ℕ
  pub error : Option Text

-- `_ClaimedEvent`
pub record ClaimedEvent : Type 0 where
  pub event_id : ℕ
  pub outbound : OutboundEvent
  pub attempts : ℕ

-- the fields of `OutboxPublisher` that its methods read
pub record OutboxPublisher : Type 0 where
  pub owner : ℕ
  pub lease_duration : ℕ
  pub base_backoff : ℕ
  pub max_backoff : ℕ

-- What a method raises: `_database_time` without a time, a value that the column cannot hold, a date
-- after `datetime.max`, a lost connection, `backoff_delay`, or a cancellation, which is no
-- `Exception`.
pub data OutboxError : Type 0 where
  runtime_error data_error date_overflow connection_lost cancelled : OutboxError
  backoff : BackoffError → OutboxError

-- One transaction's surroundings: the time that PostgreSQL returns, and how it ends.
pub record Tx : Type 0 where
  pub clock : Option ℕ
  pub ending : Ending

abbrev pub database_time : Tx → Result OutboxError ℕ
database_time tx = elim tx.clock [ none ↦ err runtime_error | some now ↦ ok now ]

-- `datetime.max`, in microseconds since `datetime.min`; a later date raises `OverflowError`.
abbrev pub datetime_max : ℕ
datetime_max = 3652059 * 86400000000 - 1

abbrev pub Outbox : Type 0
Outbox = List OutboxEvent

abbrev pub outbound_of : OutboxEvent → OutboundEvent
outbound_of e = record {
  event_id = e.event_id;
  event_type = e.event_type;
  event_version = e.event_version;
  occurred_at = e.occurred_at;
  correlation_id = e.correlation_id;
  payload = e.payload;
}

-- the assignments of `_claim_next_event`
unfoldable pub lease_row : OutboxPublisher → ℕ → OutboxEvent → OutboxEvent
lease_row self now e = record e {
  lease_owner = some self.owner;
  lease_expires_at = some (now + self.lease_duration);
  publish_attempts = e.publish_attempts + 1;
  last_attempt_at = some now;
}

abbrev pub has_id : ℕ → OutboxEvent → Bool
has_id k e = e.event_id == k

-- The lease's end may lie after `datetime.max`. The object's changed columns are written back under
-- its primary key when the block ends; a count that no longer fits `Integer` makes that write raise.
unfoldable pub claim_event :
    OutboxPublisher
    → ℕ
    → Outbox
    → Option OutboxEvent
    → Result OutboxError (Option ClaimedEvent × Outbox)
unfolding lease_row
claim_event self now rows none = ok (none, rows)
claim_event self now rows (some event) =
    if leb (now + self.lease_duration) datetime_max
    then if leb (event.publish_attempts + 1) integer_max
      then ok (
        some (record {
          event_id = event.event_id;
          outbound = outbound_of event;
          attempts = event.publish_attempts + 1;
        }),
        update_where (has_id event.event_id) (lease_row self now) rows,
      )
      else err data_error
    else err date_overflow

-- the condition of both settling statements
abbrev pub owned_by : ℕ → ℕ → OutboxEvent → Bool
owned_by owner k e = e.event_id == k && holds (λ o. o == owner) e.lease_owner

-- the values of `_mark_published`
unfoldable pub publish_row : ℕ → OutboxEvent → OutboxEvent
publish_row now e = record e {
  published_at = some now;
  lease_owner = none;
  lease_expires_at = none;
  last_publish_error = none;
}

-- the values of `_release_for_retry`
unfoldable pub retry_row : ℕ → Text → OutboxEvent → OutboxEvent
retry_row next error e = record e {
  lease_owner = none;
  lease_expires_at = none;
  next_attempt_at = next;
  last_publish_error = some (take max_error_length error);
}

unfoldable pub mark_published :
    OutboxPublisher → Tx → ClaimedEvent → Outbox → Result OutboxError (Unit {0}) × Outbox
unfolding transaction publish_row
mark_published self tx claimed rows = transaction connection_lost tx.ending rows (do
  now ← database_time tx
  ok (tt, update_where (owned_by self.owner claimed.event_id) (publish_row now) rows))

abbrev pub or_backoff : Result BackoffError ℕ → Result OutboxError ℕ
or_backoff (ok d) = ok d
or_backoff (err e) = err (backoff e)

-- the update of `_release_for_retry`; the column refuses an error text with U+0000
abbrev pub retry_update :
    OutboxPublisher → ClaimedEvent → Text → Outbox → ℕ → Result OutboxError (Unit {0} × Outbox)
retry_update self claimed error rows next =
    if leb next datetime_max
    then if storable (take max_error_length error)
      then ok (tt, update_where (owned_by self.owner claimed.event_id) (retry_row next error) rows)
      else err data_error
    else err date_overflow

-- `_release_for_retry` from the delay on
unfoldable pub release_after :
    OutboxPublisher
    → Tx
    → ClaimedEvent
    → Text
    → Outbox
    → Result OutboxError ℕ
    → Result OutboxError (Unit {0}) × Outbox
unfolding transaction retry_row
release_after self tx claimed error rows (err e) = (err e, rows)
release_after self tx claimed error rows (ok delay) =
    transaction connection_lost tx.ending rows
      (do now ← database_time tx; retry_update self claimed error rows (now + delay))

-- The delay is computed before the transaction is opened.
unfoldable pub release_for_retry :
    OutboxPublisher → Tx → ClaimedEvent → Text → Outbox → Result OutboxError (Unit {0}) × Outbox
unfolding release_after
release_for_retry self tx claimed error rows =
    release_after self tx claimed error rows
      (or_backoff (backoff_delay claimed.attempts self.base_backoff self.max_backoff))

module _ (engine : Engine) where
  unfoldable pub claim_next_event :
      OutboxPublisher → Tx → (ℕ → Bool) → Outbox → Result OutboxError (Option ClaimedEvent) × Outbox
  unfolding transaction claim_event due_event_statement
  claim_next_event self tx locked rows = transaction connection_lost tx.ending rows (do
    now ← database_time tx
    claim_event self now rows (engine.scalar (due_event_statement now) locked rows))

-- What became of one `publish`: it returned, which says that the broker has the message; or it
-- raised an `Exception` or was cancelled, and the broker may have the message all the same.
pub data Delivery : Type 0 where
  delivered : Delivery
  refused : Text → Bool → Delivery
  interrupted : Bool → Delivery

-- The table, and the messages that the broker has accepted, the last one first.
pub record World : Type 0 where
  pub outbox : Outbox
  pub broker : List OutboundEvent

abbrev pub accept : Delivery → OutboundEvent → List OutboundEvent → List OutboundEvent
accept delivered m broker = m ∷ broker
accept (refused _ arrived) m broker = if arrived then m ∷ broker else broker
accept (interrupted arrived) m broker = if arrived then m ∷ broker else broker

-- One call's surroundings: the claim's transaction and the rows that others have locked, the
-- delivery, and the settlement's transaction.
pub record Turn : Type 0 where
  pub claim_tx : Tx
  pub locked : ℕ → Bool
  pub delivery : Delivery
  pub settle_tx : Tx

abbrev pub outcome_idle : PublishOutcome
outcome_idle = record { result = idle; event_id = none; attempts = none; error = none }

abbrev pub outcome_published : ClaimedEvent → PublishOutcome
outcome_published c = record {
  result = published;
  event_id = some c.event_id;
  attempts = some c.attempts;
  error = none;
}

abbrev pub outcome_failed : ClaimedEvent → Text → PublishOutcome
outcome_failed c e = record {
  result = failed;
  event_id = some c.event_id;
  attempts = some c.attempts;
  error = some e;
}

-- the value that a settlement returns, or what it raised
abbrev pub settle :
    PublishOutcome
    → Result OutboxError (Unit {0}) × Outbox
    → Result OutboxError PublishOutcome × Outbox
settle outcome (ok _, rows) = (ok outcome, rows)
settle outcome (err e, rows) = (err e, rows)

-- the `try` around `publish`, its handler, and the settlement after it
unfoldable pub settle_delivery :
    OutboxPublisher
    → Tx
    → ClaimedEvent
    → Outbox
    → Delivery
    → Result OutboxError PublishOutcome × Outbox
unfolding mark_published release_for_retry
settle_delivery self tx claimed rows delivered =
    settle (outcome_published claimed) (mark_published self tx claimed rows)
settle_delivery self tx claimed rows (refused error _) =
    settle (outcome_failed claimed error) (release_for_retry self tx claimed error rows)
settle_delivery self tx claimed rows (interrupted _) = (err cancelled, rows)

-- `run_once` from the claim's result on
unfoldable pub after_claim :
    OutboxPublisher
    → Turn
    → Result OutboxError (Option ClaimedEvent) × Outbox
    → List OutboundEvent
    → Result OutboxError PublishOutcome × World
unfolding settle_delivery
after_claim self turn (err e, rows) broker = (err e, record { outbox = rows; broker = broker })
after_claim self turn (ok none, rows) broker =
    (ok outcome_idle, record { outbox = rows; broker = broker })
after_claim self turn (ok (some claimed), rows) broker =
    let (result, rows') = settle_delivery self turn.settle_tx claimed rows turn.delivery in
    (result, record { outbox = rows'; broker = accept turn.delivery claimed.outbound broker })

module _ (engine : Engine) where
  unfoldable pub run_once :
      OutboxPublisher → Turn → World → Result OutboxError PublishOutcome × World
  unfolding after_claim claim_next_event
  run_once self turn world =
      after_claim self turn (claim_next_event engine self turn.claim_tx turn.locked world.outbox)
        world.broker
