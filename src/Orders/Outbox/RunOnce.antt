-- ===== src/Orders/Outbox/RunOnce.antt =====
-- `run_once` of apps/orders/outbox.py, branch by branch: what it returns, what becomes of the row
-- that it claims, and that it leaves the other rows alone.
use mathlib.Core.Option
use swarmscope.Base.{
  ℕ, ◌≤◌, le→leb, ◌+◌, ◌≡◌, refl, ◌∙◌, ◌≢◌, Bool, true, false, Option, none, some, List, [], ◌∷◌,
  Text, arith, find_row, find_row-update_where, find_row_of_In, rewrite_if, IsKeyed, ok, commits,
  update_where, leb, take, key_of_find_row, ==_refl,
}
use swarmscope.Orders.Models.{OutboxEvent, integer_max, storable}
use swarmscope.Orders.Messaging.{OutboundEvent}
use swarmscope.Orders.Backoff.{backoff_delay}
use swarmscope.Orders.Outbox.Database.{Engine}
use swarmscope.Orders.Outbox.{
  OutboxPublisher, Outbox, World, Turn, ClaimedEvent, delivered, refused, accept, outcome_published,
  outcome_failed, has_id, owned_by, outbound_of, lease_row, publish_row, retry_row, datetime_max,
  due_event_statement, claim_next_event, claim_event, run_once,
}
use swarmscope.Orders.Outbox.Changes.{event_key}

abbrev pub claimed_from : OutboxEvent → ClaimedEvent
claimed_from e = record {
  event_id = e.event_id;
  outbound = outbound_of e;
  attempts = e.publish_attempts + 1;
}

-- A claim that commits at `now`, with `e` as the statement's result, where the lease's end is a date
-- and the count can grow.
pub record Claims (engine : Engine) (self : OutboxPublisher) (turn : Turn) (rows : Outbox) (now : ℕ)
    (e : OutboxEvent) : Type 0 where
  pub clock : turn.claim_tx.clock ≡ some now
  pub ending : turn.claim_tx.ending ≡ commits
  pub picked : engine.scalar (due_event_statement now) turn.locked rows ≡ some e
  pub early : leb (now + self.lease_duration) datetime_max ≡ true
  pub room : leb (e.publish_attempts + 1) integer_max ≡ true

abbrev pub leased_rows : OutboxPublisher → ℕ → OutboxEvent → Outbox → Outbox
leased_rows self now e rows = update_where (has_id e.event_id) (lease_row self now) rows

module _ (engine : Engine) (self : OutboxPublisher) (turn : Turn) (rows : Outbox) {now : ℕ}
    {e : OutboxEvent} (c : Claims engine self turn rows now e) where
  pub claim_next_event_lem :
      claim_next_event engine self turn.claim_tx turn.locked rows
      ≡ (ok (some (claimed_from e)), leased_rows self now e rows)
  unfolding claim_next_event claim_event
  claim_next_event_lem = rw (c.clock, c.ending, c.picked, c.early, c.room) refl

  -- The claimed row is found with its lease, and the other rows as they were.
  pub find_row-leased :
      IsKeyed event_key rows
      → find_row event_key e.event_id (leased_rows self now e rows) ≡ some (lease_row self now e)
  unfolding lease_row
  find_row-leased keyed =
      rw
        (
          find_row-update_where event_key (has_id e.event_id) (lease_row self now) (λ x. refl)
              e.event_id rows,
          find_row_of_In event_key e rows keyed
              (engine.scalar-In (due_event_statement now) turn.locked rows e c.picked),
          ==_refl e.event_id,
        )
        refl

module _ (p : OutboxEvent → Bool) (f : OutboxEvent → OutboxEvent) where
  -- An update whose condition asks for another id leaves the row found under `k`.
  pub update-other :
      ((r : OutboxEvent) → event_key (f r) ≡ event_key r)
      → (k : ℕ) (rows : Outbox) → ((r : OutboxEvent) → event_key r ≡ k → p r ≡ false)
      → find_row event_key k (update_where p f rows) ≡ find_row event_key k rows
  update-other same k rows miss =
      find_row-update_where event_key p f same k rows ∙ go (find_row event_key k rows) refl
    where
      go :
          (o : Option OutboxEvent)
          → find_row event_key k rows ≡ o
          → Option.map (rewrite_if p f) o ≡ o
      go none e = refl
      go (some r) e = rw (miss r (key_of_find_row event_key k r rows e)) refl

-- The settlement's transaction commits at `later`.
abbrev pub Settles : Turn → ℕ → Type 0
Settles turn later = (turn.settle_tx.clock ≡ some later) × (turn.settle_tx.ending ≡ commits)

module _ (engine : Engine) (self : OutboxPublisher) (turn : Turn) (world : World) {now : ℕ}
    {e : OutboxEvent} (keyed : IsKeyed event_key world.outbox)
    (c : Claims engine self turn world.outbox now e) where
  -- the world after a settlement by `f`
  abbrev settled_by : (OutboxEvent → OutboxEvent) → List OutboundEvent → World
  settled_by f broker = record {
    outbox = update_where (owned_by self.owner e.event_id) f (leased_rows self now e world.outbox);
    broker = broker;
  }

  run_once-published :
      {later : ℕ}
      → turn.delivery ≡ delivered
      → Settles turn later
      → run_once engine self turn world ≡ (
        ok (outcome_published (claimed_from e)),
        settled_by (publish_row later) (outbound_of e ∷ world.broker),
      )
  unfolding run_once claim_event
  run_once-published sent s = rw (c.clock, c.ending, c.picked, c.early, c.room, sent, s.0, s.1) refl

  run_once-retried :
      {later delay : ℕ} {error : Text} {arrived : Bool}
      → turn.delivery ≡ refused error arrived
      → backoff_delay (e.publish_attempts + 1) self.base_backoff self.max_backoff ≡ ok delay
      → later + delay ≤ datetime_max
      → storable (take 1000 error) ≡ true
      → Settles turn later
      → run_once engine self turn world ≡ (
        ok (outcome_failed (claimed_from e) error),
        settled_by
            (retry_row (later + delay) error)
            (accept (refused error arrived) (outbound_of e) world.broker),
      )
  unfolding run_once claim_event
  run_once-retried {later} {delay} sent wait early fit s =
      rw
        (
          c.clock,
          c.ending,
          c.picked,
          c.early,
          c.room,
          sent,
          wait,
          s.0,
          s.1,
          le→leb (later + delay) datetime_max early,
          fit,
        )
        refl

  -- After a settlement the claimed row is what the settlement makes of its lease.
  find_row-settled :
      (f : OutboxEvent → OutboxEvent) (broker : List OutboundEvent)
      → ((r : OutboxEvent) → event_key (f r) ≡ event_key r)
      → find_row event_key e.event_id (settled_by f broker).outbox ≡ some (f (lease_row self now e))
  unfolding lease_row
  find_row-settled f broker same =
      rw
        (
          find_row-update_where event_key (owned_by self.owner e.event_id) f same e.event_id
              (leased_rows self now e world.outbox),
          find_row-leased engine self turn world.outbox c keyed,
          ==_refl e.event_id,
          ==_refl self.owner,
        )
        refl

  others-settled :
      (f : OutboxEvent → OutboxEvent) (broker : List OutboundEvent)
      → ((r : OutboxEvent) → event_key (f r) ≡ event_key r)
      → (k : ℕ) → k ≢ e.event_id
      → find_row event_key k (settled_by f broker).outbox ≡ find_row event_key k world.outbox
  unfolding lease_row
  others-settled f broker same k ne =
      update-other (owned_by self.owner e.event_id) f same k (leased_rows self now e world.outbox)
        (λ r at. ground arith)
      ∙ update-other (has_id e.event_id) (lease_row self now) (λ x. refl) k world.outbox
          (λ r at. ground arith)

  -- In a keyed table, when the claim of `e` commits, the broker takes the message and the
  -- settlement commits, the call reports the event, the message is the event of the row, the row is
  -- published and free, and no other row has changed.
  pub run_once_publishes :
      {later : ℕ}
      → turn.delivery ≡ delivered
      → Settles turn later
      → let (result, after) = run_once engine self turn world in
        (result ≡ ok (outcome_published (claimed_from e)))
        × (after.broker ≡ outbound_of e ∷ world.broker)
        × (find_row event_key e.event_id after.outbox
            ≡ some (record e {
              published_at = some later;
              publish_attempts = e.publish_attempts + 1;
              lease_owner = none;
              lease_expires_at = none;
              last_attempt_at = some now;
              last_publish_error = none;
            }))
        × ((k : ℕ)
            → k ≢ e.event_id
            → find_row event_key k after.outbox ≡ find_row event_key k world.outbox)
  unfolding publish_row lease_row
  run_once_publishes {later} sent s = rw (run_once-published sent s) (
    refl,
    refl,
    find_row-settled (publish_row later) [] (λ x. refl),
    others-settled (publish_row later) [] (λ x. refl),
  )

  -- In a keyed table, when the claim of `e` commits, `publish` raises an `Exception`, the backoff
  -- is computed and does not end after `datetime.max`, the column can store the cut error text, and
  -- the settlement commits, the call reports the failure, the row is free again and
  -- due after the backoff, with the error cut to its column, and no other row has changed.
  pub run_once_retries :
      {later delay : ℕ} {error : Text} {arrived : Bool}
      → turn.delivery ≡ refused error arrived
      → backoff_delay (e.publish_attempts + 1) self.base_backoff self.max_backoff ≡ ok delay
      → later + delay ≤ datetime_max
      → storable (take 1000 error) ≡ true
      → Settles turn later
      → let (result, after) = run_once engine self turn world in
        (result ≡ ok (outcome_failed (claimed_from e) error))
        × (find_row event_key e.event_id after.outbox
            ≡ some (record e {
              publish_attempts = e.publish_attempts + 1;
              next_attempt_at = later + delay;
              lease_owner = none;
              lease_expires_at = none;
              last_attempt_at = some now;
              last_publish_error = some (take 1000 error);
            }))
        × ((k : ℕ)
            → k ≢ e.event_id
            → find_row event_key k after.outbox ≡ find_row event_key k world.outbox)
  unfolding retry_row lease_row
  run_once_retries {later} {delay} {error} sent wait early fit s =
      rw (run_once-retried sent wait early fit s) (
        refl,
        find_row-settled (retry_row (later + delay) error) [] (λ x. refl),
        others-settled (retry_row (later + delay) error) [] (λ x. refl),
      )
