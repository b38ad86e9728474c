-- ===== src/Orders/Outbox/Recovery.antt =====
-- The two calls of `run_once` (apps/orders/outbox.py) that publish nothing: one that finds nothing
-- to do, and one that stops between its claim and its settlement.
use swarmscope.Base.{
  In-find_row, if◌then◌else◌, ℕ, ◌+◌, ◌≤◌, ◌≡◌, refl, ap, ◌≢◌, ◌↔◌, Bool, true, false, Option, none,
  some, arith, Bool-cases, Option-cases, find_row, IsKeyed, In, Result, ok, err, ok_inj, inl, inr,
  commits, leb,
}
use swarmscope.Orders.Models.{OutboxEvent, integer_max}
use swarmscope.Orders.Outbox.Database.{Engine, eligible, sorts_before}
use swarmscope.Orders.Outbox.{
  datetime_max, date_overflow, claim_next_event, data_error, Tx, OutboxPublisher, Outbox, World,
  Turn, ClaimedEvent, OutboxError, Delivery, delivered, refused, interrupted, accept,
  PublishOutcome, outcome_idle, outcome_published, outcome_failed, outbound_of, lease_row,
  due_event_statement, claim_event, run_once, cancelled, settle_delivery, mark_published,
  release_for_retry, settle,
}
use swarmscope.Orders.Outbox.Due.{IsDue, due_event_statement-IsDue}
use swarmscope.Orders.Outbox.Changes.{event_key}
use swarmscope.Orders.Outbox.RunOnce.{Claims, claimed_from, find_row-leased, leased_rows}

-- A settlement reports the outcome that it is given, or raises.
settle-busy :
    (outcome : PublishOutcome) (r : Result OutboxError (Unit {0}) × Outbox)
    → outcome ≢ outcome_idle
    → (settle outcome r).0 ≢ ok outcome_idle
settle-busy outcome (ok _, rows) ne h = ne (ok_inj h)
settle-busy outcome (err _, rows) ne h = cc

settle_delivery-busy :
    (self : OutboxPublisher) (turn : Turn) (c : ClaimedEvent) (rows : Outbox) (d : Delivery)
    → (settle_delivery self turn.settle_tx c rows d).0 ≢ ok outcome_idle
unfolding settle_delivery
settle_delivery-busy self turn c rows delivered =
    settle-busy (outcome_published c) (mark_published self turn.settle_tx c rows)
      (λ e. cc (ap (λ (o : PublishOutcome). o.result) e))
settle_delivery-busy self turn c rows (refused error _) =
    settle-busy (outcome_failed c error) (release_for_retry self turn.settle_tx c error rows)
      (λ e. cc (ap (λ (o : PublishOutcome). o.result) e))
settle_delivery-busy self turn c rows (interrupted _) = λ h. cc

module _ (engine : Engine) (self : OutboxPublisher) (turn : Turn) (world : World) {now : ℕ}
    (clock : turn.claim_tx.clock ≡ some now) (ending : turn.claim_tx.ending ≡ commits) where
  -- the call from the statement's result on
  idle_cases :
      (found : Option OutboxEvent)
      → engine.scalar (due_event_statement now) turn.locked world.outbox ≡ found
      → (run_once engine self turn world).0 ≡ ok outcome_idle
      → found ≡ none
  unfolding run_once claim_event
  idle_cases none hit h = refl
  idle_cases (some e) hit h = elim (Bool-cases (leb (now + self.lease_duration) datetime_max)) [
    | inr late ↦ absurd (let h' = rw (clock, ending, hit, late) at h in cc)
    | inl early ↦ elim (Bool-cases (leb (e.publish_attempts + 1) integer_max)) [
      | inl room ↦ absurd (
          settle_delivery-busy self turn (claimed_from e) (leased_rows self now e world.outbox)
            turn.delivery (rw (clock, ending, hit, early, room) at h))
      | inr full ↦ absurd (let h' = rw (clock, ending, hit, early, full) at h in cc)
    ]
  ]

  -- With a claim whose transaction has a time and commits, the call reports idleness exactly when
  -- no row is due: each has been published, waits for its next attempt, is leased beyond that time,
  -- or is locked by others; and then the call changes nothing.
  pub run_once-idle_iff :
      ((run_once engine self turn world).0 ≡ ok outcome_idle
        → ((e : OutboxEvent) → In e world.outbox → ¬ IsDue now turn.locked e))
      × (((e : OutboxEvent) → In e world.outbox → ¬ IsDue now turn.locked e)
          → run_once engine self turn world ≡ (ok outcome_idle, world))
  unfolding run_once claim_event
  run_once-idle_iff = (
    λ h e inside due.
        engine.scalar-found (due_event_statement now) turn.locked world.outbox e inside
          ((due_event_statement-IsDue now turn.locked e).1 due) (idle_cases _ refl h),
    λ nothing.
        elim (Option-cases (engine.scalar (due_event_statement now) turn.locked world.outbox)) [
          | inl empty ↦ rw (clock, ending, empty) refl
          | inr (e, hit) ↦ absurd (
              nothing e (engine.scalar-In (due_event_statement now) turn.locked world.outbox e hit)
                ((due_event_statement-IsDue now turn.locked e).0 (
                  engine.scalar-eligible (due_event_statement now) turn.locked world.outbox e hit)))
        ],
  )

module _ (engine : Engine) (other : OutboxPublisher) (tx : Tx) (locked : ℕ → Bool) where
  -- What a claim of `s` at the time `t` answers: its event, unless its lease would end after
  -- `datetime.max` or its count no longer fits.
  abbrev claim_answer : ℕ → OutboxEvent → Result OutboxError (Option ClaimedEvent)
  claim_answer t s =
      if leb (t + other.lease_duration) datetime_max
      then if leb (s.publish_attempts + 1) integer_max
        then ok (some (claimed_from s))
        else err data_error
      else err date_overflow

  -- A claim at the time `t` returns some row, which is `r` or sorts no later than `r`.
  abbrev pub Claimable : ℕ → Outbox → OutboxEvent → Type 0
  Claimable t rows r =
      (s : OutboxEvent) × (engine.scalar (due_event_statement t) locked rows ≡ some s)
      × (sorts_before (due_event_statement t) s r ≡ true)
      × ((claim_next_event engine other tx locked rows).0 ≡ claim_answer t s)

  claim-returns :
      {t : ℕ} {rows : Outbox} {s : OutboxEvent}
      → tx.clock ≡ some t
      → tx.ending ≡ commits
      → engine.scalar (due_event_statement t) locked rows ≡ some s
      → (claim_next_event engine other tx locked rows).0 ≡ claim_answer t s
  unfolding claim_next_event claim_event
  claim-returns {t} {rows} {s} clock ending hit =
      elim (Bool-cases (leb (t + other.lease_duration) datetime_max)) [
        | inr late ↦ rw (clock, ending, hit, late) refl
        | inl early ↦ elim (Bool-cases (leb (s.publish_attempts + 1) integer_max)) [
          | inl room ↦ rw (clock, ending, hit, early, room) refl
          | inr full ↦ rw (clock, ending, hit, early, full) refl
        ]
      ]

  claim-Claimable :
      {t : ℕ} {rows : Outbox} (r : OutboxEvent)
      → tx.clock ≡ some t
      → tx.ending ≡ commits
      → In r rows
      → eligible (due_event_statement t) locked r ≡ true
      → Claimable t rows r
  claim-Claimable {t} {rows} r clock ending inside free =
      let q = due_event_statement t in
      elim (Option-cases (engine.scalar q locked rows)) [
        | inl nothing ↦ absurd (engine.scalar-found q locked rows r inside free nothing)
        | inr (s, hit) ↦ (
          s,
          hit,
          engine.scalar-least q locked rows s r hit inside free,
          claim-returns clock ending hit,
        )
      ]

module _ (engine : Engine) (self : OutboxPublisher) (turn : Turn) (world : World) {now : ℕ}
    {e : OutboxEvent} (keyed : IsKeyed event_key world.outbox)
    (c : Claims engine self turn world.outbox now e) where
  run_once-interrupted :
      {arrived : Bool}
      → turn.delivery ≡ interrupted arrived
      → run_once engine self turn world ≡ (
        err cancelled,
        record {
          outbox = leased_rows self now e world.outbox;
          broker = accept (interrupted arrived) (outbound_of e) world.broker;
        },
      )
  unfolding run_once claim_event
  run_once-interrupted sent = rw (c.clock, c.ending, c.picked, c.early, c.room, sent) refl

  lease-due :
      (t : ℕ) (locked : ℕ → Bool)
      → now ≤ t
      → (eligible (due_event_statement t) locked (lease_row self now e) ≡ true)
        ↔ ((now + self.lease_duration ≤ t) × (locked e.event_id ≡ false))
  unfolding lease_row due_event_statement
  lease-due t locked after =
      ground (
        arith,
        engine.scalar-eligible (due_event_statement now) turn.locked world.outbox e c.picked,
      )

  -- In a keyed table, a call that is cancelled after its claim of `e` has committed leaves a row
  -- `r` under that id with the event of `e` and one attempt more. From then on, for any process and
  -- a claim of it whose transaction has a time and commits, `r` is due at that time, and the claim's
  -- statement returns a row, `r` or one that sorts no later, and the claim returns the event of the
  -- returned row with one attempt more, or raises where this count no longer fits the column or its
  -- own lease would end after `datetime.max`, exactly when the lease has run out and nobody holds the lock of `r`.
  pub interrupted_recovers :
      {arrived : Bool}
      → turn.delivery ≡ interrupted arrived
      → (other : OutboxPublisher) (tx : Tx) (locked : ℕ → Bool) {t : ℕ} → now ≤ t
      → tx.clock ≡ some t
      → tx.ending ≡ commits
      → let rows = (run_once engine self turn world).1.outbox in
        (r : OutboxEvent) × (find_row event_key e.event_id rows ≡ some r)
        × (outbound_of r ≡ outbound_of e)
        × (r.publish_attempts ≡ e.publish_attempts + 1)
        × ((IsDue t locked r × Claimable engine other tx locked t rows r)
            ↔ ((now + self.lease_duration ≤ t) × (locked e.event_id ≡ false)))
  unfolding lease_row
  interrupted_recovers sent other tx locked {t} after clock ending =
      let rows = (run_once engine self turn world).1.outbox in
      let found : find_row event_key e.event_id rows ≡ some (lease_row self now e) =
        rw (run_once-interrupted sent) (find_row-leased engine self turn world.outbox c keyed) in
      (
        lease_row self now e,
        found,
        refl,
        refl,
        (
          λ due.
              (lease-due t locked after).0
                ((due_event_statement-IsDue t locked (lease_row self now e)).1 due.0),
          λ expired.
              let free = (lease-due t locked after).1 expired in
              (
                (due_event_statement-IsDue t locked (lease_row self now e)).0 free,
                claim-Claimable engine other tx locked (lease_row self now e) clock ending
                    (In-find_row event_key e.event_id _ _ found) free,
              ),
        ),
      )
