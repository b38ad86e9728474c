-- ===== src/Orders/Outbox/Changes.antt =====
-- What each method of `OutboxPublisher` (apps/orders/outbox.py) may do to the table, as one of four
-- kinds of change, and what every change keeps.
use swarmscope.Base.{
  ℕ, ◌+◌, ap, sym, ◌∙◌, ◌>>=◌, ◌≡◌, refl, ◌⊎◌, inl, inr, Bool, true, Option, none, some, Text, In,
  take, leb, Bool-cases, Result, ok, err, ok_inj, transaction, transaction_atomic, update_where,
}
use swarmscope.Orders.Models.{OutboxEvent, integer_max, storable}
use swarmscope.Orders.Backoff.{max_error_length}
use swarmscope.Orders.Outbox.Database.{Engine, eligible}
use swarmscope.Orders.Outbox.{
  OutboxPublisher, Outbox, Tx, ClaimedEvent, OutboxError, connection_lost, due_event_statement,
  lease_row, publish_row, retry_row, has_id, owned_by, claim_event, claim_next_event, datetime_max,
  retry_update, mark_published, release_for_retry, release_after, database_time, runtime_error,
}

abbrev pub event_key : OutboxEvent → ℕ
event_key e = e.event_id

-- The row was due at `now` and free, and its count can still grow.
pub record IsTakeable (now : ℕ) (locked : ℕ → Bool) (rows : Outbox) (e : OutboxEvent) : Type 0 where
  pub member : In e rows
  pub due : eligible (due_event_statement now) locked e ≡ true
  pub room : leb (e.publish_attempts + 1) integer_max ≡ true

-- `may k` is what a change that marks event `k` as published rests on, and `read now` what a lease
-- from `now` on does.
pub data Change (read may : ℕ → Type 0) (self : OutboxPublisher) (rows rows' : Outbox)
    : Type 0 where
  unchanged : rows' ≡ rows → Change read may self rows rows'
  leased :
      (now : ℕ) (locked : ℕ → Bool) (e : OutboxEvent)
      → read now
      → IsTakeable now locked rows e
      → rows' ≡ update_where (has_id e.event_id) (lease_row self now) rows
      → Change read may self rows rows'
  marked :
      (now k : ℕ)
      → may k
      → rows' ≡ update_where (owned_by self.owner k) (publish_row now) rows
      → Change read may self rows rows'
  retried :
      (next k : ℕ) (error : Text)
      → storable (take max_error_length error) ≡ true
      → rows' ≡ update_where (owned_by self.owner k) (retry_row next error) rows
      → Change read may self rows rows'

-- A transaction that begins by reading the time leaves the table as it was, or as its block says.
timed_cases :
    {A : Type 0} (tx : Tx) (rows : Outbox) (body : ℕ → Result OutboxError (A × Outbox))
    → let after = (transaction connection_lost tx.ending rows (database_time tx >>= body)).1 in
      (after ≡ rows)
      ⊎ ((now : ℕ) × (a : A) × (rows' : Outbox) × (tx.clock ≡ some now)
          × (body now ≡ ok (a, rows'))
          × (after ≡ rows'))
timed_cases {A} tx rows body = go tx.clock
  where
    go :
        (clock : Option ℕ)
        → let after =
            (transaction connection_lost tx.ending rows
              (database_time (record tx { clock = clock }) >>= body)).1 in
          (after ≡ rows)
          ⊎ ((now : ℕ) × (a : A) × (rows' : Outbox) × (clock ≡ some now)
              × (body now ≡ ok (a, rows'))
              × (after ≡ rows'))
    go none =
        let body' : Result OutboxError (A × Outbox) = err runtime_error in
        elim (transaction_atomic connection_lost tx.ending rows body') [
          | inl same ↦ inl same
          | inr (_, _, e, _) ↦ absurd (cc)
        ]
    go (some now) = elim (transaction_atomic connection_lost tx.ending rows (body now)) [
      | inl same ↦ inl same
      | inr (a, rows', e, after) ↦ inr (now, a, rows', refl, e, after)
    ]

module _ (read : ℕ → Type 0) (self : OutboxPublisher) (tx : Tx) (rows : Outbox) where
  pub mark_published-Change :
      (claimed : ClaimedEvent)
      → Change read (λ k. k ≡ claimed.event_id) self rows (mark_published self tx claimed rows).1
  unfolding mark_published
  mark_published-Change claimed = elim (timed_cases tx rows _) [
    | inl same ↦ unchanged same
    | inr (now, _, rows', _, e, after) ↦
        marked now claimed.event_id refl (after ∙ sym (ap (λ p. p.1) (ok_inj e)))
  ]

module _ (read may : ℕ → Type 0) (self : OutboxPublisher) (tx : Tx) (rows : Outbox) where
  retried-Change :
      (claimed : ClaimedEvent) (error : Text) (rows' : Outbox) (next : ℕ) {a : Unit {0}}
      {after : Outbox}
      → retry_update self claimed error rows next ≡ ok (a, rows')
      → after ≡ rows'
      → Change read may self rows after
  retried-Change claimed error rows' next e after = elim (Bool-cases (leb next datetime_max)) [
    | inr late ↦ absurd (let e' = rw late at e in cc)
    | inl early ↦ elim (Bool-cases (storable (take max_error_length error))) [
      | inr refused ↦ absurd (let e' = rw (early, refused) at e in cc)
      | inl fit ↦
          retried next claimed.event_id error fit
            (after ∙ sym (ap (λ p. p.1) (ok_inj (rw (early, fit) at e))))
    ]
  ]

  retry-Change :
      (claimed : ClaimedEvent) (error : Text) (delay : Result OutboxError ℕ)
      → Change read may self rows (release_after self tx claimed error rows delay).1
  unfolding release_after
  retry-Change claimed error (err e) = unchanged refl
  retry-Change claimed error (ok delay) = elim (timed_cases tx rows _) [
    | inl same ↦ unchanged same
    | inr (now, _, rows', _, e, after) ↦ retried-Change claimed error rows' (now + delay) e after
  ]

  pub release_for_retry-Change :
      (claimed : ClaimedEvent) (error : Text)
      → Change read may self rows (release_for_retry self tx claimed error rows).1
  unfolding release_for_retry
  release_for_retry-Change claimed error = retry-Change claimed error _

module _ (may : ℕ → Type 0) (self : OutboxPublisher) (tx : Tx) (rows : Outbox) where
  leased-Change :
      (read : ℕ → Type 0) (engine : Engine) (locked : ℕ → Bool) (now : ℕ)
      → read now
      → (found : Option OutboxEvent) {c : Option ClaimedEvent} {rows' : Outbox}
      → engine.scalar (due_event_statement now) locked rows ≡ found
      → claim_event self now rows found ≡ ok (c, rows')
      → Change read may self rows rows'
  unfolding claim_event
  leased-Change read engine locked now at none hit e = unchanged (sym (ap (λ p. p.1) (ok_inj e)))
  leased-Change read engine locked now at (some event) hit e =
      elim (Bool-cases (leb (now + self.lease_duration) datetime_max)) [
        | inr late ↦ absurd (let e' = rw late at e in cc)
        | inl early ↦ elim (Bool-cases (leb (event.publish_attempts + 1) integer_max)) [
          | inl room ↦
              leased now locked event at
                (record {
                  member = engine.scalar-In (due_event_statement now) locked rows event hit;
                  due = engine.scalar-eligible (due_event_statement now) locked rows event hit;
                  room = room;
                })
                (sym (ap (λ p. p.1) (ok_inj (rw (early, room) at e))))
          | inr full ↦ absurd (let e' = rw (early, full) at e in cc)
        ]
      ]

  pub claim_next_event-Change :
      (engine : Engine) (locked : ℕ → Bool)
      → Change
          (λ now. tx.clock ≡ some now)
          may
          self
          rows
          (claim_next_event engine self tx locked rows).1
  unfolding claim_next_event
  claim_next_event-Change engine locked = elim (timed_cases tx rows _) [
    | inl same ↦ unchanged same
    | inr (now, c, rows', at, e, after) ↦
        rw after (leased-Change (λ n. tx.clock ≡ some n) engine locked now at _ refl e)
  ]
