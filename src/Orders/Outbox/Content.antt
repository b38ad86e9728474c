-- ===== src/Orders/Outbox/Content.antt =====
-- The event that a row carries, under the changes of apps/orders/outbox.py and in its claims.
use mathlib.Core.Option
use swarmscope.Base.{
  ℕ, ◌≡◌, refl, sym, ap, ◌∙◌, Bool, Option, none, some, In, IsKeyed, find_row,
  find_row-update_where, find_row_of_In, rewrite_if, Bool-cases, inl, inr, leb, ◌+◌, ok, some_inj,
  ok_inj, key_of_find_row, find_row_of_absent, has_key, false, subst, ◌==◌, ==→eq, ◌∷◌,
  transaction_ok, update_where, ◌>>=◌,
}
use swarmscope.Orders.Models.{OutboxEvent, integer_max}
use swarmscope.Orders.Messaging.{OutboundEvent}
use swarmscope.Orders.Outbox.Database.{Engine}
use swarmscope.Orders.Outbox.{
  OutboxPublisher, Outbox, Tx, ClaimedEvent, outbound_of, lease_row, publish_row, retry_row,
  datetime_max, claim_event, claim_next_event, connection_lost, due_event_statement, has_id,
  owned_by, database_time,
}
use swarmscope.Orders.Outbox.Changes.{Change, unchanged, leased, marked, retried, event_key}

-- the event of the row with this id
abbrev pub carried : ℕ → Outbox → Option OutboundEvent
carried k rows = Option.map outbound_of (find_row event_key k rows)

module _ (p : OutboxEvent → Bool) (f : OutboxEvent → OutboxEvent) where
  keeps-rewrite_if :
      ((e : OutboxEvent) → outbound_of (f e) ≡ outbound_of e)
      → (e : OutboxEvent) → outbound_of (rewrite_if p f e) ≡ outbound_of e
  keeps-rewrite_if keep e = elim (Bool-cases (p e)) [
    | inl hit ↦ rw hit (keep e)
    | inr miss ↦ rw miss refl
  ]

  keeps-map :
      ((e : OutboxEvent) → outbound_of (f e) ≡ outbound_of e)
      → (o : Option OutboxEvent)
      → Option.map outbound_of (Option.map (rewrite_if p f) o) ≡ Option.map outbound_of o
  keeps-map keep none = refl
  keeps-map keep (some e) = ap some (keeps-rewrite_if keep e)

  carried-update :
      ((e : OutboxEvent) → event_key (f e) ≡ event_key e)
      → ((e : OutboxEvent) → outbound_of (f e) ≡ outbound_of e)
      → (k : ℕ) (rows : Outbox) → carried k (update_where p f rows) ≡ carried k rows
  carried-update same keep k rows =
      ap (Option.map outbound_of) (find_row-update_where event_key p f same k rows)
      ∙ keeps-map keep (find_row event_key k rows)

pub Change-carried :
    {read may : ℕ → Type 0} {self : OutboxPublisher} {rows rows' : Outbox} (k : ℕ)
    → Change read may self rows rows'
    → carried k rows' ≡ carried k rows
unfolding lease_row publish_row retry_row
Change-carried k (unchanged e) = ap (carried k) e
Change-carried {self} {rows} k (leased now locked r _ t e) =
    ap (carried k) e
    ∙ carried-update (has_id r.event_id) (lease_row self now) (λ x. refl) (λ x. refl) k rows
Change-carried {self} {rows} k (marked now j _ e) =
    ap (carried k) e
    ∙ carried-update (owned_by self.owner j) (publish_row now) (λ x. refl) (λ x. refl) k rows
Change-carried {self} {rows} k (retried next j error _ e) =
    ap (carried k) e
    ∙ carried-update (owned_by self.owner j) (retry_row next error) (λ x. refl) (λ x. refl) k rows

-- In a keyed table a row's event is found under its id.
pub carried_of_In :
    (e : OutboxEvent) (rows : Outbox)
    → IsKeyed event_key rows
    → In e rows
    → carried e.event_id rows ≡ some (outbound_of e)
carried_of_In e rows keyed m = ap (Option.map outbound_of) (find_row_of_In event_key e rows keyed m)

module _ (self : OutboxPublisher) (rows : Outbox) (keyed : IsKeyed event_key rows) where
  claim_event-carried :
      (now : ℕ) (found : Option OutboxEvent) {c : ClaimedEvent} {rows' : Outbox}
      → ((e : OutboxEvent) → found ≡ some e → In e rows)
      → claim_event self now rows found ≡ ok (some c, rows')
      → carried c.event_id rows ≡ some c.outbound
  unfolding claim_event
  claim_event-carried now none inside h = absurd (cc)
  claim_event-carried now (some e) {c} inside h =
      elim (Bool-cases (leb (now + self.lease_duration) datetime_max)) [
        | inr late ↦ absurd (let h' = rw late at h in cc)
        | inl early ↦ elim (Bool-cases (leb (e.publish_attempts + 1) integer_max)) [
          | inl room ↦
              let made : _ ≡ c = some_inj (ap (λ p. p.0) (ok_inj (rw (early, room) at h))) in
              rw (← made) (carried_of_In e rows keyed (inside e refl))
          | inr full ↦ absurd (let h' = rw (early, full) at h in cc)
        ]
      ]

  -- A claim hands out the event of the row that it names.
  pub claim-carried :
      (engine : Engine) (tx : Tx) (locked : ℕ → Bool) {c : ClaimedEvent}
      → (claim_next_event engine self tx locked rows).0 ≡ ok (some c)
      → carried c.event_id rows ≡ some c.outbound
  unfolding claim_next_event
  claim-carried engine tx locked h = go tx.clock (transaction_ok connection_lost tx.ending rows _ h)
    where
      go :
          (clock : Option ℕ) {c : ClaimedEvent} {rows' : Outbox}
          → (database_time (record tx { clock = clock }) >>= λ now.
              claim_event self now rows (engine.scalar (due_event_statement now) locked rows))
            ≡ ok (some c, rows')
          → carried c.event_id rows ≡ some c.outbound
      go none e = absurd (cc)
      go (some now) e =
          claim_event-carried now (engine.scalar (due_event_statement now) locked rows)
            (engine.scalar-In (due_event_statement now) locked rows) e

-- An event that is found is found under its own id.
pub carried-id :
    (k : ℕ) (rows : Outbox) {m : OutboundEvent} → carried k rows ≡ some m → m.event_id ≡ k
carried-id k rows {m} h = go (find_row event_key k rows) refl h
  where
    go :
        (o : Option OutboxEvent)
        → find_row event_key k rows ≡ o
        → Option.map outbound_of o ≡ some m
        → m.event_id ≡ k
    go none e p = absurd (cc)
    go (some r) e p =
        ap (λ (x : OutboundEvent). x.event_id) (sym (some_inj p))
        ∙ key_of_find_row event_key k r rows e

-- A row with a new id hides no event.
pub carried-cons :
    (k : ℕ) (e : OutboxEvent) (rows : Outbox) {m : OutboundEvent}
    → has_key event_key e.event_id rows ≡ false
    → carried k rows ≡ some m
    → carried k (e ∷ rows) ≡ some m
unfolding find_row
carried-cons k e rows {m} new_key h = elim (Bool-cases (e.event_id == k)) [
  | inl same ↦
      let gone : carried k rows ≡ none = ap (Option.map outbound_of) (
        find_row_of_absent event_key k rows
          (subst (λ j. has_key event_key j rows ≡ false) (==→eq _ _ same) new_key)) in
      absurd (cc)
  | inr other ↦ rw other h
]
