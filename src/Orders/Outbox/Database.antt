-- ===== src/Orders/Outbox/Database.antt =====
-- What apps/orders/outbox.py relies on of PostgreSQL: a `SELECT … WHERE … ORDER BY … LIMIT 1
-- FOR UPDATE SKIP LOCKED` returns a least row among those that match and that no other
-- transaction has locked. Which one of several least rows is returned is not specified.
use swarmscope.Base.{
  ℕ, ◌≡◌, ◌≢◌, Bool, true, false, not, ◌&&◌, ◌||◌, Option, none, some, List, [], ◌∷◌, inl, inr, In,
  ltb, leb, ◌==◌, if◌then◌else◌, arith, Bool-cases, Option-cases, some_inj, sym, ◌⊎◌,
}
use swarmscope.Orders.Models.{OutboxEvent}

-- a statement over the outbox table: its condition and its two sort keys
pub record Select : Type 0 where
  pub condition : OutboxEvent → Bool
  pub first_key : OutboxEvent → ℕ
  pub second_key : OutboxEvent → ℕ

-- the order of `ORDER BY first_key, second_key`
abbrev pub sorts_before : Select → OutboxEvent → OutboxEvent → Bool
sorts_before q a b =
    ltb (q.first_key a) (q.first_key b)
    || (q.first_key a == q.first_key b && leb (q.second_key a) (q.second_key b))

-- the rows that a statement may return while others hold locks
abbrev pub eligible : Select → (ℕ → Bool) → OutboxEvent → Bool
eligible q locked r = q.condition r && not (locked r.event_id)

pub record Engine : Type 0 where
  pub scalar : Select → (ℕ → Bool) → List OutboxEvent → Option OutboxEvent
  pub scalar-In :
      (q : Select) (locked : ℕ → Bool) (rows : List OutboxEvent) (r : OutboxEvent)
      → scalar q locked rows ≡ some r
      → In r rows
  pub scalar-eligible :
      (q : Select) (locked : ℕ → Bool) (rows : List OutboxEvent) (r : OutboxEvent)
      → scalar q locked rows ≡ some r
      → eligible q locked r ≡ true
  pub scalar-least :
      (q : Select) (locked : ℕ → Bool) (rows : List OutboxEvent) (r s : OutboxEvent)
      → scalar q locked rows ≡ some r
      → In s rows
      → eligible q locked s ≡ true
      → sorts_before q r s ≡ true
  pub scalar-found :
      (q : Select) (locked : ℕ → Bool) (rows : List OutboxEvent) (s : OutboxEvent)
      → In s rows
      → eligible q locked s ≡ true
      → scalar q locked rows ≢ none

sorts_refl : (q : Select) (a : OutboxEvent) → sorts_before q a a ≡ true
sorts_refl q a = ground arith

sorts_total :
    (q : Select) (a b : OutboxEvent) → sorts_before q a b ≡ false → sorts_before q b a ≡ true
sorts_total q a b h = ground arith

sorts_trans :
    (q : Select) (a b c : OutboxEvent)
    → sorts_before q a b ≡ true
    → sorts_before q b c ≡ true
    → sorts_before q a c ≡ true
sorts_trans q a b c h k = ground arith

-- An engine that returns the first of the least rows.
module _ (q : Select) (locked : ℕ → Bool) where
  unfoldable pub better : OutboxEvent → Option OutboxEvent → OutboxEvent
  better r none = r
  better r (some s) = if sorts_before q r s then r else s

  unfoldable pub offer : OutboxEvent → Option OutboxEvent → Option OutboxEvent
  unfolding better
  offer r rest = if eligible q locked r then some (better r rest) else rest

  unfoldable pub first_least : List OutboxEvent → Option OutboxEvent
  unfolding offer
  first_least [] = none
  first_least (r ∷ rows) = offer r (first_least rows)

  -- An offered row is returned, or what was there before.
  offer-cases :
      (x : OutboxEvent) (rest : Option OutboxEvent) (r : OutboxEvent)
      → offer x rest ≡ some r
      → ((x ≡ r) × (eligible q locked r ≡ true)) ⊎ (rest ≡ some r)
  unfolding offer better
  offer-cases x rest r h = elim (Bool-cases (eligible q locked x)) [
    | inl fit ↦ go rest fit (rw fit at h)
    | inr unfit ↦ inr (rw unfit at h)
  ]
    where
      go :
          (o : Option OutboxEvent)
          → eligible q locked x ≡ true
          → some (better x o) ≡ some r
          → ((x ≡ r) × (eligible q locked r ≡ true)) ⊎ (o ≡ some r)
      go none fit e = inl (some_inj e, rw (← some_inj e) fit)
      go (some s) fit e = elim (Bool-cases (sorts_before q x s)) [
        | inl first ↦ let e' : x ≡ r = some_inj (rw first at e) in inl (e', rw (← e') fit)
        | inr later ↦ inr (rw later at e)
      ]

  pub first_least-eligible :
      (rows : List OutboxEvent) (r : OutboxEvent)
      → first_least rows ≡ some r
      → eligible q locked r ≡ true
  unfolding first_least
  first_least-eligible [] r h = absurd (cc)
  first_least-eligible (x ∷ rows) r h = elim (offer-cases x (first_least rows) r h) [
    | inl (_, fit) ↦ fit
    | inr rest ↦ first_least-eligible rows r rest
  ]

  pub first_least-In :
      (rows : List OutboxEvent) (r : OutboxEvent) → first_least rows ≡ some r → In r rows
  unfolding first_least
  first_least-In [] r h = absurd (cc)
  first_least-In (x ∷ rows) r h = elim (offer-cases x (first_least rows) r h) [
    | inl (e, _) ↦ inl (sym e)
    | inr rest ↦ inr (first_least-In rows r rest)
  ]

  pub first_least-found :
      (rows : List OutboxEvent) (s : OutboxEvent)
      → In s rows
      → eligible q locked s ≡ true
      → first_least rows ≢ none
  unfolding first_least offer
  first_least-found [] s m h = elim m [ ]
  first_least-found (x ∷ rows) s (inl e) h = rw (← e, h) (λ p. cc)
  first_least-found (x ∷ rows) s (inr m) h = ground (arith, first_least-found rows s m h)

  better_before :
      (x t : OutboxEvent)
      → (sorts_before q (better x (some t)) x ≡ true)
        × (sorts_before q (better x (some t)) t ≡ true)
  unfolding better
  better_before x t = elim (Bool-cases (sorts_before q x t)) [
    | inl first ↦ rw first (sorts_refl q x, first)
    | inr later ↦ rw later (sorts_total q x t later, sorts_refl q t)
  ]

  -- What is returned comes before the offered row and before what was there.
  offer-least :
      (x : OutboxEvent) (rest : Option OutboxEvent) (r s : OutboxEvent)
      → offer x rest ≡ some r
      → (x ≡ s) ⊎ ((t : OutboxEvent) × (rest ≡ some t) × (sorts_before q t s ≡ true))
      → eligible q locked s ≡ true
      → sorts_before q r s ≡ true
  unfolding offer
  offer-least x none r s h (inl e) fit =
      let here : s ≡ r = unfold better in some_inj (rw (e, fit) at h) in
      rw (← here) (sorts_refl q s)
  offer-least x (some t) r s h (inl e) fit =
      let here : better x (some t) ≡ r = some_inj (rw (e, fit, ← e) at h) in
      rw (← here, ← e) (better_before x t).0
  offer-least x rest r s h (inr (t, e, before)) fit = elim (Bool-cases (eligible q locked x)) [
    | inl taken ↦
        let here : better x (some t) ≡ r = some_inj (rw (taken, e) at h) in
        rw (← here) (sorts_trans q _ t s (better_before x t).1 before)
    | inr passed ↦ rw (← some_inj (rw (passed, e) at h)) before
  ]

  pub first_least-least :
      (rows : List OutboxEvent) (r s : OutboxEvent)
      → first_least rows ≡ some r
      → In s rows
      → eligible q locked s ≡ true
      → sorts_before q r s ≡ true
  unfolding first_least
  first_least-least [] r s h m fit = elim m [ ]
  first_least-least (x ∷ rows) r s h (inl e) fit =
      offer-least x (first_least rows) r s h (inl (sym e)) fit
  first_least-least (x ∷ rows) r s h (inr m) fit = elim (Option-cases (first_least rows)) [
    | inl nothing ↦ absurd (first_least-found rows s m fit nothing)
    | inr (t, e) ↦
        offer-least x (first_least rows) r s h (inr (t, e, first_least-least rows t s e m fit)) fit
  ]

-- The laws can be met.
abbrev pub scanning : Engine
scanning = record {
  scalar = first_least;
  scalar-In = first_least-In;
  scalar-eligible = first_least-eligible;
  scalar-least = first_least-least;
  scalar-found = first_least-found;
}
