-- ===== src/Orders/Outbox/Due.antt =====
-- `due_event_statement` of apps/orders/outbox.py, condition by condition.
use swarmscope.Base.{
  ◌&&◌, ◌||◌, not, holds, is_none, some_inj, ℕ, ◌≤◌, ◌≡◌, refl, ◌↔◌, ◌⊎◌, Bool, true, false, Option,
  none, some, arith, inl, inr, leb,
}
use swarmscope.Orders.Models.{OutboxEvent}
use swarmscope.Orders.Outbox.Database.{eligible}
use swarmscope.Orders.Outbox.{due_event_statement}

-- A row that may be claimed at a time while others hold locks: it has not been published, its next
-- attempt is due, no lease is left on it, and nobody holds its lock.
abbrev pub IsDue : ℕ → (ℕ → Bool) → OutboxEvent → Type 0
IsDue now locked e =
    (e.published_at ≡ none)
    × (e.next_attempt_at ≤ now)
    × ((e.lease_expires_at ≡ none) ⊎ ((t : ℕ) × (e.lease_expires_at ≡ some t) × (t ≤ now)))
    × (locked e.event_id ≡ false)

due-parts :
    (published lease : Option ℕ) (next now : ℕ) (locked : Bool)
    → ((is_none published
          && leb next now
          && (is_none lease || holds (λ t. leb t now) lease)
          && not locked)
        ≡ true)
      ↔ ((published ≡ none)
          × (next ≤ now)
          × ((lease ≡ none) ⊎ ((t : ℕ) × (lease ≡ some t) × (t ≤ now)))
          × (locked ≡ false))
due-parts (some p) lease next now locked = (λ h. absurd (cc), λ (e, _, _, _). absurd (cc (e)))
due-parts none none next now locked = (
  λ h. (refl, ground arith, inl refl, ground arith),
  λ (_, ripe, _, free). ground (arith, ripe, free),
)
due-parts none (some t) next now locked = (
  λ h. (refl, ground arith, inr (t, refl, ground arith), ground arith),
  λ (_, ripe, over, free). elim over [
    | inl e ↦ absurd (cc (e))
    | inr (u, e, due) ↦ let same : t ≡ u = some_inj e in ground (arith, ripe, free, same, due)
  ],
)

-- The statement selects exactly the rows that are due.
pub due_event_statement-IsDue :
    (now : ℕ) (locked : ℕ → Bool) (e : OutboxEvent)
    → (eligible (due_event_statement now) locked e ≡ true) ↔ IsDue now locked e
unfolding due_event_statement
due_event_statement-IsDue now locked e =
    due-parts e.published_at e.lease_expires_at e.next_attempt_at now (locked e.event_id)
