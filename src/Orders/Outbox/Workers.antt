-- ===== src/Orders/Outbox/Workers.antt =====
-- Several publisher processes over one table, as interleaved steps of `run_once`
-- (apps/orders/outbox.py): a claim, the delivery and the settlement are steps of their own, a
-- process may stop for good or be restarted between any two of them, and orders keep arriving.
pub mod Soundness
pub mod Exclusion
pub mod Promises
use swarmscope.Base.{
  ℕ, ◌≡◌, Bool, true, false, Option, none, some, List, [], ◌∷◌, Text, ◌==◌, if◌then◌else◌, has_key,
  Result, ok, err,
}
use swarmscope.Orders.Models.{OutboxEvent, IsAdmitted}
use swarmscope.Orders.Messaging.{OutboundEvent}
use swarmscope.Orders.Outbox.Database.{Engine}
use swarmscope.Orders.Outbox.{
  OutboxPublisher, Outbox, Tx, ClaimedEvent, Delivery, delivered, refused, interrupted, accept,
  OutboxError, claim_next_event, mark_published, release_for_retry,
}
use swarmscope.Orders.Outbox.Changes.{event_key}

-- where a process stands in `run_once`
pub data Phase : Type 0 where
  resting : Phase
  claimed : ClaimedEvent → Phase
  sent : ClaimedEvent → Phase
  failing : ClaimedEvent → Text → Phase

pub record System : Type 0 where
  pub outbox : Outbox
  pub broker : List OutboundEvent
  pub phase : ℕ → Phase

abbrev pub enter : ℕ → Phase → (ℕ → Phase) → ℕ → Phase
enter w p phases v = if v == w then p else phases v

abbrev pub phase_after_claim : Result OutboxError (Option ClaimedEvent) → Phase
phase_after_claim (ok (some c)) = claimed c
phase_after_claim (ok none) = resting
phase_after_claim (err _) = resting

-- A cancelled call leaves `run_once`, with its claim in the table.
abbrev pub phase_after_delivery : Delivery → ClaimedEvent → Phase
phase_after_delivery delivered c = sent c
phase_after_delivery (refused error _) c = failing c error
phase_after_delivery (interrupted _) c = resting

pub data Step (engine : Engine) (self : OutboxPublisher) (s : System) : System → Type 0 where
  claim :
      (tx : Tx) (locked : ℕ → Bool)
      → s.phase self.owner ≡ resting
      → Step engine self s (record s {
        outbox = (claim_next_event engine self tx locked s.outbox).1;
        phase =
            enter self.owner
              (phase_after_claim (claim_next_event engine self tx locked s.outbox).0)
              s.phase;
      })
  deliver :
      (c : ClaimedEvent) (d : Delivery)
      → s.phase self.owner ≡ claimed c
      → Step engine self s (record s {
        broker = accept d c.outbound s.broker;
        phase = enter self.owner (phase_after_delivery d c) s.phase;
      })
  settle_published :
      (c : ClaimedEvent) (tx : Tx)
      → s.phase self.owner ≡ sent c
      → Step engine self s (record s {
        outbox = (mark_published self tx c s.outbox).1;
        phase = enter self.owner resting s.phase;
      })
  settle_failed :
      (c : ClaimedEvent) (error : Text) (tx : Tx)
      → s.phase self.owner ≡ failing c error
      → Step engine self s (record s {
        outbox = (release_for_retry self tx c error s.outbox).1;
        phase = enter self.owner resting s.phase;
      })
  crash : Step engine self s (record s { phase = enter self.owner resting s.phase })
  -- an order's transaction commits
  place :
      (e : OutboxEvent)
      → IsAdmitted e
      → e.published_at ≡ none
      → has_key event_key e.event_id s.outbox ≡ false
      → Step engine self s (record s { outbox = e ∷ s.outbox })

pub data Reach (engine : Engine) (s : System) : System → Type 0 where
  here : Reach engine s s
  next :
      {t u : System} (self : OutboxPublisher)
      → Reach engine s t
      → Step engine self t u
      → Reach engine s u

-- an empty table, an empty topic, and processes that have not begun
abbrev pub fresh : System
fresh = record { outbox = []; broker = []; phase = λ _. resting }
