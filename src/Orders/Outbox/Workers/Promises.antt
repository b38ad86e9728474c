-- ===== src/Orders/Outbox/Workers/Promises.antt =====
-- Rows and accepted messages of the outbox (apps/orders/outbox.py) in the systems that interleaved
-- publisher processes reach.
use mathlib.Core.Option
use swarmscope.Base.{
  ℕ, ◌≡◌, refl, Option, none, some, List, inl, inr, In, All-In, find_row, In-find_row, some_inj,
}
use swarmscope.Orders.Models.{OutboxEvent, IsAdmitted}
use swarmscope.Orders.Messaging.{OutboundEvent}
use swarmscope.Orders.Outbox.Database.{Engine}
use swarmscope.Orders.Outbox.{outbound_of}
use swarmscope.Orders.Outbox.Changes.{event_key}
use swarmscope.Orders.Outbox.Workers.{System, Reach, fresh}
use swarmscope.Orders.Outbox.Workers.Soundness.{
  IsSound, Reach-IsSound, fresh-IsSound, IsCovered, IsGenuine,
}

reached : {engine : Engine} {s : System} → Reach engine fresh s → IsSound s
reached r = Reach-IsSound fresh-IsSound r

IsCovered-sent :
    (broker : List OutboundEvent) (r : OutboxEvent) {at : ℕ}
    → IsCovered broker r
    → r.published_at ≡ some at
    → In (outbound_of r) broker
IsCovered-sent broker r (inl unsent) e = absurd (cc)
IsCovered-sent broker r (inr sent) e = sent

-- Whatever steps the processes take from the empty system, a row that is marked as published has
-- its event, unaltered, among the messages that the broker accepted.
pub marked_was_accepted :
    {engine : Engine} {s : System} (k at : ℕ) (r : OutboxEvent)
    → Reach engine fresh s
    → find_row event_key k s.outbox ≡ some r
    → r.published_at ≡ some at
    → In (outbound_of r) s.broker
marked_was_accepted {s = s} k at r path found e =
    IsCovered-sent s.broker r
      (All-In (IsCovered s.broker) r s.outbox (reached path).covered
        (In-find_row event_key k r s.outbox found))
      e

-- Whatever steps the processes take from the empty system, every message that the broker accepted
-- is the event of the row with its id, and the database admits that row.
pub accepted_was_placed :
    {engine : Engine} {s : System} (m : OutboundEvent)
    → Reach engine fresh s
    → In m s.broker
    → (r : OutboxEvent) × (find_row event_key m.event_id s.outbox ≡ some r)
      × (outbound_of r ≡ m)
      × IsAdmitted r
accepted_was_placed {s = s} m path inside =
    go (find_row event_key m.event_id s.outbox) refl
      (All-In (IsGenuine s.outbox) m s.broker (reached path).genuine inside)
  where
    go :
        (o : Option OutboxEvent)
        → find_row event_key m.event_id s.outbox ≡ o
        → Option.map outbound_of o ≡ some m
        → (r : OutboxEvent) × (find_row event_key m.event_id s.outbox ≡ some r)
          × (outbound_of r ≡ m)
          × IsAdmitted r
    go none e h = absurd (cc)
    go (some r) e h = (
      r,
      e,
      some_inj h,
      All-In IsAdmitted r s.outbox (reached path).admitted
          (In-find_row event_key m.event_id r s.outbox e),
    )
