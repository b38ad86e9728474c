-- ===== src/Orders/Outbox/Admission.antt =====
-- The column types, checks and keys of the outbox under the changes of apps/orders/outbox.py.
use swarmscope.Base.{
  ℕ, ◌≡◌, true, take, Text, arith, All, IsKeyed, All-update_where, All-update_key,
  update_where-IsKeyed, length-take-le, refl, Bool,
}
use swarmscope.Orders.Models.{OutboxEvent, outbox_accepts, IsAdmitted, storable}
use swarmscope.Orders.Outbox.{OutboxPublisher, Outbox, lease_row, publish_row, retry_row}
use swarmscope.Orders.Outbox.{due_event_statement}
use swarmscope.Orders.Backoff.{max_error_length}
use swarmscope.Orders.Outbox.Changes.{
  Change, unchanged, leased, marked, retried, IsTakeable, event_key,
}

lease_row-IsAdmitted :
    (self : OutboxPublisher) {now : ℕ} {locked : ℕ → Bool} {rows : Outbox} (e : OutboxEvent)
    → IsTakeable now locked rows e
    → IsAdmitted e
    → IsAdmitted (lease_row self now e)
unfolding lease_row outbox_accepts due_event_statement
lease_row-IsAdmitted self e t h = ground (arith, t.due, t.room)

publish_row-IsAdmitted : (now : ℕ) (e : OutboxEvent) → IsAdmitted e → IsAdmitted (publish_row now e)
unfolding publish_row outbox_accepts
publish_row-IsAdmitted now e h = ground arith

-- The error text is cut to what its column holds.
retry_row-IsAdmitted :
    (next : ℕ) (error : Text) (e : OutboxEvent)
    → storable (take max_error_length error) ≡ true
    → IsAdmitted e
    → IsAdmitted (retry_row next error e)
unfolding retry_row outbox_accepts
retry_row-IsAdmitted next error e fit h = ground (arith, length-take-le max_error_length error)

pub Change-IsKeyed :
    {read may : ℕ → Type 0} {self : OutboxPublisher} {rows rows' : Outbox}
    → Change read may self rows rows'
    → IsKeyed event_key rows
    → IsKeyed event_key rows'
unfolding lease_row publish_row retry_row
Change-IsKeyed (unchanged e) h = rw e h
Change-IsKeyed {rows = rows} (leased now locked r _ t e) h =
    rw e (update_where-IsKeyed event_key _ _ (λ x. refl) rows h)
Change-IsKeyed {rows = rows} (marked now k _ e) h =
    rw e (update_where-IsKeyed event_key _ _ (λ x. refl) rows h)
Change-IsKeyed {rows = rows} (retried next k error fit e) h =
    rw e (update_where-IsKeyed event_key _ _ (λ x. refl) rows h)

pub Change-IsAdmitted :
    {read may : ℕ → Type 0} {self : OutboxPublisher} {rows rows' : Outbox}
    → Change read may self rows rows'
    → IsKeyed event_key rows
    → All IsAdmitted rows
    → All IsAdmitted rows'
Change-IsAdmitted (unchanged e) keyed h = rw e h
Change-IsAdmitted {self} {rows} (leased now locked r _ t e) keyed h =
    rw e (
      All-update_key event_key IsAdmitted _ r rows keyed t.member (lease_row-IsAdmitted self r t) h)
Change-IsAdmitted {rows = rows} (marked now k _ e) keyed h =
    rw e (All-update_where IsAdmitted _ _ rows (λ x _. publish_row-IsAdmitted now x) h)
Change-IsAdmitted {rows = rows} (retried next k error fit e) keyed h =
    rw e (All-update_where IsAdmitted _ _ rows (λ x _. retry_row-IsAdmitted next error x fit) h)
