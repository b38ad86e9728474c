-- ===== src/Orders/Service/Promises.antt =====
-- What `POST /orders` promises (apps/orders/service.py, apps/orders/main.py).
use swarmscope.Base.{
  ℕ, ◌≤◌, ◌≡◌, refl, sym, ap, ◌∙◌, ◌⊎◌, inl, inr, false, Option, none, some, List, [], ◌∷◌, Text,
  has_key, Result, ok, err, ◌>>=◌, ok_inj, commits, transaction_atomic, transaction_ok,
  transaction_commits, le→leb,
}
use swarmscope.Orders.Models.{Order, OutboxEvent, integer_max}
use swarmscope.Orders.Outbox.{Outbox}
use swarmscope.Orders.Outbox.Changes.{event_key}
use swarmscope.Orders.Schemas.{CreateOrder, OrderAccepted}
use swarmscope.Orders.Service.{
  Call, Tables, OrderError, connection_lost, order_key, dump_payload, place_order,
  place_order_block, create_order, resolve, set_header,
}
use swarmscope.Orders.Service.Rows.{IsValidated, IsStorable, reply}
use swarmscope.Orders.Service.Atomic.{with_both, place_order_block_lem, place_order_block_cases}

-- The event says of its order what the order's row says.
pub record Announces (uuid_text : ℕ → Text) (o : Order) (e : OutboxEvent) : Type 0 where
  pub same_order : e.order_id ≡ o.id
  pub same_correlation : e.correlation_id ≡ o.correlation_id
  pub same_payload :
      e.payload
      ≡ dump_payload uuid_text (record {
        order_id = o.id;
        customer_id = o.customer_id;
        sku = o.sku;
        quantity = o.quantity;
      })

-- Each order has its event and each event its order.
abbrev pub IsPaired : (ℕ → Text) → List Order → Outbox → Type 0
IsPaired uuid_text [] [] = Unit
IsPaired uuid_text [] (e ∷ es) = ⊥
IsPaired uuid_text (o ∷ os) [] = ⊥
IsPaired uuid_text (o ∷ os) (e ∷ es) = Announces uuid_text o e × IsPaired uuid_text os es

module _ (call : Call) (request : CreateOrder) (correlation_id : ℕ) (t : Tables)
    (v : IsValidated call.is_space request) where
  -- However a validated call ends, if orders and events are paired before it they are so after it:
  -- both rows are there or neither is, and they agree on order, correlation id and payload.
  pub place_order-IsPaired :
      IsPaired call.uuid_text t.orders t.outbox
      → IsPaired call.uuid_text
          (place_order call request correlation_id t).1.orders
          (place_order call request correlation_id t).1.outbox
  unfolding place_order
  place_order-IsPaired h =
      elim (transaction_atomic connection_lost call.ending t
        (place_order_block call request correlation_id t)) [
          | inl same ↦ rw same h
          | inr (a, t', e, after) ↦ rw after (block a t' e)
        ]
    where
      block :
          (a : OrderAccepted) (t' : Tables)
          → place_order_block call request correlation_id t ≡ ok (a, t')
          → IsPaired call.uuid_text t'.orders t'.outbox
      block a t' e = elim (place_order_block_cases call request correlation_id t v) [
        | inl wrote ↦
            rw (← ap (λ p. p.1) (ok_inj (sym wrote ∙ e)))
              (record { same_order = refl; same_correlation = refl; same_payload = refl }, h)
        | inr (x, failed) ↦ absurd (let e' = sym failed ∙ e in cc)
      ]

  -- A validated request with new ids, a quantity that the column holds, no U+0000 and no surrogate,
  -- which the database cannot store, in its texts and in the text of the order's id, and a
  -- transaction that commits is accepted, and both rows are written.
  pub place_order_commits :
      has_key order_key call.order_id t.orders ≡ false
      → has_key event_key call.event_id t.outbox ≡ false
      → IsStorable call request
      → request.quantity ≤ integer_max
      → call.ending ≡ commits
      → place_order call request correlation_id t
        ≡ (ok (reply call correlation_id), with_both call request correlation_id t v)
  unfolding place_order
  place_order_commits free fresh stored small ends = transaction_commits connection_lost t ends (
      place_order_block_lem call request correlation_id t v free fresh stored
        (le→leb request.quantity integer_max small))

  -- When a validated request returns, it returns the block's reply, and both rows are written.
  pub place_order_returns :
      {a : OrderAccepted}
      → (place_order call request correlation_id t).0 ≡ ok a
      → (a ≡ reply call correlation_id)
        × ((place_order call request correlation_id t).1
            ≡ with_both call request correlation_id t v)
  unfolding place_order
  place_order_returns h =
      let body =
        transaction_ok connection_lost call.ending t
          (place_order_block call request correlation_id t) h in
      elim (place_order_block_cases call request correlation_id t v) [
        | inl wrote ↦
            let same = ok_inj (sym body ∙ wrote) in (ap (λ p. p.0) same, ap (λ p. p.1) same)
        | inr (x, failed) ↦ absurd (let e' = sym failed ∙ body in cc)
      ]

-- The id that a request is traced by: its header's, or the fresh one if it has none.
abbrev pub IsTrace : Option ℕ → ℕ → ℕ → Type 0
IsTrace header fresh c = (header ≡ some c) ⊎ ((header ≡ none) × (c ≡ fresh))

resolve-IsTrace :
    (header : Option ℕ) (fresh c : ℕ) → IsTrace header fresh c → resolve header fresh ≡ c
resolve-IsTrace header fresh c (inl given) = rw given refl
resolve-IsTrace header fresh c (inr (absent, new)) = rw (absent, new) refl

module _ (call : Call) (request : CreateOrder) (header : Option ℕ) (fresh : ℕ) (t : Tables)
    (v : IsValidated call.is_space request) where
  -- When a validated request gets a reply, both rows are written, and the reply's body, its header
  -- and both rows carry the correlation id of the request's header, or the fresh one if it has
  -- none.
  pub create_order_traces :
      (c : ℕ) {accepted : OrderAccepted} {text : Text}
      → IsTrace header fresh c
      → (create_order call request header fresh t).0 ≡ ok (accepted, text)
      → (accepted ≡ reply call c)
        × (text ≡ call.uuid_text c)
        × ((create_order call request header fresh t).1 ≡ with_both call request c t v)
  unfolding create_order
  create_order_traces c {accepted} {text} trace h =
      let same_id = resolve-IsTrace header fresh c trace in
      let (placed, written) = returned _ refl (rw same_id at h) in
      let (same, rows) = place_order_returns call request c t v placed in
      (same, sym written, rw same_id rows)
    where
      returned :
          (r : Result OrderError OrderAccepted)
          → r ≡ (place_order call request c t).0
          → (r >>= set_header (call.uuid_text c)) ≡ ok (accepted, text)
          → ((place_order call request c t).0 ≡ ok accepted) × (call.uuid_text c ≡ text)
      returned (ok a) e h =
          let same = ok_inj h in (sym e ∙ ap (λ x. ok x) (ap (λ p. p.0) same), ap (λ p. p.1) same)
      returned (err x) e h = absurd (cc)
