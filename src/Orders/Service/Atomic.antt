-- ===== src/Orders/Service/Atomic.antt =====
-- The block of `place_order` (apps/orders/service.py): its two inserts.
use swarmscope.Base.{
  ℕ, ◌<◌, ◌≡◌, refl, ◌⊎◌, inl, inr, true, false, ◌∷◌, arith, Bool-cases, has_key, ok, err, leb,
  ==_refl,
}
use swarmscope.Orders.Models.{order_accepts, outbox_accepts, integer_max}
use swarmscope.Orders.Outbox.Changes.{event_key}
use swarmscope.Orders.Schemas.{CreateOrder}
use swarmscope.Orders.Service.{
  Call, Tables, OrderError, duplicate_key, refused_row, order_key, insert_order, insert_event,
  place_order_block, place_order,
}
use swarmscope.Orders.Service.Rows.{
  IsValidated, IsStorable, order_row, event_row, reply, build_event_lem, event_row-accepted,
  order_row-accepts, order_row-refused,
}

lt→leb_false : {a b : ℕ} → a < b → leb b a ≡ false
lt→leb_false h = ground arith

module _ (call : Call) (request : CreateOrder) (correlation_id : ℕ) (t : Tables)
    (v : IsValidated call.is_space request) where
  -- the tables with both rows
  abbrev pub with_both : Tables
  with_both = record {
    orders = order_row call request correlation_id ∷ t.orders;
    outbox = event_row call request correlation_id ∷ t.outbox;
  }

  -- the tables between the two inserts
  abbrev with_order : Tables
  with_order = record t { orders = order_row call request correlation_id ∷ t.orders }

  insert_order_lem :
      has_key order_key call.order_id t.orders ≡ false
      → order_accepts (order_row call request correlation_id) ≡ true
      → insert_order (order_row call request correlation_id) t ≡ ok with_order
  unfolding insert_order
  insert_order_lem free admits = rw (free, admits) refl

  insert_event_lem :
      has_key event_key call.event_id t.outbox ≡ false
      → outbox_accepts (event_row call request correlation_id) ≡ true
      → insert_event (event_row call request correlation_id) with_order ≡ ok with_both
  unfolding insert_event
  insert_event_lem fresh admits = rw (fresh, admits, ==_refl call.order_id) refl

  -- A validated request with new ids whose rows the database admits writes both rows.
  place_order_block-admitted :
      has_key order_key call.order_id t.orders ≡ false
      → has_key event_key call.event_id t.outbox ≡ false
      → order_accepts (order_row call request correlation_id) ≡ true
      → outbox_accepts (event_row call request correlation_id) ≡ true
      → place_order_block call request correlation_id t ≡ ok (reply call correlation_id, with_both)
  unfolding place_order_block
  place_order_block-admitted free fresh order event =
      rw
        (
          insert_order_lem free order,
          build_event_lem call request correlation_id v,
          insert_event_lem fresh event,
        )
        refl

  pub place_order_block_lem :
      has_key order_key call.order_id t.orders ≡ false
      → has_key event_key call.event_id t.outbox ≡ false
      → IsStorable call request
      → leb request.quantity integer_max ≡ true
      → place_order_block call request correlation_id t ≡ ok (reply call correlation_id, with_both)
  place_order_block_lem free fresh h small =
      place_order_block-admitted free fresh
        (order_row-accepts call request correlation_id v h small)
        (event_row-accepted call request correlation_id h)

  insert_event-refused :
      outbox_accepts (event_row call request correlation_id) ≡ false
      → has_key event_key call.event_id t.outbox ≡ false
      → insert_event (event_row call request correlation_id) with_order ≡ err refused_row
  unfolding insert_event
  insert_event-refused refuses fresh = rw (fresh, refuses) refl

  -- The block raises, or writes both rows.
  pub place_order_block_cases :
      (place_order_block call request correlation_id t ≡ ok (reply call correlation_id, with_both))
      ⊎ ((e : OrderError) × (place_order_block call request correlation_id t ≡ err e))
  unfolding place_order_block
  place_order_block_cases = elim (Bool-cases (has_key order_key call.order_id t.orders)) [
    | inl taken ↦ inr (duplicate_key, unfold insert_order in rw taken refl)
    | inr free ↦ elim (Bool-cases (order_accepts (order_row call request correlation_id))) [
      | inr refuses ↦ inr (refused_row, unfold insert_order in rw (free, refuses) refl)
      | inl order ↦ elim (Bool-cases (has_key event_key call.event_id t.outbox)) [
        | inl taken ↦ inr (
          duplicate_key,
          rw (insert_order_lem free order, build_event_lem call request correlation_id v)
              (unfold insert_event in rw taken refl),
        )
        | inr fresh ↦ elim (Bool-cases (outbox_accepts (event_row call request correlation_id))) [
          | inl event ↦ inl (place_order_block-admitted free fresh order event)
          | inr refuses ↦ inr (
            refused_row,
            rw
                (
                  insert_order_lem free order,
                  build_event_lem call request correlation_id v,
                  insert_event-refused refuses fresh,
                )
                refl,
          )
        ]
      ]
    ]
  ]

  -- A validated request whose quantity exceeds PostgreSQL's `integer` raises and writes nothing.
  pub place_order_too_large :
      integer_max < request.quantity
      → ((e : OrderError) × ((place_order call request correlation_id t).0 ≡ err e))
        × ((place_order call request correlation_id t).1 ≡ t)
  unfolding place_order place_order_block
  place_order_too_large large = elim (Bool-cases (has_key order_key call.order_id t.orders)) [
    | inl taken ↦ unfold insert_order in rw taken ((duplicate_key, refl), refl)
    | inr free ↦
        unfold insert_order in
        rw (free, order_row-refused call request correlation_id (lt→leb_false large))
          ((refused_row, refl), refl)
  ]
