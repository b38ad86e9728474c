-- ===== src/Orders/Service/Rows.antt =====
-- Validated requests (apps/orders/schemas.py), and the event and the two rows that
-- apps/orders/service.py makes of one.
use swarmscope.Base.{
  ℕ, zero, suc, ◌≤◌, ◌≡◌, refl, inl, inr, Bool, true, false, none, some, Text, ℤ, pos, negsuc,
  arith, Option-cases, some_inj, ok, leb, codes,
}
use swarmscope.Contracts.{bounded_text, at_least_one, build_payload, OrderPlacedV1}
use swarmscope.Contracts.Valid.{build_payload-IsPayload}
use swarmscope.Contracts.Strip.{bounded_text_again, bounded_text-length}
use swarmscope.Orders.Models.{
  Order, OutboxEvent, order_accepts, outbox_accepts, integer_max, storable,
}
use swarmscope.Orders.Schemas.{CreateOrder, OrderAccepted, create_order_model}
use swarmscope.Orders.Service.{Call, build_event, dump_payload}

-- A request that passed the model's validation.
pub record IsValidated (is_space : ℕ → Bool) (request : CreateOrder) : Type 0 where
  pub customer : bounded_text is_space request.customer_id ≡ some request.customer_id
  pub sku : bounded_text is_space request.sku ≡ some request.sku
  pub positive : 1 ≤ request.quantity

at_least_one-positive : (q : ℤ) {n : ℕ} → at_least_one q ≡ some n → 1 ≤ n
unfolding at_least_one
at_least_one-positive (pos zero) h = absurd (cc)
at_least_one-positive (pos (suc n)) h = omega (arith, some_inj h)
at_least_one-positive (negsuc n) h = absurd (cc)

-- What the model accepts is validated: a second validation changes nothing.
pub create_order_model-IsValidated :
    (is_space : ℕ → Bool) (customer_id sku : Text) (quantity : ℤ) (request : CreateOrder)
    → create_order_model is_space customer_id sku quantity ≡ some request
    → IsValidated is_space request
unfolding create_order_model
create_order_model-IsValidated is_space customer_id sku quantity request h =
    elim (Option-cases (bounded_text is_space customer_id)) [
      | inl no_c ↦ absurd (let h' = rw (no_c, create_order_model) at h in cc)
      | inr (c, ec) ↦ elim (Option-cases (bounded_text is_space sku)) [
        | inl no_s ↦ absurd (let h' = rw (ec, no_s, create_order_model) at h in cc)
        | inr (s, es) ↦ elim (Option-cases (at_least_one quantity)) [
          | inl no_q ↦ absurd (let h' = rw (ec, es, no_q, create_order_model) at h in cc)
          | inr (q, eq) ↦
              let made : record { customer_id = c; sku = s; quantity = q } ≡ request =
                some_inj (rw (ec, es, eq, create_order_model) at h) in
              rw (← made) (record {
                customer = bounded_text_again is_space customer_id c ec;
                sku = bounded_text_again is_space sku s es;
                positive = at_least_one-positive quantity eq;
              })
        ]
      ]
    ]

-- the event of a validated request
abbrev pub event_of : Call → CreateOrder → ℕ → OrderPlacedV1
event_of call request correlation_id = record {
  event_id = call.event_id;
  event_type = codes "OrderPlaced";
  event_version = 1;
  occurred_at = call.utc_now;
  correlation_id = correlation_id;
  payload = record {
    order_id = call.order_id;
    customer_id = request.customer_id;
    sku = request.sku;
    quantity = request.quantity;
  };
}

build_payload_lem :
    (call : Call) (request : CreateOrder) (correlation_id : ℕ)
    → IsValidated call.is_space request
    → build_payload call.is_space call.order_id request.customer_id request.sku
        (pos request.quantity)
      ≡ some (event_of call request correlation_id).payload
build_payload_lem call request correlation_id v =
    build_payload-IsPayload call.is_space (event_of call request correlation_id).payload
      (record { customer = v.customer; sku = v.sku; positive = v.positive })

pub build_event_lem :
    (call : Call) (request : CreateOrder) (correlation_id : ℕ)
    → IsValidated call.is_space request
    → build_event call request correlation_id ≡ ok (event_of call request correlation_id)
unfolding build_event
build_event_lem call request correlation_id v =
    rw (build_payload_lem call request correlation_id v, build_event) refl

-- the two rows of a validated request
abbrev pub order_row : Call → CreateOrder → ℕ → Order
order_row call request correlation_id = record {
  id = call.order_id;
  customer_id = request.customer_id;
  sku = request.sku;
  quantity = request.quantity;
  correlation_id = correlation_id;
  created_at = call.database_now;
}

abbrev pub event_row : Call → CreateOrder → ℕ → OutboxEvent
event_row call request correlation_id = record {
  event_id = call.event_id;
  order_id = call.order_id;
  event_type = codes "OrderPlaced";
  event_version = 1;
  occurred_at = call.utc_now;
  correlation_id = correlation_id;
  payload = dump_payload call.uuid_text (event_of call request correlation_id).payload;
  published_at = none;
  publish_attempts = 0;
  next_attempt_at = call.database_now;
  lease_owner = none;
  lease_expires_at = none;
  last_attempt_at = none;
  last_publish_error = none;
}

abbrev pub reply : Call → ℕ → OrderAccepted
reply call correlation_id = record {
  order_id = call.order_id;
  correlation_id = correlation_id;
  status = codes "accepted";
}

-- The database can store the texts of a request and of the order's id.
pub record IsStorable (call : Call) (request : CreateOrder) : Type 0 where
  pub customer : storable request.customer_id ≡ true
  pub sku : storable request.sku ≡ true
  pub id_text : storable (call.uuid_text call.order_id) ≡ true

-- The event's columns hold what is written to them.
pub event_row-accepted :
    (call : Call) (request : CreateOrder) (correlation_id : ℕ)
    → IsStorable call request
    → outbox_accepts (event_row call request correlation_id) ≡ true
unfolding outbox_accepts
event_row-accepted call request correlation_id h = rw (h.customer, h.sku, h.id_text) refl

pub order_row-accepts :
    (call : Call) (request : CreateOrder) (correlation_id : ℕ)
    → IsValidated call.is_space request
    → IsStorable call request
    → leb request.quantity integer_max ≡ true
    → order_accepts (order_row call request correlation_id) ≡ true
unfolding order_accepts
order_row-accepts call request correlation_id v h small = ground (
  arith,
  bounded_text-length call.is_space request.customer_id request.customer_id v.customer,
  bounded_text-length call.is_space request.sku request.sku v.sku,
  v.positive,
  h.customer,
  h.sku,
)

pub order_row-refused :
    (call : Call) (request : CreateOrder) (correlation_id : ℕ)
    → leb request.quantity integer_max ≡ false
    → order_accepts (order_row call request correlation_id) ≡ false
unfolding order_accepts
order_row-refused call request correlation_id large = ground (arith, large)
