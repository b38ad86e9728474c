-- ===== src/Contracts/Valid.antt =====
-- The payloads and events that the models of packages/contracts/order_placed.py leave as they are.
use swarmscope.Base.{ℕ, zero, suc, ◌≤◌, ◌≡◌, refl, Bool, some, pos, codes, arith}
use swarmscope.Contracts.{
  OrderPlacedPayloadV1, OrderPlacedV1, bounded_text, at_least_one, build_payload,
}

-- A payload that its model accepts, and leaves as it is.
pub record IsPayload (is_space : ℕ → Bool) (payload : OrderPlacedPayloadV1) : Type 0 where
  pub customer : bounded_text is_space payload.customer_id ≡ some payload.customer_id
  pub sku : bounded_text is_space payload.sku ≡ some payload.sku
  pub positive : 1 ≤ payload.quantity

-- An event that its model accepts, and leaves as it is.
pub record IsEvent (is_space : ℕ → Bool) (e : OrderPlacedV1) : Type 0 where
  pub literal_type : e.event_type ≡ codes "OrderPlaced"
  pub literal_version : e.event_version ≡ 1
  pub payload : IsPayload is_space e.payload

at_least_one-pos : (n : ℕ) → 1 ≤ n → at_least_one (pos n) ≡ some n
unfolding at_least_one
at_least_one-pos zero h = absurd (omega arith)
at_least_one-pos (suc n) h = refl

-- Built again from its own fields, a valid payload is itself.
pub build_payload-IsPayload :
    (is_space : ℕ → Bool) (payload : OrderPlacedPayloadV1)
    → IsPayload is_space payload
    → build_payload is_space payload.order_id payload.customer_id payload.sku (pos payload.quantity)
      ≡ some payload
unfolding build_payload
build_payload-IsPayload is_space payload v =
    rw (v.customer, v.sku, at_least_one-pos payload.quantity v.positive, build_payload) refl
