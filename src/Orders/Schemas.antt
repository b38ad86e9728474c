-- ===== src/Orders/Schemas.antt =====
-- apps/orders/schemas.py: the request's body, as pydantic validates it, and the reply.
use swarmscope.Base.{ℕ, Bool, Option, none, some, Text, ℤ}
use swarmscope.Contracts.{bounded_text, at_least_one}

pub record CreateOrder : Type 0 where
  pub customer_id : Text
  pub sku : Text
  pub quantity : ℕ

pub record OrderAccepted : Type 0 where
  pub order_id : ℕ
  pub correlation_id : ℕ
  pub status : Text

unfoldable pub create_order_model : (ℕ → Bool) → Text → Text → ℤ → Option CreateOrder
create_order_model is_space customer_id sku quantity = elim (bounded_text is_space customer_id) [
  | none ↦ none
  | some c ↦ elim (bounded_text is_space sku) [
    | none ↦ none
    | some s ↦ elim (at_least_one quantity) [
      | none ↦ none
      | some q ↦ some (record { customer_id = c; sku = s; quantity = q })
    ]
  ]
]
