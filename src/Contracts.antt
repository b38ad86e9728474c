-- ===== src/Contracts.antt =====
-- packages/contracts/order_placed.py: the OrderPlaced event, and what pydantic checks when one is
-- built from Python values. A field of the wrong type is no value of these records.
pub mod Strip
pub mod Parse
pub mod Valid
use swarmscope.Base.{
  ℕ, zero, suc, Bool, true, false, ◌&&◌, Option, none, some, List, [], ◌∷◌, Text, ℤ, pos, negsuc,
  length, leb, if◌then◌else◌,
}

pub record OrderPlacedPayloadV1 : Type 0 where
  pub order_id : ℕ
  pub customer_id : Text
  pub sku : Text
  pub quantity : ℕ

pub record OrderPlacedV1 : Type 0 where
  pub event_id : ℕ
  pub event_type : Text
  pub event_version : ℕ
  pub occurred_at : ℕ
  pub correlation_id : ℕ
  pub payload : OrderPlacedPayloadV1

-- `Field(ge=1)`
unfoldable pub at_least_one : ℤ → Option ℕ
at_least_one (pos zero) = none
at_least_one (pos (suc n)) = some (suc n)
at_least_one (negsuc _) = none

-- The characters that pydantic strips are those of Rust's `char::is_whitespace`.
module _ (is_space : ℕ → Bool) where
  unfoldable pub strip_start : Text → Text
  strip_start [] = []
  strip_start (c ∷ cs) = if is_space c then strip_start cs else c ∷ cs

  abbrev pub cons_unless_blank : ℕ → Text → Text
  cons_unless_blank c [] = if is_space c then [] else c ∷ []
  cons_unless_blank c (d ∷ ds) = c ∷ d ∷ ds

  unfoldable pub strip_end : Text → Text
  strip_end [] = []
  strip_end (c ∷ cs) = cons_unless_blank c (strip_end cs)

  -- `str_strip_whitespace=True`
  unfoldable pub strip : Text → Text
  unfolding strip_start strip_end
  strip t = strip_end (strip_start t)

  -- `Field(min_length=1, max_length=100)` after stripping
  unfoldable pub bounded_text : Text → Option Text
  bounded_text t =
      let s : Text = strip t in if leb 1 (length s) && leb (length s) 100 then some s else none

  unfoldable pub build_payload : ℕ → Text → Text → ℤ → Option OrderPlacedPayloadV1
  build_payload order_id customer_id sku quantity = elim (bounded_text customer_id) [
    | none ↦ none
    | some c ↦ elim (bounded_text sku) [
      | none ↦ none
      | some s ↦ elim (at_least_one quantity) [
        | none ↦ none
        | some q ↦ some (record { order_id = order_id; customer_id = c; sku = s; quantity = q })
      ]
    ]
  ]
