-- ===== src/Contracts/Parse.antt =====
-- `OrderPlacedV1.model_validate_json` of packages/contracts/order_placed.py, from the text of a
-- message on: the fields of both models, their defaults and literals, and no others.
use swarmscope.Base.{
  ℕ, Bool, true, ◌&&◌, Option, none, some, List, [], ◌∷◌, Text, ℤ, pos, Json, num, str, obj, Fields,
  end, field, codes, same_text, any, ◌==◌, if◌then◌else◌,
}
use swarmscope.Contracts.{OrderPlacedPayloadV1, OrderPlacedV1, build_payload}

-- What pydantic reads of one JSON text or value.
pub record Pydantic : Type 0 where
  pub loads : Text → Option Json
  pub uuid : Json → Option ℕ
  pub aware_datetime : Json → Option ℕ
  pub int : Json → Option ℤ
  pub is_space : ℕ → Bool

infixl 5 ◌>>=◌
abbrev pub ◌>>=◌ : {A B : Type 0} → Option A → (A → Option B) → Option B
none >>= f = none
some a >>= f = f a

-- the value of a key: of several, the last
unfoldable pub get_field : Text → Fields → Option Json
get_field k end = none
get_field k (field j v rest) = elim (get_field k rest) [
  | some w ↦ some w
  | none ↦ if same_text j k then some v else none
]

-- `extra="forbid"`
unfoldable pub only_keys : List Text → Fields → Bool
only_keys keys end = true
only_keys keys (field k v rest) = any (same_text k) keys && only_keys keys rest

-- a value for a `str` field
abbrev pub text_of : Json → Option Text
text_of (str t) = some t
text_of _ = none

-- the two `Literal` fields, with their defaults
unfoldable pub literal_type : Option Json → Option Text
literal_type none = some (codes "OrderPlaced")
literal_type (some (str t)) = if same_text t (codes "OrderPlaced") then some t else none
literal_type (some _) = none

unfoldable pub literal_version : Option Json → Option ℕ
literal_version none = some 1
literal_version (some (num (pos n))) = if n == 1 then some n else none
literal_version (some _) = none

abbrev pub payload_keys : List Text
payload_keys = codes "order_id" ∷ codes "customer_id" ∷ codes "sku" ∷ codes "quantity" ∷ []

abbrev pub event_keys : List Text
event_keys =
    codes "event_id"
    ∷ codes "event_type"
    ∷ codes "event_version"
    ∷ codes "occurred_at"
    ∷ codes "correlation_id"
    ∷ codes "payload"
    ∷ []

module _ (p : Pydantic) where
  -- the fields of `OrderPlacedPayloadV1`
  unfoldable pub payload_fields : Fields → Option OrderPlacedPayloadV1
  unfolding get_field
  payload_fields fs = do
    order_id ← get_field (codes "order_id") fs >>= p.uuid
    customer_id ← get_field (codes "customer_id") fs >>= text_of
    sku ← get_field (codes "sku") fs >>= text_of
    quantity ← get_field (codes "quantity") fs >>= p.int
    build_payload p.is_space order_id customer_id sku quantity

  unfoldable pub validate_payload : Json → Option OrderPlacedPayloadV1
  unfolding payload_fields only_keys
  validate_payload (obj fs) = if only_keys payload_keys fs then payload_fields fs else none
  validate_payload _ = none

  -- the fields of `OrderPlacedV1`
  unfoldable pub event_fields : Fields → Option OrderPlacedV1
  unfolding get_field literal_type literal_version validate_payload
  event_fields fs = do
    event_id ← get_field (codes "event_id") fs >>= p.uuid
    event_type ← literal_type (get_field (codes "event_type") fs)
    event_version ← literal_version (get_field (codes "event_version") fs)
    occurred_at ← get_field (codes "occurred_at") fs >>= p.aware_datetime
    correlation_id ← get_field (codes "correlation_id") fs >>= p.uuid
    payload ← get_field (codes "payload") fs >>= validate_payload
    some (record {
      event_id = event_id;
      event_type = event_type;
      event_version = event_version;
      occurred_at = occurred_at;
      correlation_id = correlation_id;
      payload = payload;
    })

  unfoldable pub validate_event : Json → Option OrderPlacedV1
  unfolding event_fields only_keys
  validate_event (obj fs) = if only_keys event_keys fs then event_fields fs else none
  validate_event _ = none

  -- `model_validate_json`
  unfoldable pub model_validate_json : Text → Option OrderPlacedV1
  unfolding validate_event
  model_validate_json text = p.loads text >>= validate_event
