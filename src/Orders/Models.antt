-- ===== src/Orders/Models.antt =====
-- apps/orders/models.py: the two tables, their column types and their CHECK constraints. UUIDs are
-- numbers that are only compared, and timestamps are microseconds.
use swarmscope.Base.{
  ℕ, ◌^◌, ◌-◌, ◌≡◌, Bool, true, not, ◌&&◌, ◌||◌, Option, none, some, Text, Json, Items, Fields,
  null, bool, num, real, str, arr, obj, stop, item, end, field, all, ◌==◌, length, ltb, leb,
  is_none,
}

-- PostgreSQL's `integer`
abbrev pub integer_max : ℕ
integer_max = 2 ^ 31 - 1

pub record Order : Type 0 where
  pub id : ℕ
  pub customer_id : Text
  pub sku : Text
  pub quantity : ℕ
  pub correlation_id : ℕ
  pub created_at : ℕ

pub record OutboxEvent : Type 0 where
  pub event_id : ℕ
  pub order_id : ℕ
  pub event_type : Text
  pub event_version : ℕ
  pub occurred_at : ℕ
  pub correlation_id : ℕ
  pub payload : Json
  pub published_at : Option ℕ
  pub publish_attempts : ℕ
  pub next_attempt_at : ℕ
  pub lease_owner : Option ℕ
  pub lease_expires_at : Option ℕ
  pub last_attempt_at : Option ℕ
  pub last_publish_error : Option Text

-- PostgreSQL stores UTF-8: it refuses U+0000, and the surrogates have no encoding.
abbrev pub is_storable : ℕ → Bool
is_storable c = not (c == 0) && not (leb 0xd800 c && ltb c 0xe000)

abbrev pub storable : Text → Bool
storable t = all is_storable t

-- `String(n)`
abbrev pub string_accepts : ℕ → Text → Bool
string_accepts n t = leb (length t) n && storable t

-- `JSONB`, which refuses the same code points in its keys and texts
abbrev mutual
  pub json_storable : Json → Bool
  json_storable null = true
  json_storable (bool _) = true
  json_storable (num _) = true
  json_storable (real _) = true
  json_storable (str t) = storable t
  json_storable (arr items) = items_storable items
  json_storable (obj fields) = fields_storable fields

  pub items_storable : Items → Bool
  items_storable stop = true
  items_storable (item v rest) = json_storable v && items_storable rest

  pub fields_storable : Fields → Bool
  fields_storable end = true
  fields_storable (field k v rest) = storable k && json_storable v && fields_storable rest

-- both null or both set
abbrev same_null : Option ℕ → Option ℕ → Bool
same_null none b = is_none b
same_null (some _) b = not (is_none b)

abbrev pub fits : ℕ → Option Text → Bool
fits n none = true
fits n (some t) = string_accepts n t

-- `String(100)`, `Integer` and the check `quantity_positive`
unfoldable pub order_accepts : Order → Bool
order_accepts o =
    string_accepts 100 o.customer_id
    && string_accepts 100 o.sku
    && leb o.quantity integer_max
    && ltb 0 o.quantity

-- The column types and the checks `event_version_positive`, `lease_fields_match` and
-- `published_has_no_lease`. The check `publish_attempts_nonnegative` holds of every natural number.
unfoldable pub outbox_accepts : OutboxEvent → Bool
outbox_accepts e =
    string_accepts 100 e.event_type
    && leb e.event_version integer_max
    && json_storable e.payload
    && leb e.publish_attempts integer_max
    && fits 1000 e.last_publish_error
    && ltb 0 e.event_version
    && same_null e.lease_owner e.lease_expires_at
    && (is_none e.published_at || (is_none e.lease_owner && is_none e.lease_expires_at))

-- A row that the database admits.
abbrev pub IsAdmitted : OutboxEvent → Type 0
IsAdmitted e = outbox_accepts e ≡ true
