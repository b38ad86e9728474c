-- ===== src/Orders/Migrations/Declared.antt =====
-- apps/orders/models.py and apps/fulfilment/models.py: the tables that the mapped classes declare,
-- with the names of packages/persistence.py.
use swarmscope.Base.{true, false, none, some, [], ◌∷◌, ◌++◌, Text, codes}
use swarmscope.Orders.Migrations.{
  uuid, integer, timestamptz, jsonb, varchar, check, primary_key, unique, foreign_key, Constraint,
  Index, Table,
}
use swarmscope.Orders.Migrations.Versions.{
  column, constraint, index, s_orders, s_fulfilment, t_outbox,
}

-- `NAMING_CONVENTION`
abbrev join_ : Text → Text → Text
join_ s t = s ++ (codes "_" ++ t)

abbrev ix : Text → Text → Text
ix table name = join_ (codes "ix") (join_ table name)

abbrev uq : Text → Text → Text
uq table name = join_ (codes "uq") (join_ table name)

abbrev ck : Text → Text → Text
ck table name = join_ (codes "ck") (join_ table name)

abbrev fk : Text → Text → Text → Text
fk table name referred = join_ (codes "fk") (join_ table (join_ name referred))

abbrev pk : Text → Text
pk table = join_ (codes "pk") table

-- `primary_key=True`
abbrev keyed : Text → Text → Constraint
keyed table name = constraint (pk table) (primary_key (name ∷ []))

-- `index=True`
abbrev indexed : Text → Text → Index
indexed table name = index (ix table name) (name ∷ []) none

-- `Order`
abbrev pub orders_table : Table
orders_table = record {
  schema = s_orders;
  name = s_orders;
  columns =
      (column (codes "id") uuid false none)
      ∷ (column (codes "customer_id") (varchar 100) false none)
      ∷ (column (codes "sku") (varchar 100) false none)
      ∷ (column (codes "quantity") integer false none)
      ∷ (column (codes "correlation_id") uuid false none)
      ∷ (column (codes "created_at") timestamptz false (some (codes "now()")))
      ∷ [];
  constraints =
      (constraint (ck s_orders (codes "quantity_positive"))
        (check (codes "quantity > 0") (codes "quantity" ∷ [])))
      ∷ (keyed s_orders (codes "id"))
      ∷ [];
  indexes = (indexed s_orders (codes "correlation_id")) ∷ [];
}

-- `OutboxEvent`
abbrev pub outbox_events_table : Table
outbox_events_table = record {
  schema = s_orders;
  name = t_outbox;
  columns =
      (column (codes "event_id") uuid false none)
      ∷ (column (codes "order_id") uuid false none)
      ∷ (column (codes "event_type") (varchar 100) false none)
      ∷ (column (codes "event_version") integer false none)
      ∷ (column (codes "occurred_at") timestamptz false none)
      ∷ (column (codes "correlation_id") uuid false none)
      ∷ (column (codes "payload") jsonb false none)
      ∷ (column (codes "published_at") timestamptz true none)
      ∷ (column (codes "publish_attempts") integer false (some (codes "0")))
      ∷ (column (codes "next_attempt_at") timestamptz false (some (codes "now()")))
      ∷ (column (codes "lease_owner") uuid true none)
      ∷ (column (codes "lease_expires_at") timestamptz true none)
      ∷ (column (codes "last_attempt_at") timestamptz true none)
      ∷ (column (codes "last_publish_error") (varchar 1000) true none)
      ∷ [];
  constraints =
      (constraint (ck t_outbox (codes "event_version_positive"))
        (check (codes "event_version > 0") (codes "event_version" ∷ [])))
      ∷ (constraint (fk t_outbox (codes "order_id") s_orders) (
          foreign_key (codes "order_id" ∷ []) s_orders s_orders (codes "id" ∷ [])
            (codes "RESTRICT")))
      ∷ (keyed t_outbox (codes "event_id"))
      ∷ (constraint (ck t_outbox (codes "publish_attempts_nonnegative"))
          (check (codes "publish_attempts >= 0") (codes "publish_attempts" ∷ [])))
      ∷ (constraint (ck t_outbox (codes "lease_fields_match")) (
          check (codes "(lease_owner IS NULL) = (lease_expires_at IS NULL)")
            (codes "lease_owner" ∷ codes "lease_expires_at" ∷ [])))
      ∷ (constraint (ck t_outbox (codes "published_has_no_lease")) (
          check (codes "published_at IS NULL OR (lease_owner IS NULL AND lease_expires_at IS NULL)")
            (codes "published_at" ∷ codes "lease_owner" ∷ codes "lease_expires_at" ∷ [])))
      ∷ [];
  indexes =
      (indexed t_outbox (codes "correlation_id"))
      ∷ (index (codes "ix_outbox_events_pending")
          (codes "next_attempt_at" ∷ codes "occurred_at" ∷ [])
          (some (codes "published_at IS NULL")))
      ∷ [];
}

-- `ProcessedEvent`
abbrev pub processed_events_table : Table
processed_events_table = record {
  schema = s_fulfilment;
  name = (codes "processed_events");
  columns =
      (column (codes "event_id") uuid false none)
      ∷ (column (codes "event_type") (varchar 100) false none)
      ∷ (column (codes "correlation_id") uuid false none)
      ∷ (column (codes "processed_at") timestamptz false (some (codes "now()")))
      ∷ [];
  constraints = (keyed (codes "processed_events") (codes "event_id")) ∷ [];
  indexes = (indexed (codes "processed_events") (codes "correlation_id")) ∷ [];
}

-- `Fulfilment`
abbrev pub fulfilments_table : Table
fulfilments_table = record {
  schema = s_fulfilment;
  name = (codes "fulfilments");
  columns =
      (column (codes "id") uuid false none)
      ∷ (column (codes "order_id") uuid false none)
      ∷ (column (codes "customer_id") (varchar 100) false none)
      ∷ (column (codes "sku") (varchar 100) false none)
      ∷ (column (codes "quantity") integer false none)
      ∷ (column (codes "correlation_id") uuid false none)
      ∷ (column (codes "created_at") timestamptz false (some (codes "now()")))
      ∷ [];
  constraints =
      (constraint (ck (codes "fulfilments") (codes "quantity_positive"))
        (check (codes "quantity > 0") (codes "quantity" ∷ [])))
      ∷ (keyed (codes "fulfilments") (codes "id"))
      ∷ (constraint (uq (codes "fulfilments") (codes "order_id")) (unique (codes "order_id" ∷ [])))
      ∷ [];
  indexes = (indexed (codes "fulfilments") (codes "correlation_id")) ∷ [];
}
