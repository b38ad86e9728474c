-- ===== src/Orders/Migrations/Versions.antt =====
-- apps/orders/migrations/versions: the three migrations, operation by operation.
use swarmscope.Base.{Bool, true, false, Option, none, some, List, [], ◌∷◌, Text, codes}
use swarmscope.Orders.Migrations.{
  ColumnType, uuid, integer, timestamptz, jsonb, varchar, Column, check, primary_key, unique,
  foreign_key, Constraint, Rule, Index, create_schema_if_not_exists, drop_schema_if_exists,
  create_table, drop_table, create_index, drop_index, add_column, drop_column, create_constraint,
  drop_constraint, Migration,
}

abbrev pub column : Text → ColumnType → Bool → Option Text → Column
column name type nullable server_default = record {
  name = name;
  type = type;
  nullable = nullable;
  server_default = server_default;
}

abbrev pub constraint : Text → Rule → Constraint
constraint name rule = record { name = name; rule = rule }

abbrev pub index : Text → List Text → Option Text → Index
index name columns predicate = record { name = name; columns = columns; predicate = predicate }

abbrev pub s_orders : Text
s_orders = codes "orders"

abbrev pub s_fulfilment : Text
s_fulfilment = codes "fulfilment"

abbrev pub t_outbox : Text
t_outbox = codes "outbox_events"

-- revision 20260817_0001
abbrev pub create_orders_and_outbox : Migration
create_orders_and_outbox = record {
  revision = codes "20260817_0001";
  down_revision = none;
  upgrade =
      create_schema_if_not_exists s_orders
      ∷ create_table (record {
        schema = s_orders;
        name = s_orders;
        columns =
            (column (codes "id") uuid false none)
            ∷ (column (codes "customer_id") (varchar 100) false none)
            ∷ (column (codes "sku") (varchar 100) false none)
            ∷ (column (codes "quantity") integer false none)
            ∷ (column (codes "correlation_id") uuid false none)
            ∷ (column (codes "created_at") timestamptz false (some (codes "now()")))
            ∷ [];
        constraints =
            (constraint (codes "ck_orders_quantity_positive")
              (check (codes "quantity > 0") (codes "quantity" ∷ [])))
            ∷ (constraint (codes "pk_orders") (primary_key (codes "id" ∷ [])))
            ∷ [];
        indexes = [];
      })
      ∷ create_index s_orders s_orders
          (index (codes "ix_orders_correlation_id") (codes "correlation_id" ∷ []) none)
      ∷ create_table (record {
        schema = s_orders;
        name = t_outbox;
        columns =
            (column (codes "event_id") uuid false none)
            ∷ (column (codes "order_id") uuid false none)
            ∷ (column (codes "event_type") (varchar 100) false none)
            ∷ (column (codes "event_version") integer false none)
            ∷ (column (codes "occurred_at") timestamptz false none)
            ∷ (column (codes "correlation_id") uuid false none)
            ∷ (column (codes "payload") jsonb false none)
            ∷ (column (codes "published_at") timestamptz true none)
            ∷ [];
        constraints =
            (constraint (codes "ck_outbox_events_event_version_positive")
              (check (codes "event_version > 0") (codes "event_version" ∷ [])))
            ∷ (constraint (codes "fk_outbox_events_order_id_orders") (
                foreign_key (codes "order_id" ∷ []) s_orders s_orders (codes "id" ∷ [])
                  (codes "RESTRICT")))
            ∷ (constraint (codes "pk_outbox_events") (primary_key (codes "event_id" ∷ [])))
            ∷ [];
        indexes = [];
      })
      ∷ create_index s_orders t_outbox
          (index (codes "ix_outbox_events_correlation_id") (codes "correlation_id" ∷ []) none)
      ∷ create_index s_orders t_outbox (
          index (codes "ix_outbox_events_pending") (codes "occurred_at" ∷ [])
            (some (codes "published_at IS NULL")))
      ∷ [];
  downgrade =
      drop_index s_orders (codes "ix_outbox_events_pending")
      ∷ drop_index s_orders (codes "ix_outbox_events_correlation_id")
      ∷ drop_table s_orders t_outbox
      ∷ drop_index s_orders (codes "ix_orders_correlation_id")
      ∷ drop_table s_orders s_orders
      ∷ [];
}

-- revision 20260818_0002
abbrev pub add_outbox_delivery_state : Migration
add_outbox_delivery_state = record {
  revision = codes "20260818_0002";
  down_revision = some (codes "20260817_0001");
  upgrade =
      add_column s_orders t_outbox
        (column (codes "publish_attempts") integer false (some (codes "0")))
      ∷ add_column s_orders t_outbox
          (column (codes "next_attempt_at") timestamptz false (some (codes "now()")))
      ∷ add_column s_orders t_outbox (column (codes "lease_owner") uuid true none)
      ∷ add_column s_orders t_outbox (column (codes "lease_expires_at") timestamptz true none)
      ∷ add_column s_orders t_outbox (column (codes "last_attempt_at") timestamptz true none)
      ∷ add_column s_orders t_outbox (column (codes "last_publish_error") (varchar 1000) true none)
      ∷ create_constraint s_orders t_outbox (
          constraint (codes "ck_outbox_events_publish_attempts_nonnegative")
            (check (codes "publish_attempts >= 0") (codes "publish_attempts" ∷ [])))
      ∷ create_constraint s_orders t_outbox (
          constraint (codes "ck_outbox_events_lease_fields_match") (
            check (codes "(lease_owner IS NULL) = (lease_expires_at IS NULL)")
              (codes "lease_owner" ∷ codes "lease_expires_at" ∷ [])))
      ∷ create_constraint s_orders t_outbox (
          constraint (codes "ck_outbox_events_published_has_no_lease") (
            check
              (codes "published_at IS NULL OR (lease_owner IS NULL AND lease_expires_at IS NULL)")
              (codes "published_at" ∷ codes "lease_owner" ∷ codes "lease_expires_at" ∷ [])))
      ∷ drop_index s_orders (codes "ix_outbox_events_pending")
      ∷ create_index s_orders t_outbox (
          index (codes "ix_outbox_events_pending")
            (codes "next_attempt_at" ∷ codes "occurred_at" ∷ [])
            (some (codes "published_at IS NULL")))
      ∷ [];
  downgrade =
      drop_index s_orders (codes "ix_outbox_events_pending")
      ∷ create_index s_orders t_outbox (
          index (codes "ix_outbox_events_pending") (codes "occurred_at" ∷ [])
            (some (codes "published_at IS NULL")))
      ∷ drop_constraint s_orders t_outbox (codes "ck_outbox_events_published_has_no_lease")
      ∷ drop_constraint s_orders t_outbox (codes "ck_outbox_events_lease_fields_match")
      ∷ drop_constraint s_orders t_outbox (codes "ck_outbox_events_publish_attempts_nonnegative")
      ∷ drop_column s_orders t_outbox (codes "last_publish_error")
      ∷ drop_column s_orders t_outbox (codes "last_attempt_at")
      ∷ drop_column s_orders t_outbox (codes "lease_expires_at")
      ∷ drop_column s_orders t_outbox (codes "lease_owner")
      ∷ drop_column s_orders t_outbox (codes "next_attempt_at")
      ∷ drop_column s_orders t_outbox (codes "publish_attempts")
      ∷ [];
}

-- revision 20260819_0003
abbrev pub create_fulfilment_schema : Migration
create_fulfilment_schema = record {
  revision = codes "20260819_0003";
  down_revision = some (codes "20260818_0002");
  upgrade =
      create_schema_if_not_exists s_fulfilment
      ∷ create_table (record {
        schema = s_fulfilment;
        name = (codes "processed_events");
        columns =
            (column (codes "event_id") uuid false none)
            ∷ (column (codes "event_type") (varchar 100) false none)
            ∷ (column (codes "correlation_id") uuid false none)
            ∷ (column (codes "processed_at") timestamptz false (some (codes "now()")))
            ∷ [];
        constraints =
            (constraint (codes "pk_processed_events") (primary_key (codes "event_id" ∷ []))) ∷ [];
        indexes = [];
      })
      ∷ create_index s_fulfilment (codes "processed_events")
          (index (codes "ix_processed_events_correlation_id") (codes "correlation_id" ∷ []) none)
      ∷ create_table (record {
        schema = s_fulfilment;
        name = (codes "fulfilments");
        columns =
            (column (codes "id") uuid false none)
            ∷ (column (codes "order_id") uuid false none)
            ∷ (column (codes "customer_id") (varchar 100) false none)
            ∷ (column (codes "sku") (varchar 100) false none)
            ∷ (column (codes "quantity") integer false none)
            ∷ (column (codes "correlation_id") uuid false none)
            ∷ (column (codes "created_at") timestamptz false (some (codes "now()")))
            ∷ [];
        constraints =
            (constraint (codes "ck_fulfilments_quantity_positive")
              (check (codes "quantity > 0") (codes "quantity" ∷ [])))
            ∷ (constraint (codes "pk_fulfilments") (primary_key (codes "id" ∷ [])))
            ∷ (constraint (codes "uq_fulfilments_order_id") (unique (codes "order_id" ∷ [])))
            ∷ [];
        indexes = [];
      })
      ∷ create_index s_fulfilment (codes "fulfilments")
          (index (codes "ix_fulfilments_correlation_id") (codes "correlation_id" ∷ []) none)
      ∷ [];
  downgrade =
      drop_index s_fulfilment (codes "ix_fulfilments_correlation_id")
      ∷ drop_table s_fulfilment (codes "fulfilments")
      ∷ drop_index s_fulfilment (codes "ix_processed_events_correlation_id")
      ∷ drop_table s_fulfilment (codes "processed_events")
      ∷ drop_schema_if_exists s_fulfilment
      ∷ [];
}
