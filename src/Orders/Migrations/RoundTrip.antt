-- ===== src/Orders/Migrations/RoundTrip.antt =====
-- apps/orders/migrations: the upgrades one after the other, and the downgrades in the opposite order.
use swarmscope.Base.{
  or_false, ◌≡◌, refl, false, not, Bool-cases, inl, inr, some, List, [], ◌∷◌, ◌++◌, Text, any, take,
  codes, same_text,
}
use swarmscope.Orders.Migrations.{
  Table, Database, in_schema, takes_name, references, keep, new_schema, apply_operations,
  apply_rest,
}
use swarmscope.Orders.Migrations.Versions.{
  create_orders_and_outbox, add_outbox_delivery_state, create_fulfilment_schema, s_orders,
  s_fulfilment, t_outbox, index,
}
use swarmscope.Orders.Migrations.Declared.{
  orders_table, outbox_events_table, processed_events_table, fulfilments_table,
}

-- the table of the outbox between the first two migrations
abbrev pub first_outbox_table : Table
first_outbox_table = record outbox_events_table {
  columns = take 8 outbox_events_table.columns;
  constraints = take 3 outbox_events_table.constraints;
  indexes =
      take 1 outbox_events_table.indexes
      ++ (index (codes "ix_outbox_events_pending") (codes "occurred_at" ∷ [])
            (some (codes "published_at IS NULL"))
          ∷ []);
}

-- An empty schema has no relation.
no-takes_name :
    (schema name : Text) (ts : List Table)
    → any (in_schema schema) ts ≡ false
    → any (takes_name schema name) ts ≡ false
no-takes_name schema name [] h = refl
no-takes_name schema name (t ∷ ts) h =
    let (first, rest) = or_false (in_schema schema t) (any (in_schema schema) ts) h in
    rw (first, no-takes_name schema name ts rest) refl

keep-absent :
    (name : Text) (names : List Text)
    → any (same_text name) names ≡ false
    → keep (λ s. not (same_text name s)) names ≡ names
keep-absent name [] h = refl
keep-absent name (s ∷ names) h =
    let (first, rest) = or_false (same_text name s) (any (same_text name) names) h in
    rw (first, keep-absent name names rest) refl

-- Nothing is in the two schemas, no table refers to a table in them, and the consumer's schema is
-- not there.
pub record IsClear (d : Database) : Type 0 where
  pub no_orders : any (in_schema s_orders) d.tables ≡ false
  pub no_fulfilment : any (in_schema s_fulfilment) d.tables ≡ false
  pub no_orders_key : any (references s_orders s_orders) d.tables ≡ false
  pub no_outbox_key : any (references s_orders t_outbox) d.tables ≡ false
  pub no_processed_key : any (references s_fulfilment (codes "processed_events")) d.tables ≡ false
  pub no_fulfilments_key : any (references s_fulfilment (codes "fulfilments")) d.tables ≡ false
  pub no_schema : any (same_text s_fulfilment) d.schemas ≡ false

still_absent :
    (schemas : List Text)
    → any (same_text s_fulfilment) schemas ≡ false
    → any (same_text s_fulfilment) (new_schema s_orders schemas) ≡ false
still_absent schemas h = elim (Bool-cases (any (same_text s_orders) schemas)) [
  | inl there ↦ rw there h
  | inr absent ↦ rw absent h
]

module _ (d : Database) where
  -- after the first, the second and the third migration
  abbrev pub first : Database
  first = record {
    schemas = new_schema s_orders d.schemas;
    tables = first_outbox_table ∷ orders_table ∷ d.tables;
  }

  abbrev pub second : Database
  second = record first { tables = outbox_events_table ∷ orders_table ∷ d.tables }

  abbrev pub third : Database
  third = record {
    schemas = s_fulfilment ∷ first.schemas;
    tables = fulfilments_table ∷ processed_events_table ∷ second.tables;
  }

  module _ (clear : IsClear d) where
    first_up : apply_operations create_orders_and_outbox.upgrade d ≡ some first
    unfolding apply_rest
    first_up =
        rw
          (
            no-takes_name s_orders s_orders d.tables clear.no_orders,
            no-takes_name s_orders (codes "ix_orders_correlation_id") d.tables clear.no_orders,
            no-takes_name s_orders t_outbox d.tables clear.no_orders,
            no-takes_name s_orders (codes "ix_outbox_events_correlation_id") d.tables
                clear.no_orders,
            no-takes_name s_orders (codes "ix_outbox_events_pending") d.tables clear.no_orders,
          )
          refl

    first_down :
        apply_operations create_orders_and_outbox.downgrade first
        ≡ some (record d { schemas = new_schema s_orders d.schemas })
    unfolding apply_rest
    first_down = rw (clear.no_outbox_key, clear.no_orders_key) refl

    second_up : apply_operations add_outbox_delivery_state.upgrade first ≡ some second
    unfolding apply_rest
    second_up =
        rw (no-takes_name s_orders (codes "ix_outbox_events_pending") d.tables clear.no_orders) refl

    second_down : apply_operations add_outbox_delivery_state.downgrade second ≡ some first
    unfolding apply_rest
    second_down =
        rw (no-takes_name s_orders (codes "ix_outbox_events_pending") d.tables clear.no_orders) refl

    third_up : apply_operations create_fulfilment_schema.upgrade second ≡ some third
    unfolding apply_rest
    third_up =
        rw
          (
            still_absent d.schemas clear.no_schema,
            no-takes_name s_fulfilment (codes "processed_events") d.tables clear.no_fulfilment,
            no-takes_name s_fulfilment (codes "ix_processed_events_correlation_id") d.tables
                clear.no_fulfilment,
            no-takes_name s_fulfilment (codes "fulfilments") d.tables clear.no_fulfilment,
            no-takes_name s_fulfilment (codes "ix_fulfilments_correlation_id") d.tables
                clear.no_fulfilment,
          )
          refl

    third_down : apply_operations create_fulfilment_schema.downgrade third ≡ some second
    unfolding apply_rest
    third_down =
        rw
          (
            clear.no_fulfilments_key,
            clear.no_processed_key,
            clear.no_fulfilment,
            keep-absent s_fulfilment (new_schema s_orders d.schemas)
                (still_absent d.schemas clear.no_schema),
          )
          refl

    -- On a database without objects of the two services, the three upgrades return one after the
    -- other and add exactly the tables that the models declare, and the downgrades in the opposite
    -- order return and undo them one by one, but for the schema of the orders, which stays.
    pub migrations_round_trip :
        (apply_operations create_orders_and_outbox.upgrade d ≡ some first)
        × (apply_operations add_outbox_delivery_state.upgrade first ≡ some second)
        × (apply_operations create_fulfilment_schema.upgrade second ≡ some third)
        × (apply_operations create_fulfilment_schema.downgrade third ≡ some second)
        × (apply_operations add_outbox_delivery_state.downgrade second ≡ some first)
        × (apply_operations create_orders_and_outbox.downgrade first
            ≡ some (record d { schemas = new_schema s_orders d.schemas }))
    migrations_round_trip = (first_up, second_up, third_up, third_down, second_down, first_down)
