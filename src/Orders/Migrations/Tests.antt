-- ===== src/Orders/Migrations/Tests.antt =====
-- The migrations on a database with Alembic's own table.
use swarmscope.Base.{◌≡◌, refl, false, none, some, [], ◌∷◌, codes}
use swarmscope.Orders.Migrations.{Table, Database, varchar, apply_operations, new_schema}
use swarmscope.Orders.Migrations.Versions.{
  column, create_orders_and_outbox, add_outbox_delivery_state, create_fulfilment_schema, s_orders,
}
use swarmscope.Orders.Migrations.RoundTrip.{IsClear, first, second, third, migrations_round_trip}

abbrev versions : Table
versions = record {
  schema = codes "public";
  name = codes "orders_alembic_version";
  columns = column (codes "version_num") (varchar 32) false none ∷ [];
  constraints = [];
  indexes = [];
}

abbrev database : Database
database = record { schemas = codes "public" ∷ []; tables = versions ∷ [] }

database-IsClear : IsClear database
database-IsClear = record {
  no_orders = refl;
  no_fulfilment = refl;
  no_orders_key = refl;
  no_outbox_key = refl;
  no_processed_key = refl;
  no_fulfilments_key = refl;
  no_schema = refl;
}

migrations_round_trip_example :
    (apply_operations create_orders_and_outbox.upgrade database ≡ some (first database))
    × (apply_operations add_outbox_delivery_state.upgrade (first database) ≡ some (second database))
    × (apply_operations create_fulfilment_schema.upgrade (second database) ≡ some (third database))
    × (apply_operations create_fulfilment_schema.downgrade (third database)
        ≡ some (second database))
    × (apply_operations add_outbox_delivery_state.downgrade (second database)
        ≡ some (first database))
    × (apply_operations create_orders_and_outbox.downgrade (first database)
        ≡ some (record database { schemas = new_schema s_orders database.schemas }))
migrations_round_trip_example = migrations_round_trip database database-IsClear

-- Each migration follows the one before it.
chain :
    (create_orders_and_outbox.down_revision ≡ none)
    × (add_outbox_delivery_state.down_revision ≡ some create_orders_and_outbox.revision)
    × (create_fulfilment_schema.down_revision ≡ some add_outbox_delivery_state.revision)
chain = (refl, refl, refl)
