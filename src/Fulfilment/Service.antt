-- ===== src/Fulfilment/Service.antt =====
-- apps/fulfilment/service.py: `fulfil_order` records an event and fulfils its order in one
-- transaction, and takes a broken uniqueness constraint for a repeated delivery.
pub mod Once
pub mod Writes
use swarmscope.Base.{
  ℕ, Bool, true, false, Option, none, some, holds, if◌then◌else◌, Result, ok, err, ◌>>=◌, Ending,
  transaction,
}
use swarmscope.Contracts.{OrderPlacedV1}
use swarmscope.Fulfilment.Models.{
  ProcessedEvent, Fulfilment, Constraint, pk_processed_events, pk_fulfilments,
  uq_fulfilments_order_id, ck_fulfilments_quantity_positive, DatabaseError, integrity_error,
  data_error, connection_lost, Tables, insert_processed, insert_fulfilment,
}

pub data Handled : Type 0 where
  fulfilled duplicate : Handled

-- `… in DUPLICATE_CONSTRAINTS`
abbrev pub duplicate_constraint : Constraint → Bool
duplicate_constraint pk_processed_events = true
duplicate_constraint uq_fulfilments_order_id = true
duplicate_constraint _ = false

abbrev pub is_duplicate : Option Constraint → Bool
is_duplicate constraint_name = holds duplicate_constraint constraint_name

-- What the surroundings supply: the new UUID, PostgreSQL's time, how the transaction ends, and
-- which of the two added rows SQLAlchemy writes first (their tables do not depend on each other).
pub record Call : Type 0 where
  pub fulfilment_id : ℕ
  pub database_now : ℕ
  pub ending : Ending
  pub processed_first : Bool

abbrev pub processed_row : Call → OrderPlacedV1 → ProcessedEvent
processed_row call event = record {
  event_id = event.event_id;
  event_type = event.event_type;
  correlation_id = event.correlation_id;
  processed_at = call.database_now;
}

abbrev pub fulfilment_row : Call → OrderPlacedV1 → Fulfilment
fulfilment_row call event = record {
  id = call.fulfilment_id;
  order_id = event.payload.order_id;
  customer_id = event.payload.customer_id;
  sku = event.payload.sku;
  quantity = event.payload.quantity;
  correlation_id = event.correlation_id;
  created_at = call.database_now;
}

-- the writes of the two added rows when the block ends
unfoldable pub flush :
    Bool → ProcessedEvent → Fulfilment → Tables → Result DatabaseError (Unit {0} × Tables)
flush true p f t = do t' ← insert_processed p t; t'' ← insert_fulfilment f t'; ok (tt, t'')
flush false p f t = do t' ← insert_fulfilment f t; t'' ← insert_processed p t'; ok (tt, t'')

-- `except IntegrityError`
unfoldable pub except_integrity : DatabaseError → Result DatabaseError Handled
except_integrity (integrity_error name) =
    if is_duplicate name then ok duplicate else err (integrity_error name)
except_integrity data_error = err data_error
except_integrity connection_lost = err connection_lost

abbrev pub after_transaction :
    Result DatabaseError (Unit {0}) × Tables → Result DatabaseError Handled × Tables
after_transaction (ok _, t) = (ok fulfilled, t)
after_transaction (err e, t) = (except_integrity e, t)

unfoldable pub fulfil_order : Call → OrderPlacedV1 → Tables → Result DatabaseError Handled × Tables
unfolding transaction
fulfil_order call event t = after_transaction (
    transaction connection_lost call.ending t
      (flush call.processed_first (processed_row call event) (fulfilment_row call event) t))
