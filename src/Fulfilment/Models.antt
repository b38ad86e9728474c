-- ===== src/Fulfilment/Models.antt =====
-- apps/fulfilment/models.py: the consumer's two tables, and PostgreSQL's inserts into them. The
-- names of the constraints are those of packages/persistence.py.
use swarmscope.Base.{
  ℕ, Bool, ◌&&◌, Option, some, List, ◌∷◌, Text, leb, ltb, has_key, if◌then◌else◌, Result, ok, err,
}
use swarmscope.Orders.Models.{integer_max, string_accepts}

pub record ProcessedEvent : Type 0 where
  pub event_id : ℕ
  pub event_type : Text
  pub correlation_id : ℕ
  pub processed_at : ℕ

pub record Fulfilment : Type 0 where
  pub id : ℕ
  pub order_id : ℕ
  pub customer_id : Text
  pub sku : Text
  pub quantity : ℕ
  pub correlation_id : ℕ
  pub created_at : ℕ

pub data Constraint : Type 0 where
  pk_processed_events pk_fulfilments uq_fulfilments_order_id ck_fulfilments_quantity_positive :
      Constraint

-- What a call on the database raises: an `IntegrityError` with its constraint's name where the
-- driver gives one, a value that the column cannot hold, or a lost connection.
pub data DatabaseError : Type 0 where
  integrity_error : Option Constraint → DatabaseError
  data_error connection_lost : DatabaseError

pub record Tables : Type 0 where
  pub processed : List ProcessedEvent
  pub fulfilments : List Fulfilment

abbrev pub processed_key : ProcessedEvent → ℕ
processed_key p = p.event_id

abbrev pub fulfilment_key : Fulfilment → ℕ
fulfilment_key f = f.id

abbrev pub order_key : Fulfilment → ℕ
order_key f = f.order_id

-- `INSERT INTO fulfilment.processed_events`
unfoldable pub insert_processed : ProcessedEvent → Tables → Result DatabaseError Tables
insert_processed p t =
    if string_accepts 100 p.event_type
    then if has_key processed_key p.event_id t.processed
      then err (integrity_error (some pk_processed_events))
      else ok (record t { processed = p ∷ t.processed })
    else err data_error

-- the column types of `fulfilments`, whose texts have no U+0000
abbrev pub fits_columns : Fulfilment → Bool
fits_columns f =
    string_accepts 100 f.customer_id && string_accepts 100 f.sku && leb f.quantity integer_max

-- `INSERT INTO fulfilment.fulfilments`: the check first, then the unique indexes in the order in
-- which the migration creates them.
unfoldable pub insert_fulfilment : Fulfilment → Tables → Result DatabaseError Tables
insert_fulfilment f t =
    if fits_columns f
    then if ltb 0 f.quantity
      then if has_key fulfilment_key f.id t.fulfilments
        then err (integrity_error (some pk_fulfilments))
        else if has_key order_key f.order_id t.fulfilments
        then err (integrity_error (some uq_fulfilments_order_id))
        else ok (record t { fulfilments = f ∷ t.fulfilments })
      else err (integrity_error (some ck_fulfilments_quantity_positive))
    else err data_error
