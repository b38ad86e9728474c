-- ===== src/Orders/Service.antt =====
-- apps/orders/service.py and the endpoint of apps/orders/main.py: an order and its event are
-- written in one transaction.
pub mod Rows
pub mod Atomic
pub mod Promises
mod Tests
use swarmscope.Base.{
  ℕ, ◌≡◌, Bool, true, false, ◌&&◌, not, Option, none, some, List, [], ◌∷◌, Text, ℤ, pos, Json, num,
  str, obj, Fields, end, field, codes, has_key, if◌then◌else◌, Result, ok, err, ◌>>=◌, Ending,
  transaction, map,
}
use swarmscope.Contracts.{OrderPlacedPayloadV1, OrderPlacedV1, build_payload}
use swarmscope.Orders.Models.{Order, OutboxEvent, order_accepts, outbox_accepts}
use swarmscope.Orders.Outbox.{Outbox}
use swarmscope.Orders.Outbox.Changes.{event_key}
use swarmscope.Orders.Schemas.{CreateOrder, OrderAccepted}

-- What the call raises: a primary key that is taken, a row that a column or a check refuses, a
-- payload that does not validate, a lost connection.
pub data OrderError : Type 0 where
  duplicate_key refused_row validation_error connection_lost : OrderError

pub record Tables : Type 0 where
  pub orders : List Order
  pub outbox : Outbox

abbrev pub order_key : Order → ℕ
order_key o = o.id

-- What the surroundings supply: the two UUIDs, PostgreSQL's time and the process's, how the
-- transaction ends, pydantic's white space and Python's text of a UUID.
pub record Call : Type 0 where
  pub order_id : ℕ
  pub event_id : ℕ
  pub database_now : ℕ
  pub utc_now : ℕ
  pub ending : Ending
  pub is_space : ℕ → Bool
  pub uuid_text : ℕ → Text

abbrev pub new_order : Call → CreateOrder → ℕ → Order
new_order call request correlation_id = record {
  id = call.order_id;
  customer_id = request.customer_id;
  sku = request.sku;
  quantity = request.quantity;
  correlation_id = correlation_id;
  created_at = call.database_now;
}

-- `INSERT INTO orders.orders`
unfoldable pub insert_order : Order → Tables → Result OrderError Tables
insert_order o t =
    if has_key order_key o.id t.orders
    then err duplicate_key
    else if order_accepts o
    then ok (record t { orders = o ∷ t.orders })
    else err refused_row

-- `INSERT INTO orders.outbox_events`, with its foreign key
unfoldable pub insert_event : OutboxEvent → Tables → Result OrderError Tables
insert_event e t =
    if has_key event_key e.event_id t.outbox
    then err duplicate_key
    else if outbox_accepts e && has_key order_key e.order_id t.orders
    then ok (record t { outbox = e ∷ t.outbox })
    else err refused_row

-- `OrderPlacedV1(…)`, with the literals of its two defaults
unfoldable pub build_event : Call → CreateOrder → ℕ → Result OrderError OrderPlacedV1
build_event call request correlation_id =
    elim (build_payload call.is_space call.order_id request.customer_id request.sku
      (pos request.quantity)) [
        | none ↦ err validation_error
        | some payload ↦ ok (record {
          event_id = call.event_id;
          event_type = codes "OrderPlaced";
          event_version = 1;
          occurred_at = call.utc_now;
          correlation_id = correlation_id;
          payload = payload;
        })
      ]

-- `model_dump(mode="json")`
abbrev pub dump_payload : (ℕ → Text) → OrderPlacedPayloadV1 → Json
dump_payload uuid_text p = obj (
    field (codes "order_id") (str (uuid_text p.order_id)) (
      field (codes "customer_id") (str p.customer_id)
        (field (codes "sku") (str p.sku) (field (codes "quantity") (num (pos p.quantity)) end))))

-- the columns without a value take their server defaults
abbrev pub new_event : Call → OrderPlacedV1 → OutboxEvent
new_event call event = record {
  event_id = event.event_id;
  order_id = call.order_id;
  event_type = event.event_type;
  event_version = event.event_version;
  occurred_at = event.occurred_at;
  correlation_id = event.correlation_id;
  payload = dump_payload call.uuid_text event.payload;
  published_at = none;
  publish_attempts = 0;
  next_attempt_at = call.database_now;
  lease_owner = none;
  lease_expires_at = none;
  last_attempt_at = none;
  last_publish_error = none;
}

-- the block under `session.begin()`
unfoldable pub place_order_block :
    Call → CreateOrder → ℕ → Tables → Result OrderError (OrderAccepted × Tables)
place_order_block call request correlation_id t = do
  t' ← insert_order (new_order call request correlation_id) t
  event ← build_event call request correlation_id
  t'' ← insert_event (new_event call event) t'
  ok (
    record { order_id = call.order_id; correlation_id = correlation_id; status = codes "accepted" },
    t'',
  )

unfoldable pub place_order :
    Call → CreateOrder → ℕ → Tables → Result OrderError OrderAccepted × Tables
unfolding transaction
place_order call request correlation_id t =
    transaction connection_lost call.ending t (place_order_block call request correlation_id t)

-- `correlation_id or uuid4()`: a UUID is true, also the one whose bits are all zero.
abbrev pub resolve : Option ℕ → ℕ → ℕ
resolve none fresh = fresh
resolve (some c) fresh = c

-- `response.headers["X-Correlation-ID"] = …`
abbrev pub set_header : Text → OrderAccepted → Result OrderError (OrderAccepted × Text)
set_header text accepted = ok (accepted, text)

-- `create_order` of main.py: the reply with its header, which is set after the order is placed
unfoldable pub create_order :
    Call → CreateOrder → Option ℕ → ℕ → Tables → Result OrderError (OrderAccepted × Text) × Tables
create_order call request header fresh t =
    let resolved = resolve header fresh in
    let (result, t') = place_order call request resolved t in
    (result >>= set_header (call.uuid_text resolved), t')
