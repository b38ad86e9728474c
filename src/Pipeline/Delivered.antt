-- ===== src/Pipeline/Delivered.antt =====
-- The delivery of a placed order's event, from the message (apps/orders/servicebus.py) to the
-- consumer's tables (apps/fulfilment/consumer.py).
use swarmscope.Base.{
  ℕ, ◌≡◌, refl, some, true, false, Option, List, ◌∷◌, Text, ok, commits, arith, has_key,
}
use swarmscope.Contracts.Parse.{Pydantic, model_validate_json}
use swarmscope.Contracts.Valid.{IsEvent}
use swarmscope.Orders.Models.{Order, order_accepts}
use swarmscope.Orders.Schemas.{CreateOrder}
use swarmscope.Orders.Service.Rows.{IsValidated, event_of, order_row, event_row}
use swarmscope.Orders.Outbox.{outbound_of}
use swarmscope.Orders.ServiceBus.{Printer, to_service_bus_message}
use swarmscope.Orders.ServiceBus.RoundTrip.{ReadsBack, model_validate_json-body}
use swarmscope.Fulfilment.Models.{Fulfilment, fulfilment_key}
use swarmscope.Fulfilment.Service.Once.{IsNew, with_rows}
use swarmscope.Fulfilment.Service.Writes.{IsHeld, fulfil_order_new}
use swarmscope.Fulfilment.Consumer.{
  completed, Delivery, Consumer, read_body, tell, settle_message, settle_read, settle_parsed,
  settle_handled,
}
use swarmscope.Orders.Service as Place
use swarmscope.Fulfilment.Service.{processed_row}
use swarmscope.Fulfilment.Service as Fulfil

-- the fulfilment of an order
abbrev pub fulfilment_of : Fulfil.Call → Order → Fulfilment
fulfilment_of call order = record {
  id = call.fulfilment_id;
  order_id = order.id;
  customer_id = order.customer_id;
  sku = order.sku;
  quantity = order.quantity;
  correlation_id = order.correlation_id;
  created_at = call.database_now;
}

-- the body of the message that the publisher sends for a request
abbrev pub sent_body : Printer → Place.Call → CreateOrder → ℕ → Text
sent_body printer call request correlation_id =
    (to_service_bus_message printer (outbound_of (event_row call request correlation_id))).body

-- The payload of a validated request is valid.
event_of-IsEvent :
    (call : Place.Call) (request : CreateOrder) (correlation_id : ℕ)
    → IsValidated call.is_space request
    → IsEvent call.is_space (event_of call request correlation_id)
event_of-IsEvent call request correlation_id v = record {
  literal_type = refl;
  literal_version = refl;
  payload = record { customer = v.customer; sku = v.sku; positive = v.positive };
}

-- The consumer's columns hold what the orders' columns held.
event_of-IsHeld :
    (place : Place.Call) (request : CreateOrder) (correlation_id : ℕ) (d : Delivery) (c : Consumer)
    → IsValidated place.is_space request
    → order_accepts (order_row place request correlation_id) ≡ true
    → has_key fulfilment_key d.call.fulfilment_id c.tables.fulfilments ≡ false
    → IsHeld d.call (event_of place request correlation_id) c.tables
unfolding order_accepts
event_of-IsHeld place request correlation_id d c v admits fresh = record {
  short = refl;
  fits = ground (arith, admits);
  positive = v.positive;
  fresh = fresh;
}

module _ (p : Pydantic) (printer : Printer) (back : ReadsBack p printer) where
  -- What the consumer validates of the sent body is the order's event.
  sent_body_lem :
      (place : Place.Call) (request : CreateOrder) (correlation_id : ℕ)
      → place.is_space ≡ p.is_space
      → place.uuid_text ≡ printer.uuid_text
      → IsValidated place.is_space request
      → model_validate_json p (sent_body printer place request correlation_id)
        ≡ some (event_of place request correlation_id)
  sent_body_lem place request correlation_id spaces texts v = rw texts (
      model_validate_json-body p printer back (event_of place request correlation_id)
        (rw (← spaces) (event_of-IsEvent place request correlation_id v)))

  -- When the body that was sent for a validated request is delivered, its event and order are
  -- new to the consumer, the orders' table admits the order's row, the fulfilment's id is new, the
  -- transaction commits and the receiver's call returns, then the delivery is completed, and
  -- exactly the event's record and a fulfilment with the order's contents are added.
  pub placed_order_is_fulfilled :
      (decode : List ℕ → Option Text) (place : Place.Call) (request : CreateOrder)
      (correlation_id : ℕ) (d : Delivery) (c : Consumer)
      → place.is_space ≡ p.is_space
      → place.uuid_text ≡ printer.uuid_text
      → IsValidated place.is_space request
      → order_accepts (order_row place request correlation_id) ≡ true
      → read_body decode (model_validate_json p) d.body
        ≡ ok (sent_body printer place request correlation_id)
      → IsNew (event_of place request correlation_id) c.tables
      → has_key fulfilment_key d.call.fulfilment_id c.tables.fulfilments ≡ false
      → d.call.ending ≡ commits
      → d.receiver_returns ≡ true
      → settle_message decode (model_validate_json p) d c ≡ (
        ok completed,
        record {
          tables =
              with_rows
                (processed_row d.call (event_of place request correlation_id))
                (fulfilment_of d.call (order_row place request correlation_id))
                c.tables;
          told = (completed, d.body) ∷ c.told;
        },
      )
  unfolding settle_message settle_read settle_parsed settle_handled tell
  placed_order_is_fulfilled decode place request correlation_id d c spaces texts v small reads new
        fresh ends returns =
      rw
        (
          reads,
          sent_body_lem place request correlation_id spaces texts v,
          fulfil_order_new d.call (event_of place request correlation_id) c.tables new
              (event_of-IsHeld place request correlation_id d c v small fresh) ends,
          returns,
        )
        refl
