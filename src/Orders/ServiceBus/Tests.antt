-- ===== src/Orders/ServiceBus/Tests.antt =====
-- The message of a concrete event (apps/orders/servicebus.py), printed and read again.
use swarmscope.Base.{
  ℕ, ◌≡◌, refl, Option, none, some, List, [], ◌∷◌, Text, ok, err, length, codes, arith,
}
use swarmscope.Contracts.{OrderPlacedV1, bounded_text, strip}
use swarmscope.Contracts.Parse.{model_validate_json}
use swarmscope.Contracts.Valid.{IsEvent}
use swarmscope.Orders.ServiceBus.{to_service_bus_message}
use swarmscope.Orders.Messaging.{OutboundEvent}
use swarmscope.Orders.ServiceBus.Publisher.{
  SdkCall, enter, exit, publish_each, publish, new_publisher, not_open,
}
use swarmscope.Orders.ServiceBus.Publisher.Closes.{
  fresh, after_block, after_block_closes, closing, sending, opening, IsUsed,
}
use swarmscope.Orders.ServiceBus.RoundTrip.{outbound, model_validate_json-body}
use swarmscope.Orders.ServiceBus.Wire.{reader, printer, printer-ReadsBack}

abbrev event : OrderPlacedV1
event = record {
  event_id = 7;
  event_type = codes "OrderPlaced";
  event_version = 1;
  occurred_at = 90;
  correlation_id = 5;
  payload = record { order_id = 1; customer_id = codes "ada"; sku = codes "pen"; quantity = 2 };
}

event-IsEvent : IsEvent reader.is_space event
unfolding bounded_text strip reader
event-IsEvent = record {
  literal_type = refl;
  literal_version = refl;
  payload = record { customer = refl; sku = refl; positive = omega arith };
}

model_validate_json-body_example :
    model_validate_json reader (to_service_bus_message printer (outbound printer event)).body
    ≡ some event
model_validate_json-body_example =
    model_validate_json-body reader printer printer-ReadsBack event event-IsEvent

-- every call answered with a new number
abbrev sdk : List SdkCall → SdkCall → Option ℕ
sdk calls c = some (length calls)

abbrev namespace_name : Text
namespace_name = codes "ns"

abbrev topic_name : Text
topic_name = codes "orders"

entered : (enter sdk (fresh sdk namespace_name topic_name [] none)).0 ≡ ok tt
unfolding enter
entered = refl

exited :
    (after_block sdk namespace_name topic_name [] printer none (outbound printer event ∷ [])).0
    ≡ ok tt
unfolding enter exit publish_each
exited = refl

after_block_closes_example :
    (credential : ℕ) × (client : ℕ) × (sender : ℕ) × ((after_block sdk namespace_name topic_name []
        printer none
        (outbound printer event ∷ [])).1
      ≡ record {
        publisher = new_publisher namespace_name topic_name none;
        calls = closing none credential client sender (
            sending printer sender
              (outbound printer event ∷ [])
              (opening namespace_name topic_name none credential client []));
      })
    × IsUsed none credential
    × ((e : OutboundEvent)
        → publish sdk printer e
            (after_block sdk namespace_name topic_name [] printer none
              (outbound printer event ∷ [])).1
          ≡ (
            err not_open,
            (after_block sdk namespace_name topic_name [] printer none
                (outbound printer event ∷ [])).1,
          ))
after_block_closes_example =
    after_block_closes sdk namespace_name topic_name [] printer none (outbound printer event ∷ [])
      entered exited
