-- ===== src/Orders/ServiceBus.antt =====
-- apps/orders/servicebus.py: the message of an event, and the publisher's connection.
pub mod RoundTrip
pub mod Wire
pub mod Publisher
mod Tests
use swarmscope.Base.{
  ℕ, Bool, true, false, Option, none, some, List, [], ◌∷◌, Text, ℤ, pos, Json, null, bool, num,
  real, str, arr, obj, Items, stop, item, Fields, end, field, codes, text_lt, if◌then◌else◌, Result,
  ok, err,
}
use swarmscope.Orders.Messaging.{OutboundEvent}

-- What Python prints: `json.dumps` with compact separators, `str` of a UUID, `isoformat`.
pub record Printer : Type 0 where
  pub dumps : Json → Text
  pub uuid_text : ℕ → Text
  pub isoformat : ℕ → Text

abbrev insert_field : Text → Json → Fields → Fields
insert_field k v end = field k v end
insert_field k v (field j w rest) =
    if text_lt j k then field j w (insert_field k v rest) else field k v (field j w rest)

-- `sort_keys=True`, which sorts the keys of inner objects too
unfoldable mutual
  pub sort_keys : Json → Json
  sort_keys null = null
  sort_keys (bool b) = bool b
  sort_keys (num n) = num n
  sort_keys (real t) = real t
  sort_keys (str t) = str t
  sort_keys (arr xs) = arr (sort_items xs)
  sort_keys (obj fs) = obj (sort_fields fs)

  pub sort_items : Items → Items
  sort_items stop = stop
  sort_items (item x xs) = item (sort_keys x) (sort_items xs)

  pub sort_fields : Fields → Fields
  sort_fields end = end
  sort_fields (field k v rest) = insert_field k (sort_keys v) (sort_fields rest)

-- a value of `application_properties`
pub data Property : Type 0 where
  text : Text → Property
  integer : ℕ → Property

pub record ServiceBusMessage : Type 0 where
  pub body : Text
  pub message_id : Text
  pub correlation_id : Text
  pub subject : Text
  pub content_type : Text
  pub application_properties : List (Text × Property)

-- the argument of `json.dumps`, where the payload is a mapping as its annotation says
abbrev pub envelope : Printer → OutboundEvent → Json
envelope printer e = obj (
    field (codes "event_id") (str (printer.uuid_text e.event_id)) (
      field (codes "event_type") (str e.event_type) (
        field (codes "event_version") (num (pos e.event_version)) (
          field (codes "occurred_at") (str (printer.isoformat e.occurred_at)) (
            field (codes "correlation_id") (str (printer.uuid_text e.correlation_id))
              (field (codes "payload") e.payload end))))))

unfoldable pub to_service_bus_message : Printer → OutboundEvent → ServiceBusMessage
unfolding sort_keys
to_service_bus_message printer e = record {
  body = printer.dumps (sort_keys (envelope printer e));
  message_id = printer.uuid_text e.event_id;
  correlation_id = printer.uuid_text e.correlation_id;
  subject = e.event_type;
  content_type = codes "application/json";
  application_properties =
      (codes "event_type", text e.event_type)
      ∷ (codes "event_version", integer e.event_version)
      ∷ (codes "occurred_at", text (printer.isoformat e.occurred_at))
      ∷ [];
}
