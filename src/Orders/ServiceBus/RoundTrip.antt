-- ===== src/Orders/ServiceBus/RoundTrip.antt =====
-- The body of a message (apps/orders/servicebus.py), read by the consumer.
use swarmscope.Base.{ℕ, ◌≡◌, refl, some, Text, ℤ, pos, Json, num, str, codes}
use swarmscope.Contracts.{OrderPlacedPayloadV1, OrderPlacedV1}
use swarmscope.Contracts.Valid.{IsPayload, IsEvent, build_payload-IsPayload}
use swarmscope.Contracts.Parse.{
  Pydantic, validate_payload, literal_type, literal_version, model_validate_json,
}
use swarmscope.Orders.Messaging.{OutboundEvent}
use swarmscope.Orders.Service.{dump_payload}
use swarmscope.Orders.ServiceBus.{Printer, to_service_bus_message, sort_keys, envelope}

-- What pydantic reads is what Python printed.
pub record ReadsBack (p : Pydantic) (printer : Printer) : Type 0 where
  pub loads : (j : Json) → p.loads (printer.dumps j) ≡ some j
  pub uuid : (n : ℕ) → p.uuid (str (printer.uuid_text n)) ≡ some n
  pub aware_datetime : (t : ℕ) → p.aware_datetime (str (printer.isoformat t)) ≡ some t
  pub int : (z : ℤ) → p.int (num z) ≡ some z

-- the event as it is handed to the publisher
abbrev pub outbound : Printer → OrderPlacedV1 → OutboundEvent
outbound printer e = record {
  event_id = e.event_id;
  event_type = e.event_type;
  event_version = e.event_version;
  occurred_at = e.occurred_at;
  correlation_id = e.correlation_id;
  payload = dump_payload printer.uuid_text e.payload;
}

literal_type_lem : (t : Text) → t ≡ codes "OrderPlaced" → literal_type (some (str t)) ≡ some t
unfolding literal_type
literal_type_lem t h = rw h refl

literal_version_lem : (n : ℕ) → n ≡ 1 → literal_version (some (num (pos n))) ≡ some n
unfolding literal_version
literal_version_lem n h = rw h refl

module _ (p : Pydantic) (printer : Printer) (back : ReadsBack p printer) where
  validate_payload-sort_keys :
      (payload : OrderPlacedPayloadV1)
      → IsPayload p.is_space payload
      → validate_payload p (sort_keys (dump_payload printer.uuid_text payload)) ≡ some payload
  unfolding validate_payload sort_keys
  validate_payload-sort_keys payload valid =
      rw
        (
          back.uuid payload.order_id,
          back.int (pos payload.quantity),
          build_payload-IsPayload p.is_space payload valid,
        )
        refl

  -- What the consumer validates of the body of a valid event's message is that event.
  pub model_validate_json-body :
      (e : OrderPlacedV1)
      → IsEvent p.is_space e
      → model_validate_json p (to_service_bus_message printer (outbound printer e)).body ≡ some e
  unfolding model_validate_json to_service_bus_message
  model_validate_json-body e valid =
      rw
        (
          back.loads (sort_keys (envelope printer (outbound printer e))),
          back.uuid e.event_id,
          literal_type_lem e.event_type valid.literal_type,
          literal_version_lem e.event_version valid.literal_version,
          back.aware_datetime e.occurred_at,
          back.uuid e.correlation_id,
          validate_payload-sort_keys e.payload valid.payload,
        )
        refl
