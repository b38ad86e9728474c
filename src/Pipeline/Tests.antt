-- ===== src/Pipeline/Tests.antt =====
-- One concrete order from its request to its fulfilment.
use swarmscope.Base.{
  ℕ, ◌≡◌, refl, true, Option, some, List, [], ◌∷◌, Text, arith, ok, commits, codes,
}
use swarmscope.Contracts.{bounded_text, strip}
use swarmscope.Contracts.Parse.{model_validate_json}
use swarmscope.Orders.Schemas.{CreateOrder}
use swarmscope.Orders.Service as Place
use swarmscope.Orders.Service.Rows.{IsValidated, event_of, order_row}
use swarmscope.Orders.ServiceBus.Wire.{reader, printer, printer-ReadsBack}
use swarmscope.Fulfilment.Service.{processed_row}
use swarmscope.Fulfilment.Service.Once.{with_rows}
use swarmscope.Fulfilment.Consumer.{
  completed, Delivery, Consumer, string, read_body, settle_message,
}
use swarmscope.Orders.Models.{order_accepts}
use swarmscope.Pipeline.Delivered.{fulfilment_of, sent_body, placed_order_is_fulfilled}

abbrev place : Place.Call
place = record {
  order_id = 1;
  event_id = 7;
  database_now = 100;
  utc_now = 90;
  ending = commits;
  is_space = reader.is_space;
  uuid_text = printer.uuid_text;
}

abbrev request : CreateOrder
request = record { customer_id = codes "ada"; sku = codes "pen"; quantity = 2 }

request-IsValidated : IsValidated reader.is_space request
unfolding bounded_text strip reader
request-IsValidated = record { customer = refl; sku = refl; positive = omega arith }

request-fits : order_accepts (order_row place request 5) ≡ true
unfolding order_accepts
request-fits = refl

abbrev as_text : List ℕ → Option Text
as_text b = some b

abbrev delivery : Delivery
delivery = record {
  body = string (sent_body printer place request 5);
  call = record {
    fulfilment_id = 30;
    database_now = 200;
    ending = commits;
    processed_first = true;
  };
  receiver_returns = true;
  receiver_reaches = true;
}

abbrev consumer : Consumer
consumer = record { tables = record { processed = []; fulfilments = [] }; told = [] }

delivered :
    read_body as_text (model_validate_json reader) delivery.body
    ≡ ok (sent_body printer place request 5)
unfolding read_body
delivered = refl

placed_order_is_fulfilled_example :
    settle_message as_text (model_validate_json reader) delivery consumer ≡ (
      ok completed,
      record {
        tables =
            with_rows
              (processed_row delivery.call (event_of place request 5))
              (fulfilment_of delivery.call (order_row place request 5))
              consumer.tables;
        told = (completed, delivery.body) ∷ [];
      },
    )
placed_order_is_fulfilled_example =
    placed_order_is_fulfilled reader printer printer-ReadsBack as_text place request 5 delivery
      consumer refl refl request-IsValidated request-fits delivered (refl, refl) refl refl refl
