-- ===== src/Fulfilment/Tests.antt =====
-- Deliveries to apps/fulfilment at concrete messages, and the theorems applied at them.
use swarmscope.Base.{
  ℕ, ◌∙◌, ◌≡◌, ◌≢◌, refl, inl, inr, ◌⊎◌, true, false, Option, none, some, List, [], ◌∷◌, Text,
  arith, ok, err, commits, codes, In, some_inj, sym,
}
use swarmscope.Contracts.{OrderPlacedV1}
use swarmscope.Fulfilment.Models.{
  Tables, DatabaseError, connection_lost, insert_processed, insert_fulfilment,
}
use swarmscope.Fulfilment.Service.{
  Call, fulfilled, duplicate, fulfil_order, flush, except_integrity,
}
use swarmscope.Fulfilment.Service.Once.{
  IsDone, IsNew, both_rows, fulfil_order_again, fulfil_order_tells, fulfil_order_repeats,
}
use swarmscope.Fulfilment.Consumer.{
  abandoned, Delivery, Body, string, bytes, Round, LoopConfig, LoopState, no_stats,
  run_consumer_loop, state_of, settle_message, default_error_backoff,
}
use swarmscope.Fulfilment.Consumer.Settles.{IsSettlement, settle_message_describes}
use swarmscope.Fulfilment.Consumer.Account.{Agrees}
use swarmscope.Fulfilment.Consumer.ExactlyOnce.{IsSettled, IsSent, exactly_once}

abbrev event : OrderPlacedV1
event = record {
  event_id = 7;
  event_type = codes "OrderPlaced";
  event_version = 1;
  occurred_at = 90;
  correlation_id = 5;
  payload = record { order_id = 1; customer_id = codes "ada"; sku = codes "pen"; quantity = 2 };
}

abbrev call : Call
call = record { fulfilment_id = 30; database_now = 200; ending = commits; processed_first = true }

abbrev second_call : Call
second_call = record {
  fulfilment_id = 31;
  database_now = 300;
  ending = commits;
  processed_first = false;
}

abbrev empty : Tables
empty = record { processed = []; fulfilments = [] }

abbrev done : Tables
done = both_rows call event empty

first_delivery : fulfil_order call event empty ≡ (ok fulfilled, done)
unfolding fulfil_order flush insert_processed insert_fulfilment
first_delivery = refl

fulfil_order_again_example :
    ((fulfil_order second_call event done).1 ≡ done)
    × ((fulfil_order second_call event done).0 ≢ ok fulfilled)
fulfil_order_again_example = fulfil_order_again second_call event done (inl refl)

fulfil_order_repeats_example : fulfil_order second_call event done ≡ (ok duplicate, done)
fulfil_order_repeats_example =
    fulfil_order_repeats second_call event done (inl refl) refl refl (omega arith) refl

fulfil_order_tells_example :
    ((fulfil_order call event empty).0 ≡ ok fulfilled
      → ((fulfil_order call event empty).1 ≡ done) × IsNew event empty)
    × ((fulfil_order call event empty).0 ≡ ok duplicate
        → ((fulfil_order call event empty).1 ≡ empty) × IsDone event empty)
    × ((e : DatabaseError)
        → (fulfil_order call event empty).0 ≡ err e
        → ((fulfil_order call event empty).1 ≡ empty)
          ⊎ (((fulfil_order call event empty).1 ≡ done)
              × IsNew event empty
              × (e ≡ connection_lost)))
fulfil_order_tells_example = fulfil_order_tells call event empty

-- ASCII bytes, and a format with one text that is an event
abbrev ascii : List ℕ → Option Text
ascii b = some b

abbrev one_text : Text → Option OrderPlacedV1
one_text [] = none
one_text (c ∷ cs) = some event

abbrev delivery : Call → Body → Delivery
delivery c b = record { body = b; call = c; receiver_returns = true; receiver_reaches = true }

abbrev config : LoopConfig
config = record { shutdown = none; error_backoff = default_error_backoff }

-- The event twice, with an empty body between, and a receive that raises.
abbrev rounds : List Round
rounds =
    record { received = some (delivery call (string (codes "{}")) ∷ []); takes = 1 }
    ∷ record { received = none; takes = 1 }
    ∷ record {
      received = some (delivery call (bytes []) ∷ delivery second_call (bytes (codes "{}")) ∷ []);
      takes = 1;
    }
    ∷ []

abbrev start : LoopState
start = record { stats = no_stats; consumer = record { tables = empty; told = [] }; time = 0 }

one_event-Agrees : Agrees (event ∷ [])
one_event-Agrees e e' (inl p) (inl q) h = p ∙ sym q
one_event-Agrees e e' (inl p) (inr q) h = elim q [ ]
one_event-Agrees e e' (inr p) q h = elim p [ ]

one_text-sent : (t : Text) (e : OrderPlacedV1) → one_text t ≡ some e → In e (event ∷ [])
one_text-sent [] e h = absurd (cc)
one_text-sent (c ∷ cs) e h = inl (sym (some_inj h))

one_text-IsSent : (d : Delivery) → IsSent ascii one_text (event ∷ []) d
one_text-IsSent d e (text, reads, valid) = one_text-sent text e valid

loop_settles :
    ((state_of (run_consumer_loop ascii one_text config rounds start)).consumer.tables ≡ done)
    × ((state_of (run_consumer_loop ascii one_text config rounds start)).stats
        ≡ record { fulfilled = 2; dead_lettered = 1; abandoned = 0; idle = 0; errors = 1 })
unfolding run_consumer_loop settle_message fulfil_order flush insert_processed insert_fulfilment
    except_integrity
loop_settles = (refl, refl)

exactly_once_example :
    IsSettled ascii one_text
      (event ∷ [])
      (state_of (run_consumer_loop ascii one_text config rounds start)).consumer
exactly_once_example =
    exactly_once ascii one_text (event ∷ []) one_event-Agrees config rounds start
      (
        (one_text-IsSent (delivery call (string (codes "{}"))), tt),
        (
          tt,
          (
            (
              one_text-IsSent (delivery call (bytes [])),
              (one_text-IsSent (delivery second_call (bytes (codes "{}"))), tt),
            ),
            tt,
          ),
        ),
      )
      ([], record { lines = tt; ids = tt; orders = tt; genuine = tt }, tt)

-- an event whose quantity is refused by the check
abbrev void_event : OrderPlacedV1
void_event = record event {
  payload = record { order_id = 1; customer_id = codes "ada"; sku = codes "pen"; quantity = 0 };
}

abbrev void_text : Text → Option OrderPlacedV1
void_text t = some void_event

abbrev void_delivery : Delivery
void_delivery = delivery call (string (codes "{}"))

void-abandoned : (settle_message ascii void_text void_delivery start.consumer).0 ≡ ok abandoned
unfolding settle_message fulfil_order flush insert_processed insert_fulfilment except_integrity
void-abandoned = refl

settle_message_describes_example :
    IsSettlement ascii void_text void_delivery start.consumer abandoned
      (settle_message ascii void_text void_delivery start.consumer)
settle_message_describes_example =
    settle_message_describes ascii void_text void_delivery start.consumer void-abandoned
