-- ===== src/Orders/Service/Tests.antt =====
-- Calls of `create_order` (apps/orders/main.py) at concrete requests, and the theorems applied at
-- them.
use swarmscope.Base.{
  ℕ, inl, ◌≡◌, refl, ◌^◌, Bool, none, some, [], ◌∷◌, Text, pos, negsuc, arith, Ending, commits,
  commits_unseen, ok, err, codes, ◌==◌,
}
use swarmscope.Contracts.{bounded_text}
use swarmscope.Orders.Schemas.{CreateOrder, create_order_model}
use swarmscope.Orders.Service.{
  Call, Tables, OrderError, refused_row, place_order, place_order_block, insert_order, create_order,
}
use swarmscope.Orders.Models.{order_accepts}
use swarmscope.Orders.Service.Rows.{IsValidated, IsStorable, create_order_model-IsValidated, reply}
use swarmscope.Orders.Service.Atomic.{place_order_too_large, with_both}
use swarmscope.Orders.Service.Promises.{
  IsPaired, place_order-IsPaired, place_order_commits, create_order_traces,
}

-- a space and a tab
abbrev blank : ℕ → Bool
blank c = c == 32

abbrev as_text : ℕ → Text
as_text n = n ∷ []

abbrev empty : Tables
empty = record { orders = []; outbox = [] }

abbrev call_ending : Ending → Call
call_ending ending = record {
  order_id = 1;
  event_id = 7;
  database_now = 100;
  utc_now = 90;
  ending = ending;
  is_space = blank;
  uuid_text = as_text;
}

abbrev call : Call
call = call_ending commits

abbrev request : CreateOrder
request = record { customer_id = codes "ada"; sku = codes "pen"; quantity = 2 }

abbrev large_request : CreateOrder
large_request = record { customer_id = codes "ada"; sku = codes "pen"; quantity = 2 ^ 31 }

-- The model strips the customer's name and refuses a quantity below one.
model_strips :
    (create_order_model blank (codes " ada ") (codes "pen") (pos 2) ≡ some request)
    × (create_order_model blank (codes "   ") (codes "pen") (pos 2) ≡ none)
    × (create_order_model blank (codes "ada") (codes "pen") (negsuc 0) ≡ none)
unfolding create_order_model bounded_text swarmscope.Contracts.strip
    swarmscope.Contracts.at_least_one
model_strips = (refl, refl, refl)

create_order_model-IsValidated_example : IsValidated blank request
create_order_model-IsValidated_example =
    create_order_model-IsValidated blank (codes " ada ") (codes "pen") (pos 2) request
      model_strips.0

large-IsValidated : IsValidated blank large_request
unfolding bounded_text swarmscope.Contracts.strip
large-IsValidated = record { customer = refl; sku = refl; positive = omega arith }

place_order_too_large_example :
    ((e : OrderError) × ((place_order call large_request 5 empty).0 ≡ err e))
    × ((place_order call large_request 5 empty).1 ≡ empty)
place_order_too_large_example =
    place_order_too_large call large_request 5 empty large-IsValidated (omega arith)

-- A name with U+0000 passes the model, and the insert raises.
nul_passes :
    create_order_model blank (0 ∷ []) (codes "pen") (pos 2)
    ≡ some (record { customer_id = 0 ∷ []; sku = codes "pen"; quantity = 2 })
unfolding create_order_model bounded_text swarmscope.Contracts.strip
    swarmscope.Contracts.at_least_one
nul_passes = refl

nul_raises :
    (place_order call (record { customer_id = 0 ∷ []; sku = codes "pen"; quantity = 2 }) 5 empty).0
    ≡ err refused_row
unfolding place_order place_order_block insert_order order_accepts
nul_raises = refl

request-IsStorable : IsStorable call request
request-IsStorable = record { customer = refl; sku = refl; id_text = refl }

-- The reply is lost and both rows stay.
place_order-IsPaired_example :
    IsPaired as_text
      (place_order (call_ending commits_unseen) request 5 empty).1.orders
      (place_order (call_ending commits_unseen) request 5 empty).1.outbox
place_order-IsPaired_example =
    place_order-IsPaired (call_ending commits_unseen) request 5 empty
      create_order_model-IsValidated_example tt

place_order_commits_example :
    place_order call request 5 empty
    ≡ (ok (reply call 5), with_both call request 5 empty create_order_model-IsValidated_example)
place_order_commits_example =
    place_order_commits call request 5 empty create_order_model-IsValidated_example refl refl
      request-IsStorable (omega arith) refl

placed : (create_order call request (some 9) 4 empty).0 ≡ ok (reply call 9, as_text 9)
unfolding create_order
placed =
    rw
      (place_order_commits call request 9 empty create_order_model-IsValidated_example refl refl
        request-IsStorable (omega arith) refl)
      refl

create_order_traces_example :
    (reply call 9 ≡ reply call 9)
    × (as_text 9 ≡ as_text 9)
    × ((create_order call request (some 9) 4 empty).1
        ≡ with_both call request 9 empty create_order_model-IsValidated_example)
create_order_traces_example =
    create_order_traces call request (some 9) 4 empty create_order_model-IsValidated_example 9
      (inl refl) placed
