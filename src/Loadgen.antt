-- ===== src/Loadgen.antt =====
-- apps/loadgen/generator.py: the load generator, its statistics, and its schedule. Times are
-- whole numbers of a unit of which the interval between two orders is a multiple, where the source
-- has floats; what the clock, the random generator and the server do is in the turns.
pub mod Steady
pub mod Returns
pub mod Percentile
mod Tests
use swarmscope.Base.{
  ℕ, zero, suc, ◌+◌, ◌-◌, ◌*◌, ◌/◌, ◌%◌, Text, codes, Bool, true, false, ◌||◌, Option, none, some,
  List, [], ◌∷◌, ◌++◌, length, leb, ltb, min, max, holds, is_none, if◌then◌else◌, Result, ok, err,
}
use swarmscope.Runtime.{is_set, sleep_unless_shutdown}
use swarmscope.Orders.Schemas.{CreateOrder}

pub record Outcome : Type 0 where
  pub status : Option ℕ
  pub seconds : ℕ
  pub correlation_id : ℕ

pub record LoadStats : Type 0 where
  pub outcomes : List Outcome
  pub issued : ℕ

abbrev pub new_stats : LoadStats
new_stats = record { outcomes = []; issued = 0 }

-- `LoadStats.completed`
abbrev pub completed : LoadStats → ℕ
completed s = length s.outcomes

abbrev pub is_error : Outcome → Bool
is_error o = is_none o.status || holds (leb 400) o.status

abbrev pub count_if {ℓ} : {A : Type ℓ} → (A → Bool) → List A → ℕ
count_if p [] = 0
count_if p (x ∷ xs) = if p x then suc (count_if p xs) else count_if p xs

-- `LoadStats.errors`
unfoldable pub errors : LoadStats → ℕ
errors s = count_if is_error s.outcomes

-- How one request ends: with an HTTP status, an `Exception`, or a cancellation.
pub data Reply : Type 0 where
  answered : ℕ → Reply
  request_failed cancelled : Reply

-- the end of one request, with `perf_counter` before and after it
pub record Ended : Type 0 where
  pub reply : Reply
  pub started : ℕ
  pub now : ℕ
  pub correlation_id : ℕ

pub data Cancelled : Type 0 where
  cancelled_error : Cancelled

abbrev pub status_of : Reply → Option ℕ
status_of (answered n) = some n
status_of _ = none

-- what leaves `issue_one`: a cancellation, and no `Exception`
abbrev pub raises_of : Reply → Result Cancelled (Unit {0})
raises_of cancelled = err cancelled_error
raises_of _ = ok tt

-- `issue_one`, once the call has ended
unfoldable pub issue_one : Ended → LoadStats → Result Cancelled (Unit {0}) × LoadStats
issue_one e s = (
  raises_of e.reply,
  record s {
    outcomes =
        s.outcomes
        ++ (record {
          status = status_of e.reply;
          seconds = e.now - e.started;
          correlation_id = e.correlation_id;
        }
            ∷ []);
  },
)

-- `duration` counts only where it is not zero.
abbrev pub deadline_of : ℕ → Option ℕ → Option ℕ
deadline_of started none = none
deadline_of started (some zero) = none
deadline_of started (some (suc d)) = some (started + suc d)

-- `interval` is `1.0 / rate_per_second`, in the unit of all times: the unit is chosen such that this
-- quotient is whole, so no rounding of floats is modelled.
pub record LoadConfig : Type 0 where
  pub shutdown : Option ℕ
  pub interval : ℕ
  pub started : ℕ
  pub duration : Option ℕ

abbrev digit : ℕ → ℕ
digit n = 48 + n % 10

-- `CUSTOMERS[i]`, of 50
abbrev pub customer : ℕ → Text
customer i =
    codes "customer-" ++ (digit ((i + 1) / 100) ∷ digit ((i + 1) / 10) ∷ digit (i + 1) ∷ [])

-- `SKUS[i]`, of 20
abbrev pub sku : ℕ → Text
sku i =
    codes "SKU-"
    ++ (digit ((i + 1) / 1000) ∷ digit ((i + 1) / 100) ∷ digit ((i + 1) / 10) ∷ digit (i + 1) ∷ [])

-- what the random generator draws: the two places, and a quantity from 1 to 5
pub record Draw : Type 0 where
  pub customer_at : ℕ
  pub sku_at : ℕ
  pub units : ℕ

-- `build_order`
unfoldable pub build_order : Draw → CreateOrder
build_order draw = record {
  customer_id = customer draw.customer_at;
  sku = sku draw.sku_at;
  quantity = draw.units;
}

-- One turn of the loop: what is drawn for its order, the time from the loop's head to the pause, how
-- late the pause ends, and the requests that end during it, by their place among those in flight.
pub record Turn : Type 0 where
  pub draw : Draw
  pub takes : ℕ
  pub late : ℕ
  pub ends : List (ℕ × Ended)

pub record LoadState : Type 0 where
  pub stats : LoadStats
  pub in_flight : List CreateOrder
  pub slot : ℕ
  pub time : ℕ

-- the list without its element at a place
abbrev pub without {ℓ} : {A : Type ℓ} → ℕ → List A → Option (List A)
without n [] = none
without zero (x ∷ xs) = some xs
without (suc n) (x ∷ xs) = elim (without n xs) [ none ↦ none | some ys ↦ some (x ∷ ys) ]

abbrev pub recording : Ended → LoadState → Option (List CreateOrder) → LoadState
recording e s none = s
recording e s (some rest) = record s { stats = (issue_one e s.stats).1; in_flight = rest }

-- a task that ends leaves `in_flight`
abbrev pub end_task : ℕ × Ended → LoadState → LoadState
end_task (n, e) s = recording e s (without n s.in_flight)

unfoldable pub end_tasks : List (ℕ × Ended) → LoadState → LoadState
end_tasks [] s = s
end_tasks (e ∷ es) s = end_tasks es (end_task e s)

-- the loop's body up to the pause
unfoldable pub issue : Turn → LoadState → LoadState
unfolding build_order
issue turn s = record {
  stats = record s.stats { issued = s.stats.issued + 1 };
  in_flight = s.in_flight ++ (build_order turn.draw ∷ []);
  slot = s.slot + 1;
  time = s.time + turn.takes;
}

-- the pause until the next slot, if that is still to come
unfoldable pub pause : LoadConfig → Turn → LoadState → LoadState
unfolding sleep_unless_shutdown end_tasks
pause config turn s =
    let slot_at = config.started + s.slot * config.interval in
    let rest : LoadState = end_tasks turn.ends (record s {
      time = sleep_unless_shutdown config.shutdown s.time (slot_at - s.time) + turn.late;
    }) in
    if leb slot_at s.time then s else rest

-- `gather`: each request in flight ends
unfoldable pub gather : (ℕ → Ended) → List CreateOrder → LoadStats → LoadStats
unfolding issue_one
gather ends [] s = s
gather ends (order ∷ rest) s = gather ends rest (issue_one (ends (length rest)) s).1

pub data LoadEnd : Type 0 where
  returned : LoadStats → LoadEnd
  unfinished : LoadState → LoadEnd

abbrev pub deadline_passed : LoadConfig → ℕ → Bool
deadline_passed config now = holds (λ d. leb d now) (deadline_of config.started config.duration)

-- `run_load` from the loop on, over the turns that are given
unfoldable pub run_load : LoadConfig → (ℕ → Ended) → List Turn → LoadState → LoadEnd
unfolding issue pause gather
run_load config ends [] s =
    if is_set config.shutdown s.time || deadline_passed config s.time
    then returned (gather ends s.in_flight s.stats)
    else unfinished s
run_load config ends (turn ∷ turns) s =
    let rest : LoadEnd = run_load config ends turns (pause config turn (issue turn s)) in
    if is_set config.shutdown s.time || deadline_passed config s.time
    then returned (gather ends s.in_flight s.stats)
    else rest

-- before the first turn
abbrev pub start : LoadConfig → LoadState
start config = record { stats = new_stats; in_flight = []; slot = 0; time = config.started }

abbrev pub insert_sorted : ℕ → List ℕ → List ℕ
insert_sorted x [] = x ∷ []
insert_sorted x (y ∷ ys) = if leb x y then x ∷ y ∷ ys else y ∷ insert_sorted x ys

-- `sorted(o.seconds for o in self.outcomes)`
abbrev pub sorted_seconds : List Outcome → List ℕ
sorted_seconds [] = []
sorted_seconds (o ∷ os) = insert_sorted o.seconds (sorted_seconds os)

-- `ordered[index]`, where the index is in range
abbrev pub element_at : ℕ → List ℕ → ℕ
element_at n [] = 0
element_at zero (x ∷ xs) = x
element_at (suc n) (x ∷ xs) = element_at n xs

-- Python's `round` of the ratio of two numbers: to the nearest number, and from halfway between two
-- to the even one.
unfoldable pub round_ratio : ℕ → ℕ → ℕ
round_ratio a d =
    let q = a / d in
    let r = a % d in if ltb (2 * r) d then q else if ltb d (2 * r) then q + 1 else q + q % 2

-- `LoadStats.percentile` at the fraction `a / d`, which is a ratio of two numbers and multiplied
-- exactly, where the source has a `float`: a rank of zero gives the first element, as the source's
-- `max(0, …)` does.
unfoldable pub percentile : ℕ → ℕ → LoadStats → ℕ
unfolding round_ratio
percentile a d s =
    let n = length s.outcomes in
    element_at (max 0 (min (n - 1) (round_ratio (a * n) d - 1))) (sorted_seconds s.outcomes)
