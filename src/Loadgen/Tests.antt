-- ===== src/Loadgen/Tests.antt =====
-- A load of one order per second for two seconds, and the theorems applied at it.
use swarmscope.Base.{◌≡◌, refl, none, some, List, [], ◌∷◌, arith}
use swarmscope.Loadgen.{
  LoadStats, round_ratio, percentile, Ended, answered, request_failed, LoadConfig, Turn, run_load,
  start,
}
use swarmscope.Loadgen.Steady.{IsAccounted, run_load-IsAccounted}
use swarmscope.Loadgen.Returns.{IsFinished, run_load_returns}

abbrev config : LoadConfig
config = record { shutdown = none; interval = 1000000; started = 50; duration = some 2000000 }

abbrev accepted : Ended
accepted = record { reply = answered 202; started = 60; now = 30060; correlation_id = 1 }

abbrev refused : Ended
refused = record { reply = request_failed; started = 70; now = 5000070; correlation_id = 2 }

-- The first request ends in the first pause, and the second is in flight at the end.
abbrev turns : List Turn
turns =
    (record {
      draw = record { customer_at = 0; sku_at = 19; units = 2 };
      takes = 100;
      late = 10;
      ends = (0, accepted) ∷ [];
    })
    ∷ (record {
      draw = record { customer_at = 49; sku_at = 3; units = 5 };
      takes = 100;
      late = 0;
      ends = [];
    })
    ∷ []

run_load_returns_example :
    IsFinished config 2000000 (run_load config (λ i. refused) turns (start config))
run_load_returns_example =
    run_load_returns config 2000000 (λ i. refused) turns refl (omega arith) (omega arith)

run_load-IsAccounted_example :
    IsAccounted config (run_load config (λ i. refused) turns (start config))
run_load-IsAccounted_example = run_load-IsAccounted config (λ i. refused) turns

abbrev stats : LoadStats
stats = record {
  outcomes =
      (record { status = some 202; seconds = 30000; correlation_id = 1 })
      ∷ (record { status = none; seconds = 5000000; correlation_id = 2 })
      ∷ (record { status = some 503; seconds = 20000; correlation_id = 3 })
      ∷ [];
  issued = 3;
}

median : percentile 1 2 stats ≡ 30000
unfolding percentile
median = refl

-- `round(2.5)`
halfway : round_ratio 5 2 ≡ 2
unfolding round_ratio
halfway = refl
