-- ===== src/Orders/PublisherWorker.antt =====
-- apps/orders/publisher_worker.py: the loop of the publisher process. A round is one `run_once`
-- with its surroundings and the time that it takes.
pub mod Loop
use swarmscope.Base.{ℕ, ◌+◌, ◌*◌, Bool, Option, List, [], ◌∷◌, Result, ok, err, if◌then◌else◌}
use swarmscope.Runtime.{is_set, sleep_unless_shutdown}
use swarmscope.Orders.Backoff.{second}
use swarmscope.Orders.Outbox.Database.{Engine}
use swarmscope.Orders.Outbox.{
  OutboxPublisher, OutboxError, cancelled, PublishOutcome, PublishResult, published, failed, idle,
  World, Turn, run_once,
}

abbrev pub default_idle_sleep : ℕ
default_idle_sleep = second

abbrev pub default_error_backoff : ℕ
default_error_backoff = 5 * second

pub record LoopStats : Type 0 where
  pub published : ℕ
  pub failed : ℕ
  pub idle : ℕ
  pub errors : ℕ

abbrev pub no_stats : LoopStats
no_stats = record { published = 0; failed = 0; idle = 0; errors = 0 }

-- the arguments that stay the same in every round
pub record LoopConfig : Type 0 where
  pub shutdown : Option ℕ
  pub idle_sleep : ℕ
  pub error_backoff : ℕ

pub record Round : Type 0 where
  pub turn : Turn
  pub takes : ℕ

pub record LoopState : Type 0 where
  pub stats : LoopStats
  pub world : World
  pub time : ℕ

-- How the loop stands when the rounds that are given are over: it has returned, it has raised (a
-- cancellation is no `Exception`), or it would go on.
pub data LoopEnd : Type 0 where
  returned : LoopState → LoopEnd
  raised : LoopState → LoopEnd
  unfinished : LoopState → LoopEnd

-- The rest of the body after `run_once`, with what it counts and whether it pauses.
unfoldable pub after_result : LoopConfig → PublishResult → LoopState → LoopState
unfolding sleep_unless_shutdown
after_result config published s = record s {
  stats = record s.stats { published = s.stats.published + 1 };
}
after_result config failed s = record s {
  stats = record s.stats { failed = s.stats.failed + 1 };
  time = sleep_unless_shutdown config.shutdown s.time config.error_backoff;
}
after_result config idle s = record s {
  stats = record s.stats { idle = s.stats.idle + 1 };
  time = sleep_unless_shutdown config.shutdown s.time config.idle_sleep;
}

-- the `except Exception:` branch
unfoldable pub after_error : LoopConfig → LoopState → LoopState
unfolding sleep_unless_shutdown
after_error config s = record s {
  stats = record s.stats { errors = s.stats.errors + 1 };
  time = sleep_unless_shutdown config.shutdown s.time config.error_backoff;
}

-- the body of the loop after `run_once`: the state after it, or a cancellation
unfoldable pub after_round :
    LoopConfig → Result OutboxError PublishOutcome → LoopState → Result LoopState LoopState
unfolding after_result after_error
after_round config (ok outcome) s = ok (after_result config outcome.result s)
after_round config (err cancelled) s = err s
after_round config (err _) s = ok (after_error config s)

unfoldable pub round :
    Engine → OutboxPublisher → LoopConfig → Round → LoopState → Result LoopState LoopState
unfolding after_round
round engine worker config r s =
    let (result, world') = run_once engine worker r.turn s.world in
    after_round config result (record s { world = world'; time = s.time + r.takes })

-- Shutdown is tested before each round and nowhere else.
unfoldable pub run_publisher_loop :
    Engine → OutboxPublisher → LoopConfig → List Round → LoopState → LoopEnd
unfolding round
run_publisher_loop engine worker config [] s =
    if is_set config.shutdown s.time then returned s else unfinished s
run_publisher_loop engine worker config (r ∷ rounds) s =
    let rest : LoopEnd = elim (round engine worker config r s) [
      | ok s' ↦ run_publisher_loop engine worker config rounds s'
      | err s' ↦ raised s'
    ] in
    if is_set config.shutdown s.time then returned s else rest
