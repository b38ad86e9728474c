-- ===== src/Orders/PublisherWorker/Loop.antt =====
-- The loop of apps/orders/publisher_worker.py over any rounds: its statistics, its errors, and its
-- end after the shutdown request.
use swarmscope.Base.{
  ℕ, suc, ◌+◌, ◌≤◌, ◌<◌, ◌≡◌, refl, ◌≢◌, true, false, some, List, [], ◌∷◌, arith, All, length, ◌⊎◌,
  inl, inr, Result, ok, err, Bool-cases, leb, max, le→leb, leb→le, leb-eq_false,
}
use swarmscope.Runtime.{is_set, sleep_unless_shutdown}
use swarmscope.Orders.Outbox.Database.{Engine}
use swarmscope.Orders.Outbox.{
  OutboxPublisher, OutboxError, cancelled, runtime_error, data_error, date_overflow,
  connection_lost, backoff, PublishOutcome, PublishResult, published, failed, idle, World, run_once,
}
use swarmscope.Orders.Outbox.Calls.{
  IsWellFormed, run_once-IsWellFormed, run_once-calm, run_once-accepted, is_interrupted,
  publications,
}
use swarmscope.Orders.PublisherWorker.{
  LoopStats, LoopConfig, Round, LoopState, returned, unfinished, after_result, after_error,
  after_round, round, run_publisher_loop,
}

abbrev pub total : LoopStats → ℕ
total s = s.published + s.failed + s.idle + s.errors

-- A pause ends after it began, and not after both its delay and the shutdown request.
sleep_bounds :
    (stop now delay : ℕ)
    → (now ≤ sleep_unless_shutdown (some stop) now delay)
      × (sleep_unless_shutdown (some stop) now delay ≤ max now stop)
unfolding sleep_unless_shutdown
sleep_bounds stop now delay = omega arith

-- What one round does to the counters, the clock and the topic.
record Advances (config : LoopConfig) (r : Round) (s s' : LoopState) : Type 0 where
  counted : total s'.stats ≡ suc (total s.stats)
  accepted : s'.stats.published + length s.world.broker ≤ s.stats.published + length s'.world.broker
  formed : IsWellFormed s.world.outbox → IsWellFormed s'.world.outbox
  passed : (stop : ℕ) → config.shutdown ≡ some stop → s.time + r.takes ≤ s'.time
  prompt : (stop : ℕ) → config.shutdown ≡ some stop → s'.time ≤ max (s.time + r.takes) stop

-- a pause with the time that it ends at
abbrev paused : LoopConfig → ℕ → ℕ → ℕ
paused config delay now = sleep_unless_shutdown config.shutdown now delay

module _ (config : LoopConfig) (now delay : ℕ) where
  pause_passes : (stop : ℕ) → config.shutdown ≡ some stop → now ≤ paused config delay now
  pause_passes stop e = rw e (sleep_bounds stop now delay).0

  pause_prompt : (stop : ℕ) → config.shutdown ≡ some stop → paused config delay now ≤ max now stop
  pause_prompt stop e = rw e (sleep_bounds stop now delay).1

-- one for the result that counts as a publication
abbrev reports : PublishResult → ℕ
reports published = 1
reports failed = 0
reports idle = 0

module _ (config : LoopConfig) (r : Round) (s : LoopState) (world' : World) where
  abbrev mid : LoopState
  mid = record s { world = world'; time = s.time + r.takes }

  after_result-Advances :
      (result : PublishResult)
      → reports result + length s.world.broker ≤ length world'.broker
      → (IsWellFormed s.world.outbox → IsWellFormed world'.outbox)
      → (s' : LoopState) × (◌≡◌ {A = Result LoopState LoopState}
          (ok (after_result config result mid))
          (ok s'))
        × Advances config r s s'
  unfolding after_result
  after_result-Advances published counts forms = (
    _,
    refl,
    record {
      counted = omega arith;
      accepted = omega arith;
      formed = forms;
      passed = λ stop e. omega arith;
      prompt = λ stop e. omega arith;
    },
  )
  after_result-Advances failed counts forms = (
    _,
    refl,
    record {
      counted = omega arith;
      accepted = omega arith;
      formed = forms;
      passed = pause_passes config (s.time + r.takes) config.error_backoff;
      prompt = pause_prompt config (s.time + r.takes) config.error_backoff;
    },
  )
  after_result-Advances idle counts forms = (
    _,
    refl,
    record {
      counted = omega arith;
      accepted = omega arith;
      formed = forms;
      passed = pause_passes config (s.time + r.takes) config.idle_sleep;
      prompt = pause_prompt config (s.time + r.takes) config.idle_sleep;
    },
  )

  after_error-Advances :
      0 + length s.world.broker ≤ length world'.broker
      → (IsWellFormed s.world.outbox → IsWellFormed world'.outbox)
      → (s' : LoopState) × (◌≡◌ {A = Result LoopState LoopState}
          (ok (after_error config mid))
          (ok s'))
        × Advances config r s s'
  unfolding after_error
  after_error-Advances counts forms = (
    _,
    refl,
    record {
      counted = omega arith;
      accepted = omega arith;
      formed = forms;
      passed = pause_passes config (s.time + r.takes) config.error_backoff;
      prompt = pause_prompt config (s.time + r.takes) config.error_backoff;
    },
  )

after_round-Advances :
    (config : LoopConfig) (r : Round) (s : LoopState) (world' : World)
    (result : Result OutboxError PublishOutcome)
    → publications result + length s.world.broker ≤ length world'.broker
    → (IsWellFormed s.world.outbox → IsWellFormed world'.outbox)
    → result ≢ err cancelled
    → (s' : LoopState) × (after_round config result
          (record s { world = world'; time = s.time + r.takes })
        ≡ ok s')
      × Advances config r s s'
unfolding after_round
after_round-Advances config r s world' (ok outcome) counts forms calm =
    after_result-Advances config r s world' outcome.result counts forms
after_round-Advances config r s world' (err cancelled) counts forms calm = absurd (calm refl)
after_round-Advances config r s world' (err runtime_error) counts forms calm =
    after_error-Advances config r s world' counts forms
after_round-Advances config r s world' (err data_error) counts forms calm =
    after_error-Advances config r s world' counts forms
after_round-Advances config r s world' (err date_overflow) counts forms calm =
    after_error-Advances config r s world' counts forms
after_round-Advances config r s world' (err connection_lost) counts forms calm =
    after_error-Advances config r s world' counts forms
after_round-Advances config r s world' (err (backoff _)) counts forms calm =
    after_error-Advances config r s world' counts forms

-- What a run from `s` has counted when it stands at `s'`.
abbrev pub Accounts : ℕ → LoopState → LoopState → Type 0
Accounts rounds s s' =
    (total s'.stats ≤ total s.stats + rounds)
    × (s'.stats.published + length s.world.broker ≤ s.stats.published + length s'.world.broker)
    × (IsWellFormed s.world.outbox → IsWellFormed s'.world.outbox)

module _ (engine : Engine) (worker : OutboxPublisher) (config : LoopConfig) where
  round-Advances :
      (r : Round) (s : LoopState)
      → is_interrupted r.turn.delivery ≡ false
      → (s' : LoopState) × (round engine worker config r s ≡ ok s') × Advances config r s s'
  unfolding round
  round-Advances r s calm =
      after_round-Advances config r s (run_once engine worker r.turn s.world).1
        (run_once engine worker r.turn s.world).0 (run_once-accepted engine worker r.turn s.world)
        (run_once-IsWellFormed engine worker r.turn s.world)
        (run_once-calm engine worker r.turn s.world calm)

  -- If no delivery is cancelled, no failure of the database or the broker ends the loop: it
  -- returns at a time when shutdown is requested, or has run every round and counted each. It
  -- counts no publication that the broker has not accepted, and keeps a keyed table of rows that
  -- the database admits such a table.
  pub loop_survives :
      (rounds : List Round) (s : LoopState)
      → All (λ r. is_interrupted r.turn.delivery ≡ false) rounds
      → (s' : LoopState) × (((run_publisher_loop engine worker config rounds s ≡ returned s')
            × (is_set config.shutdown s'.time ≡ true))
          ⊎ ((run_publisher_loop engine worker config rounds s ≡ unfinished s')
              × (total s'.stats ≡ total s.stats + length rounds)
              × (is_set config.shutdown s'.time ≡ false)))
        × Accounts (length rounds) s s'
  unfolding run_publisher_loop
  loop_survives [] s calm = elim (Bool-cases (is_set config.shutdown s.time)) [
    | inl stop ↦ (s, inl (rw stop refl, stop), (omega arith, omega arith, λ h. h))
    | inr go ↦ (s, inr (rw go refl, omega arith, go), (omega arith, omega arith, λ h. h))
  ]
  loop_survives (r ∷ rounds) s calm = elim (Bool-cases (is_set config.shutdown s.time)) [
    | inl stop ↦ (s, inl (rw stop refl, stop), (omega arith, omega arith, λ h. h))
    | inr go ↦
        let (s1, ran, adv) = round-Advances r s calm.0 in
        let (s2, ended, acc) = loop_survives rounds s1 calm.1 in
        (
          s2,
          elim ended [
            | inl (e, stop) ↦ inl (rw (go, ran) e, stop)
            | inr (e, n, on) ↦ inr (rw (go, ran) e, omega (arith, adv.counted), on)
          ],
          (omega (arith, adv.counted), omega (arith, adv.accepted), λ h. acc.2 (adv.formed h)),
        )
  ]

  -- With shutdown set at `stop`, enough rounds without cancelled deliveries that each take at
  -- least one unit of time and at most `longest` bring a loop that begins no later than
  -- `stop + longest` to return, no sooner than `stop` and at the latest `longest` after it.
  pub loop_returns :
      (stop longest : ℕ) (rounds : List Round) (s : LoopState)
      → config.shutdown ≡ some stop
      → All
          (λ r. (is_interrupted r.turn.delivery ≡ false) × (1 ≤ r.takes) × (r.takes ≤ longest))
          rounds
      → stop < s.time + length rounds
      → s.time ≤ stop + longest
      → (s' : LoopState) × (run_publisher_loop engine worker config rounds s ≡ returned s')
        × (stop ≤ s'.time)
        × (s'.time ≤ stop + longest)
  unfolding run_publisher_loop
  loop_returns stop longest [] s set calm enough early =
      (s, rw (set, le→leb stop s.time (omega arith)) refl, omega arith, early)
  loop_returns stop longest (r ∷ rounds) s set calm enough early =
      elim (Bool-cases (leb stop s.time)) [
        | inl late ↦ (s, rw (set, late) refl, leb→le stop s.time late, early)
        | inr soon ↦
            let (s1, ran, adv) = round-Advances r s calm.0.0 in
            let (s2, e, after, before) =
              loop_returns stop longest rounds s1 set calm.1
                (omega (arith, adv.passed stop set, calm.0.1))
                (omega (arith, adv.prompt stop set, calm.0.2, leb-eq_false stop s.time soon)) in
            (s2, rw (set, soon, ran) e, after, before)
      ]
