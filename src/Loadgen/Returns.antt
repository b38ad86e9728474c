-- ===== src/Loadgen/Returns.antt =====
-- apps/loadgen/generator.py: the end of the loop of `run_load`.
use swarmscope.Base.{
  or_false, ℕ, zero, suc, ◌+◌, ◌*◌, ◌≤◌, ◌<◌, ◌≡◌, refl, sym, ◌∙◌, inl, inr, false, some, List, [],
  ◌∷◌, length, leb, holds, Bool-cases, leb-eq_false, subst, arith,
}
use swarmscope.Runtime.{is_set}
use swarmscope.Loadgen.{
  LoadStats, completed, Ended, LoadConfig, deadline_of, Turn, LoadState, issue, pause, gather,
  LoadEnd, returned, deadline_passed, run_load, start,
}
use swarmscope.Loadgen.Steady.{
  IsSteady, turn-IsSteady, start-IsSteady, gather-IsAccounted, gather-completed, stops,
}

slots_left : (n k : ℕ) → n + suc k ≡ n + 1 + k
slots_left n k = omega arith

zero_left : (n : ℕ) → n ≡ 0 + n
zero_left n = omega arith

module _ (config : LoadConfig) (d : ℕ) where
  deadline_passed_lem :
      (now : ℕ)
      → config.duration ≡ some d
      → 1 ≤ d
      → deadline_passed config now ≡ leb (config.started + d) now
  deadline_passed_lem now lasts positive = rw lasts (go d positive)
    where
      go :
          (n : ℕ)
          → 1 ≤ n
          → holds (λ x. leb x now) (deadline_of config.started (some n))
            ≡ leb (config.started + n) now
      go zero h = absurd (omega (arith, h))
      go (suc n) h = refl

  -- The end that the theorem promises.
  abbrev pub IsFinished : LoadEnd → Type 0
  IsFinished end =
      (stats : LoadStats) × (end ≡ returned stats)
      × (stats.issued ≡ completed stats)
      × (stats.issued * config.interval < d + config.interval)

  stops-IsFinished :
      (ends : ℕ → Ended) (s : LoadState)
      → IsSteady config s
      → s.slot * config.interval < d + config.interval
      → IsFinished (returned (gather ends s.in_flight s.stats))
  stops-IsFinished ends s h few = (
    gather ends s.in_flight s.stats,
    refl,
    gather-IsAccounted config ends s h,
    rw ((gather-completed ends s.in_flight s.stats).1, ← h.slots) few,
  )

  -- A head that goes on has used less than the duration.
  goes_on :
      (s : LoadState)
      → config.duration ≡ some d
      → 1 ≤ d
      → IsSteady config s
      → stops config s.time ≡ false
      → s.slot * config.interval < d
  goes_on s lasts positive h go =
      let (unset, early) =
        or_false (is_set config.shutdown s.time) (deadline_passed config s.time) go in
      let before =
        leb-eq_false (config.started + d) s.time
          (sym (deadline_passed_lem s.time lasts positive) ∙ early) in
      elim h.paced [
        | inl set ↦ absurd (let both = sym set ∙ unset in cc)
        | inr paced ↦ omega (arith, before, paced)
      ]

  run_load-IsFinished :
      (ends : ℕ → Ended) (turns : List Turn) (s : LoadState)
      → config.duration ≡ some d
      → 1 ≤ d
      → IsSteady config s
      → s.slot * config.interval < d + config.interval
      → d ≤ (s.slot + length turns) * config.interval
      → IsFinished (run_load config ends turns s)
  unfolding run_load
  run_load-IsFinished ends [] s lasts positive h few enough =
      elim (Bool-cases (stops config s.time)) [
        | inl stop ↦ rw stop (stops-IsFinished ends s h few)
        | inr go ↦ absurd (let less = goes_on s lasts positive h go in omega (arith, less, enough))
      ]
  run_load-IsFinished ends (turn ∷ turns) s lasts positive h few enough =
      elim (Bool-cases (stops config s.time)) [
        | inl stop ↦ rw stop (stops-IsFinished ends s h few)
        | inr go ↦
            let (next, slot) = turn-IsSteady config turn s h in
            let less = goes_on s lasts positive h go in
            rw go (
              run_load-IsFinished ends turns (pause config turn (issue turn s)) lasts positive next
                (rw slot (omega (arith, less)))
                (rw slot
                  (subst (λ n. d ≤ n * config.interval) (slots_left s.slot (length turns)) enough)))
      ]

  -- With a duration, not zero, and turns enough for the slots of that duration, `run_load` returns,
  -- whatever the server, the clock and the stop request do: there are as many outcomes as issued
  -- requests, and the slot of each request is within the duration.
  pub run_load_returns :
      (ends : ℕ → Ended) (turns : List Turn)
      → config.duration ≡ some d
      → 1 ≤ d
      → d ≤ length turns * config.interval
      → IsFinished (run_load config ends turns (start config))
  run_load_returns ends turns lasts positive enough =
      run_load-IsFinished ends turns (start config) lasts positive (start-IsSteady config)
        (omega (arith, positive))
        (subst (λ n. d ≤ n * config.interval) (zero_left (length turns)) enough)
