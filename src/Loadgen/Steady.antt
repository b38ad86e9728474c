-- ===== src/Loadgen/Steady.antt =====
-- apps/loadgen/generator.py: the account of issued and finished requests, and the slots.
use swarmscope.Base.{
  ℕ, zero, suc, ◌+◌, ◌-◌, ◌*◌, ◌≤◌, ◌≡◌, refl, sym, ap, ◌∙◌, ◌⊎◌, inl, inr, Bool, true, false, ◌||◌,
  Option, none, some, List, [], ◌∷◌, length, length-append, leb, min, max, Bool-cases, Option-cases,
  some_inj, subst, leb→le, leb-eq_false, arith,
}
use swarmscope.Runtime.{is_set, sleep_unless_shutdown}
use swarmscope.Orders.Schemas.{CreateOrder}
use swarmscope.Loadgen.{
  LoadStats, completed, Ended, issue_one, LoadConfig, Turn, LoadState, without, end_task, end_tasks,
  issue, pause, gather, LoadEnd, returned, unfinished, deadline_passed, run_load, start,
  build_order,
}

-- The stop is requested, or the slots that are used up have passed.
abbrev pub IsPaced : LoadConfig → ℕ → ℕ → Type 0
IsPaced config slot now =
    (is_set config.shutdown now ≡ true) ⊎ (config.started + slot * config.interval ≤ now)

-- At the loop's head: the requests in flight and the outcomes are together as many as the issued
-- requests, and there is one slot for each.
pub record IsSteady (config : LoadConfig) (s : LoadState) : Type 0 where
  pub account : s.stats.issued ≡ completed s.stats + length s.in_flight
  pub slots : s.slot ≡ s.stats.issued
  pub paced : IsPaced config s.slot s.time

without-length :
    {A : Type 0} (n : ℕ) (xs ys : List A) → without n xs ≡ some ys → length xs ≡ suc (length ys)
without-length n [] ys h = absurd (cc)
without-length zero (x ∷ xs) ys h = ap (λ l. suc (length l)) (some_inj h)
without-length (suc n) (x ∷ xs) ys h = elim (Option-cases (without n xs)) [
  | inl fails ↦ absurd (let h' = rw fails at h in cc)
  | inr (zs, found) ↦
      ap suc (without-length n xs zs found) ∙ ap (λ l. suc (length l)) (some_inj (rw found at h))
]

-- the account alone, which an end of a request keeps
abbrev Accounts : LoadState → Type 0
Accounts s = s.stats.issued ≡ completed s.stats + length s.in_flight

issue_one-completed :
    (e : Ended) (s : LoadStats)
    → (completed (issue_one e s).1 ≡ completed s + 1) × ((issue_one e s).1.issued ≡ s.issued)
unfolding issue_one
issue_one-completed e s = (length-append s.outcomes _, refl)

-- What an end of a request leaves as it was.
abbrev Keeps : LoadState → LoadState → Type 0
Keeps s t = (t.slot ≡ s.slot) × (t.time ≡ s.time) × (t.stats.issued ≡ s.stats.issued)

end_task-Accounts :
    (e : ℕ × Ended) (s : LoadState) → Accounts s → Accounts (end_task e s) × Keeps s (end_task e s)
end_task-Accounts (n, e) s h = elim (Option-cases (without n s.in_flight)) [
  | inl fails ↦ rw fails (h, (refl, refl, refl))
  | inr (rest, found) ↦
      let (more, same) = issue_one-completed e s.stats in
      let shorter = without-length n s.in_flight rest found in
      rw found (rw (more, same) (omega (arith, h, shorter)), (refl, refl, same))
]

end_tasks-Accounts :
    (es : List (ℕ × Ended)) (s : LoadState)
    → Accounts s
    → Accounts (end_tasks es s) × Keeps s (end_tasks es s)
unfolding end_tasks
end_tasks-Accounts [] s h = (h, (refl, refl, refl))
end_tasks-Accounts (e ∷ es) s h =
    let (first, (a, b, c)) = end_task-Accounts e s h in
    let (rest, (a', b', c')) = end_tasks-Accounts es (end_task e s) first in
    (rest, (a' ∙ a, b' ∙ b, c' ∙ c))

-- Gathering adds one outcome for each request in flight.
pub gather-completed :
    (ends : ℕ → Ended) (tasks : List CreateOrder) (s : LoadStats)
    → (completed (gather ends tasks s) ≡ completed s + length tasks)
      × ((gather ends tasks s).issued ≡ s.issued)
unfolding gather
gather-completed ends [] s = (omega arith, refl)
gather-completed ends (order ∷ rest) s =
    let (more, same) = issue_one-completed (ends (length rest)) s in
    let (more', same') = gather-completed ends rest (issue_one (ends (length rest)) s).1 in
    (omega (arith, more, more'), same' ∙ same)

pair-eq : {a b c d : ℕ} → a ≡ b → c ≡ d → ◌≡◌ {A = ℕ × ℕ} (a, c) (b, d)
pair-eq h k = rw (h, k) refl

-- The pause ends at a stop or at its slot.
slept :
    (shutdown : Option ℕ) (now slot_at late : ℕ)
    → now ≤ slot_at
    → (is_set shutdown (sleep_unless_shutdown shutdown now (slot_at - now) + late) ≡ true)
      ⊎ (slot_at ≤ sleep_unless_shutdown shutdown now (slot_at - now) + late)
unfolding sleep_unless_shutdown
slept none now slot_at late early = inr (omega (arith, early))
slept (some t) now slot_at late early =
    let wakes = max now (min t (now + (slot_at - now))) + late in
    elim (Bool-cases (leb t wakes)) [
      | inl set ↦ inl set
      | inr unset ↦ inr (omega (arith, early, leb-eq_false t wakes unset))
    ]

module _ (config : LoadConfig) where
  -- the state after the sleep, before the requests that end in it
  abbrev asleep : Turn → LoadState → LoadState
  asleep turn s = record s {
    time =
        sleep_unless_shutdown config.shutdown s.time
          (config.started + s.slot * config.interval - s.time)
        + turn.late;
  }

  -- A pause after an account in order leaves the head in order.
  pause-IsSteady :
      (turn : Turn) (s : LoadState)
      → Accounts s
      → s.slot ≡ s.stats.issued
      → IsSteady config (pause config turn s) × ((pause config turn s).slot ≡ s.slot)
  unfolding pause
  pause-IsSteady turn s h slots =
      elim (Bool-cases (leb (config.started + s.slot * config.interval) s.time)) [
        | inl late ↦
            rw late
              (record { account = h; slots = slots; paced = inr (leb→le _ s.time late) }, refl)
        | inr early ↦
            let (after, (a, b, c)) = end_tasks-Accounts turn.ends (asleep turn s) h in
            rw early (
              record {
                account = after;
                slots = a ∙ slots ∙ sym c;
                paced =
                    subst (λ (x : ℕ × ℕ). IsPaced config x.0 x.1) (pair-eq (sym a) (sym b))
                      (slept config.shutdown s.time (config.started + s.slot * config.interval)
                        turn.late (omega (arith, leb-eq_false _ s.time early)));
              },
              a,
            )
      ]

  issue-Accounts :
      (turn : Turn) (s : LoadState)
      → IsSteady config s
      → Accounts (issue turn s) × ((issue turn s).slot ≡ (issue turn s).stats.issued)
  unfolding issue
  issue-Accounts turn s h = (
    omega (arith, h.account, length-append s.in_flight (build_order turn.draw ∷ [])),
    ap (λ n. n + 1) h.slots,
  )

  -- one turn that does not stop
  pub turn-IsSteady :
      (turn : Turn) (s : LoadState)
      → IsSteady config s
      → IsSteady config (pause config turn (issue turn s))
        × ((pause config turn (issue turn s)).slot ≡ s.slot + 1)
  unfolding issue
  turn-IsSteady turn s h =
      let (account, slots) = issue-Accounts turn s h in
      pause-IsSteady turn (issue turn s) account slots

  pub start-IsSteady : IsSteady config (start config)
  start-IsSteady = record { account = refl; slots = refl; paced = inr (omega arith) }

  -- what the loop stops at
  abbrev pub stops : ℕ → Bool
  stops now = is_set config.shutdown now || deadline_passed config now

  -- The outcomes are as many as the requests; or the loop goes on from a head in order.
  abbrev pub IsAccounted : LoadEnd → Type 0
  IsAccounted (returned stats) = stats.issued ≡ completed stats
  IsAccounted (unfinished s) = IsSteady config s × (stops s.time ≡ false)

  pub gather-IsAccounted :
      (ends : ℕ → Ended) (s : LoadState)
      → IsSteady config s
      → IsAccounted (returned (gather ends s.in_flight s.stats))
  gather-IsAccounted ends s h =
      let (all, same) = gather-completed ends s.in_flight s.stats in
      omega (arith, h.account, all, same)

  run_load-from :
      (ends : ℕ → Ended) (turns : List Turn) (s : LoadState)
      → IsSteady config s
      → IsAccounted (run_load config ends turns s)
  unfolding run_load
  run_load-from ends [] s h = elim (Bool-cases (stops s.time)) [
    | inl stop ↦ rw stop (gather-IsAccounted ends s h)
    | inr go ↦ rw go (h, go)
  ]
  run_load-from ends (turn ∷ turns) s h = elim (Bool-cases (stops s.time)) [
    | inl stop ↦ rw stop (gather-IsAccounted ends s h)
    | inr go ↦
        rw go
          (run_load-from ends turns (pause config turn (issue turn s)) (turn-IsSteady turn s h).0)
  ]

  -- Whatever the server, the clock and the stop request do, when the loop returns there are as many
  -- outcomes as issued requests; and at each head at which it goes on the outcomes and the requests
  -- in flight are together as many as the issued ones, and the next request's slot has come.
  pub run_load-IsAccounted :
      (ends : ℕ → Ended) (turns : List Turn)
      → IsAccounted (run_load config ends turns (start config))
  run_load-IsAccounted ends turns = run_load-from ends turns (start config) start-IsSteady
