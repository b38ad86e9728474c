-- ===== src/Chaos/Runner/Reverted.antt =====
-- What a result of `revert` (chaos/runner.py) says of the state file and of the surroundings.
use swarmscope.Base.{
  same_text, ℕ, Bool, ◌≡◌, refl, inl, inr, Bool-cases, Option-cases, Option, none, some, List,
  Result, ok, err, ok_inj,
}
use swarmscope.Chaos.Catalogue.{Fault}
use swarmscope.Chaos.State.{FaultState, Raised, Format, Directory, load}
use swarmscope.Chaos.Runner.{
  Environment, FaultRunResult, Calls, Host, recover, revert, revert_loaded,
}
use swarmscope.Chaos.Runner.Status.{IsReported, after_success-IsReported}

-- A state that is loaded stands in the file.
load-target :
    (format : Format) (fails : Bool) (d : Directory) (s : FaultState)
    → load format fails d ≡ ok (some s)
    → (payload : List ℕ) × (d.target ≡ some payload)
unfolding load
load-target format fails d s h = elim (Option-cases d.target) [
  | inr found ↦ found
  | inl missing ↦ elim (Bool-cases fails) [
    | inl broken ↦ absurd (let h' = rw broken at h in cc)
    | inr works ↦ absurd (let same = ok_inj (rw (works, missing) at h) in cc)
  ]
]

module _ {W : Type 0} (environment : Environment W) (format : Format) (calls : Calls)
    (fault : Fault) where
  revert_loaded-IsReported :
      (x : Result Raised (Option FaultState)) (h : Host W)
      → load format calls.load_fails h.disk ≡ x
      → {result : FaultRunResult} → (revert_loaded environment format calls fault x h).0 ≡ ok result
      → (payload : List ℕ) × (h.disk.target ≡ some payload)
        × IsReported environment format calls fault payload h.world result
            (revert_loaded environment format calls fault x h).1
  unfolding revert_loaded
  revert_loaded-IsReported (err e) h read r = absurd (cc)
  revert_loaded-IsReported (ok none) h read r = absurd (cc)
  revert_loaded-IsReported (ok (some outstanding)) h read {result} r =
      elim (Bool-cases (same_text outstanding.fault_id fault.id)) [
        | inr other ↦ absurd (let h' = rw other at r in cc)
        | inl mine ↦
            let (payload, held) = load-target format calls.load_fails h.disk outstanding read in
            (
              payload,
              held,
              rw mine (
                  after_success-IsReported environment format calls fault payload h.world h.disk
                    none (recover environment fault h.world) refl held (rw mine at r)),
            )
      ]

  -- When `revert` returns, there was a state file; RECOVERED means that it is gone and that every
  -- revert step returned and the check that followed found the symptom gone.
  pub revert-IsReported :
      (h : Host W) {result : FaultRunResult}
      → (revert environment format calls fault h).0 ≡ ok result
      → (payload : List ℕ) × (h.disk.target ≡ some payload)
        × IsReported environment format calls fault payload h.world result
            (revert environment format calls fault h).1
  unfolding revert
  revert-IsReported h r = revert_loaded-IsReported (load format calls.load_fails h.disk) h refl r
