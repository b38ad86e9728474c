-- ===== src/Chaos/State/Atomic.antt =====
-- The state file of chaos/state.py while it is recorded.
use swarmscope.Base.{ℕ, ◌≡◌, ◌≢◌, refl, ◌⊎◌, inl, inr, Bool-cases, Option, none, some, List, ok}
use swarmscope.Chaos.State.{
  FaultState, Format, Directory, Point, at_create, at_write, at_link, at_sync, at_unlink, Trouble,
  cleaned, record_until, link_payload, record_state,
}

-- The file is as before, or it was absent and holds the payload.
abbrev pub IsWhole : List ℕ → Option (List ℕ) → Option (List ℕ) → Type 0
IsWhole payload before after = (after ≡ before) ⊎ ((before ≡ none) × (after ≡ some payload))

cleaned-target : (t : Trouble) (d : Directory) → (cleaned t d).target ≡ d.target
cleaned-target t d = elim (Bool-cases t.killed) [ inl e ↦ rw e refl | inr e ↦ rw e refl ]

record_until-IsWhole :
    (payload : List ℕ) (t : Trouble) (p : Point) (target temporary : Option (List ℕ))
    → IsWhole payload target
        (record_until payload t p (record { target = target; temporary = temporary })).1.target
unfolding record_until
record_until-IsWhole payload t at_create target temporary = inl refl
record_until-IsWhole payload t at_write target temporary = inl (cleaned-target t _)
record_until-IsWhole payload t at_link target temporary = inl (cleaned-target t _)
record_until-IsWhole payload t at_sync none temporary = inr (refl, cleaned-target t _)
record_until-IsWhole payload t at_sync (some old) temporary = inl refl
record_until-IsWhole payload t at_unlink none temporary = inr (refl, refl)
record_until-IsWhole payload t at_unlink (some old) temporary = inl refl

record_until-raises :
    (payload : List ℕ) (t : Trouble) (p : Point) (target temporary : Option (List ℕ))
    → (record_until payload t p (record { target = target; temporary = temporary })).0 ≢ ok tt
unfolding record_until
record_until-raises payload t at_create target temporary h = cc
record_until-raises payload t at_write target temporary h = cc
record_until-raises payload t at_link target temporary h = cc
record_until-raises payload t at_sync none temporary h = cc
record_until-raises payload t at_sync (some old) temporary h = cc
record_until-raises payload t at_unlink none temporary h = cc
record_until-raises payload t at_unlink (some old) temporary h = cc

link_payload-IsWhole :
    (payload : List ℕ) (target : Option (List ℕ)) (d : Directory)
    → d.target ≡ target
    → IsWhole payload target (link_payload payload target d).1.target
      × ((link_payload payload target d).0 ≡ ok tt
          → (target ≡ none) × ((link_payload payload target d).1.target ≡ some payload))
unfolding link_payload
link_payload-IsWhole payload none d e = (inr (refl, refl), λ h. (refl, refl))
link_payload-IsWhole payload (some old) d e = (inl e, λ h. absurd (cc))

-- Wherever `record` fails or the process ends, the state file is as before, or it was absent and
-- holds the complete payload; and when `record` returns, it was absent and holds it.
pub record_state-IsWhole :
    (format : Format) (trouble : Option Trouble) (s : FaultState) (d : Directory)
    → IsWhole (format.dump_json s) d.target (record_state format trouble s d).1.target
      × ((record_state format trouble s d).0 ≡ ok tt
          → (d.target ≡ none)
            × ((record_state format trouble s d).1.target ≡ some (format.dump_json s)))
unfolding record_state link_payload record_until
record_state-IsWhole format none s d = link_payload-IsWhole (format.dump_json s) d.target d refl
record_state-IsWhole format (some t) s d = (
  record_until-IsWhole (format.dump_json s) t t.point d.target d.temporary,
  λ h. absurd (record_until-raises (format.dump_json s) t t.point d.target d.temporary h),
)
