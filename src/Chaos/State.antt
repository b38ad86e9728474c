-- ===== src/Chaos/State.antt =====
-- chaos/state.py: the file that says which fault still has to be reverted.
pub mod Atomic
use swarmscope.Base.{
  same_text, ℕ, ◌≡◌, Bool, true, false, Option, none, some, List, [], ◌∷◌, Text, take,
  if◌then◌else◌, Result, ok, err,
}
use swarmscope.Chaos.Catalogue.{is_fault_id}

pub record FaultState : Type 0 where
  pub fault_id : Text
  pub injection_started_at : ℕ

-- What a fault run raises: the runner's own errors, those of the state file and of the operating
-- system, an `Exception` of the environment, or a `BaseException` that is no `Exception`.
pub data Raised : Type 0 where
  recovery_required symptom_already_present injection_not_detected revert_failed : Raised
  fault_state_error os_error validation_error runtime_error : Raised
  exception base_exception : ℕ → Raised

abbrev pub is_exception : Raised → Bool
is_exception (base_exception _) = false
is_exception _ = true

-- pydantic's JSON, with what the code relies on: a state with a well-formed id is read back.
pub record Format : Type 0 where
  pub dump_json : FaultState → List ℕ
  pub validate_json : List ℕ → Option FaultState
  pub round_trip :
      (s : FaultState) → is_fault_id s.fault_id ≡ true → validate_json (dump_json s) ≡ some s

-- The state file, and the temporary file beside it.
pub record Directory : Type 0 where
  pub target : Option (List ℕ)
  pub temporary : Option (List ℕ)

-- the operating system's calls in `record`, in their order
pub data Point : Type 0 where
  at_create at_write at_link at_sync at_unlink : Point

-- A call that fails: it raises, or the process ends there. A failing write has written a part.
pub record Trouble : Type 0 where
  pub point : Point
  pub written : ℕ
  pub killed : Bool

-- the exception, where there still is a process
abbrev pub raised_by : Trouble → Raised
raised_by t = if t.killed then base_exception 0 else os_error

-- the `finally` block, if it is reached
abbrev pub cleaned : Trouble → Directory → Directory
cleaned t d = if t.killed then d else record d { temporary = none }

-- `os.link` and what follows it: a target that exists is not replaced.
unfoldable pub link_payload :
    List ℕ → Option (List ℕ) → Directory → Result Raised (Unit {0}) × Directory
link_payload payload (some old) d = (err fault_state_error, record d { temporary = none })
link_payload payload none d = (ok tt, record { target = some payload; temporary = none })

-- `record`, up to a call that fails
unfoldable pub record_until :
    List ℕ → Trouble → Point → Directory → Result Raised (Unit {0}) × Directory
record_until payload t at_create d = (err (raised_by t), d)
record_until payload t at_write d =
    (err (raised_by t), cleaned t (record d { temporary = some (take t.written payload) }))
record_until payload t at_link d =
    (err (raised_by t), cleaned t (record d { temporary = some payload }))
record_until payload t at_sync d = elim d.target [
  | some old ↦ (err fault_state_error, record d { temporary = none })
  | none ↦
      (err (raised_by t), cleaned t (record { target = some payload; temporary = some payload }))
]
record_until payload t at_unlink d = elim d.target [
  | some old ↦ (err (raised_by t), record d { temporary = some payload })
  | none ↦ (err (raised_by t), record { target = some payload; temporary = some payload })
]

-- Whether the removal of the state file works: `vanishes` when another process was faster.
pub data Removal : Type 0 where
  removes vanishes removal_fails sync_fails : Removal

unfoldable pub unlink_target : Removal → Directory → Result Raised (Unit {0}) × Directory
unlink_target removes d = (ok tt, record d { target = none })
unlink_target vanishes d = (err fault_state_error, record d { target = none })
unlink_target removal_fails d = (err os_error, d)
unlink_target sync_fails d = (err os_error, record d { target = none })

module _ (format : Format) where
  abbrev pub parsed : List ℕ → Result Raised (Option FaultState)
  parsed payload = elim (format.validate_json payload) [
    | none ↦ err validation_error
    | some s ↦ ok (some s)
  ]

  -- `FaultStateStore.load`, whose read may fail
  unfoldable pub load : Bool → Directory → Result Raised (Option FaultState)
  load read_fails d =
      if read_fails
      then err os_error
      else elim d.target [ none ↦ ok none | some payload ↦ parsed payload ]

  -- `FaultStateStore.record`
  unfoldable pub record_state :
      Option Trouble → FaultState → Directory → Result Raised (Unit {0}) × Directory
  unfolding link_payload record_until
  record_state none s d = link_payload (format.dump_json s) d.target d
  record_state (some t) s d = record_until (format.dump_json s) t t.point d

  -- `clear` from the loaded state on
  unfoldable pub clear_loaded :
      Removal
      → Text
      → Result Raised (Option FaultState)
      → Directory
      → Result Raised (Unit {0}) × Directory
  unfolding unlink_target
  clear_loaded unlinking expected (err e) d = (err e, d)
  clear_loaded unlinking expected (ok none) d = (err fault_state_error, d)
  clear_loaded unlinking expected (ok (some current)) d =
      if same_text current.fault_id expected
      then unlink_target unlinking d
      else (err fault_state_error, d)

  -- `FaultStateStore.clear`
  unfoldable pub clear : Bool → Removal → Text → Directory → Result Raised (Unit {0}) × Directory
  unfolding clear_loaded load
  clear read_fails unlinking expected d = clear_loaded unlinking expected (load read_fails d) d
