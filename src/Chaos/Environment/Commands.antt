-- ===== src/Chaos/Environment/Commands.antt =====
-- `run_command` of chaos/environment.py: a command's exit code and its bounded diagnostics.
use swarmscope.Base.{
  ℕ, zero, ◌≤◌, List, [], ◌∷◌, ◌++◌, Text, ℤ, pos, Bool-cases, inl, inr, take, length, ltb,
  length-append, length-take-le, if◌then◌else◌, Result, ok, err, arith,
}

-- a finished process: `returncode` and the two outputs
pub record Finished : Type 0 where
  pub returncode : ℤ
  pub stdout : List ℕ
  pub stderr : List ℕ

-- The parts of the `RuntimeError`.
pub record CommandFailed : Type 0 where
  pub returncode : ℤ
  pub command : List Text
  pub detail : Text

-- `stderr or stdout`
abbrev or_else : List ℕ → List ℕ → List ℕ
or_else [] other = other
or_else (b ∷ bs) other = b ∷ bs

-- a detail of more than 2000 characters is cut, and an ellipsis (U+2026) put behind it
unfoldable pub bounded : Text → Text
bounded detail = if ltb 2000 (length detail) then take 2000 detail ++ (8230 ∷ []) else detail

-- The diagnostics have at most 2001 characters.
bounded-length : (detail : Text) → length (bounded detail) ≤ 2001
unfolding bounded
bounded-length detail = elim (Bool-cases (ltb 2000 (length detail))) [
  | inl long ↦
      rw (long, length-append (take 2000 detail) (8230 ∷ []))
        (omega (arith, length-take-le 2000 detail))
  | inr short ↦ rw short (ground arith)
]

-- `bytes.decode(errors="replace")` and `str.strip`
module _ (decode : List ℕ → Text) (strip : Text → Text) where
  unfoldable pub run_command : List Text → Finished → Result CommandFailed (Unit {0})
  unfolding bounded
  run_command command process = elim process.returncode [
    | pos zero ↦ ok tt
    | _ ↦ err (record {
      returncode = process.returncode;
      command = command;
      detail = bounded (strip (decode (or_else process.stderr process.stdout)));
    })
  ]
