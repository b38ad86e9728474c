-- ===== src/Chaos/Catalogue/Load.antt =====
-- chaos/catalogue.py: the catalogue that is loaded from the fault files. What YAML and the field
-- types make of a file's text is a parameter.
use swarmscope.Base.{
  ◌≡◌, subst, inl, inr, Bool, true, ◌&&◌, Bool-cases, Option-cases, some_inj, Option, none, some,
  List, [], ◌∷◌, ◌++◌, Text, codes, map, same_text, text_lt, All, if◌then◌else◌, Result, ok, err,
  ok_inj, arith, Result-cases,
}
use swarmscope.Chaos.Catalogue.{
  Fault, Symptom, GroundTruth, public_view, revert_restores, passes, is_fault_id, validate_fault,
}

-- a file of the directory, by its name without `.yaml`
pub record FaultFile : Type 0 where
  pub stem : Text
  pub text : Text

-- the two ways to refuse a file
pub data CatalogueError : Type 0 where
  validation_error other_id : CatalogueError

abbrev file_name : FaultFile → Text
file_name file = file.stem ++ codes ".yaml"

abbrev pub insert_file : FaultFile → List FaultFile → List FaultFile
insert_file f [] = f ∷ []
insert_file f (g ∷ gs) =
    if text_lt (file_name g) (file_name f) then g ∷ insert_file f gs else f ∷ g ∷ gs

-- `sorted(directory.glob("*.yaml"))`
abbrev pub sorted_files : List FaultFile → List FaultFile
sorted_files [] = []
sorted_files (f ∷ fs) = insert_file f (sorted_files fs)

-- `catalogue[fault.id] = fault`
abbrev pub put_fault : Fault → List Fault → List Fault
put_fault f [] = f ∷ []
put_fault f (g ∷ gs) = if same_text g.id f.id then f ∷ gs else g ∷ put_fault f gs

-- `symptoms`
abbrev pub symptoms : List Fault → List Symptom
symptoms catalogue = map public_view catalogue

-- `reveal_ground_truth`, which also writes to the log
abbrev pub reveal_ground_truth : Fault → GroundTruth
reveal_ground_truth fault = fault.ground_truth

last_true : (a b c d e f g : Bool) → (a && b && c && d && e && f && g) ≡ true → g ≡ true
last_true a b c d e f g h = ground arith

module _ (lower : Text → Text) (read_fault : Text → Option Fault) where
  -- `Fault.model_validate(yaml.safe_load(...))`
  unfoldable pub model_validate : Text → Option Fault
  model_validate text = elim (read_fault text) [ none ↦ none | some f ↦ validate_fault lower f ]

  -- the body of the loop
  unfoldable pub load_file : FaultFile → List Fault → Result CatalogueError (List Fault)
  load_file file catalogue = elim (model_validate file.text) [
    | none ↦ err validation_error
    | some f ↦ if same_text f.id file.stem then ok (put_fault f catalogue) else err other_id
  ]

  unfoldable pub load_files : List FaultFile → List Fault → Result CatalogueError (List Fault)
  load_files [] catalogue = ok catalogue
  load_files (file ∷ files) catalogue = elim (load_file file catalogue) [
    | err e ↦ err e
    | ok catalogue' ↦ load_files files catalogue'
  ]

  -- `load_catalogue`
  unfoldable pub load_catalogue : List FaultFile → Result CatalogueError (List Fault)
  unfolding load_files
  load_catalogue directory = load_files (sorted_files directory) []

  -- What the validators make sure of.
  abbrev pub IsChecked : Fault → Type 0
  IsChecked f = revert_restores f ≡ true

  validate_fault-IsChecked : (r f : Fault) → validate_fault lower r ≡ some f → IsChecked f
  unfolding validate_fault
  validate_fault-IsChecked r f h = elim (Bool-cases (passes lower r)) [
    | inl yes_valid ↦
        subst IsChecked (some_inj (rw yes_valid at h))
          (last_true (is_fault_id r.id) _ _ _ _ _ (revert_restores r) yes_valid)
    | inr refused ↦ absurd (let h' = rw refused at h in cc)
  ]

  model_validate-IsChecked : (t : Text) (f : Fault) → model_validate t ≡ some f → IsChecked f
  unfolding model_validate
  model_validate-IsChecked t f h = elim (Option-cases (read_fault t)) [
    | inl unread ↦ absurd (let h' = rw (unread, model_validate) at h in cc)
    | inr (r, found) ↦ validate_fault-IsChecked r f (rw (found, model_validate) at h)
  ]

  put_fault-IsChecked :
      (f : Fault) (fs : List Fault)
      → IsChecked f
      → All IsChecked fs
      → All IsChecked (put_fault f fs)
  put_fault-IsChecked f [] h hs = (h, tt)
  put_fault-IsChecked f (g ∷ gs) h hs = elim (Bool-cases (same_text g.id f.id)) [
    | inl same ↦ rw same (h, hs.1)
    | inr other ↦ rw other (hs.0, put_fault-IsChecked f gs h hs.1)
  ]

  load_file-IsChecked :
      (file : FaultFile) (catalogue next : List Fault)
      → All IsChecked catalogue
      → load_file file catalogue ≡ ok next
      → All IsChecked next
  unfolding load_file
  load_file-IsChecked file catalogue next hs h = elim (Option-cases (model_validate file.text)) [
    | inl refused ↦ absurd (let h' = rw (refused, load_file) at h in cc)
    | inr (f, valid) ↦ elim (Bool-cases (same_text f.id file.stem)) [
      | inr other ↦ absurd (let h' = rw (valid, other, load_file) at h in cc)
      | inl same ↦
          subst (All IsChecked) (ok_inj (rw (valid, same, load_file) at h))
            (put_fault-IsChecked f catalogue (model_validate-IsChecked file.text f valid) hs)
    ]
  ]

  load_files-IsChecked :
      (files : List FaultFile) (catalogue loaded : List Fault)
      → All IsChecked catalogue
      → load_files files catalogue ≡ ok loaded
      → All IsChecked loaded
  unfolding load_files
  load_files-IsChecked [] catalogue loaded hs h = subst (All IsChecked) (ok_inj h) hs
  load_files-IsChecked (file ∷ files) catalogue loaded hs h =
      elim (Result-cases (load_file file catalogue)) [
        | inr (e, fails) ↦ absurd (let h' = rw (fails, load_files) at h in cc)
        | inl (next, read) ↦
            load_files-IsChecked files next loaded (load_file-IsChecked file catalogue next hs read)
              (rw (read, load_files) at h)
      ]

  -- Every fault of a loaded catalogue has passed the check of its revert list.
  pub load_catalogue-IsChecked :
      (directory : List FaultFile) (catalogue : List Fault)
      → load_catalogue directory ≡ ok catalogue
      → All IsChecked catalogue
  unfolding load_catalogue
  load_catalogue-IsChecked directory catalogue h =
      load_files-IsChecked (sorted_files directory) [] catalogue tt h
