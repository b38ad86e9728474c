-- ===== src/Base/Tables.antt =====
-- Tables: rows with a numeric primary key, and SQL's `UPDATE … WHERE`.
use Prim.Native.Nat.{ℕ}
use mathlib.Core.Path.{◌≡◌, refl, sym, subst, ◌∙◌}
use mathlib.Core.Logic.{inl, inr}
use mathlib.Core.Bool.{Bool, true, false, false≢true}
use mathlib.Core.Option
use mathlib.Core.Option.{Option, none, some}
use mathlib.Core.List.{List, [], ◌∷◌}
use native.Mathlib.Omega.{arith}
use swarmscope.Base.Tests.{◌==◌, if◌then◌else◌, Bool-cases, ==→eq, ==_refl, some_inj}
use swarmscope.Base.Lists.{All, any, In}

module _ {ℓ} {A : Type ℓ} where
  abbrev pub rewrite_if : (A → Bool) → (A → A) → A → A
  rewrite_if p f r = if p r then f r else r

  -- `UPDATE … SET f WHERE p`
  unfoldable pub update_where : (A → Bool) → (A → A) → List A → List A
  update_where p f [] = []
  update_where p f (r ∷ rows) = rewrite_if p f r ∷ update_where p f rows

  module _ {κ} (P : A → Type κ) (p : A → Bool) (f : A → A) where
    -- A property of rows that the assignment keeps where the condition holds stays with every row.
    pub All-update_where :
        (rows : List A)
        → ((r : A) → p r ≡ true → P r → P (f r))
        → All P rows
        → All P (update_where p f rows)
    unfolding update_where
    All-update_where [] keep h = tt
    All-update_where (r ∷ rows) keep h = elim (Bool-cases (p r)) [
      | inl yes_row ↦ (rw yes_row (keep r yes_row h.0), All-update_where rows keep h.1)
      | inr no_row ↦ (rw no_row h.0, All-update_where rows keep h.1)
    ]

module _ {ℓ} {A : Type ℓ} (key : A → ℕ) where
  -- the row with a primary key
  unfoldable pub find_row : ℕ → List A → Option A
  find_row k [] = none
  find_row k (r ∷ rows) = if key r == k then some r else find_row k rows

  abbrev pub has_key : ℕ → List A → Bool
  has_key k rows = any (λ r. key r == k) rows

  -- No two rows share a key.
  abbrev pub IsKeyed : List A → Type 0
  IsKeyed [] = Unit
  IsKeyed (r ∷ rows) = (has_key (key r) rows ≡ false) × IsKeyed rows

  module _ (p : A → Bool) (f : A → A) (same : (r : A) → key (f r) ≡ key r) where
    key-rewrite_if : (r : A) → key (rewrite_if p f r) ≡ key r
    key-rewrite_if r = elim (Bool-cases (p r)) [ inl e ↦ rw e (same r) | inr e ↦ rw e ]

    pub find_row-update_where :
        (k : ℕ) (rows : List A)
        → find_row k (update_where p f rows) ≡ Option.map (rewrite_if p f) (find_row k rows)
    unfolding find_row update_where
    find_row-update_where k [] = refl
    find_row-update_where k (r ∷ rows) = rw (key-rewrite_if r) (elim (Bool-cases (key r == k)) [
      | inl e ↦ rw e
      | inr e ↦ rw e (find_row-update_where k rows)
    ])

    has_key-update_where :
        (k : ℕ) (rows : List A) → has_key k (update_where p f rows) ≡ has_key k rows
    unfolding update_where
    has_key-update_where k [] = refl
    has_key-update_where k (r ∷ rows) = rw (key-rewrite_if r, has_key-update_where k rows)

    pub update_where-IsKeyed : (rows : List A) → IsKeyed rows → IsKeyed (update_where p f rows)
    unfolding update_where
    update_where-IsKeyed [] h = tt
    update_where-IsKeyed (r ∷ rows) h = (
      rw (key-rewrite_if r, has_key-update_where (key r) rows) h.0,
      update_where-IsKeyed rows h.1,
    )

  -- A key that no row has finds nothing.
  pub find_row_of_absent : (k : ℕ) (rows : List A) → has_key k rows ≡ false → find_row k rows ≡ none
  unfolding find_row
  find_row_of_absent k [] h = refl
  find_row_of_absent k (r ∷ rows) h = ground (arith, find_row_of_absent k rows)

  pub key_of_find_row : (k : ℕ) (r : A) (rows : List A) → find_row k rows ≡ some r → key r ≡ k
  unfolding find_row
  key_of_find_row k r [] h = cc
  key_of_find_row k r (x ∷ rows) h = ground (arith, key_of_find_row k r rows)

  pub All-find_row {κ} :
      (P : A → Type κ) (k : ℕ) (r : A) (rows : List A) → All P rows → find_row k rows ≡ some r → P r
  unfolding find_row
  All-find_row P k r [] h e = absurd (cc)
  All-find_row P k r (x ∷ rows) h e = elim (Bool-cases (key x == k)) [
    | inl hit ↦ subst P (some_inj (rw hit at e)) h.0
    | inr miss ↦ All-find_row P k r rows h.1 (rw miss at e)
  ]

module _ {A : Type 0} (key : A → ℕ) where
  has_key-In : (r : A) (rows : List A) → In r rows → has_key key (key r) rows ≡ true
  has_key-In r [] m = elim m [ ]
  has_key-In r (x ∷ rows) (inl e) = rw e (ground arith)
  has_key-In r (x ∷ rows) (inr m) = ground (arith, has_key-In r rows m)

  -- In a keyed table a member is found under its key.
  pub find_row_of_In :
      (r : A) (rows : List A) → IsKeyed key rows → In r rows → find_row key (key r) rows ≡ some r
  unfolding find_row
  find_row_of_In r [] h m = elim m [ ]
  find_row_of_In r (x ∷ rows) h (inl e) = rw e (ground arith)
  find_row_of_In r (x ∷ rows) h (inr m) = elim (Bool-cases (key x == key r)) [
    | inl same ↦ absurd (false≢true (sym h.0 ∙ rw (==→eq _ _ same) (has_key-In r rows m)))
    | inr other ↦ rw other (find_row_of_In r rows h.1 m)
  ]

  pub In-find_row : (k : ℕ) (r : A) (rows : List A) → find_row key k rows ≡ some r → In r rows
  unfolding find_row
  In-find_row k r [] h = absurd (cc)
  In-find_row k r (x ∷ rows) h = elim (Bool-cases (key x == k)) [
    | inl hit ↦ inl (sym (some_inj (rw hit at h)))
    | inr miss ↦ inr (In-find_row k r rows (rw miss at h))
  ]

  -- No row has the key, so an update under it changes nothing.
  update_where_absent :
      (k : ℕ) (f : A → A) (rows : List A)
      → has_key key k rows ≡ false
      → update_where (λ r. key r == k) f rows ≡ rows
  unfolding update_where
  update_where_absent k f [] h = refl
  update_where_absent k f (x ∷ rows) h = ground (arith, update_where_absent k f rows)

  -- An update under the key of a row changes that row alone.
  pub All-update_key :
      (P : A → Type 0) (f : A → A) (e : A) (rows : List A)
      → IsKeyed key rows
      → In e rows
      → (P e → P (f e))
      → All P rows
      → All P (update_where (λ r. key r == key e) f rows)
  unfolding update_where
  All-update_key P f e [] keyed m keep h = tt
  All-update_key P f e (x ∷ rows) keyed (inl here) keep h =
      subst (λ y. All P (update_where (λ r. key r == key y) f (x ∷ rows))) (sym here)
        (rw (==_refl (key x), update_where_absent (key x) f rows keyed.0)
          ((subst (λ y. P y → P (f y)) here keep) h.0, h.1))
  All-update_key P f e (x ∷ rows) keyed (inr m) keep h = elim (Bool-cases (key x == key e)) [
    | inl same ↦ absurd (false≢true (sym keyed.0 ∙ rw (==→eq _ _ same) (has_key-In e rows m)))
    | inr other ↦ rw other (h.0, All-update_key P f e rows keyed.1 m keep h.1)
  ]

  -- The same, where what is kept may rest on the row's being in the table.
  pub All-update_In :
      (P : A → Type 0) (p : A → Bool) (f : A → A) (rows : List A)
      → ((r : A) → In r rows → p r ≡ true → P r → P (f r))
      → All P rows
      → All P (update_where p f rows)
  unfolding update_where
  All-update_In P p f [] keep h = tt
  All-update_In P p f (r ∷ rows) keep h =
      let rest = All-update_In P p f rows (λ x m. keep x (inr m)) h.1 in
      elim (Bool-cases (p r)) [
        | inl hit ↦ rw hit (keep r (inl refl) hit h.0, rest)
        | inr miss ↦ rw miss (h.0, rest)
      ]
