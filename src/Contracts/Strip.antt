-- ===== src/Contracts/Strip.antt =====
-- Stripping and the bounds of a text (packages/contracts/order_placed.py, apps/orders/schemas.py),
-- applied to a text that has passed them.
use swarmscope.Base.{
  ℕ, ◌≤◌, ◌≡◌, refl, ap, ◌∙◌, Bool, false, ◌&&◌, some, [], ◌∷◌, Text, length, arith, Bool-cases,
  leb, inl, inr, some_inj,
}
use swarmscope.Contracts.{strip_start, strip_end, strip, bounded_text, cons_unless_blank}

module _ (is_space : ℕ → Bool) where
  strip_start-strip_end :
      (c : ℕ) (cs : Text)
      → is_space c ≡ false
      → strip_start is_space (strip_end is_space (c ∷ cs)) ≡ strip_end is_space (c ∷ cs)
  unfolding strip_start strip_end
  strip_start-strip_end c cs h = go (strip_end is_space cs)
    where
      go :
          (r : Text)
          → strip_start is_space (cons_unless_blank is_space c r) ≡ cons_unless_blank is_space c r
      go [] = rw h (rw h refl)
      go (d ∷ ds) = rw h refl

  strip_end_idem : (t : Text) → strip_end is_space (strip_end is_space t) ≡ strip_end is_space t
  unfolding strip_end
  strip_end_idem [] = refl
  strip_end_idem (c ∷ cs) = go (strip_end is_space cs) (strip_end_idem cs)
    where
      go :
          (r : Text)
          → strip_end is_space r ≡ r
          → strip_end is_space (cons_unless_blank is_space c r) ≡ cons_unless_blank is_space c r
      go [] e = elim (Bool-cases (is_space c)) [
        | inl blank ↦ rw blank refl
        | inr solid ↦ rw solid (rw solid refl)
      ]
      go (d ∷ ds) e = rw e refl

  pub strip_idem : (t : Text) → strip is_space (strip is_space t) ≡ strip is_space t
  unfolding strip
  strip_idem [] = refl
  strip_idem (c ∷ cs) = elim (Bool-cases (is_space c)) [
    | inl blank ↦ rw blank (strip_idem cs)
    | inr solid ↦
        rw solid
          (ap (strip_end is_space) (strip_start-strip_end c cs solid) ∙ strip_end_idem (c ∷ cs))
  ]

  pub bounded_text_again :
      (t s : Text) → bounded_text is_space t ≡ some s → bounded_text is_space s ≡ some s
  unfolding bounded_text
  bounded_text_again t s h =
      elim (Bool-cases (leb 1 (length (strip is_space t)) && leb (length (strip is_space t)) 100)) [
        | inl fit ↦
            let e : strip is_space t ≡ s = some_inj (rw fit at h) in
            rw (← e, strip_idem t, fit) refl
        | inr unfit ↦ absurd (let h' = rw unfit at h in cc)
      ]

  pub bounded_text-length :
      (t s : Text) → bounded_text is_space t ≡ some s → (1 ≤ length s) × (length s ≤ 100)
  unfolding bounded_text
  bounded_text-length t s h = ground arith
