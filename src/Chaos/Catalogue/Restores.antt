-- ===== src/Chaos/Catalogue/Restores.antt =====
-- What `revert_must_restore_every_disabled_entity` of chaos/catalogue.py makes sure of.
use swarmscope.Base.{
  and_true, same_text, same_text_refl, same_text-eq, ◌≡◌, ◌↔◌, refl, sym, ap, inl, inr, Bool, true,
  false, ◌&&◌, ◌||◌, Bool-cases, none, some, List, [], ◌∷◌, Text, any, all, All, In, any-eq_true,
}
use swarmscope.Chaos.Catalogue.{
  EntityStatus, active, disabled, send_disabled, receive_disabled, is_active, Step, compose_stop,
  compose_start, topic_status, subscription_status, restores, restarts, is_undone, Fault,
  revert_restores,
}

-- The revert list has the step that undoes `s`.
abbrev pub Undone : List Step → Step → Type 0
Undone revert (compose_stop service) = In (compose_start service) revert
Undone revert (compose_start service) = Unit
Undone revert (topic_status t s) = is_active s ≡ false → In (topic_status t active) revert
Undone revert (subscription_status t n s) =
    is_active s ≡ false → In (subscription_status t n active) revert

-- A test that only `s` passes finds `s`.
any-In :
    (p : Step → Bool) (s : Step)
    → ((r : Step) → p r ≡ true → s ≡ r)
    → (rs : List Step) → any p rs ≡ true
    → In s rs
any-In p s only [] h = absurd (cc)
any-In p s only (r ∷ rs) h = elim (Bool-cases (p r)) [
  | inl hit ↦ inl (only r hit)
  | inr miss ↦ inr (any-In p s only rs (rw miss at h))
]

restarts-eq : (service : Text) (r : Step) → restarts service r ≡ true → compose_start service ≡ r
restarts-eq service (compose_start s) h = ap (λ t. compose_start t) (sym (same_text-eq s service h))
restarts-eq service (compose_stop s) h = absurd (cc)
restarts-eq service (topic_status t s) h = absurd (cc)
restarts-eq service (subscription_status t n s) h = absurd (cc)

is_active-eq : (s : EntityStatus) → is_active s ≡ true → active ≡ s
is_active-eq active h = refl
is_active-eq disabled h = absurd (cc)
is_active-eq send_disabled h = absurd (cc)
is_active-eq receive_disabled h = absurd (cc)

three_true : (a b c : Bool) → (a && b && c) ≡ true → (a ≡ true) × (b ≡ true) × (c ≡ true)
three_true true true c h = (refl, refl, h)
three_true true false c h = absurd (cc)
three_true false b c h = absurd (cc)

restores-topic : (t : Text) (r : Step) → restores (some t) none r ≡ true → topic_status t active ≡ r
restores-topic t (topic_status t' s) h =
    let (up, same, _) = three_true (is_active s) (same_text t' t) true h in
    rw (same_text-eq t' t same, ← is_active-eq s up) refl
restores-topic t (subscription_status t' n s) h =
    absurd (let (_, _, bad) = three_true (is_active s) (same_text t' t) false h in cc)
restores-topic t (compose_start s) h = absurd (cc)
restores-topic t (compose_stop s) h = absurd (cc)

restores-subscription :
    (t n : Text) (r : Step)
    → restores (some t) (some n) r ≡ true
    → subscription_status t n active ≡ r
restores-subscription t n (subscription_status t' n' s) h =
    let (up, same, same') = three_true (is_active s) (same_text t' t) (same_text n' n) h in
    rw (same_text-eq t' t same, same_text-eq n' n same', ← is_active-eq s up) refl
restores-subscription t n (topic_status t' s) h =
    absurd (let (_, _, bad) = three_true (is_active s) (same_text t' t) false h in cc)
restores-subscription t n (compose_start s) h = absurd (cc)
restores-subscription t n (compose_stop s) h = absurd (cc)

or_true : (a b : Bool) → (a ≡ false → b ≡ true) → (a || b) ≡ true
or_true true b h = refl
or_true false b h = h refl

is_undone_iff : (revert : List Step) (s : Step) → (is_undone revert s ≡ true) ↔ Undone revert s
unfolding is_undone
is_undone_iff revert (compose_stop service) = (
  any-In (restarts service) (compose_start service) (restarts-eq service) revert,
  λ inside.
      any-eq_true (restarts service) (compose_start service) revert inside (same_text_refl service),
)
is_undone_iff revert (compose_start service) = (λ h. tt, λ h. refl)
is_undone_iff revert (topic_status t s) = (
  λ h down.
      any-In (restores (some t) none) (topic_status t active) (restores-topic t) revert
        (rw down at h),
  λ undone. or_true (is_active s) _ (λ down.
      any-eq_true (restores (some t) none) (topic_status t active) revert (undone down)
        (rw (same_text_refl t) refl)),
)
is_undone_iff revert (subscription_status t n s) = (
  λ h down.
      any-In (restores (some t) (some n)) (subscription_status t n active)
        (restores-subscription t n) revert (rw down at h),
  λ undone. or_true (is_active s) _ (λ down.
      any-eq_true (restores (some t) (some n)) (subscription_status t n active) revert (undone down)
        (rw (same_text_refl t, same_text_refl n) refl)),
)

all_iff :
    (p : Step → Bool) (P : Step → Type 0)
    → ((s : Step) → (p s ≡ true) ↔ P s)
    → (xs : List Step) → (all p xs ≡ true) ↔ All P xs
all_iff p P each [] = (λ h. tt, λ h. refl)
all_iff p P each (x ∷ xs) = (
  λ h.
      let (first, rest) = and_true (p x) (all p xs) h in
      ((each x).0 first, (all_iff p P each xs).0 rest),
  λ h. rw ((each x).1 h.0, (all_iff p P each xs).1 h.1) refl,
)

-- The validator accepts a fault exactly when each stopped service has its start among the revert
-- steps, and each topic or subscription that is set to something other than Active has the step
-- that sets it to Active there, wherever in the list that is.
pub revert_restores_iff : (f : Fault) → (revert_restores f ≡ true) ↔ All (Undone f.revert) f.inject
unfolding revert_restores
revert_restores_iff f =
    all_iff (is_undone f.revert) (Undone f.revert) (is_undone_iff f.revert) f.inject
