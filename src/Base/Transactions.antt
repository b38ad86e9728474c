-- ===== src/Base/Transactions.antt =====
-- `async with session.begin():` of SQLAlchemy: the block's writes are committed together when the
-- block ends, and none of them is if it raises.
use mathlib.Core.Path.{◌≡◌, refl, ap, sym}
use mathlib.Core.Logic.{◌⊎◌, inl, inr}

-- A call that may raise.
pub data Result {ℓ κ} (E : Type ℓ) (A : Type κ) : Type (ℓ ⊔ κ) where
  ok : A → Result E A
  err : E → Result E A

infixl 5 ◌>>=◌ ◌>>◌
abbrev pub ◌>>=◌ {ℓ κ μ} :
    {E : Type ℓ} {A : Type κ} {B : Type μ} → Result E A → (A → Result E B) → Result E B
ok a >>= f = f a
err e >>= f = err e

abbrev pub ◌>>◌ {ℓ μ} : {E : Type ℓ} {B : Type μ} → Result E (Unit {0}) → Result E B → Result E B
m >> k = m >>= λ _. k

-- How the server ends a transaction whose block ran to its end. A commit may also succeed while
-- the connection breaks before the reply: the caller sees an error and the writes stay.
pub data Ending : Type 0 where
  commits rolls_back commits_unseen : Ending

-- `lost` is the exception that a broken connection raises. The writes of a block that ends by
-- raising are rolled back.
unfoldable pub transaction {ℓ κ μ} :
    {E : Type ℓ} {A : Type κ} {S : Type μ} → E → Ending → S → Result E (A × S) → Result E A × S
transaction lost ending s (err e) = (err e, s)
transaction lost commits s (ok (a, s')) = (ok a, s')
transaction lost rolls_back s (ok _) = (err lost, s)
transaction lost commits_unseen s (ok (_, s')) = (err lost, s')

-- After a transaction the state is the old one, or the block's whole result.
pub transaction_atomic {ℓ κ μ} :
    {E : Type ℓ} {A : Type κ} {S : Type μ} (lost : E) (ending : Ending) (s : S)
    (body : Result E (A × S))
    → ((transaction lost ending s body).1 ≡ s)
      ⊎ ((a : A) × (s' : S) × (body ≡ ok (a, s')) × ((transaction lost ending s body).1 ≡ s'))
unfolding transaction
transaction_atomic lost ending s (err e) = inl refl
transaction_atomic lost commits s (ok (a, s')) = inr (a, s', refl, refl)
transaction_atomic lost rolls_back s (ok _) = inl refl
transaction_atomic lost commits_unseen s (ok (a, s')) = inr (a, s', refl, refl)

pub ok_inj {ℓ κ} : {E : Type ℓ} {A : Type κ} {a b : A} → ◌≡◌ {A = Result E A} (ok a) (ok b) → a ≡ b
ok_inj h = cc

-- A transaction returns only what its block returned, after a commit.
pub transaction_ok {ℓ κ μ} :
    {E : Type ℓ} {A : Type κ} {S : Type μ} (lost : E) (ending : Ending) (s : S)
    (body : Result E (A × S)) {a : A}
    → (transaction lost ending s body).0 ≡ ok a
    → body ≡ ok (a, (transaction lost ending s body).1)
unfolding transaction
transaction_ok lost ending s (err e) h = absurd (cc)
transaction_ok lost commits s (ok (b, s')) h = ap (λ x. ok (x, s')) (ok_inj h)
transaction_ok lost rolls_back s (ok b) h = absurd (cc)
transaction_ok lost commits_unseen s (ok b) h = absurd (cc)

pub err_inj {ℓ κ} :
    {E : Type ℓ} {A : Type κ} {a b : E} → ◌≡◌ {A = Result E A} (err a) (err b) → a ≡ b
err_inj h = cc

-- A transaction raises what its block raises, or that the connection is lost.
pub transaction_raises {ℓ κ μ} :
    {E : Type ℓ} {A : Type κ} {S : Type μ} (lost : E) (ending : Ending) (s : S)
    (body : Result E (A × S)) {e : E}
    → (transaction lost ending s body).0 ≡ err e
    → (e ≡ lost) ⊎ (body ≡ err e)
unfolding transaction
transaction_raises lost ending s (err e) h = inr (ap (λ x. err x) (err_inj h))
transaction_raises lost commits s (ok (b, s')) h = absurd (cc)
transaction_raises lost rolls_back s (ok b) h = inl (sym (err_inj h))
transaction_raises lost commits_unseen s (ok b) h = inl (sym (err_inj h))

-- A block that ends, in a transaction that commits, gives its whole result.
pub transaction_commits {ℓ κ μ} :
    {E : Type ℓ} {A : Type κ} {S : Type μ} (lost : E) {ending : Ending} (s : S)
    {body : Result E (A × S)} {a : A} {s' : S}
    → ending ≡ commits
    → body ≡ ok (a, s')
    → transaction lost ending s body ≡ (ok a, s')
unfolding transaction
transaction_commits lost s ends result = rw (ends, result) refl

-- the two results
pub Result-cases {ℓ κ} :
    {E : Type ℓ} {A : Type κ} (r : Result E A) → ((a : A) × (r ≡ ok a)) ⊎ ((e : E) × (r ≡ err e))
Result-cases (ok a) = inl (a, refl)
Result-cases (err e) = inr (e, refl)
