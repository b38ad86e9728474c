-- ===== src/Orders/ServiceBus/Wire.antt =====
-- A printer and a reader that meet what apps/orders/servicebus.py relies on, for the examples: a
-- JSON value is written in prefix form, after a bound on its depth.
use swarmscope.Base.{
  ℕ, suc, zero, ◌+◌, ◌≤◌, ◌≡◌, refl, true, false, Option, none, some, [], ◌∷◌, ◌++◌, Text, pos,
  negsuc, Json, null, bool, num, real, str, arr, obj, Items, stop, item, Fields, end, field, length,
  ◌==◌, arith,
}
use swarmscope.Contracts.Parse.{Pydantic, ◌>>=◌}
use swarmscope.Orders.ServiceBus.{Printer}
use swarmscope.Orders.ServiceBus.RoundTrip.{ReadsBack}

unfoldable mutual
  size : Json → ℕ
  size (arr xs) = suc (size_items xs)
  size (obj fs) = suc (size_fields fs)
  size _ = 1

  size_items : Items → ℕ
  size_items stop = 1
  size_items (item x xs) = suc (size x + size_items xs)

  size_fields : Fields → ℕ
  size_fields end = 1
  size_fields (field k v rest) = suc (size v + size_fields rest)

unfoldable mutual
  put : Json → Text → Text
  put null r = 0 ∷ r
  put (bool true) r = 1 ∷ r
  put (bool false) r = 2 ∷ r
  put (num (pos n)) r = 3 ∷ n ∷ r
  put (num (negsuc n)) r = 4 ∷ n ∷ r
  put (real t) r = 5 ∷ length t ∷ (t ++ r)
  put (str t) r = 6 ∷ length t ∷ (t ++ r)
  put (arr xs) r = 7 ∷ put_items xs r
  put (obj fs) r = 8 ∷ put_fields fs r

  put_items : Items → Text → Text
  put_items stop r = 0 ∷ r
  put_items (item x xs) r = 1 ∷ put x (put_items xs r)

  put_fields : Fields → Text → Text
  put_fields end r = 0 ∷ r
  put_fields (field k v rest) r = 1 ∷ length k ∷ (k ++ put v (put_fields rest r))

abbrev split : ℕ → Text → Option (Text × Text)
split zero r = some ([], r)
split (suc n) [] = none
split (suc n) (c ∷ cs) = split n cs >>= (λ (t, r). some (c ∷ t, r))

split-append : (t r : Text) → split (length t) (t ++ r) ≡ some (t, r)
split-append [] r = refl
split-append (c ∷ cs) r = rw (split-append cs r) refl

unfoldable mutual
  take_json : ℕ → Text → Option (Json × Text)
  take_json (suc n) (zero ∷ r) = some (null, r)
  take_json (suc n) ((suc zero) ∷ r) = some (bool true, r)
  take_json (suc n) ((suc (suc zero)) ∷ r) = some (bool false, r)
  take_json (suc n) ((suc (suc (suc zero))) ∷ k ∷ r) = some (num (pos k), r)
  take_json (suc n) ((suc (suc (suc (suc zero)))) ∷ k ∷ r) = some (num (negsuc k), r)
  take_json (suc n) ((suc (suc (suc (suc (suc zero))))) ∷ k ∷ r) =
      split k r >>= (λ (t, s). some (real t, s))
  take_json (suc n) ((suc (suc (suc (suc (suc (suc zero)))))) ∷ k ∷ r) =
      split k r >>= (λ (t, s). some (str t, s))
  take_json (suc n) ((suc (suc (suc (suc (suc (suc (suc zero))))))) ∷ r) =
      take_items n r >>= (λ (xs, s). some (arr xs, s))
  take_json (suc n) ((suc (suc (suc (suc (suc (suc (suc (suc zero)))))))) ∷ r) =
      take_fields n r >>= (λ (fs, s). some (obj fs, s))
  take_json _ _ = none

  take_items : ℕ → Text → Option (Items × Text)
  take_items (suc n) (zero ∷ r) = some (stop, r)
  take_items (suc n) ((suc zero) ∷ r) =
      take_json n r >>= (λ (x, s). take_items n s >>= (λ (xs, u). some (item x xs, u)))
  take_items _ _ = none

  take_fields : ℕ → Text → Option (Fields × Text)
  take_fields (suc n) (zero ∷ r) = some (end, r)
  take_fields (suc n) ((suc zero) ∷ k ∷ r) = split k r >>= (λ (t, s).
      take_json n s >>= (λ (v, u). take_fields n u >>= (λ (fs, w). some (field t v fs, w))))
  take_fields _ _ = none

size-positive : (j : Json) → 1 ≤ size j
unfolding size
size-positive null = omega arith
size-positive (bool b) = omega arith
size-positive (num z) = omega arith
size-positive (real t) = omega arith
size-positive (str t) = omega arith
size-positive (arr xs) = omega arith
size-positive (obj fs) = omega arith

size_items-positive : (xs : Items) → 1 ≤ size_items xs
unfolding size_items
size_items-positive stop = omega arith
size_items-positive (item x xs) = omega arith

size_fields-positive : (fs : Fields) → 1 ≤ size_fields fs
unfolding size_fields
size_fields-positive end = omega arith
size_fields-positive (field k v rest) = omega arith

mutual
  unfolding take_json put size

  take_json-put : (n : ℕ) (j : Json) (r : Text) → size j ≤ n → take_json n (put j r) ≡ some (j, r)
  take_json-put zero j r h = absurd (omega (arith, h, size-positive j))
  take_json-put (suc n) null r h = refl
  take_json-put (suc n) (bool true) r h = refl
  take_json-put (suc n) (bool false) r h = refl
  take_json-put (suc n) (num (pos k)) r h = refl
  take_json-put (suc n) (num (negsuc k)) r h = refl
  take_json-put (suc n) (real t) r h = rw (split-append t r) refl
  take_json-put (suc n) (str t) r h = rw (split-append t r) refl
  take_json-put (suc n) (arr xs) r h = rw (take_items-put n xs r (omega (arith, h))) refl
  take_json-put (suc n) (obj fs) r h = rw (take_fields-put n fs r (omega (arith, h))) refl

  take_items-put :
      (n : ℕ) (xs : Items) (r : Text)
      → size_items xs ≤ n
      → take_items n (put_items xs r) ≡ some (xs, r)
  take_items-put zero xs r h = absurd (omega (arith, h, size_items-positive xs))
  take_items-put (suc n) stop r h = refl
  take_items-put (suc n) (item x xs) r h =
      rw
        (
          take_json-put n x (put_items xs r) (omega (arith, h)),
          take_items-put n xs r (omega (arith, h)),
        )
        refl

  take_fields-put :
      (n : ℕ) (fs : Fields) (r : Text)
      → size_fields fs ≤ n
      → take_fields n (put_fields fs r) ≡ some (fs, r)
  take_fields-put zero fs r h = absurd (omega (arith, h, size_fields-positive fs))
  take_fields-put (suc n) end r h = refl
  take_fields-put (suc n) (field k v rest) r h =
      rw
        (
          split-append k (put v (put_fields rest r)),
          take_json-put n v (put_fields rest r) (omega (arith, h)),
          take_fields-put n rest r (omega (arith, h)),
        )
        refl

abbrev one_number : Json → Option ℕ
one_number (str (n ∷ [])) = some n
one_number _ = none

abbrev loads_prefix : Text → Option Json
loads_prefix [] = none
loads_prefix (n ∷ t) = take_json n t >>= (λ (j, r). some j)

unfoldable pub reader : Pydantic
unfolding take_json
reader = record {
  loads = loads_prefix;
  uuid = one_number;
  aware_datetime = one_number;
  int = λ j. elim j [ num z ↦ some z | _ ↦ none ];
  is_space = λ c. c == 32;
}

unfoldable pub printer : Printer
unfolding size put
printer = record {
  dumps = λ j. size j ∷ put j [];
  uuid_text = λ n. n ∷ [];
  isoformat = λ n. n ∷ [];
}

pub printer-ReadsBack : ReadsBack reader printer
unfolding reader printer
printer-ReadsBack = record {
  loads = λ j. rw (take_json-put (size j) j [] (omega arith)) refl;
  uuid = λ n. refl;
  aware_datetime = λ t. refl;
  int = λ z. refl;
}
