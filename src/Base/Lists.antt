-- ===== src/Base/Lists.antt =====
-- Lists measured, indexed and updated by native numbers, under the library's names.
use Prim.Native.Nat.{ℕ, zero, suc, ◌+◌, ◌<◌}
use mathlib.Core.Path.{◌≡◌, refl, ap}
use mathlib.Core.List.{List, [], ◌∷◌, ◌++◌}
use mathlib.Core.Option
use mathlib.Core.Option.{Option, none, some}
use native.Mathlib.Omega.{arith}
use pimprof.Base.Tests.{◌==◌, if◌then◌else◌}

module _ {ℓ} {A : Type ℓ} where
  abbrev pub length : List A → ℕ
  length [] = 0
  length (x ∷ xs) = suc (length xs)

  abbrev pub get_elem? : List A → ℕ → Option A
  get_elem? [] i = none
  get_elem? (x ∷ xs) zero = some x
  get_elem? (x ∷ xs) (suc i) = get_elem? xs i

  abbrev pub get_or : List A → ℕ → A → A
  get_or [] i d = d
  get_or (x ∷ xs) zero d = x
  get_or (x ∷ xs) (suc i) d = get_or xs i d

  -- A write out of bounds changes nothing.
  abbrev pub set : List A → ℕ → A → List A
  set [] i v = []
  set (x ∷ xs) zero v = v ∷ xs
  set (x ∷ xs) (suc i) v = x ∷ set xs i v

  abbrev pub replicate : ℕ → A → List A
  replicate zero a = []
  replicate (suc n) a = a ∷ replicate n a

  -- Every element satisfies the predicate.
  abbrev pub All {κ} : (A → Type κ) → List A → Type κ
  All P [] = Unit
  All P (x ∷ xs) = P x × All P xs

  pub get_elem?-some : (xs : List A) (i : ℕ) → i < length xs → (a : A) × (get_elem? xs i ≡ some a)
  get_elem?-some [] i h = absurd (omega arith)
  get_elem?-some (x ∷ xs) zero h = (x, refl)
  get_elem?-some (x ∷ xs) (suc i) h = get_elem?-some xs i (omega arith)

  pub some-get_elem? : (xs : List A) (i : ℕ) (x : A) → get_elem? xs i ≡ some x → i < length xs
  some-get_elem? [] i x h = absurd (ground arith)
  some-get_elem? (y ∷ ys) zero x h = omega arith
  some-get_elem? (y ∷ ys) (suc i) x h = omega (arith, some-get_elem? ys i x h)

  pub length-append : (xs ys : List A) → length (xs ++ ys) ≡ length xs + length ys
  length-append [] ys = omega arith
  length-append (x ∷ xs) ys = omega (arith, length-append xs ys)

  pub length-set : (xs : List A) (i : ℕ) (v : A) → length (set xs i v) ≡ length xs
  length-set [] i v = refl
  length-set (x ∷ xs) zero v = refl
  length-set (x ∷ xs) (suc i) v = ap suc (length-set xs i v)

  pub length-replicate : (n : ℕ) (a : A) → length (replicate n a) ≡ n
  length-replicate zero a = refl
  length-replicate (suc n) a = ap suc (length-replicate n a)

  pub All-append {κ} : (P : A → Type κ) (xs ys : List A) → All P xs → All P ys → All P (xs ++ ys)
  All-append P [] ys _ q = q
  All-append P (x ∷ xs) ys (p, ps) q = (p, All-append P xs ys ps q)

  pub All-set {κ} :
      (P : A → Type κ) (xs : List A) (i : ℕ) (v : A) → All P xs → P v → All P (set xs i v)
  All-set P [] i v h p = h
  All-set P (x ∷ xs) zero v h p = (p, h.1)
  All-set P (x ∷ xs) (suc i) v h p = (h.0, All-set P xs i v h.1 p)

  pub All-replicate {κ} : (P : A → Type κ) (n : ℕ) (v : A) → P v → All P (replicate n v)
  All-replicate P zero v p = tt
  All-replicate P (suc n) v p = (p, All-replicate P n v p)

  -- Lists with the same elements at every index are equal.
  pub list_ext : (xs ys : List A) → ((i : ℕ) → get_elem? xs i ≡ get_elem? ys i) → xs ≡ ys
  list_ext [] [] h = refl
  list_ext [] (y ∷ ys) h = absurd (ground (arith, h 0))
  list_ext (x ∷ xs) [] h = absurd (ground (arith, h 0))
  list_ext (x ∷ xs) (y ∷ ys) h = let tails : xs ≡ ys = list_ext xs ys (λ i. h (suc i)) in cc (h 0)

  pub get_elem?-set :
      (xs : List A) (i : ℕ) (v : A) (j : ℕ)
      → get_elem? (set xs i v) j
        ≡ (if i == j then Option.map (λ _. v) (get_elem? xs j) else get_elem? xs j)
  get_elem?-set [] i v j = ground arith
  get_elem?-set (x ∷ xs) zero v zero = refl
  get_elem?-set (x ∷ xs) zero v (suc j) = ground arith
  get_elem?-set (x ∷ xs) (suc i) v zero = ground arith
  get_elem?-set (x ∷ xs) (suc i) v (suc j) = ground (arith, get_elem?-set xs i v j)

  -- Writing back what was read restores the list.
  pub set-set_get : (xs : List A) (i : ℕ) (v d : A) → set (set xs i v) i (get_or xs i d) ≡ xs
  set-set_get [] i v d = refl
  set-set_get (x ∷ xs) zero v d = refl
  set-set_get (x ∷ xs) (suc i) v d = ap (◌∷◌ x) (set-set_get xs i v d)
