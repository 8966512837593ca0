-- ===== src/Pin/Scopes.antt =====
-- The tables of the Pin tool by length, and how the scope of a thread names its open basic blocks.
use pimprof.Base.{
  get_elem?-some, inl, inr, Bool-cases, ℕ, zero, suc, ◌<◌, ◌≡◌, refl, ap, List, [], ◌∷◌, ◌++◌, none,
  some, length, get_elem?, set, arith, subst,
}
use pimprof.Common.{BblId, Uuid, uuid_eq}
use pimprof.Stats.Table.{uuid_eq→eq}
use pimprof.Stats.{find_hash}
use pimprof.Pin.{write, new_scope, top}

module _ {ℓ} {A : Type ℓ} where
  pub write-set : (xs : List A) (i : ℕ) (x : A) → i < length xs → write xs i x ≡ some (set xs i x)
  unfolding write
  write-set xs i x h = let (old, e) = get_elem?-some xs i h in rw e refl

-- The scope of a thread: the numbers of its open blocks, and 0 below them.
abbrev pub Named : List (Uuid × BblId) → List Uuid → List BblId → Type 0
Named h [] ids = ids ≡ new_scope
Named h (u ∷ us) ids =
    (i : BblId) × (rest : List BblId) × (ids ≡ i ∷ rest)
    × (find_hash u h ≡ some i)
    × Named h us rest

abbrev pub AllNamed : List (Uuid × BblId) → List (List Uuid) → List (List BblId) → Type 0
AllNamed h [] [] = Unit
AllNamed h (us ∷ uss) (ids ∷ idss) = Named h us ids × AllNamed h uss idss
AllNamed h _ _ = ⊥

-- A new hash leaves the numbers of the others.
pub find-new :
    (h : List (Uuid × BblId)) (u v : Uuid) (i j : BblId)
    → find_hash u h ≡ none
    → find_hash v h ≡ some i
    → find_hash v ((u, j) ∷ h) ≡ some i
unfolding find_hash
find-new h u v i j free known = elim (Bool-cases (uuid_eq u v)) [
  | inl same ↦ absurd (ground (arith, subst (λ x. find_hash x h ≡ none) (uuid_eq→eq u v same) free))
  | inr other ↦ ground (arith, other)
]

pub numbers-new :
    (h : List (Uuid × BblId)) (u : Uuid) (n : ℕ)
    → ((v : Uuid) (i : BblId) → find_hash v h ≡ some i → i < n)
    → (v : Uuid) (i : BblId) → find_hash v ((u, n) ∷ h) ≡ some i
    → i < suc n
unfolding find_hash
numbers-new h u n below v i known = elim (Bool-cases (uuid_eq u v)) [
  | inl same ↦ ground (arith, same)
  | inr other ↦
      let old : find_hash v h ≡ some i = ground (arith, other) in omega (arith, below v i old)
]

pub Named-new :
    (h : List (Uuid × BblId)) (u : Uuid) (j : BblId) (us : List Uuid) (ids : List BblId)
    → find_hash u h ≡ none
    → Named h us ids
    → Named ((u, j) ∷ h) us ids
Named-new h u j [] ids free n = n
Named-new h u j (v ∷ us) ids free (i, rest, e, known, n) =
    (i, rest, e, find-new h u v i j free known, Named-new h u j us rest free n)

pub AllNamed-new :
    (h : List (Uuid × BblId)) (u : Uuid) (j : BblId) (uss : List (List Uuid))
    (idss : List (List BblId))
    → find_hash u h ≡ none
    → AllNamed h uss idss
    → AllNamed ((u, j) ∷ h) uss idss
AllNamed-new h u j [] [] free n = tt
AllNamed-new h u j (us ∷ uss) (ids ∷ idss) free (n, ns) =
    (Named-new h u j us ids free n, AllNamed-new h u j uss idss free ns)
AllNamed-new h u j [] (ids ∷ idss) free n = absurd n
AllNamed-new h u j (us ∷ uss) [] free n = absurd n

module _ (h : List (Uuid × BblId)) where
  pub AllNamed-length :
      (uss : List (List Uuid)) (idss : List (List BblId))
      → AllNamed h uss idss
      → length idss ≡ length uss
  AllNamed-length [] [] n = refl
  AllNamed-length (us ∷ uss) (ids ∷ idss) (n, ns) = ap suc (AllNamed-length uss idss ns)
  AllNamed-length [] (ids ∷ idss) n = absurd n
  AllNamed-length (us ∷ uss) [] n = absurd n

  pub AllNamed-get :
      (uss : List (List Uuid)) (idss : List (List BblId)) (t : ℕ) (us : List Uuid)
      → AllNamed h uss idss
      → get_elem? uss t ≡ some us
      → (ids : List BblId) × (get_elem? idss t ≡ some ids) × Named h us ids
  AllNamed-get [] idss t us ns e = absurd (ground arith)
  AllNamed-get (vs ∷ uss) [] t us ns e = absurd ns
  AllNamed-get (vs ∷ uss) (ids ∷ idss) zero us (n, ns) e =
      (ids, refl, subst (λ x. Named h x ids) (ground arith) n)
  AllNamed-get (vs ∷ uss) (ids ∷ idss) (suc t) us (n, ns) e = AllNamed-get uss idss t us ns e

  pub AllNamed-set :
      (uss : List (List Uuid)) (idss : List (List BblId)) (t : ℕ) (us : List Uuid)
      (ids : List BblId)
      → AllNamed h uss idss
      → Named h us ids
      → AllNamed h (set uss t us) (set idss t ids)
  AllNamed-set [] [] t us ids ns n = tt
  AllNamed-set (vs ∷ uss) (js ∷ idss) zero us ids (m, ns) n = (n, ns)
  AllNamed-set (vs ∷ uss) (js ∷ idss) (suc t) us ids (m, ns) n =
      (m, AllNamed-set uss idss t us ids ns n)
  AllNamed-set [] (js ∷ idss) t us ids ns n = absurd ns
  AllNamed-set (vs ∷ uss) [] t us ids ns n = absurd ns

  pub AllNamed-start :
      (uss : List (List Uuid)) (idss : List (List BblId))
      → AllNamed h uss idss
      → AllNamed h (uss ++ ([] ∷ [])) (idss ++ (new_scope ∷ []))
  AllNamed-start [] [] ns = (refl, tt)
  AllNamed-start (us ∷ uss) (ids ∷ idss) (n, ns) = (n, AllNamed-start uss idss ns)
  AllNamed-start [] (ids ∷ idss) ns = absurd ns
  AllNamed-start (us ∷ uss) [] ns = absurd ns

  -- The top of a scope is the number of a block, or 0.
  pub Named-top :
      (us : List Uuid) (ids : List BblId) (n : ℕ)
      → Named h us ids
      → ((u : Uuid) (i : BblId) → find_hash u h ≡ some i → i < n)
      → (i : BblId) × (top ids ≡ some i) × (0 < n → i < n)
  Named-top [] ids n named below = (0, ap top named, λ some_block. some_block)
  Named-top (u ∷ us) ids n (i, rest, e, known, named) below = (i, ap top e, λ _. below u i known)
