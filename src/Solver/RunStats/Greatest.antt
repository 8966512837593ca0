-- ===== src/Solver/RunStats/Greatest.antt =====
-- `MaxElapsedTime` is the largest of the times it sorts.
use pimprof.Base.{
  ℕ, suc, ◌-◌, ◌≡◌, refl, ap, subst, ◌∙◌, inl, inr, true, false, List, [], ◌∷◌, length, get_or,
  arith, Double, IsOrdered, All, Bool-cases, lt_irrefl, not-lt_trans, ◌≤◌,
}
use pimprof.Solver.RunStats.{
  ThreadRunStats, insert_asc, sort_asc, sort_elapsed_time, max_elapsed_time, max_time,
}

module _ {ℓ} {C : Type ℓ} ⦃d : Double C⦄ where
  open d use {lt, nought}

  All-insert_asc {κ} :
      (P : C → Type κ) (a : C) (xs : List C) → P a → All P xs → All P (insert_asc a xs)
  unfolding insert_asc
  All-insert_asc P a [] p h = (p, tt)
  All-insert_asc P a (x ∷ xs) p h = elim (Bool-cases (lt x a)) [
    | inl e ↦ rw (e, insert_asc) (h.0, All-insert_asc P a xs p h.1)
    | inr e ↦ rw (e, insert_asc) (p, h)
  ]

  insert_asc-All {κ} :
      (P : C → Type κ) (a : C) (xs : List C) → All P (insert_asc a xs) → P a × All P xs
  unfolding insert_asc
  insert_asc-All P a [] h = (h.0, tt)
  insert_asc-All P a (x ∷ xs) h = elim (Bool-cases (lt x a)) [
    | inl e ↦
        let split : All P (x ∷ insert_asc a xs) = rw e at h in
        let rest = insert_asc-All P a xs split.1 in (rest.0, (split.0, rest.1))
    | inr e ↦ let split : All P (a ∷ x ∷ xs) = rw e at h in (split.0, split.1)
  ]

  All-sort_asc {κ} : (P : C → Type κ) (xs : List C) → All P xs → All P (sort_asc xs)
  unfolding sort_asc
  All-sort_asc P [] h = tt
  All-sort_asc P (x ∷ xs) h = All-insert_asc P x (sort_asc xs) h.0 (All-sort_asc P xs h.1)

  sort_asc-All {κ} : (P : C → Type κ) (xs : List C) → All P (sort_asc xs) → All P xs
  unfolding sort_asc
  sort_asc-All P [] h = tt
  sort_asc-All P (x ∷ xs) h =
      let split = insert_asc-All P x (sort_asc xs) h in (split.0, sort_asc-All P xs split.1)

  length-insert_asc : (a : C) (xs : List C) → length (insert_asc a xs) ≡ suc (length xs)
  unfolding insert_asc
  length-insert_asc a [] = refl
  length-insert_asc a (x ∷ xs) = elim (Bool-cases (lt x a)) [
    | inl e ↦ rw (e, insert_asc) (ap suc (length-insert_asc a xs))
    | inr e ↦ rw (e, insert_asc) refl
  ]

  length-sort_asc : (xs : List C) → length (sort_asc xs) ≡ length xs
  unfolding sort_asc
  length-sort_asc [] = refl
  length-sort_asc (x ∷ xs) = length-insert_asc x (sort_asc xs) ∙ ap suc (length-sort_asc xs)

  -- No later time is below an earlier one.
  abbrev IsAsc : List C → Type 0
  IsAsc [] = Unit {0}
  IsAsc (x ∷ xs) = All (λ y. lt y x ≡ false) xs × IsAsc xs

  -- What holds of all holds of the last.
  All-last {κ} :
      (P : C → Type κ) (x : C) (xs : List C)
      → P x
      → All P xs
      → P (get_or (x ∷ xs) (length xs) nought)
  All-last P x [] p h = p
  All-last P x (y ∷ ys) p h = All-last P y ys h.0 h.1

module _ {ℓ} {C : Type ℓ} ⦃d : Double C⦄ (laws : IsOrdered C) where
  open d use {lt, nought}

  insert_asc-IsAsc : (a : C) (xs : List C) → IsAsc xs → IsAsc (insert_asc a xs)
  unfolding insert_asc
  insert_asc-IsAsc a [] h = (tt, tt)
  insert_asc-IsAsc a (x ∷ xs) h = elim (Bool-cases (lt x a)) [
    | inl e ↦
        rw (e, insert_asc)
          (
            All-insert_asc (λ y. lt y x ≡ false) a xs (laws.lt_asym x a e) h.0,
            insert_asc-IsAsc a xs h.1,
          )
    | inr e ↦ rw (e, insert_asc) ((e, above e xs h.0), h)
  ]
    where
      above :
          lt x a ≡ false
          → (ys : List C) → All (λ y. lt y x ≡ false) ys
          → All (λ y. lt y a ≡ false) ys
      above e [] k = tt
      above e (y ∷ ys) k = (not-lt_trans laws a x y e k.0, above e ys k.1)

  sort_asc-IsAsc : (xs : List C) → IsAsc (sort_asc xs)
  unfolding sort_asc
  sort_asc-IsAsc [] = tt
  sort_asc-IsAsc (x ∷ xs) = insert_asc-IsAsc x (sort_asc xs) (sort_asc-IsAsc xs)

  last-greatest :
      (x : C) (xs : List C)
      → IsAsc (x ∷ xs)
      → All (λ y. lt (get_or (x ∷ xs) (length xs) nought) y ≡ false) (x ∷ xs)
  last-greatest x [] h = (lt_irrefl laws x, tt)
  last-greatest x (y ∷ ys) h =
      (All-last (λ z. lt z x ≡ false) y ys h.0.0 h.0.1, last-greatest y ys h.1)

  -- The same at an index that is given by an equation.
  last_at :
      (xs : List C) (n : ℕ)
      → length xs ≡ suc n
      → IsAsc xs
      → All (λ y. lt (get_or xs n nought) y ≡ false) xs
        × ((P : C → Type ℓ) → All P xs → P (get_or xs n nought))
  last_at [] n e h = absurd (ground arith)
  last_at (x ∷ xs) n e h =
      let size : length xs ≡ n = omega arith in
      subst
        (λ m.
          All (λ y. lt (get_or (x ∷ xs) m nought) y ≡ false) (x ∷ xs)
          × ((P : C → Type ℓ) → All P (x ∷ xs) → P (get_or (x ∷ xs) m nought)))
        size (last-greatest x xs h, λ P k. All-last P x xs k.0 k.1)

  -- For statistics of at least one thread whose cache is stale, `MaxElapsedTime` is one of the times
  -- it sorts: whatever holds of all of them holds of it. None of them is above it. The next call gives
  -- the same value from the cache.
  pub max_elapsed_time-greatest :
      (s : ThreadRunStats C)
      → s.dirty ≡ true
      → length s.sorted_elapsed_time ≡ length s.thread_elapsed_time
      → 1 ≤ length s.thread_elapsed_time
      → All (λ t. lt (max_time s) t ≡ false) s.sorted_elapsed_time
        × ((P : C → Type ℓ) → All P s.sorted_elapsed_time → P (max_time s))
        × (max_time (max_elapsed_time s).1 ≡ max_time s)
  unfolding max_elapsed_time sort_elapsed_time
  max_elapsed_time-greatest s stale same some_thread =
      let times = s.sorted_elapsed_time in
      let n = length s.thread_elapsed_time - 1 in
      let (greatest, attained) =
        last_at (sort_asc times) n
          (length-sort_asc times ∙ (let e : length times ≡ suc n = omega arith in e))
          (sort_asc-IsAsc times) in
      rw stale (
        sort_asc-All (λ t. lt (get_or (sort_asc times) n nought) t ≡ false) times greatest,
        λ P k. attained P (All-sort_asc P times k),
        refl,
      )
