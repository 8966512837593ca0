-- ===== src/Solver/Align/Order.antt =====
-- `getBBLSortedStats` gives sorted statistics, and those of the two sites belong together.
use pimprof.Base.{
  suc, ◌≡◌, refl, ap, ◌∙◌, inl, inr, true, false, List, [], ◌∷◌, some, length, arith, Double, All,
  Bool-cases,
}
use pimprof.Common.{Uuid, uuid_eq}
use pimprof.Solver.RunStats.{ThreadRunStats}
use pimprof.Solver.Align.{uuid_lt, insert_by_hash, sort_stats_map, align, get_bbl_sorted_stats}
use pimprof.Solver.Align.Held.{
  IsAligned, IsKeyed, IsUnique, HashesDiffer, uuid_eq_flip, align-Holds, pointed-IsAligned,
}

uuid_lt_asym : (u v : Uuid) → uuid_lt u v ≡ true → uuid_lt v u ≡ false
unfolding uuid_lt
uuid_lt_asym u v e = ground arith

module _ {ℓ} {C : Type ℓ} ⦃d : Double C⦄ where
  length-align : (ps qs : List (ThreadRunStats C)) → IsAligned ps qs → length ps ≡ length qs
  length-align [] [] h = refl
  length-align [] (q ∷ qs) h = absurd h
  length-align (p ∷ ps) [] h = absurd h
  length-align (p ∷ ps) (q ∷ qs) h = ap suc (length-align ps qs h.2)

  -- No hash is below the one before it.
  abbrev pub IsSorted : List (ThreadRunStats C) → Type 0
  IsSorted [] = Unit {0}
  IsSorted (x ∷ []) = Unit {0}
  IsSorted (x ∷ y ∷ ys) = (uuid_lt y.bblhash x.bblhash ≡ false) × IsSorted (y ∷ ys)

  insert_by_hash-IsSorted :
      (s : ThreadRunStats C) (xs : List (ThreadRunStats C))
      → IsSorted xs
      → IsSorted (insert_by_hash s xs)
  unfolding insert_by_hash
  insert_by_hash-IsSorted s [] h = tt
  insert_by_hash-IsSorted s (x ∷ []) h = elim (Bool-cases (uuid_lt x.bblhash s.bblhash)) [
    | inl e ↦ rw (e, insert_by_hash) (uuid_lt_asym x.bblhash s.bblhash e, tt)
    | inr e ↦ rw (e, insert_by_hash) (e, tt)
  ]
  insert_by_hash-IsSorted s (x ∷ y ∷ ys) h = elim (Bool-cases (uuid_lt x.bblhash s.bblhash)) [
    | inr e ↦ rw (e, insert_by_hash) (e, h)
    | inl e ↦
        let rest = insert_by_hash-IsSorted s (y ∷ ys) h.1 in
        elim (Bool-cases (uuid_lt y.bblhash s.bblhash)) [
          | inl f ↦ rw (e, f, insert_by_hash) (h.0, rw (f, insert_by_hash) at rest)
          | inr f ↦ rw (e, f, insert_by_hash) (uuid_lt_asym x.bblhash s.bblhash e, (f, h.1))
        ]
  ]

  length-insert_by_hash :
      (s : ThreadRunStats C) (xs : List (ThreadRunStats C))
      → length (insert_by_hash s xs) ≡ suc (length xs)
  unfolding insert_by_hash
  length-insert_by_hash s [] = refl
  length-insert_by_hash s (x ∷ xs) = ground (arith, length-insert_by_hash s xs)

  sort_stats_map-IsSorted :
      (m : List (Uuid × ThreadRunStats C))
      → IsSorted (sort_stats_map m) × (length (sort_stats_map m) ≡ length m)
  unfolding sort_stats_map
  sort_stats_map-IsSorted [] = (tt, refl)
  sort_stats_map-IsSorted ((u, s) ∷ rest) =
      let (h, e) = sort_stats_map-IsSorted rest in
      (
        insert_by_hash-IsSorted s (sort_stats_map rest) h,
        length-insert_by_hash s (sort_stats_map rest) ∙ ap suc e,
      )

  insert_by_hash-All :
      (P : ThreadRunStats C → Type 0) (s : ThreadRunStats C) (xs : List (ThreadRunStats C))
      → P s
      → All P xs
      → All P (insert_by_hash s xs)
  unfolding insert_by_hash
  insert_by_hash-All P s [] here h = (here, tt)
  insert_by_hash-All P s (x ∷ xs) here h = elim (Bool-cases (uuid_lt x.bblhash s.bblhash)) [
    | inl e ↦ rw (e, insert_by_hash) (h.0, insert_by_hash-All P s xs here h.1)
    | inr e ↦ rw (e, insert_by_hash) (here, h)
  ]

  insert_by_hash-HashesDiffer :
      (s : ThreadRunStats C) (xs : List (ThreadRunStats C))
      → All (λ x. uuid_eq x.bblhash s.bblhash ≡ false) xs
      → HashesDiffer xs
      → HashesDiffer (insert_by_hash s xs)
  unfolding insert_by_hash
  insert_by_hash-HashesDiffer s [] new h = (tt, tt)
  insert_by_hash-HashesDiffer s (x ∷ xs) new h = elim (Bool-cases (uuid_lt x.bblhash s.bblhash)) [
    | inl e ↦
        rw (e, insert_by_hash)
          (
            insert_by_hash-All (λ y. uuid_eq y.bblhash x.bblhash ≡ false) s xs
                (uuid_eq_flip x.bblhash s.bblhash new.0) h.0,
            insert_by_hash-HashesDiffer s xs new.1 h.1,
          )
    | inr e ↦ rw (e, insert_by_hash) (new, h)
  ]

  -- The keys of a map as the hashes of its sorted statistics.
  sort_stats_map-others :
      (m : List (Uuid × ThreadRunStats C)) (u : Uuid)
      → IsKeyed m
      → All (λ e. uuid_eq e.0 u ≡ false) m
      → All (λ x. uuid_eq x.bblhash u ≡ false) (sort_stats_map m)
  unfolding sort_stats_map
  sort_stats_map-others [] u k h = tt
  sort_stats_map-others ((v, s) ∷ rest) u k h =
      insert_by_hash-All (λ x. uuid_eq x.bblhash u ≡ false) s (sort_stats_map rest) (rw k.0 h.0)
        (sort_stats_map-others rest u k.1 h.1)

  sort_stats_map-HashesDiffer :
      (m : List (Uuid × ThreadRunStats C))
      → IsKeyed m
      → IsUnique m
      → HashesDiffer (sort_stats_map m)
  unfolding sort_stats_map
  sort_stats_map-HashesDiffer [] k h = tt
  sort_stats_map-HashesDiffer ((v, s) ∷ rest) k h =
      insert_by_hash-HashesDiffer s (sort_stats_map rest)
        (rw k.0 (sort_stats_map-others rest v k.1 h.0)) (sort_stats_map-HashesDiffer rest k.1 h.1)

  -- `getBBLSortedStats` returns: none of its assertions fails, though the sorted statistics of the
  -- memory side are pointers into its map, through which later rounds of the loop write. It sorts the
  -- statistics of the CPU by hash, one for each entry of its map, and gives for each of them, in the
  -- same order, statistics of the memory side with the same identifier and hash. Both maps have their
  -- statistics under their own hashes, and that of the CPU has no hash twice.
  pub get_bbl_sorted_stats-IsAligned :
      (on_cpu on_pim : List (Uuid × ThreadRunStats C))
      → IsKeyed on_cpu
      → IsUnique on_cpu
      → IsKeyed on_pim
      → (sorted : List (ThreadRunStats C) × List (ThreadRunStats C)) × (get_bbl_sorted_stats on_cpu
            on_pim
          ≡ some sorted)
        × IsSorted sorted.0
        × (length sorted.0 ≡ length on_cpu)
        × (length sorted.0 ≡ length sorted.1)
        × IsAligned sorted.0 sorted.1
  unfolding get_bbl_sorted_stats
  get_bbl_sorted_stats-IsAligned on_cpu on_pim keyed unique k =
      let sorted = sort_stats_map on_cpu in
      let (ordered, size) = sort_stats_map-IsSorted on_cpu in
      let differ = sort_stats_map-HashesDiffer on_cpu keyed unique in
      let (qs, found, same, aligned) =
        pointed-IsAligned sorted (align sorted on_pim) (align-Holds sorted on_pim differ k) in
      ((sorted, qs), rw (found, same) refl, ordered, size, length-align sorted qs aligned, aligned)
