-- ===== src/Solver/Align.antt =====
-- `SortStatsMap` and `getBBLSortedStats`: the statistics of the two sites, sorted by hash and aligned.
pub mod Held
pub mod Order
use pimprof.Base.{
  ℕ, zero, suc, ◌≡◌, refl, sym, ap, ◌∙◌, inl, inr, Bool, true, false, ◌&&◌, ◌||◌, List, [], ◌∷◌,
  Option, none, some, length, map, ltb, ◌==◌, if◌then◌else◌, arith, Double, All, Bool-cases,
  Option-cases, ◌>>=◌, ◌>>◌, assert_that,
}
use pimprof.Common.{Uuid, uuid_eq}
use pimprof.Solver.RunStats.{RunStats, ThreadRunStats, new_thread_stats}
use pimprof.Stats.{new_run_stats}

-- `operator<` of `std::pair`
unfoldable pub uuid_lt : Uuid → Uuid → Bool
uuid_lt u v = ltb u.first v.first || (u.first == v.first && ltb u.second v.second)

-- A `UUIDHashMap<ThreadRunStats *>` is the list of its entries by hash.
module _ {ℓ} {C : Type ℓ} where
  unfoldable pub find_stats : Uuid → List (Uuid × ThreadRunStats C) → Option (ThreadRunStats C)
  unfolding uuid_eq
  find_stats u [] = none
  find_stats u ((v, s) ∷ rest) = if uuid_eq v u then some s else find_stats u rest

  -- The object of a hash, changed through its pointer, or a new entry.
  unfoldable pub put_stats :
      Uuid → ThreadRunStats C → List (Uuid × ThreadRunStats C) → List (Uuid × ThreadRunStats C)
  unfolding uuid_eq
  put_stats u s [] = (u, s) ∷ []
  put_stats u s ((v, old) ∷ rest) =
      if uuid_eq v u then (v, s) ∷ rest else (v, old) ∷ put_stats u s rest

  unfoldable pub insert_by_hash :
      ThreadRunStats C → List (ThreadRunStats C) → List (ThreadRunStats C)
  unfolding uuid_lt
  insert_by_hash s [] = s ∷ []
  insert_by_hash s (x ∷ xs) =
      if uuid_lt x.bblhash s.bblhash then x ∷ insert_by_hash s xs else s ∷ x ∷ xs

  -- `SortStatsMap`
  unfoldable pub sort_stats_map : List (Uuid × ThreadRunStats C) → List (ThreadRunStats C)
  unfolding insert_by_hash
  sort_stats_map [] = []
  sort_stats_map ((u, s) ∷ rest) = insert_by_hash s (sort_stats_map rest)

  -- `p->second->bblid = bblid`
  abbrev pub set_id : ℕ → ThreadRunStats C → ThreadRunStats C
  set_id bblid q = record q { base = record q.base { bblid = bblid } }

module _ {ℓ} {C : Type ℓ} ⦃d : Double C⦄ where
  -- The statistics of a basic block that never ran near the memory.
  unfoldable pub placeholder : ThreadRunStats C → ThreadRunStats C
  unfolding new_thread_stats
  placeholder p = new_thread_stats 0 (record (new_run_stats p.bblhash) { bblid = p.bblid })

  -- One basic block of the loop that aligns PIM with the sorted statistics of the CPU: the object of
  -- its hash gets its number, or a placeholder enters the map.
  unfoldable pub align_step :
      ThreadRunStats C → List (Uuid × ThreadRunStats C) → List (Uuid × ThreadRunStats C)
  unfolding find_stats put_stats placeholder
  align_step p pim = elim (find_stats p.bblhash pim) [
    | some q ↦ put_stats p.bblhash (set_id p.bblid q) pim
    | none ↦ put_stats p.bblhash (placeholder p) pim
  ]

  -- The loop. The pointer that it pushes for `p` is that of the object under the hash of `p`.
  unfoldable pub align :
      List (ThreadRunStats C) → List (Uuid × ThreadRunStats C) → List (Uuid × ThreadRunStats C)
  unfolding align_step
  align [] pim = pim
  align (p ∷ ps) pim = align ps (align_step p pim)

  -- What the pointers lead to once the loop is done, so that a number written later through another
  -- pointer to the same object is seen.
  unfoldable pub pointed :
      List (ThreadRunStats C) → List (Uuid × ThreadRunStats C) → Option (List (ThreadRunStats C))
  unfolding find_stats
  pointed [] pim = some []
  pointed (p ∷ ps) pim = do q ← find_stats p.bblhash pim; qs ← pointed ps pim; some (q ∷ qs)

  -- The assertions: as many statistics on both sides, with the same numbers and hashes.
  unfoldable pub all_same : List (ThreadRunStats C) → List (ThreadRunStats C) → Bool
  unfolding uuid_eq
  all_same [] [] = true
  all_same [] (q ∷ qs) = false
  all_same (p ∷ ps) [] = false
  all_same (p ∷ ps) (q ∷ qs) = p.bblid == q.bblid && uuid_eq p.bblhash q.bblhash && all_same ps qs

  -- `getBBLSortedStats`, when the sorted statistics are stale.
  unfoldable pub get_bbl_sorted_stats :
      List (Uuid × ThreadRunStats C)
      → List (Uuid × ThreadRunStats C)
      → Option (List (ThreadRunStats C) × List (ThreadRunStats C))
  unfolding sort_stats_map align pointed all_same
  get_bbl_sorted_stats on_cpu on_pim = do
    let sorted = sort_stats_map on_cpu
    sorted_pim ← pointed sorted (align sorted on_pim)
    assert_that (all_same sorted sorted_pim)
    some (sorted, sorted_pim)
