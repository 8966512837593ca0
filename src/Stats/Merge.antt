-- ===== src/Stats/Merge.antt =====
-- PIMProfSolver/Stats.h: how the threads agree on the identifiers of the basic blocks. A
-- `UUIDHashMap<RunStats *>` is the list of its entries by hash.
pub mod Entries
pub mod Consensus
mod Tests
use pimprof.Base.{
  ℕ, suc, List, [], ◌∷◌, Option, none, some, get_elem?, if◌then◌else◌, ◌>>=◌, Double,
}
use pimprof.Common.{Uuid, uuid_eq}
use pimprof.Solver.RunStats.{RunStats, merge_base}
use pimprof.Solver.Align.{uuid_lt}
use pimprof.Stats.{ThreadStats, new_run_stats, modify}

abbrev pub StatsMap {ℓ} : Type ℓ → Type ℓ
StatsMap C = List (Uuid × RunStats C)

abbrev pub with_id {ℓ} : {C : Type ℓ} → ℕ → RunStats C → RunStats C
with_id i s = record s { bblid = i }

module _ {ℓ} {C : Type ℓ} where
  unfoldable pub find_merged : Uuid → StatsMap C → Option (RunStats C)
  unfolding uuid_eq
  find_merged u [] = none
  find_merged u ((v, s) ∷ rest) = if uuid_eq v u then some s else find_merged u rest

  unfoldable pub insert_stats : RunStats C → List (RunStats C) → List (RunStats C)
  unfolding uuid_lt
  insert_stats s [] = s ∷ []
  insert_stats s (x ∷ xs) =
      if uuid_lt x.bblhash s.bblhash then x ∷ insert_stats s xs else s ∷ x ∷ xs

  -- `SortStatsMap`
  unfoldable pub sort_stats : StatsMap C → List (RunStats C)
  unfolding insert_stats
  sort_stats [] = []
  sort_stats ((u, s) ∷ rest) = insert_stats s (sort_stats rest)

  -- `statsmap[u]->bblid = i`; a missing hash gives a null pointer.
  unfoldable pub put_id : Uuid → ℕ → StatsMap C → Option (StatsMap C)
  unfolding uuid_eq
  put_id u i [] = none
  put_id u i ((v, s) ∷ rest) =
      let later = put_id u i rest in
      if uuid_eq v u
      then some ((v, with_id i s) ∷ rest)
      else (later >>= λ rest'. some ((v, s) ∷ rest'))

  -- The loop over the sorted statistics, from the index `i`.
  unfoldable pub number_loop : ℕ → List (RunStats C) → StatsMap C → Option (StatsMap C)
  unfolding put_id
  number_loop i [] m = some m
  number_loop i (s ∷ ss) m = put_id s.bblhash i m >>= λ m'. number_loop (suc i) ss m'

  -- `GenerateBBLID`
  unfoldable pub generate_bblid : StatsMap C → Option (StatsMap C)
  unfolding sort_stats number_loop
  generate_bblid m = number_loop 0 (sort_stats m) m

module _ {ℓ} {C : Type ℓ} ⦃d : Double C⦄ where
  -- The statistics of a hash, merged into those of the map, or into new ones.
  unfoldable pub merge_entry : Uuid → RunStats C → StatsMap C → StatsMap C
  unfolding uuid_eq merge_base
  merge_entry u s [] = (u, merge_base (new_run_stats u) s) ∷ []
  merge_entry u s ((v, old) ∷ rest) =
      if uuid_eq v u then (v, merge_base old s) ∷ rest else (v, old) ∷ merge_entry u s rest

  unfoldable pub merge_loop : List (Uuid × ℕ) → List (RunStats C) → StatsMap C → Option (StatsMap C)
  unfolding merge_entry
  merge_loop [] heap m = some m
  merge_loop ((u, a) ∷ rest) heap m = do
    s ← get_elem? heap a
    merge_loop rest heap (merge_entry u s m)

  -- `MergeStatsMap`
  unfoldable pub merge_stats_map : ThreadStats C → StatsMap C → Option (StatsMap C)
  unfolding merge_loop
  merge_stats_map t m = merge_loop t.bbl_hash2stats t.heap m

  unfoldable pub assign_loop : List (Uuid × ℕ) → StatsMap C → ThreadStats C → Option (ThreadStats C)
  unfolding find_merged
  assign_loop [] m t = some t
  assign_loop ((u, a) ∷ rest) m t = do
    s ← get_elem? t.heap a
    p ← find_merged s.bblhash m
    t' ← modify a (with_id p.bblid) t
    assign_loop rest m t'

  -- `AssignBBLID`
  unfoldable pub assign_bblid : StatsMap C → ThreadStats C → Option (ThreadStats C)
  unfolding assign_loop
  assign_bblid m t = assign_loop t.bbl_hash2stats m t
