-- ===== src/Stats/Merge/Tests.antt =====
-- Two threads that have the statistics of one block at different addresses.
use pimprof.Base.{ℕ, ◌≡◌, refl, List, [], ◌∷◌, some, map, All, nat_double}
use mathlib.Core.Option
use pimprof.Common.{Uuid}
use pimprof.Solver.RunStats.{RunStats}
use pimprof.Stats.{ThreadStats, new_thread, enter, modify}
use pimprof.Stats.Table.{hash_at, new_thread-IsValid, enter-IsValid}
use pimprof.Stats.Merge.{generate_bblid, assign_bblid, merge_stats_map}
use pimprof.Stats.Merge.Consensus.{agree_on_ids, AllHaveId, agree_on_ids-AllHaveId}

abbrev first_block : Uuid
first_block = record { first = 5; second = 6 }

abbrev second_block : Uuid
second_block = record { first = 5; second = 4 }

abbrev first_thread : ThreadStats ℕ
first_thread = (enter first_block new_thread).1

abbrev second_thread : ThreadStats ℕ
second_thread = (enter first_block (enter second_block new_thread).1).1

abbrev threads : List (ThreadStats ℕ)
threads = first_thread ∷ second_thread ∷ []

-- The objects at the addresses 0, 2 and 3; those at 1 are in no table.
ids :
    Option.map (map (λ t. map (λ s. s.bblid) t.heap)) (agree_on_ids threads)
    ≡ some ((0 ∷ 0 ∷ 2 ∷ []) ∷ (0 ∷ 0 ∷ 1 ∷ 2 ∷ []) ∷ [])
unfolding agree_on_ids generate_bblid assign_bblid merge_stats_map enter new_thread modify
ids = refl

agree_on_ids-AllHaveId_example :
    (ts' : List (ThreadStats ℕ)) × (id : Uuid → ℕ) × (sorted : List (RunStats ℕ)) × (agree_on_ids
        threads
      ≡ some ts')
    × (map (λ t. t.bbl_hash2stats) ts' ≡ map (λ t. t.bbl_hash2stats) threads)
    × All (AllHaveId id) ts'
    × All (λ t. All (λ e. hash_at sorted (id e.0) ≡ some e.0) t.bbl_hash2stats) threads
agree_on_ids-AllHaveId_example = agree_on_ids-AllHaveId threads (
  (enter-IsValid first_block new_thread new_thread-IsValid).0,
  (
    (enter-IsValid first_block (enter second_block new_thread).1
        (enter-IsValid second_block new_thread new_thread-IsValid).0).0,
    tt,
  ),
)
