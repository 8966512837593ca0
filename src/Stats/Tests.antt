-- ===== src/Stats/Tests.antt =====
-- A concrete run of the statistics of one thread.
use pimprof.Base.{ℕ, ◌≡◌, refl, true, false, [], ◌∷◌, some, nat_double}
use pimprof.Stats.{ThreadStats, new_thread}
use pimprof.DataReuse.Trie.{node, nil, child}
use pimprof.Stats.Table.{new_thread-IsValid}
use pimprof.Stats.Steps.{Restores}
use pimprof.Stats.Nesting.{Trace, done, time, memory, block, offload, run_trace, run_trace-Restores}

abbrev start : ThreadStats ℕ
start = new_thread

-- A block with an offloaded region and a repeated block inside.
abbrev trace : Trace
trace =
    block 5 6
      (time 1_000_000 7 (offload 9 1 (block 5 6 (memory 2 done) done) (offload 9 0 done done))) done

counted :
    (t : ThreadStats ℕ) × (run_trace trace start ≡ some t)
    × (t.switch_cpu2pim ≡ 1)
    × (t.switch_pim2cpu ≡ 1)
unfolding run_trace new_thread pimprof.DataReuse.Switch.insert
counted = (_, refl, refl, refl)

run_trace-Restores_example :
    (t : ThreadStats ℕ) × (run_trace trace start ≡ some t) × Restores start t
run_trace-Restores_example = run_trace-Restores trace start new_thread-IsValid

-- Block 5 has touched the line of tag 3.
abbrev busy : ThreadStats ℕ
busy = record start { tag2seg = (3, record { head = 5; items = 5 ∷ []; count = 1 }) ∷ [] }

-- A store by the block at address 0 ends the segment.
abbrev stored : ThreadStats ℕ
stored = record start {
  tag2seg = (3, record { head = 0; items = 0 ∷ []; count = 1 }) ∷ [];
  root = node false 0 0 (
      child 0 (node false 0 0 (child 5 (node false 5 0 (child 5 (node true 5 1 nil) nil)) nil))
        nil);
  leaves = record { root_id = 0; path = 0 ∷ 5 ∷ 5 ∷ [] } ∷ [];
}
