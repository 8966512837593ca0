-- ===== src/Storage/Tests.antt =====
-- Concrete runs of the cache sets.
use pimprof.Base.{
  get_elem?, set, ℕ, suc, false, ◌>>=◌, nat_double, ◌-◌, ◌^◌, ◌≤◌, ◌<◌, ◌≡◌, refl, List, [], ◌∷◌,
  some, Bool, true, arith, u32_mod,
}
use pimprof.Storage.Log2.{is_power2, floor_log2, ceil_log2, floor_log2-bounds}
use pimprof.Base.Signed.{pos}
use pimprof.DataReuse.Segment.{Segment, new_segment, clear}
use pimprof.DataReuse.Trie.{new_node, update_trie}
use pimprof.Pin.{PerSite, access_type_load, write}
use pimprof.Pin.Count.{Machine, is_parallel, add_to, simd_multiplier}
use pimprof.Stats.{find_tag, put_tag}
use pimprof.Storage.Levels.{
  CacheSet, lru, find, replace, Counts, count_access, Level, Memory, Reused, add_mem_cost, charge,
  hit_cost, split_on_miss,
}
use pimprof.Storage.Access.{Accessed, access_single_line, access_memory, on_hit, on_miss}
use pimprof.Storage.Promotes.{access_single_line-promotes}
use pimprof.Storage.{
  replace_lru, drop_back, has_tag, RoundRobin, replace_round_robin, find_round_robin, find_lru,
  run_lru,
}
use pimprof.Storage.Inclusion.{first_tags, HitsToo, run_lru-HitsToo}
use pimprof.Storage.Survival.{run_round_robin, replace_round_robin-survives}

-- A new set seems to hold tag 0.
cold_hit : find_lru 0 (0 ∷ 0 ∷ []) ≡ (true, 0 ∷ 0 ∷ [])
unfolding find_lru
cold_hit = refl

-- Two lines against three, cold.
run_lru-HitsToo_example :
    (hits : List Bool) × (last : List ℕ) × (few_hits : List Bool) × (run_lru
        (5 ∷ 6 ∷ 7 ∷ 5 ∷ [])
        (0 ∷ 0 ∷ 0 ∷ [])
      ≡ some (hits, last))
    × (run_lru (5 ∷ 6 ∷ 7 ∷ 5 ∷ []) (first_tags 2 (0 ∷ 0 ∷ 0 ∷ []))
        ≡ some (few_hits, first_tags 2 last))
    × HitsToo few_hits hits
run_lru-HitsToo_example = run_lru-HitsToo 1 (5 ∷ 6 ∷ 7 ∷ 5 ∷ []) (0 ∷ 0 ∷ 0 ∷ []) (ground arith)

abbrev ring : RoundRobin
ring = record { tags = 0 ∷ 0 ∷ 0 ∷ []; next_replace = 2 }

replace_round_robin-survives_example :
    (s1 : RoundRobin) × (s2 : RoundRobin) × (replace_round_robin 5 ring ≡ some s1)
    × (run_round_robin (6 ∷ 7 ∷ []) s1 ≡ some s2)
    × (find_round_robin 5 s2 ≡ true)
replace_round_robin-survives_example =
    replace_round_robin-survives 5 (6 ∷ 7 ∷ []) ring (ground arith) (ground arith)

-- The line size of 64 bytes, and what the functions give at zero.
log2_of_line : (floor_log2 64 ≡ 6) × (ceil_log2 65 ≡ 7)
unfolding floor_log2 ceil_log2
log2_of_line = (refl, refl)

log2_of_zero : (floor_log2 0 ≡ u32_mod - 1) × (ceil_log2 0 ≡ 32) × (is_power2 0 ≡ true)
unfolding floor_log2 ceil_log2 is_power2
log2_of_zero = (refl, refl, refl)

floor_log2-bounds_example : (2 ^ floor_log2 100 ≤ 100) × (100 < 2 ^ suc (floor_log2 100))
floor_log2-bounds_example = floor_log2-bounds 100 (omega arith) (omega arith)

abbrev site : Machine ℕ
site = record { instruction_latency = []; simd_capability = 2; core_count = 4 }

abbrev zeros : Counts
zeros = record { load_hits = 0; load_misses = 0; store_hits = 0; store_misses = 0 }

-- An LRU cache of one set with two lines of 64 bytes, and a memory.
abbrev level : Level ℕ
level = record {
  is_first = true;
  sets = lru (0 ∷ 0 ∷ []) ∷ [];
  line_shift = 6;
  set_index_mask = 0;
  store_allocates = true;
  hitcost = record { on_cpu = 2; on_pim = 0 };
  access = zeros;
}

abbrev memory : Memory ℕ
memory = record { hitcost = record { on_cpu = 9; on_pim = 0 }; access = zeros }

abbrev costs : ℕ → PerSite (List ℕ)
costs n = record { on_cpu = n ∷ []; on_pim = 0 ∷ [] }

-- One thread, and one basic block that has cost `n` so far.
abbrev one_block : ℕ → List (ℕ × Segment) → Reused ℕ
one_block n segs = record {
  pkg = record {
    enable_roi = false;
    enable_roi_decision = false;
    bbl_hash = (record { first = 8; second = 9 }, 0) ∷ [];
    bbl_size = 1;
    in_accelerator_function = false;
    in_omp_parallel = pos 0;
    bbl_parallelizable = false ∷ [];
    thread_count = pos 1;
    thread_bbl_scope = (0 ∷ 0 ∷ []) ∷ [];
    thread_in_roi = true ∷ [];
    thread_in_roidecision = true ∷ [];
    previous_instr = 0 ∷ [];
    enter_roi_cnt = 0;
    exit_roi_cnt = 0;
    bbl_instruction_cost = costs 0;
    bbl_memory_cost = costs n;
    bbl_instruction_memory_cost = costs 0;
    roi_decision = [];
    requests = [];
  };
  tag_seg_map = segs;
  root = new_node;
  leaves = [];
}

-- A load that misses the cache.
abbrev loaded : Accessed ℕ
loaded = record {
  hit = false;
  levels =
      record level { sets = lru (2 ∷ 0 ∷ []) ∷ []; access = record zeros { load_misses = 1 } } ∷ [];
  bottom = some (record memory { access = record zeros { load_hits = 1 } });
  state = one_block 9 ((2, new_segment) ∷ []);
}

load_misses_cache :
    access_single_line
      (record { on_cpu = site; on_pim = site })
      128
      access_type_load
      0
      0
      (level ∷ [])
      (some memory)
      (one_block 0 [])
    ≡ some loaded
unfolding access_single_line access_memory on_miss split_on_miss find replace find_lru replace_lru
    drop_back has_tag count_access add_mem_cost charge hit_cost simd_multiplier is_parallel add_to
    write put_tag find_tag clear update_trie
load_misses_cache = refl

access_single_line-promotes_example :
    (m : Level ℕ) × (now : CacheSet) × (rest : List (Level ℕ)) × (loaded.levels ≡ m ∷ rest)
    × (get_elem? m.sets 0 ≡ some now)
    × ((find 2 now).0 ≡ true)
    × (access_single_line
          (record { on_cpu = site; on_pim = site })
          140
          access_type_load
          0
          0
          loaded.levels
          loaded.bottom
          (one_block 9 [])
        ≡ (on_hit
              (record { on_cpu = site; on_pim = site })
              2
              access_type_load
              0
              0
              m
              (one_block 9 [])
            >>= λ s3. some (record {
              hit = true;
              levels =
                  record m {
                    sets = set m.sets 0 (find 2 now).1;
                    access = count_access access_type_load true m.access;
                  }
                  ∷ rest;
              bottom = loaded.bottom;
              state = s3;
            })))
access_single_line-promotes_example =
    access_single_line-promotes (record { on_cpu = site; on_pim = site }) 128 140 0 0 0 0
      access_type_load level [] (some memory) (one_block 0 []) (one_block 9 []) loaded
      load_misses_cache refl
