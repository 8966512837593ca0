-- ===== src/Storage/Levels.antt =====
-- Storage.cpp: the kinds of levels and what a hit or a miss adds to the package. `none` is a failed
-- assertion or an access out of bounds. PIMPROF_MPKI is not defined.
use Prim.Native.Nat.{bit_and}
use pimprof.Base.{
  ℕ, ◌+◌, ◌/◌, ◌%◌, ◌^◌, Bool, true, false, List, Option, some, ltb, ◌==◌, if◌then◌else◌, ◌>>=◌,
  u64_mod, Double,
}
use pimprof.Common.{BblId}
use pimprof.DataReuse.Segment.{Segment, insert, clear, set_count}
use pimprof.DataReuse.Trie.{TrieNode, LeafRef, update_trie}
use pimprof.Stats.{find_tag, put_tag, seg_or_new}
use pimprof.Pin.{Package, PerSite, AccessType, access_type_load, access_type_store}
use pimprof.Pin.Count.{Machine, threads, simd_multiplier, is_parallel, add_to}
use pimprof.Storage.{
  DirectMapped, RoundRobin, find_direct, replace_direct, find_round_robin, replace_round_robin,
  find_lru, replace_lru,
}

-- `CACHE_SET`, one of its three kinds
pub data CacheSet : Type 0 where
  direct_mapped : DirectMapped → CacheSet
  round_robin : RoundRobin → CacheSet
  lru : List ℕ → CacheSet

-- `Find`: whether the tag is there, and the set afterwards
unfoldable pub find : ℕ → CacheSet → Bool × CacheSet
unfolding find_direct find_round_robin find_lru
find tagaddr (direct_mapped s) = (find_direct tagaddr s, direct_mapped s)
find tagaddr (round_robin s) = (find_round_robin tagaddr s, round_robin s)
find tagaddr (lru tags) = let found = find_lru tagaddr tags in (found.0, lru found.1)

-- `Replace`
unfoldable pub replace : ℕ → CacheSet → Option CacheSet
unfolding replace_direct replace_round_robin replace_lru
replace tagaddr (direct_mapped s) = some (direct_mapped (replace_direct tagaddr s))
replace tagaddr (round_robin s) = replace_round_robin tagaddr s >>= λ t. some (round_robin t)
replace tagaddr (lru tags) = replace_lru tagaddr tags >>= λ t. some (lru t)

-- `_access[accessType][hit]`
pub record Counts : Type 0 where
  pub load_hits : ℕ
  pub load_misses : ℕ
  pub store_hits : ℕ
  pub store_misses : ℕ

unfoldable pub count_access : AccessType → Bool → Counts → Counts
count_access access_type_load true c = record c { load_hits = (c.load_hits + 1) % u64_mod }
count_access access_type_load false c = record c { load_misses = (c.load_misses + 1) % u64_mod }
count_access access_type_store true c = record c { store_hits = (c.store_hits + 1) % u64_mod }
count_access access_type_store false c = record c { store_misses = (c.store_misses + 1) % u64_mod }

-- `CACHE_LEVEL`; `is_first` is `_storage_level == 0`.
pub record Level {ℓ} (C : Type ℓ) : Type ℓ where
  pub is_first : Bool
  pub sets : List CacheSet
  pub line_shift : ℕ
  pub set_index_mask : ℕ
  pub store_allocates : Bool
  pub hitcost : PerSite C
  pub access : Counts

-- `MEMORY_LEVEL`
pub record Memory {ℓ} (C : Type ℓ) : Type ℓ where
  pub hitcost : PerSite C
  pub access : Counts

-- The package, with its segments by tag and its trie of segments
pub record Reused {ℓ} (C : Type ℓ) : Type ℓ where
  pub pkg : Package C
  pub tag_seg_map : List (ℕ × Segment)
  pub root : TrieNode
  pub leaves : List LeafRef

-- `SplitAddress`: the tag and the index of the set
abbrev pub tag_of : ℕ → ℕ → ℕ
tag_of line_shift addr = addr / 2 ^ line_shift

abbrev pub set_index_of : ℕ → ℕ → ℕ
set_index_of mask tagaddr = bit_and tagaddr mask

-- `if (threadcount > seg.getCount()) seg.setCount(threadcount)`
unfoldable pub raise_count : ℕ → Segment → Segment
unfolding set_count
raise_count count seg = if ltb seg.count count then set_count count seg else seg

abbrev pub is_load : AccessType → Bool
is_load access_type_load = true
is_load access_type_store = false

module _ {ℓ} {C : Type ℓ} ⦃d : Double C⦄ where
  open d use {nought, of_count, add, mul, div, lt}

  -- `InsertOnHit`
  unfoldable pub insert_on_hit : ℕ → AccessType → BblId → Reused C → Option (Reused C)
  unfolding find_tag put_tag insert clear raise_count update_trie
  insert_on_hit tag access_type bblid s = do
    let count = threads s.pkg.thread_count
    let seg = raise_count count (insert bblid (seg_or_new (find_tag tag s.tag_seg_map)))
    (root, leaves) ←
        if is_load access_type then some (s.root, s.leaves) else update_trie 0 s.root seg s.leaves
    let kept = if is_load access_type then seg else raise_count count (insert bblid (clear seg))
    some (record s { tag_seg_map = put_tag tag kept s.tag_seg_map; root = root; leaves = leaves })

  -- `SplitOnMiss`
  unfoldable pub split_on_miss : ℕ → Reused C → Option (Reused C)
  unfolding find_tag put_tag clear update_trie
  split_on_miss tag s = do
    let seg = seg_or_new (find_tag tag s.tag_seg_map)
    (root, leaves) ← update_trie 0 s.root seg s.leaves
    some (record s {
      tag_seg_map = put_tag tag (clear seg) s.tag_seg_map;
      root = root;
      leaves = leaves;
    })

  -- The cost of a hit on a site.
  unfoldable pub hit_cost : Machine C → C → ℕ → ℕ → Option C
  unfolding simd_multiplier
  hit_cost m hitcost count simd_len = do
    let cost = mul hitcost (of_count count)
    multiplier ← simd_multiplier m.simd_capability simd_len
    some (
        if simd_len == 0
        then cost
        else div (mul cost (of_count multiplier)) (of_count m.core_count))

  module _ (machine : PerSite (Machine C)) where
    -- What a hit adds to a table of costs.
    unfoldable pub charge :
        PerSite C → BblId → ℕ → Package C → PerSite (List C) → Option (PerSite (List C))
    unfolding hit_cost is_parallel add_to
    charge hitcost bblid simd_len p costs = do
      parallel ← is_parallel simd_len bblid p
      let effective = if parallel then 1 else simd_len
      cpu_cost ← hit_cost machine.on_cpu hitcost.on_cpu (threads p.thread_count) effective
      cpu_costs ← add_to costs.on_cpu bblid cpu_cost
      pim_cost ← hit_cost machine.on_pim hitcost.on_pim (threads p.thread_count) effective
      pim_costs ← add_to costs.on_pim bblid pim_cost
      some (record { on_cpu = cpu_costs; on_pim = pim_costs })

    -- `AddMemCost`
    unfoldable pub add_mem_cost : PerSite C → BblId → ℕ → Reused C → Option (Reused C)
    unfolding charge
    add_mem_cost hitcost bblid simd_len s =
        charge hitcost bblid simd_len s.pkg s.pkg.bbl_memory_cost >>= λ costs.
        some (record s { pkg = record (s.pkg) { bbl_memory_cost = costs } })

    -- `AddInstructionMemCost`
    unfoldable pub add_instruction_mem_cost : PerSite C → BblId → ℕ → Reused C → Option (Reused C)
    unfolding charge
    add_instruction_mem_cost hitcost bblid simd_len s =
        charge hitcost bblid simd_len s.pkg s.pkg.bbl_instruction_memory_cost >>= λ costs.
        some (record s { pkg = record (s.pkg) { bbl_instruction_memory_cost = costs } })

    -- A hit in a cache level.
    unfoldable pub add_hit_costs : Level C → BblId → ℕ → Reused C → Option (Reused C)
    unfolding add_mem_cost add_instruction_mem_cost
    add_hit_costs l bblid simd_len s = do
      s1 ← add_mem_cost l.hitcost bblid simd_len s
      if l.is_first then add_instruction_mem_cost l.hitcost bblid simd_len s1 else some s1
