-- ===== src/Stats.antt =====
-- PIMProfSolver/Stats.h: what one thread of the simulated program collects. A `RunStats *` is an
-- address, the index of the object in `heap`; `none` is a failed assertion or an access to an empty
-- vector.
pub mod Merge
pub mod Nesting
pub mod Segments
pub mod Steps
pub mod Table
mod Tests
use pimprof.Base.{
  ℕ, suc, ◌+◌, ◌%◌, Bool, true, false, not, ◌&&◌, List, [], ◌∷◌, ◌++◌, Option, none, some, length,
  get_elem?, set, ◌==◌, if◌then◌else◌, ◌>>=◌, ◌>>◌, assert_that, u64_mod, Double,
}
use pimprof.Common.{Uuid, uuid_eq, global_bblhash}
use pimprof.DataReuse.Segment.{Segment, new_segment, insert, clear, set_count}
use pimprof.DataReuse.Switch as Switch
use pimprof.DataReuse.Switch.{Matrix, new_matrix}
use pimprof.DataReuse.Trie.{TrieNode, new_node, LeafRef, update_trie}
use pimprof.Solver.RunStats.{RunStats}

-- The vectors stand with their back first.
pub record ThreadStats {ℓ} (C : Type ℓ) : Type ℓ where
  pub pim_time : C
  pub switch_cpu2pim : ℕ
  pub switch_pim2cpu : ℕ
  pub using_pim : List Bool
  pub current_bblstats : List ℕ
  pub last_begin_bblstats : ℕ
  pub bbl_hash2stats : List (Uuid × ℕ)
  pub heap : List (RunStats C)
  pub bbl_switch_count : Matrix
  pub tag2seg : List (ℕ × Segment)
  pub root : TrieNode
  pub leaves : List LeafRef

unfoldable pub find_hash : Uuid → List (Uuid × ℕ) → Option ℕ
unfolding uuid_eq
find_hash u [] = none
find_hash u ((v, a) ∷ rest) = if uuid_eq v u then some a else find_hash u rest

unfoldable pub find_tag : ℕ → List (ℕ × Segment) → Option Segment
find_tag tag [] = none
find_tag tag ((j, seg) ∷ rest) = if j == tag then some seg else find_tag tag rest

-- The segment of a tag, written through its pointer.
unfoldable pub put_tag : ℕ → Segment → List (ℕ × Segment) → List (ℕ × Segment)
put_tag tag seg [] = (tag, seg) ∷ []
put_tag tag seg ((j, old) ∷ rest) =
    if j == tag then (j, seg) ∷ rest else (j, old) ∷ put_tag tag seg rest

-- `vector::back()`
abbrev pub back {ℓ} : {A : Type ℓ} → List A → Option A
back [] = none
back (x ∷ xs) = some x

-- `vector::pop_back()`
abbrev pub pop_back {ℓ} : {A : Type ℓ} → List A → Option (List A)
pop_back [] = none
pop_back (x ∷ xs) = some xs

-- `type == PIMPROF_DECISION_PIM`
abbrev pub is_pim : ℕ → Bool
is_pim type = type == 1

abbrev pub bool_eq : Bool → Bool → Bool
bool_eq true b = b
bool_eq false b = not b

abbrev pub seg_or_new : Option Segment → Segment
seg_or_new none = new_segment
seg_or_new (some seg) = seg

module _ {ℓ} {C : Type ℓ} ⦃d : Double C⦄ where
  open d use {nought, of_count, add, div}

  -- `RunStats(GLOBAL_BBLID, bblhash)`
  abbrev pub new_run_stats : Uuid → RunStats C
  new_run_stats bblhash = record {
    bblid = 0;
    bblhash = bblhash;
    elapsed_time = nought;
    instruction_count = 0;
    memory_access = 0;
  }

  -- The constructor: the statistics of the code outside any basic block are at address 0, and those
  -- that `last_begin_bblstats` points to at first are at address 1, outside the table.
  unfoldable pub new_thread : ThreadStats C
  new_thread = record {
    pim_time = nought;
    switch_cpu2pim = 0;
    switch_pim2cpu = 0;
    using_pim = false ∷ [];
    current_bblstats = 0 ∷ [];
    last_begin_bblstats = 1;
    bbl_hash2stats = (global_bblhash, 0) ∷ [];
    heap = new_run_stats global_bblhash ∷ new_run_stats global_bblhash ∷ [];
    bbl_switch_count = new_matrix;
    tag2seg = [];
    root = new_node;
    leaves = [];
  }

  -- The statistics of a basic block, created at its first start: their address, and the thread.
  unfoldable pub enter : Uuid → ThreadStats C → ℕ × ThreadStats C
  unfolding find_hash
  enter bblhash t = elim (find_hash bblhash t.bbl_hash2stats) [
    | some a ↦ (a, t)
    | none ↦ (
      length t.heap,
      record t {
        bbl_hash2stats = (bblhash, length t.heap) ∷ t.bbl_hash2stats;
        heap = t.heap ++ (new_run_stats bblhash ∷ []);
      },
    )
  ]

  -- `BBLStart`
  unfoldable pub bbl_start : ℕ → ℕ → ThreadStats C → Option (ThreadStats C)
  unfolding enter
  bbl_start hi lo t = do
    prev_back ← back t.current_bblstats
    let entered = enter (record { first = hi; second = lo }) t
    counted ← Switch.insert t.last_begin_bblstats entered.0 1 t.bbl_switch_count
    some (record (entered.1) {
      current_bblstats = entered.0 ∷ t.current_bblstats;
      bbl_switch_count = counted;
      last_begin_bblstats = entered.0;
    })

  -- `GetCurrentBBLHash`
  unfoldable pub get_current_bbl_hash : ThreadStats C → Option Uuid
  get_current_bbl_hash t = do
    a ← back t.current_bblstats
    stats ← get_elem? t.heap a
    some stats.bblhash

  -- `BBLEnd`
  unfoldable pub bbl_end : ℕ → ℕ → ThreadStats C → Option (ThreadStats C)
  unfolding get_current_bbl_hash uuid_eq
  bbl_end hi lo t = do
    current ← get_current_bbl_hash t
    assert_that (uuid_eq (record { first = hi; second = lo }) current)
    rest ← pop_back t.current_bblstats
    some (record t { current_bblstats = rest })

  -- The counters of the switches between the sites.
  unfoldable pub count_switch : Bool → Bool → ThreadStats C → ThreadStats C
  count_switch prev_back now t =
      if prev_back && not now
      then record t { switch_pim2cpu = t.switch_pim2cpu + 1 }
      else if not prev_back && now
      then record t { switch_cpu2pim = t.switch_cpu2pim + 1 }
      else t

  -- `OffloadStart`
  unfoldable pub offload_start : ℕ → ℕ → ThreadStats C → Option (ThreadStats C)
  unfolding count_switch bbl_start
  offload_start hi type t = do
    prev_back ← back t.using_pim
    bbl_start hi 0
        (count_switch prev_back (is_pim type) (record t { using_pim = is_pim type ∷ t.using_pim }))

  -- `OffloadEnd`
  unfoldable pub offload_end : ℕ → ℕ → ThreadStats C → Option (ThreadStats C)
  unfolding count_switch bbl_end
  offload_end hi type t = do
    prev_back ← back t.using_pim
    assert_that (bool_eq prev_back (is_pim type))
    rest ← pop_back t.using_pim
    now ← back rest
    bbl_end hi 0 (count_switch prev_back now (record t { using_pim = rest }))

  -- `(COST)time / 1e6`
  abbrev pub femto_to_nano : ℕ → C
  femto_to_nano time = div (of_count time) (of_count 1_000_000)

  -- The object at an address, changed in place.
  unfoldable pub modify : ℕ → (RunStats C → RunStats C) → ThreadStats C → Option (ThreadStats C)
  modify a f t = do stats ← get_elem? t.heap a; some (record t { heap = set t.heap a (f stats) })

  -- `AddTimeInstruction`
  unfoldable pub add_time_instruction : ℕ → ℕ → ThreadStats C → Option (ThreadStats C)
  unfolding modify
  add_time_instruction time instr t = do
    a ← back t.current_bblstats
    modify a
        (λ stats. record stats {
          elapsed_time = add stats.elapsed_time (femto_to_nano time);
          instruction_count = (stats.instruction_count + instr) % u64_mod;
        })
        t

  -- `AddMemory`
  unfoldable pub add_memory : ℕ → ThreadStats C → Option (ThreadStats C)
  unfolding modify
  add_memory memory_access t = do
    a ← back t.current_bblstats
    modify a
        (λ stats. record stats { memory_access = (stats.memory_access + memory_access) % u64_mod })
        t

  -- `AddOffloadingTime`
  unfoldable pub add_offloading_time : ℕ → ThreadStats C → ThreadStats C
  add_offloading_time time t = record t { pim_time = add t.pim_time (femto_to_nano time) }

  -- `InsertSegOnHit`
  unfoldable pub insert_seg_on_hit : ℕ → Bool → ThreadStats C → Option (ThreadStats C)
  unfolding find_tag put_tag insert clear set_count update_trie
  insert_seg_on_hit tag is_store t = do
    bblstats ← back t.current_bblstats
    let seg = set_count 1 (insert bblstats (seg_or_new (find_tag tag t.tag2seg)))
    (root, leaves) ← if is_store then update_trie 0 t.root seg t.leaves else some (t.root, t.leaves)
    let seg' = if is_store then set_count 1 (insert bblstats (clear seg)) else seg
    some (record t { tag2seg = put_tag tag seg' t.tag2seg; root = root; leaves = leaves })

  -- `SplitSegOnMiss`
  unfoldable pub split_seg_on_miss : ℕ → ThreadStats C → Option (ThreadStats C)
  unfolding find_tag put_tag clear update_trie
  split_seg_on_miss tag t = elim (find_tag tag t.tag2seg) [
    | none ↦ some t
    | some seg ↦ do
      (root, leaves) ← update_trie 0 t.root seg t.leaves
      some (record t { tag2seg = put_tag tag (clear seg) t.tag2seg; root = root; leaves = leaves })
  ]
