-- ===== src/Storage/Access.antt =====
-- Storage.cpp: an access along a chain of levels, from the level that it comes to down to the last
-- cache; below it is the memory, or nothing where `_next_level` was not set. `none` is a failed
-- assertion or an access out of bounds.
use pimprof.Base.{
  ℕ, zero, suc, ◌+◌, ◌*◌, ◌/◌, ◌%◌, Bool, true, false, ◌&&◌, ◌||◌, List, [], ◌∷◌, Option, none,
  some, get_elem?, set, ltb, if◌then◌else◌, ◌>>=◌, u64_mod, Double,
}
use pimprof.Common.{BblId}
use pimprof.Pin.{PerSite, AccessType}
use pimprof.Pin.Count.{Machine}
use pimprof.Storage.Levels.{
  CacheSet, find, replace, count_access, Level, Memory, Reused, tag_of, set_index_of, is_load,
  add_mem_cost, add_hit_costs, insert_on_hit, split_on_miss,
}

-- What an access leaves behind.
pub record Accessed {ℓ} (C : Type ℓ) : Type ℓ where
  pub hit : Bool
  pub levels : List (Level C)
  pub bottom : Option (Memory C)
  pub state : Reused C

abbrev pub is_last {ℓ} : {A : Type ℓ} → List A → Bool
is_last [] = true
is_last (x ∷ xs) = false

-- A level after an access: its set and its counts.
abbrev pub updated {ℓ} : {C : Type ℓ} → ℕ → CacheSet → AccessType → Bool → Level C → Level C
updated index now access_type hit l = record l {
  sets = set l.sets index now;
  access = count_access access_type hit l.access;
}

module _ {ℓ} {C : Type ℓ} ⦃d : Double C⦄ where
  open d use {nought, lt}

  -- `_hitcost[CPU] > 0`
  abbrev pub is_cpu_level : Level C → Bool
  is_cpu_level l = lt nought l.hitcost.on_cpu

  -- What a level does on a miss before it goes to the next one, which is the memory if it is the last.
  unfoldable pub on_miss : Bool → ℕ → Level C → Reused C → Option (Reused C)
  unfolding split_on_miss
  on_miss last tagaddr l s = if last && is_cpu_level l then split_on_miss tagaddr s else some s

module _ {ℓ} {C : Type ℓ} ⦃d : Double C⦄ (machine : PerSite (Machine C)) where
  -- `MEMORY_LEVEL::AccessSingleLine`
  unfoldable pub access_memory : AccessType → BblId → ℕ → Memory C → Reused C → Option (Accessed C)
  unfolding add_mem_cost count_access
  access_memory access_type bblid simd_len m s =
      add_mem_cost machine m.hitcost bblid simd_len s >>= λ s1. some (record {
        hit = true;
        levels = [];
        bottom = some (record m { access = count_access access_type true m.access });
        state = s1;
      })

  -- What a level does on a hit.
  unfoldable pub on_hit : ℕ → AccessType → BblId → ℕ → Level C → Reused C → Option (Reused C)
  unfolding add_hit_costs insert_on_hit
  on_hit tagaddr access_type bblid simd_len l s = do
    s1 ← add_hit_costs machine l bblid simd_len s
    if is_cpu_level l then insert_on_hit tagaddr access_type bblid s1 else some s1

  -- `CACHE_LEVEL::AccessSingleLine` along a chain of levels. `bottom` is `none` where the last level
  -- has no next one.
  unfoldable pub access_single_line :
      ℕ
      → AccessType
      → BblId
      → ℕ
      → List (Level C)
      → Option (Memory C)
      → Reused C
      → Option (Accessed C)
  unfolding access_memory find replace on_hit on_miss count_access
  access_single_line addr access_type bblid simd_len [] none s = none
  access_single_line addr access_type bblid simd_len [] (some m) s =
      access_memory access_type bblid simd_len m s
  access_single_line addr access_type bblid simd_len (l ∷ next) bottom s = do
    let tagaddr = tag_of l.line_shift addr
    let index = set_index_of l.set_index_mask tagaddr
    before ← get_elem? l.sets index
    let found = find tagaddr before
    elim found.0 [
      | true ↦
          (on_hit tagaddr access_type bblid simd_len l s >>= λ s1. some (record {
            hit = true;
            levels = updated index found.1 access_type true l ∷ next;
            bottom = bottom;
            state = s1;
          }))
      | false ↦
          if is_load access_type || l.store_allocates
          then (do
            now ← replace tagaddr found.1
            s1 ← on_miss (is_last next) tagaddr l s
            r ← access_single_line addr access_type bblid simd_len next bottom s1
            some (record r {
              hit = false;
              levels = updated index now access_type false l ∷ r.levels;
            }))
          else some (record {
            hit = false;
            levels = updated index found.1 access_type false l ∷ next;
            bottom = bottom;
            state = s;
          })
    ]

  -- `CACHE_LEVEL::Access`: the lines from that of `addr` on, up to `high`. Every round starts one line
  -- later; the line size is a power of 2, so that its mask is a division. The loop is given as many
  -- rounds as `fuel`.
  unfoldable pub access_lines :
      ℕ
      → ℕ
      → ℕ
      → ℕ
      → AccessType
      → BblId
      → ℕ
      → List (Level C)
      → Option (Memory C)
      → Reused C
      → Option (Accessed C)
  unfolding access_single_line
  access_lines zero line_size addr high access_type bblid simd_len levels bottom s = none
  access_lines (suc fuel) line_size addr high access_type bblid simd_len levels bottom s = do
    r ← access_single_line addr access_type bblid simd_len levels bottom s
    let next = (addr / line_size * line_size + line_size) % u64_mod
    let later =
        access_lines fuel line_size next high access_type bblid simd_len r.levels r.bottom r.state
    if ltb next high then (later >>= λ q. some (record q { hit = r.hit && q.hit })) else some r

  unfoldable pub access_all :
      ℕ
      → ℕ
      → ℕ
      → ℕ
      → AccessType
      → BblId
      → ℕ
      → List (Level C)
      → Option (Memory C)
      → Reused C
      → Option (Accessed C)
  unfolding access_lines
  access_all fuel line_size addr size access_type bblid simd_len levels bottom s =
      access_lines fuel line_size addr ((addr + size) % u64_mod) access_type bblid simd_len levels
        bottom s
