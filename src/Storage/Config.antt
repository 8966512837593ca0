-- ===== src/Storage/Config.antt =====
-- Storage.cpp: the constructor of a cache level, and how `ReadConfig` puts the levels of a site
-- together from what the configuration reader returns. `none` is a failed assertion.
use pimprof.Base.{
  ℕ, zero, suc, ◌+◌, ◌-◌, ◌*◌, ◌/◌, ◌%◌, Bool, true, false, not, ◌&&◌, List, [], ◌∷◌, Option, none,
  some, replicate, ◌==◌, ◌>>=◌, ◌>>◌, assert_that, u32_mod, Double,
}
use pimprof.Pin.{PerSite}
use pimprof.Storage.{new_direct, new_round_robin, new_lru}
use pimprof.Storage.Log2.{is_power2, floor_log2}
use pimprof.Storage.Levels.{CacheSet, direct_mapped, round_robin, lru, Counts, Level, Memory}

-- The names of the policies; any other name fails.
pub data Policy : Type 0 where
  direct_mapped_policy round_robin_policy lru_policy other_policy : Policy

unfoldable pub new_set : Policy → ℕ → Option CacheSet
unfolding new_direct new_round_robin new_lru
new_set direct_mapped_policy associativity =
    new_direct associativity >>= λ s. some (direct_mapped s)
new_set round_robin_policy associativity =
    new_round_robin associativity >>= λ s. some (round_robin s)
new_set lru_policy associativity = new_lru associativity >>= λ s. some (lru s)
new_set other_policy associativity = none

-- The sets of a level; without any, only the name of the policy is checked.
unfoldable pub new_sets : Policy → ℕ → ℕ → Option (List CacheSet)
unfolding new_set
new_sets other_policy count associativity = none
new_sets policy zero associativity = some []
new_sets policy (suc more) associativity =
    new_set policy associativity >>= λ s. some (replicate (suc more) s)

abbrev no_counts : Counts
no_counts = record { load_hits = 0; load_misses = 0; store_hits = 0; store_misses = 0 }

-- What `ReadConfig` reads for a cache level, as 32-bit words.
pub record LevelConfig {ℓ} (C : Type ℓ) : Type ℓ where
  pub linesize : ℕ
  pub cachesize : ℕ
  pub associativity : ℕ
  pub allocation : ℕ
  pub policy : Policy
  pub hitcost : C

-- The storage of a site: the tops of `_storage_top`, and what is below them. Where a site has an
-- instruction cache only, nothing connects it to the memory.
pub data SiteStorage {ℓ} (C : Type ℓ) : Type ℓ where
  no_caches : Memory C → SiteStorage C
  instruction_cache_only : Level C → Memory C → SiteStorage C
  split_caches : (il1 dl1 : Level C) → (unified : List (Level C)) → Memory C → SiteStorage C

-- `STORAGE`: both sites, with the line that each fetched last.
pub record Storage {ℓ} (C : Type ℓ) : Type ℓ where
  pub sites : PerSite (SiteStorage C)
  pub last_icacheline : PerSite ℕ

module _ {ℓ} {C : Type ℓ} where
  -- `CACHE_LEVEL()`; a line or an associativity of size 0 is a division by zero.
  unfoldable pub new_level : Bool → PerSite C → LevelConfig C → Option (Level C)
  unfolding is_power2 floor_log2 new_sets
  new_level is_first hitcost c = do
    let line_bytes = (c.associativity * c.linesize) % u32_mod
    assert_that (not (line_bytes == 0))
    let mask = (c.cachesize / line_bytes + u32_mod - 1) % u32_mod
    assert_that (is_power2 c.linesize)
    assert_that (is_power2 ((mask + 1) % u32_mod))
    sets ← new_sets c.policy ((mask + 1) % u32_mod) c.associativity
    some (record {
      is_first = is_first;
      sets = sets;
      line_shift = floor_log2 c.linesize;
      set_index_mask = mask;
      store_allocates = c.allocation == 0;
      hitcost = hitcost;
      access = no_counts;
    })

  -- The connections by the number of levels that were found.
  unfoldable pub connect : List (Level C) → Memory C → SiteStorage C
  connect [] m = no_caches m
  connect (il1 ∷ []) m = instruction_cache_only il1 m
  connect (il1 ∷ dl1 ∷ unified) m = split_caches il1 dl1 unified m

  -- All line sizes are that of the first level.
  unfoldable pub same_line_size : ℕ → List (LevelConfig C) → Bool
  same_line_size line_size [] = true
  same_line_size line_size (c ∷ rest) = c.linesize == line_size && same_line_size line_size rest

  -- The first line size that is read, of either site.
  unfoldable pub global_line_size : List (LevelConfig C) → List (LevelConfig C) → ℕ
  global_line_size [] [] = 0
  global_line_size [] (c ∷ rest) = c.linesize
  global_line_size (c ∷ rest) configs = c.linesize

module _ {ℓ} {C : Type ℓ} ⦃d : Double C⦄ where
  open d use {nought, le}

  -- The levels of a site in the order of the file; `place` puts a cost at the site, and 0 at the other.
  unfoldable pub new_levels :
      (C → PerSite C) → Bool → List (LevelConfig C) → Option (List (Level C))
  unfolding new_level
  new_levels place is_first [] = some []
  new_levels place is_first (c ∷ rest) = do
    assert_that (le nought c.hitcost)
    l ← new_level is_first (place c.hitcost) c
    ls ← new_levels place false rest
    some (l ∷ ls)

  -- The part of `ReadConfig` for one site.
  unfoldable pub read_site : (C → PerSite C) → ℕ → List (LevelConfig C) → C → Option (SiteStorage C)
  unfolding same_line_size new_levels connect
  read_site place line_size configs memory_cost = do
    assert_that (same_line_size line_size configs)
    levels ← new_levels place true configs
    assert_that (le nought memory_cost)
    some (connect levels (record { hitcost = place memory_cost; access = no_counts }))

  -- `STORAGE()` and `ReadConfig`, with the levels whose five attributes the reader returns. A missing
  -- attribute fails before.
  unfoldable pub read_config : PerSite (List (LevelConfig C)) → PerSite C → Option (Storage C)
  unfolding read_site global_line_size
  read_config configs memory_costs = do
    let line_size = global_line_size configs.on_cpu configs.on_pim
    cpu_site ←
        read_site (λ c. record { on_cpu = c; on_pim = nought }) line_size configs.on_cpu
          memory_costs.on_cpu
    pim_site ←
        read_site (λ c. record { on_cpu = nought; on_pim = c }) line_size configs.on_pim
          memory_costs.on_pim
    some (record {
      sites = record { on_cpu = cpu_site; on_pim = pim_site };
      last_icacheline = record { on_cpu = 0; on_pim = 0 };
    })
