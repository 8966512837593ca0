-- ===== src/Storage/Hierarchy.antt =====
-- Storage.cpp: the storage of both sites and the references of the Pin tool to it. `none` is a failed
-- assertion, an access out of bounds, or the use of a memory as a cache.
use pimprof.Base.{
  ℕ, ◌+◌, ◌*◌, ◌/◌, ◌%◌, Bool, true, false, List, [], ◌∷◌, Option, none, some, leb, ◌==◌,
  if◌then◌else◌, ◌>>=◌, ◌>>◌, assert_that, u64_mod, Double,
}
use pimprof.Common.{BblId}
use pimprof.Pin.{PerSite, AccessType, access_type_load, Request, fetch, reference}
use pimprof.Pin.Count.{Machine}
use pimprof.Storage.Levels.{Reused}
use pimprof.Storage.Access.{access_single_line, access_all}
use pimprof.Storage.Config.{Storage, SiteStorage, no_caches, instruction_cache_only, split_caches}

-- The level that was accessed, and those below it.
abbrev first_level {ℓ} : {A : Type ℓ} → List A → Option (A × List A)
first_level [] = none
first_level (x ∷ rest) = some (x, rest)

-- Whether the top of the instruction side is a cache, whose line size is then read.
abbrev pub has_instruction_cache {ℓ} : {C : Type ℓ} → SiteStorage C → Bool
has_instruction_cache (no_caches m) = false
has_instruction_cache (instruction_cache_only il1 m) = true
has_instruction_cache (split_caches il1 dl1 unified m) = true

module _ {ℓ} {C : Type ℓ} ⦃d : Double C⦄ (machine : PerSite (Machine C)) where
  -- An access of one line by the instruction side, and the storage afterwards.
  unfoldable pub fetch_line :
      ℕ → BblId → ℕ → SiteStorage C → Reused C → Option (SiteStorage C × Reused C)
  unfolding access_single_line
  fetch_line addr bblid simd_len (no_caches m) s = none
  fetch_line addr bblid simd_len (instruction_cache_only il1 m) s = do
    r ← access_single_line machine addr access_type_load bblid simd_len (il1 ∷ []) none s
    (l, _) ← first_level r.levels
    some (instruction_cache_only l m, r.state)
  fetch_line addr bblid simd_len (split_caches il1 dl1 unified m) s = do
    r ← access_single_line machine addr access_type_load bblid simd_len (il1 ∷ unified) (some m) s
    (l, below) ← first_level r.levels
    memory ← r.bottom
    some (split_caches l dl1 below memory, r.state)

  -- `InstrCacheRef` for one site, whose last line was `last_line`.
  unfoldable pub instr_cache_ref_site :
      ℕ → ℕ → ℕ → BblId → ℕ → ℕ → SiteStorage C → Reused C → Option (ℕ × SiteStorage C × Reused C)
  unfolding fetch_line
  instr_cache_ref_site line_size addr size bblid simd_len last_line site s =
      let cur_line = addr / line_size * line_size in
      let next_line = (cur_line + line_size) % u64_mod in
      let spans = leb next_line ((addr + size) % u64_mod) in
      let only_next =
        fetch_line next_line bblid simd_len site s >>= λ r. some (next_line, r.0, r.1) in
      let only_current =
        fetch_line cur_line bblid simd_len site s >>= λ r. some (cur_line, r.0, r.1) in
      let both = fetch_line cur_line bblid simd_len site s >>= λ r.
      fetch_line next_line bblid simd_len r.0 r.1 >>= λ q. some (next_line, q.0, q.1) in
      assert_that (has_instruction_cache site)
      >> (if cur_line == last_line
          then if spans then only_next else some (last_line, site, s)
          else if spans
          then both
          else only_current)

  -- `DataCacheRef` for one site, with fuel for its loop over the lines; a memory has lines of 64 bytes.
  unfoldable pub data_cache_ref_site :
      ℕ
      → ℕ
      → ℕ
      → ℕ
      → AccessType
      → BblId
      → ℕ
      → SiteStorage C
      → Reused C
      → Option (SiteStorage C × Reused C)
  unfolding access_all
  data_cache_ref_site fuel line_size addr size access_type bblid simd_len (no_caches m) s = do
    r ← access_all machine fuel 64 addr size access_type bblid simd_len [] (some m) s
    memory ← r.bottom
    some (no_caches memory, r.state)
  data_cache_ref_site fuel line_size addr size access_type bblid simd_len
        (instruction_cache_only il1 m) s =
      do
        r ← access_all machine fuel 64 addr size access_type bblid simd_len [] (some m) s
        memory ← r.bottom
        some (instruction_cache_only il1 memory, r.state)
  data_cache_ref_site fuel line_size addr size access_type bblid simd_len
        (split_caches il1 dl1 unified m) s =
      do
        r ←
            access_all machine fuel line_size addr size access_type bblid simd_len (dl1 ∷ unified)
              (some m) s
        (l, below) ← first_level r.levels
        memory ← r.bottom
        some (split_caches il1 l below memory, r.state)

  -- `STORAGE::InstrCacheRef`
  unfoldable pub storage_instr_cache_ref :
      ℕ → ℕ → ℕ → BblId → ℕ → Storage C → Reused C → Option (Storage C × Reused C)
  unfolding instr_cache_ref_site
  storage_instr_cache_ref line_size addr size bblid simd_len st s = do
    (cpu_line, cpu_site, s1) ←
        instr_cache_ref_site line_size addr size bblid simd_len st.last_icacheline.on_cpu
          st.sites.on_cpu s
    (pim_line, pim_site, s2) ←
        instr_cache_ref_site line_size addr size bblid simd_len st.last_icacheline.on_pim
          st.sites.on_pim s1
    some (
      record {
        sites = record { on_cpu = cpu_site; on_pim = pim_site };
        last_icacheline = record { on_cpu = cpu_line; on_pim = pim_line };
      },
      s2,
    )

  -- `STORAGE::DataCacheRef`
  unfoldable pub storage_data_cache_ref :
      ℕ → ℕ → ℕ → ℕ → AccessType → BblId → ℕ → Storage C → Reused C → Option (Storage C × Reused C)
  unfolding data_cache_ref_site
  storage_data_cache_ref fuel line_size addr size access_type bblid simd_len st s = do
    (cpu_site, s1) ←
        data_cache_ref_site fuel line_size addr size access_type bblid simd_len st.sites.on_cpu s
    (pim_site, s2) ←
        data_cache_ref_site fuel line_size addr size access_type bblid simd_len st.sites.on_pim s1
    some (record st { sites = record { on_cpu = cpu_site; on_pim = pim_site } }, s2)

  -- A call that the Pin tool makes of the storage.
  unfoldable pub answer : ℕ → ℕ → Request → Storage C → Reused C → Option (Storage C × Reused C)
  unfolding storage_instr_cache_ref storage_data_cache_ref
  answer fuel line_size (fetch addr size bblid simd_len) st s =
      storage_instr_cache_ref line_size addr size bblid simd_len st s
  answer fuel line_size (reference ip addr size access_type bblid simd_len) st s =
      storage_data_cache_ref fuel line_size addr size access_type bblid simd_len st s
