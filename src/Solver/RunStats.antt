-- ===== src/Solver/RunStats.antt =====
-- `class ThreadRunStats`: the statistics of a basic block, with the time of each thread.
pub mod Greatest
use pimprof.Base.{
  ℕ, suc, ◌+◌, ◌-◌, ◌%◌, Bool, true, false, List, [], ◌∷◌, length, get_or, set, leb, if◌then◌else◌,
  u64_mod, Double,
}
use pimprof.Common.{BblId, Uuid}
use pimprof.DataReuse.Switch.{grow}

-- `RunStats`, merged over threads or of one of them.
pub record RunStats {ℓ} (C : Type ℓ) : Type ℓ where
  pub bblid : BblId
  pub bblhash : Uuid
  pub elapsed_time : C
  pub instruction_count : ℕ
  pub memory_access : ℕ

pub record ThreadRunStats {ℓ} (C : Type ℓ) : Type ℓ where
  pub base : RunStats C
  pub open base use *
  pub thread_elapsed_time : List C
  pub sorted_elapsed_time : List C
  pub dirty : Bool

module _ {ℓ} {C : Type ℓ} ⦃d : Double C⦄ where
  open d use {nought, add, lt}

  -- `RunStats::MergeStats`; the counters are 64 bits wide.
  unfoldable pub merge_base : RunStats C → RunStats C → RunStats C
  merge_base s rhs = record s {
    elapsed_time = add s.elapsed_time rhs.elapsed_time;
    instruction_count = (s.instruction_count + rhs.instruction_count) % u64_mod;
    memory_access = (s.memory_access + rhs.memory_access) % u64_mod;
  }

  -- `if (tid >= size()) resize(tid + 1, 0)`
  unfoldable pub fit : ℕ → List C → List C
  unfolding grow
  fit tid xs = if leb (length xs) tid then grow (suc tid) nought xs else xs

  unfoldable pub new_thread_stats : ℕ → RunStats C → ThreadRunStats C
  unfolding fit
  new_thread_stats tid s = record {
    base = s;
    thread_elapsed_time = set (fit tid []) tid s.elapsed_time;
    sorted_elapsed_time = set (fit tid []) tid s.elapsed_time;
    dirty = true;
  }

  -- `MergeStats(tid, rhs)`
  unfoldable pub merge_thread : ℕ → RunStats C → ThreadRunStats C → ThreadRunStats C
  unfolding merge_base fit
  merge_thread tid rhs s = record s {
    base = merge_base s.base rhs;
    thread_elapsed_time = set (fit tid s.thread_elapsed_time) tid rhs.elapsed_time;
    sorted_elapsed_time = set (fit tid s.sorted_elapsed_time) tid rhs.elapsed_time;
  }

  -- The loop of `MergeStats(rhs)`; the vector is at least as long as that of `rhs`.
  unfoldable pub add_times : List C → List C → List C
  add_times xs [] = xs
  add_times [] (y ∷ ys) = []
  add_times (x ∷ xs) (y ∷ ys) = add x y ∷ add_times xs ys

  -- `if (size() < n) resize(n, 0)`
  unfoldable pub fit_size : ℕ → List C → List C
  unfolding grow
  fit_size n xs = if leb n (length xs) then xs else grow n nought xs

  abbrev any_time : List C → Bool → Bool
  any_time [] dirty = dirty
  any_time (x ∷ xs) dirty = true

  -- `MergeStats(rhs)`
  unfoldable pub merge_stats : ThreadRunStats C → ThreadRunStats C → ThreadRunStats C
  unfolding merge_base fit_size add_times
  merge_stats rhs s =
      let n = length rhs.thread_elapsed_time in
      record {
        base = merge_base s.base rhs.base;
        thread_elapsed_time = add_times (fit_size n s.thread_elapsed_time) rhs.thread_elapsed_time;
        sorted_elapsed_time = fit_size n s.sorted_elapsed_time;
        dirty = any_time rhs.thread_elapsed_time s.dirty;
      }

  unfoldable pub parallelism_of : List C → ℕ
  parallelism_of [] = 0
  parallelism_of (x ∷ xs) = let rest = parallelism_of xs in if lt nought x then suc rest else rest

  unfoldable pub parallelism : ThreadRunStats C → ℕ
  unfolding parallelism_of
  parallelism s = parallelism_of s.thread_elapsed_time

  -- `std::sort`, ascending.
  unfoldable pub insert_asc : C → List C → List C
  insert_asc a [] = a ∷ []
  insert_asc a (x ∷ xs) = if lt x a then x ∷ insert_asc a xs else a ∷ x ∷ xs

  unfoldable pub sort_asc : List C → List C
  unfolding insert_asc
  sort_asc [] = []
  sort_asc (x ∷ xs) = insert_asc x (sort_asc xs)

  unfoldable pub sort_elapsed_time : ThreadRunStats C → ThreadRunStats C
  unfolding sort_asc
  sort_elapsed_time s = record s {
    sorted_elapsed_time = sort_asc s.sorted_elapsed_time;
    dirty = false;
  }

  -- `MaxElapsedTime`: the time, and the object with its cache filled. Every object has the time of
  -- at least one thread; for an object without any the read is out of bounds, and `nought` stands
  -- for it.
  unfoldable pub max_elapsed_time : ThreadRunStats C → C × ThreadRunStats C
  unfolding sort_elapsed_time
  max_elapsed_time s =
      if s.dirty
      then (let s' = sort_elapsed_time s in
          let time = get_or s'.sorted_elapsed_time (length s.thread_elapsed_time - 1) nought in
          (time, record s' { base = record s.base { elapsed_time = time } }))
      else (s.elapsed_time, s)

  -- The value of `MaxElapsedTime()`.
  abbrev pub max_time : ThreadRunStats C → C
  max_time s = (max_elapsed_time s).0
