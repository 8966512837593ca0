-- ===== src/Solver/Revise/Tests.antt =====
-- Four basic blocks, of which 0, 1 and 2 exchange most of the data.
use mathlib.Core.List.{Permᴰ}
use mathlib.Core.List.Permᴰ
use pimprof.Base.{
  ℕ, ◌+◌, ◌≡◌, ◌↔◌, refl, inl, inr, true, [], ◌∷◌, some, none, ltb, if◌then◌else◌, nat_double, All,
  arith, Bool-cases,
}
use pimprof.Common.{Uuid, cpu, pim, follower, Decision}
use pimprof.Solver.RunStats.{ThreadRunStats}
use pimprof.Solver.Cost.{Solver}
use pimprof.Solver.Policies.{FileDecision}
use pimprof.Solver.Input.{PairCosts}
use pimprof.Solver.Revise.{inter_bb_total_cost, top_cost, top_reuse_bb_pairs}
use pimprof.Solver.Revise.Loops.{InRange}
use pimprof.Solver.Revise.Majority.{IsRevised, linking, top_reuse_bb_pairs-IsRevised}
use pimprof.Solver.Revise.Faults.{top_reuse_bb_pairs-none}

-- A sort by falling cost.
insert_cost : (ℕ × ℕ) × ℕ → PairCosts ℕ → PairCosts ℕ
insert_cost e [] = e ∷ []
insert_cost e (x ∷ xs) = if ltb x.1 e.1 then e ∷ x ∷ xs else x ∷ insert_cost e xs

sort : PairCosts ℕ → PairCosts ℕ
unfolding insert_cost
sort [] = []
sort (e ∷ xs) = insert_cost e (sort xs)

insert_cost-perm : (e : (ℕ × ℕ) × ℕ) (xs : PairCosts ℕ) → Permᴰ (insert_cost e xs) (e ∷ xs)
unfolding insert_cost
insert_cost-perm e [] = Permᴰ.refl (e ∷ [])
insert_cost-perm e (x ∷ xs) = elim (Bool-cases (ltb x.1 e.1)) [
  | inl less ↦ rw less (Permᴰ.refl (e ∷ x ∷ xs))
  | inr more ↦
      rw more (Permᴰ.trans (Permᴰ.cons refl (insert_cost-perm e xs)) (Permᴰ.swap refl refl))
]

sort-perm : (xs : PairCosts ℕ) → Permᴰ (sort xs) xs
unfolding sort
sort-perm [] = Permᴰ.nil
sort-perm (e ∷ xs) = Permᴰ.trans (insert_cost-perm e (sort xs)) (Permᴰ.cons refl (sort-perm xs))

abbrev block : ℕ → ℕ → ThreadRunStats ℕ
block id time = record {
  base = record {
    bblid = id;
    bblhash = record { first = id + 10; second = id };
    elapsed_time = time;
    instruction_count = 0;
    memory_access = 0;
  };
  thread_elapsed_time = time ∷ [];
  sorted_elapsed_time = time ∷ [];
  dirty = true;
}

abbrev hash : ℕ → Uuid
hash id = record { first = id + 10; second = id }

abbrev solver : Solver ℕ
solver = record {
  cpu_stats = block 0 10 ∷ block 1 4 ∷ block 2 6 ∷ block 3 6 ∷ [];
  pim_stats = block 0 5 ∷ block 1 8 ∷ block 2 6 ∷ block 3 7 ∷ [];
  flush_cost = λ site. 3;
  fetch_cost = λ site. 2;
  switch_cost = λ site. 1;
  switch_count = [];
  batch_threshold = 1;
  batch_size = 3;
}

abbrev cl_dm : PairCosts ℕ
cl_dm = ((0, 1), 7) ∷ ((1, 2), 6) ∷ ((2, 3), 1) ∷ []

abbrev reg_dm : PairCosts ℕ
reg_dm = ((1, 2), 5) ∷ []

-- Block 1 is not in the file, and block 3 follows block 2.
abbrev sca : FileDecision
sca = (hash 0, pim) ∷ (hash 2, cpu) ∷ (hash 3, follower) ∷ []

abbrev dec : Decision
dec = pim ∷ cpu ∷ cpu ∷ cpu ∷ []

abbrev after : FileDecision
after = (hash 0, pim) ∷ (hash 2, cpu) ∷ (hash 3, follower) ∷ (hash 1, cpu) ∷ []

ran :
    top_reuse_bb_pairs sort 1 solver cl_dm reg_dm sca dec ≡ some (pim ∷ pim ∷ pim ∷ cpu ∷ [], after)
unfolding top_reuse_bb_pairs sort
ran = refl

-- 35 is the greatest cost.
top : top_cost (sort (inter_bb_total_cost solver cl_dm reg_dm)) ≡ some 35
unfolding top_cost sort inter_bb_total_cost
top = refl

cl_range : All (InRange 4) cl_dm
cl_range = omega arith

reg_range : All (InRange 4) reg_dm
reg_range = omega arith

top_reuse_bb_pairs-IsRevised_example :
    (dec' : Decision) × (sca' : FileDecision) × (top_reuse_bb_pairs sort 1 solver cl_dm reg_dm sca
        dec
      ≡ some (dec', sca'))
    × IsRevised (linking sort 1 35 solver cl_dm reg_dm) solver.cpu_stats sca dec dec'
top_reuse_bb_pairs-IsRevised_example =
    top_reuse_bb_pairs-IsRevised sort 1 35 solver cl_dm reg_dm sca dec sort-perm refl cl_range
      reg_range top

top_reuse_bb_pairs-none_example :
    (top_reuse_bb_pairs sort 1 solver cl_dm reg_dm sca dec ≡ none) ↔ ((cl_dm ≡ []) × (reg_dm ≡ []))
top_reuse_bb_pairs-none_example =
    top_reuse_bb_pairs-none sort 1 solver cl_dm reg_dm sca dec sort-perm refl cl_range reg_range
