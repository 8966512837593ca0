-- ===== src/Solver/Search.antt =====
-- The search for a decision: `PermuteDecision` tries every placement of a batch of basic blocks, and
-- the last loops of `PrintReuseStats` flip one basic block at a time. `cost` is `Cost` for the trie
-- at hand.
pub mod Batch
pub mod Optimal
pub mod Flips
use pimprof.Base.{
  ℕ, zero, suc, ◌-◌, ◌/◌, ◌%◌, ◌^◌, Bool, List, [], ◌∷◌, length, set, ltb, ◌==◌, if◌then◌else◌,
  Double, Option, none, some, ◌>>=◌, ◌>>◌, assert_that,
}
use pimprof.Common.{BblId, CostSite, cpu, pim, invalid, site_eq, Decision, site_at}

-- The inner loop of `PermuteDecision`: bit `j` of `permute` places `cur_batch[j]`.
unfoldable pub assign : Decision → List BblId → ℕ → Decision
assign temp [] permute = temp
assign temp (b ∷ batch) permute =
    assign (set temp b (if permute % 2 == 1 then pim else cpu)) batch (permute / 2)

-- `decision[id] == CPU ? PIM : CPU`
unfoldable pub flip : CostSite → CostSite
unfolding site_eq
flip s = if site_eq s cpu then pim else cpu

unfoldable pub flip_at : Decision → BblId → Decision
unfolding flip
flip_at decision id = set decision id (flip (site_at decision id))

module _ {ℓ} {C : Type ℓ} ⦃d : Double C⦄ (cost : Decision → C) where
  open d use {flt_max, lt, le}

  -- The outer loop, for `permute` below `n`, downwards; `temp` is `temp_decision`, and the pair
  -- holds `decision` and `cur_total`.
  unfoldable pub permute_loop : List BblId → ℕ → Decision → Decision × C → Decision × C
  unfolding assign
  permute_loop batch zero temp best = best
  permute_loop batch (suc permute) temp best =
      let temp' = assign temp batch permute in
      let temp_total = cost temp' in
      permute_loop batch permute temp' (if lt temp_total best.1 then (temp', temp_total) else best)

  -- `PermuteDecision`; `1 << cur_batch_size` is a shift of an `int`, and stays in range below 31.
  -- `none` is the failed assertion on the size, or that shift out of range.
  unfoldable pub permute_decision : Decision → List BblId → Option (Decision × C)
  unfolding permute_loop
  permute_decision decision batch = do
    assert_that (ltb (length batch) 64)
    assert_that (ltb (length batch) 31)
    some (permute_loop batch (2 ^ length batch) decision (decision, flt_max))

  -- One round of the loop over the basic blocks.
  unfoldable pub try_flip : BblId → Decision × C → Decision × C
  unfolding flip_at
  try_flip id (decision, cur_total) =
      let flipped = flip_at decision id in
      let temp_total = cost flipped in
      if lt cur_total temp_total then (flip_at flipped id, cur_total) else (flipped, temp_total)

  -- `for (id = 0; id < n; id++)`, with `n` rounds to go.
  unfoldable pub flip_pass : ℕ → BblId → Decision × C → Decision × C
  unfolding try_flip
  flip_pass zero id state = state
  flip_pass (suc n) id state = flip_pass n (suc id) (try_flip id state)

  -- `for (j = 0; j < 2; j++)`
  unfoldable pub flip_twice : ℕ → Decision × C → Decision × C
  unfolding flip_pass
  flip_twice n state = flip_pass n 0 (flip_pass n 0 state)
