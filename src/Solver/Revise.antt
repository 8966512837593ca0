-- ===== src/Solver/Revise.antt =====
-- `redecideSCAByCLDM` and `TopReuseBBPairs`: the basic blocks that exchange the most data are put on
-- one site. `none` is an access out of bounds. A count of basic blocks fits the code's `int`. `order`
-- is `std::sort` by `Compare`, which leaves the order of equal costs open.
pub mod Faults
pub mod Loops
pub mod Majority
pub mod Sets
mod Tests
use mathlib.Core.List.{reverse}
use pimprof.Base.{
  ℕ, zero, suc, ◌+◌, ◌/◌, Bool, List, [], ◌∷◌, ◌++◌, Option, none, some, get_elem?, set, ltb, leb,
  ◌==◌, if◌then◌else◌, ◌>>=◌, Double, lookup, put,
}
use pimprof.Common.{BblId, Uuid, CostSite, cpu, pim, site_eq, Decision}
use pimprof.Util.DisjointSet.{Parents, find, union}
use pimprof.Solver.RunStats.{ThreadRunStats}
use pimprof.Solver.Cost.{Solver}
use pimprof.Solver.Policies.{FileDecision, find_site, put_site, sca_decision}
use pimprof.Solver.Input.{PairCosts, add_pair}

-- `PairInt`
pub record PairInt : Type 0 where
  pub first : ℕ
  pub second : ℕ

-- `operator+=`
unfoldable pub plus : PairInt → PairInt → PairInt
plus a b = record { first = a.first + b.first; second = a.second + b.second }

-- `std::set::insert`
unfoldable pub insert_id : BblId → List BblId → List BblId
insert_id id [] = id ∷ []
insert_id id (x ∷ xs) =
    if id == x then x ∷ xs else if ltb id x then id ∷ x ∷ xs else x ∷ insert_id id xs

-- `decisionFromFile[hash]` as a value and for what it does to the map: a missing key is inserted
-- with the first enumerator.
unfoldable pub site_of : Uuid → FileDecision → CostSite
unfolding find_site
site_of u file = elim (find_site u file) [ none ↦ cpu | some site ↦ site ]

unfoldable pub touch_site : Uuid → FileDecision → FileDecision
unfolding find_site put_site
touch_site u file = elim (find_site u file) [ none ↦ put_site u cpu file | some site ↦ file ]

-- `dsCount`, `BBLUnion`, the disjoint set and the decisions of the file, while blocks are counted.
pub record Votes : Type 0 where
  pub ds : Parents
  pub ds_count : List (BblId × PairInt)
  pub bbl_union : List (BblId × List BblId)
  pub sca : FileDecision

unfoldable pub count_of : BblId → List (BblId × PairInt) → PairInt
unfolding lookup
count_of r counts = elim (lookup r counts) [ none ↦ record { first = 0; second = 0 } | some p ↦ p ]

abbrev pub members : Option (List BblId) → List BblId
members none = []
members (some ids) = ids

-- The site of a set of blocks of which `first` are for PIM and `second` are not.
unfoldable pub verdict : PairInt → PairInt → CostSite
verdict p q = if leb (q.second / 2) p.first then pim else cpu

-- The loop that decides the blocks of the set.
unfoldable pub decide_loop :
    List BblId → List (BblId × PairInt) → Parents → Decision → Option Decision
unfolding find count_of verdict
decide_loop [] counts ds decision = some decision
decide_loop (bbl ∷ rest) counts ds decision = do
  (x, ds1) ← find bbl ds
  (y, ds2) ← find bbl ds1
  _ ← get_elem? decision bbl
  decide_loop rest counts ds2 (set decision bbl (verdict (count_of x counts) (count_of y counts)))

module _ {ℓ} {C : Type ℓ} where
  -- One round of the loop that counts the blocks of each set.
  unfoldable pub count_block : List (ThreadRunStats C) → BblId → Votes → Option Votes
  unfolding find count_of plus site_of touch_site site_eq lookup put
  count_block cpu_stats bbl v = do
    p ← get_elem? cpu_stats bbl
    let vote : PairInt =
        if site_eq (site_of p.bblhash v.sca) pim
        then record { first = 1; second = 0 }
        else record { first = 0; second = 1 }
    (x, ds1) ← find bbl v.ds
    (y, ds2) ← find bbl ds1
    (z, ds3) ← find bbl ds2
    some (record {
      ds = ds3;
      ds_count = put x (plus (count_of x v.ds_count) vote) v.ds_count;
      bbl_union = put z (members (lookup y v.bbl_union) ++ (bbl ∷ [])) v.bbl_union;
      sca = touch_site p.bblhash v.sca;
    })

  unfoldable pub count_loop : List (ThreadRunStats C) → List BblId → Votes → Option Votes
  unfolding count_block
  count_loop cpu_stats [] v = some v
  count_loop cpu_stats (bbl ∷ rest) v = do
    v' ← count_block cpu_stats bbl v
    count_loop cpu_stats rest v'

module _ {ℓ} {C : Type ℓ} ⦃d : Double C⦄ where
  open d use {add, mul, lt}

  -- The loops that sum the cost of the data that moves between two blocks.
  unfoldable pub add_costs : C → PairCosts C → PairCosts C → PairCosts C
  unfolding add_pair
  add_costs unit [] total = total
  add_costs unit ((key, amount) ∷ rest) total =
      add_costs unit rest (add_pair key (mul amount unit) total)

  unfoldable pub inter_bb_total_cost : Solver C → PairCosts C → PairCosts C → PairCosts C
  unfolding add_costs
  inter_bb_total_cost s cl_dm reg_dm =
      add_costs (s.switch_cost cpu) reg_dm
        (add_costs (add (s.flush_cost cpu) (s.fetch_cost pim)) cl_dm [])

  -- The loop over the pairs, with the set `toRedecideBBL` and the disjoint set.
  unfoldable pub unite_loop : C → PairCosts C → List BblId → Parents → Option (List BblId × Parents)
  unfolding union insert_id
  unite_loop bound [] ids ds = some (ids, ds)
  unite_loop bound (((a, b), cost) ∷ rest) ids ds =
      let skipped = unite_loop bound rest ids ds in
      let kept = (do
        ds' ← union a b ds
        unite_loop bound rest (insert_id b (insert_id a ids)) ds') in
      if lt cost bound then skipped else kept

  -- `vec[0].second`
  unfoldable pub top_cost : PairCosts C → Option C
  top_cost [] = none
  top_cost ((key, cost) ∷ rest) = some cost

  -- `TopReuseBBPairs`: the decision, and `scaDecision` with the entries that reading has inserted.
  unfoldable pub top_reuse_bb_pairs :
      (PairCosts C → PairCosts C)
      → C
      → Solver C
      → PairCosts C
      → PairCosts C
      → FileDecision
      → Decision
      → Option (Decision × FileDecision)
  unfolding inter_bb_total_cost top_cost unite_loop count_loop decide_loop
  top_reuse_bb_pairs order threshold s cl_dm reg_dm sca decision = do
    let vec = order (inter_bb_total_cost s cl_dm reg_dm)
    top1 ← top_cost vec
    (ids, ds) ← unite_loop (mul threshold top1) (reverse vec) [] []
    v ← count_loop s.cpu_stats ids (record { ds = ds; ds_count = []; bbl_union = []; sca = sca })
    decision' ← decide_loop ids v.ds_count v.ds decision
    some (decision', v.sca)

  -- `PrintSCAStatsFromfile`: the loop, and its revision.
  unfoldable pub print_sca_stats_from_file :
      (PairCosts C → PairCosts C)
      → C
      → Solver C
      → PairCosts C
      → PairCosts C
      → FileDecision
      → Option (Decision × FileDecision)
  unfolding sca_decision top_reuse_bb_pairs
  print_sca_stats_from_file order threshold s cl_dm reg_dm sca =
      top_reuse_bb_pairs order threshold s cl_dm reg_dm sca (sca_decision sca s)
