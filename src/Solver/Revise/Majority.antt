-- ===== src/Solver/Revise/Majority.antt =====
-- What `TopReuseBBPairs` decides.
use mathlib.Core.List.{reverse}
use mathlib.Core.List.{Permᴰ}
use mathlib.Core.List.Permᴰ
use pimprof.Base.{
  ℕ, ◌<◌, ◌/◌, leb, ◌≡◌, ◌↔◌, refl, ap, ◌∙◌, subst, inl, inr, Bool, ◌||◌, List, [], ◌∷◌, some,
  length, if◌then◌else◌, Double, All, arith, Bool-cases,
}
use pimprof.Common.{BblId, CostSite, cpu, pim, site_at, Decision}
use pimprof.Util.DisjointSet.Classes.{classes, empty-IsForest, empty-Represents}
use pimprof.Util.DisjointSet.Linked.{Linked, classes_iff}
use pimprof.Solver.RunStats.{ThreadRunStats}
use pimprof.Solver.Cost.{Solver}
use pimprof.Solver.Policies.{FileDecision}
use pimprof.Solver.Input.{PairCosts, add_pair, pair_lt, pair_eq}
use pimprof.Solver.Revise.{
  PairInt, plus, count_of, verdict, add_costs, inter_bb_total_cost, top_cost, top_reuse_bb_pairs,
  Votes,
}
use pimprof.Solver.Revise.Sets.{is_member, touched, IsAscending}
use pimprof.Solver.Revise.Loops.{
  tally, for_pim, kept_pairs, InRange, count_loop_lem, unite_loop_lem, decide_loop_lem,
}

All-Permᴰ {ℓ κ} : {A : Type ℓ} (P : A → Type κ) {xs ys : List A} → Permᴰ xs ys → All P xs → All P ys
All-Permᴰ P Permᴰ.nil h = tt
All-Permᴰ P (Permᴰ.cons e d) (p, h) = (subst P e p, All-Permᴰ P d h)
All-Permᴰ P (Permᴰ.swap e f) (p, (q, h)) = (subst P f q, (subst P e p, h))
All-Permᴰ P (Permᴰ.trans d e) h = All-Permᴰ P e (All-Permᴰ P d h)

or-none : (j : BblId) (b : Bool) → (b || is_member j []) ≡ b
unfolding is_member
or-none j b = ground arith

plus-none : (r : BblId) (p : PairInt) → plus (count_of r []) p ≡ p
unfolding plus count_of
plus-none r p = ground arith

abbrev pub majority : PairInt → CostSite
majority votes = if leb (votes.second / 2) votes.first then pim else cpu

verdict_lem : (votes : PairInt) → verdict votes votes ≡ majority votes
unfolding verdict
verdict_lem votes = refl

module _ {ℓ} {C : Type ℓ} ⦃d : Double C⦄ where
  open d use {mul}

  InRange-add_pair :
      (n : ℕ) (key : BblId × BblId) (cost : C) (costs : PairCosts C)
      → (key.0 < n) × (key.1 < n)
      → All (InRange n) costs
      → All (InRange n) (add_pair key cost costs)
  unfolding add_pair
  InRange-add_pair n key cost [] k h = (k, tt)
  InRange-add_pair n key cost ((j, c) ∷ rest) k (h, hs) = elim (Bool-cases (pair_lt key j)) [
    | inl e ↦ rw e (k, (h, hs))
    | inr e ↦ elim (Bool-cases (pair_eq j key)) [
      | inl e' ↦ rw (e, e') (h, hs)
      | inr e' ↦ rw (e, e') (h, InRange-add_pair n key cost rest k hs)
    ]
  ]

  InRange-add_costs :
      (n : ℕ) (unit : C) (moved total : PairCosts C)
      → All (InRange n) moved
      → All (InRange n) total
      → All (InRange n) (add_costs unit moved total)
  unfolding add_costs
  InRange-add_costs n unit [] total h k = k
  InRange-add_costs n unit ((key, amount) ∷ rest) total (h, hs) k =
      InRange-add_costs n unit rest _ hs (InRange-add_pair n key (mul amount unit) total h k)

  InRange-inter_bb_total_cost :
      (n : ℕ) (s : Solver C) (cl_dm reg_dm : PairCosts C)
      → All (InRange n) cl_dm
      → All (InRange n) reg_dm
      → All (InRange n) (inter_bb_total_cost s cl_dm reg_dm)
  unfolding inter_bb_total_cost
  InRange-inter_bb_total_cost n s cl_dm reg_dm hc hr =
      InRange-add_costs n _ reg_dm _ hr (InRange-add_costs n _ cl_dm [] hc tt)

  -- The pairs whose cost reaches the threshold, from the cheapest.
  abbrev pub linking :
      (PairCosts C → PairCosts C)
      → C
      → C
      → Solver C
      → PairCosts C
      → PairCosts C
      → List (BblId × BblId)
  linking order threshold top1 s cl_dm reg_dm =
      kept_pairs (mul threshold top1) (reverse (order (inter_bb_total_cost s cl_dm reg_dm)))

  -- `dec'` is `dec` revised by the `pairs`, which link basic blocks. A block in a pair goes to PIM
  -- exactly if, among the blocks linked with it, those that the file has for PIM are at least half of
  -- the others, rounded down, and to the CPU if not; any other block keeps its site. `ids` are the
  -- blocks in pairs, each once.
  pub record IsRevised (pairs : List (BblId × BblId)) (cpu_stats : List (ThreadRunStats C))
      (sca : FileDecision) (dec dec' : Decision) : Type 0 where
    pub root : BblId → BblId
    pub ids : List BblId
    pub ascending : IsAscending ids
    pub in_pairs : (j : BblId) → is_member j ids ≡ touched j pairs
    pub linked : (a b : BblId) → (root a ≡ root b) ↔ Linked pairs a b
    pub same_size : length dec' ≡ length dec
    pub revised :
        (j : BblId)
        → site_at dec' j ≡ (
            if is_member j ids
            then majority (tally root (for_pim cpu_stats sca) ids (root j))
            else site_at dec j)

  -- With pairs of basic blocks of the decision and a sort that keeps the elements, the revision has a
  -- result once there is a most expensive pair: the decision revised by the pairs whose cost is not
  -- below the threshold, which is a part of the greatest cost.
  pub top_reuse_bb_pairs-IsRevised :
      (order : PairCosts C → PairCosts C) (threshold top1 : C) (s : Solver C)
      (cl_dm reg_dm : PairCosts C) (sca : FileDecision) (dec : Decision)
      → ((xs : PairCosts C) → Permᴰ (order xs) xs)
      → length dec ≡ length s.cpu_stats
      → All (InRange (length dec)) cl_dm
      → All (InRange (length dec)) reg_dm
      → top_cost (order (inter_bb_total_cost s cl_dm reg_dm)) ≡ some top1
      → (dec' : Decision) × (sca' : FileDecision) × (top_reuse_bb_pairs order threshold s cl_dm
            reg_dm sca dec
          ≡ some (dec', sca'))
        × IsRevised (linking order threshold top1 s cl_dm reg_dm) s.cpu_stats sca dec dec'
  unfolding top_reuse_bb_pairs
  top_reuse_bb_pairs-IsRevised order threshold top1 s cl_dm reg_dm sca dec perm same hc hr top =
      let total = inter_bb_total_cost s cl_dm reg_dm in
      let n = length dec in
      let bound = mul threshold top1 in
      let ranged : All (InRange n) (reverse (order total)) =
        All-Permᴰ (InRange n) (Permᴰ.symm (Permᴰ.reverse (order total))) (
          All-Permᴰ (InRange n) (Permᴰ.symm (perm total))
            (InRange-inter_bb_total_cost n s cl_dm reg_dm hc hr)) in
      let (ids, ds, rank, run1, f, r, below, ascending, at_ids) =
        unite_loop_lem (λ _. 0) (λ k. k) n bound (reverse (order total)) [] [] empty-IsForest
          empty-Represents ranged tt tt in
      let pairs = kept_pairs bound (reverse (order total)) in
      let root = classes pairs (λ k. k) in
      let v : Votes = record { ds = ds; ds_count = []; bbl_union = []; sca = sca } in
      let (v', run2, c, counted) =
        count_loop_lem rank root s.cpu_stats sca ids v
          (record { forest = f; represents = r; reads = λ u. refl })
          (subst (λ k. All (λ id. id < k) ids) same below) in
      let (dec', run3, len, at) =
        decide_loop_lem rank root ids v'.ds_count v'.ds dec c.forest c.represents below in
      (
        dec',
        v'.sca,
        rw (top, run1, run2, run3) refl,
        record {
          root = root;
          ids = ids;
          ascending = ascending;
          in_pairs = λ j. at_ids j ∙ or-none j _;
          linked = classes_iff pairs;
          same_size = len;
          revised = λ j.
              at j
              ∙ ap (λ p. if is_member j ids then verdict p p else site_at dec j)
                  (counted (root j) ∙ plus-none (root j) _)
              ∙ ap (λ site. if is_member j ids then site else site_at dec j) (verdict_lem _);
        },
      )
