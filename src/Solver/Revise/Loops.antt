-- ===== src/Solver/Revise/Loops.antt =====
-- The loops of `TopReuseBBPairs`, each against what it computes.
use pimprof.Base.{
  get_elem?-some, ℕ, zero, suc, ◌<◌, ◌≡◌, refl, ◌∙◌, inl, inr, Bool, false, ◌||◌, List, [], ◌∷◌,
  ◌++◌, none, some, length, get_elem?, get_or, set, ◌==◌, if◌then◌else◌, Double, lookup, put,
  lookup-put, All, length-set, arith, Bool-cases,
}
use pimprof.Common.{BblId, Uuid, pim, invalid, site_eq, site_at, Decision}
use pimprof.Util.DisjointSet.{Parents}
use pimprof.Util.DisjointSet.Forest.{IsForest, Represents}
use pimprof.Util.DisjointSet.Find.{find-Found}
use pimprof.Util.DisjointSet.Classes.{merge, classes, union-Represents}
use pimprof.Solver.RunStats.{ThreadRunStats}
use pimprof.Solver.Policies.{FileDecision}
use pimprof.Solver.Input.{PairCosts}
use pimprof.Solver.Revise.{
  PairInt, plus, insert_id, site_of, touch_site, count_of, verdict, decide_loop, Votes, members,
  unite_loop, count_block, count_loop,
}
use pimprof.Solver.Revise.Sets.{
  is_member, is_member-insert_id, All-insert_id, site_of-touch_site, touched, IsAscending,
  insert_id-IsAscending,
}

-- The votes of the blocks of a class.
module _ (root : BblId → BblId) (for_pim : BblId → Bool) where
  unfoldable pub tally : List BblId → BblId → PairInt
  unfolding plus
  tally [] r = record { first = 0; second = 0 }
  tally (bbl ∷ rest) r =
      if root bbl == r
      then plus
          (if for_pim bbl
            then record { first = 1; second = 0 }
            else record { first = 0; second = 1 })
          (tally rest r)
      else tally rest r

get_or-set {ℓ} :
    {A : Type ℓ} (xs : List A) (i : ℕ) (v d : A) (j : ℕ)
    → i < length xs
    → get_or (set xs i v) j d ≡ (if i == j then v else get_or xs j d)
get_or-set [] i v d j h = absurd (omega arith)
get_or-set (x ∷ xs) zero v d zero h = refl
get_or-set (x ∷ xs) zero v d (suc j) h = ground arith
get_or-set (x ∷ xs) (suc i) v d zero h = ground arith
get_or-set (x ∷ xs) (suc i) v d (suc j) h = ground (arith, get_or-set xs i v d j (omega arith))

-- `decide_loop` in a forest.
pub decide_loop_lem :
    (rank root : BblId → BblId) (ids : List BblId) (counts : List (BblId × PairInt)) (ds : Parents)
    (dec : Decision)
    → IsForest rank ds
    → Represents root ds
    → All (λ id. id < length dec) ids
    → (dec' : Decision) × (decide_loop ids counts ds dec ≡ some dec')
      × (length dec' ≡ length dec)
      × ((j : BblId)
          → site_at dec' j ≡ (
              if is_member j ids
              then verdict (count_of (root j) counts) (count_of (root j) counts)
              else site_at dec j))
unfolding decide_loop is_member
decide_loop_lem rank root [] counts ds dec f r h = (dec, refl, refl, λ j. refl)
decide_loop_lem rank root (bbl ∷ rest) counts ds dec f r (h, hs) =
    let (ds1, run1, found1) = find-Found rank root bbl ds f r in
    let (ds2, run2, found2) = find-Found rank root bbl ds1 found1.forest found1.represents in
    let site = verdict (count_of (root bbl) counts) (count_of (root bbl) counts) in
    let (dec', run, len, at) =
      decide_loop_lem rank root rest counts ds2 (set dec bbl site) found2.forest found2.represents
        (rw length-set hs) in
    (
      dec',
      rw (run1, run2, (get_elem?-some dec bbl h).1) run,
      len ∙ length-set dec bbl site,
      λ j. ground (arith, at j, get_or-set dec bbl site invalid j h),
    )

-- Whether the file has a block for PIM.
unfoldable pub for_pim {ℓ} : {C : Type ℓ} → List (ThreadRunStats C) → FileDecision → BblId → Bool
unfolding site_of site_eq
for_pim cpu_stats sca bbl = elim (get_elem? cpu_stats bbl) [
  | none ↦ false
  | some p ↦ site_eq (site_of p.bblhash sca) pim
]

-- A state of the counting over a forest, of which the decisions read as those of `sca`.
pub record IsCounting (rank root : BblId → BblId) (sca : FileDecision) (v : Votes) : Type 0 where
  pub forest : IsForest rank v.ds
  pub represents : Represents root v.ds
  pub reads : (u : Uuid) → site_of u v.sca ≡ site_of u sca

abbrev one_vote : Bool → PairInt
one_vote b = if b then record { first = 1; second = 0 } else record { first = 0; second = 1 }

module _ {ℓ} {C : Type ℓ} (rank root : BblId → BblId) (cpu_stats : List (ThreadRunStats C)) where
  count_block_lem :
      (sca : FileDecision) (bbl : BblId) (v : Votes)
      → IsCounting rank root sca v
      → bbl < length cpu_stats
      → (v' : Votes) × (count_block cpu_stats bbl v ≡ some v')
        × IsCounting rank root sca v'
        × ((r : BblId)
            → count_of r v'.ds_count ≡ (
                if root bbl == r
                then plus (count_of r v.ds_count) (one_vote (for_pim cpu_stats sca bbl))
                else count_of r v.ds_count))
  unfolding count_block for_pim count_of
  count_block_lem sca bbl v c h =
      let (p, at_bbl) = get_elem?-some cpu_stats bbl h in
      let (ds1, run1, found1) = find-Found rank root bbl v.ds c.forest c.represents in
      let (ds2, run2, found2) = find-Found rank root bbl ds1 found1.forest found1.represents in
      let (ds3, run3, found3) = find-Found rank root bbl ds2 found2.forest found2.represents in
      let vote = one_vote (site_eq (site_of p.bblhash sca) pim) in
      let ids = members (lookup (root bbl) v.bbl_union) ++ (bbl ∷ []) in
      (
        record {
          ds = ds3;
          ds_count = put (root bbl) (plus (count_of (root bbl) v.ds_count) vote) v.ds_count;
          bbl_union = put (root bbl) ids v.bbl_union;
          sca = touch_site p.bblhash v.sca;
        },
        rw (at_bbl, run1, run2, run3, c.reads p.bblhash) refl,
        record {
          forest = found3.forest;
          represents = found3.represents;
          reads = λ u. site_of-touch_site u p.bblhash v.sca ∙ c.reads u;
        },
        λ r. ground (
          arith,
          at_bbl,
          lookup-put (root bbl) (plus (count_of (root bbl) v.ds_count) vote) v.ds_count r,
        ),
      )

  pub count_loop_lem :
      (sca : FileDecision) (ids : List BblId) (v : Votes)
      → IsCounting rank root sca v
      → All (λ id. id < length cpu_stats) ids
      → (v' : Votes) × (count_loop cpu_stats ids v ≡ some v')
        × IsCounting rank root sca v'
        × ((r : BblId)
            → count_of r v'.ds_count
              ≡ plus (count_of r v.ds_count) (tally root (for_pim cpu_stats sca) ids r))
  unfolding count_loop tally
  count_loop_lem sca [] v c h = (v, refl, c, λ r. ground arith)
  count_loop_lem sca (bbl ∷ rest) v c (h, hs) =
      let (v1, run1, c1, at1) = count_block_lem sca bbl v c h in
      let (v2, run2, c2, at2) = count_loop_lem sca rest v1 c1 hs in
      (v2, rw run1 run2, c2, λ r. ground (arith, at1 r, at2 r))

module _ {ℓ} {C : Type ℓ} ⦃d : Double C⦄ where
  -- The pairs of which the cost is not below the bound.
  unfoldable pub kept_pairs : C → PairCosts C → List (BblId × BblId)
  kept_pairs bound [] = []
  kept_pairs bound (((a, b), cost) ∷ rest) =
      if d.lt cost bound then kept_pairs bound rest else (a, b) ∷ kept_pairs bound rest

  abbrev pub InRange : ℕ → (BblId × BblId) × C → Type 0
  InRange n e = (e.0.0 < n) × (e.0.1 < n)

  -- `unite_loop` from a forest.
  pub unite_loop_lem :
      (rank root : BblId → BblId) (n : ℕ) (bound : C) (vec : PairCosts C) (ids : List BblId)
      (ds : Parents)
      → IsForest rank ds
      → Represents root ds
      → All (InRange n) vec
      → All (λ id. id < n) ids
      → IsAscending ids
      → (ids' : List BblId) × (ds' : Parents) × (rank' : BblId → ℕ) × (unite_loop bound vec ids ds
          ≡ some (ids', ds'))
        × IsForest rank' ds'
        × Represents (classes (kept_pairs bound vec) root) ds'
        × All (λ id. id < n) ids'
        × IsAscending ids'
        × ((j : BblId) → is_member j ids' ≡ (touched j (kept_pairs bound vec) || is_member j ids))
  unfolding unite_loop kept_pairs classes touched
  unite_loop_lem rank root n bound [] ids ds f r h a s =
      (ids, ds, rank, refl, f, r, a, s, λ j. refl)
  unite_loop_lem rank root n bound (((x, y), cost) ∷ rest) ids ds f r (h, hs) a s =
      elim (Bool-cases (d.lt cost bound)) [
        | inl skip ↦ rw skip (unite_loop_lem rank root n bound rest ids ds f r hs a s)
        | inr keep ↦
            let (ds1, rank1, run1, f1, r1, _) = union-Represents rank root x y ds f r in
            let ids1 = insert_id y (insert_id x ids) in
            let (ids', ds', rank', run, f', r', a', s', at) =
              unite_loop_lem rank1 (merge x y root) n bound rest ids1 ds1 f1 r1 hs
                (All-insert_id _ y (insert_id x ids) h.1 (All-insert_id _ x ids h.0 a))
                (insert_id-IsAscending y _ (insert_id-IsAscending x ids s)) in
            rw keep (
              ids',
              ds',
              rank',
              rw run1 run,
              f',
              r',
              a',
              s',
              λ j. ground (
                arith,
                at j,
                is_member-insert_id y (insert_id x ids) j,
                is_member-insert_id x ids j,
              ),
            )
      ]
