-- ===== src/Solver/Reuse/Returns.antt =====
-- The searches return: no assertion fails, no index is out of bounds, and no dangling leaf is read.
use pimprof.Base.{
  ℕ, zero, suc, ◌+◌, ◌^◌, ◌≤◌, ◌<◌, ◌≡◌, refl, ◌∙◌, inl, inr, Bool, true, false, ◌||◌, List, [],
  ◌∷◌, ◌++◌, some, length, leb, ltb, arith, u64_mod, Double, All, Bool-cases, replicate,
}
use pimprof.Common.{CostSite, Decision}
use pimprof.DataReuse.Segment.{Segment, size}
use pimprof.DataReuse.Trie.{TrieNode, LeafRef, new_node, node_at, old_count}
use pimprof.Solver.Cost.{Solver, cost_of}
use pimprof.Solver.Search.{permute_decision, permute_loop, flip_twice}
use pimprof.Solver.Reuse.{
  State, widen, place_segment, below_threshold, find_start, visit, descend, search_from, try_inits,
  decide_rest,
}
use pimprof.Solver.Reuse.Leaves.{
  Exports, count_upto, count_upto-suc, count_upto-le, export_leaf-own, Exports-get, All-get,
  update_trie-some,
}
use pimprof.Solver.Reuse.Counts.{count_at, widen-some}

module _ {ℓ} {C : Type ℓ} ⦃d : Double C⦄ (s : Solver C) where
  -- Some segment is below the threshold.
  unfoldable pub any_below : List Segment → Bool
  any_below [] = false
  any_below (g ∷ segs) = below_threshold s g || any_below segs

  find_start-some :
      (own partial : TrieNode) (partial_id i : ℕ) (refs extra : List LeafRef) (segs : List Segment)
      → Exports own refs segs
      → any_below segs ≡ true
      → (k : ℕ) × (find_start s own partial_id partial i (refs ++ extra) ≡ some (i + k))
        × (k < length refs)
  unfolding find_start any_below
  find_start-some own partial partial_id i [] extra [] h b = absurd (ground arith)
  find_start-some own partial partial_id i [] extra (g ∷ segs) h b = absurd h
  find_start-some own partial partial_id i (r ∷ refs) extra [] h b = absurd h
  find_start-some own partial partial_id i (r ∷ refs) extra (g ∷ segs) h b =
      let here = export_leaf-own own partial partial_id r h.0 ∙ h.1 in
      elim (Bool-cases (below_threshold s g)) [
        | inl low ↦ (0, rw (here, low) (ground arith), ground arith)
        | inr high ↦
            let (k, e, l) =
              find_start-some own partial partial_id (suc i) refs extra segs h.2 (ground arith) in
            (suc k, rw (here, high, e) (ground arith), ground arith)
      ]

  -- Every path of the partial trie has room for the counts still to come.
  abbrev Room : List Segment → ℕ → TrieNode → Type 0
  Room segs n t = (q : List ℕ) → count_at q t + count_upto n segs < u64_mod

  place_segment-some :
      (g : Segment) (st : State C)
      → s.batch_size ≤ 30
      → size g < s.batch_size
      → All (λ x. x < length s.switch_count) g.items
      → (dec : Decision) × (total : C) × (place_segment s (widen s.batch_size s.switch_count) g st
          ≡ some (record st { decision = dec; cur_total = total }))
  unfolding place_segment permute_decision
  place_segment-some g st few small rows =
      let (g', widened, fits) = widen-some s.batch_size s.switch_count g rows (omega arith) in
      let cost = λ (dec : Decision). cost_of dec s st.partial in
      let in_range : ltb (length g'.items) 64 ≡ true = ground arith in
      let in_int : ltb (length g'.items) 31 ≡ true = ground arith in
      let best =
        permute_loop cost g'.items (2 ^ length g'.items) st.decision (st.decision, d.flt_max) in
      (best.0, best.1, rw (widened, in_range, in_int) refl)

  visit-some :
      (own : TrieNode) (pid i : ℕ) (refs extra : List LeafRef) (segs : List Segment) (st : State C)
      → s.batch_size ≤ 30
      → Exports own refs segs
      → All (λ g. All (λ x. x < length s.switch_count) g.items) segs
      → i < length refs
      → st.leaves ≡ refs ++ extra
      → Room segs (suc i) st.partial
      → (st' : State C) × (extra' : List LeafRef) × (visit s own pid
            (widen s.batch_size s.switch_count)
            i
            st
          ≡ some st')
        × (st'.leaves ≡ refs ++ extra')
        × Room segs i st'.partial
  unfolding visit
  visit-some own pid i refs extra segs st few ex rows l leaves room =
      let (r, g, at, seg_at, own_leaf, exported) = Exports-get own refs extra segs i ex l in
      let sum = count_upto-suc i segs {g = g} seg_at in
      let here = export_leaf-own own st.partial pid r own_leaf ∙ exported in
      let (t', extra', updated, grown) =
        update_trie-some pid st.partial g refs extra
          (let q = room (g.items ++ (g.head ∷ [])) in omega arith) in
      let room' : Room segs i t' = λ q. let a = grown q in let b = room q in omega arith in
      elim (Bool-cases (leb s.batch_size (size g))) [
        | inl long ↦ (
          record st { partial = t'; leaves = refs ++ extra' },
          extra',
          rw (leaves, at, here, updated, long) refl,
          refl,
          room',
        )
        | inr short ↦
            let (dec, total, placed) =
              place_segment-some g (record st { partial = t'; leaves = refs ++ extra' }) few
                (ground arith)
                (All-get (λ g. All (λ x. x < length s.switch_count) g.items) segs i {a = g} rows
                  seg_at) in
            (
              record st {
                partial = t';
                leaves = refs ++ extra';
                decision = dec;
                cur_total = total;
              },
              extra',
              rw (leaves, at, here, updated, short) placed,
              refl,
              room',
            )
      ]

  descend-some :
      (own : TrieNode) (pid n : ℕ) (refs extra : List LeafRef) (segs : List Segment) (st : State C)
      → s.batch_size ≤ 30
      → Exports own refs segs
      → All (λ g. All (λ x. x < length s.switch_count) g.items) segs
      → n ≤ length refs
      → st.leaves ≡ refs ++ extra
      → Room segs n st.partial
      → (st' : State C) × (extra' : List LeafRef) × (descend s own pid
            (widen s.batch_size s.switch_count)
            n
            st
          ≡ some st')
        × (st'.leaves ≡ refs ++ extra')
  unfolding descend
  descend-some own pid zero refs extra segs st few ex rows l leaves room = (st, extra, refl, leaves)
  descend-some own pid (suc i) refs extra segs st few ex rows l leaves room =
      let (mid, extra1, first, leaves1, room1) =
        visit-some own pid i refs extra segs st few ex rows (omega arith) leaves room in
      let (st', extra2, rest, leaves2) =
        descend-some own pid i refs extra1 segs mid few ex rows (omega arith) leaves1 room1 in
      (st', extra2, rw (first, rest) refl, leaves2)

-- What the search relies on, with the segments `segs` of the leaves `refs`, largest count first: a
-- segment below the threshold is among them, their basic blocks have statistics and rows of switch
-- counts, these are between basic blocks with statistics, and the counts of the segments add up to a
-- 64-bit number.
pub record IsSearchable {ℓ} {C : Type ℓ} ⦃d : Double C⦄ (s : Solver C) (own : TrieNode)
    (refs : List LeafRef) (segs : List Segment) : Type ℓ where
  pub few : s.batch_size ≤ 30
  pub exports : Exports own refs segs
  pub below : any_below s segs ≡ true
  pub rows : All (λ g. All (λ x. x < length s.switch_count) g.items) segs
  pub sum : count_upto (length segs) segs < u64_mod
  pub blocks :
      All (λ g. (g.head < length s.cpu_stats) × All (λ x. x < length s.cpu_stats) g.items) segs
  pub switches :
      All
        (λ row.
          (row.fromidx < length s.cpu_stats) × All (λ to. to.0 < length s.cpu_stats) row.toidxvec)
        s.switch_count

count_at-new_node : (q : List ℕ) → count_at q new_node ≡ 0
unfolding node_at old_count
count_at-new_node [] = refl
count_at-new_node (x ∷ q) = refl

module _ {ℓ} {C : Type ℓ} ⦃d : Double C⦄ (s : Solver C) (own : TrieNode) where
  search_from-some :
      (pid : ℕ) (init : CostSite) (refs extra : List LeafRef) (segs : List Segment)
      → IsSearchable s own refs segs
      → (dec : Decision) × (total : C) × (extra' : List LeafRef) × (search_from s own pid
            (widen s.batch_size s.switch_count)
            init
            (refs ++ extra)
          ≡ some (dec, total, refs ++ extra'))
  unfolding search_from
  search_from-some pid init refs extra segs ok =
      let (k, found, l) =
        find_start-some s own new_node pid 0 refs extra segs ok.exports ok.below in
      let start : find_start s own pid new_node 0 (refs ++ extra) ≡ some k = ground arith in
      let begin : State C = record {
        decision = replicate (length s.cpu_stats) init;
        cur_total = d.flt_max;
        partial = new_node;
        leaves = refs ++ extra;
      } in
      let room : Room s segs (suc k) new_node = λ q.
        let a = count_at-new_node q in
        let b = count_upto-le (suc k) segs in let c = ok.sum in omega arith in
      let (st, extra', went, leaves) =
        descend-some s own pid (suc k) refs extra segs begin ok.few ok.exports ok.rows (omega arith)
          refl room in
      let complete = decide_rest st.decision s.cpu_stats s.pim_stats in
      let best =
        flip_twice (λ dec. cost_of dec s own) (length s.cpu_stats)
          (complete, cost_of complete s own) in
      (best.0, best.1, extra', rw (start, went, leaves) refl)

  pub try_inits-some :
      (pid : ℕ) (inits : List CostSite) (dec : Decision) (total : C) (refs extra : List LeafRef)
      (segs : List Segment)
      → IsSearchable s own refs segs
      → (dec' : Decision) × (total' : C) × (extra' : List LeafRef) × (try_inits s own pid inits
            (dec, total, refs ++ extra)
          ≡ some (dec', total', refs ++ extra'))
  unfolding try_inits
  try_inits-some pid [] dec total refs extra segs ok = (dec, total, extra, refl)
  try_inits-some pid (init ∷ inits) dec total refs extra segs ok =
      let (dec1, total1, extra1, first) = search_from-some pid init refs extra segs ok in
      elim (Bool-cases (d.lt total1 total)) [
        | inl lower ↦
            let (dec2, total2, extra2, rest) =
              try_inits-some (suc pid) inits dec1 total1 refs extra1 segs ok in
            (dec2, total2, extra2, rw (first, lower) rest)
        | inr keep ↦
            let (dec2, total2, extra2, rest) =
              try_inits-some (suc pid) inits dec total refs extra1 segs ok in
            (dec2, total2, extra2, rw (first, keep) rest)
      ]
