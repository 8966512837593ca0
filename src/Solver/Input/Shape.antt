-- ===== src/Solver/Input/Shape.antt =====
-- What the files of a run turn into: tries of the shape that the cost model needs, and statistics
-- under their own hashes.
use pimprof.Base.{
  ℕ, ◌≡◌, refl, inl, inr, true, ◌||◌, List, [], ◌∷◌, Option, none, some, arith, >>=-eq-some, Double,
  All, Bool-cases, foldl,
}
use pimprof.Common.{Uuid, Decision}
use pimprof.DataReuse.Segment.{
  Segment, new_segment, IsAscending, set_insert-IsAscending, member, member-set_insert, insert,
  set_head, set_count,
}
use pimprof.DataReuse.Trie.{update_trie, children_of}
use pimprof.DataReuse.Trie.Shape.{IsTrie, update_trie-Labelled}
use pimprof.DataReuse.Trie.Proper.{update_trie-IsProper}
use pimprof.Solver.RunStats.{RunStats, ThreadRunStats, merge_thread, new_thread_stats}
use pimprof.Solver.Cost.{Solver, reuse_cost}
use pimprof.Solver.Cost.{bfs_assert_all}
use pimprof.Solver.ReuseCost.{charge, counted_segments, reuse_cost-charge, bfs_assert_all-root}
use pimprof.Solver.Align.{find_stats, put_stats}
use pimprof.Solver.Align.Held.{
  IsKeyed, IsUnique, find_stats-IsKeyed, put_stats-IsKeyed, put_stats-IsUnique,
}
use pimprof.Solver.Input.{
  ReuseLine, reuse_title, switch_title, other_title, segment_line, switch_line, Input, read_ids,
  new_input, parse_reuse_line, parse_reuse_loop, parse_reuse, StatsLine, thread_title, block_line,
  merged, parse_stats,
}

read_ids-IsAscending :
    (ids : List ℕ) (seg : Segment) → IsAscending seg.items → IsAscending (read_ids ids seg).items
unfolding read_ids insert
read_ids-IsAscending [] seg h = h
read_ids-IsAscending (id ∷ ids) seg h =
    read_ids-IsAscending ids (insert id seg) (set_insert-IsAscending id seg.items h)

member-read_ids :
    (a : ℕ) (ids : List ℕ) (seg : Segment)
    → member a (read_ids ids seg).items ≡ (member a ids || member a seg.items)
unfolding read_ids insert member
member-read_ids a [] seg = refl
member-read_ids a (id ∷ ids) seg =
    ground (arith, member-read_ids a ids (insert id seg), member-set_insert id a seg.items)

-- The head of a segment is one of its basic blocks.
abbrev pub HasHead : ReuseLine → Type 0
HasHead (segment_line head count ids) = member head ids ≡ true
HasHead _ = Unit {0}

module _ {ℓ} {C : Type ℓ} ⦃d : Double C⦄ where
  parse_reuse_line-IsTrie :
      (line : ReuseLine) (st st' : Input C)
      → HasHead line
      → IsTrie st.reuse.root
      → parse_reuse_line line st ≡ some st'
      → IsTrie st'.reuse.root
  unfolding parse_reuse_line
  parse_reuse_line-IsTrie reuse_title st st' h t e =
      let same : st.reuse ≡ st'.reuse = ground arith in rw (← same) t
  parse_reuse_line-IsTrie switch_title st st' h t e =
      let same : st.reuse ≡ st'.reuse = ground arith in rw (← same) t
  parse_reuse_line-IsTrie other_title st st' h t e = absurd (ground arith)
  parse_reuse_line-IsTrie (segment_line head count ids) st st' h t e =
      elim (Bool-cases st.in_reuse_section) [
        | inr off ↦ absurd (ground arith)
        | inl on ↦
            let seg = set_count count (set_head head (read_ids ids new_segment)) in
            let (r, ran, e') =
              >>=-eq-some (update_trie 0 st.reuse.root seg st.reuse.leaves) _ (rw on at e) in
            let same : r.0 ≡ st'.reuse.root = ground arith in
            let up : IsAscending (read_ids ids new_segment).items =
              read_ids-IsAscending ids new_segment tt in
            let inside : member head (read_ids ids new_segment).items ≡ true =
              ground (arith, member-read_ids head ids new_segment) in
            rw (← same) (
              update_trie-IsProper 0 st.reuse.root seg st.reuse.leaves {t' = r.0} {leaves' = r.1} up
                  inside t.0 ran,
              update_trie-Labelled 0 st.reuse.root seg st.reuse.leaves {t' = r.0} {leaves' = r.1}
                  t.1 ran,
            )
      ]
  parse_reuse_line-IsTrie (switch_line fromidx counts) st st' h t e =
      elim (Bool-cases st.in_reuse_section) [
        | inl on ↦ absurd (ground arith)
        | inr off ↦ let same : st.reuse ≡ st'.reuse = ground arith in rw (← same) t
      ]

  parse_reuse_loop-IsTrie :
      (lines : List ReuseLine) (st st' : Input C)
      → All HasHead lines
      → IsTrie st.reuse.root
      → parse_reuse_loop lines st ≡ some st'
      → IsTrie st'.reuse.root
  unfolding parse_reuse_loop
  parse_reuse_loop-IsTrie [] st st' h t e = let same : st ≡ st' = ground arith in rw (← same) t
  parse_reuse_loop-IsTrie (line ∷ rest) st st' h t e =
      let (mid, first, e') = >>=-eq-some (parse_reuse_line line st) _ e in
      parse_reuse_loop-IsTrie rest mid st' h.1 (parse_reuse_line-IsTrie line st mid h.0 t first) e'

  -- Whatever reuse file `ParseReuse` reads to its end, `ReuseCost` of the trie that it leaves is the
  -- sum over the counted segments of what each segment costs that is split between the sites. Each
  -- segment of the file has its head among its basic blocks, and the trie at the start has the shape
  -- that `UpdateTrie` keeps, as the empty one does.
  pub parse_reuse-reuse_cost :
      (lines : List ReuseLine) (st st' : Input C) (dec : Decision) (s : Solver C)
      → All HasHead lines
      → IsTrie st.reuse.root
      → parse_reuse lines st ≡ some st'
      → IsTrie st'.reuse.root
        × (reuse_cost dec s st'.reuse.root
            ≡ foldl (charge dec s) d.nought (counted_segments st'.reuse.root))
  unfolding parse_reuse
  parse_reuse-reuse_cost lines st st' dec s h t e =
      let (read, ran, e') =
        >>=-eq-some (parse_reuse_loop lines (record st { in_reuse_section = true })) _ e in
      let same : read.reuse ≡ st'.reuse = ground arith in
      let shape : IsTrie st'.reuse.root =
        rw (← same)
          (parse_reuse_loop-IsTrie lines (record st { in_reuse_section = true }) read h t ran) in
      (shape, reuse_cost-charge dec s st'.reuse.root shape.0 shape.1)

  -- On the trie that `ParseReuse` leaves, no assertion of `TrieBFS` fails: each basic block of the path
  -- to a leaf is the label of its node. The reuse file is read to its end, whatever segments it has,
  -- and each segment has its head among its basic blocks.
  pub parse_reuse-bfs_assert :
      (lines : List ReuseLine) (st : Input C)
      → All HasHead lines
      → parse_reuse lines new_input ≡ some st
      → bfs_assert_all (children_of st.reuse.root) ≡ true
  unfolding parse_reuse
  parse_reuse-bfs_assert lines st h e =
      let (read, ran, e') =
        >>=-eq-some (parse_reuse_loop lines (record new_input { in_reuse_section = true })) _ e in
      let same : read.reuse ≡ st.reuse = ground arith in
      let shape : IsTrie st.reuse.root = rw (← same) (
        parse_reuse_loop-IsTrie lines (record new_input { in_reuse_section = true }) read h
          ((refl, tt), tt) ran) in
      bfs_assert_all-root st.reuse.root shape.1

  merged-hash :
      (tid : ℕ) (stats : RunStats C) (o : Option (ThreadRunStats C))
      → ((old : ThreadRunStats C) → o ≡ some old → old.bblhash ≡ stats.bblhash)
      → (merged tid stats o).bblhash ≡ stats.bblhash
  unfolding merged new_thread_stats merge_thread
  merged-hash tid stats none h = refl
  merged-hash tid stats (some old) h = h old refl

  -- `ParseStats` keeps the statistics under their own hashes, as `getBBLSortedStats` needs them.
  pub parse_stats-IsKeyed :
      (lines : List (StatsLine C)) (tid : ℕ) (m m' : List (Uuid × ThreadRunStats C))
      → IsKeyed m
      → parse_stats lines tid m ≡ some m'
      → IsKeyed m'
  unfolding parse_stats
  parse_stats-IsKeyed [] tid m m' k e = let same : m ≡ m' = ground arith in rw (← same) k
  parse_stats-IsKeyed (thread_title tid' ∷ rest) tid m m' k e =
      parse_stats-IsKeyed rest tid' m m' k e
  parse_stats-IsKeyed (block_line stats ∷ rest) tid m m' k e =
      let entry = merged tid stats (find_stats stats.bblhash m) in
      let hash =
        merged-hash tid stats (find_stats stats.bblhash m)
          (λ old f. find_stats-IsKeyed stats.bblhash m {s = old} k f) in
      elim (Bool-cases (d.le d.nought stats.elapsed_time)) [
        | inl fine ↦
            parse_stats-IsKeyed rest tid (put_stats stats.bblhash entry m) m'
              (put_stats-IsKeyed stats.bblhash entry m hash k) (rw fine at e)
        | inr negative ↦ absurd (ground arith)
      ]

  -- `ParseStats` makes one entry for a hash.
  pub parse_stats-IsUnique :
      (lines : List (StatsLine C)) (tid : ℕ) (m m' : List (Uuid × ThreadRunStats C))
      → IsUnique m
      → parse_stats lines tid m ≡ some m'
      → IsUnique m'
  unfolding parse_stats
  parse_stats-IsUnique [] tid m m' k e = let same : m ≡ m' = ground arith in rw (← same) k
  parse_stats-IsUnique (thread_title tid' ∷ rest) tid m m' k e =
      parse_stats-IsUnique rest tid' m m' k e
  parse_stats-IsUnique (block_line stats ∷ rest) tid m m' k e =
      let entry = merged tid stats (find_stats stats.bblhash m) in
      elim (Bool-cases (d.le d.nought stats.elapsed_time)) [
        | inl fine ↦
            parse_stats-IsUnique rest tid (put_stats stats.bblhash entry m) m'
              (put_stats-IsUnique stats.bblhash entry m k) (rw fine at e)
        | inr negative ↦ absurd (ground arith)
      ]
