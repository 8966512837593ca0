-- ===== src/DataReuse/Tests.antt =====
-- Concrete runs of the trie of data-reuse segments.
use pimprof.Base.{
  ℕ, ◌≡◌, refl, true, false, List, [], ◌∷◌, none, some, arith, ◌+◌, ◌<◌, ◌≤◌, ◌↔◌, u64_mod,
}
use pimprof.DataReuse.Segment.{
  Segment, new_segment, insert, set_count, IsAscending, list_eq, member,
}
use pimprof.DataReuse.Trie.{TrieNode, new_node, update_trie, node, nil, child, export_segment}
use pimprof.DataReuse.Trie.Lookup.{leaf_count, leaf_count-update_trie, update_trie-overflow}
use pimprof.DataReuse.Trie.Labels.{Labelled}
use pimprof.DataReuse.Trie.Export.{export_segment-update_trie}
use pimprof.DataReuse.Trie.Proper.{IsProper, update_trie-IsProper}

-- Basic blocks 7, 3 and 9, in this order, 5 times.
abbrev pub seg : Segment
seg = record { head = 7; items = 3 ∷ 7 ∷ 9 ∷ []; count = 5 }

seg-insert : set_count 5 (insert 9 (insert 3 (insert 7 new_segment))) ≡ seg
unfolding insert set_count
seg-insert = refl

-- The trie after this segment, and after it once more.
abbrev pub once : TrieNode
once = node false 0 0 (
    child 3
      (node false 3 0 (
        child 7 (node false 7 0 (child 9 (node false 9 0 (child 7 (node true 7 5 nil) nil)) nil))
          nil))
      nil)

update_once :
    update_trie 0 new_node seg []
    ≡ some (once, record { root_id = 0; path = 3 ∷ 7 ∷ 9 ∷ 7 ∷ [] } ∷ [])
unfolding update_trie member
update_once = refl

abbrev path : List ℕ
path = 3 ∷ 7 ∷ 9 ∷ 7 ∷ []

abbrev pub twice : TrieNode
twice = node false 0 0 (
    child 3
      (node false 3 0 (
        child 7 (node false 7 0 (child 9 (node false 9 0 (child 7 (node true 7 10 nil) nil)) nil))
          nil))
      nil)

once-Labelled : Labelled once
once-Labelled = (refl, (refl, (refl, (refl, tt, tt), tt), tt), tt)

seg-IsAscending : IsAscending seg.items
seg-IsAscending = ground arith

leaf_count-update_trie_example : leaf_count path twice ≡ some 10
unfolding update_trie list_eq
leaf_count-update_trie_example =
    leaf_count-update_trie path 0 once seg [] {t' = twice} {leaves' = []} (ground arith)
      (ground arith) (ground arith) refl

update_trie-overflow_example : (update_trie 0 once seg [] ≡ none) ↔ ((1 < 3) × (u64_mod ≤ 5 + 5))
unfolding update_trie member
update_trie-overflow_example = update_trie-overflow 0 once seg [] (ground arith) (ground arith)

export_segment-update_trie_example :
    export_segment new_segment twice path ≡ some (record seg { count = 10 })
unfolding update_trie member
export_segment-update_trie_example =
    export_segment-update_trie 0 once seg [] {t' = twice} {leaves' = []} once-Labelled
      seg-IsAscending refl (ground arith) refl

update_trie-IsProper_example : IsProper twice
unfolding update_trie member
update_trie-IsProper_example =
    update_trie-IsProper 0 once seg [] {t' = twice} {leaves' = []} seg-IsAscending refl
      (ground arith) refl
