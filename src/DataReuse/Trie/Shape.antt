-- ===== src/DataReuse/Trie/Shape.antt =====
-- The shape of the tries that `UpdateTrie` builds, for segments as `insert` builds them.
use pimprof.Base.{ℕ, ◌≡◌, refl, ◌⊎◌, inl, inr, true, List, [], ◌∷◌, some, arith}
use pimprof.DataReuse.Segment.{
  Segment, insert, clear, IsAscending, set_insert, set_insert-IsAscending, member,
  member-set_insert,
}
use pimprof.DataReuse.Trie.{TrieNode, LeafRef, update_trie}
use pimprof.DataReuse.Trie.Proper.{IsProper, update_trie-IsProper}
use pimprof.DataReuse.Trie.Labels.{Labelled, insert_path-Labelled}

pub update_trie-Labelled :
    (root_id : ℕ) (t : TrieNode) (seg : Segment) (leaves : List LeafRef) {t' : TrieNode}
    {leaves' : List LeafRef}
    → Labelled t
    → update_trie root_id t seg leaves ≡ some (t', leaves')
    → Labelled t'
unfolding update_trie
update_trie-Labelled root_id t seg leaves {t'} w e =
    ground (arith, insert_path-Labelled seg.items seg.head seg.count t w)

-- The shape that `ReuseCost` relies on.
abbrev pub IsTrie : TrieNode → Type 0
IsTrie t = IsProper t × Labelled t

-- A segment of blocks in ascending order, empty or with its head among them.
pub record IsSegment (seg : Segment) : Type 0 where
  pub ascending : IsAscending seg.items
  pub headed : (seg.items ≡ []) ⊎ (member seg.head seg.items ≡ true)

pub insert-IsSegment : (a : ℕ) (seg : Segment) → IsSegment seg → IsSegment (insert a seg)
unfolding insert
insert-IsSegment a seg h = record {
  ascending = set_insert-IsAscending a seg.items h.ascending;
  headed = inr (head_in seg.items seg.head h.headed);
}
  where
    head_in :
        (items : List ℕ) (head : ℕ)
        → (items ≡ []) ⊎ (member head items ≡ true)
        → member
            (insert a (record { head = head; items = items; count = 0 })).head
            (set_insert a items)
          ≡ true
    head_in [] head h = ground (arith, member-set_insert a a [])
    head_in (x ∷ items) head (inl e) = absurd (ground arith)
    head_in (x ∷ items) head (inr m) = ground (arith, member-set_insert a head (x ∷ items))

pub clear-IsSegment : (seg : Segment) → IsSegment (clear seg)
unfolding clear
clear-IsSegment seg = record { ascending = tt; headed = inl refl }

-- `UpdateTrie` keeps the shape for every such segment; an empty one it ignores.
pub update_trie-IsTrie :
    (root_id : ℕ) (t : TrieNode) (seg : Segment) (leaves : List LeafRef) {t' : TrieNode}
    {leaves' : List LeafRef}
    → IsSegment seg
    → IsTrie t
    → update_trie root_id t seg leaves ≡ some (t', leaves')
    → IsTrie t'
update_trie-IsTrie root_id t seg leaves {t'} {leaves'} h w e = elim h.headed [
  | inr m ↦ (
    update_trie-IsProper root_id t seg leaves {t' = t'} {leaves' = leaves'} h.ascending m w.0 e,
    update_trie-Labelled root_id t seg leaves {t' = t'} {leaves' = leaves'} w.1 e,
  )
  | inl empty ↦ let same : t ≡ t' = unfold update_trie in ground arith in rw (← same) w
]
