-- ===== src/Storage.antt =====
-- PIMProfSolver/Storage.h: the sets of a cache with their replacement policies. A tag is a number;
-- the pointer that `Find` and `Replace` return only tells a hit from a miss. `none` is a failed
-- assertion, or an access to an empty set.
pub mod Access
pub mod Config
pub mod Hierarchy
pub mod Inclusion
pub mod Levels
pub mod Log2
pub mod Promotes
pub mod Rounds
pub mod Survival
mod Tests
use pimprof.Base.{
  ℕ, zero, suc, ◌-◌, Bool, true, false, List, [], ◌∷◌, Option, none, some, length, get_elem?, set,
  replicate, leb, ◌==◌, if◌then◌else◌, ◌>>=◌, ◌>>◌, assert_that,
}

abbrev pub max_associativity : ℕ
max_associativity = 32

-- `DIRECT_MAPPED`
pub record DirectMapped : Type 0 where
  pub tag : ℕ

unfoldable pub new_direct : ℕ → Option DirectMapped
new_direct associativity = do assert_that (associativity == 1); some (record { tag = 0 })

unfoldable pub find_direct : ℕ → DirectMapped → Bool
find_direct tagaddr s = s.tag == tagaddr

unfoldable pub replace_direct : ℕ → DirectMapped → DirectMapped
replace_direct tagaddr s = record s { tag = tagaddr }

unfoldable pub flush_direct : DirectMapped → DirectMapped
flush_direct s = record s { tag = 0 }

-- `ROUND_ROBIN`: the tags from index 0 to `_tagsLastIndex`.
pub record RoundRobin : Type 0 where
  pub tags : List ℕ
  pub next_replace : ℕ

-- With associativity 0 the last index wraps around and the code indexes an array without entries.
unfoldable pub new_round_robin : ℕ → Option RoundRobin
new_round_robin associativity = do
  assert_that (leb associativity max_associativity)
  some (record { tags = replicate associativity 0; next_replace = associativity - 1 })

-- The loop over the tags; only whether it finds one matters.
unfoldable pub has_tag : ℕ → List ℕ → Bool
has_tag tagaddr [] = false
has_tag tagaddr (t ∷ tags) = if t == tagaddr then true else has_tag tagaddr tags

unfoldable pub find_round_robin : ℕ → RoundRobin → Bool
unfolding has_tag
find_round_robin tagaddr s = has_tag tagaddr s.tags

unfoldable pub replace_round_robin : ℕ → RoundRobin → Option RoundRobin
replace_round_robin tagaddr s = do
  old ← get_elem? s.tags s.next_replace
  some (record {
    tags = set s.tags s.next_replace tagaddr;
    next_replace = if s.next_replace == 0 then length s.tags - 1 else s.next_replace - 1;
  })

unfoldable pub flush_round_robin : RoundRobin → RoundRobin
flush_round_robin s = record {
  tags = replicate (length s.tags) 0;
  next_replace = length s.tags - 1;
}

-- `LRU`: the list of tags, most recently used first.
unfoldable pub new_lru : ℕ → Option (List ℕ)
new_lru associativity = do
  assert_that (leb associativity max_associativity)
  some (replicate associativity 0)

-- `_tags.erase(it)` for the first tag that is equal.
unfoldable pub erase_tag : ℕ → List ℕ → List ℕ
erase_tag tagaddr [] = []
erase_tag tagaddr (t ∷ tags) =
    let rest = erase_tag tagaddr tags in if t == tagaddr then tags else t ∷ rest

-- `Find`: whether the tag is there, and the set with the tag promoted to the front.
unfoldable pub find_lru : ℕ → List ℕ → Bool × List ℕ
unfolding has_tag erase_tag
find_lru tagaddr tags =
    if has_tag tagaddr tags then (true, tagaddr ∷ erase_tag tagaddr tags) else (false, tags)

-- `_tags.pop_back()`
unfoldable pub drop_back : List ℕ → List ℕ
drop_back [] = []
drop_back (t ∷ []) = []
drop_back (t ∷ u ∷ tags) = t ∷ drop_back (u ∷ tags)

unfoldable pub replace_lru : ℕ → List ℕ → Option (List ℕ)
unfolding drop_back
replace_lru tagaddr [] = none
replace_lru tagaddr (t ∷ tags) = some (tagaddr ∷ drop_back (t ∷ tags))

unfoldable pub flush_lru : List ℕ → List ℕ
flush_lru tags = replicate (length tags) 0

-- What `AccessSingleLine` does to a set for a load: find, and replace on a miss.
unfoldable pub access_lru : ℕ → List ℕ → Option (Bool × List ℕ)
unfolding find_lru replace_lru
access_lru tagaddr tags =
    let found = find_lru tagaddr tags in
    let replaced = replace_lru tagaddr tags in
    if found.0 then some found else (replaced >>= λ tags'. some (false, tags'))

unfoldable pub access_round_robin : ℕ → RoundRobin → Option (Bool × RoundRobin)
unfolding find_round_robin replace_round_robin
access_round_robin tagaddr s =
    let replaced = replace_round_robin tagaddr s in
    if find_round_robin tagaddr s then some (true, s) else (replaced >>= λ s'. some (false, s'))

-- A sequence of accesses: which of them hit, and the set afterwards.
unfoldable pub run_lru : List ℕ → List ℕ → Option (List Bool × List ℕ)
unfolding access_lru
run_lru [] tags = some ([], tags)
run_lru (t ∷ trace) tags = do
  (hit, tags') ← access_lru t tags
  (hits, last) ← run_lru trace tags'
  some (hit ∷ hits, last)
