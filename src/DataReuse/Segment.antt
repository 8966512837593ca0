-- ===== src/DataReuse/Segment.antt =====
-- `class DataReuseSegment`: the basic blocks that touch a cache line between two stores.
-- `std::set` is the strictly ascending list of its elements.
use pimprof.Base.{
  ℕ, ◌≤◌, ◌<◌, ◌≡◌, refl, Bool, true, false, ◌&&◌, ◌||◌, List, [], ◌∷◌, length, arith, ltb, ◌==◌,
  if◌then◌else◌,
}

-- Strictly ascending, from above `lo`.
abbrev pub Above : ℕ → List ℕ → Type 0
Above lo [] = Unit {0}
Above lo (x ∷ xs) = (lo < x) × Above x xs

abbrev pub IsAscending : List ℕ → Type 0
IsAscending [] = Unit {0}
IsAscending (x ∷ xs) = Above x xs

unfoldable pub member : ℕ → List ℕ → Bool
member a [] = false
member a (x ∷ xs) = a == x || member a xs

-- `std::set::insert`
unfoldable pub set_insert : ℕ → List ℕ → List ℕ
set_insert a [] = a ∷ []
set_insert a (x ∷ xs) =
    if ltb a x then a ∷ x ∷ xs else if a == x then x ∷ xs else x ∷ set_insert a xs

-- `_set.insert(first, last)`
unfoldable pub set_insert_all : List ℕ → List ℕ → List ℕ
set_insert_all [] xs = xs
set_insert_all (a ∷ new) xs = set_insert_all new (set_insert a xs)

-- `std::set_difference` over ascending ranges.
unfoldable pub set_difference : List ℕ → List ℕ → List ℕ
unfolding member
set_difference [] ys = []
set_difference (x ∷ xs) ys =
    let rest = set_difference xs ys in if member x ys then rest else x ∷ rest

unfoldable pub list_eq : List ℕ → List ℕ → Bool
list_eq [] [] = true
list_eq (x ∷ xs) (y ∷ ys) = x == y && list_eq xs ys
list_eq _ _ = false

-- A new segment has a count of 1; its head is not initialised, and `0` stands for it.
pub record Segment : Type 0 where
  pub head : ℕ
  pub items : List ℕ
  pub count : ℕ

abbrev pub new_segment : Segment
new_segment = record { head = 0; items = []; count = 1 }

abbrev pub size : Segment → ℕ
size s = length s.items

abbrev is_empty : List ℕ → Bool
is_empty [] = true
is_empty (_ ∷ _) = false

unfoldable pub insert : ℕ → Segment → Segment
unfolding set_insert
insert elem s = record s {
  head = if is_empty s.items then elem else s.head;
  items = set_insert elem s.items;
}

unfoldable pub insert_segment : Segment → Segment → Segment
unfolding set_insert_all
insert_segment seg s = record s { items = set_insert_all seg.items s.items }

unfoldable pub diff : Segment → Segment → List ℕ
unfolding set_difference
diff s seg = set_difference s.items seg.items

unfoldable pub clear : Segment → Segment
clear s = record s { items = []; count = 1 }

unfoldable pub set_head : ℕ → Segment → Segment
set_head head s = record s { head = head }

unfoldable pub set_count : ℕ → Segment → Segment
set_count count s = record s { count = count }

unfoldable pub segment_eq : Segment → Segment → Bool
unfolding list_eq
segment_eq s t = s.head == t.head && list_eq s.items t.items

Above-set_insert : (lo a : ℕ) (xs : List ℕ) → lo < a → Above lo xs → Above lo (set_insert a xs)
unfolding set_insert
Above-set_insert lo a [] h u = (h, tt)
Above-set_insert lo a (x ∷ xs) h u = ground (arith, Above-set_insert x a xs)

pub set_insert-IsAscending : (a : ℕ) (xs : List ℕ) → IsAscending xs → IsAscending (set_insert a xs)
unfolding set_insert
set_insert-IsAscending a [] u = tt
set_insert-IsAscending a (x ∷ xs) u = ground (arith, Above-set_insert x a xs)

pub member-set_insert :
    (a b : ℕ) (xs : List ℕ) → member b (set_insert a xs) ≡ (b == a || member b xs)
unfolding member set_insert
member-set_insert a b [] = refl
member-set_insert a b (x ∷ xs) = ground (arith, member-set_insert a b xs)

Above-not_member : (lo a : ℕ) (xs : List ℕ) → Above lo xs → a ≤ lo → member a xs ≡ false
unfolding member
Above-not_member lo a [] u h = refl
Above-not_member lo a (x ∷ xs) u h = ground (arith, Above-not_member x a xs)

Above-mono : (m n : ℕ) (xs : List ℕ) → m ≤ n → Above n xs → Above m xs
Above-mono m n [] h u = tt
Above-mono m n (x ∷ xs) h u = (ground arith, u.1)

-- Two ascending lists with the same members are equal.
ascending_ext-Above :
    (lo : ℕ) (xs ys : List ℕ)
    → Above lo xs
    → Above lo ys
    → ((a : ℕ) → member a xs ≡ member a ys)
    → xs ≡ ys
unfolding member
ascending_ext-Above lo [] [] u v h = refl
ascending_ext-Above lo [] (y ∷ ys) u v h = absurd (ground (arith, h y))
ascending_ext-Above lo (x ∷ xs) [] u v h = absurd (ground (arith, h x))
ascending_ext-Above lo (x ∷ xs) (y ∷ ys) u v h =
    let same : x ≡ y =
      ground (arith, h x, h y, Above-not_member x y xs u.1, Above-not_member y x ys v.1) in
    let tails : xs ≡ ys =
      ascending_ext-Above x xs ys u.1 (Above-mono x y ys (omega arith) v.1)
        (λ a. ground (arith, h a, Above-not_member x a xs u.1, Above-not_member y a ys v.1)) in
    cc

-- A set is determined by its members.
pub ascending_ext :
    (xs ys : List ℕ)
    → IsAscending xs
    → IsAscending ys
    → ((a : ℕ) → member a xs ≡ member a ys)
    → xs ≡ ys
unfolding member
ascending_ext [] [] u v h = refl
ascending_ext [] (y ∷ ys) u v h = absurd (ground (arith, h y))
ascending_ext (x ∷ xs) [] u v h = absurd (ground (arith, h x))
ascending_ext (x ∷ xs) (y ∷ ys) u v h =
    let same : x ≡ y =
      ground (arith, h x, h y, Above-not_member x y xs u, Above-not_member y x ys v) in
    let tails : xs ≡ ys =
      ascending_ext-Above x xs ys u (Above-mono x y ys (omega arith) v)
        (λ a. ground (arith, h a, Above-not_member x a xs u, Above-not_member y a ys v)) in
    cc
