-- ===== src/Solver/Revise/Sets.antt =====
-- `std::set::insert` and the reads of `scaDecision`, which may insert.
use pimprof.Base.{
  ◌<◌, ◌≡◌, refl, inl, inr, Bool, true, false, ◌||◌, List, [], ◌∷◌, some, ltb, ◌==◌, if◌then◌else◌,
  All, arith, Bool-cases,
}
use pimprof.Common.{BblId, Uuid, uuid_eq, CostSite, cpu}
use pimprof.Solver.Policies.{FileDecision, find_site, put_site}
use pimprof.Solver.Revise.{insert_id, site_of, touch_site}

unfoldable pub is_member : BblId → List BblId → Bool
is_member id [] = false
is_member id (x ∷ xs) = x == id || is_member id xs

pub is_member-insert_id :
    (id : BblId) (xs : List BblId) (j : BblId)
    → is_member j (insert_id id xs) ≡ (id == j || is_member j xs)
unfolding is_member insert_id
is_member-insert_id id [] j = refl
is_member-insert_id id (x ∷ xs) j = ground (arith, is_member-insert_id id xs j)

pub All-insert_id :
    (P : BblId → Type 0) (id : BblId) (xs : List BblId) → P id → All P xs → All P (insert_id id xs)
unfolding insert_id
All-insert_id P id [] p h = (p, tt)
All-insert_id P id (x ∷ xs) p (q, h) = elim (Bool-cases (id == x)) [
  | inl e ↦ rw e (q, h)
  | inr e ↦ elim (Bool-cases (ltb id x)) [
    | inl lt ↦ rw (e, lt) (p, (q, h))
    | inr ge ↦ rw (e, ge) (q, All-insert_id P id xs p h)
  ]
]

find_site-put_site :
    (u w : Uuid) (site : CostSite) (file : FileDecision)
    → find_site u (put_site w site file) ≡ (if uuid_eq w u then some site else find_site u file)
unfolding find_site put_site uuid_eq
find_site-put_site u w site [] = refl
find_site-put_site u w site ((v, old) ∷ rest) = ground (arith, find_site-put_site u w site rest)

find_site-eq :
    (u w : Uuid) (file : FileDecision) → uuid_eq w u ≡ true → find_site w file ≡ find_site u file
unfolding find_site uuid_eq
find_site-eq u w [] h = refl
find_site-eq u w ((v, old) ∷ rest) h = ground (arith, find_site-eq u w rest h)

-- The missing key that a read inserts has the value that was read.
pub site_of-touch_site :
    (u w : Uuid) (file : FileDecision) → site_of u (touch_site w file) ≡ site_of u file
unfolding touch_site site_of
site_of-touch_site u w file = ground (arith, find_site-put_site u w cpu file, find_site-eq u w file)

-- The blocks of a list of pairs.
unfoldable pub touched : BblId → List (BblId × BblId) → Bool
touched j [] = false
touched j ((a, b) ∷ pairs) = b == j || (a == j || touched j pairs)

abbrev pub IsAscending : List BblId → Type 0
IsAscending [] = Unit
IsAscending (x ∷ xs) = All (λ y. x < y) xs × IsAscending xs

All-lt_trans : (x y : BblId) (xs : List BblId) → x < y → All (λ z. y < z) xs → All (λ z. x < z) xs
All-lt_trans x y [] h a = tt
All-lt_trans x y (z ∷ xs) h (p, a) = (omega arith, All-lt_trans x y xs h a)

pub insert_id-IsAscending :
    (id : BblId) (xs : List BblId) → IsAscending xs → IsAscending (insert_id id xs)
unfolding insert_id
insert_id-IsAscending id [] h = (tt, tt)
insert_id-IsAscending id (x ∷ xs) (p, h) = elim (Bool-cases (id == x)) [
  | inl e ↦ rw e (p, h)
  | inr e ↦ elim (Bool-cases (ltb id x)) [
    | inl lt ↦ rw (e, lt) ((ground arith, All-lt_trans id x xs (ground arith) p), (p, h))
    | inr ge ↦
        rw (e, ge)
          (All-insert_id (λ y. x < y) id xs (ground arith) p, insert_id-IsAscending id xs h)
  ]
]
