-- ===== src/Pin/Marks.antt =====
-- The flags of the threads that are in a region, and how many are set.
use pimprof.Base.{
  ℕ, zero, suc, ◌+◌, ◌%◌, ◌≡◌, refl, ap, Bool, true, false, not, List, [], ◌∷◌, ◌++◌, some,
  get_elem?, set, arith, if◌then◌else◌, u64_mod,
}

-- The number of flags that are set.
abbrev pub marked_count : List Bool → ℕ
marked_count [] = 0
marked_count (true ∷ rest) = suc (marked_count rest)
marked_count (false ∷ rest) = marked_count rest

marked_count-enter :
    (flags : List Bool) (t : ℕ)
    → get_elem? flags t ≡ some false
    → marked_count (set flags t true) ≡ suc (marked_count flags)
marked_count-enter [] t h = absurd (ground arith)
marked_count-enter (x ∷ xs) zero h = ground (arith, h)
marked_count-enter (true ∷ xs) (suc t) h = ap suc (marked_count-enter xs t h)
marked_count-enter (false ∷ xs) (suc t) h = marked_count-enter xs t h

marked_count-leave :
    (flags : List Bool) (t : ℕ)
    → get_elem? flags t ≡ some true
    → suc (marked_count (set flags t false)) ≡ marked_count flags
marked_count-leave [] t h = absurd (ground arith)
marked_count-leave (x ∷ xs) zero h = ground (arith, h)
marked_count-leave (true ∷ xs) (suc t) h = ap suc (marked_count-leave xs t h)
marked_count-leave (false ∷ xs) (suc t) h = marked_count-leave xs t h

pub marked_count-stay :
    (flags : List Bool) (t : ℕ) (x : Bool)
    → get_elem? flags t ≡ some x
    → marked_count (set flags t x) ≡ marked_count flags
marked_count-stay [] t x h = refl
marked_count-stay (y ∷ xs) zero x h = ground (arith, h)
marked_count-stay (true ∷ xs) (suc t) x h = ap suc (marked_count-stay xs t x h)
marked_count-stay (false ∷ xs) (suc t) x h = marked_count-stay xs t x h

-- What both heads do to the count, whether the flag was set or not.
pub head_count :
    (inside : Bool) (flags : List Bool) (t enter exit : ℕ)
    → get_elem? flags t ≡ some inside
    → enter ≡ (exit + marked_count flags) % u64_mod
    → (if inside then enter else (enter + 1) % u64_mod)
      ≡ (exit + marked_count (set flags t true)) % u64_mod
head_count true flags t enter exit h c = rw (marked_count-stay flags t true h) c
head_count false flags t enter exit h c = omega (arith, marked_count-enter flags t h, c)

pub tail_count :
    (inside : Bool) (flags : List Bool) (t enter exit : ℕ)
    → get_elem? flags t ≡ some inside
    → enter ≡ (exit + marked_count flags) % u64_mod
    → enter
      ≡ ((if inside then (exit + 1) % u64_mod else exit) + marked_count (set flags t false))
        % u64_mod
tail_count true flags t enter exit h c = omega (arith, marked_count-leave flags t h, c)
tail_count false flags t enter exit h c = rw (marked_count-stay flags t false h) c

pub marked_count-start :
    (flags : List Bool) (on : Bool)
    → on ≡ true
    → marked_count (flags ++ (not on ∷ [])) ≡ marked_count flags
marked_count-start [] on h = ground (arith, h)
marked_count-start (true ∷ xs) on h = ap suc (marked_count-start xs on h)
marked_count-start (false ∷ xs) on h = marked_count-start xs on h
