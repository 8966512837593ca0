-- ===== src/Storage/Inclusion.antt =====
-- The inclusion property of the LRU policy: a smaller set holds what a larger one holds in front.
use pimprof.Base.{
  ℕ, zero, suc, ◌-◌, ◌≤◌, ◌<◌, ◌≡◌, refl, sym, ap, ◌∙◌, inl, inr, Bool, true, false, List, [], ◌∷◌,
  some, length, ◌==◌, if◌then◌else◌, arith, Bool-cases,
}
use pimprof.Storage.{has_tag, erase_tag, find_lru, drop_back, replace_lru, access_lru, run_lru}

-- The first `n` tags.
unfoldable pub first_tags : ℕ → List ℕ → List ℕ
first_tags zero tags = []
first_tags (suc n) [] = []
first_tags (suc n) (t ∷ tags) = t ∷ first_tags n tags

length-first_tags : (n : ℕ) (tags : List ℕ) → n ≤ length tags → length (first_tags n tags) ≡ n
unfolding first_tags
length-first_tags zero tags h = refl
length-first_tags (suc n) [] h = absurd (ground arith)
length-first_tags (suc n) (t ∷ tags) h = ap suc (length-first_tags n tags (ground arith))

drop_back-cons :
    (t : ℕ) (tags : List ℕ) → drop_back (t ∷ tags) ≡ first_tags (length tags) (t ∷ tags)
unfolding drop_back first_tags
drop_back-cons t [] = refl
drop_back-cons t (u ∷ tags) = ap (◌∷◌ t) (drop_back-cons u tags)

first_tags-first_tags :
    (m n : ℕ) (tags : List ℕ) → m ≤ n → first_tags m (first_tags n tags) ≡ first_tags m tags
unfolding first_tags
first_tags-first_tags zero n tags h = refl
first_tags-first_tags (suc m) zero tags h = absurd (ground arith)
first_tags-first_tags (suc m) (suc n) [] h = refl
first_tags-first_tags (suc m) (suc n) (t ∷ tags) h =
    ap (◌∷◌ t) (first_tags-first_tags m n tags (ground arith))

-- A tag among the first `n`: erasing commutes with taking.
erase_tag-found :
    (n a : ℕ) (tags : List ℕ)
    → has_tag a (first_tags (suc n) tags) ≡ true
    → erase_tag a (first_tags (suc n) tags) ≡ first_tags n (erase_tag a tags)
unfolding first_tags has_tag erase_tag
erase_tag-found n a [] h = absurd (ground arith)
erase_tag-found zero a (t ∷ tags) h = ground arith
erase_tag-found (suc n) a (t ∷ tags) h = elim (Bool-cases (t == a)) [
  | inl here ↦ ground arith
  | inr there ↦ ground (arith, erase_tag-found n a tags)
]

-- A tag beyond the first `n`: erasing leaves them alone.
erase_tag-missed :
    (n a : ℕ) (tags : List ℕ)
    → n < length tags
    → has_tag a (first_tags n tags) ≡ false
    → first_tags n (erase_tag a tags) ≡ first_tags n tags
unfolding first_tags has_tag erase_tag
erase_tag-missed zero a tags l h = refl
erase_tag-missed (suc n) a [] l h = refl
erase_tag-missed (suc n) a (t ∷ tags) l h = ground (arith, erase_tag-missed n a tags)

has_tag-first_tags :
    (n a : ℕ) (tags : List ℕ) → has_tag a (first_tags n tags) ≡ true → has_tag a tags ≡ true
unfolding first_tags has_tag
has_tag-first_tags zero a tags h = absurd (ground arith)
has_tag-first_tags (suc n) a [] h = absurd (ground arith)
has_tag-first_tags (suc n) a (t ∷ tags) h = ground (arith, has_tag-first_tags n a tags)

-- The set after an access.
abbrev after : ℕ → List ℕ → List ℕ
after a tags = if has_tag a tags then a ∷ erase_tag a tags else a ∷ drop_back tags

access_lru-after :
    (a t : ℕ) (tags : List ℕ)
    → access_lru a (t ∷ tags) ≡ some (has_tag a (t ∷ tags), after a (t ∷ tags))
unfolding access_lru find_lru replace_lru
access_lru-after a t tags = elim (Bool-cases (has_tag a (t ∷ tags))) [
  | inl hit ↦ rw hit refl
  | inr miss ↦ rw miss refl
]

drop_back-first_tags : (tags : List ℕ) → drop_back tags ≡ first_tags (length tags - 1) tags
unfolding first_tags drop_back
drop_back-first_tags [] = refl
drop_back-first_tags (t ∷ tags) =
    let e : suc (length tags) - 1 ≡ length tags = omega arith in rw e (drop_back-cons t tags)

drop_back-shorter :
    (n : ℕ) (tags : List ℕ)
    → suc n ≤ length tags
    → drop_back (first_tags (suc n) tags) ≡ first_tags n tags
drop_back-shorter n tags h =
    let size = length-first_tags (suc n) tags h in
    let last : length (first_tags (suc n) tags) - 1 ≡ n = omega arith in
    drop_back-first_tags (first_tags (suc n) tags)
    ∙ ap (λ k. first_tags k (first_tags (suc n) tags)) last
    ∙ first_tags-first_tags n (suc n) tags (omega arith)

first_tags-cons : (n a : ℕ) (tags : List ℕ) → first_tags (suc n) (a ∷ tags) ≡ a ∷ first_tags n tags
unfolding first_tags
first_tags-cons n a tags = refl

has_tag-shorter :
    (n a : ℕ) (tags : List ℕ)
    → has_tag a (first_tags (suc n) tags) ≡ false
    → has_tag a (first_tags n tags) ≡ false
has_tag-shorter n a tags miss = elim (Bool-cases (has_tag a (first_tags n tags))) [
  | inr e ↦ e
  | inl hit ↦
      let again : has_tag a (first_tags n (first_tags (suc n) tags)) ≡ true =
        rw (first_tags-first_tags n (suc n) tags (omega arith)) hit in
      absurd (ground (arith, has_tag-first_tags n a (first_tags (suc n) tags) again))
]

after-first_tags :
    (n a : ℕ) (tags : List ℕ)
    → suc n ≤ length tags
    → after a (first_tags (suc n) tags) ≡ first_tags (suc n) (after a tags)
after-first_tags n a tags h = elim (Bool-cases (has_tag a (first_tags (suc n) tags))) [
  | inl hit ↦
      rw (hit, has_tag-first_tags (suc n) a tags hit, first_tags-cons n a (erase_tag a tags))
        (ap (◌∷◌ a) (erase_tag-found n a tags hit))
  | inr miss ↦
      let shorter = drop_back-shorter n tags h in
      elim (Bool-cases (has_tag a tags)) [
        | inl larger ↦
            rw (miss, larger, first_tags-cons n a (erase_tag a tags))
              (ap (◌∷◌ a) (
                shorter
                ∙ sym (erase_tag-missed n a tags (omega arith) (has_tag-shorter n a tags miss))))
        | inr none_there ↦
            rw (miss, none_there, first_tags-cons n a (drop_back tags))
              (ap (◌∷◌ a) (
                shorter
                ∙ sym (first_tags-first_tags n (length tags - 1) tags (omega arith))
                ∙ ap (first_tags n) (sym (drop_back-first_tags tags))))
      ]
]

length-erase_tag :
    (a : ℕ) (tags : List ℕ) → has_tag a tags ≡ true → suc (length (erase_tag a tags)) ≡ length tags
unfolding has_tag erase_tag
length-erase_tag a [] h = absurd (ground arith)
length-erase_tag a (t ∷ tags) h = ground (arith, length-erase_tag a tags)

length-after : (a : ℕ) (tags : List ℕ) → 1 ≤ length tags → length (after a tags) ≡ length tags
length-after a tags h = elim (Bool-cases (has_tag a tags)) [
  | inl hit ↦ rw hit (length-erase_tag a tags hit)
  | inr miss ↦
      let e = length-first_tags (length tags - 1) tags (omega arith) in
      rw (miss, drop_back-first_tags tags) (omega arith)
]

-- Each hit of the first run is a hit of the second.
abbrev pub HitsToo : List Bool → List Bool → Type 0
HitsToo [] [] = Unit {0}
HitsToo [] (c ∷ cs) = ⊥
HitsToo (b ∷ bs) [] = ⊥
HitsToo (b ∷ bs) (c ∷ cs) = (b ≡ true → c ≡ true) × HitsToo bs cs

access_lru-some :
    (a : ℕ) (tags : List ℕ)
    → 1 ≤ length tags
    → access_lru a tags ≡ some (has_tag a tags, after a tags)
access_lru-some a [] h = absurd (ground arith)
access_lru-some a (t ∷ tags) h = access_lru-after a t tags

-- Any sequence of accesses runs through on an LRU set of `suc n` lines and on a larger one that
-- starts with the same tags in front. Each access that hits the smaller set hits the larger one, and
-- in the end the smaller set holds the most recent tags of the larger one, in their order.
pub run_lru-HitsToo :
    (n : ℕ) (trace tags : List ℕ)
    → suc n ≤ length tags
    → (hits : List Bool) × (last : List ℕ) × (few_hits : List Bool) × (run_lru trace tags
        ≡ some (hits, last))
      × (run_lru trace (first_tags (suc n) tags) ≡ some (few_hits, first_tags (suc n) last))
      × HitsToo few_hits hits
unfolding run_lru
run_lru-HitsToo n [] tags h = ([], tags, [], refl, refl, tt)
run_lru-HitsToo n (a ∷ trace) tags h =
    let small = first_tags (suc n) tags in
    let size = length-first_tags (suc n) tags h in
    let kept = length-after a tags (omega arith) in
    let (hits, last, few_hits, ran, ran_small, more) =
      run_lru-HitsToo n trace (after a tags) (omega arith) in
    let here = access_lru-some a tags (omega arith) in
    let here_small = access_lru-some a small (omega arith) in
    (
      has_tag a tags ∷ hits,
      last,
      has_tag a small ∷ few_hits,
      rw (here, ran) refl,
      rw (here_small, after-first_tags n a tags h, ran_small) refl,
      (λ e. has_tag-first_tags (suc n) a tags e, more),
    )
