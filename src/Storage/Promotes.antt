-- ===== src/Storage/Promotes.antt =====
-- A load brings its line to the level that it comes to, whatever the replacement policy.
use pimprof.Base.{
  ℕ, zero, suc, ◌≡◌, refl, sym, ap, subst, inl, inr, Bool, true, false, List, [], ◌∷◌, Option, some,
  get_elem?, set, arith, ◌>>=◌, >>=-eq-some, >>=-run, some_inj, Bool-cases, ==_refl, Double,
  get_elem?-set,
}
use pimprof.Common.{BblId}
use pimprof.Pin.{PerSite, AccessType, access_type_load}
use pimprof.Pin.Count.{Machine}
use pimprof.Storage.{
  find_direct, replace_direct, has_tag, find_round_robin, replace_round_robin, find_lru,
  replace_lru,
}
use pimprof.Storage.Levels.{
  CacheSet, direct_mapped, round_robin, lru, find, replace, count_access, Level, Memory, Reused,
  tag_of, set_index_of,
}
use pimprof.Storage.Access.{Accessed, access_single_line, on_hit, on_miss, updated, is_last}

get-set {ℓ} :
    {A : Type ℓ} (xs : List A) (i : ℕ) (old new : A)
    → get_elem? xs i ≡ some old
    → get_elem? (set xs i new) i ≡ some new
get-set xs i old new e = rw (get_elem?-set xs i new i, ==_refl i, e) refl

has_tag-set :
    (tags : List ℕ) (i t old : ℕ) → get_elem? tags i ≡ some old → has_tag t (set tags i t) ≡ true
unfolding has_tag
has_tag-set [] i t old e = absurd (ground arith)
has_tag-set (u ∷ tags) zero t old e = rw (==_refl t) refl
has_tag-set (u ∷ tags) (suc i) t old e = ground (arith, has_tag-set tags i t old e)

-- A tag that was found is found again.
find-find : (t : ℕ) (s : CacheSet) → (find t s).0 ≡ true → (find t (find t s).1).0 ≡ true
unfolding find find_lru has_tag
find-find t (direct_mapped s) h = h
find-find t (round_robin s) h = h
find-find t (lru tags) h = ground (arith, ==_refl t)

-- A tag that replaced another one is found.
find-replace : (t : ℕ) (s now : CacheSet) → replace t s ≡ some now → (find t now).0 ≡ true
unfolding find replace find_direct replace_direct find_round_robin replace_round_robin find_lru
    replace_lru has_tag
find-replace t (direct_mapped s) now h = subst (λ x. (find t x).0 ≡ true) (some_inj h) (==_refl t)
find-replace t (round_robin s) now h =
    let (ring, h1, h2) = >>=-eq-some (replace_round_robin t s) _ h in
    let (old, at_next, h3) = >>=-eq-some (get_elem? s.tags s.next_replace) _ h1 in
    subst (λ x. (find t x).0 ≡ true) (some_inj h2)
      (subst (λ x. has_tag t x.tags ≡ true) (some_inj h3)
        (has_tag-set s.tags s.next_replace t old at_next))
find-replace t (lru []) now h = absurd (ground arith)
find-replace t (lru (u ∷ tags)) now h =
    subst (λ x. (find t x).0 ≡ true) (some_inj h) (ground (arith, ==_refl t))

-- A level that holds the line of an address.
abbrev Holds {ℓ} : {C : Type ℓ} → ℕ → ℕ → Level C → CacheSet → Type 0
Holds tagaddr index l cs = (get_elem? l.sets index ≡ some cs) × ((find tagaddr cs).0 ≡ true)

module _ {ℓ} {C : Type ℓ} ⦃d : Double C⦄ (machine : PerSite (Machine C)) where
  hit-again :
      (addr : ℕ) (access_type : AccessType) (bblid : BblId) (simd_len : ℕ) (l : Level C)
      (next : List (Level C)) (bottom : Option (Memory C)) (s : Reused C) (cs : CacheSet)
      → Holds
          (tag_of l.line_shift addr)
          (set_index_of l.set_index_mask (tag_of l.line_shift addr))
          l
          cs
      → access_single_line machine addr access_type bblid simd_len (l ∷ next) bottom s ≡ (
          on_hit machine (tag_of l.line_shift addr) access_type bblid simd_len l s >>= λ s1.
          some (record {
            hit = true;
            levels =
                updated
                  (set_index_of l.set_index_mask (tag_of l.line_shift addr))
                  (find (tag_of l.line_shift addr) cs).1
                  access_type
                  true
                  l
                ∷ next;
            bottom = bottom;
            state = s1;
          }))
  unfolding access_single_line
  hit-again addr access_type bblid simd_len l next bottom s cs (at_set, is_there) =
      >>=-run _ at_set (rw is_there refl)

  -- Where a load leaves the line.
  load-Holds :
      (addr : ℕ) (bblid : BblId) (simd_len : ℕ) (l : Level C) (next : List (Level C))
      (bottom : Option (Memory C)) (s : Reused C) (r : Accessed C)
      → access_single_line machine addr access_type_load bblid simd_len (l ∷ next) bottom s ≡ some r
      → (index : ℕ) × (now : CacheSet) × (hit : Bool) × (rest : List (Level C)) × (r.levels
          ≡ updated index now access_type_load hit l ∷ rest)
        × Holds
            (tag_of l.line_shift addr)
            (set_index_of l.set_index_mask (tag_of l.line_shift addr))
            (updated index now access_type_load hit l)
            now
  unfolding access_single_line
  load-Holds addr bblid simd_len l next bottom s r h =
      let tagaddr = tag_of l.line_shift addr in
      let index = set_index_of l.set_index_mask tagaddr in
      let (before, at_set, h1) = >>=-eq-some (get_elem? l.sets index) _ h in
      elim (Bool-cases (find tagaddr before).0) [
        | inl is_there ↦
            let (s1, charged, h2) =
              >>=-eq-some (on_hit machine tagaddr access_type_load bblid simd_len l s) _
                (rw is_there at h1) in
            (
              index,
              (find tagaddr before).1,
              true,
              next,
              ap (λ x. x.levels) (sym (some_inj h2)),
              (
                get-set l.sets index before (find tagaddr before).1 at_set,
                find-find tagaddr before is_there,
              ),
            )
        | inr missing ↦
            let (now, replaced, h2) =
              >>=-eq-some (replace tagaddr (find tagaddr before).1) _ (rw missing at h1) in
            let (s1, split, h3) = >>=-eq-some (on_miss (is_last next) tagaddr l s) _ h2 in
            let (below, reached, h4) =
              >>=-eq-some
                (access_single_line machine addr access_type_load bblid simd_len next bottom s1) _
                h3 in
            (
              index,
              now,
              false,
              below.levels,
              ap (λ x. x.levels) (sym (some_inj h4)),
              (
                get-set l.sets index before now at_set,
                find-replace tagaddr (find tagaddr before).1 now replaced,
              ),
            )
      ]

  -- After a load that does not fail, wherever it found the line, the set of the line in the level that
  -- the load came to holds it. An access to the same line, a load or a store from any basic block, then
  -- is a hit there: the set becomes what `Find` makes of it, the hit is counted under its access type,
  -- the levels below and the memory stay as they are, and it fails only if adding the cost or noting
  -- the reuse does. This holds for each replacement policy.
  pub access_single_line-promotes :
      (addr addr2 : ℕ) (bblid bblid2 : BblId) (simd_len simd_len2 : ℕ) (access_type : AccessType)
      (l : Level C) (next : List (Level C)) (bottom : Option (Memory C)) (s s2 : Reused C)
      (r : Accessed C)
      → access_single_line machine addr access_type_load bblid simd_len (l ∷ next) bottom s ≡ some r
      → tag_of l.line_shift addr2 ≡ tag_of l.line_shift addr
      → (m : Level C) × (now : CacheSet) × (rest : List (Level C)) × (r.levels ≡ m ∷ rest)
        × (get_elem? m.sets (set_index_of l.set_index_mask (tag_of l.line_shift addr)) ≡ some now)
        × ((find (tag_of l.line_shift addr) now).0 ≡ true)
        × (access_single_line machine addr2 access_type bblid2 simd_len2 r.levels r.bottom s2 ≡ (
            on_hit machine (tag_of l.line_shift addr) access_type bblid2 simd_len2 m s2 >>= λ s3.
            some (record {
              hit = true;
              levels =
                  record m {
                    sets =
                        set m.sets
                          (set_index_of l.set_index_mask (tag_of l.line_shift addr))
                          (find (tag_of l.line_shift addr) now).1;
                    access = count_access access_type true m.access;
                  }
                  ∷ rest;
              bottom = r.bottom;
              state = s3;
            })))
  access_single_line-promotes addr addr2 bblid bblid2 simd_len simd_len2 access_type l next bottom s
        s2 r h same =
      let (index, now, hit, rest, after, held) =
        load-Holds addr bblid simd_len l next bottom s r h in
      let m = updated index now access_type_load hit l in
      let reach : List (Level C) → Option (Accessed C) =
        λ x. access_single_line machine addr2 access_type bblid2 simd_len2 x r.bottom s2 in
      let repeated : ℕ → Option (Accessed C) = λ t.
        on_hit machine t access_type bblid2 simd_len2 m s2 >>= λ s3. some (record {
          hit = true;
          levels =
              updated (set_index_of l.set_index_mask t) (find t now).1 access_type true m ∷ rest;
          bottom = r.bottom;
          state = s3;
        }) in
      let again =
        hit-again addr2 access_type bblid2 simd_len2 m rest r.bottom s2 now
          (subst (λ t. Holds t (set_index_of l.set_index_mask t) m now) (sym same) held) in
      (
        m,
        now,
        rest,
        after,
        held.0,
        held.1,
        subst (λ x. reach x ≡ repeated (tag_of l.line_shift addr)) (sym after)
            (subst (λ t. reach (m ∷ rest) ≡ repeated t) same again),
      )
