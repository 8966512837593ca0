-- ===== src/Storage/Survival.antt =====
-- Round-robin replacement: a tag stays until every other line of its set has been replaced.
use pimprof.Base.{
  get_elem?-some, ℕ, zero, suc, ◌-◌, ◌+◌, ◌≤◌, ◌<◌, ◌≡◌, refl, inl, inr, true, List, [], ◌∷◌,
  Option, some, length, ◌==◌, if◌then◌else◌, arith, ◌>>=◌, Bool-cases, get_elem?, set, length-set,
  get_elem?-set, leb,
}
use pimprof.Storage.{RoundRobin, has_tag, find_round_robin, replace_round_robin, access_round_robin}

-- The accesses of a trace.
unfoldable pub run_round_robin : List ℕ → RoundRobin → Option RoundRobin
unfolding access_round_robin
run_round_robin [] s = some s
run_round_robin (t ∷ trace) s = access_round_robin t s >>= λ r. run_round_robin trace r.1

-- The line to be replaced next is one of the set.
abbrev pub IsRing : RoundRobin → Type 0
IsRing s = s.next_replace < length s.tags

-- How many replacements line `p` outlives.
abbrev lifetime : ℕ → RoundRobin → ℕ
lifetime p s =
    if leb p s.next_replace then s.next_replace - p else s.next_replace + length s.tags - p

-- Line `p` holds `a`, and outlives `n` replacements.
record Holds (p a n : ℕ) (s : RoundRobin) : Type 0 where
  ring : IsRing s
  held : get_elem? s.tags p ≡ some a
  inside : p < length s.tags
  outlives : n ≤ lifetime p s

abbrev replaced : ℕ → RoundRobin → RoundRobin
replaced t s = record {
  tags = set s.tags s.next_replace t;
  next_replace = if s.next_replace == 0 then length s.tags - 1 else s.next_replace - 1;
}

replace-replaced :
    (t : ℕ) (s : RoundRobin) → IsRing s → replace_round_robin t s ≡ some (replaced t s)
unfolding replace_round_robin
replace-replaced t s h = let (old, e) = get_elem?-some s.tags s.next_replace h in rw e refl

Holds-replaced : (p a n t : ℕ) (s : RoundRobin) → Holds p a (suc n) s → Holds p a n (replaced t s)
Holds-replaced p a n t s h =
    let ring = h.ring in
    let inside = h.inside in
    let outlives = h.outlives in
    let held = h.held in
    let size = length-set s.tags s.next_replace t in
    record {
      ring = ground arith;
      held = ground (arith, get_elem?-set s.tags s.next_replace t p);
      inside = rw size inside;
      outlives = rw size (ground arith);
    }

find_held : (p a : ℕ) (tags : List ℕ) → get_elem? tags p ≡ some a → has_tag a tags ≡ true
unfolding has_tag
find_held p a [] e = absurd (ground arith)
find_held zero a (t ∷ tags) e = ground arith
find_held (suc p) a (t ∷ tags) e = ground (arith, find_held p a tags)

Holds-less : (p a n : ℕ) (s : RoundRobin) → Holds p a (suc n) s → Holds p a n s
Holds-less p a n s h = record {
  ring = h.ring;
  held = h.held;
  inside = h.inside;
  outlives = let o = h.outlives in omega arith;
}

run-Holds :
    (p a : ℕ) (trace : List ℕ) (s : RoundRobin)
    → Holds p a (length trace) s
    → (s' : RoundRobin) × (run_round_robin trace s ≡ some s') × (find_round_robin a s' ≡ true)
unfolding run_round_robin access_round_robin find_round_robin
run-Holds p a [] s h = (s, refl, find_held p a s.tags h.held)
run-Holds p a (t ∷ trace) s h = elim (Bool-cases (has_tag t s.tags)) [
  | inl hit ↦
      let (s', run, found) = run-Holds p a trace s (Holds-less p a (length trace) s h) in
      (s', rw hit run, found)
  | inr miss ↦
      let (s', run, found) =
        run-Holds p a trace (replaced t s) (Holds-replaced p a (length trace) t s h) in
      (s', rw (miss, replace-replaced t s h.ring) run, found)
]

-- On a round-robin set whose next line exists, a replaced tag is found again after any accesses that
-- are fewer than the lines of the set; replacement and all accesses run through.
pub replace_round_robin-survives :
    (a : ℕ) (trace : List ℕ) (s : RoundRobin)
    → IsRing s
    → length trace < length s.tags
    → (s1 : RoundRobin) × (s2 : RoundRobin) × (replace_round_robin a s ≡ some s1)
      × (run_round_robin trace s1 ≡ some s2)
      × (find_round_robin a s2 ≡ true)
replace_round_robin-survives a trace s ring few =
    let size = length-set s.tags s.next_replace a in
    let start : Holds s.next_replace a (length trace) (replaced a s) = record {
      ring = rw size (ground arith);
      held =
          (let (old, e) = get_elem?-some s.tags s.next_replace ring in
            ground (arith, get_elem?-set s.tags s.next_replace a s.next_replace));
      inside = rw size ring;
      outlives = rw size (ground arith);
    } in
    let (s2, run, found) = run-Holds s.next_replace a trace (replaced a s) start in
    (replaced a s, s2, replace-replaced a s ring, run, found)
