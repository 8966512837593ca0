-- ===== src/Solver/Align/Held.antt =====
-- What the map of the memory side holds once the loop of `getBBLSortedStats` has aligned it.
use pimprof.Base.{
  ◌≡◌, refl, sym, ◌∙◌, inl, inr, true, false, List, [], ◌∷◌, some, arith, Double, All, Bool-cases,
  Option-cases,
}
use pimprof.Common.{Uuid, uuid_eq}
use pimprof.Solver.RunStats.{ThreadRunStats}
use pimprof.Solver.Align.{
  find_stats, put_stats, set_id, placeholder, align_step, align, pointed, all_same,
}

pub uuid_eq_flip : (u v : Uuid) → uuid_eq u v ≡ false → uuid_eq v u ≡ false
unfolding uuid_eq
uuid_eq_flip u v n = ground arith

module _ {ℓ} {C : Type ℓ} ⦃d : Double C⦄ where
  -- Basic block by basic block the same identifier and the same hash.
  abbrev pub IsAligned : List (ThreadRunStats C) → List (ThreadRunStats C) → Type 0
  IsAligned [] [] = Unit {0}
  IsAligned [] (q ∷ qs) = ⊥
  IsAligned (p ∷ ps) [] = ⊥
  IsAligned (p ∷ ps) (q ∷ qs) = (p.bblid ≡ q.bblid) × (p.bblhash ≡ q.bblhash) × IsAligned ps qs

  -- Each entry of a map carries the hash that it is stored under.
  abbrev pub IsKeyed : List (Uuid × ThreadRunStats C) → Type 0
  IsKeyed m = All (λ e. e.1.bblhash ≡ e.0) m

  pub find_stats-IsKeyed :
      (u : Uuid) (m : List (Uuid × ThreadRunStats C)) {s : ThreadRunStats C}
      → IsKeyed m
      → find_stats u m ≡ some s
      → s.bblhash ≡ u
  unfolding find_stats uuid_eq
  find_stats-IsKeyed u [] k e = absurd (ground arith)
  find_stats-IsKeyed u ((v, old) ∷ rest) {s} k e = elim (Bool-cases (uuid_eq v u)) [
    | inl here ↦
        let same : old ≡ s = ground arith in
        let key : v ≡ u = ground arith in rw (← same) (k.0 ∙ key)
    | inr there ↦ find_stats-IsKeyed u rest {s = s} k.1 (ground arith)
  ]

  pub put_stats-IsKeyed :
      (u : Uuid) (s : ThreadRunStats C) (m : List (Uuid × ThreadRunStats C))
      → s.bblhash ≡ u
      → IsKeyed m
      → IsKeyed (put_stats u s m)
  unfolding put_stats uuid_eq
  put_stats-IsKeyed u s [] e k = (e, tt)
  put_stats-IsKeyed u s ((v, old) ∷ rest) e k = elim (Bool-cases (uuid_eq v u)) [
    | inl here ↦ let key : v ≡ u = ground arith in rw (here, put_stats) (rw key e, k.1)
    | inr there ↦ rw (there, put_stats) (k.0, put_stats-IsKeyed u s rest e k.1)
  ]

  -- No key stands in two entries of a map.
  abbrev pub IsUnique : List (Uuid × ThreadRunStats C) → Type 0
  IsUnique [] = Unit {0}
  IsUnique (e ∷ rest) = All (λ x. uuid_eq x.0 e.0 ≡ false) rest × IsUnique rest

  put_stats-others :
      (u v : Uuid) (s : ThreadRunStats C) (m : List (Uuid × ThreadRunStats C))
      → uuid_eq u v ≡ false
      → All (λ x. uuid_eq x.0 v ≡ false) m
      → All (λ x. uuid_eq x.0 v ≡ false) (put_stats u s m)
  unfolding put_stats
  put_stats-others u v s [] n h = (n, tt)
  put_stats-others u v s ((w, old) ∷ rest) n h = elim (Bool-cases (uuid_eq w u)) [
    | inl here ↦ rw (here, put_stats) h
    | inr there ↦ rw (there, put_stats) (h.0, put_stats-others u v s rest n h.1)
  ]

  pub put_stats-IsUnique :
      (u : Uuid) (s : ThreadRunStats C) (m : List (Uuid × ThreadRunStats C))
      → IsUnique m
      → IsUnique (put_stats u s m)
  unfolding put_stats
  put_stats-IsUnique u s [] h = (tt, tt)
  put_stats-IsUnique u s ((w, old) ∷ rest) h = elim (Bool-cases (uuid_eq w u)) [
    | inl here ↦ rw (here, put_stats) h
    | inr there ↦
        rw (there, put_stats)
          (
            put_stats-others u w s rest (uuid_eq_flip w u there) h.0,
            put_stats-IsUnique u s rest h.1,
          )
  ]

  find-put :
      (u : Uuid) (s : ThreadRunStats C) (m : List (Uuid × ThreadRunStats C))
      → find_stats u (put_stats u s m) ≡ some s
  unfolding find_stats put_stats uuid_eq
  find-put u s [] = ground arith
  find-put u s ((w, old) ∷ rest) = ground (arith, find-put u s rest)

  find-put-other :
      (u v : Uuid) (s : ThreadRunStats C) (m : List (Uuid × ThreadRunStats C))
      → uuid_eq u v ≡ false
      → find_stats v (put_stats u s m) ≡ find_stats v m
  unfolding find_stats put_stats uuid_eq
  find-put-other u v s [] n = ground arith
  find-put-other u v s ((w, old) ∷ rest) n = ground (arith, find-put-other u v s rest n)

  align_step-other :
      (p : ThreadRunStats C) (v : Uuid) (pim : List (Uuid × ThreadRunStats C))
      → uuid_eq p.bblhash v ≡ false
      → find_stats v (align_step p pim) ≡ find_stats v pim
  unfolding align_step
  align_step-other p v pim n = elim (Option-cases (find_stats p.bblhash pim)) [
    | inl e ↦ rw (e, align_step) (find-put-other p.bblhash v (placeholder p) pim n)
    | inr (q, e) ↦ rw (e, align_step) (find-put-other p.bblhash v (set_id p.bblid q) pim n)
  ]

  -- The loop leaves the objects of other hashes alone.
  align-other :
      (ps : List (ThreadRunStats C)) (v : Uuid) (pim : List (Uuid × ThreadRunStats C))
      → All (λ p. uuid_eq p.bblhash v ≡ false) ps
      → find_stats v (align ps pim) ≡ find_stats v pim
  unfolding align
  align-other [] v pim h = refl
  align-other (p ∷ ps) v pim h =
      align-other ps v (align_step p pim) h.1 ∙ align_step-other p v pim h.0

  -- The map has an object under the hash of `p` that carries its number and hash.
  abbrev pub Holds : List (Uuid × ThreadRunStats C) → ThreadRunStats C → Type ℓ
  Holds m p =
      (q : ThreadRunStats C) × (find_stats p.bblhash m ≡ some q)
      × (p.bblid ≡ q.bblid)
      × (p.bblhash ≡ q.bblhash)

  align_step-Holds :
      (p : ThreadRunStats C) (pim : List (Uuid × ThreadRunStats C))
      → IsKeyed pim
      → Holds (align_step p pim) p × IsKeyed (align_step p pim)
  unfolding align_step
  align_step-Holds p pim k = elim (Option-cases (find_stats p.bblhash pim)) [
    | inl e ↦
        rw (e, align_step)
          (
            (placeholder p, find-put p.bblhash (placeholder p) pim, refl, refl),
            put_stats-IsKeyed p.bblhash (placeholder p) pim refl k,
          )
    | inr (q, e) ↦
        let hash = find_stats-IsKeyed p.bblhash pim {s = q} k e in
        rw (e, align_step)
          (
            (set_id p.bblid q, find-put p.bblhash (set_id p.bblid q) pim, refl, sym hash),
            put_stats-IsKeyed p.bblhash (set_id p.bblid q) pim hash k,
          )
  ]

  -- No two statistics have the same hash.
  abbrev pub HashesDiffer : List (ThreadRunStats C) → Type 0
  HashesDiffer [] = Unit {0}
  HashesDiffer (p ∷ ps) = All (λ x. uuid_eq x.bblhash p.bblhash ≡ false) ps × HashesDiffer ps

  pub align-Holds :
      (ps : List (ThreadRunStats C)) (pim : List (Uuid × ThreadRunStats C))
      → HashesDiffer ps
      → IsKeyed pim
      → All (Holds (align ps pim)) ps
  unfolding align
  align-Holds [] pim differ k = tt
  align-Holds (p ∷ ps) pim differ k =
      let ((q, found, id, hash), keyed) = align_step-Holds p pim k in
      (
        (q, align-other ps p.bblhash (align_step p pim) differ.0 ∙ found, id, hash),
        align-Holds ps (align_step p pim) differ.1 keyed,
      )

  pub pointed-IsAligned :
      (ps : List (ThreadRunStats C)) (m : List (Uuid × ThreadRunStats C))
      → All (Holds m) ps
      → (qs : List (ThreadRunStats C)) × (pointed ps m ≡ some qs)
        × (all_same ps qs ≡ true)
        × IsAligned ps qs
  unfolding pointed all_same uuid_eq
  pointed-IsAligned [] m h = ([], refl, refl, tt)
  pointed-IsAligned (p ∷ ps) m h =
      let (q, found, id, hash) = h.0 in
      let (qs, rest, same, aligned) = pointed-IsAligned ps m h.1 in
      (q ∷ qs, rw (found, rest) refl, ground (arith, same, id, hash), (id, hash, aligned))
