-- ===== src/Pin/Heads.antt =====
-- The annotation handlers of the Pin tool when the annotations are bracketed.
use pimprof.Base.{
  ℕ, ◌≡◌, refl, sym, ap, subst, inl, inr, true, ◌||◌, List, [], ◌∷◌, some, get_elem?, set, arith,
  if◌then◌else◌, assert_that, ◌==◌, length-set, Double, get_elem?-some, some-get_elem?, Bool-cases,
  >>=-run, ==_refl,
}
use pimprof.Common.{BblId, Uuid, uuid_eq}
use pimprof.Stats.{find_hash}
use pimprof.Stats.Table.{uuid_eq→eq}
use pimprof.Pin.{
  Package, numbered, do_at_annotation_head, do_at_annotation_tail, hash_or_insert, is_set,
  increment, is_positive, push, top, decrement, pop,
}
use pimprof.Pin.Run.{Brackets, close}
use pimprof.Pin.Sound.{
  Follows, numbered-Follows, parallel-Follows, region_flag, region-Follows, scope-Follows,
}
use pimprof.Pin.Scopes.{Named, write-set, AllNamed-get}

close-eq : (u : Uuid) (us rest : List Uuid) → close u us ≡ some rest → us ≡ u ∷ rest
unfolding close
close-eq u [] rest h = absurd (ground arith)
close-eq u (v ∷ us) rest h = elim (Bool-cases (uuid_eq u v)) [
  | inl same ↦
      let e = uuid_eq→eq u v same in let kept : us ≡ rest = ground (arith, same) in cc (e, kept)
  | inr other ↦ absurd (ground (arith, other))
]

module _ {ℓ} {C : Type ℓ} ⦃d : Double C⦄ where
  -- A head of a thread that runs does not fail, and opens the block.
  pub do_at_annotation_head-Follows :
      (u : Uuid) (isomp t : ℕ) (p : Package C) (b : Brackets) (us : List Uuid)
      → Follows p b
      → get_elem? b.open_blocks t ≡ some us
      → (q : Package C) × (do_at_annotation_head u.first u.second isomp t p ≡ some q)
        × Follows q (record { open_blocks = set b.open_blocks t (u ∷ us); any_seen = true })
  unfolding do_at_annotation_head
  do_at_annotation_head-Follows u isomp t p b us f running =
      let (f1, numbered_so) = numbered-Follows u p b f in
      let i = (numbered u p).0 in
      let p1 = (numbered u p).1 in
      let below = f1.sized.0 u i numbered_so in
      let (was, at_mark) =
        get_elem?-some p1.bbl_parallelizable i (omega (arith, f1.sized.1, below)) in
      let k = if is_set isomp then increment p1.in_omp_parallel else p1.in_omp_parallel in
      let x = if t == 1 then true else was || is_positive k in
      let marked =
        write-set p1.bbl_parallelizable i x (some-get_elem? p1.bbl_parallelizable i was at_mark) in
      let p2 = record p1 {
        in_omp_parallel = k;
        bbl_parallelizable = set p1.bbl_parallelizable i x;
      } in
      let f2 =
        parallel-Follows (set p1.bbl_parallelizable i x) k p1 b
          (omega (arith, length-set p1.bbl_parallelizable i x, f1.sized.1)) f1 in
      let (ids1, at1, named1) =
        AllNamed-get p1.bbl_hash b.open_blocks p1.thread_bbl_scope t us f1.named running in
      let (r, region, on) = region_flag t p2 b f2 (some-get_elem? p1.thread_bbl_scope t ids1 at1) in
      let (p3, decided, f3, same) = region-Follows r i p2 b below on f2 in
      let (ids, at_scope, named) =
        AllNamed-get p3.bbl_hash b.open_blocks p3.thread_bbl_scope t us f3.named running in
      let written =
        write-set p3.thread_bbl_scope t (push i ids)
          (some-get_elem? p3.thread_bbl_scope t ids at_scope) in
      let still : find_hash u p3.bbl_hash ≡ some i =
        subst (λ h. find_hash u h ≡ some i) (sym same) numbered_so in
      (
        record p3 { thread_bbl_scope = set p3.thread_bbl_scope t (push i ids) },
        >>=-run _ at_mark (
            >>=-run _ marked
              (>>=-run _ region (>>=-run _ decided (>>=-run _ at_scope (>>=-run _ written refl))))),
        scope-Follows t (push i ids) (u ∷ us) p3 b f3 (i, ids, refl, still, named) true
            (λ _. omega (arith, f3.sized.0 u i still)),
      )

  hash_old :
      (u : Uuid) (p : Package C) (i : BblId)
      → find_hash u p.bbl_hash ≡ some i
      → hash_or_insert u p ≡ (i, p)
  unfolding hash_or_insert
  hash_old u p i known = rw (hash_or_insert, known) refl

  -- A tail of the last block that the thread opened does not fail, and closes it.
  pub do_at_annotation_tail-Follows :
      (u : Uuid) (isomp t : ℕ) (p : Package C) (b : Brackets) (us rest : List Uuid)
      → Follows p b
      → get_elem? b.open_blocks t ≡ some us
      → close u us ≡ some rest
      → (q : Package C) × (do_at_annotation_tail u.first u.second isomp t p ≡ some q)
        × Follows q (record b { open_blocks = set b.open_blocks t rest })
  unfolding do_at_annotation_tail
  do_at_annotation_tail-Follows u isomp t p b us rest f running closes =
      let (ids, at_scope, named) =
        AllNamed-get p.bbl_hash b.open_blocks p.thread_bbl_scope t us f.named running in
      let (i, left, top_is, known, below) =
        subst (λ x. Named p.bbl_hash x ids) (close-eq u us rest closes) named in
      let k = if is_set isomp then decrement p.in_omp_parallel else p.in_omp_parallel in
      let p1 = record p { in_omp_parallel = k } in
      let f1 : Follows p1 b = record {
        named = f.named;
        sized = f.sized;
        threaded = f.threaded;
        seen = f.seen;
      } in
      let hashed = hash_old u p1 i known in
      let asserted : assert_that (i == (hash_or_insert u p1).0) ≡ some tt =
        rw (hashed, ==_refl i) refl in
      let written =
        write-set p.thread_bbl_scope t left (some-get_elem? p.thread_bbl_scope t ids at_scope) in
      (
        record p1 { thread_bbl_scope = set p.thread_bbl_scope t left },
        >>=-run _ at_scope (
            >>=-run _ (ap top top_is) (
              >>=-run _ asserted (>>=-run _ (ap pop top_is) (>>=-run _ written (rw hashed refl))))),
        scope-Follows t left rest p1 b f1 below b.any_seen f.seen,
      )
