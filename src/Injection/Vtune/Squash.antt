-- ===== src/Injection/Vtune/Squash.antt =====
-- Which events VTune sees.
use pimprof.Base.{
  ◌-◌, u64_mod, ◌≡◌, refl, ap, ◌∙◌, inl, inr, Bool, true, false, ◌&&◌, List, [], ◌∷◌, ◌++◌, some,
  map, ◌==◌, leb, if◌then◌else◌, arith, All, Bool-cases, Option-cases,
}
use pimprof.Common.{Uuid, uuid_eq}
use pimprof.Injection.{vtune_resume, vtune_detach, vtune_frame_begin, vtune_frame_end}
use pimprof.Injection.Vtune.{
  vtune_pause, no_mode, Annotation, annotation_eq, Itt, frame_begin, frame_end, resume, pause,
  detach, Domains, start, find_domain, bblhash, begin_frame, end_frame, vtune_annotation, run_vtune,
}

-- A mode that has an event.
abbrev pub is_known : Annotation → Bool
is_known c = leb 1 c.mode && leb c.mode 5

abbrev pub only_known : List Annotation → List Annotation
only_known [] = []
only_known (c ∷ cs) = if is_known c then c ∷ only_known cs else only_known cs

-- The calls that differ from the one before; `c` is the one before the first.
abbrev pub squash_from : Annotation → List Annotation → List Annotation
squash_from c [] = []
squash_from c (x ∷ xs) = let rest = squash_from x xs in if annotation_eq c x then rest else x ∷ rest

abbrev pub squash : List Annotation → List Annotation
squash [] = []
squash (c ∷ cs) = c ∷ squash_from c cs

first_lem :
    (c : Annotation)
    → is_known c ≡ true
    → annotation_eq (record { mode = no_mode; uuid_hi = u64_mod - 1; uuid_lo = u64_mod - 1 }) c
      ≡ false
unfolding annotation_eq
first_lem c k = ground arith

annotation_eq→eq : (c x : Annotation) → annotation_eq c x ≡ true → c ≡ x
unfolding annotation_eq
annotation_eq→eq c x e = ground arith

module _ {ℓ} {D : Type ℓ} (create : Uuid → D) where
  -- The event of a call with a known mode, without a memory.
  abbrev pub event : Annotation → Itt D
  event c =
      if c.mode == vtune_frame_begin
      then frame_begin (create (bblhash c))
      else if c.mode == vtune_frame_end
      then frame_end (create (bblhash c))
      else if c.mode == vtune_resume
      then resume
      else if c.mode == vtune_pause
      then pause
      else detach

  abbrev pub IsFaithful : Domains D → Type ℓ
  IsFaithful s = All (λ e. e.1 ≡ create e.0) s.domains

  find_domain-create :
      (u : Uuid) (ds : List (Uuid × D)) (x : D)
      → All (λ e. e.1 ≡ create e.0) ds
      → find_domain u ds ≡ some x
      → x ≡ create u
  unfolding find_domain uuid_eq
  find_domain-create u [] x h e = absurd (ground arith)
  find_domain-create u ((v, y) ∷ ds) x (p, h) e = elim (Bool-cases (uuid_eq v u)) [
    | inl here ↦
        let key : v ≡ u = ground arith in
        let same : y ≡ x = ground arith in rw (← same, p, key) refl
    | inr there ↦ find_domain-create u ds x h (ground arith)
  ]

  begin_frame_lem :
      (c : Annotation) (s : Domains D)
      → IsFaithful s
      → ((begin_frame create c s).0 ≡ frame_begin (create (bblhash c)) ∷ [])
        × ((begin_frame create c s).1.prev ≡ c)
        × IsFaithful (begin_frame create c s).1
  unfolding begin_frame
  begin_frame_lem c s h = elim (Option-cases (find_domain (bblhash c) s.domains)) [
    | inl e ↦ rw (e, begin_frame) (refl, refl, (refl, h))
    | inr (x, e) ↦
        let key = find_domain-create (bblhash c) s.domains x h e in
        rw (e, begin_frame) (ap (λ y. frame_begin y ∷ []) key, refl, h)
  ]

  end_frame_lem :
      (c : Annotation) (s : Domains D)
      → IsFaithful s
      → ((end_frame create c s).0 ≡ frame_end (create (bblhash c)) ∷ [])
        × ((end_frame create c s).1.prev ≡ c)
        × IsFaithful (end_frame create c s).1
  unfolding end_frame
  end_frame_lem c s h = elim (Option-cases (find_domain (bblhash c) s.domains)) [
    | inl e ↦ rw (e, end_frame) (refl, refl, (refl, h))
    | inr (x, e) ↦
        let key = find_domain-create (bblhash c) s.domains x h e in
        rw (e, end_frame) (ap (λ y. frame_end y ∷ []) key, refl, h)
  ]

  -- What a call does when it differs from the one before.
  fresh_lem :
      (c : Annotation) (s : Domains D)
      → IsFaithful s
      → annotation_eq s.prev c ≡ false
      → is_known c ≡ true
      → ((vtune_annotation create c s).0 ≡ event c ∷ [])
        × ((vtune_annotation create c s).1.prev ≡ c)
        × IsFaithful (vtune_annotation create c s).1
  unfolding vtune_annotation
  fresh_lem c s h e k = elim (Bool-cases (c.mode == vtune_frame_begin)) [
    | inl e1 ↦ rw (e, e1, vtune_annotation) (begin_frame_lem c s h)
    | inr e1 ↦ elim (Bool-cases (c.mode == vtune_frame_end)) [
      | inl e2 ↦ rw (e, e1, e2, vtune_annotation) (end_frame_lem c s h)
      | inr e2 ↦ elim (Bool-cases (c.mode == vtune_resume)) [
        | inl e3 ↦ rw (e, e1, e2, e3, vtune_annotation) (refl, refl, h)
        | inr e3 ↦ elim (Bool-cases (c.mode == vtune_pause)) [
          | inl e4 ↦ rw (e, e1, e2, e3, e4, vtune_annotation) (refl, refl, h)
          | inr e4 ↦
              let e5 : (c.mode == vtune_detach) ≡ true = ground arith in
              rw (e, e1, e2, e3, e4, e5, vtune_annotation) (refl, refl, h)
        ]
      ]
    ]
  ]

  quiet_lem :
      (c : Annotation) (s : Domains D) → is_known c ≡ false → vtune_annotation create c s ≡ ([], s)
  unfolding vtune_annotation
  quiet_lem c s k = ground arith

  repeat_lem :
      (c : Annotation) (s : Domains D)
      → annotation_eq s.prev c ≡ true
      → vtune_annotation create c s ≡ ([], s)
  unfolding vtune_annotation
  repeat_lem c s e = rw e refl

  run_vtune_lem :
      (cs : List Annotation) (s : Domains D)
      → IsFaithful s
      → (run_vtune create cs s).0 ≡ map event (squash_from s.prev (only_known cs))
  unfolding run_vtune
  run_vtune_lem [] s h = refl
  run_vtune_lem (c ∷ cs) s h = elim (Bool-cases (is_known c)) [
    | inr k ↦ rw (quiet_lem c s k, k) (run_vtune_lem cs s h)
    | inl k ↦ elim (Bool-cases (annotation_eq s.prev c)) [
      | inl e ↦
          rw (repeat_lem c s e, k, e)
            (run_vtune_lem cs s h
              ∙ ap (λ x. map event (squash_from x (only_known cs))) (annotation_eq→eq s.prev c e))
      | inr e ↦
          let (now, prev, faithful) = fresh_lem c s h e k in
          let later = run_vtune create cs (vtune_annotation create c s).1 in
          ap (λ o. o ++ later.0) now
          ∙ ap (◌∷◌ (event c)) (
              run_vtune_lem cs (vtune_annotation create c s).1 faithful
              ∙ ap (λ x. map event (squash_from x (only_known cs))) prev)
          ∙ rw (k, e) refl
    ]
  ]

  start-squash :
      (cs : List Annotation)
      → squash_from (start {D = D}).prev (only_known cs) ≡ squash (only_known cs)
  start-squash [] = refl
  start-squash (c ∷ cs) = elim (Bool-cases (is_known c)) [
    | inr k ↦ rw k (start-squash cs)
    | inl k ↦
        let other : annotation_eq (start {D = D}).prev c ≡ false = first_lem c k in
        rw (k, other) refl
  ]

  -- From the start VTune sees one event for each run of equal calls, calls with an unknown mode left
  -- out: the event of the mode, and for a frame with the domain of the name that the hash gives,
  -- whichever call has made it.
  pub run_vtune-squash :
      (cs : List Annotation) → (run_vtune create cs start).0 ≡ map event (squash (only_known cs))
  run_vtune-squash cs = run_vtune_lem cs start tt ∙ ap (map event) (start-squash cs)
