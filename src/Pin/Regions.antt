-- ===== src/Pin/Regions.antt =====
-- How the Pin tool counts the regions that the program marks for the PIM side.
use pimprof.Base.{
  ℕ, ◌+◌, ◌%◌, ◌≡◌, refl, ap, subst, inl, inr, Bool, true, false, List, [], ◌∷◌, some, get_elem?,
  set, arith, ◌==◌, Double, Bool-cases, >>=-eq-some, some_inj, u64_mod, All,
}
use pimprof.Common.{Uuid}
use pimprof.Common.ControlValue.{get_op_type, get_is_open_mp}
use pimprof.Pin.{
  Package, PerSite, Request, new_package, handle_magic, handle_op, thread_start, AccessType,
  do_at_annotation_head, do_at_annotation_tail, set_in_roi, numbered, initialize_new_bbl,
  do_at_roi_decision_head, do_at_roi_decision_tail, place_on_pim, write, hash_or_insert,
}
use pimprof.Pin.Count.{
  Machine, note_request, instr_cache_ref, data_cache_ref, instruction_count, count_sampled,
}
use pimprof.Pin.Run.{
  Action, thread_starts, thread_finishes, accelerates, handles_magic, counts, fetches, refers,
  perform, perform_all, IsSole,
}
use pimprof.Pin.Marks.{marked_count, marked_count-start, head_count, tail_count}

module _ {ℓ} {C : Type ℓ} ⦃d : Double C⦄ where
  -- What the regions are counted by.
  abbrev regions : Package C → Bool × ℕ × ℕ × List Bool
  regions p = (p.enable_roi_decision, p.enter_roi_cnt, p.exit_roi_cnt, p.thread_in_roidecision)

  set_in_roi-same :
      (inside : Bool) (t : ℕ) (p q : Package C)
      → set_in_roi inside t p ≡ some q
      → regions q ≡ regions p
  unfolding set_in_roi write
  set_in_roi-same inside t p q h = ground arith

  place_on_pim-same : (i : ℕ) (p q : Package C) → place_on_pim i p ≡ some q → regions q ≡ regions p
  unfolding place_on_pim write
  place_on_pim-same i p q h = ground arith

  numbered-same : (u : Uuid) (p : Package C) → regions (numbered u p).1 ≡ regions p
  unfolding numbered initialize_new_bbl
  numbered-same u p = ground arith

  head-same :
      (hi lo isomp t : ℕ) (p q : Package C)
      → do_at_annotation_head hi lo isomp t p ≡ some q
      → regions q ≡ regions p
  unfolding do_at_annotation_head write place_on_pim
  head-same hi lo isomp t p q h =
      ground (arith, numbered-same (record { first = hi; second = lo }) p)

  tail-same :
      (hi lo isomp t : ℕ) (p q : Package C)
      → do_at_annotation_tail hi lo isomp t p ≡ some q
      → regions q ≡ regions p
  unfolding do_at_annotation_tail hash_or_insert write
  tail-same hi lo isomp t p q h = ground arith

  note_request-same :
      (t : ℕ) (update : ℕ → ℕ) (r : Request) (p q : Package C)
      → note_request t update r p ≡ some q
      → regions q ≡ regions p
  unfolding note_request write
  note_request-same t update r p q h = ground arith

  instr_cache_ref-same :
      (addr size simd_len t : ℕ) (p q : Package C)
      → instr_cache_ref addr size simd_len t p ≡ some q
      → regions q ≡ regions p
  unfolding instr_cache_ref note_request write
  instr_cache_ref-same addr size simd_len t p q h = ground arith

  data_cache_ref-same :
      (ip addr size : ℕ) (a : AccessType) (simd_len t : ℕ) (p q : Package C)
      → data_cache_ref ip addr size a simd_len t p ≡ some q
      → regions q ≡ regions p
  unfolding data_cache_ref note_request write
  data_cache_ref-same ip addr size a simd_len t p q h = ground arith

  instruction_count-same :
      (machine : PerSite (Machine C)) (opcode : ℕ) (ismem : Bool) (simd_len t : ℕ) (p q : Package C)
      → instruction_count machine opcode ismem simd_len t p ≡ some q
      → regions q ≡ regions p
  unfolding instruction_count count_sampled
  instruction_count-same machine opcode ismem simd_len t p q h = ground arith

  -- The program may mark regions, and as many were entered as were left and are marked now.
  abbrev pub Counted : Package C → Type 0
  Counted p =
      (p.enable_roi_decision ≡ true)
      × (p.enter_roi_cnt ≡ (p.exit_roi_cnt + marked_count p.thread_in_roidecision) % u64_mod)

  same-Counted : (p q : Package C) → regions q ≡ regions p → Counted p → Counted q
  same-Counted p q same (on, c) = (
    ground (arith, ap (λ r. r.0) same),
    rw (ap (λ r. r.1) same, ap (λ r. r.2) same, ap (λ r. r.3) same) c,
  )

  head-Counted :
      (t : ℕ) (p q : Package C) → do_at_roi_decision_head t p ≡ some q → Counted p → Counted q
  unfolding do_at_roi_decision_head write
  head-Counted t p q h (on, c) =
      let (inside, at_flag, h1) =
        >>=-eq-some (get_elem? p.thread_in_roidecision t) _ (rw on at h) in
      let (flags, wrote, h2) = >>=-eq-some (write p.thread_in_roidecision t true) _ h1 in
      let same : set p.thread_in_roidecision t true ≡ flags = ground (arith, wrote, at_flag) in
      subst Counted (some_inj (rw (← same) at h2))
        (refl, head_count inside p.thread_in_roidecision t p.enter_roi_cnt p.exit_roi_cnt at_flag c)

  tail-Counted :
      (t : ℕ) (p q : Package C) → do_at_roi_decision_tail t p ≡ some q → Counted p → Counted q
  unfolding do_at_roi_decision_tail write
  tail-Counted t p q h (on, c) =
      let (inside, at_flag, h1) =
        >>=-eq-some (get_elem? p.thread_in_roidecision t) _ (rw on at h) in
      let (flags, wrote, h2) = >>=-eq-some (write p.thread_in_roidecision t false) _ h1 in
      let same : set p.thread_in_roidecision t false ≡ flags = ground (arith, wrote, at_flag) in
      subst Counted (some_inj (rw (← same) at h2))
        (refl, tail_count inside p.thread_in_roidecision t p.enter_roi_cnt p.exit_roi_cnt at_flag c)

  op-Counted :
      (op hi lo isomp t : ℕ) (p q : Package C)
      → handle_op op hi lo isomp t p ≡ some q
      → Counted p
      → Counted q
  unfolding handle_op
  op-Counted op hi lo isomp t p q h c = elim (Bool-cases (op == 0)) [
    | inl e0 ↦ same-Counted p q (head-same hi lo isomp t p q (rw e0 at h)) c
    | inr n0 ↦ elim (Bool-cases (op == 1)) [
      | inl e1 ↦ same-Counted p q (tail-same hi lo isomp t p q (rw (n0, e1) at h)) c
      | inr n1 ↦ elim (Bool-cases (op == 2)) [
        | inl e2 ↦ same-Counted p q (set_in_roi-same true t p q (rw (n0, n1, e2) at h)) c
        | inr n2 ↦ elim (Bool-cases (op == 3)) [
          | inl e3 ↦ same-Counted p q (set_in_roi-same false t p q (rw (n0, n1, n2, e3) at h)) c
          | inr n3 ↦ elim (Bool-cases (op == 4)) [
            | inl e4 ↦ head-Counted t p q (rw (n0, n1, n2, n3, e4) at h) c
            | inr n4 ↦ elim (Bool-cases (op == 5)) [
              | inl e5 ↦ tail-Counted t p q (rw (n0, n1, n2, n3, n4, e5) at h) c
              | inr n5 ↦ absurd (ground (arith, h))
            ]
          ]
        ]
      ]
    ]
  ]

  thread_start-Counted : (p : Package C) → Counted p → Counted (thread_start p)
  unfolding thread_start
  thread_start-Counted p (on, c) =
      (on, omega (arith, c, marked_count-start p.thread_in_roidecision p.enable_roi_decision on))

  module _ (machine : PerSite (Machine C)) where
    perform-Counted :
        (action : Action) (p q : Package C)
        → perform machine action p ≡ some q
        → Counted p
        → Counted q
    unfolding perform handle_magic
    perform-Counted thread_starts p q h c = subst Counted (some_inj h) (thread_start-Counted p c)
    perform-Counted thread_finishes p q h c = subst Counted (some_inj h) c
    perform-Counted (accelerates inside) p q h c = subst Counted (some_inj h) c
    perform-Counted (handles_magic t hi lo v) p q h c =
        op-Counted (get_op_type v) hi lo (get_is_open_mp v) t p q h c
    perform-Counted (counts t opcode ismem simd_len) p q h c =
        same-Counted p q (instruction_count-same machine opcode ismem simd_len t p q h) c
    perform-Counted (fetches t addr size simd_len) p q h c =
        same-Counted p q (instr_cache_ref-same addr size simd_len t p q h) c
    perform-Counted (refers t ip addr size a simd_len) p q h c =
        same-Counted p q (data_cache_ref-same ip addr size a simd_len t p q h) c

    run-Counted :
        (actions : List Action) (p q : Package C)
        → perform_all machine actions p ≡ some q
        → Counted p
        → Counted q
    unfolding perform_all
    run-Counted [] p q h c = subst Counted (some_inj h) c
    run-Counted (action ∷ rest) p q h c =
        let (p1, first, later) = >>=-eq-some (perform machine action p) _ h in
        run-Counted rest p1 q later (perform-Counted action p p1 first c)

    -- When a program of one thread may mark regions for the PIM side: after every sequence of
    -- callbacks that does not fail, bracketed or not, the number of regions entered is the number of
    -- regions left, plus one if the thread is in a region, up to the wrap-around of the 64-bit
    -- counters. Heads inside a region and tails outside one are not counted, and a thread that ends in
    -- a region stays counted.
    pub perform_all-counted :
        (actions : List Action) (roi : Bool) (q : Package C)
        → All IsSole actions
        → perform_all machine (thread_starts ∷ actions) (new_package roi true) ≡ some q
        → q.enter_roi_cnt ≡ (q.exit_roi_cnt + marked_count q.thread_in_roidecision) % u64_mod
    unfolding new_package
    perform_all-counted actions roi q sole h =
        (run-Counted (thread_starts ∷ actions) (new_package roi true) q h (refl, refl)).1
