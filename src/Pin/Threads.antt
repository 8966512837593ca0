-- ===== src/Pin/Threads.antt =====
-- The marks of a thread, its start, and the analysis calls, when the annotations are bracketed.
use pimprof.Base.{
  ℕ, ◌+◌, ◌<◌, ◌≡◌, refl, inl, inr, Bool, true, false, not, ◌||◌, List, [], ◌∷◌, ◌++◌, Option, some,
  length, get_elem?, set, arith, if◌then◌else◌, length-append, length-set, Double, get_elem?-some,
  Bool-cases, >>=-run, u64_mod, ◌%◌,
}
use pimprof.Common.{BblId, Uuid}
use pimprof.Pin.{
  Package, new_scope, set_in_roi, do_at_roi_decision_head, do_at_roi_decision_tail, thread_start,
  Request,
}
use pimprof.Pin.Count.{none_decided, is_sampled, current_block, is_watched, note_request}
use pimprof.Pin.Run.{Brackets}
use pimprof.Pin.Scopes.{write-set, AllNamed-get, AllNamed-start, Named-top}
use pimprof.Pin.Sound.{Follows}

module _ {ℓ} {C : Type ℓ} ⦃d : Double C⦄ where
  -- A handler that leaves the scopes and the tables of the blocks in place.
  threads-Follows :
      (marks decisions : List Bool) (previous : List ℕ) (n m : ℕ) (rs : List Request)
      (p : Package C) (b : Brackets)
      → length marks ≡ length p.thread_bbl_scope
      → length decisions ≡ length p.thread_bbl_scope
      → length previous ≡ length p.thread_bbl_scope
      → Follows p b
      → Follows
          (record p {
            thread_in_roi = marks;
            thread_in_roidecision = decisions;
            previous_instr = previous;
            enter_roi_cnt = n;
            exit_roi_cnt = m;
            requests = rs;
          })
          b
  threads-Follows marks decisions previous n m rs p b h1 h2 h3 f = record {
    named = f.named;
    sized = f.sized;
    threaded = (h1, h2, h3);
    seen = f.seen;
  }

  -- What holds of a handler on a package: it does not fail, and follows the brackets.
  abbrev pub Succeeds : (Package C → Option (Package C)) → Package C → Brackets → Type ℓ
  Succeeds handler p b = (q : Package C) × (handler p ≡ some q) × Follows q b

  pub set_in_roi-Succeeds :
      (inside : Bool) (t : ℕ) (p : Package C) (b : Brackets)
      → Follows p b
      → t < length p.thread_bbl_scope
      → Succeeds (set_in_roi inside t) p b
  unfolding set_in_roi
  set_in_roi-Succeeds inside t p b f below = elim (Bool-cases p.enable_roi) [
    | inr off ↦ (p, rw off refl, f)
    | inl on ↦
        let (h1, h2, h3) = f.threaded in
        let marks = set p.thread_in_roi t inside in
        (
          record p { thread_in_roi = marks },
          rw (on, write-set p.thread_in_roi t inside (omega (arith, h1))) refl,
          threads-Follows marks p.thread_in_roidecision p.previous_instr p.enter_roi_cnt
              p.exit_roi_cnt p.requests p b (omega (arith, length-set p.thread_in_roi t inside, h1))
              h2 h3 f,
        )
  ]

  -- Both handlers of a region, whatever they count.
  abbrev marked : Bool → ℕ → ℕ → ℕ → Package C → Package C
  marked inside t n m p = record p {
    thread_in_roidecision = set p.thread_in_roidecision t inside;
    enter_roi_cnt = n;
    exit_roi_cnt = m;
  }

  marked-Follows :
      (inside : Bool) (t n m : ℕ) (p : Package C) (b : Brackets)
      → Follows p b
      → Follows (marked inside t n m p) b
  marked-Follows inside t n m p b f =
      let (h1, h2, h3) = f.threaded in
      threads-Follows p.thread_in_roi (set p.thread_in_roidecision t inside) p.previous_instr n m
        p.requests p b h1 (omega (arith, length-set p.thread_in_roidecision t inside, h2)) h3 f

  pub do_at_roi_decision_head-Succeeds :
      (t : ℕ) (p : Package C) (b : Brackets)
      → Follows p b
      → t < length p.thread_bbl_scope
      → Succeeds (do_at_roi_decision_head t) p b
  unfolding do_at_roi_decision_head
  do_at_roi_decision_head-Succeeds t p b f below = elim (Bool-cases p.enable_roi_decision) [
    | inr off ↦ (p, rw off refl, f)
    | inl on ↦
        let within : t < length p.thread_in_roidecision = omega (arith, f.threaded.1) in
        let (inside, at_flag) = get_elem?-some p.thread_in_roidecision t within in
        let n = if inside then p.enter_roi_cnt else (p.enter_roi_cnt + 1) % u64_mod in
        (
          marked true t n p.exit_roi_cnt p,
          rw on (
              >>=-run _ at_flag (>>=-run _ (write-set p.thread_in_roidecision t true within) refl)),
          marked-Follows true t n p.exit_roi_cnt p b f,
        )
  ]

  pub do_at_roi_decision_tail-Succeeds :
      (t : ℕ) (p : Package C) (b : Brackets)
      → Follows p b
      → t < length p.thread_bbl_scope
      → Succeeds (do_at_roi_decision_tail t) p b
  unfolding do_at_roi_decision_tail
  do_at_roi_decision_tail-Succeeds t p b f below = elim (Bool-cases p.enable_roi_decision) [
    | inr off ↦ (p, rw off refl, f)
    | inl on ↦
        let within : t < length p.thread_in_roidecision = omega (arith, f.threaded.1) in
        let (inside, at_flag) = get_elem?-some p.thread_in_roidecision t within in
        let n = if inside then (p.exit_roi_cnt + 1) % u64_mod else p.exit_roi_cnt in
        (
          marked false t p.enter_roi_cnt n p,
          rw on (
              >>=-run _ at_flag
                (>>=-run _ (write-set p.thread_in_roidecision t false within) refl)),
          marked-Follows false t p.enter_roi_cnt n p b f,
        )
  ]

  pub thread_start-Follows :
      (p : Package C) (b : Brackets)
      → Follows p b
      → Follows (thread_start p) (record b { open_blocks = b.open_blocks ++ ([] ∷ []) })
  unfolding thread_start
  thread_start-Follows p b f =
      let (h1, h2, h3) = f.threaded in
      let grown = length-append p.thread_bbl_scope (new_scope ∷ []) in
      record {
        named = AllNamed-start p.bbl_hash b.open_blocks p.thread_bbl_scope f.named;
        sized = f.sized;
        threaded = (
          omega (arith, grown, length-append p.thread_in_roi (not p.enable_roi ∷ []), h1),
          omega (
            arith,
            grown,
            length-append p.thread_in_roidecision (not p.enable_roi_decision ∷ []),
            h2,
          ),
          omega (arith, grown, length-append p.previous_instr (0 ∷ []), h3),
        );
        seen = f.seen;
      }

  -- The first lines of an analysis call, for a thread that runs.
  pub current_block-some :
      (t : ℕ) (p : Package C) (b : Brackets) (us : List Uuid)
      → Follows p b
      → get_elem? b.open_blocks t ≡ some us
      → (i : BblId) × (current_block t p ≡ some i) × (0 < p.bbl_size → i < p.bbl_size)
  unfolding current_block
  current_block-some t p b us f running =
      let (ids, at_scope, named) =
        AllNamed-get p.bbl_hash b.open_blocks p.thread_bbl_scope t us f.named running in
      let (i, top_is, below) = Named-top p.bbl_hash us ids p.bbl_size named f.sized.0 in
      (i, >>=-run _ at_scope top_is, below)

  pub is_watched-some :
      (t : ℕ) (p : Package C) → t < length p.thread_in_roi → (w : Bool) × (is_watched t p ≡ some w)
  unfolding is_watched
  is_watched-some t p below =
      let (in_roi, e) = get_elem?-some p.thread_in_roi t below in
      (in_roi || not (none_decided p.roi_decision), rw e refl)

  pub note_request-Succeeds :
      (t : ℕ) (update : ℕ → ℕ) (r : Request) (p : Package C) (b : Brackets)
      → Follows p b
      → t < length p.thread_bbl_scope
      → Succeeds (note_request t update r) p b
  unfolding note_request
  note_request-Succeeds t update r p b f below =
      let (h1, h2, h3) = f.threaded in
      let within : t < length p.previous_instr = omega (arith, h3) in
      let (count, at_count) = get_elem?-some p.previous_instr t within in
      let counts = set p.previous_instr t (update count) in
      let rs = if is_sampled p.thread_count t then r ∷ p.requests else p.requests in
      (
        record p { previous_instr = counts; requests = rs },
        >>=-run _ at_count (>>=-run _ (write-set p.previous_instr t (update count) within) refl),
        threads-Follows p.thread_in_roi p.thread_in_roidecision counts p.enter_roi_cnt
            p.exit_roi_cnt rs p b h1 h2
            (omega (arith, length-set p.previous_instr t (update count), h3)) f,
      )
