-- ===== src/Pin/Sound.antt =====
-- The handlers of the Pin tool on a program whose annotations are bracketed: none fails, and the
-- scopes name the open basic blocks of their threads.
use pimprof.Base.{
  ℕ, suc, ◌<◌, ◌≡◌, refl, inl, inr, Bool, true, false, List, [], ◌∷◌, ◌++◌, none, some, length,
  get_elem?, set, arith, if◌then◌else◌, length-append, length-set, Double, get_elem?-some,
  Bool-cases, Option-cases,
}
use pimprof.Base.Signed.{ℤ}
use pimprof.Common.{BblId, Uuid, cpu, pim}
use pimprof.Stats.{find_hash}
use pimprof.Stats.Table.{uuid_eq_refl}
use pimprof.Pin.{Package, initialize_new_bbl, numbered, place_on_pim}
use pimprof.Pin.Run.{Brackets}
use pimprof.Pin.Scopes.{Named, AllNamed, write-set, numbers-new, AllNamed-new, AllNamed-set}

pub one_more {ℓ} :
    {A : Type ℓ} {n : ℕ} (xs : List A) (x : A) → length xs ≡ n → length (xs ++ (x ∷ [])) ≡ suc n
one_more xs x h = omega (arith, length-append xs (x ∷ []), h)

module _ {ℓ} {C : Type ℓ} ⦃d : Double C⦄ where
  -- The numbers of the blocks are below the size of the tables, which have a row per block: those of
  -- the marks, of the costs on both sites and, where it is kept, of the decision.
  abbrev pub IsSized : Package C → Type 0
  IsSized p =
      ((u : Uuid) (i : BblId) → find_hash u p.bbl_hash ≡ some i → i < p.bbl_size)
      × (length p.bbl_parallelizable ≡ p.bbl_size)
      × (length p.bbl_instruction_cost.on_cpu ≡ p.bbl_size)
      × (length p.bbl_instruction_cost.on_pim ≡ p.bbl_size)
      × (p.enable_roi_decision ≡ true → length p.roi_decision ≡ p.bbl_size)

  -- The tables of the threads have a row per thread.
  abbrev pub IsThreaded : Package C → Type 0
  IsThreaded p =
      (length p.thread_in_roi ≡ length p.thread_bbl_scope)
      × (length p.thread_in_roidecision ≡ length p.thread_bbl_scope)
      × (length p.previous_instr ≡ length p.thread_bbl_scope)

  -- A package that has seen what the brackets have.
  pub record Follows (p : Package C) (b : Brackets) : Type 0 where
    pub named : AllNamed p.bbl_hash b.open_blocks p.thread_bbl_scope
    pub sized : IsSized p
    pub threaded : IsThreaded p
    pub seen : b.any_seen ≡ true → 0 < p.bbl_size

  -- `numbered` gives a block a number below the size of the tables.
  found :
      (u : Uuid) (p : Package C) → find_hash u (initialize_new_bbl u p).bbl_hash ≡ some p.bbl_size
  unfolding find_hash initialize_new_bbl
  found u p = rw (uuid_eq_refl u) refl

  initialize-Follows :
      (u : Uuid) (p : Package C) (b : Brackets)
      → Follows p b
      → find_hash u p.bbl_hash ≡ none
      → Follows (initialize_new_bbl u p) b
  unfolding initialize_new_bbl find_hash
  initialize-Follows u p b f free =
      let (numbers, parallelizable, cpu_costs, pim_costs, decided) = f.sized in
      record {
        named = AllNamed-new p.bbl_hash u p.bbl_size _ _ free f.named;
        sized = (
          numbers-new p.bbl_hash u p.bbl_size numbers,
          one_more p.bbl_parallelizable p.enable_roi parallelizable,
          one_more p.bbl_instruction_cost.on_cpu _ cpu_costs,
          one_more p.bbl_instruction_cost.on_pim _ pim_costs,
          λ on. rw on (one_more p.roi_decision cpu (decided on)),
        );
        threaded = f.threaded;
        seen = λ h. omega arith;
      }

  numbered_old :
      (u : Uuid) (p : Package C) (i : BblId)
      → find_hash u p.bbl_hash ≡ some i
      → numbered u p ≡ (i, p)
  unfolding numbered
  numbered_old u p i known = rw (numbered, known) refl

  numbered_new :
      (u : Uuid) (p : Package C)
      → find_hash u p.bbl_hash ≡ none
      → numbered u p ≡ (p.bbl_size, initialize_new_bbl u p)
  unfolding numbered
  numbered_new u p free = rw (numbered, free) refl

  pub numbered-Follows :
      (u : Uuid) (p : Package C) (b : Brackets)
      → Follows p b
      → Follows ((numbered u p).1) b
        × (find_hash u (numbered u p).1.bbl_hash ≡ some (numbered u p).0)
  numbered-Follows u p b f = elim (Option-cases (find_hash u p.bbl_hash)) [
    | inl free ↦ rw (numbered_new u p free) (initialize-Follows u p b f free, found u p)
    | inr (i, known) ↦ rw (numbered_old u p i known) (f, known)
  ]

  -- A write to `_bbl_parallelizable`.
  pub parallel-Follows :
      (xs : List Bool) (k : ℤ) (p : Package C) (b : Brackets)
      → length xs ≡ p.bbl_size
      → Follows p b
      → Follows (record p { in_omp_parallel = k; bbl_parallelizable = xs }) b
  parallel-Follows xs k p b h f =
      let (numbers, _, cpu_costs, pim_costs, decided) = f.sized in
      record {
        named = f.named;
        sized = (numbers, h, cpu_costs, pim_costs, decided);
        threaded = f.threaded;
        seen = f.seen;
      }

  -- A region that is marked for the PIM side.
  abbrev placed : BblId → Package C → Package C
  placed i p = record p {
    roi_decision = set p.roi_decision i pim;
    bbl_parallelizable = set p.bbl_parallelizable i true;
  }

  place_on_pim-Follows :
      (i : BblId) (p : Package C) (b : Brackets)
      → i < p.bbl_size
      → p.enable_roi_decision ≡ true
      → Follows p b
      → (q : Package C) × (place_on_pim i p ≡ some q) × Follows q b × (q.bbl_hash ≡ p.bbl_hash)
  unfolding place_on_pim
  place_on_pim-Follows i p b below on f =
      let (numbers, marks, cpu_costs, pim_costs, decided) = f.sized in
      let at_decision = write-set p.roi_decision i pim (omega (arith, decided on)) in
      let at_mark = write-set p.bbl_parallelizable i true (omega (arith, marks)) in
      (
        placed i p,
        rw (at_decision, at_mark) refl,
        record {
          named = f.named;
          sized = (
            numbers,
            omega (arith, length-set p.bbl_parallelizable i true, marks),
            cpu_costs,
            pim_costs,
            λ _. omega (arith, length-set p.roi_decision i pim, decided on),
          );
          threaded = f.threaded;
          seen = f.seen;
        },
        refl,
      )

  pub region_flag :
      (t : ℕ) (p : Package C) (b : Brackets)
      → Follows p b
      → t < length p.thread_bbl_scope
      → (r : Bool) × ((if p.enable_roi_decision
            then get_elem? p.thread_in_roidecision t
            else some false)
          ≡ some r)
        × (r ≡ true → p.enable_roi_decision ≡ true)
  region_flag t p b f below = elim (Bool-cases p.enable_roi_decision) [
    | inl on ↦
        let (r, e) = get_elem?-some p.thread_in_roidecision t (omega (arith, f.threaded.1)) in
        (r, rw on e, λ _. on)
    | inr off ↦ (false, rw off refl, λ h. absurd (ground arith))
  ]

  pub region-Follows :
      (r : Bool) (i : BblId) (p : Package C) (b : Brackets)
      → i < p.bbl_size
      → (r ≡ true → p.enable_roi_decision ≡ true)
      → Follows p b
      → (q : Package C) × ((if r then place_on_pim i p else some p) ≡ some q)
        × Follows q b
        × (q.bbl_hash ≡ p.bbl_hash)
  region-Follows true i p b below on f = place_on_pim-Follows i p b below (on refl) f
  region-Follows false i p b below on f = (p, refl, f, refl)

  -- A write to the scope of a thread.
  pub scope-Follows :
      (t : ℕ) (ids : List BblId) (us : List Uuid) (p : Package C) (b : Brackets)
      → Follows p b
      → Named p.bbl_hash us ids
      → (seen : Bool) → (seen ≡ true → 0 < p.bbl_size)
      → Follows
          (record p { thread_bbl_scope = set p.thread_bbl_scope t ids })
          (record { open_blocks = set b.open_blocks t us; any_seen = seen })
  scope-Follows t ids us p b f n seen h =
      let same = length-set p.thread_bbl_scope t ids in
      let (in_roi, in_roidecision, previous) = f.threaded in
      record {
        named = AllNamed-set p.bbl_hash b.open_blocks p.thread_bbl_scope t us ids f.named n;
        sized = f.sized;
        threaded = (
          omega (arith, same, in_roi),
          omega (arith, same, in_roidecision),
          omega (arith, same, previous),
        );
        seen = h;
      }
