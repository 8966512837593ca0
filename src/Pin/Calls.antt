-- ===== src/Pin/Calls.antt =====
-- The analysis calls of an instruction, when the annotations are bracketed.
use pimprof.Base.{
  ℕ, zero, suc, ◌<◌, ◌≡◌, ◌≢◌, refl, inl, inr, Bool, true, false, ◌&&◌, List, some, length,
  get_elem?, arith, if◌then◌else◌, ◌==◌, length-set, Double, get_elem?-some, Bool-cases, >>=-run,
}
use pimprof.Common.{BblId, Uuid}
use pimprof.Pin.{Package, PerSite, Request, AccessType, fetch, reference}
use pimprof.Pin.Count.{
  Machine, max_index, is_sampled, note_request, threads, instr_cache_ref, data_cache_ref, add_to,
  instruction_cost, simd_multiplier, add_instruction_cost, is_parallel, count_sampled,
  instruction_count,
}
use pimprof.Pin.Run.{Brackets}
use pimprof.Pin.Scopes.{write-set}
use pimprof.Pin.Sound.{Follows}
use pimprof.Pin.Threads.{Succeeds, current_block-some, is_watched-some, note_request-Succeeds}

-- A machine with a latency for every opcode, whose SIMD capability is not 0.
pub record IsMachine {ℓ} {C : Type ℓ} (m : Machine C) : Type 0 where
  pub latencies : length m.instruction_latency ≡ max_index
  pub capable : m.simd_capability ≢ 0

simd_multiplier-some :
    (capability simd_len : ℕ)
    → capability ≢ 0
    → (k : ℕ) × (simd_multiplier capability simd_len ≡ some k)
unfolding simd_multiplier
simd_multiplier-some zero simd_len h = absurd (h refl)
simd_multiplier-some (suc c) zero h = (_, refl)
simd_multiplier-some (suc c) (suc n) h = (_, refl)

module _ {ℓ} {C : Type ℓ} ⦃d : Double C⦄ where
  -- What both calls of the storage do after the test of the thread.
  guarded :
      (w : Bool) (t : ℕ) (update : ℕ → ℕ) (r : Request) (p : Package C) (b : Brackets)
      → Follows p b
      → t < length p.thread_bbl_scope
      → Succeeds (λ x. if w then note_request t update r x else some x) p b
  guarded true t update r p b f below = note_request-Succeeds t update r p b f below
  guarded false t update r p b f below = (p, refl, f)

  pub instr_cache_ref-Succeeds :
      (addr size simd_len t : ℕ) (p : Package C) (b : Brackets) (us : List Uuid)
      → Follows p b
      → get_elem? b.open_blocks t ≡ some us
      → t < length p.thread_bbl_scope
      → Succeeds (instr_cache_ref addr size simd_len t) p b
  unfolding instr_cache_ref
  instr_cache_ref-Succeeds addr size simd_len t p b us f running below =
      let (i, at_block, _) = current_block-some t p b us f running in
      let (w, watched) = is_watched-some t p (omega (arith, f.threaded.0)) in
      let (q, done, g) =
        guarded w t (λ count. suc count) (fetch addr size i simd_len) p b f below in
      (q, >>=-run _ at_block (>>=-run _ watched done), g)

  pub data_cache_ref-Succeeds :
      (ip addr size : ℕ) (access_type : AccessType) (simd_len t : ℕ) (p : Package C) (b : Brackets)
      (us : List Uuid)
      → Follows p b
      → get_elem? b.open_blocks t ≡ some us
      → t < length p.thread_bbl_scope
      → Succeeds (data_cache_ref ip addr size access_type simd_len t) p b
  unfolding data_cache_ref
  data_cache_ref-Succeeds ip addr size access_type simd_len t p b us f running below =
      let (i, at_block, _) = current_block-some t p b us f running in
      let (w, watched) = is_watched-some t p (omega (arith, f.threaded.0)) in
      let (q, done, g) =
        guarded w t (λ count. 0) (reference ip addr size access_type i simd_len) p b f below in
      (q, >>=-run _ at_block (>>=-run _ watched done), g)

  instruction_cost-some :
      (m : Machine C) (opcode n simd_len : ℕ)
      → IsMachine m
      → opcode < max_index
      → (c : C) × (instruction_cost m opcode n simd_len ≡ some c)
  unfolding instruction_cost
  instruction_cost-some m opcode n simd_len is known =
      let (latency, e) =
        get_elem?-some m.instruction_latency opcode (omega (arith, is.latencies)) in
      let (k, e1) = simd_multiplier-some m.simd_capability simd_len is.capable in
      (_, >>=-run _ e (>>=-run _ e1 refl))

  add_to-some :
      (costs : List C) (i : BblId) (c : C)
      → i < length costs
      → (r : List C) × (add_to costs i c ≡ some r) × (length r ≡ length costs)
  unfolding add_to
  add_to-some costs i c below =
      let (old, e) = get_elem?-some costs i below in
      (_, >>=-run _ e (write-set costs i _ below), length-set costs i _)

  is_parallel-some :
      (simd_len : ℕ) (i : BblId) (p : Package C)
      → i < length p.bbl_parallelizable
      → (r : Bool) × (is_parallel simd_len i p ≡ some r)
  unfolding is_parallel
  is_parallel-some simd_len i p below =
      let (mark, e) = get_elem?-some p.bbl_parallelizable i below in
      elim (Bool-cases (simd_len == 0)) [
        | inr simd ↦ (false, rw simd refl)
        | inl plain ↦ elim (Bool-cases p.in_accelerator_function) [
          | inl inside ↦ (true, rw (plain, inside) refl)
          | inr outside ↦ (mark, rw (plain, outside) e)
        ]
      ]

  module _ (machine : PerSite (Machine C)) where
    add_instruction_cost-some :
        (opcode n simd_len : ℕ) (i : BblId) (costs : PerSite (List C))
        → IsMachine machine.on_cpu
        → IsMachine machine.on_pim
        → opcode < max_index
        → i < length costs.on_cpu
        → i < length costs.on_pim
        → (r : PerSite (List C)) × (add_instruction_cost machine opcode n simd_len i costs ≡ some r)
          × (length r.on_cpu ≡ length costs.on_cpu)
          × (length r.on_pim ≡ length costs.on_pim)
    unfolding add_instruction_cost
    add_instruction_cost-some opcode n simd_len i costs m1 m2 known below1 below2 =
        let (c1, e1) = instruction_cost-some machine.on_cpu opcode n simd_len m1 known in
        let (r1, w1, same1) = add_to-some costs.on_cpu i c1 below1 in
        let (c2, e2) = instruction_cost-some machine.on_pim opcode n simd_len m2 known in
        let (r2, w2, same2) = add_to-some costs.on_pim i c2 below2 in
        (
          record { on_cpu = r1; on_pim = r2 },
          >>=-run _ e1 (>>=-run _ w1 (>>=-run _ e2 (>>=-run _ w2 refl))),
          same1,
          same2,
        )

    costs-Follows :
        (r : PerSite (List C)) (p : Package C) (b : Brackets)
        → length r.on_cpu ≡ length p.bbl_instruction_cost.on_cpu
        → length r.on_pim ≡ length p.bbl_instruction_cost.on_pim
        → Follows p b
        → Follows (record p { bbl_instruction_cost = r }) b
    costs-Follows r p b same1 same2 f =
        let (numbers, marks, cpu_costs, pim_costs, decided) = f.sized in
        record {
          named = f.named;
          sized = (
            numbers,
            marks,
            omega (arith, same1, cpu_costs),
            omega (arith, same2, pim_costs),
            decided,
          );
          threaded = f.threaded;
          seen = f.seen;
        }

    count_sampled-Succeeds :
        (opcode : ℕ) (ismem : Bool) (simd_len : ℕ) (i : BblId) (p : Package C) (b : Brackets)
        → IsMachine machine.on_cpu
        → IsMachine machine.on_pim
        → opcode < max_index
        → i < p.bbl_size
        → Follows p b
        → Succeeds (count_sampled machine opcode ismem simd_len i) p b
    unfolding count_sampled
    count_sampled-Succeeds opcode ismem simd_len i p b m1 m2 known below f =
        let (numbers, marks, cpu_costs, pim_costs, decided) = f.sized in
        let (parallel, e) = is_parallel-some simd_len i p (omega (arith, marks)) in
        let effective = if parallel then 1 else simd_len in
        let (r, added, same1, same2) =
          add_instruction_cost-some opcode (threads p.thread_count) effective i
            p.bbl_instruction_cost m1 m2 known (omega (arith, cpu_costs))
            (omega (arith, pim_costs)) in
        elim (Bool-cases ismem) [
          | inl memory ↦ (p, >>=-run _ e (rw memory refl), f)
          | inr other ↦ (
            record p { bbl_instruction_cost = r },
            >>=-run _ e (rw other (>>=-run _ added refl)),
            costs-Follows r p b same1 same2 f,
          )
        ]

    pub instruction_count-Succeeds :
        (opcode : ℕ) (ismem : Bool) (simd_len t : ℕ) (p : Package C) (b : Brackets) (us : List Uuid)
        → IsMachine machine.on_cpu
        → IsMachine machine.on_pim
        → opcode < max_index
        → 0 < p.bbl_size
        → Follows p b
        → get_elem? b.open_blocks t ≡ some us
        → t < length p.thread_bbl_scope
        → Succeeds (instruction_count machine opcode ismem simd_len t) p b
    unfolding instruction_count
    instruction_count-Succeeds opcode ismem simd_len t p b us m1 m2 known some_block f running
          below =
        let (i, at_block, within) = current_block-some t p b us f running in
        let (w, watched) = is_watched-some t p (omega (arith, f.threaded.0)) in
        elim (Bool-cases (w && is_sampled p.thread_count t)) [
          | inr skipped ↦ (p, >>=-run _ at_block (>>=-run _ watched (rw skipped refl)), f)
          | inl counted ↦
              let (q, done, g) =
                count_sampled-Succeeds opcode ismem simd_len i p b m1 m2 known (within some_block)
                  f in
              (q, >>=-run _ at_block (>>=-run _ watched (rw counted done)), g)
        ]
