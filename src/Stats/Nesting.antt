-- ===== src/Stats/Nesting.antt =====
-- Well-nested annotations: the calls that the annotated program makes on its thread's statistics.
use pimprof.Base.{
  ℕ, ◌≡◌, refl, sym, ap, subst, ◌∙◌, Bool, List, ◌∷◌, Option, some, arith, ◌>>=◌, Double,
}
use pimprof.Stats.{
  ThreadStats, back, pop_back, bbl_start, bbl_end, offload_start, offload_end, add_time_instruction,
  add_memory, is_pim, count_switch,
}
use pimprof.Stats.Table.{IsValid}
use pimprof.Stats.Steps.{
  Restores, Started, bbl_start-Started, bbl_end-Restores, count_switch-same, count_switch-IsValid,
  block-Restores, add_time_instruction-Restores, add_memory-Restores, Restores-trans, bool_eq_refl,
}

-- Basic blocks and offloaded regions with what happens inside them and after them.
pub data Trace : Type 0 where
  done : Trace
  time : ℕ → ℕ → Trace → Trace
  memory : ℕ → Trace → Trace
  block : ℕ → ℕ → Trace → Trace → Trace
  offload : ℕ → ℕ → Trace → Trace → Trace

module _ {ℓ} {C : Type ℓ} ⦃d : Double C⦄ where
  -- The calls of a trace, in their order.
  unfoldable pub run_trace : Trace → ThreadStats C → Option (ThreadStats C)
  unfolding bbl_start bbl_end offload_start offload_end add_time_instruction add_memory
  run_trace done t = some t
  run_trace (time fs instr rest) t = add_time_instruction fs instr t >>= λ t1. run_trace rest t1
  run_trace (memory n rest) t = add_memory n t >>= λ t1. run_trace rest t1
  run_trace (block hi lo body rest) t = bbl_start hi lo t >>= λ t1.
      run_trace body t1 >>= λ t2. bbl_end hi lo t2 >>= λ t3. run_trace rest t3
  run_trace (offload hi type body rest) t = offload_start hi type t >>= λ t1.
      run_trace body t1 >>= λ t2. offload_end hi type t2 >>= λ t3. run_trace rest t3

  -- The state in which an offloaded region starts its block.
  abbrev pushed : Bool → Bool → ThreadStats C → ThreadStats C
  pushed p n t = count_switch p n (record t { using_pim = n ∷ t.using_pim })

  pushed-IsValid : (p n : Bool) (t : ThreadStats C) → IsValid t → IsValid (pushed p n t)
  pushed-IsValid p n t v = count_switch-IsValid p n _ (record {
    table = v.table;
    stack = v.stack;
    running = v.running;
    placed = (n, t.using_pim, refl);
  })

  offload_start-bbl_start :
      (hi type : ℕ) (p : Bool) (rest : List Bool) (t : ThreadStats C)
      → t.using_pim ≡ p ∷ rest
      → offload_start hi type t ≡ bbl_start hi 0 (pushed p (is_pim type) t)
  unfolding offload_start
  offload_start-bbl_start hi type p rest t top = rw (ap back top) refl

  offload_end-bbl_end :
      (hi type : ℕ) (p : Bool) (rest : List Bool) (t : ThreadStats C)
      → t.using_pim ≡ is_pim type ∷ p ∷ rest
      → offload_end hi type t
        ≡ bbl_end hi 0 (count_switch (is_pim type) p (record t { using_pim = p ∷ rest }))
  unfolding offload_end
  offload_end-bbl_end hi type p rest t top =
      rw (ap back top, bool_eq_refl (is_pim type), ap pop_back top) refl

  -- An offloaded region whose inside is restored is restored as a whole, counters included.
  region-Restores :
      (hi type : ℕ) (p : Bool) (rest : List Bool) (t t1 t2 : ThreadStats C)
      → IsValid t
      → t.using_pim ≡ p ∷ rest
      → Started
          (record { first = hi; second = 0 })
          (is_pim type ∷ t.using_pim)
          (pushed p (is_pim type) t)
          t1
      → Restores t1 t2
      → (t3 : ThreadStats C) × (offload_end hi type t2 ≡ some t3) × Restores t t3
  region-Restores hi type p rest t t1 t2 v top s r =
      let n = is_pim type in
      let (b, under, running) = v.running in
      let (a1, a2, a3, a4, a5) = count_switch-same p n (record t { using_pim = n ∷ t.using_pim }) in
      let back_to = record t2 { using_pim = p ∷ rest } in
      let (b1, b2, b3, b4, b5) = count_switch-same n p back_to in
      let opened : (count_switch n p back_to).current_bblstats ≡ s.address ∷ b ∷ under =
        b1 ∙ r.stack ∙ s.stack ∙ ap (λ xs. s.address ∷ xs) (a1 ∙ running) in
      let using : t2.using_pim ≡ n ∷ p ∷ rest = r.placed ∙ s.using ∙ ap (λ xs. n ∷ xs) top in
      let valid' : IsValid back_to = record {
        table = r.valid.table;
        stack = r.valid.stack;
        running = r.valid.running;
        placed = (p, rest, refl);
      } in
      let owner = r.keeps s.address _ s.owner in
      let (run, valid) =
        bbl_end-Restores hi 0 s.address b under (count_switch n p back_to)
          (count_switch-IsValid n p back_to valid') opened (rw b3 owner) in
      (
        record (count_switch n p back_to) { current_bblstats = b ∷ under },
        offload_end-bbl_end hi type p rest t2 using ∙ run,
        record {
          valid = valid;
          keeps = λ a u e. rw b3 (r.keeps a u (s.keeps a u (rw a3 e)));
          stack = sym running;
          placed = b2 ∙ sym top;
          balance = let x = r.balance in let y = s.to_pim in let z = s.to_cpu in omega arith;
        },
      )

  -- From a well-formed state a well-nested trace runs through: no assertion of `BBLEnd` or
  -- `OffloadEnd` fails and no stack is read when empty. Afterwards the state is well-formed again,
  -- the stacks of blocks and of sites are what they were, every object of statistics still carries
  -- its hash, and as many switches to the memory side as back have been counted.
  pub run_trace-Restores :
      (trace : Trace) (t : ThreadStats C)
      → IsValid t
      → (t' : ThreadStats C) × (run_trace trace t ≡ some t') × Restores t t'
  unfolding run_trace
  run_trace-Restores done t v = (
    t,
    refl,
    record { valid = v; keeps = λ a u e. e; stack = refl; placed = refl; balance = omega arith },
  )
  run_trace-Restores (time fs instr rest) t v =
      let (t1, run, r) = add_time_instruction-Restores fs instr t v in
      let (t2, run2, q) = run_trace-Restores rest t1 r.valid in
      (t2, rw run run2, Restores-trans t t1 t2 r q)
  run_trace-Restores (memory n rest) t v =
      let (t1, run, r) = add_memory-Restores n t v in
      let (t2, run2, q) = run_trace-Restores rest t1 r.valid in
      (t2, rw run run2, Restores-trans t t1 t2 r q)
  run_trace-Restores (block hi lo body rest) t v =
      let (t1, run1, s) = bbl_start-Started hi lo t v in
      let (t2, run2, r) = run_trace-Restores body t1 s.valid in
      let (t3, run3, q) = block-Restores hi lo t t1 t2 v s r in
      let (t4, run4, z) = run_trace-Restores rest t3 q.valid in
      (t4, rw (run1, run2, run3) run4, Restores-trans t t3 t4 q z)
  run_trace-Restores (offload hi type body rest) t v =
      let (p, sites, top) = v.placed in
      let n = is_pim type in
      let (t1, run1, s) = bbl_start-Started hi 0 (pushed p n t) (pushed-IsValid p n t v) in
      let (a1, a2, a3, a4, a5) = count_switch-same p n (record t { using_pim = n ∷ t.using_pim }) in
      let s' = subst (λ l. Started (record { first = hi; second = 0 }) l (pushed p n t) t1) a2 s in
      let (t2, run2, r) = run_trace-Restores body t1 s.valid in
      let (t3, run3, q) = region-Restores hi type p sites t t1 t2 v top s' r in
      let (t4, run4, z) = run_trace-Restores rest t3 q.valid in
      (
        t4,
        rw (offload_start-bbl_start hi type p sites t top, run1, run2, run3) run4,
        Restores-trans t t3 t4 q z,
      )
