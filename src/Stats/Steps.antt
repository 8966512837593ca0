-- ===== src/Stats/Steps.antt =====
-- What each call on a thread's statistics leaves as it was, and what it puts on the two stacks.
use pimprof.Base.{
  ℕ, ◌≡◌, refl, sym, ap, subst, ◌∙◌, ◌+◌, inl, inr, Bool, true, false, List, ◌∷◌, some, arith,
  ◌>>=◌, Double, All, Option-cases, get_elem?,
}
use pimprof.Common.{Uuid}
use pimprof.DataReuse.Switch.Insert.{insert-total}
use pimprof.Solver.RunStats.{RunStats}
use pimprof.Stats.{
  ThreadStats, enter, bbl_start, bbl_end, offload_start, offload_end, count_switch, is_pim, back,
  modify, add_time_instruction, add_memory, get_current_bbl_hash, find_hash,
}
use pimprof.Stats.Table.{
  IsValid, hash_at, Keeps, enter-IsValid, modify-IsValid, stack-Keeps, uuid_eq_refl,
}

abbrev pub site_count : Bool → ℕ
site_count true = 1
site_count false = 0

pub bool_eq_refl : (b : Bool) → pimprof.Stats.bool_eq b b ≡ true
bool_eq_refl true = refl
bool_eq_refl false = refl

module _ {ℓ} {C : Type ℓ} ⦃d : Double C⦄ where
  abbrev pub Owned : List (RunStats C) → List ℕ → Type 0
  Owned heap stack = All (λ a. (u : Uuid) × (hash_at heap a ≡ some u)) stack

  -- What a stretch of balanced calls leaves as it was.
  pub record Restores (t t' : ThreadStats C) : Type ℓ where
    pub valid : IsValid t'
    pub keeps : Keeps t.heap t'.heap
    pub stack : t'.current_bblstats ≡ t.current_bblstats
    pub placed : t'.using_pim ≡ t.using_pim
    pub balance : t'.switch_cpu2pim + t.switch_pim2cpu ≡ t.switch_cpu2pim + t'.switch_pim2cpu

  -- What the start of a region leaves: its own entries on the two stacks.
  pub record Started (u : Uuid) (placed : List Bool) (t t' : ThreadStats C) : Type ℓ where
    pub address : ℕ
    pub valid : IsValid t'
    pub keeps : Keeps t.heap t'.heap
    pub stack : t'.current_bblstats ≡ address ∷ t.current_bblstats
    pub owner : hash_at t'.heap address ≡ some u
    pub using : t'.using_pim ≡ placed
    pub to_pim : t'.switch_cpu2pim ≡ t.switch_cpu2pim
    pub to_cpu : t'.switch_pim2cpu ≡ t.switch_pim2cpu

  enter-same :
      (u : Uuid) (t : ThreadStats C)
      → ((enter u t).1.current_bblstats ≡ t.current_bblstats)
        × ((enter u t).1.using_pim ≡ t.using_pim)
        × ((enter u t).1.switch_cpu2pim ≡ t.switch_cpu2pim)
        × ((enter u t).1.switch_pim2cpu ≡ t.switch_pim2cpu)
  unfolding enter
  enter-same u t = elim (Option-cases (find_hash u t.bbl_hash2stats)) [
    | inl e ↦ rw (e, enter) (refl, refl, refl, refl)
    | inr (a, e) ↦ rw (e, enter) (refl, refl, refl, refl)
  ]

  pub bbl_start-Started :
      (hi lo : ℕ) (t : ThreadStats C)
      → IsValid t
      → (t' : ThreadStats C) × (bbl_start hi lo t ≡ some t')
        × Started (record { first = hi; second = lo }) t.using_pim t t'
  unfolding bbl_start
  bbl_start-Started hi lo t v =
      let u : Uuid = record { first = hi; second = lo } in
      let e = enter u t in
      let (ev, at, k) = enter-IsValid u t v in
      let (s1, s2, s3, s4) = enter-same u t in
      let (a, rest, top) = v.running in
      let (m, counted) = insert-total t.last_begin_bblstats e.0 1 t.bbl_switch_count in
      (
        record (e.1) {
          current_bblstats = e.0 ∷ t.current_bblstats;
          bbl_switch_count = m;
          last_begin_bblstats = e.0;
        },
        rw (ap back top, counted) refl,
        record {
          address = e.0;
          valid = record {
            table = ev.table;
            stack = ((u, at), stack-Keeps t.heap e.1.heap t.current_bblstats k v.stack);
            running = (e.0, t.current_bblstats, refl);
            placed = ev.placed;
          };
          keeps = k;
          stack = refl;
          owner = at;
          using = s2;
          to_pim = s3;
          to_cpu = s4;
        },
      )

  pub bbl_end-Restores :
      (hi lo a b : ℕ) (rest : List ℕ) (t : ThreadStats C)
      → IsValid t
      → t.current_bblstats ≡ a ∷ b ∷ rest
      → hash_at t.heap a ≡ some (record { first = hi; second = lo })
      → (bbl_end hi lo t ≡ some (record t { current_bblstats = b ∷ rest }))
        × IsValid (record t { current_bblstats = b ∷ rest })
  unfolding bbl_end get_current_bbl_hash
  bbl_end-Restores hi lo a b rest t v top owner =
      let stack : Owned t.heap (a ∷ b ∷ rest) = subst (λ s. Owned t.heap s) top v.stack in
      (
        elim (Option-cases (get_elem? t.heap a)) [
          | inl e ↦ absurd (ground arith)
          | inr (s, e) ↦
              let same : s.bblhash ≡ record { first = hi; second = lo } = ground arith in
              rw (top, e, same, uuid_eq_refl (record { first = hi; second = lo })) refl
        ],
        record { table = v.table; stack = stack.1; running = (b, rest, refl); placed = v.placed },
      )

  pub count_switch-same :
      (p n : Bool) (t : ThreadStats C)
      → ((count_switch p n t).current_bblstats ≡ t.current_bblstats)
        × ((count_switch p n t).using_pim ≡ t.using_pim)
        × ((count_switch p n t).heap ≡ t.heap)
        × ((count_switch p n t).bbl_hash2stats ≡ t.bbl_hash2stats)
        × ((count_switch p n t).switch_cpu2pim + t.switch_pim2cpu + site_count p
            ≡ t.switch_cpu2pim + (count_switch p n t).switch_pim2cpu + site_count n)
  unfolding count_switch
  count_switch-same true true t = (refl, refl, refl, refl, omega arith)
  count_switch-same true false t = (refl, refl, refl, refl, omega arith)
  count_switch-same false true t = (refl, refl, refl, refl, omega arith)
  count_switch-same false false t = (refl, refl, refl, refl, omega arith)

  pub count_switch-IsValid :
      (p n : Bool) (t : ThreadStats C) → IsValid t → IsValid (count_switch p n t)
  unfolding count_switch
  count_switch-IsValid true true t v = v
  count_switch-IsValid true false t v = record {
    table = v.table;
    stack = v.stack;
    running = v.running;
    placed = v.placed;
  }
  count_switch-IsValid false true t v = record {
    table = v.table;
    stack = v.stack;
    running = v.running;
    placed = v.placed;
  }
  count_switch-IsValid false false t v = v

  -- A call that only changes the object of the running block in place.
  change-Restores :
      (f : RunStats C → RunStats C) (t : ThreadStats C)
      → ((s : RunStats C) → (f s).bblhash ≡ s.bblhash)
      → IsValid t
      → (t' : ThreadStats C) × ((back t.current_bblstats >>= λ a. modify a f t) ≡ some t')
        × Restores t t'
  change-Restores f t same v =
      let (a, rest, top) = v.running in
      let stack : Owned t.heap (a ∷ rest) = subst (λ s. Owned t.heap s) top v.stack in
      let (t', run, valid, keeps, s1, s2, s3, s4) =
        modify-IsValid a stack.0.0 f t same stack.0.1 v in
      (
        t',
        rw (ap back top) run,
        record { valid = valid; keeps = keeps; stack = s1; placed = s2; balance = omega arith },
      )

  pub add_time_instruction-Restores :
      (fs instr : ℕ) (t : ThreadStats C)
      → IsValid t
      → (t' : ThreadStats C) × (add_time_instruction fs instr t ≡ some t') × Restores t t'
  unfolding add_time_instruction
  add_time_instruction-Restores fs instr t v = change-Restores _ t (λ s. refl) v

  pub add_memory-Restores :
      (n : ℕ) (t : ThreadStats C)
      → IsValid t
      → (t' : ThreadStats C) × (add_memory n t ≡ some t') × Restores t t'
  unfolding add_memory
  add_memory-Restores n t v = change-Restores _ t (λ s. refl) v

  pub Restores-trans : (t t1 t2 : ThreadStats C) → Restores t t1 → Restores t1 t2 → Restores t t2
  Restores-trans t t1 t2 r q = record {
    valid = q.valid;
    keeps = λ a u e. q.keeps a u (r.keeps a u e);
    stack = q.stack ∙ r.stack;
    placed = q.placed ∙ r.placed;
    balance = let b = r.balance in let c = q.balance in omega arith;
  }

  -- A block whose inside is restored is restored as a whole.
  pub block-Restores :
      (hi lo : ℕ) (t t1 t2 : ThreadStats C)
      → IsValid t
      → Started (record { first = hi; second = lo }) t.using_pim t t1
      → Restores t1 t2
      → (t3 : ThreadStats C) × (bbl_end hi lo t2 ≡ some t3) × Restores t t3
  block-Restores hi lo t t1 t2 v s r =
      let (b, rest, top) = v.running in
      let opened : t2.current_bblstats ≡ s.address ∷ b ∷ rest =
        r.stack ∙ s.stack ∙ ap (λ xs. s.address ∷ xs) top in
      let (run, valid) =
        bbl_end-Restores hi lo s.address b rest t2 r.valid opened (r.keeps s.address _ s.owner) in
      (
        record t2 { current_bblstats = b ∷ rest },
        run,
        record {
          valid = valid;
          keeps = λ a u e. r.keeps a u (s.keeps a u e);
          stack = sym top;
          placed = r.placed ∙ s.using;
          balance = let b = r.balance in let c = s.to_pim in let d = s.to_cpu in omega arith;
        },
      )
