-- ===== src/Stats/Table.antt =====
-- The table of statistics: each hash leads to the object that carries it, for good.
use pimprof.Base.{
  ℕ, zero, suc, ◌≡◌, refl, inl, inr, Bool, true, false, List, [], ◌∷◌, ◌++◌, Option, some, length,
  get_elem?, set, ◌==◌, arith, Double, All, Option-cases, Bool-cases, get_elem?-set, ==_iff,
}
use mathlib.Core.Option
use pimprof.Common.{Uuid, uuid_eq}
use pimprof.Solver.RunStats.{RunStats}
use pimprof.Stats.{ThreadStats, find_hash, new_run_stats, new_thread, enter, modify}

pub uuid_eq_refl : (u : Uuid) → uuid_eq u u ≡ true
unfolding uuid_eq
uuid_eq_refl u = ground arith

pub uuid_eq→eq : (u v : Uuid) → uuid_eq u v ≡ true → u ≡ v
unfolding uuid_eq
uuid_eq→eq u v e = ground arith

module _ {ℓ} {C : Type ℓ} ⦃d : Double C⦄ where
  -- The hash of the object at an address.
  abbrev pub hash_at : List (RunStats C) → ℕ → Option Uuid
  hash_at heap a = Option.map (λ s. s.bblhash) (get_elem? heap a)

  pub record IsValid (t : ThreadStats C) : Type ℓ where
    pub table : All (λ e. hash_at t.heap e.1 ≡ some e.0) t.bbl_hash2stats
    pub stack : All (λ a. (u : Uuid) × (hash_at t.heap a ≡ some u)) t.current_bblstats
    pub running : (a : ℕ) × (rest : List ℕ) × (t.current_bblstats ≡ a ∷ rest)
    pub placed : (b : Bool) × (rest : List Bool) × (t.using_pim ≡ b ∷ rest)

  -- No object of the first heap changes its hash in the second.
  abbrev pub Keeps : List (RunStats C) → List (RunStats C) → Type 0
  Keeps heap heap' = (a : ℕ) (u : Uuid) → hash_at heap a ≡ some u → hash_at heap' a ≡ some u

  pub new_thread-IsValid : IsValid new_thread
  unfolding new_thread
  new_thread-IsValid = record {
    table = (refl, tt);
    stack = ((_, refl), tt);
    running = (0, [], refl);
    placed = (false, [], refl);
  }

  Keeps-append : (heap new : List (RunStats C)) → Keeps heap (heap ++ new)
  Keeps-append [] new a u e = absurd (ground arith)
  Keeps-append (s ∷ heap) new zero u e = e
  Keeps-append (s ∷ heap) new (suc a) u e = Keeps-append heap new a u e

  hash_at-length :
      (heap : List (RunStats C)) (u : Uuid)
      → hash_at (heap ++ (new_run_stats u ∷ [])) (length heap) ≡ some u
  hash_at-length [] u = refl
  hash_at-length (s ∷ heap) u = hash_at-length heap u

  pub table-Keeps :
      (heap heap' : List (RunStats C)) (table : List (Uuid × ℕ))
      → Keeps heap heap'
      → All (λ e. hash_at heap e.1 ≡ some e.0) table
      → All (λ e. hash_at heap' e.1 ≡ some e.0) table
  table-Keeps heap heap' [] k h = tt
  table-Keeps heap heap' (e ∷ table) k h = (k e.1 e.0 h.0, table-Keeps heap heap' table k h.1)

  pub stack-Keeps :
      (heap heap' : List (RunStats C)) (stack : List ℕ)
      → Keeps heap heap'
      → All (λ a. (u : Uuid) × (hash_at heap a ≡ some u)) stack
      → All (λ a. (u : Uuid) × (hash_at heap' a ≡ some u)) stack
  stack-Keeps heap heap' [] k h = tt
  stack-Keeps heap heap' (a ∷ stack) k h =
      ((h.0.0, k a h.0.0 h.0.1), stack-Keeps heap heap' stack k h.1)

  find_hash-hash_at :
      (heap : List (RunStats C)) (u : Uuid) (table : List (Uuid × ℕ)) (a : ℕ)
      → All (λ e. hash_at heap e.1 ≡ some e.0) table
      → find_hash u table ≡ some a
      → hash_at heap a ≡ some u
  unfolding find_hash
  find_hash-hash_at heap u [] a h e = absurd (ground arith)
  find_hash-hash_at heap u ((v, b) ∷ table) a h e = elim (Bool-cases (uuid_eq v u)) [
    | inl here ↦
        let same : v ≡ u = uuid_eq→eq v u here in
        let addr : b ≡ a = ground arith in rw (← addr, ← same) h.0
    | inr there ↦ find_hash-hash_at heap u table a h.1 (ground arith)
  ]

  -- Entering a basic block gives an object with its hash, and keeps the table right.
  pub enter-IsValid :
      (u : Uuid) (t : ThreadStats C)
      → IsValid t
      → IsValid (enter u t).1
        × (hash_at (enter u t).1.heap (enter u t).0 ≡ some u)
        × Keeps t.heap (enter u t).1.heap
  unfolding enter
  enter-IsValid u t v = elim (Option-cases (find_hash u t.bbl_hash2stats)) [
    | inr (a, e) ↦
        rw (e, enter) (v, find_hash-hash_at t.heap u t.bbl_hash2stats a v.table e, λ b w h. h)
    | inl e ↦
        let k = Keeps-append t.heap (new_run_stats u ∷ []) in
        rw (e, enter)
          (
            record {
              table = (hash_at-length t.heap u, table-Keeps t.heap _ t.bbl_hash2stats k v.table);
              stack = stack-Keeps t.heap _ t.current_bblstats k v.stack;
              running = v.running;
              placed = v.placed;
            },
            hash_at-length t.heap u,
            k,
          )
  ]

  pub Keeps-set :
      (heap : List (RunStats C)) (a : ℕ) (s s' : RunStats C)
      → get_elem? heap a ≡ some s
      → s'.bblhash ≡ s.bblhash
      → Keeps heap (set heap a s')
  Keeps-set heap a s s' at e b u h = elim (Bool-cases (a == b)) [
    | inl here ↦ let same : a ≡ b = (==_iff a b).0 here in ground (arith, get_elem?-set heap a s' b)
    | inr there ↦ ground (arith, get_elem?-set heap a s' b)
  ]

  -- A change in place that leaves the hash alone keeps the table right.
  pub modify-IsValid :
      (a : ℕ) (u : Uuid) (f : RunStats C → RunStats C) (t : ThreadStats C)
      → ((s : RunStats C) → (f s).bblhash ≡ s.bblhash)
      → hash_at t.heap a ≡ some u
      → IsValid t
      → (t' : ThreadStats C) × (modify a f t ≡ some t')
        × IsValid t'
        × Keeps t.heap t'.heap
        × (t'.current_bblstats ≡ t.current_bblstats)
        × (t'.using_pim ≡ t.using_pim)
        × (t'.switch_cpu2pim ≡ t.switch_cpu2pim)
        × (t'.switch_pim2cpu ≡ t.switch_pim2cpu)
  unfolding modify
  modify-IsValid a u f t same at v = elim (Option-cases (get_elem? t.heap a)) [
    | inl e ↦ absurd (ground arith)
    | inr (s, e) ↦
        let k = Keeps-set t.heap a s (f s) e (same s) in
        (
          record t { heap = set t.heap a (f s) },
          rw e,
          record {
            table = table-Keeps t.heap _ t.bbl_hash2stats k v.table;
            stack = stack-Keeps t.heap _ t.current_bblstats k v.stack;
            running = v.running;
            placed = v.placed;
          },
          k,
          refl,
          refl,
          refl,
          refl,
        )
  ]
