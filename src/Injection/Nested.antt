-- ===== src/Injection/Nested.antt =====
-- Event lists that are well nested, and how instruction sequences make them.
use mathlib.Core.List.{append_assoc}
use pimprof.Base.{
  ℕ, ◌≡◌, refl, sym, ap, subst, ◌∙◌, inl, inr, List, [], ◌∷◌, ◌++◌, Option, none, some, ◌>>=◌,
  Double, Option-cases,
}
use pimprof.Stats.{ThreadStats, add_time_instruction, add_memory, bbl_start, offload_start}
use pimprof.Stats.Nesting.{Trace, done, block, offload, run_trace}
use pimprof.Stats.Nesting as Nesting
use pimprof.Injection.{Code, plain, call, sim_magic0, sim_magic2, pimprof_magic, vtune_call}
use pimprof.Injection.Runs.{
  Work, Event, work, magic_events, enters, leaves, offloads, returns, works, BodyRun, PathRun, step,
  run_events,
}
use pimprof.Injection.Runs as Runs

-- The calls of a trace.
unfoldable pub flatten : Trace → List Event
flatten done = []
flatten (Nesting.time fs instr rest) = work (Runs.time fs instr) ∷ flatten rest
flatten (Nesting.memory n rest) = work (Runs.memory n) ∷ flatten rest
flatten (block hi lo body rest) = enters hi lo ∷ (flatten body ++ (leaves hi lo ∷ flatten rest))
flatten (offload hi type body rest) =
    offloads hi type ∷ (flatten body ++ (returns hi type ∷ flatten rest))

abbrev pub IsNested : List Event → Type 0
IsNested es = (trace : Trace) × (es ≡ flatten trace)

seq : Trace → Trace → Trace
seq done s = s
seq (Nesting.time fs instr rest) s = Nesting.time fs instr (seq rest s)
seq (Nesting.memory n rest) s = Nesting.memory n (seq rest s)
seq (block hi lo body rest) s = block hi lo body (seq rest s)
seq (offload hi type body rest) s = offload hi type body (seq rest s)

flatten-seq : (a b : Trace) → flatten (seq a b) ≡ flatten a ++ flatten b
unfolding flatten seq
flatten-seq done b = refl
flatten-seq (Nesting.time fs instr rest) b = rw (flatten-seq rest b)
flatten-seq (Nesting.memory n rest) b = rw (flatten-seq rest b)
flatten-seq (block hi lo body rest) b =
    rw (flatten-seq rest b, append_assoc (flatten body) (leaves hi lo ∷ flatten rest) (flatten b))
flatten-seq (offload hi type body rest) b =
    rw
      (flatten-seq rest b, append_assoc (flatten body) (returns hi type ∷ flatten rest) (flatten b))

pub IsNested-nil : IsNested []
unfolding flatten
IsNested-nil = (done, refl)

pub IsNested-append : (xs ys : List Event) → IsNested xs → IsNested ys → IsNested (xs ++ ys)
IsNested-append xs ys (a, e) (b, f) = (seq a b, rw (e, f) (sym (flatten-seq a b)))

pub IsNested-works : (ws : List Work) → IsNested (works ws)
unfolding flatten
IsNested-works [] = IsNested-nil
IsNested-works (Runs.time fs instr ∷ ws) =
    let (a, e) = IsNested-works ws in (Nesting.time fs instr a, rw e refl)
IsNested-works (Runs.memory n ∷ ws) =
    let (a, e) = IsNested-works ws in (Nesting.memory n a, rw e refl)

pub IsNested-block :
    (hi lo : ℕ) (es : List Event)
    → IsNested es
    → IsNested (enters hi lo ∷ (es ++ (leaves hi lo ∷ [])))
unfolding flatten
IsNested-block hi lo es (a, e) = (block hi lo a done, rw e refl)

pub IsNested-offload :
    (hi type : ℕ) (es : List Event)
    → IsNested es
    → IsNested (offloads hi type ∷ (es ++ (returns hi type ∷ [])))
unfolding flatten
IsNested-offload hi type es (a, e) = (offload hi type a done, rw e refl)

>>=-ext {ℓ} :
    {A B : Type ℓ} (m : Option A) (f g : A → Option B)
    → ((a : A) → f a ≡ g a)
    → (m >>= f) ≡ (m >>= g)
>>=-ext none f g h = refl
>>=-ext (some a) f g h = h a

module _ {ℓ} {C : Type ℓ} ⦃d : Double C⦄ where
  run_events-append :
      (xs ys : List Event) (t : ThreadStats C)
      → run_events (xs ++ ys) t ≡ (run_events xs t >>= run_events ys)
  unfolding run_events
  run_events-append [] ys t = refl
  run_events-append (x ∷ xs) ys t = elim (Option-cases (step x t)) [
    | inl e ↦ rw e refl
    | inr (t', e) ↦ rw e (run_events-append xs ys t')
  ]

  -- The calls of a region after its start.
  run_events-region :
      (body rest : Trace) (last : Event) (t : ThreadStats C)
      → ((t' : ThreadStats C) → run_events (flatten body) t' ≡ run_trace body t')
      → ((t' : ThreadStats C) → run_events (flatten rest) t' ≡ run_trace rest t')
      → run_events (flatten body ++ (last ∷ flatten rest)) t
        ≡ (run_trace body t >>= λ t2. step last t2 >>= λ t3. run_trace rest t3)
  unfolding run_events
  run_events-region body rest last t on_body on_rest =
      run_events-append (flatten body) (last ∷ flatten rest) t
      ∙ ap (λ m. m >>= run_events (last ∷ flatten rest)) (on_body t)
      ∙ >>=-ext (run_trace body t) _ _ (λ t2. >>=-ext (step last t2) _ _ on_rest)

  -- The calls of a trace run as the trace does.
  pub run_events-flatten :
      (trace : Trace) (t : ThreadStats C) → run_events (flatten trace) t ≡ run_trace trace t
  unfolding flatten run_events run_trace step
  run_events-flatten done t = refl
  run_events-flatten (Nesting.time fs instr rest) t =
      >>=-ext (add_time_instruction fs instr t) _ _ (run_events-flatten rest)
  run_events-flatten (Nesting.memory n rest) t =
      >>=-ext (add_memory n t) _ _ (run_events-flatten rest)
  run_events-flatten (block hi lo body rest) t = >>=-ext (bbl_start hi lo t) _ _ (λ t1.
      run_events-region body rest (leaves hi lo) t1 (run_events-flatten body)
        (run_events-flatten rest))
  run_events-flatten (offload hi type body rest) t = >>=-ext (offload_start hi type t) _ _ (λ t1.
      run_events-region body rest (returns hi type) t1 (run_events-flatten body)
        (run_events-flatten rest))

-- The instructions of a program, before any pass.
abbrev pub IsPlain : List Code → Type 0
IsPlain [] = Unit
IsPlain (plain text ∷ rest) = IsPlain rest
IsPlain (call f ∷ rest) = IsPlain rest
IsPlain (_ ∷ rest) = ⊥

module _ (callee : ℕ → List Event → Type 0) where
  -- Whatever the sequence does is well nested.
  abbrev pub IsNestedCode : List Code → Type 0
  IsNestedCode cs = (es : List Event) → BodyRun callee cs es → IsNested es

  pub BodyRun-append :
      (xs ys : List Code) (es : List Event)
      → BodyRun callee (xs ++ ys) es
      → (a b : List Event) × (es ≡ a ++ b) × BodyRun callee xs a × BodyRun callee ys b
  BodyRun-append [] ys es r = ([], es, refl, refl, r)
  BodyRun-append (plain text ∷ xs) ys es (ws, later, e, r) =
      let (a, b, f, p, q) = BodyRun-append xs ys later r in
      (
        works ws ++ a,
        b,
        e ∙ ap (◌++◌ (works ws)) f ∙ sym (append_assoc (works ws) a b),
        (ws, a, refl, p),
        q,
      )
  BodyRun-append (call f ∷ xs) ys es (inner, later, e, c, r) =
      let (a, b, g, p, q) = BodyRun-append xs ys later r in
      (
        inner ++ a,
        b,
        e ∙ ap (◌++◌ inner) g ∙ sym (append_assoc inner a b),
        (inner, a, refl, c, p),
        q,
      )
  BodyRun-append (sim_magic0 op ∷ xs) ys es r = BodyRun-append xs ys es r
  BodyRun-append (sim_magic2 op x y ∷ xs) ys es (later, e, r) =
      let (a, b, f, p, q) = BodyRun-append xs ys later r in
      (
        magic_events op x y ++ a,
        b,
        e ∙ ap (◌++◌ (magic_events op x y)) f ∙ sym (append_assoc (magic_events op x y) a b),
        (a, refl, p),
        q,
      )
  BodyRun-append (pimprof_magic x y z ∷ xs) ys es r = BodyRun-append xs ys es r
  BodyRun-append (vtune_call x y z ∷ xs) ys es r = BodyRun-append xs ys es r

  pub IsPlain-IsNestedCode :
      (cs : List Code)
      → ((f : ℕ) (es : List Event) → callee f es → IsNested es)
      → IsPlain cs
      → IsNestedCode cs
  IsPlain-IsNestedCode [] h p es r = subst IsNested (sym r) IsNested-nil
  IsPlain-IsNestedCode (plain text ∷ cs) h p es (ws, later, e, r) =
      subst IsNested (sym e)
        (IsNested-append (works ws) later (IsNested-works ws) (IsPlain-IsNestedCode cs h p later r))
  IsPlain-IsNestedCode (call f ∷ cs) h p es (inner, later, e, c, r) =
      subst IsNested (sym e)
        (IsNested-append inner later (h f inner c) (IsPlain-IsNestedCode cs h p later r))
  IsPlain-IsNestedCode (sim_magic0 op ∷ cs) h p es r = absurd p
  IsPlain-IsNestedCode (sim_magic2 op x y ∷ cs) h p es r = absurd p
  IsPlain-IsNestedCode (pimprof_magic x y z ∷ cs) h p es r = absurd p
  IsPlain-IsNestedCode (vtune_call x y z ∷ cs) h p es r = absurd p
