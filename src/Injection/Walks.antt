-- ===== src/Injection/Walks.antt =====
-- Walks through the blocks of a function whose blocks, or whose entry and returns, are annotated.
use mathlib.Core.List.{append_assoc}
use pimprof.Base.{
  ℕ, zero, suc, ◌≡◌, refl, sym, ap, subst, ◌∙◌, true, false, List, [], ◌∷◌, ◌++◌, Option, some, map,
  get_elem?, >>=-eq-some, some_inj, arith,
}
use pimprof.Injection.{
  Code, sim_magic2, Block, Func, bracket, at_entry, at_return, around, each, bbl_start_op,
  bbl_end_op,
}
use pimprof.Injection.Runs.{Event, enters, leaves, BodyRun, PathRun}
use pimprof.Injection.Nested.{
  IsNested, IsNested-append, IsNested-block, IsNestedCode, BodyRun-append,
}

pub get_elem?-map {ℓ} :
    {A B : Type ℓ} (f : A → B) (xs : List A) (i : ℕ) (y : B)
    → get_elem? (map f xs) i ≡ some y
    → (x : A) × (get_elem? xs i ≡ some x) × (f x ≡ y)
get_elem?-map f [] i y e = absurd (ground arith)
get_elem?-map f (x ∷ xs) zero y e = (x, refl, cc)
get_elem?-map f (x ∷ xs) (suc i) y e = get_elem?-map f xs i y e

get_elem?-cons {ℓ} :
    {A : Type ℓ} (f : A → Option A) (x : A) (xs : List A) (y0 : A) (rest : List A) (i : ℕ) (y : A)
    → f x ≡ some y0
    → ((k : ℕ) → get_elem? rest k ≡ some y → (z : A) × (get_elem? xs k ≡ some z) × (f z ≡ some y))
    → get_elem? (y0 ∷ rest) i ≡ some y
    → (z : A) × (get_elem? (x ∷ xs) i ≡ some z) × (f z ≡ some y)
get_elem?-cons f x xs y0 rest zero y here there e = (x, refl, here ∙ e)
get_elem?-cons f x xs y0 rest (suc i) y here there e = there i e

pub get_elem?-each {ℓ} :
    {A : Type ℓ} (f : A → Option A) (xs ys : List A) (i : ℕ) (y : A)
    → each f xs ≡ some ys
    → get_elem? ys i ≡ some y
    → (x : A) × (get_elem? xs i ≡ some x) × (f x ≡ some y)
unfolding each
get_elem?-each f [] ys i y run e = absurd (ground arith)
get_elem?-each f (x ∷ xs) ys i y run e =
    let (y0, here, run1) = >>=-eq-some (f x) _ run in
    let (rest, there, made) = >>=-eq-some (each f xs) _ run1 in
    get_elem?-cons f x xs y0 rest i y here (λ k at. get_elem?-each f xs rest k y there at)
      (subst (λ l. get_elem? l i ≡ some y) (sym (some_inj made)) e)

module _ (last : List Code) (b : Block) where
  at_return-returns : (at_return last b).returns ≡ b.returns
  unfolding at_return
  at_return-returns = ground arith

  at_return-true : b.returns ≡ true → at_return last b ≡ record b { body = b.body ++ last }
  unfolding at_return
  at_return-true e = ground arith

  at_return-false : b.returns ≡ false → at_return last b ≡ b
  unfolding at_return
  at_return-false e = ground arith

around-some :
    (first last : List Code) (fn fn' : Func)
    → around first last fn ≡ some fn'
    → (blocks : List Block) × (at_entry first fn.blocks ≡ some blocks)
      × (fn'.blocks ≡ map (at_return last) blocks)
unfolding around
around-some first last fn fn' made =
    let (blocks, at, e) = >>=-eq-some (at_entry first fn.blocks) _ made in
    (blocks, at, sym (ap (λ g. g.blocks) (some_inj e)))

module _ (callee : ℕ → List Event → Type 0) where
  abbrev pub AllNested : List Block → Type 0
  AllNested blocks = (i : ℕ) (b : Block) → get_elem? blocks i ≡ some b → IsNestedCode callee b.body

  -- A block between the two annotations of a basic block.
  pub bracket-IsNestedCode :
      (x y : ℕ) (b : Block)
      → IsNestedCode callee b.body
      → IsNestedCode callee
          (bracket (sim_magic2 bbl_start_op x y) (sim_magic2 bbl_end_op x y) b).body
  unfolding bracket
  bracket-IsNestedCode x y b h es (later, e, r) =
      let (inner, last, f, p, (rest, g, done)) =
        BodyRun-append callee b.body (sim_magic2 bbl_end_op x y ∷ []) later r in
      subst IsNested
        (sym (e ∙ ap (◌∷◌ (enters x y)) (f ∙ ap (◌++◌ inner) (g ∙ ap (◌∷◌ (leaves x y)) done))))
        (IsNested-block x y inner (h inner p))

  -- Blocks that are nested by themselves make a nested walk.
  pub PathRun-IsNested :
      (blocks : List Block) (i : ℕ) (path : List ℕ) (es : List Event)
      → AllNested blocks
      → PathRun callee blocks i path es
      → IsNested es
  PathRun-IsNested blocks i [] es h (b, at, _, r) = h i b at es r
  PathRun-IsNested blocks i (j ∷ path) es h (b, at, _, _, inner, later, e, r, rest) =
      subst IsNested (sym e) (
        IsNested-append inner later (h i b at inner r)
          (PathRun-IsNested blocks j path later h rest))

  -- Instructions that make one event when the function is entered, and one before it returns.
  module _ (first last : List Code) (s e : Event)
      (opens : (cs : List Code) (es : List Event)
        → BodyRun callee (first ++ cs) es
        → (later : List Event) × (es ≡ s ∷ later) × BodyRun callee cs later)
      (closes : (cs : List Code) (es : List Event)
        → BodyRun callee (cs ++ last) es
        → (inner : List Event) × (es ≡ inner ++ (e ∷ [])) × BodyRun callee cs inner) where
    return_run :
        (b : Block) (es : List Event)
        → (at_return last b).returns ≡ true
        → BodyRun callee (at_return last b).body es
        → (inner : List Event) × (es ≡ inner ++ (e ∷ [])) × BodyRun callee b.body inner
    return_run b es h r = closes b.body es (
        subst (λ c. BodyRun callee c.body es)
          (at_return-true last b (sym (at_return-returns last b) ∙ h)) r)

    jump_run :
        (b : Block) (es : List Event)
        → (at_return last b).returns ≡ false
        → BodyRun callee (at_return last b).body es
        → BodyRun callee b.body es
    jump_run b es h r =
        subst (λ c. BodyRun callee c.body es)
          (at_return-false last b (sym (at_return-returns last b) ∙ h)) r

    -- A walk that does not start at the entry.
    tail_run :
        (b0 : Block) (blocks : List Block) (i : ℕ) (path : List ℕ) (es : List Event)
        → AllNested blocks
        → PathRun callee (b0 ∷ map (at_return last) blocks) (suc i) path es
        → (mid : List Event) × (es ≡ mid ++ (e ∷ [])) × IsNested mid
    tail_run b0 blocks i [] es h (b, at, ret, r) =
        let (c, at_c, same) = get_elem?-map (at_return last) blocks i b at in
        let (inner, f, p) =
          return_run c es (ap (λ z. z.returns) same ∙ ret)
            (subst (λ z. BodyRun callee z.body es) (sym same) r) in
        (inner, f, h i c at_c inner p)
    tail_run b0 blocks i (zero ∷ path) es h (b, at, ret, ne, _, _, _, _, _) = absurd (ne refl)
    tail_run b0 blocks i (suc j ∷ path) es h (b, at, ret, ne, inner, later, f, r, rest) =
        let (c, at_c, same) = get_elem?-map (at_return last) blocks i b at in
        let p =
          jump_run c inner (ap (λ z. z.returns) same ∙ ret)
            (subst (λ z. BodyRun callee z.body inner) (sym same) r) in
        let (mid, g, q) = tail_run b0 blocks j path later h rest in
        (
          inner ++ mid,
          f ∙ ap (◌++◌ inner) g ∙ sym (append_assoc inner mid (e ∷ [])),
          IsNested-append inner mid (h i c at_c inner p) q,
        )

    entry_run :
        (b0 : Block) (blocks : List Block) (path : List ℕ) (es : List Event)
        → IsNestedCode callee b0.body
        → AllNested blocks
        → PathRun callee
            (map (at_return last) (record b0 { body = first ++ b0.body } ∷ blocks))
            0
            path
            es
        → (mid : List Event) × (es ≡ s ∷ (mid ++ (e ∷ []))) × IsNested mid
    entry_run b0 blocks [] es h0 h (b, at, ret, r) =
        let opened = record b0 { body = first ++ b0.body } in
        let same : at_return last opened ≡ b = some_inj at in
        let (inner, f, p) =
          return_run opened es (ap (λ z. z.returns) same ∙ ret)
            (subst (λ z. BodyRun callee z.body es) (sym same) r) in
        let (later, g, q) = opens b0.body inner p in
        (later, f ∙ ap (λ l. l ++ (e ∷ [])) g, h0 later q)
    entry_run b0 blocks (zero ∷ path) es h0 h (b, at, ret, ne, _, _, _, _, _) = absurd (ne refl)
    entry_run b0 blocks (suc j ∷ path) es h0 h (b, at, ret, ne, inner, later, f, r, rest) =
        let opened = record b0 { body = first ++ b0.body } in
        let same : at_return last opened ≡ b = some_inj at in
        let p =
          jump_run opened inner (ap (λ z. z.returns) same ∙ ret)
            (subst (λ z. BodyRun callee z.body inner) (sym same) r) in
        let (begun, g, q) = opens b0.body inner p in
        let (mid, k, n) = tail_run (at_return last opened) blocks j path later h rest in
        (
          begun ++ mid,
          f
              ∙ ap (λ l. l ++ later) g
              ∙ ap (λ l. s ∷ (begun ++ l)) k
              ∙ ap (◌∷◌ s) (sym (append_assoc begun mid (e ∷ []))),
          IsNested-append begun mid (h0 begun q) n,
        )

    split_entry :
        (bs blocks : List Block) (path : List ℕ) (es : List Event)
        → AllNested bs
        → at_entry first bs ≡ some blocks
        → PathRun callee (map (at_return last) blocks) 0 path es
        → (mid : List Event) × (es ≡ s ∷ (mid ++ (e ∷ []))) × IsNested mid
    unfolding at_entry
    split_entry [] blocks path es h at r = absurd (ground arith)
    split_entry (b0 ∷ rest) blocks path es h at r =
        entry_run b0 rest path es (h 0 b0 refl) (λ i. h (suc i))
          (subst (λ l. PathRun callee (map (at_return last) l) 0 path es) (sym (some_inj at)) r)

    -- The injections around a function whose blocks are nested by themselves.
    pub around-IsNested :
        (fn fn' : Func) (path : List ℕ) (es : List Event)
        → ((mid : List Event) → IsNested mid → IsNested (s ∷ (mid ++ (e ∷ []))))
        → AllNested fn.blocks
        → around first last fn ≡ some fn'
        → PathRun callee fn'.blocks 0 path es
        → IsNested es
    around-IsNested fn fn' path es nest h made r =
        let (blocks, at, built) = around-some first last fn fn' made in
        let (mid, f, n) =
          split_entry fn.blocks blocks path es h at
            (subst (λ l. PathRun callee l 0 path es) built r) in
        subst IsNested (sym f) (nest mid n)
