-- ===== src/Stats/Merge/Entries.antt =====
-- The map into which the threads merge their statistics: its entries and their numbers.
use mathlib.Core.Option
use pimprof.Base.{
  ℕ, zero, suc, ◌+◌, ◌≡◌, ◌⊎◌, refl, sym, ap, ◌∙◌, subst, inl, inr, Bool, true, false, ◌||◌, List,
  [], ◌∷◌, Option, none, some, get_elem?, if◌then◌else◌, arith, Double, All, Bool-cases,
  Option-cases,
}
use pimprof.Common.{Uuid, uuid_eq}
use pimprof.Solver.RunStats.{RunStats, merge_base}
use pimprof.Solver.Align.{uuid_lt}
use pimprof.Stats.Table.{hash_at, uuid_eq_refl, uuid_eq→eq}
use pimprof.Stats.Merge.{
  StatsMap, with_id, find_merged, insert_stats, sort_stats, put_id, number_loop, merge_entry,
  merge_loop,
}

uuid_eq-differs : (w u v : Uuid) → uuid_eq w u ≡ false → uuid_eq w v ≡ true → uuid_eq u v ≡ false
unfolding uuid_eq
uuid_eq-differs w u v e f = ground arith

map-some {ℓ} :
    {A : Type ℓ} (f : A → A) (o : Option A) (b : A) → Option.map f o ≡ some b → (a : A) × (b ≡ f a)
map-some f none b e = absurd (ground arith)
map-some f (some a) b e = (a, ground arith)

pub All-weaken {ℓ κ μ} :
    {A : Type ℓ} (P : A → Type κ) (Q : A → Type μ) (xs : List A)
    → ((x : A) → P x → Q x)
    → All P xs
    → All Q xs
All-weaken P Q [] f h = tt
All-weaken P Q (x ∷ xs) f (p, h) = (f x p, All-weaken P Q xs f h)

module _ {ℓ} {C : Type ℓ} where
  abbrev pub Has : StatsMap C → Uuid → Type ℓ
  Has m u = (s : RunStats C) × (find_merged u m ≡ some s)

  -- Each entry carries the hash that it is stored under.
  abbrev pub IsKeyedMap : StatsMap C → Type 0
  IsKeyedMap m = All (λ e. e.1.bblhash ≡ e.0) m

  unfoldable pub carries : Uuid → List (RunStats C) → Bool
  carries u [] = false
  carries u (s ∷ ss) = uuid_eq s.bblhash u || carries u ss

  pub Has-cons :
      (v : Uuid) (s : RunStats C) (m : StatsMap C) (u : Uuid) → Has m u → Has ((v, s) ∷ m) u
  unfolding find_merged
  Has-cons v s m u (r, e) = elim (Bool-cases (uuid_eq v u)) [
    | inl here ↦ (s, rw here refl)
    | inr there ↦ (r, rw there e)
  ]

  pub Has-head : (v : Uuid) (s : RunStats C) (m : StatsMap C) → Has ((v, s) ∷ m) v
  unfolding find_merged
  Has-head v s m = (s, rw (uuid_eq_refl v) refl)

  insert_stats-All {κ} :
      (P : RunStats C → Type κ) (s : RunStats C) (xs : List (RunStats C))
      → P s
      → All P xs
      → All P (insert_stats s xs)
  unfolding insert_stats
  insert_stats-All P s [] p h = (p, tt)
  insert_stats-All P s (x ∷ xs) p (q, h) = elim (Bool-cases (uuid_lt x.bblhash s.bblhash)) [
    | inl e ↦ rw (e, insert_stats) (q, insert_stats-All P s xs p h)
    | inr e ↦ rw (e, insert_stats) (p, (q, h))
  ]

  carries-insert_stats :
      (u : Uuid) (s : RunStats C) (xs : List (RunStats C))
      → carries u (insert_stats s xs) ≡ (uuid_eq s.bblhash u || carries u xs)
  unfolding carries insert_stats
  carries-insert_stats u s [] = refl
  carries-insert_stats u s (x ∷ xs) = ground (arith, carries-insert_stats u s xs)

  -- The sorted statistics are those of the map.
  pub sort_stats-Has : (m : StatsMap C) → IsKeyedMap m → All (λ s. Has m s.bblhash) (sort_stats m)
  unfolding sort_stats
  sort_stats-Has [] k = tt
  sort_stats-Has ((u, s) ∷ m) (k, ks) =
      insert_stats-All (λ r. Has ((u, s) ∷ m) r.bblhash) s (sort_stats m)
        (subst (Has ((u, s) ∷ m)) (sym k) (Has-head u s m))
        (All-weaken (λ r. Has m r.bblhash) (λ r. Has ((u, s) ∷ m) r.bblhash) (sort_stats m)
          (λ r. Has-cons u s m r.bblhash) (sort_stats-Has m ks))

  pub sort_stats-carries :
      (m : StatsMap C) (u : Uuid) → IsKeyedMap m → Has m u → carries u (sort_stats m) ≡ true
  unfolding sort_stats find_merged
  sort_stats-carries [] u k (r, e) = absurd (ground arith)
  sort_stats-carries ((v, s) ∷ m) u (k, ks) (r, e) =
      carries-insert_stats u s (sort_stats m) ∙ elim (Bool-cases (uuid_eq v u)) [
        | inl here ↦ let same : uuid_eq s.bblhash u ≡ true = rw k here in ground arith
        | inr there ↦
            let found : find_merged u m ≡ some r = ground arith in
            let rest = sort_stats-carries m u ks (r, found) in ground arith
      ]

  -- Numbering a hash of the map writes its number there, and nothing else.
  pub put_id_lem :
      (u : Uuid) (i : ℕ) (m : StatsMap C)
      → Has m u
      → (m' : StatsMap C) × (put_id u i m ≡ some m')
        × ((v : Uuid)
            → find_merged v m'
              ≡ (if uuid_eq u v then Option.map (with_id i) (find_merged v m) else find_merged v m))
  unfolding put_id find_merged
  put_id_lem u i [] (r, e) = absurd (ground arith)
  put_id_lem u i ((w, s) ∷ m) (r, e) = elim (Bool-cases (uuid_eq w u)) [
    | inl here ↦
        let same : w ≡ u = uuid_eq→eq w u here in
        ((w, with_id i s) ∷ m, rw here refl, λ v. rw same (ground arith))
    | inr there ↦
        let (m', run, at) = put_id_lem u i m (r, ground arith) in
        (
          (w, s) ∷ m',
          rw (there, run) refl,
          λ v. elim (Bool-cases (uuid_eq w v)) [
            | inr f ↦ rw f (at v)
            | inl f ↦
                let same : w ≡ v = uuid_eq→eq w v f in
                let other = uuid_eq-differs w u v there f in rw (f, other) refl
          ],
        )
  ]

  Has-put_id :
      (u : Uuid) (i : ℕ) (m m' : StatsMap C) (v : Uuid)
      → find_merged v m'
        ≡ (if uuid_eq u v then Option.map (with_id i) (find_merged v m) else find_merged v m)
      → Has m v
      → Has m' v
  Has-put_id u i m m' v at (s, e) = elim (Bool-cases (uuid_eq u v)) [
    | inl f ↦ (with_id i s, ground arith)
    | inr f ↦ (s, ground arith)
  ]

module _ {ℓ} {C : Type ℓ} ⦃d : Double C⦄ where
  -- After the loop the number of a hash is an index at which the sorted statistics carry it.
  pub number_loop_lem :
      (i : ℕ) (ss : List (RunStats C)) (m : StatsMap C)
      → All (λ s. Has m s.bblhash) ss
      → (m' : StatsMap C) × (number_loop i ss m ≡ some m')
        × ((v : Uuid) → Has m v → Has m' v)
        × ((v : Uuid) (s : RunStats C)
            → find_merged v m' ≡ some s
            → ((k : ℕ) × (s.bblid ≡ i + k) × (hash_at ss k ≡ some v))
              ⊎ ((carries v ss ≡ false) × (find_merged v m ≡ some s)))
  unfolding number_loop carries
  number_loop_lem i [] m h = (m, refl, λ v p. p, λ v s e. inr (refl, e))
  number_loop_lem i (x ∷ ss) m (p, h) =
      let (m1, run, at) = put_id_lem x.bblhash i m p in
      let (m', run', keeps, numbered) = number_loop_lem (suc i) ss m1 (
        All-weaken (λ s. Has m s.bblhash) (λ s. Has m1 s.bblhash) ss
          (λ s. Has-put_id x.bblhash i m m1 s.bblhash (at s.bblhash)) h) in
      (
        m',
        rw run run',
        λ v q. keeps v (Has-put_id x.bblhash i m m1 v (at v) q),
        λ v s e. elim (numbered v s e) [
          | inl (k, e1, e2) ↦ inl (suc k, omega arith, e2)
          | inr (absent, e1) ↦ elim (Bool-cases (uuid_eq x.bblhash v)) [
            | inr f ↦ inr (rw (f, absent) refl, ground (arith, at v))
            | inl f ↦
                let made : Option.map (with_id i) (find_merged v m) ≡ some s =
                  ground (arith, at v) in
                let (old, same) = map-some (with_id i) (find_merged v m) s made in
                inl (zero, rw same (omega arith), ap some (uuid_eq→eq x.bblhash v f))
          ]
        ],
      )

  Has-each :
      (w : Uuid) (s s' : RunStats C) (m m' : StatsMap C) (v : Uuid)
      → (Has m v → Has m' v)
      → Has ((w, s) ∷ m) v
      → Has ((w, s') ∷ m') v
  unfolding find_merged
  Has-each w s s' m m' v f (r, e) = elim (Bool-cases (uuid_eq w v)) [
    | inl here ↦ (s', rw here refl)
    | inr there ↦ let (q, e') = f (r, ground arith) in (q, rw there e')
  ]

  -- Merging statistics keeps the map keyed, and gives their hash an entry.
  pub merge_entry_lem :
      (u : Uuid) (s : RunStats C) (m : StatsMap C)
      → IsKeyedMap m
      → IsKeyedMap (merge_entry u s m)
        × Has (merge_entry u s m) u
        × ((v : Uuid) → Has m v → Has (merge_entry u s m) v)
  unfolding merge_entry merge_base find_merged
  merge_entry_lem u s [] k = ((refl, tt), (Has-head u _ []), λ v p. absurd (ground arith))
  merge_entry_lem u s ((w, old) ∷ m) (k, ks) = elim (Bool-cases (uuid_eq w u)) [
    | inl here ↦
        let same : w ≡ u = uuid_eq→eq w u here in
        let new = merge_base old s in
        rw (here, merge_entry)
          (
            (k, ks),
            subst (Has ((w, new) ∷ m)) same (Has-head w new m),
            λ v. Has-each w old new m m v (λ p. p),
          )
    | inr there ↦
        let (keyed, has, keeps) = merge_entry_lem u s m ks in
        rw (there, merge_entry)
          (
            (k, keyed),
            Has-cons w old (merge_entry u s m) u has,
            λ v. Has-each w old old m (merge_entry u s m) v (keeps v),
          )
  ]

  -- The statistics of a thread are merged without a fault.
  pub merge_loop_lem :
      (table : List (Uuid × ℕ)) (heap : List (RunStats C)) (m : StatsMap C)
      → All (λ e. hash_at heap e.1 ≡ some e.0) table
      → IsKeyedMap m
      → (m' : StatsMap C) × (merge_loop table heap m ≡ some m')
        × IsKeyedMap m'
        × All (λ e. Has m' e.0) table
        × ((v : Uuid) → Has m v → Has m' v)
  unfolding merge_loop
  merge_loop_lem [] heap m h k = (m, refl, k, tt, λ v p. p)
  merge_loop_lem ((u, a) ∷ table) heap m (h, hs) k = elim (Option-cases (get_elem? heap a)) [
    | inl e ↦ absurd (ground arith)
    | inr (s, e) ↦
        let (keyed, has, keeps) = merge_entry_lem u s m k in
        let (m', run, keyed', all, keeps') =
          merge_loop_lem table heap (merge_entry u s m) hs keyed in
        (m', rw e run, keyed', (keeps' u has, all), λ v p. keeps' v (keeps v p))
  ]
