-- ===== src/Stats/Merge/Consensus.antt =====
-- After the merge all threads have the same identifiers.

use pimprof.Base.{
  ℕ, ◌+◌, ◌≡◌, ◌⊎◌, map, refl, ap, inl, inr, false, List, [], ◌∷◌, Option, none, some, get_elem?,
  set, ◌>>=◌, ◌==◌, arith, Double, All, Bool-cases, Option-cases, get_elem?-set, ==_iff,
}
use pimprof.Common.{Uuid}
use pimprof.Solver.RunStats.{RunStats}
use pimprof.Stats.{ThreadStats, modify}
use pimprof.Stats.Table.{hash_at, IsValid, table-Keeps, Keeps-set}
use pimprof.Stats.Merge.{
  StatsMap, with_id, find_merged, sort_stats, generate_bblid, assign_loop, assign_bblid,
  merge_stats_map,
}
use pimprof.Stats.Merge.Entries.{
  Has, IsKeyedMap, carries, All-weaken, sort_stats-Has, sort_stats-carries, number_loop_lem,
  merge_loop_lem,
}

module _ {ℓ} {C : Type ℓ} ⦃d : Double C⦄ where
  -- All threads merge their statistics into one map.
  unfoldable pub merge_all : List (ThreadStats C) → StatsMap C → Option (StatsMap C)
  merge_all [] m = some m
  merge_all (t ∷ ts) m = merge_stats_map t m >>= λ m'. merge_all ts m'

  -- All threads take their identifiers from the map.
  unfoldable pub assign_all : StatsMap C → List (ThreadStats C) → Option (List (ThreadStats C))
  assign_all m [] = some []
  assign_all m (t ∷ ts) = do t' ← assign_bblid m t; ts' ← assign_all m ts; some (t' ∷ ts')

  -- The three steps, over all threads.
  unfoldable pub agree_on_ids : List (ThreadStats C) → Option (List (ThreadStats C))
  unfolding merge_all assign_all
  agree_on_ids ts = do m ← merge_all ts []; m' ← generate_bblid m; assign_all m' ts

  abbrev pub id_of : StatsMap C → Uuid → ℕ
  id_of m u = elim (find_merged u m) [ none ↦ 0 | some s ↦ s.bblid ]

  -- The object at an address carries a hash and the identifier of that hash.
  abbrev pub HasId : (Uuid → ℕ) → List (RunStats C) → Uuid × ℕ → Type ℓ
  HasId id heap e =
      (s : RunStats C) × (get_elem? heap e.1 ≡ some s) × (s.bblhash ≡ e.0) × (s.bblid ≡ id e.0)

  abbrev pub AllHaveId : (Uuid → ℕ) → ThreadStats C → Type ℓ
  AllHaveId id t = All (HasId id t.heap) t.bbl_hash2stats

  id_of-find :
      (m : StatsMap C) (u : Uuid) (s : RunStats C) → find_merged u m ≡ some s → id_of m u ≡ s.bblid
  id_of-find m u s e = rw (e, id_of) refl

  HasId-set :
      (id : Uuid → ℕ) (heap : List (RunStats C)) (a : ℕ) (s : RunStats C) (e : Uuid × ℕ)
      → get_elem? heap a ≡ some s
      → HasId id heap e
      → HasId id (set heap a (with_id (id s.bblhash) s)) e
  HasId-set id heap a s (v, b) at (r, found, hash, num) = elim (Bool-cases (a == b)) [
    | inr f ↦ (r, ground (arith, get_elem?-set heap a (with_id (id s.bblhash) s) b), hash, num)
    | inl f ↦
        let same : a ≡ b = (==_iff a b).0 f in
        let object : s ≡ r = ground arith in
        let key : s.bblhash ≡ v = rw object hash in
        (
          with_id (id s.bblhash) s,
          ground (arith, get_elem?-set heap a (with_id (id s.bblhash) s) b),
          key,
          ap id key,
        )
  ]

  HasId-here :
      (id : Uuid → ℕ) (heap : List (RunStats C)) (a : ℕ) (s : RunStats C) (u : Uuid)
      → get_elem? heap a ≡ some s
      → s.bblhash ≡ u
      → HasId id (set heap a (with_id (id s.bblhash) s)) (u, a)
  HasId-here id heap a s u at key = (
    with_id (id s.bblhash) s,
    ground (arith, get_elem?-set heap a (with_id (id s.bblhash) s) a),
    key,
    ap id key,
  )

  assign_loop_lem :
      (m : StatsMap C) (table : List (Uuid × ℕ)) (t : ThreadStats C)
      → All (λ e. hash_at t.heap e.1 ≡ some e.0) table
      → All (λ e. Has m e.0) table
      → (t' : ThreadStats C) × (assign_loop table m t ≡ some t')
        × (t'.bbl_hash2stats ≡ t.bbl_hash2stats)
        × All (HasId (id_of m) t'.heap) table
        × ((e : Uuid × ℕ) → HasId (id_of m) t.heap e → HasId (id_of m) t'.heap e)
  unfolding assign_loop modify
  assign_loop_lem m [] t h p = (t, refl, refl, tt, λ e q. q)
  assign_loop_lem m ((u, a) ∷ table) t (h, hs) ((r, p), ps) =
      elim (Option-cases (get_elem? t.heap a)) [
        | inl e ↦ absurd (ground arith)
        | inr (s, e) ↦
            let key : s.bblhash ≡ u = ground arith in
            let found : find_merged s.bblhash m ≡ some r = rw key p in
            let num = id_of-find m s.bblhash r found in
            let t1 = record t { heap = set t.heap a (with_id (id_of m s.bblhash) s) } in
            let (t', run, same, all, keeps) =
              assign_loop_lem m table t1
                (table-Keeps t.heap _ table (Keeps-set t.heap a s _ e refl) hs) ps in
            (
              t',
              rw (e, found, ← num) run,
              same,
              (keeps (u, a) (HasId-here (id_of m) t.heap a s u e key), all),
              λ x q. keeps x (HasId-set (id_of m) t.heap a s x e q),
            )
      ]

  merge_all_lem :
      (ts : List (ThreadStats C)) (m : StatsMap C)
      → All IsValid ts
      → IsKeyedMap m
      → (m' : StatsMap C) × (merge_all ts m ≡ some m')
        × IsKeyedMap m'
        × All (λ t. All (λ e. Has m' e.0) t.bbl_hash2stats) ts
        × ((v : Uuid) → Has m v → Has m' v)
  unfolding merge_all merge_stats_map
  merge_all_lem [] m h k = (m, refl, k, tt, λ v p. p)
  merge_all_lem (t ∷ ts) m (h, hs) k =
      let (m1, run, keyed, has, keeps) = merge_loop_lem t.bbl_hash2stats t.heap m h.table k in
      let (m', run', keyed', all, keeps') = merge_all_lem ts m1 hs keyed in
      (
        m',
        rw run run',
        keyed',
        (
          All-weaken (λ e. Has m1 e.0) (λ e. Has m' e.0) t.bbl_hash2stats (λ e. keeps' e.0) has,
          all,
        ),
        λ v p. keeps' v (keeps v p),
      )

  assign_all_lem :
      (m : StatsMap C) (ts : List (ThreadStats C))
      → All IsValid ts
      → All (λ t. All (λ e. Has m e.0) t.bbl_hash2stats) ts
      → (ts' : List (ThreadStats C)) × (assign_all m ts ≡ some ts')
        × (map (λ t. t.bbl_hash2stats) ts' ≡ map (λ t. t.bbl_hash2stats) ts)
        × All (AllHaveId (id_of m)) ts'
  unfolding assign_all assign_bblid
  assign_all_lem m [] h p = ([], refl, refl, tt)
  assign_all_lem m (t ∷ ts) (h, hs) (p, ps) =
      let (t', run, same, ids, keeps) = assign_loop_lem m t.bbl_hash2stats t h.table p in
      let (ts', run', rest, all) = assign_all_lem m ts hs ps in
      (t' ∷ ts', rw (run, run') refl, rw (same, rest) refl, (rw same ids, all))

  -- A hash of the map is found at the index that is its number.
  numbered_lem :
      (m m' : StatsMap C) (u : Uuid)
      → IsKeyedMap m
      → Has m u
      → Has m' u
      → ((s : RunStats C)
          → find_merged u m' ≡ some s
          → ((k : ℕ) × (s.bblid ≡ 0 + k) × (hash_at (sort_stats m) k ≡ some u))
            ⊎ ((carries u (sort_stats m) ≡ false) × (find_merged u m ≡ some s)))
      → hash_at (sort_stats m) (id_of m' u) ≡ some u
  numbered_lem m m' u k p (s, e) numbered = elim (numbered s e) [
    | inl (i, num, at) ↦ let index : s.bblid ≡ i = omega arith in rw (id_of-find m' u s e, index) at
    | inr (absent, old) ↦ let there = sort_stats-carries m u k p in absurd (ground arith)
  ]

  -- Threads whose tables are right agree on the identifiers of the basic blocks: the merge of their
  -- statistics, the numbering and the assignment have a result. Each thread keeps its table, each
  -- object in it has the identifier of its hash, the same in all threads, and an identifier is the
  -- index of its hash in a list, so that different hashes have different identifiers.
  pub agree_on_ids-AllHaveId :
      (ts : List (ThreadStats C))
      → All IsValid ts
      → (ts' : List (ThreadStats C)) × (id : Uuid → ℕ) × (sorted : List (RunStats C))
        × (agree_on_ids ts ≡ some ts')
        × (map (λ t. t.bbl_hash2stats) ts' ≡ map (λ t. t.bbl_hash2stats) ts)
        × All (AllHaveId id) ts'
        × All (λ t. All (λ e. hash_at sorted (id e.0) ≡ some e.0) t.bbl_hash2stats) ts
  unfolding agree_on_ids generate_bblid
  agree_on_ids-AllHaveId ts h =
      let (m, run, keyed, has, _) = merge_all_lem ts [] h tt in
      let (m', run', keeps, numbered) =
        number_loop_lem 0 (sort_stats m) m (sort_stats-Has m keyed) in
      let kept : All (λ t. All (λ e. Has m' e.0) t.bbl_hash2stats) ts =
        All-weaken (λ t. All (λ e. Has m e.0) t.bbl_hash2stats)
          (λ t. All (λ e. Has m' e.0) t.bbl_hash2stats) ts
          (λ t. All-weaken (λ e. Has m e.0) (λ e. Has m' e.0) t.bbl_hash2stats (λ e. keeps e.0))
          has in
      let (ts', run'', same, ids) = assign_all_lem m' ts h kept in
      (
        ts',
        id_of m',
        sort_stats m,
        rw (run, run', run'') refl,
        same,
        ids,
        All-weaken (λ t. All (λ e. Has m e.0) t.bbl_hash2stats) _ ts
            (λ t.
              All-weaken (λ e. Has m e.0) _ t.bbl_hash2stats
                (λ e p. numbered_lem m m' e.0 keyed p (keeps e.0 p) (numbered e.0)))
            has,
      )
