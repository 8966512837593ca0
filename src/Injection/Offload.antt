-- ===== src/Injection/Offload.antt =====
-- OffloaderInjection.cpp: the decisions that it reads, and the calls that it puts around each block.
use pimprof.Base.{ℕ, ◌+◌, Bool, List, [], ◌∷◌, Option, none, some, if◌then◌else◌, ◌>>=◌}
use pimprof.Common.{Uuid, uuid_eq, main_bblhash, CostSite, cpu, pim, invalid, site_eq}
use pimprof.Injection.{
  sim_magic0, sim_magic2, Block, Func, Hashes, bracket, around, each, if_main, roi_start, roi_end,
  bbl_start_op, bbl_end_op, main_bblid,
}

abbrev pub offload_start_op : ℕ
offload_start_op = 1026

abbrev pub offload_end_op : ℕ
offload_end_op = 1027

abbrev pub decision_cpu : ℕ
decision_cpu = 0

abbrev pub decision_pim : ℕ
decision_pim = 1

-- The words of a line that the pass uses: the decision ("P" or another word), and the hash.
pub record DecisionLine : Type 0 where
  pub is_p : Bool
  pub hi : ℕ
  pub lo : ℕ

-- `DecisionMap`, with the sites of its decisions.
abbrev pub DecisionMap : Type 0
DecisionMap = List (Uuid × CostSite)

unfoldable pub find_decision : Uuid → DecisionMap → Option CostSite
unfolding uuid_eq
find_decision u [] = none
find_decision u ((v, site) ∷ rest) = if uuid_eq v u then some site else find_decision u rest

unfoldable pub put_decision : Uuid → CostSite → DecisionMap → DecisionMap
unfolding uuid_eq
put_decision u site [] = (u, site) ∷ []
put_decision u site ((v, old) ∷ rest) =
    if uuid_eq v u then (v, site) ∷ rest else (v, old) ∷ put_decision u site rest

-- `initDecisionMap`: the lines after the rule.
unfoldable pub init_decision_map : List DecisionLine → DecisionMap → DecisionMap
unfolding put_decision
init_decision_map [] decisions = decisions
init_decision_map (line ∷ rest) decisions = init_decision_map rest (
    put_decision (record { first = line.hi; second = line.lo }) (if line.is_p then pim else cpu)
      decisions)

-- The key that `getBasicBlockDecision` looks up.
unfoldable pub block_key : Hashes → Block → Uuid
block_key h b = let (lo, hi) = h.of_block b in record { first = hi; second = lo }

-- `getBasicBlockDecision`
unfoldable pub get_basic_block_decision : Hashes → DecisionMap → Block → CostSite
unfolding find_decision block_key
get_basic_block_decision h decisions b = elim (find_decision (block_key h b) decisions) [
  | none ↦ invalid
  | some site ↦ site
]

-- `getMainDecision`; a missing entry is created with the first site.
unfoldable pub get_main_decision : DecisionMap → CostSite
unfolding find_decision
get_main_decision decisions = elim (find_decision main_bblhash decisions) [
  | none ↦ cpu
  | some site ↦ site
]

-- The counters that the pass reports.
pub record Report : Type 0 where
  pub found_cnt : ℕ
  pub not_found_cnt : ℕ
  pub cpu_inject_cnt : ℕ
  pub pim_inject_cnt : ℕ

-- `InjectSniperOffloaderCall` of a block.
unfoldable pub inject_block : Hashes → DecisionMap → Block → Report → Block × Report
unfolding get_basic_block_decision site_eq bracket
inject_block h decisions b r =
    let site = get_basic_block_decision h decisions b in
    let hi = (h.of_block b).1 in
    if site_eq site invalid
    then (b, record r { not_found_cnt = r.not_found_cnt + 1 })
    else if site_eq site pim
    then (
      bracket (sim_magic2 offload_start_op hi decision_pim)
          (sim_magic2 offload_end_op hi decision_pim) b,
      record r { found_cnt = r.found_cnt + 1; pim_inject_cnt = r.pim_inject_cnt + 1 },
    )
    else (
      bracket (sim_magic2 offload_start_op hi decision_cpu)
          (sim_magic2 offload_end_op hi decision_cpu) b,
      record r { found_cnt = r.found_cnt + 1; cpu_inject_cnt = r.cpu_inject_cnt + 1 },
    )

-- The loops over the blocks of a function and the functions of a module.
unfoldable pub inject_blocks : Hashes → DecisionMap → List Block → Report → List Block × Report
unfolding inject_block
inject_blocks h decisions [] r = ([], r)
inject_blocks h decisions (b ∷ rest) r =
    let (b', r1) = inject_block h decisions b r in
    let (rest', r2) = inject_blocks h decisions rest r1 in (b' ∷ rest', r2)

unfoldable pub inject_funcs : Hashes → DecisionMap → List Func → Report → List Func × Report
unfolding inject_blocks
inject_funcs h decisions [] r = ([], r)
inject_funcs h decisions (f ∷ rest) r =
    let (blocks, r1) = inject_blocks h decisions f.blocks r in
    let (rest', r2) = inject_funcs h decisions rest r1 in (record f { blocks = blocks } ∷ rest', r2)

-- `InjectSniperOffloaderCall` of `main`.
unfoldable pub inject_main : CostSite → Func → Option Func
unfolding around site_eq
inject_main site =
    let on_pim =
      around (sim_magic0 roi_start ∷ sim_magic2 offload_start_op main_bblid decision_pim ∷ [])
        (sim_magic2 offload_end_op main_bblid decision_pim ∷ sim_magic0 roi_end ∷ []) in
    let on_cpu =
      around (sim_magic0 roi_start ∷ sim_magic2 bbl_start_op main_bblid decision_cpu ∷ [])
        (sim_magic2 bbl_end_op main_bblid decision_cpu ∷ sim_magic0 roi_end ∷ []) in
    if site_eq site pim then on_pim else on_cpu

-- `OffloaderInjection::runOnModule` in the Sniper mode.
unfoldable pub run_offloader : Hashes → List DecisionLine → List Func → Option (List Func × Report)
unfolding init_decision_map get_main_decision inject_funcs inject_main each
run_offloader h lines m = do
  let decisions = init_decision_map lines []
  let zero_counts : Report = record {
    found_cnt = 0;
    not_found_cnt = 0;
    cpu_inject_cnt = 0;
    pim_inject_cnt = 0;
  }
  let (m1, report) = inject_funcs h decisions m zero_counts
  m2 ← each (if_main (inject_main (get_main_decision decisions))) m1
  some (m2, report)
