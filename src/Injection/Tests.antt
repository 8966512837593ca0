-- ===== src/Injection/Tests.antt =====
-- A module of two functions: `main` calls the other, which has two blocks.
use pimprof.Base.{
  ℕ, ◌+◌, ◌≡◌, refl, inl, inr, true, false, List, [], ◌∷◌, ◌++◌, some, nat_double, arith,
}
use pimprof.Stats.{ThreadStats, new_thread}
use pimprof.Stats.Table.{new_thread-IsValid}
use pimprof.Stats.Steps.{Restores}
use pimprof.Injection.{
  plain, call, sim_magic0, sim_magic2, Block, Func, Hashes, sniper, run_annotation,
}
use pimprof.Injection.Offload.{DecisionLine, Report, run_offloader}
use pimprof.Injection.Runs.{
  Event, work, enters, leaves, offloads, returns, FuncRun, run_events, time,
}
use pimprof.Injection.Annotated.{run_annotation-Restores}
use pimprof.Injection.Offloaded.{run_offloader-Restores}

abbrev hashes : Hashes
hashes = record {
  of_block = λ b. (b.label + 100, b.label + 200);
  of_func = λ f. (f.name + 300, f.name + 400);
}

abbrev func : ℕ → List Block → Func
func name blocks = record {
  name = name;
  is_main = false;
  is_startup = false;
  is_openmp = false;
  blocks = blocks;
}

abbrev main : List Block → Func
main blocks = record {
  name = 0;
  is_main = true;
  is_startup = false;
  is_openmp = false;
  blocks = blocks;
}

abbrev source : List Func
source =
    main (record { label = 1; body = plain 5 ∷ call 1 ∷ []; returns = true } ∷ [])
    ∷ func 1 (
        record { label = 2; body = plain 6 ∷ []; returns = false }
        ∷ record { label = 3; body = []; returns = true }
        ∷ [])
    ∷ []

abbrev annotated : List Func
annotated =
    main (
      record {
        label = 1;
        body =
            sim_magic0 1
            ∷ sim_magic2 1024 1 1
            ∷ sim_magic2 1024 400 201
            ∷ plain 5
            ∷ call 1
            ∷ sim_magic2 1025 400 201
            ∷ sim_magic2 1025 1 1
            ∷ sim_magic0 2
            ∷ [];
        returns = true;
      }
      ∷ [])
    ∷ func 1 (
        record {
          label = 2;
          body = sim_magic2 1024 401 202 ∷ plain 6 ∷ sim_magic2 1025 401 202 ∷ [];
          returns = false;
        }
        ∷ record {
          label = 3;
          body = sim_magic2 1024 401 203 ∷ sim_magic2 1025 401 203 ∷ [];
          returns = true;
        }
        ∷ [])
    ∷ []

annotates : run_annotation sniper hashes source ≡ some annotated
unfolding run_annotation
annotates = refl

abbrev inner_events : List Event
inner_events =
    enters 401 202 ∷ work (time 30 1) ∷ leaves 401 202 ∷ enters 401 203 ∷ leaves 401 203 ∷ []

abbrev events : List Event
events =
    enters 1 1
    ∷ enters 400 201
    ∷ work (time 50 2)
    ∷ (inner_events ++ (leaves 400 201 ∷ leaves 1 1 ∷ []))

inner_ran : FuncRun annotated 1 1 inner_events
inner_ran = (
  _,
  refl,
  inr (
    1 ∷ [],
    (
      _,
      refl,
      refl,
      (λ e. ground arith),
      enters 401 202 ∷ work (time 30 1) ∷ leaves 401 202 ∷ [],
      enters 401 203 ∷ leaves 401 203 ∷ [],
      refl,
      (_, refl, (time 30 1 ∷ [], leaves 401 202 ∷ [], refl, ([], refl, refl))),
      (_, refl, refl, (leaves 401 203 ∷ [], refl, ([], refl, refl))),
    ),
  ),
)

ran : FuncRun annotated 2 0 events
ran = (
  _,
  refl,
  inr (
    [],
    (
      _,
      refl,
      refl,
      (
        _,
        refl,
        (
          _,
          refl,
          (
            time 50 2 ∷ [],
            inner_events ++ (leaves 400 201 ∷ leaves 1 1 ∷ []),
            refl,
            (
              inner_events,
              leaves 400 201 ∷ leaves 1 1 ∷ [],
              refl,
              inner_ran,
              (leaves 1 1 ∷ [], refl, ([], refl, refl)),
            ),
          ),
        ),
      ),
    ),
  ),
)

run_annotation-Restores_example :
    (t' : ThreadStats ℕ) × (run_events events new_thread ≡ some t') × Restores new_thread t'
run_annotation-Restores_example =
    run_annotation-Restores sniper hashes source annotated 2 0 events new_thread (inl refl)
      ((tt, tt), ((tt, (tt, tt)), tt)) annotates ran new_thread-IsValid

-- Blocks 1 and 3 have decisions under their own hashes, block 2 has none.
abbrev lines : List DecisionLine
lines =
    record { is_p = true; hi = 201; lo = 101 }
    ∷ record { is_p = false; hi = 203; lo = 103 }
    ∷ record { is_p = true; hi = 1; lo = 1 }
    ∷ []

abbrev offloaded : List Func
offloaded =
    main (
      record {
        label = 1;
        body =
            sim_magic0 1
            ∷ sim_magic2 1026 1 1
            ∷ sim_magic2 1026 201 1
            ∷ plain 5
            ∷ call 1
            ∷ sim_magic2 1027 201 1
            ∷ sim_magic2 1027 1 1
            ∷ sim_magic0 2
            ∷ [];
        returns = true;
      }
      ∷ [])
    ∷ func 1 (
        record { label = 2; body = plain 6 ∷ []; returns = false }
        ∷ record {
          label = 3;
          body = sim_magic2 1026 203 0 ∷ sim_magic2 1027 203 0 ∷ [];
          returns = true;
        }
        ∷ [])
    ∷ []

abbrev report : Report
report = record { found_cnt = 2; not_found_cnt = 1; cpu_inject_cnt = 1; pim_inject_cnt = 1 }

offloads_it : run_offloader hashes lines source ≡ some (offloaded, report)
unfolding run_offloader
offloads_it = refl

inner_offloaded : FuncRun offloaded 1 1 (work (time 30 1) ∷ offloads 203 0 ∷ returns 203 0 ∷ [])
inner_offloaded = (
  _,
  refl,
  inr (
    1 ∷ [],
    (
      _,
      refl,
      refl,
      (λ e. ground arith),
      work (time 30 1) ∷ [],
      offloads 203 0 ∷ returns 203 0 ∷ [],
      refl,
      (time 30 1 ∷ [], [], refl, refl),
      (_, refl, refl, (returns 203 0 ∷ [], refl, ([], refl, refl))),
    ),
  ),
)

run_offloader-Restores_example :
    (t' : ThreadStats ℕ) × (run_events
        (work (time 30 1) ∷ offloads 203 0 ∷ returns 203 0 ∷ [])
        new_thread
      ≡ some t')
    × Restores new_thread t'
run_offloader-Restores_example =
    run_offloader-Restores hashes lines source offloaded report 1 1 _ new_thread
      ((tt, tt), ((tt, (tt, tt)), tt)) offloads_it inner_offloaded new_thread-IsValid
