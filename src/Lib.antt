-- ===== src/Lib.antt =====
-- PIMProf decides for each basic block of a program whether it should run on the CPU or near the
-- memory (PIM). One run of the program on each side collects times per basic block and thread, and
-- the segments of basic blocks that share a cache line; the solver then searches for the decision of
-- least cost: the times on the chosen sites, the switches between them, and the flushes and fetches
-- for cache lines that are shared across sites.
--
-- Modules, with the sources that they model (in PIMProfSolver/, where nothing else is said):
--   Base        tests, lists that are read by native numbers, maps, binary digits, and the interfaces of
--               `COST` (Floats, Signed)
--   Common      Common.h: identifiers, sites, decisions; ControlValue
--   DataReuse   DataReuse.h: Segment (`DataReuseSegment`), Trie (`TrieNode`, `UpdateTrie`,
--               `ExportSegment`), Switch (`SwitchCountMatrix`, `SwitchCountList`)
--   Stats       Stats.h: `ThreadStats`, the calls that the annotated program makes; Segments,
--               Table, Steps and Nesting hold the proofs about them; Merge is how the threads agree
--               on identifiers
--   Solver      CostSolver.h and CostSolver.cpp: RunStats (`ThreadRunStats`), Cost (`Cost` and what
--               it calls), Search (`PermuteDecision` and the loops that flip single basic blocks),
--               Reuse (`PrintReuseStats` and both debug searches), Align (`SortStatsMap`,
--               `getBBLSortedStats`), Policies (the policies that decide basic blocks one by one),
--               Input (the parsers), Revise (`TopReuseBBPairs`), Groups (`PrintDisjointSets`), Report
--               (`PrintDecision` and `ReuseCostPrint`), Driver (`initialize`, `PrintSolution`, and the
--               command line of Util.cpp)
--   Storage     Storage.h and Storage.cpp: the cache sets and their replacement policies; Log2: the
--               logarithms; Levels: the levels and the costs of a hit; Access: an access along a chain
--               of levels; Config: `ReadConfig`; Hierarchy: the references of both sites; Inclusion,
--               Survival, Promotes and Rounds hold proofs
--   Util        Util.h: DisjointSet
--   Pin         PinInstrument.cpp with the members of CostPackage.h, CostPackage.cpp and BBLScope of
--               Util.h that it uses: the annotation handlers and the threads; Count is Simulation.cpp,
--               what the analysis calls of an instruction add up; Decode is `InstructionInstrument`,
--               which calls are inserted; Run puts the callbacks in a sequence, as those of a
--               program of one thread are, and says which sequences are bracketed; Scopes, Sound, Heads,
--               Threads, Calls and Bracketed hold the proofs about those, Marks and Regions the one about
--               the counters of regions
--   Injection   LLVMAnalysis/AnnotationInjection.cpp and, in Offload, OffloaderInjection.cpp: what the
--               passes insert into a module; Runs says what the inserted calls do to the statistics
--               of a thread (Stats) when the module runs; Vtune is LLVMAnalysis/PIMProfAnnotation.cpp,
--               what the VTune calls tell the profiler
--
-- How the code is represented:
--   * A failed assertion, an access out of bounds and a dangling pointer are `none`.
--   * A `COST` is a `double`. The model takes its constants, operations and comparisons as a record
--     `Double`; theorems that compare costs take the laws of a strict weak order, which hold without
--     NaN. No law of rounding is assumed: sums keep the order of the code.
--   * 64-bit counters wrap around at `u64_mod`. A `BBLID` is a natural number.
--   * A `std::set` is its ascending list, a `std::map` the list of its entries by key, and a
--     `std::vector` a list (the stacks of `ThreadStats` with their back first).
--   * A pointer to a trie node is its path from the root, with the number of its trie, since leaves of
--     a deleted trie stay behind in `_leaves`. A `RunStats *` is an index into the heap of its thread.
--   * Loops over containers are structural recursions, and loops over counters recursions on the
--     number of rounds left. The loop of `DisjointSet::Find` takes fuel, one more than there are
--     entries: no path of a forest is longer, and the unions keep a forest. The loop of
--     `PrintDecision` that widens its net takes fuel too: rounds enough to bring the threshold below
--     the largest difference of a misplaced block end it, and where no block is misplaced no fuel
--     does. An access to the storage runs over its lines with fuel, a round per byte and one more.
--   * `std::sort` is a stable insertion sort, or a parameter that keeps the elements; the order of equal
--     entries is not specified by C++.
--
-- The callbacks of the Pin tool are taken one after the other. Their lock is taken for reading
-- only, so that those of several threads can overlap; what they then do is not modelled.
--
-- Lines of a file are given by their words, and the command line by what `getopt_long` returns for it:
-- both are the library's.
--
-- Not modelled: the text that is printed, apart from the report of `PrintDecision`; what Pin and its
-- decoder say of an instruction, which are the fields of `Ins`; the words of a configuration file; the
-- third-party MurmurHash3 and INIReader; the configuration files and scripts. The enumerators of the
-- storage levels are not in the repository: a chain of levels takes their place.
pub mod Base
pub mod Common
pub mod DataReuse
pub mod Injection
pub mod Pin
pub mod Solver
pub mod Stats
pub mod Storage
pub mod Util
