-- ===== src/Pin/Tests.antt =====
-- Runs of the Pin tool on small programs.
use pimprof.Base.{
  ℕ, ◌≡◌, refl, true, false, List, [], ◌∷◌, some, replicate, ◌%◌, ◌+◌, u64_mod, nat_double,
}
use pimprof.Common.ControlValue.{get_op_type, get_is_open_mp}
use pimprof.Pin.{
  Package, PerSite, new_package, access_type_load, thread_start, handle_magic, handle_op, write,
  do_at_roi_decision_head, do_at_roi_decision_tail,
}
use pimprof.Pin.Count.{Machine, max_index}
use pimprof.Pin.Decode.{
  Ins, Piece, own, magic, instructions, expected_calls, ins_to_skip, instrument_all,
  instrument_all-magic, is_marker,
}
use pimprof.Pin.Run.{
  Action, thread_starts, handles_magic, counts, fetches, refers, perform, perform_all, Brackets,
}
use pimprof.Pin.Marks.{marked_count}
use pimprof.Pin.Regions.{perform_all-counted}

abbrev plain_ins : Ins
plain_ins = record {
  is_xchg = false;
  first_is_rcx = false;
  second_is_rcx = false;
  is_mov = false;
  opcode = 7;
  is_memory_read = true;
  has_memory_read2 = false;
  is_memory_write = false;
  is_standard_memop = true;
  classify_sse = false;
  classify_avx = true;
  classify_avx512 = false;
  simd_scalar = false;
  vector_length_bits = 256;
  decoded_length = 4;
}

abbrev marker : Ins
marker = record plain_ins { is_xchg = true; first_is_rcx = true; second_is_rcx = true }

abbrev mov : Ins
mov = record plain_ins { is_mov = true }

abbrev program : List Piece
program = own mov ∷ magic marker mov mov mov ∷ own plain_ins ∷ []

instrument_all-magic_example :
    instrument_all (instructions program) ins_to_skip ≡ some (expected_calls program, ins_to_skip)
unfolding is_marker
instrument_all-magic_example =
    instrument_all-magic program (refl, (refl, refl, refl, refl, refl, refl, refl, (refl, tt)))

abbrev site : Machine ℕ
site = record { instruction_latency = replicate max_index 3; simd_capability = 2; core_count = 4 }

abbrev machine : PerSite (Machine ℕ)
machine = record { on_cpu = site; on_pim = site }

-- A thread opens a block inside a region, with another one open.
abbrev callbacks : List Action
callbacks =
    handles_magic 0 8 9 0
    ∷ handles_magic 0 0 0 4
    ∷ handles_magic 0 5 5 0
    ∷ counts 0 7 false 4
    ∷ fetches 0 64 4 0
    ∷ handles_magic 0 5 5 1
    ∷ handles_magic 0 6 6 0
    ∷ refers 0 64 128 8 access_type_load 0
    ∷ []

abbrev left_open : Brackets
left_open = record {
  open_blocks = ((record { first = 6; second = 6 }) ∷ (record { first = 8; second = 9 }) ∷ []) ∷ [];
  any_seen = true;
}

-- The thread has entered and left a region, and is in one that it entered once.
abbrev marks : List Action
marks =
    handles_magic 0 0 0 4
    ∷ handles_magic 0 0 0 5
    ∷ handles_magic 0 0 0 5
    ∷ handles_magic 0 0 0 4
    ∷ handles_magic 0 0 0 4
    ∷ []

abbrev after_marks : Package ℕ
after_marks = record (thread_start (new_package false true)) {
  enter_roi_cnt = 2;
  exit_roi_cnt = 1;
  thread_in_roidecision = true ∷ [];
}

run_marks : perform_all machine (thread_starts ∷ marks) (new_package false true) ≡ some after_marks
unfolding perform_all perform handle_magic handle_op do_at_roi_decision_head do_at_roi_decision_tail
    write thread_start new_package get_op_type get_is_open_mp
run_marks = refl

perform_all-counted_example :
    after_marks.enter_roi_cnt
    ≡ (after_marks.exit_roi_cnt + marked_count after_marks.thread_in_roidecision) % u64_mod
perform_all-counted_example =
    perform_all-counted machine marks false after_marks (refl, (refl, (refl, (refl, (refl, tt)))))
      run_marks
