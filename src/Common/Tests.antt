-- ===== src/Common/Tests.antt =====
-- The control word of the end of a block in an OpenMP function.
use pimprof.Base.{◌≡◌, ◌<◌, u64_mod, arith}
use pimprof.Common.ControlValue.{
  get_control_value, get_is_open_mp, get_op_type, control_value-roundtrip,
}

control_value-roundtrip_example :
    (get_op_type (get_control_value 1 1) ≡ 1)
    × (get_is_open_mp (get_control_value 1 1) ≡ 1)
    × (get_control_value 1 1 < u64_mod)
control_value-roundtrip_example = control_value-roundtrip 1 1 (omega arith) (omega arith)
