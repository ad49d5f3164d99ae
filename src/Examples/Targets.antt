-- ===== src/Examples/Targets.antt =====
-- The theorems on targets at the target of the genesis block.
use accum_core.Base.{◌*◌, ◌-◌, ◌/◌, ◌^◌, ◌≤◌, min, ◌≡◌, ◌↔◌, true, replicate, arith}
use accum_core.Bytes.{IsBytes, IsBytes-append, from_be_bytes}
use accum_core.Examples.{replicate-IsBytes}
use accum_core.Target.{Hash32, genesis, is_met_by, share_target}
use accum_core.Target.Order.{is_met_by_iff}
use accum_core.Target.Scale.{share_target_value}
use accum_core.Types.{shift_left}
use accum_core.Types.Shift.{shift_left_divides}

genesis-IsBytes : IsBytes 32 genesis.bytes
genesis-IsBytes =
    IsBytes-append 4 28 _ _ (replicate-IsBytes 4 0 (omega arith))
      (replicate-IsBytes 28 255 (omega arith))

abbrev zeros : Hash32
zeros = replicate 32 0

zeros-IsBytes : IsBytes 32 zeros
zeros-IsBytes = replicate-IsBytes 32 0 (omega arith)

is_met_by_iff_example :
    (is_met_by genesis zeros ≡ true) ↔ (from_be_bytes zeros ≤ from_be_bytes genesis.bytes)
is_met_by_iff_example = is_met_by_iff genesis zeros genesis-IsBytes zeros-IsBytes

share_target_value_example :
    (from_be_bytes (share_target genesis).bytes
      ≡ min (256 * from_be_bytes genesis.bytes) (2 ^ 256 - 1))
    × IsBytes 32 (share_target genesis).bytes
share_target_value_example = share_target_value genesis genesis-IsBytes

shift_left_divides_example :
    from_be_bytes (shift_left genesis 8).bytes ≡ from_be_bytes genesis.bytes / 256
shift_left_divides_example = shift_left_divides genesis genesis-IsBytes
