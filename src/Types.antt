-- ===== src/Types.antt =====
-- `struct Target` of accum-node/src/types.rs (the same bytes as the node's own `Target`), with the
-- compact form that accum-node/src/difficulty.rs repeats. An index out of bounds is a panic, `none`.
pub mod Shift
pub mod Compact
use Prim.Native.Nat.{bit_and, bit_or}
use accum_core.Base.{
  ℕ, zero, suc, ◌+◌, ◌-◌, ◌*◌, ◌/◌, ◌%◌, ◌^◌, Bool, ◌&&◌, Option, none, some, List, [], ◌∷◌, ltb,
  leb, ◌==◌, if◌then◌else◌, get_elem?, get_or, set, replicate,
}
use accum_core.Target.{Target}

infixl 5 ◌>>=◌
abbrev ◌>>=◌ : {A B : Type 0} → Option A → (A → Option B) → Option B
none >>= f = none
some a >>= f = f a

-- `result[i] |= v`
abbrev or_at : List ℕ → ℕ → ℕ → List ℕ
or_at result i v = set result i (bit_or (get_or result i 0) v)

-- The body of the loop of `shift_left`.
shift_byte : ℕ → List ℕ → ℕ → List ℕ → List ℕ
shift_byte bits src i result =
    let bytes_to_shift = bits / 8 in
    let bit_shift = bits % 8 in
    let b = get_or src i 0 in
    let shifted = if ltb 0 bit_shift then bit_and (b * 2 ^ bit_shift % 2 ^ 16) 0xff else b in
    let spilled =
      if ltb 0 bit_shift && ltb (i + bytes_to_shift + 1) 32
      then or_at result (i + bytes_to_shift + 1) (b / 2 ^ (8 - bit_shift) % 256)
      else result in
    if ltb (i + bytes_to_shift) 32
    then or_at spilled (i + bytes_to_shift) (shifted % 256)
    else result

-- The rounds `i`, `i + 1`, …, as many as the first argument says.
shift_loop : ℕ → ℕ → List ℕ → ℕ → List ℕ → List ℕ
shift_loop zero bits src i result = result
shift_loop (suc rounds) bits src i result =
    shift_loop rounds bits src (i + 1) (shift_byte bits src i result)

-- `Target::shift_left`
unfoldable pub shift_left : Target → ℕ → Target
unfolding shift_loop shift_byte
shift_left t bits = record { bytes = shift_loop 32 bits t.bytes 0 (replicate 32 0) }

-- The index of the first byte that is not zero, or `none_found` where there is none.
first_nonzero : ℕ → ℕ → List ℕ → ℕ
first_nonzero none_found i [] = none_found
first_nonzero none_found i (b ∷ bs) =
    let rest = first_nonzero none_found (i + 1) bs in if b == 0 then rest else i

-- `Target::compact` (`compact_from_target`). The fields of the word do not overlap, so `|` is a sum.
pub compact : Target → Option ℕ
unfolding first_nonzero
compact t =
    let size = first_nonzero 32 0 t.bytes in
    let word = (do
      b0 ← get_elem? t.bytes size
      b1 ← get_elem? t.bytes (size + 1)
      b2 ← get_elem? t.bytes (size + 2)
      some ((32 - size) * 2 ^ 24 + (b0 * 2 ^ 16 + b1 * 2 ^ 8 + b2))) in
    if size == 32 then some 0 else word

-- `if i < 32 { bytes[i] = v; }`
abbrev put_below : List ℕ → ℕ → ℕ → List ℕ
put_below bytes i v = if ltb i 32 then set bytes i v else bytes

-- The branch `exponent <= 3` of `from_compact`.
small_target : ℕ → ℕ → List ℕ
small_target exponent mantissa =
    let bytes = set (replicate 32 0) (31 - exponent) (mantissa / 2 ^ 16 % 256) in
    let bytes' =
      if ltb 1 exponent then set bytes (32 - exponent) (mantissa / 2 ^ 8 % 256) else bytes in
    if ltb 2 exponent then set bytes' (33 - exponent) (mantissa % 256) else bytes'

-- The other branch; the position wraps around in `usize` where the exponent is past 32.
large_target : ℕ → ℕ → List ℕ
large_target exponent mantissa =
    let pos = (32 + 2 ^ 64 - exponent) % 2 ^ 64 in
    let bytes = set (replicate 32 0) pos (mantissa / 2 ^ 16 % 256) in
    let bytes' = put_below bytes (pos + 1) (mantissa / 2 ^ 8 % 256) in
    if ltb pos 32 then put_below bytes' (pos + 2) (mantissa % 256) else replicate 32 0

-- `Target::from_compact` (`target_from_compact`)
pub from_compact : ℕ → Target
unfolding small_target large_target
from_compact word =
    let exponent = word / 2 ^ 24 % 256 in
    let mantissa = word % 2 ^ 24 in
    record {
      bytes =
          if leb exponent 3 then small_target exponent mantissa else large_target exponent mantissa;
    }
