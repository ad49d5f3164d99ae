-- ===== src/Target.antt =====
-- `struct Target` of accum-node/src/main.rs: a 256-bit threshold, its bytes from the most
-- significant one. The children prove what its methods compute with numbers.
pub mod Order
pub mod Scale
use Prim.Native.Nat.{compare, Ordering}
use accum_core.Base.{
  ℕ, ◌+◌, ◌*◌, ◌/◌, ◌%◌, ◌^◌, Bool, true, false, List, [], ◌∷◌, ◌++◌, replicate, ltb, if◌then◌else◌,
}

-- `type Hash32 = [u8; 32]`
abbrev pub Hash32 : Type 0
Hash32 = List ℕ

-- `struct Target([u8; 32])`
pub record Target : Type 0 where
  pub bytes : Hash32

-- `const SHARE_DIFFICULTY_RATIO`
abbrev pub share_difficulty_ratio : ℕ
share_difficulty_ratio = 256

-- `const SHARE_PREFILTER_RATIO`
abbrev pub share_prefilter_ratio : ℕ
share_prefilter_ratio = 65536

-- The array of all ones that a scaled target falls back to.
abbrev pub max_target : Target
max_target = record { bytes = replicate 32 255 }

-- `Target::genesis`
abbrev pub genesis : Target
genesis = record { bytes = replicate 4 0 ++ replicate 28 255 }

-- The loop of `is_met_by`, over both arrays at once.
met_from : List ℕ → List ℕ → Bool
met_from [] _ = true
met_from (h ∷ hs) [] = true
met_from (h ∷ hs) (t ∷ ts) = elim (compare h t) [
  | Ordering.lt ↦ true
  | Ordering.gt ↦ false
  | Ordering.eq ↦ met_from hs ts
]

-- `Target::is_met_by`
unfoldable pub is_met_by : Target → Hash32 → Bool
unfolding met_from
is_met_by t hash = met_from hash t.bytes

-- One round of the scaling loops: the product and the carry, in words below `m`.
unfoldable pub scale_val : ℕ → ℕ → ℕ → ℕ → ℕ
scale_val m k b carry = (b * k % m + carry) % m

-- `for i in (0..32).rev() { val = bytes[i] * k + carry; result[i] = val & 0xFF; carry = val >> 8 }`
-- with the last carry.
pub scale_loop : ℕ → ℕ → List ℕ → List ℕ × ℕ
scale_loop m k [] = ([], 0)
scale_loop m k (b ∷ bs) =
    let (result, carry) = scale_loop m k bs in
    let val = scale_val m k b carry in (val % 256 ∷ result, val / 256)

-- `if carry > 0 { return Target([0xFF; 32]); } Target(result)`
pub saturate : List ℕ × ℕ → Target
saturate (result, carry) = if ltb 0 carry then max_target else record { bytes = result }

-- `Target::share_target`: 32-bit words.
pub share_target : Target → Target
unfolding scale_loop saturate
share_target t = saturate (scale_loop (2 ^ 32) share_difficulty_ratio t.bytes)

-- `Target::prefilter_target`: 64-bit words, from the share target.
unfoldable pub prefilter_target : Target → Target
unfolding share_target
prefilter_target t = saturate (scale_loop (2 ^ 64) share_prefilter_ratio (share_target t).bytes)
