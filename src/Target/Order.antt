-- ===== src/Target/Order.antt =====
-- `is_met_by` of accum-node/src/main.rs against the order of the 256-bit numbers.
use accum_core.Base.{
  ℕ, ◌+◌, ◌*◌, ◌^◌, ◌≤◌, ◌<◌, ◌≡◌, refl, ap, ◌↔◌, true, List, [], ◌∷◌, arith, length, All,
}
use accum_core.Bytes.{IsBytes, from_be_bytes, from_be_bytes-lt}
use accum_core.Target.{Target, Hash32, is_met_by, met_from}

-- A byte that is smaller decides, whatever the rest.
lead_lt : (h t p x y : ℕ) → h < t → x < p → h * p + x < t * p + y
lead_lt h t p x y l b = grind arith

met_from_le :
    (hs ts : List ℕ)
    → length hs ≡ length ts
    → All (λ b. b < 256) hs
    → All (λ b. b < 256) ts
    → met_from hs ts ≡ true
    → from_be_bytes hs ≤ from_be_bytes ts
unfolding met_from from_be_bytes
met_from_le [] [] e a b h = omega arith
met_from_le [] (t ∷ ts) e a b h = absurd (omega arith)
met_from_le (h ∷ hs) [] e a b m = absurd (omega arith)
met_from_le (h ∷ hs) (t ∷ ts) e a b m =
    let len : length hs ≡ length ts = omega arith in
    ground (
      arith,
      ap (λ n. 256 ^ n) len,
      met_from_le hs ts len a.1 b.1,
      from_be_bytes-lt hs a.1,
      lead_lt h t (256 ^ length hs) (from_be_bytes hs) (from_be_bytes ts),
    )

le_met_from :
    (hs ts : List ℕ)
    → length hs ≡ length ts
    → All (λ b. b < 256) hs
    → All (λ b. b < 256) ts
    → from_be_bytes hs ≤ from_be_bytes ts
    → met_from hs ts ≡ true
unfolding met_from from_be_bytes
le_met_from [] [] e a b h = refl
le_met_from [] (t ∷ ts) e a b h = refl
le_met_from (h ∷ hs) [] e a b m = refl
le_met_from (h ∷ hs) (t ∷ ts) e a b m =
    let len : length hs ≡ length ts = omega arith in
    ground (
      arith,
      ap (λ n. 256 ^ n) len,
      le_met_from hs ts len a.1 b.1,
      from_be_bytes-lt ts b.1,
      lead_lt t h (256 ^ length hs) (from_be_bytes ts) (from_be_bytes hs),
    )

-- For 32-byte arrays `is_met_by` returns true exactly when the hash, read as a big-endian number,
-- is at most the target, read the same way.
pub is_met_by_iff :
    (t : Target) (hash : Hash32)
    → IsBytes 32 t.bytes
    → IsBytes 32 hash
    → (is_met_by t hash ≡ true) ↔ (from_be_bytes hash ≤ from_be_bytes t.bytes)
unfolding is_met_by
is_met_by_iff t hash ht hh =
    let len : length hash ≡ length t.bytes = omega (arith, ht.size, hh.size) in
    (met_from_le hash t.bytes len hh.byte ht.byte, le_met_from hash t.bytes len hh.byte ht.byte)
