-- ===== src/Bytes.antt =====
-- Byte arrays (`[u8; N]`, `Vec<u8>`) as lists of numbers, and the numbers that they encode:
-- `to_le_bytes` and `from_le_bytes` of the integer types, and the big-endian reading of a hash.
use native.Mathlib.Nat.{pow-suc}
use accum_core.Base.{
  ℕ, zero, suc, ◌+◌, ◌*◌, ◌/◌, ◌%◌, ◌^◌, ◌<◌, ◌≡◌, refl, List, [], ◌∷◌, ◌++◌, arith, length, All,
  length-append, All-append,
}

-- `[u8; n]`: `n` numbers below 256.
pub record IsBytes (n : ℕ) (xs : List ℕ) : Type 0 where
  pub size : length xs ≡ n
  pub byte : All (λ b. b < 256) xs

-- `to_le_bytes` of a `w`-byte integer.
unfoldable pub to_le_bytes : ℕ → ℕ → List ℕ
to_le_bytes zero n = []
to_le_bytes (suc w) n = n % 256 ∷ to_le_bytes w (n / 256)

pub from_le_bytes : List ℕ → ℕ
from_le_bytes [] = 0
from_le_bytes (b ∷ bs) = b + 256 * from_le_bytes bs

-- The number that a byte array is, read from its most significant byte.
unfoldable pub from_be_bytes : List ℕ → ℕ
from_be_bytes [] = 0
from_be_bytes (b ∷ bs) = b * 256 ^ length bs + from_be_bytes bs

pub length-to_le_bytes : (w n : ℕ) → length (to_le_bytes w n) ≡ w
unfolding to_le_bytes
length-to_le_bytes zero n = refl
length-to_le_bytes (suc w) n = omega (arith, length-to_le_bytes w (n / 256))

to_le_bytes-All : (w n : ℕ) → All (λ b. b < 256) (to_le_bytes w n)
unfolding to_le_bytes
to_le_bytes-All zero n = tt
to_le_bytes-All (suc w) n = (omega arith, to_le_bytes-All w (n / 256))

pub to_le_bytes-IsBytes : (w n : ℕ) → IsBytes w (to_le_bytes w n)
to_le_bytes-IsBytes w n = record { size = length-to_le_bytes w n; byte = to_le_bytes-All w n }

pub pow_succ : (w : ℕ) → 256 ^ suc w ≡ 256 * 256 ^ w
pow_succ w = grind (arith, pow-suc)

-- A value that fits its width reads back.
pub from_le_bytes-to_le_bytes : (w n : ℕ) → n < 256 ^ w → from_le_bytes (to_le_bytes w n) ≡ n
unfolding to_le_bytes from_le_bytes
from_le_bytes-to_le_bytes zero n h = omega arith
from_le_bytes-to_le_bytes (suc w) n h =
    omega (arith, pow_succ w, from_le_bytes-to_le_bytes w (n / 256) (omega (arith, pow_succ w)))

-- The bytes that were read are written back.
pub to_le_bytes-from_le_bytes :
    (w : ℕ) (xs : List ℕ) → IsBytes w xs → to_le_bytes w (from_le_bytes xs) ≡ xs
unfolding to_le_bytes from_le_bytes
to_le_bytes-from_le_bytes zero [] h = refl
to_le_bytes-from_le_bytes zero (x ∷ xs) h = absurd (omega (arith, h.size))
to_le_bytes-from_le_bytes (suc w) [] h = absurd (omega (arith, h.size))
to_le_bytes-from_le_bytes (suc w) (x ∷ xs) h =
    let x_lt : x < 256 = h.byte.0 in
    let rest : IsBytes w xs = record { size = omega (arith, h.size); byte = h.byte.1 } in
    let lo : (x + 256 * from_le_bytes xs) % 256 ≡ x = omega arith in
    let hi : (x + 256 * from_le_bytes xs) / 256 ≡ from_le_bytes xs = omega arith in
    rw (lo, hi, to_le_bytes-from_le_bytes w xs rest)

pub from_be_bytes-lt : (xs : List ℕ) → All (λ b. b < 256) xs → from_be_bytes xs < 256 ^ length xs
unfolding from_be_bytes
from_be_bytes-lt [] h = omega arith
from_be_bytes-lt (x ∷ xs) h =
    let x_lt : x < 256 = h.0 in grind (arith, pow_succ (length xs), from_be_bytes-lt xs h.1)

pub IsBytes-append :
    (n m : ℕ) (xs ys : List ℕ) → IsBytes n xs → IsBytes m ys → IsBytes (n + m) (xs ++ ys)
IsBytes-append n m xs ys hx hy = record {
  size = omega (arith, length-append xs ys, hx.size, hy.size);
  byte = All-append (λ b. b < 256) xs ys hx.byte hy.byte;
}
