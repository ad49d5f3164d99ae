-- ===== src/Types/Shift.antt =====
-- `shift_left` by whole bytes: the bytes move towards the end of the array, which is the end of
-- least significance.
use Prim.Native.Nat.{bit_or}
use mathlib.Core.Path.{subst}
use accum_core.Base.{
  ℕ, zero, suc, ◌+◌, ◌-◌, ◌*◌, ◌/◌, ◌%◌, ◌^◌, ◌<◌, ◌≡◌, refl, ◌∙◌, true, Bool, ◌&&◌, List, [], ◌∷◌,
  arith, length, All, ltb, leb, ◌==◌, if◌then◌else◌, get_or, set, and_true, replicate, ==_iff,
  Bool-cases, ltb→lt, lt→ltb, inl, inr, take, length-take, All-take, sym,
}
use accum_core.Base.Entries.{length-set, get_or-set, get_or-replicate, eq_of_entries, get_or-take}
use accum_core.Bytes.{IsBytes, from_be_bytes, pow_succ}
use accum_core.Types.{shift_left, shift_loop, shift_byte}
use accum_core.Target.{Target}

-- `0 | x` is `x` for each of the first numbers, by evaluation.
keeps_bytes : ℕ → Bool
keeps_bytes zero = true
keeps_bytes (suc bound) = keeps_bytes bound && (bit_or 0 bound == bound)

keeps_bytes_sound : (bound b : ℕ) → b < bound → keeps_bytes bound ≡ true → (bit_or 0 b == b) ≡ true
unfolding keeps_bytes
keeps_bytes_sound zero b below kept = absurd (omega arith)
keeps_bytes_sound (suc bound) b below kept =
    let (before, here) = and_true (keeps_bytes bound) (bit_or 0 bound == bound) kept in
    elim (Bool-cases (ltb b bound)) [
      | inl low ↦ keeps_bytes_sound bound b (ltb→lt b bound low) before
      | inr top ↦ let same : b ≡ bound = ground arith in rw same here
    ]

bytes_kept : keeps_bytes 256 ≡ true
unfolding keeps_bytes
bytes_kept = refl

or_zero : (x : ℕ) → x < 256 → bit_or 0 x ≡ x
or_zero x h = (==_iff _ x).0 (keeps_bytes_sound 256 x h bytes_kept)

get_or_lt : (xs : List ℕ) (i : ℕ) → All (λ b. b < 256) xs → get_or xs i 0 < 256
get_or_lt [] i h = omega arith
get_or_lt (x ∷ xs) zero h = h.0
get_or_lt (x ∷ xs) (suc i) h = get_or_lt xs i h.1

-- What the loop has written after `i` rounds of a shift by `k` bytes.
record Moved (k i : ℕ) (src result : List ℕ) : Type 0 where
  size : length result ≡ 32
  entry :
      (j : ℕ)
      → j < 32
      → get_or result j 0 ≡ (if leb k j && ltb j (i + k) then get_or src (j - k) 0 else 0)

shift_byte-whole :
    (k i : ℕ) (src result : List ℕ)
    → shift_byte (8 * k) src i result ≡ (
        if ltb (i + k) 32
        then set result (i + k) (bit_or (get_or result (i + k) 0) (get_or src i 0 % 256))
        else result)
unfolding shift_byte
shift_byte-whole k i src result =
    let whole : 8 * k / 8 ≡ k = omega arith in
    let rest : 8 * k % 8 ≡ 0 = omega arith in rw (whole, rest)

-- The byte that round `i` writes, into a place that still holds 0.
written :
    (k i : ℕ) (src result : List ℕ)
    → All (λ b. b < 256) src
    → Moved k i src result
    → i + k < 32
    → bit_or (get_or result (i + k) 0) (get_or src i 0 % 256) ≡ get_or src i 0
written k i src result h m fits =
    let low : get_or src i 0 < 256 = get_or_lt src i h in
    let same : get_or src i 0 % 256 ≡ get_or src i 0 = omega arith in
    let free : get_or result (i + k) 0 ≡ 0 = ground (arith, m.entry (i + k) fits) in
    rw (same, free) (or_zero (get_or src i 0) low)

-- Where round `i` writes, the byte is the moved one; elsewhere nothing changes.
moved_entry :
    (k i j : ℕ) (src result : List ℕ)
    → get_or result j 0 ≡ (if leb k j && ltb j (i + k) then get_or src (j - k) 0 else 0)
    → (if j == i + k then get_or src i 0 else get_or result j 0)
      ≡ (if leb k j && ltb j (i + 1 + k) then get_or src (j - k) 0 else 0)
moved_entry k i j src result h = elim (Bool-cases (j == i + k)) [
  | inl here ↦
      let at : j ≡ i + k = (==_iff j (i + k)).0 here in
      let back : i + k - k ≡ i = omega arith in rw (here, at, back) (ground arith)
  | inr other ↦ ground arith
]

shift_byte-Moved :
    (k i : ℕ) (src result : List ℕ)
    → All (λ b. b < 256) src
    → Moved k i src result
    → Moved k (i + 1) src (shift_byte (8 * k) src i result)
shift_byte-Moved k i src result h m =
    let place = i + k in
    elim (Bool-cases (ltb place 32)) [
      | inl fits ↦
          rw
            (
              shift_byte-whole k i src result,
              fits,
              written k i src result h m (ltb→lt place 32 fits),
            )
            (record {
              size = length-set result place (get_or src i 0) ∙ m.size;
              entry = λ j lt.
                  rw
                    (get_or-set result place j (get_or src i 0)
                      (omega (arith, ltb→lt place 32 fits, m.size)))
                    (moved_entry k i j src result (m.entry j lt));
            })
      | inr full ↦
          rw (shift_byte-whole k i src result, full)
            (record { size = m.size; entry = λ j lt. ground (arith, m.entry j lt) })
    ]

shift_loop-Moved :
    (rounds k i n : ℕ) (src result : List ℕ)
    → i + rounds ≡ n
    → All (λ b. b < 256) src
    → Moved k i src result
    → Moved k n src (shift_loop rounds (8 * k) src i result)
unfolding shift_loop
shift_loop-Moved zero k i n src result e h m =
    let at : i ≡ n = omega arith in subst (λ p. Moved k p src result) at m
shift_loop-Moved (suc rounds) k i n src result e h m =
    shift_loop-Moved rounds k (i + 1) n src (shift_byte (8 * k) src i result) (omega arith) h
      (shift_byte-Moved k i src result h m)

start-Moved : (k : ℕ) (src : List ℕ) → Moved k 0 src (replicate 32 0)
start-Moved k src = record {
  size = refl;
  entry = λ j lt. rw (get_or-replicate 32 j 0) (ground arith);
}

shift_left-Moved :
    (t : Target) (k : ℕ) → IsBytes 32 t.bytes → Moved k 32 t.bytes (shift_left t (8 * k)).bytes
unfolding shift_left
shift_left-Moved t k ht =
    shift_loop-Moved 32 k 0 32 t.bytes (replicate 32 0) refl ht.byte (start-Moved k t.bytes)

drop_bound : (a b : Bool) (x : ℕ) → b ≡ true → (if a && b then x else 0) ≡ (if a then x else 0)
drop_bound a b x h = ground arith

-- A shift of a 32-byte target by `8 * k` bits puts byte `j - k` at place `j` and zeros at the first
-- `k` places, for every place of the 32.
shift_left_whole_bytes :
    (t : Target) (k j : ℕ)
    → IsBytes 32 t.bytes
    → j < 32
    → get_or (shift_left t (8 * k)).bytes j 0 ≡ (if leb k j then get_or t.bytes (j - k) 0 else 0)
shift_left_whole_bytes t k j ht lt =
    (shift_left-Moved t k ht).entry j lt
    ∙ drop_bound (leb k j) (ltb j (32 + k)) (get_or t.bytes (j - k) 0)
        (lt→ltb j (32 + k) (omega arith))

-- The entries of the shifted array, one place further on.
shifted_entry :
    (t : Target) (j : ℕ)
    → IsBytes 32 t.bytes
    → j < 32
    → get_or (shift_left t 8).bytes j 0 ≡ get_or (0 ∷ take 31 t.bytes) j 0
shifted_entry t zero ht lt = shift_left_whole_bytes t 1 0 ht lt
shifted_entry t (suc j) ht lt =
    let back : suc j - 1 ≡ j = omega arith in
    let past : leb 1 (suc j) ≡ true = ground arith in
    rw
      (shift_left_whole_bytes t 1 (suc j) ht lt, past, back, get_or-take 31 j t.bytes (omega arith))

shift_left_byte : (t : Target) → IsBytes 32 t.bytes → (shift_left t 8).bytes ≡ 0 ∷ take 31 t.bytes
shift_left_byte t ht =
    let m = shift_left-Moved t 1 ht in
    eq_of_entries (shift_left t 8).bytes (0 ∷ take 31 t.bytes)
      (omega (arith, m.size, length-take 31 t.bytes, ht.size))
      (λ j lt. shifted_entry t j ht (omega (arith, m.size)))

pub shift_left_byte-IsBytes : (t : Target) → IsBytes 32 t.bytes → IsBytes 32 (shift_left t 8).bytes
shift_left_byte-IsBytes t ht = rw (shift_left_byte t ht) (record {
  size = omega (arith, length-take 31 t.bytes, ht.size);
  byte = (omega arith, All-take (λ b. b < 256) 31 t.bytes ht.byte);
})

drop_last : (x w r : ℕ) → (x * (256 * w) + r) / 256 ≡ x * w + r / 256
drop_last x w r =
    let scaled : x * (256 * w) ≡ 256 * (x * w) = omega arith in rw scaled (omega arith)

from_be_bytes-take :
    (n : ℕ) (xs : List ℕ)
    → length xs ≡ suc n
    → All (λ b. b < 256) xs
    → from_be_bytes (take n xs) ≡ from_be_bytes xs / 256
unfolding from_be_bytes
from_be_bytes-take n [] e h = absurd (omega arith)
from_be_bytes-take zero (x ∷ []) e h = let low : x < 256 = h.0 in omega arith
from_be_bytes-take zero (x ∷ y ∷ xs) e h = absurd (omega arith)
from_be_bytes-take (suc n) (x ∷ xs) e h =
    let len : length xs ≡ suc n = omega arith in
    let len' : length (take n xs) ≡ n = omega (arith, length-take n xs) in
    rw (from_be_bytes-take n xs len h.1, len', len, pow_succ n)
      (sym (drop_last x (256 ^ n) (from_be_bytes xs)))

-- Read as a number, a 32-byte target shifted left by 8 bits is the target divided by 256.
pub shift_left_divides :
    (t : Target)
    → IsBytes 32 t.bytes
    → from_be_bytes (shift_left t 8).bytes ≡ from_be_bytes t.bytes / 256
unfolding from_be_bytes
shift_left_divides t ht =
    rw (shift_left_byte t ht) (omega (arith, from_be_bytes-take 31 t.bytes ht.size ht.byte))
