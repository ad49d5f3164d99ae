-- ===== src/Target/Scale.antt =====
-- The scaled targets of accum-node/src/main.rs as numbers: the loops over bytes multiply, no word
-- overflows, and a product past 256 bits is cut to the largest target.
use mathlib.Core.Path.{subst}
use native.Mathlib.Nat.{mod-eq_of_lt}
use accum_core.Base.{
  ℕ, suc, ◌+◌, ◌-◌, ◌*◌, ◌/◌, ◌%◌, ◌^◌, ◌≤◌, ◌<◌, min, ◌≡◌, refl, ap, ◌∙◌, inl, inr, true, List, [],
  ◌∷◌, arith, length, All, ltb, ltb→lt, Bool-cases,
}
use accum_core.Bytes.{IsBytes, from_be_bytes, from_be_bytes-lt, pow_succ}
use accum_core.Target.{
  Target, Hash32, is_met_by, scale_val, scale_loop, saturate, share_target, prefilter_target,
}
use accum_core.Target.Order.{is_met_by_iff}

-- No word of the loop overflows when the modulus holds `256 * k`.
scale_val_exact :
    (m k b carry : ℕ) → 256 * k ≤ m → b < 256 → carry < k → scale_val m k b carry ≡ b * k + carry
unfolding scale_val
scale_val_exact m k b carry room hb hc =
    let sum : b * k + carry < m = grind arith in
    let prod : b * k < m = omega arith in rw (mod-eq_of_lt prod) (mod-eq_of_lt sum)

carry_lt : (k b carry : ℕ) → b < 256 → carry < k → (b * k + carry) / 256 < k
carry_lt k b carry hb hc = let bound : b * k + carry < 256 * k = grind arith in omega arith

scale_loop_carry :
    (m k : ℕ) (bs : List ℕ)
    → 256 * k ≤ m
    → 0 < k
    → All (λ b. b < 256) bs
    → (scale_loop m k bs).1 < k
unfolding scale_loop
scale_loop_carry m k [] room pos h = pos
scale_loop_carry m k (b ∷ bs) room pos h =
    let below = scale_loop_carry m k bs room pos h.1 in
    rw (scale_val_exact m k b (scale_loop m k bs).1 room h.0 below)
      (carry_lt k b (scale_loop m k bs).1 h.0 below)

length-scale_loop : (m k : ℕ) (bs : List ℕ) → length (scale_loop m k bs).0 ≡ length bs
unfolding scale_loop
length-scale_loop m k [] = refl
length-scale_loop m k (b ∷ bs) = ap suc (length-scale_loop m k bs)

scale_loop_byte : (m k : ℕ) (bs : List ℕ) → All (λ b. b < 256) (scale_loop m k bs).0
unfolding scale_loop
scale_loop_byte m k [] = tt
scale_loop_byte m k (b ∷ bs) = (omega arith, scale_loop_byte m k bs)

-- One digit of the long multiplication.
digit :
    (k b c p v w r : ℕ)
    → v ≡ b * k + c
    → r + c * p ≡ k * w
    → (v % 256) * p + r + v / 256 * (256 * p) ≡ k * (b * p + w)
digit k b c p v w r e ih =
    let split : v % 256 + 256 * (v / 256) ≡ v = omega arith in
    let scaled : (v % 256 + 256 * (v / 256)) * p ≡ (b * k + c) * p =
      ap (λ (x : ℕ). x * p) (split ∙ e) in
    omega arith

-- The loop is a multiplication: the digits and the last carry are the whole product.
scale_loop_value :
    (m k : ℕ) (bs : List ℕ)
    → 256 * k ≤ m
    → 0 < k
    → All (λ b. b < 256) bs
    → let (result, carry) = scale_loop m k bs in
      from_be_bytes result + carry * 256 ^ length bs ≡ k * from_be_bytes bs
unfolding scale_loop from_be_bytes
scale_loop_value m k [] room pos h = omega arith
scale_loop_value m k (b ∷ bs) room pos h =
    let (rs, c) = scale_loop m k bs in
    let below : c < k = scale_loop_carry m k bs room pos h.1 in
    rw (length-scale_loop m k bs, pow_succ (length bs))
      (digit k b c (256 ^ length bs) (scale_val m k b c) (from_be_bytes bs) (from_be_bytes rs)
        (scale_val_exact m k b c room h.0 below) (scale_loop_value m k bs room pos h.1))

saturate_value :
    (t : List ℕ) (k : ℕ) (p : List ℕ × ℕ)
    → IsBytes 32 t
    → length p.0 ≡ 32
    → All (λ b. b < 256) p.0
    → from_be_bytes p.0 + p.1 * 2 ^ 256 ≡ k * from_be_bytes t
    → (from_be_bytes (saturate p).bytes ≡ min (k * from_be_bytes t) (2 ^ 256 - 1))
      × IsBytes 32 (saturate p).bytes
unfolding saturate from_be_bytes
saturate_value t k (rs, c) ht len byte e =
    let bound : from_be_bytes rs < 256 ^ length rs = from_be_bytes-lt rs byte in
    let small : from_be_bytes rs < 256 ^ 32 = subst (λ n. from_be_bytes rs < 256 ^ n) len bound in
    elim (Bool-cases (ltb 0 c)) [
      | inl over ↦ rw over (
        let pos : 0 < c = ltb→lt 0 c over in omega arith,
        record { size = refl; byte = omega arith },
      )
      | inr fits ↦
          rw fits (
            let zero_carry : c ≡ 0 = ground arith in omega arith,
            record { size = len; byte = byte },
          )
    ]

-- A scaling of a target by a factor of 65536 at most, in words that hold it.
scaled_value :
    (m k : ℕ) (t : Hash32)
    → 256 * k ≤ m
    → 0 < k
    → IsBytes 32 t
    → (from_be_bytes (saturate (scale_loop m k t)).bytes ≡ min (k * from_be_bytes t) (2 ^ 256 - 1))
      × IsBytes 32 (saturate (scale_loop m k t)).bytes
scaled_value m k t room pos ht =
    saturate_value t k (scale_loop m k t) ht (length-scale_loop m k t ∙ ht.size)
      (scale_loop_byte m k t)
      (subst
        (λ n.
          from_be_bytes (scale_loop m k t).0 + (scale_loop m k t).1 * 256 ^ n ≡ k * from_be_bytes t)
        ht.size (scale_loop_value m k t room pos ht.byte))

-- For a 32-byte target `share_target` is 256 times the target, cut at 2 ^ 256 - 1, and is a 32-byte
-- array.
pub share_target_value :
    (t : Target)
    → IsBytes 32 t.bytes
    → (from_be_bytes (share_target t).bytes ≡ min (256 * from_be_bytes t.bytes) (2 ^ 256 - 1))
      × IsBytes 32 (share_target t).bytes
unfolding share_target
share_target_value t ht = scaled_value (2 ^ 32) 256 t.bytes (omega arith) (omega arith) ht

-- For a 32-byte target `prefilter_target` is 65536 times the share target, which is 2 ^ 24 times
-- the target, cut at 2 ^ 256 - 1.
prefilter_target_value :
    (t : Target)
    → IsBytes 32 t.bytes
    → from_be_bytes (prefilter_target t).bytes ≡ min (2 ^ 24 * from_be_bytes t.bytes) (2 ^ 256 - 1)
unfolding prefilter_target
prefilter_target_value t ht =
    let share = share_target_value t ht in
    let scaled =
      (scaled_value (2 ^ 64) 65536 (share_target t).bytes (omega arith) (omega arith) share.1).0 in
    omega (arith, share.0, scaled)

-- A hash that meets the 32-byte block target meets the share target that is derived from it.
block_hash_meets_share_target :
    (t : Target) (hash : Hash32)
    → IsBytes 32 t.bytes
    → IsBytes 32 hash
    → is_met_by t hash ≡ true
    → is_met_by (share_target t) hash ≡ true
block_hash_meets_share_target t hash ht hh met =
    let share = share_target_value t ht in
    let low = (is_met_by_iff t hash ht hh).0 met in
    let top = from_be_bytes-lt t.bytes ht.byte in
    (is_met_by_iff (share_target t) hash share.1 hh).1 (
      let cap : from_be_bytes t.bytes < 256 ^ 32 =
        subst (λ n. from_be_bytes t.bytes < 256 ^ n) ht.size top in
      omega (arith, share.0, low))
