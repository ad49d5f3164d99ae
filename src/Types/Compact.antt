-- ===== src/Types/Compact.antt =====
-- `compact` and `from_compact`: where the three leading bytes stand before the last three places
-- they survive the round trip; where they are the last three, they come back one place too early.
use mathlib.Core.Path.{ap₂}
use mathlib.Core.Option
use accum_core.Base.{
  ℕ, zero, suc, ◌+◌, ◌-◌, ◌*◌, ◌/◌, ◌%◌, ◌^◌, ◌≤◌, ◌<◌, ◌≡◌, refl, ap, ◌∙◌, none, some, List, [],
  ◌∷◌, ◌++◌, arith, length, All, replicate, get_elem?, set, sym, ltb, lt→ltb, true, leb, false,
  Option-cases,
}
use accum_core.Types.{compact, from_compact, first_nonzero, small_target, large_target}

first_nonzero-lead :
    (none_found n i b : ℕ) (rest : List ℕ)
    → 0 < b
    → first_nonzero none_found i (replicate n 0 ++ (b ∷ rest)) ≡ i + n
unfolding first_nonzero
first_nonzero-lead none_found zero i b rest pos = ground arith
first_nonzero-lead none_found (suc n) i b rest pos =
    first_nonzero-lead none_found n (i + 1) b rest pos ∙ omega arith

get_elem?-lead :
    (n j : ℕ) (rest : List ℕ) → get_elem? (replicate n 0 ++ rest) (n + j) ≡ get_elem? rest j
get_elem?-lead zero j rest = let z : 0 + j ≡ j = omega arith in rw z
get_elem?-lead (suc n) j rest =
    let step : suc n + j ≡ suc (n + j) = omega arith in rw step (get_elem?-lead n j rest)

-- The word of a target whose first byte that is not zero stands at place `n`, with two more after it.
compact-lead :
    (n b0 b1 b2 : ℕ) (rest : List ℕ)
    → n < 32
    → 0 < b0
    → compact (record { bytes = replicate n 0 ++ (b0 ∷ b1 ∷ b2 ∷ rest) })
      ≡ some ((32 - n) * 2 ^ 24 + (b0 * 2 ^ 16 + b1 * 2 ^ 8 + b2))
unfolding compact
compact-lead n b0 b1 b2 rest lt pos =
    let tail = b0 ∷ b1 ∷ b2 ∷ rest in
    let at : 0 + n ≡ n = omega arith in
    let at' : n ≡ n + 0 = omega arith in
    let first = ap (λ i. get_elem? (replicate n 0 ++ tail) i) at' ∙ get_elem?-lead n 0 tail in
    rw
      (
        first_nonzero-lead 32 n 0 b0 (b1 ∷ b2 ∷ rest) pos,
        at,
        first,
        get_elem?-lead n 1 tail,
        get_elem?-lead n 2 tail,
      )
      (ground arith)

set_lead :
    (n j v : ℕ) (xs : List ℕ) → set (replicate n 0 ++ xs) (n + j) v ≡ replicate n 0 ++ set xs j v
set_lead zero j v xs = let z : 0 + j ≡ j = omega arith in rw z
set_lead (suc n) j v xs =
    let step : suc n + j ≡ suc (n + j) = omega arith in
    rw step (ap (λ l. 0 ∷ l) (set_lead n j v xs))

replicate-add {ℓ} :
    {A : Type ℓ} (n m : ℕ) (a : A) → replicate (n + m) a ≡ replicate n a ++ replicate m a
replicate-add zero m a = let z : 0 + m ≡ m = omega arith in rw z
replicate-add (suc n) m a =
    let step : suc n + m ≡ suc (n + m) = omega arith in
    rw step (ap (λ l. a ∷ l) (replicate-add n m a))

-- What `from_compact` reads out of the word.
word_parts :
    (e b0 b1 b2 : ℕ)
    → e < 256
    → b0 < 256
    → b1 < 256
    → b2 < 256
    → let word = e * 2 ^ 24 + (b0 * 2 ^ 16 + b1 * 2 ^ 8 + b2) in
      (word / 2 ^ 24 % 256 ≡ e)
      × (word % 2 ^ 24 / 2 ^ 16 % 256 ≡ b0)
      × (word % 2 ^ 24 / 2 ^ 8 % 256 ≡ b1)
      × (word % 2 ^ 24 % 256 ≡ b2)
word_parts e b0 b1 b2 he h0 h1 h2 = omega arith

plus_zero : (n : ℕ) → n ≡ n + 0
plus_zero n = omega arith

-- Three writes behind `n` zeros.
three_writes :
    (n m b0 b1 b2 : ℕ)
    → n + suc (suc (suc m)) ≡ 32
    → set (set (set (replicate 32 0) n b0) (n + 1) b1) (n + 2) b2
      ≡ replicate n 0 ++ (b0 ∷ b1 ∷ b2 ∷ replicate m 0)
three_writes n m b0 b1 b2 e =
    let k = suc (suc (suc m)) in
    let zeros : replicate {A = ℕ} 32 0 ≡ replicate n 0 ++ replicate k 0 =
      ap (λ (i : ℕ). replicate i 0) (sym e) ∙ replicate-add n k 0 in
    let first : set (replicate 32 0) n b0 ≡ replicate n 0 ++ set (replicate k 0) 0 b0 =
      ap₂ (λ l i. set l i b0) zeros (plus_zero n) ∙ set_lead n 0 b0 (replicate k 0) in
    rw (first, set_lead n 1 b1 (set (replicate k 0) 0 b0))
      (set_lead n 2 b2 (set (set (replicate k 0) 0 b0) 1 b1))

-- The branch for large exponents writes three bytes after `n` zeros.
large_target-lead :
    (n m b0 b1 b2 mantissa : ℕ)
    → n + suc (suc (suc m)) ≡ 32
    → mantissa / 2 ^ 16 % 256 ≡ b0
    → mantissa / 2 ^ 8 % 256 ≡ b1
    → mantissa % 256 ≡ b2
    → large_target (32 - n) mantissa ≡ replicate n 0 ++ (b0 ∷ b1 ∷ b2 ∷ replicate m 0)
unfolding large_target
large_target-lead n m b0 b1 b2 mantissa e h0 h1 h2 =
    let pos : (32 + 2 ^ 64 - (32 - n)) % 2 ^ 64 ≡ n = omega arith in
    let t0 : ltb n 32 ≡ true = lt→ltb n 32 (omega arith) in
    let t1 : ltb (n + 1) 32 ≡ true = lt→ltb (n + 1) 32 (omega arith) in
    let t2 : ltb (n + 2) 32 ≡ true = lt→ltb (n + 2) 32 (omega arith) in
    rw (pos, h0, h1, h2, t0, t1, t2) (three_writes n m b0 b1 b2 e)

-- A 32-byte target with `n` zero bytes, three bytes of which the first is not zero and `m` more
-- bytes, where `m` is positive, comes back from its compact form with the `m` bytes set to zero.
from_compact-compact :
    (n m b0 b1 b2 : ℕ) (rest : List ℕ)
    → n + suc (suc (suc m)) ≡ 32
    → 0 < m
    → 0 < b0
    → All (λ b. b < 256) (b0 ∷ b1 ∷ b2 ∷ [])
    → Option.map from_compact (compact (record { bytes = replicate n 0 ++ (b0 ∷ b1 ∷ b2 ∷ rest) }))
      ≡ some (record { bytes = replicate n 0 ++ (b0 ∷ b1 ∷ b2 ∷ replicate m 0) })
unfolding from_compact
from_compact-compact n m b0 b1 b2 rest e pos lead h =
    let parts = word_parts (32 - n) b0 b1 b2 (omega arith) h.0 h.1.0 h.1.1.0 in
    let large : leb (32 - n) 3 ≡ false = ground arith in
    rw (compact-lead n b0 b1 b2 rest (omega arith) lead, parts.0, large)
      (ap (λ l. some (record { bytes = l }))
        (large_target-lead n m b0 b1 b2 _ e parts.1 parts.2 parts.3))

-- A target whose only bytes that may not be zero are the last three, the first of them not zero,
-- comes back from its compact form moved one place to the left.
from_compact-compact_low :
    (b0 b1 b2 : ℕ)
    → 0 < b0
    → All (λ b. b < 256) (b0 ∷ b1 ∷ b2 ∷ [])
    → Option.map from_compact (compact (record { bytes = replicate 29 0 ++ (b0 ∷ b1 ∷ b2 ∷ []) }))
      ≡ some (record { bytes = replicate 28 0 ++ (b0 ∷ b1 ∷ b2 ∷ 0 ∷ []) })
unfolding from_compact small_target
from_compact-compact_low b0 b1 b2 lead h =
    let parts = word_parts 3 b0 b1 b2 (omega arith) h.0 h.1.0 h.1.1.0 in
    rw (compact-lead 29 b0 b1 b2 [] (omega arith) lead, parts.0, parts.1, parts.2, parts.3)

beyond : (xs : List ℕ) (i : ℕ) → length xs ≤ i → get_elem? xs i ≡ none
beyond [] i h = refl
beyond (x ∷ xs) zero h = absurd (omega arith)
beyond (x ∷ xs) (suc i) h = beyond xs i (omega arith)

-- A target with 30 or 31 zero bytes and then one that is not zero has no compact form: reading
-- three bytes runs past the end of the array.
compact_panics :
    (n b : ℕ) (rest : List ℕ)
    → n + suc (length rest) ≡ 32
    → length rest ≤ 1
    → 0 < b
    → compact (record { bytes = replicate n 0 ++ (b ∷ rest) }) ≡ none
unfolding compact
compact_panics n b rest e short pos =
    let at : 0 + n ≡ n = omega arith in
    let first =
      ap (λ i. get_elem? (replicate n 0 ++ (b ∷ rest)) i) (plus_zero n)
      ∙ get_elem?-lead n 0 (b ∷ rest) in
    let no_third : get_elem? (replicate n 0 ++ (b ∷ rest)) (n + 2) ≡ none =
      get_elem?-lead n 2 (b ∷ rest) ∙ beyond rest 1 short in
    rw (first_nonzero-lead 32 n 0 b rest pos, at, first, no_third)
      (ground (arith, Option-cases (get_elem? (replicate n 0 ++ (b ∷ rest)) (n + 1))))
