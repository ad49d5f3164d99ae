-- ===== src/Tx/Script.antt =====
-- `TxIn::parse_script_sig` and the script that `TxIn::sign` writes.
use mathlib.Core.Path.{ap₂}
use accum_core.Base.{
  ℕ, suc, ◌%◌, ◌<◌, ◌≡◌, refl, Option, none, some, List, [], ◌∷◌, ◌++◌, arith, ltb, true, false,
  ◌⊎◌, inl, inr, ap, sym, ◌∙◌, min, length-take, take-append-drop, Bool-cases, ==_iff, ◌==◌,
  if◌then◌else◌, length, take, drop, take_prefix, drop_prefix, length-append,
}

-- `script_sig.push(x.len() as u8); script_sig.extend_from_slice(x)`, twice.
pub script_of : List ℕ → List ℕ → List ℕ
script_of sig key = (length sig % 256 ∷ sig) ++ (length key % 256 ∷ key)

-- From the length byte of the key on: the rest of the script must be the key.
parse_key : List ℕ → List ℕ → Option (List ℕ × List ℕ)
parse_key sig [] = none
parse_key sig (key_len ∷ rest) = if length rest == key_len then some (sig, rest) else none

-- From the length byte of the signature on.
parse_sig : List ℕ → Option (List ℕ × List ℕ)
parse_sig [] = none
parse_sig (sig_len ∷ rest) =
    if ltb (length rest) sig_len then none else parse_key (take sig_len rest) (drop sig_len rest)

skip_zero : List ℕ → List ℕ
skip_zero [] = []
skip_zero (b ∷ rest) = if b == 0 then rest else b ∷ rest

-- `TxIn::parse_script_sig`: a first byte 0 is skipped.
unfoldable pub parse_script_sig : List ℕ → Option (List ℕ × List ℕ)
unfolding parse_sig parse_key skip_zero
parse_script_sig script = if ltb (length script) 2 then none else parse_sig (skip_zero script)

-- A signature of 1 to 255 bytes and a key of at most 255 bytes are read back from the script that
-- holds them.
pub parse_script_sig-script_of :
    (sig key : List ℕ)
    → 0 < length sig
    → length sig < 256
    → length key < 256
    → parse_script_sig (script_of sig key) ≡ some (sig, key)
unfolding parse_script_sig script_of
parse_script_sig-script_of sig key pos hs hk =
    let tail = length key % 256 ∷ key in
    let ls : length sig % 256 ≡ length sig = omega arith in
    let lk : length key % 256 ≡ length key = omega arith in
    let la = length-append sig tail in
    let cut : ltb (length (sig ++ tail)) (length sig) ≡ false = ground (arith, la) in
    let long : ltb (suc (length (sig ++ tail))) 2 ≡ false = ground (arith, la) in
    let nonzero : (length sig == 0) ≡ false = ground arith in
    let whole : (length key == length key) ≡ true = ground arith in
    rw (
      ls,
      long,
      nonzero,
      cut,
      take_prefix (length sig) sig tail refl,
      drop_prefix (length sig) sig tail refl,
      lk,
      whole,
    )

parse_key_sound :
    (sig0 rest sig key : List ℕ)
    → parse_key sig0 rest ≡ some (sig, key)
    → (sig0 ≡ sig) × (rest ≡ length key ∷ key)
unfolding parse_key
parse_key_sound sig0 [] sig key h = cc
parse_key_sound sig0 (n ∷ rest) sig key h = ground arith

parse_sig_sound :
    (script sig key : List ℕ)
    → parse_sig script ≡ some (sig, key)
    → script ≡ (length sig ∷ sig) ++ (length key ∷ key)
unfolding parse_sig
parse_sig_sound [] sig key h = cc
parse_sig_sound (n ∷ rest) sig key h = elim (Bool-cases (ltb (length rest) n)) [
  | inl short ↦ absurd (cc (rw short at h))
  | inr fits ↦
      let parts = parse_key_sound (take n rest) (drop n rest) sig key (rw fits at h) in
      let size : length sig ≡ n =
        ap length (sym parts.0) ∙ length-take n rest ∙ min_left n rest fits in
      rw size
        (ap (λ l. n ∷ l) (sym (take-append-drop n rest) ∙ ap₂ (λ u v. u ++ v) parts.0 parts.1))
]
  where
    min_left : (n : ℕ) (xs : List ℕ) → ltb (length xs) n ≡ false → min n (length xs) ≡ n
    min_left n xs h = ground arith

-- What is parsed is all that the script holds: the signature and the key with their lengths in
-- front, behind at most one zero byte.
parse_script_sig_sound :
    (script sig key : List ℕ)
    → parse_script_sig script ≡ some (sig, key)
    → (script ≡ (length sig ∷ sig) ++ (length key ∷ key))
      ⊎ (script ≡ 0 ∷ (length sig ∷ sig) ++ (length key ∷ key))
unfolding parse_script_sig
parse_script_sig_sound [] sig key h = absurd (cc h)
parse_script_sig_sound (b ∷ rest) sig key h = elim (Bool-cases (ltb (suc (length rest)) 2)) [
  | inl short ↦ absurd (cc (rw short at h))
  | inr long ↦
      let h' = rw long at h in
      elim (Bool-cases (b == 0)) [
        | inl zero_first ↦ inr (
            ap₂ (λ x l. x ∷ l) ((==_iff b 0).0 zero_first)
              (parse_sig_sound rest sig key (rw zero_first at h')))
        | inr other ↦ inl (parse_sig_sound (b ∷ rest) sig key (rw other at h'))
      ]
]
