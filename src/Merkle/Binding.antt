-- ===== src/Merkle/Binding.antt =====
-- What a Merkle root commits to: lists of one length with the same root are equal, or the hash
-- function has a collision; but a list that ends in an unpaired hash shares its root with a longer one.
use accum_core.Base.{
  ℕ, zero, suc, ◌%◌, ◌≡◌, ◌≢◌, ◌⊎◌, inl, inr, refl, sym, ap, ◌∙◌, List, [], ◌∷◌, ◌++◌, arith,
  length, All, Bool-cases, eq_bytes, eq_of_eq_bytes, eq_bytes_refl, take_prefix, drop_prefix,
  length-append, take, drop,
}
use accum_core.Target.{Hash32}
use accum_core.Merkle.{next_level, merkle_loop, build_merkle_root, first_hash}
use accum_core.Merkle.Total.{length-next_level, loop_single, loop_fuel}

-- Every hash of the list has 32 bytes.
abbrev pub AllSize32 : List Hash32 → Type 0
AllSize32 hs = All (λ (h : Hash32). length h ≡ 32) hs

-- Two inputs of one length with the same hash.
pub record Collision (sha256 : List ℕ → Hash32) : Type 0 where
  pub left : List ℕ
  pub right : List ℕ
  pub differ : left ≢ right
  same_length : length left ≡ length right
  same_hash : sha256 left ≡ sha256 right

append_left_eq : (a b c d : List ℕ) → length a ≡ length c → a ++ b ≡ c ++ d → (a ≡ c) × (b ≡ d)
append_left_eq a b c d e h = (
  sym (take_prefix (length a) a b refl)
      ∙ ap (take (length a)) h
      ∙ take_prefix (length a) c d (sym e),
  sym (drop_prefix (length a) a b refl)
      ∙ ap (drop (length a)) h
      ∙ drop_prefix (length a) c d (sym e),
)

module _ (sha256 : List ℕ → Hash32) (size : (xs : List ℕ) → length (sha256 xs) ≡ 32) where
  -- Two pairs with one hash are the same pair, or collide.
  pair_binding :
      (a b c d : Hash32)
      → length a ≡ 32
      → length b ≡ 32
      → length c ≡ 32
      → length d ≡ 32
      → sha256 (a ++ b) ≡ sha256 (c ++ d)
      → ((a ≡ c) × (b ≡ d)) ⊎ Collision sha256
  pair_binding a b c d la lb lc ld h = elim (Bool-cases (eq_bytes (a ++ b) (c ++ d))) [
    | inl same ↦ inl (append_left_eq a b c d (la ∙ sym lc) (eq_of_eq_bytes (a ++ b) (c ++ d) same))
    | inr other ↦ inr (record {
      left = a ++ b;
      right = c ++ d;
      differ = λ e. cc (ap (λ l. eq_bytes (a ++ b) l) e, eq_bytes_refl (a ++ b), other);
      same_length = omega (arith, length-append a b, length-append c d);
      same_hash = h;
    })
  ]

  next_level-AllSize32 : (hs : List Hash32) → AllSize32 (next_level sha256 hs)
  unfolding next_level
  next_level-AllSize32 [] = tt
  next_level-AllSize32 (a ∷ []) = (size (a ++ a), tt)
  next_level-AllSize32 (a ∷ b ∷ rest) = (size (a ++ b), next_level-AllSize32 rest)

  level_binding :
      (xs ys : List Hash32)
      → length xs ≡ length ys
      → AllSize32 xs
      → AllSize32 ys
      → next_level sha256 xs ≡ next_level sha256 ys
      → (xs ≡ ys) ⊎ Collision sha256
  unfolding next_level
  level_binding [] [] e hx hy h = inl refl
  level_binding [] (y ∷ ys) e hx hy h = absurd (omega arith)
  level_binding (x ∷ xs) [] e hx hy h = absurd (omega arith)
  level_binding (x ∷ []) (y ∷ []) e hx hy h = elim (pair_binding x x y y hx.0 hx.0 hy.0 hy.0 (cc)) [
    | inl p ↦ inl (cc (p.0))
    | inr c ↦ inr c
  ]
  level_binding (x ∷ []) (y ∷ y' ∷ ys) e hx hy h = absurd (omega arith)
  level_binding (x ∷ x' ∷ xs) (y ∷ []) e hx hy h = absurd (omega arith)
  level_binding (x ∷ x' ∷ xs) (y ∷ y' ∷ ys) e hx hy h =
      elim (pair_binding x x' y y' hx.0 hx.1.0 hy.0 hy.1.0 (cc)) [
        | inl p ↦ elim (level_binding xs ys (omega arith) hx.1.1 hy.1.1 (cc)) [
          | inl rest ↦ inl (cc (p.0, p.1, rest))
          | inr c ↦ inr c
        ]
        | inr c ↦ inr c
      ]

  loop_binding :
      (fuel : ℕ) (xs ys : List Hash32)
      → length xs ≡ length ys
      → AllSize32 xs
      → AllSize32 ys
      → merkle_loop sha256 fuel xs ≡ merkle_loop sha256 fuel ys
      → (xs ≡ ys) ⊎ Collision sha256
  unfolding merkle_loop
  loop_binding zero xs ys e hx hy h = inl h
  loop_binding (suc fuel) [] [] e hx hy h = inl refl
  loop_binding (suc fuel) [] (y ∷ ys) e hx hy h = absurd (omega arith)
  loop_binding (suc fuel) (x ∷ xs) [] e hx hy h = absurd (omega arith)
  loop_binding (suc fuel) (x ∷ []) (y ∷ []) e hx hy h = inl h
  loop_binding (suc fuel) (x ∷ []) (y ∷ y' ∷ ys) e hx hy h = absurd (omega arith)
  loop_binding (suc fuel) (x ∷ x' ∷ xs) (y ∷ []) e hx hy h = absurd (omega arith)
  loop_binding (suc fuel) (x ∷ x' ∷ xs) (y ∷ y' ∷ ys) e hx hy h =
      let us = x ∷ x' ∷ xs in
      let vs = y ∷ y' ∷ ys in
      elim (loop_binding fuel (next_level sha256 us) (next_level sha256 vs)
        (omega (arith, length-next_level sha256 us, length-next_level sha256 vs))
        (next_level-AllSize32 us) (next_level-AllSize32 vs) h) [
          | inl same ↦ level_binding us vs e hx hy same
          | inr c ↦ inr c
        ]

  first_hash_eq :
      (xs ys : List Hash32) (r s : Hash32)
      → xs ≡ r ∷ []
      → ys ≡ s ∷ []
      → first_hash sha256 xs ≡ first_hash sha256 ys
      → xs ≡ ys
  first_hash_eq xs ys r s ex ey h = ground arith

  -- Two lists of 32-byte hashes of one length with one Merkle root are the same list, or the hash
  -- function, whose values have 32 bytes, has a collision.
  pub build_merkle_root_binding :
      (xs ys : List Hash32)
      → length xs ≡ length ys
      → AllSize32 xs
      → AllSize32 ys
      → build_merkle_root sha256 xs ≡ build_merkle_root sha256 ys
      → (xs ≡ ys) ⊎ Collision sha256
  unfolding build_merkle_root
  build_merkle_root_binding [] [] e hx hy h = inl refl
  build_merkle_root_binding [] (y ∷ ys) e hx hy h = absurd (omega arith)
  build_merkle_root_binding (x ∷ xs) [] e hx hy h = absurd (omega arith)
  build_merkle_root_binding (x ∷ xs) (y ∷ ys) e hx hy h =
      let us = x ∷ xs in
      let vs = y ∷ ys in
      let (r, er) = loop_single sha256 (length us) x xs (omega arith) in
      let (s, es) = loop_single sha256 (length vs) y ys (omega arith) in
      let loops =
        first_hash_eq (merkle_loop sha256 (length us) us) (merkle_loop sha256 (length vs) vs) r s er
          es h in
      loop_binding (length us) us vs e hx hy
        (loops ∙ loop_fuel sha256 (length vs) (length us) vs (omega arith) (omega arith))

module _ (sha256 : List ℕ → Hash32) where
  level_duplicate :
      (xs : List Hash32) (a : Hash32)
      → length xs % 2 ≡ 0
      → next_level sha256 (xs ++ (a ∷ [])) ≡ next_level sha256 (xs ++ (a ∷ a ∷ []))
  unfolding next_level
  level_duplicate [] a e = refl
  level_duplicate (x ∷ []) a e = absurd (omega arith)
  level_duplicate (x ∷ y ∷ xs) a e =
      ap (λ l. sha256 (x ++ y) ∷ l) (level_duplicate xs a (omega arith))

  -- After an even number of hashes, at least two, one more hash gives the same root as that hash
  -- twice.
  build_merkle_root_duplicate :
      (x y : Hash32) (xs : List Hash32) (a : Hash32)
      → length xs % 2 ≡ 0
      → build_merkle_root sha256 (x ∷ y ∷ xs ++ (a ∷ []))
        ≡ build_merkle_root sha256 (x ∷ y ∷ xs ++ (a ∷ a ∷ []))
  unfolding build_merkle_root merkle_loop next_level
  build_merkle_root_duplicate x y xs a e =
      let us = next_level sha256 (xs ++ (a ∷ a ∷ [])) in
      let len = length-next_level sha256 (xs ++ (a ∷ a ∷ [])) in
      let one = length-append xs (a ∷ []) in
      let two = length-append xs (a ∷ a ∷ []) in
      ap (first_hash sha256) (
        ap (λ l. merkle_loop sha256 (suc (length (xs ++ (a ∷ [])))) (sha256 (x ++ y) ∷ l))
          (level_duplicate xs a e)
        ∙ loop_fuel sha256 (suc (length (xs ++ (a ∷ [])))) (suc (length (xs ++ (a ∷ a ∷ []))))
            (sha256 (x ++ y) ∷ us) (omega (arith, len, one, two)) (omega (arith, len, one, two)))
