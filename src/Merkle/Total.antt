-- ===== src/Merkle/Total.antt =====
-- The fuel of the Merkle loop suffices, and more of it changes nothing.
use accum_core.Base.{
  ℕ, zero, suc, ◌+◌, ◌/◌, ◌≤◌, ◌<◌, ◌≡◌, refl, some, List, [], ◌∷◌, ◌++◌, arith, length,
}
use accum_core.Target.{Hash32}
use accum_core.Merkle.{next_level, merkle_loop, build_merkle_root}

module _ (sha256 : List ℕ → Hash32) where
  pub length-next_level : (hs : List Hash32) → length (next_level sha256 hs) ≡ (length hs + 1) / 2
  unfolding next_level
  length-next_level [] = omega arith
  length-next_level (a ∷ []) = omega arith
  length-next_level (a ∷ b ∷ rest) = omega (arith, length-next_level rest)

  pub loop_single :
      (fuel : ℕ) (a : Hash32) (hs : List Hash32)
      → length hs < fuel
      → (r : Hash32) × (merkle_loop sha256 fuel (a ∷ hs) ≡ r ∷ [])
  unfolding merkle_loop next_level
  loop_single zero a hs h = absurd (omega arith)
  loop_single (suc fuel) a [] h = (a, refl)
  loop_single (suc fuel) a (b ∷ rest) h =
      loop_single fuel (sha256 (a ++ b)) (next_level sha256 rest)
        (omega (arith, length-next_level rest))

  -- Any two amounts of fuel that suffice give the same list.
  pub loop_fuel :
      (f g : ℕ) (hs : List Hash32)
      → length hs ≤ f
      → length hs ≤ g
      → merkle_loop sha256 f hs ≡ merkle_loop sha256 g hs
  unfolding merkle_loop
  loop_fuel zero zero [] hf hg = refl
  loop_fuel zero (suc g) [] hf hg = refl
  loop_fuel (suc f) zero [] hf hg = refl
  loop_fuel (suc f) (suc g) [] hf hg = refl
  loop_fuel zero g (a ∷ hs) hf hg = absurd (omega arith)
  loop_fuel (suc f) zero (a ∷ hs) hf hg = absurd (omega arith)
  loop_fuel (suc f) (suc g) (a ∷ []) hf hg = refl
  loop_fuel (suc f) (suc g) (a ∷ b ∷ rest) hf hg =
      let len = length-next_level (a ∷ b ∷ rest) in
      loop_fuel f g (next_level sha256 (a ∷ b ∷ rest)) (omega (arith, len)) (omega (arith, len))

  -- For every list of hashes that is not empty the loop ends with one hash, so the root exists.
  pub build_merkle_root_total :
      (a : Hash32) (hs : List Hash32) → (r : Hash32) × (build_merkle_root sha256 (a ∷ hs) ≡ some r)
  unfolding build_merkle_root
  build_merkle_root_total a hs =
      let (r, e) = loop_single (suc (length hs)) a hs (omega arith) in (r, rw e)
