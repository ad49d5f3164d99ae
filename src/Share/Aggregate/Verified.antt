-- ===== src/Share/Aggregate/Verified.antt =====
-- What a verified `AggregatedShare` of accum-node/src/main.rs commits its miner to.
use accum_core.Base.{
  ℕ, ◌%◌, ◌^◌, ◌<◌, ◌≡◌, ◌⊎◌, refl, sym, ap, ◌∙◌, inl, inr, true, Option, none, some, List, [], ◌∷◌,
  map, ◌==◌, ==_iff, eq_bytes, eq_of_eq_bytes, length, Bool-cases, arith,
}
use accum_core.Crypto.{Crypto}
use accum_core.Merkle.{build_merkle_root}
use accum_core.Merkle.Binding.{AllSize32, Collision, build_merkle_root_binding}
use accum_core.Share.{Share, share_hash}
use accum_core.Share.Aggregate.{AggregatedShare, all_of_miner, verify_root, verify}
use accum_core.Target.{Hash32}

module _ (c : Crypto) where
  verify_root_sound :
      (a : AggregatedShare) (root : Option Hash32)
      → verify_root c a root ≡ some true
      → root ≡ some a.merkle_root
  unfolding verify_root
  verify_root_sound a none h = cc
  verify_root_sound a (some root) h = elim (Bool-cases (eq_bytes root a.merkle_root)) [
    | inl same ↦ ap some (eq_of_eq_bytes root a.merkle_root same)
    | inr other ↦ cc (rw other at h)
  ]

  verify_sound :
      (a : AggregatedShare) (shares : List Share)
      → verify c a shares ≡ some true
      → (length shares % 2 ^ 32 ≡ a.share_count)
        × (build_merkle_root c.sha256 (map (share_hash c) shares) ≡ some a.merkle_root)
  unfolding verify
  verify_sound a shares h = elim (Bool-cases (length shares % 2 ^ 32 == a.share_count)) [
    | inr other ↦ cc (rw other at h)
    | inl count ↦ elim (Bool-cases (all_of_miner a.miner_id shares)) [
      | inr foreign ↦ cc (rw (count, foreign) at h)
      | inl own ↦ (
        (==_iff _ _).0 count,
        verify_root_sound a (build_merkle_root c.sha256 (map (share_hash c) shares))
            (rw (count, own) at h),
      )
    ]
  ]

  length-map : (xs : List Share) → length (map (share_hash c) xs) ≡ length xs
  length-map [] = refl
  length-map (x ∷ xs) = omega (arith, length-map xs)

  AllSize32-map :
      ((bytes : List ℕ) → length (c.sha256 bytes) ≡ 32)
      → (xs : List Share) → AllSize32 (map (share_hash c) xs)
  AllSize32-map size [] = tt
  AllSize32-map size (x ∷ xs) = (size _, AllSize32-map size xs)

  -- Let SHA-256 give 32 bytes. If two lists of fewer than 2^32 shares both pass `verify` for one
  -- aggregated share, then their shares have the same hashes in the same order, or SHA-256 has a
  -- collision.
  verify_binding :
      ((bytes : List ℕ) → length (c.sha256 bytes) ≡ 32)
      → (a : AggregatedShare) (xs ys : List Share) → length xs < 2 ^ 32
      → length ys < 2 ^ 32
      → verify c a xs ≡ some true
      → verify c a ys ≡ some true
      → (map (share_hash c) xs ≡ map (share_hash c) ys) ⊎ Collision c.sha256
  verify_binding size a xs ys few_xs few_ys hx hy =
      let (count_x, root_x) = verify_sound a xs hx in
      let (count_y, root_y) = verify_sound a ys hy in
      let len_x = length-map xs in
      let len_y = length-map ys in
      build_merkle_root_binding c.sha256 size (map (share_hash c) xs) (map (share_hash c) ys)
        (omega arith) (AllSize32-map size xs) (AllSize32-map size ys) (root_x ∙ sym root_y)

  -- An aggregated share that claims no shares panics the verification of the empty list, whatever
  -- its root, key and signature are.
  verify_panics : (a : AggregatedShare) → a.share_count ≡ 0 → verify c a [] ≡ none
  unfolding verify verify_root all_of_miner build_merkle_root
  verify_panics a empty = rw empty refl
