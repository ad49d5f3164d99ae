-- ===== src/Examples/Trees.antt =====
-- The theorems on Merkle trees at small lists.
use accum_core.Base.{ℕ, ◌≡◌, ◌⊎◌, refl, some, List, [], ◌∷◌, replicate}
use accum_core.Merkle.{build_merkle_root, next_level}
use accum_core.Merkle.Binding.{Collision, build_merkle_root_binding}
use accum_core.Merkle.Total.{build_merkle_root_total}
use accum_core.Target.{Hash32}

abbrev a : Hash32
a = replicate 32 1

abbrev b : Hash32
b = replicate 32 2

abbrev zero_hash_of : List ℕ → Hash32
zero_hash_of _ = replicate 32 0

build_merkle_root_total_example :
    (r : Hash32) × (build_merkle_root zero_hash_of (a ∷ b ∷ a ∷ []) ≡ some r)
build_merkle_root_total_example = build_merkle_root_total zero_hash_of a (b ∷ a ∷ [])

build_merkle_root_binding_example : (a ∷ b ∷ [] ≡ b ∷ a ∷ []) ⊎ Collision zero_hash_of
unfolding build_merkle_root next_level
build_merkle_root_binding_example =
    build_merkle_root_binding zero_hash_of (λ _. refl) (a ∷ b ∷ []) (b ∷ a ∷ []) refl
      (refl, (refl, tt)) (refl, (refl, tt)) refl
