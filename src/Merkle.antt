-- ===== src/Merkle.antt =====
-- The Merkle roots of accum-node/src/main.rs: one loop, written out in `SyncManager`, in
-- `mine_block`, in `AggregatedShare` and in `SharePool`. SHA-256 is a parameter.
pub mod Total
pub mod Binding
pub mod Sorted
use Prim.Native.Nat.{compare, Ordering}
use accum_core.Base.{
  ℕ, zero, suc, Bool, true, false, Option, none, some, List, [], ◌∷◌, ◌++◌, length, replicate,
  if◌then◌else◌,
}
use accum_core.Target.{Hash32}

abbrev pub zero_hash : Hash32
zero_hash = replicate 32 0

-- `<=` of byte arrays: lexicographic.
pub leb_bytes : List ℕ → List ℕ → Bool
leb_bytes [] _ = true
leb_bytes (x ∷ xs) [] = false
leb_bytes (x ∷ xs) (y ∷ ys) = elim (compare x y) [
  | Ordering.lt ↦ true
  | Ordering.gt ↦ false
  | Ordering.eq ↦ leb_bytes xs ys
]

insert_hash : Hash32 → List Hash32 → List Hash32
insert_hash a [] = a ∷ []
insert_hash a (x ∷ xs) = if leb_bytes a x then a ∷ x ∷ xs else x ∷ insert_hash a xs

-- `hashes.sort()`
pub sort : List Hash32 → List Hash32
unfolding insert_hash
sort [] = []
sort (a ∷ xs) = insert_hash a (sort xs)

module _ (sha256 : List ℕ → Hash32) where
  -- `for chunk in hashes.chunks(2)`: a last hash with no partner is paired with itself.
  unfoldable pub next_level : List Hash32 → List Hash32
  next_level [] = []
  next_level (a ∷ []) = sha256 (a ++ a) ∷ []
  next_level (a ∷ b ∷ rest) = sha256 (a ++ b) ∷ next_level rest

  -- `while hashes.len() > 1`, on fuel.
  pub merkle_loop : ℕ → List Hash32 → List Hash32
  merkle_loop zero hashes = hashes
  merkle_loop (suc fuel) [] = []
  merkle_loop (suc fuel) (a ∷ []) = a ∷ []
  merkle_loop (suc fuel) (a ∷ b ∷ rest) = merkle_loop fuel (next_level (a ∷ b ∷ rest))

  abbrev pub first_hash : List Hash32 → Option Hash32
  first_hash [] = none
  first_hash (a ∷ _) = some a

  -- `AggregatedShare::build_merkle_root` on the hashes of the shares; `hashes[0]` of an empty list is
  -- a panic, `none`.
  unfoldable pub build_merkle_root : List Hash32 → Option Hash32
  unfolding merkle_loop
  build_merkle_root hashes = first_hash (merkle_loop (length hashes) hashes)

  -- `SyncManager::compute_merkle_root` on the transaction ids.
  unfoldable pub compute_merkle_root : List Hash32 → Option Hash32
  unfolding build_merkle_root
  compute_merkle_root [] = some zero_hash
  compute_merkle_root (a ∷ rest) = build_merkle_root (a ∷ rest)

  -- `SharePool::calculate_merkle_root` on the set of share hashes, in the order of its iteration.
  pub calculate_merkle_root : List Hash32 → Option Hash32
  unfolding build_merkle_root sort
  calculate_merkle_root [] = some zero_hash
  calculate_merkle_root (a ∷ rest) = build_merkle_root (sort (a ∷ rest))
