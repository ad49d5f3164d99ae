-- ===== src/Merkle/Sorted.antt =====
-- The root of a pool does not depend on the order in which the hash set is walked.
use mathlib.Core.Path.{ap₂}
use mathlib.Core.List.{Permᴰ}
use accum_core.Base.{ℕ, suc, length, ◌≡◌, refl, ap, ◌∙◌, true, false, List, [], ◌∷◌, arith}
use accum_core.Target.{Hash32}
use accum_core.Merkle.{leb_bytes, insert_hash, sort, build_merkle_root, calculate_merkle_root}

leb_bytes_antisymm : (xs ys : List ℕ) → leb_bytes xs ys ≡ true → leb_bytes ys xs ≡ true → xs ≡ ys
unfolding leb_bytes
leb_bytes_antisymm [] [] h k = refl
leb_bytes_antisymm [] (y ∷ ys) h k = cc
leb_bytes_antisymm (x ∷ xs) [] h k = cc
leb_bytes_antisymm (x ∷ xs) (y ∷ ys) h k = ground (arith, leb_bytes_antisymm xs ys)

leb_bytes_total : (xs ys : List ℕ) → leb_bytes xs ys ≡ false → leb_bytes ys xs ≡ true
unfolding leb_bytes
leb_bytes_total [] ys h = cc
leb_bytes_total (x ∷ xs) [] h = refl
leb_bytes_total (x ∷ xs) (y ∷ ys) h = ground (arith, leb_bytes_total xs ys)

leb_bytes_trans :
    (xs ys zs : List ℕ) → leb_bytes xs ys ≡ true → leb_bytes ys zs ≡ true → leb_bytes xs zs ≡ true
unfolding leb_bytes
leb_bytes_trans [] ys zs h k = refl
leb_bytes_trans (x ∷ xs) [] zs h k = cc
leb_bytes_trans (x ∷ xs) (y ∷ ys) [] h k = cc
leb_bytes_trans (x ∷ xs) (y ∷ ys) (z ∷ zs) h k = ground (arith, leb_bytes_trans xs ys zs)

-- Insertions commute.
insert_hash_comm :
    (a b : Hash32) (xs : List Hash32)
    → insert_hash a (insert_hash b xs) ≡ insert_hash b (insert_hash a xs)
unfolding insert_hash
insert_hash_comm a b [] =
    ground (arith, leb_bytes_antisymm a b, leb_bytes_total a b, leb_bytes_total b a)
insert_hash_comm a b (x ∷ xs) = ground (
  arith,
  insert_hash_comm a b xs,
  leb_bytes_antisymm a b,
  leb_bytes_total a b,
  leb_bytes_total b a,
  leb_bytes_trans a b x,
  leb_bytes_trans b a x,
)

sort-Permᴰ : {xs ys : List Hash32} → Permᴰ xs ys → sort xs ≡ sort ys
unfolding sort
sort-Permᴰ Permᴰ.nil = refl
sort-Permᴰ (Permᴰ.cons e p) = ap₂ insert_hash e (sort-Permᴰ p)
sort-Permᴰ (Permᴰ.swap {a = a} {b = b} {l = l} e f) =
    insert_hash_comm a b (sort l) ∙ ap₂ (λ u v. insert_hash u (insert_hash v (sort l))) f e
sort-Permᴰ (Permᴰ.trans p q) = sort-Permᴰ p ∙ sort-Permᴰ q

size-Permᴰ : {xs ys : List Hash32} → Permᴰ xs ys → length xs ≡ length ys
size-Permᴰ Permᴰ.nil = refl
size-Permᴰ (Permᴰ.cons e p) = ap suc (size-Permᴰ p)
size-Permᴰ (Permᴰ.swap e f) = refl
size-Permᴰ (Permᴰ.trans p q) = size-Permᴰ p ∙ size-Permᴰ q

-- Two walks of one set of share hashes, which are permutations of one another, give one root.
calculate_merkle_root_order :
    (sha256 : List ℕ → Hash32) (xs ys : List Hash32)
    → Permᴰ xs ys
    → calculate_merkle_root sha256 xs ≡ calculate_merkle_root sha256 ys
unfolding calculate_merkle_root
calculate_merkle_root_order sha256 [] [] p = refl
calculate_merkle_root_order sha256 [] (y ∷ ys) p = absurd (omega (arith, size-Permᴰ p))
calculate_merkle_root_order sha256 (x ∷ xs) [] p = absurd (omega (arith, size-Permᴰ p))
calculate_merkle_root_order sha256 (x ∷ xs) (y ∷ ys) p =
    ap (build_merkle_root sha256) (sort-Permᴰ p)
