-- ===== src/Share/Pool/Counted.antt =====
-- The books of `SharePool` in accum-node/src/main.rs: counters, limits and epochs agree with the shares.
use accum_core.Base.{
  ℕ, ◌+◌, ◌%◌, ◌^◌, ◌≤◌, ◌<◌, ◌≡◌, refl, sym, ◌∙◌, inl, inr, Bool, true, false, not, Option, none,
  some, List, [], ◌∷◌, ◌++◌, ok, err, ltb, leb, ◌==◌, ==_iff, if◌then◌else◌, length, length-append,
  eq_bytes, eq_of_eq_bytes, All, All-append, Bool-cases, Option-cases, arith,
}
use accum_core.Base.Dict.{lookup, insert, unwrap_or, mem, lookup-insert}
use accum_core.Crypto.{Crypto}
use accum_core.Pow.{wrapping_sub}
use accum_core.Share.{Share, share_hash}
use accum_core.Share.Pool.{
  SharePool, wrong_epoch, bump, shares_of, most_shares, get_shares, new_epoch,
  max_shares_per_miner_per_epoch, evict_from, evict_target, evict_oldest, store_share, count_share,
  add_share,
}

abbrev pub IsOwned : SharePool → List ℕ → Share → Type 0
IsOwned p k s = (s.miner_id ≡ k) × (s.header.epoch_index ≡ p.current_epoch)

-- The counter of a miner is the number of its stored shares, which is at most the limit, and these
-- are shares of the miner in the pool's epoch.
abbrev pub Counted : SharePool → List ℕ → Type 0
Counted p k =
    (unwrap_or 0 (lookup k p.share_count) ≡ length (shares_of p k))
    × (length (shares_of p k) ≤ max_shares_per_miner_per_epoch)
    × All (IsOwned p k) (shares_of p k)

abbrev pub AllCounted : SharePool → Type 0
AllCounted p = (k : List ℕ) → Counted p k

-- A pool in which one miner's shares and counter are replaced.
replace-Counted :
    (p : SharePool) (k : List ℕ) (ss : List Share) (n : ℕ) (q : List ℕ)
    → AllCounted p
    → n ≡ length ss
    → n ≤ max_shares_per_miner_per_epoch
    → All (IsOwned p k) ss
    → Counted (record p { shares = insert k ss p.shares; share_count = insert k n p.share_count }) q
replace-Counted p k ss n q inv same low owned = elim (Bool-cases (eq_bytes k q)) [
  | inl hit ↦
      let e = eq_of_eq_bytes k q hit in
      rw (lookup-insert k q ss p.shares, lookup-insert k q n p.share_count, hit)
        (same, rw same at low, rw e at owned)
  | inr miss ↦ rw (lookup-insert k q ss p.shares, lookup-insert k q n p.share_count, miss) (inv q)
]

-- A counter that is written back as it was.
recount-Counted :
    (p : SharePool) (k q : List ℕ)
    → AllCounted p
    → Counted
        (record p { share_count = insert k (unwrap_or 0 (lookup k p.share_count)) p.share_count })
        q
recount-Counted p k q inv = elim (Bool-cases (eq_bytes k q)) [
  | inl hit ↦
      let e = eq_of_eq_bytes k q hit in
      rw (lookup-insert k q (unwrap_or 0 (lookup k p.share_count)) p.share_count, hit, e) (inv q)
  | inr miss ↦
      rw (lookup-insert k q (unwrap_or 0 (lookup k p.share_count)) p.share_count, miss) (inv q)
]

module _ (c : Crypto) (share_size : ℕ) where
  evict_from-AllCounted :
      (p : SharePool) (k : List ℕ) (ss : List Share)
      → shares_of p k ≡ ss
      → AllCounted p
      → AllCounted (evict_from c share_size p k ss)
  unfolding evict_from
  evict_from-AllCounted p k [] here inv q = inv q
  evict_from-AllCounted p k (oldest ∷ rest) here inv q =
      let (count, low, owned) = inv k in
      let count' : unwrap_or 0 (lookup k p.share_count) ≡ length (oldest ∷ rest) =
        rw here at count in
      let low' : length (oldest ∷ rest) ≤ max_shares_per_miner_per_epoch = rw here at low in
      let owned' : All (IsOwned p k) (oldest ∷ rest) = rw here at owned in
      replace-Counted p k rest (wrapping_sub (unwrap_or 0 (lookup k p.share_count)) 1) q inv
        (omega arith) (omega arith) owned'.1

  evict_oldest-AllCounted :
      (p : SharePool) → AllCounted p → AllCounted (evict_oldest c share_size p)
  unfolding evict_oldest evict_target
  evict_oldest-AllCounted p inv = elim (Option-cases (most_shares 0 none p.shares)) [
    | inl nobody ↦ rw nobody inv
    | inr (k, most) ↦ rw most (evict_from-AllCounted p k (shares_of p k) refl inv)
  ]

  store_share-AllCounted :
      (p : SharePool) (s : Share)
      → s.header.epoch_index ≡ p.current_epoch
      → AllCounted p
      → AllCounted (store_share c share_size p s).0
  unfolding store_share
  store_share-AllCounted p s in_epoch inv q =
      let k = s.miner_id in
      let count = unwrap_or 0 (lookup k p.share_count) in
      elim (Bool-cases (leb max_shares_per_miner_per_epoch count)) [
        | inl full ↦ rw full (recount-Counted p k q inv)
        | inr room ↦
            let (same, low, owned) = inv k in
            let longer = length-append (shares_of p k) (s ∷ []) in
            let below : count < max_shares_per_miner_per_epoch = ground arith in
            rw room (
              replace-Counted p k (shares_of p k ++ (s ∷ [])) ((count + 1) % 2 ^ 64) q inv
                (omega arith) (omega arith)
                (All-append (IsOwned p k) (shares_of p k) (s ∷ []) owned ((refl, in_epoch), tt)))
      ]

  evict_from_epoch :
      (p : SharePool) (k : List ℕ) (ss : List Share)
      → (evict_from c share_size p k ss).current_epoch ≡ p.current_epoch
  unfolding evict_from
  evict_from_epoch p k [] = refl
  evict_from_epoch p k (s ∷ rest) = refl

  evict_target_epoch :
      (p : SharePool) (target : Option (List ℕ))
      → (evict_target c share_size p target).current_epoch ≡ p.current_epoch
  unfolding evict_target
  evict_target_epoch p none = refl
  evict_target_epoch p (some k) = evict_from_epoch p k (shares_of p k)

  count_share-AllCounted :
      (p : SharePool) (s : Share) (is_valid : Bool)
      → s.header.epoch_index ≡ p.current_epoch
      → AllCounted p
      → AllCounted (count_share c share_size p s is_valid).0
  unfolding count_share evict_oldest
  count_share-AllCounted p s false in_epoch inv = inv
  count_share-AllCounted p s true in_epoch inv =
      let p1 = record p { total_shares = bump s.miner_id p.total_shares } in
      elim (Bool-cases (ltb p.max_memory_bytes ((p.memory_used + share_size) % 2 ^ 64))) [
        | inl full ↦ rw full (
            store_share-AllCounted (evict_oldest c share_size p1) s
              (in_epoch ∙ sym (evict_target_epoch p1 (most_shares 0 none p1.shares)))
              (evict_oldest-AllCounted p1 inv))
        | inr room ↦ rw room (store_share-AllCounted p1 s in_epoch inv)
      ]

  -- The cases of `add_share`, by what its two tests return.
  guarded-AllCounted :
      (p : SharePool) (s : Share) (is_valid in_epoch known : Bool)
      → (in_epoch ≡ true → s.header.epoch_index ≡ p.current_epoch)
      → AllCounted p
      → AllCounted
          (if not in_epoch
            then (p, err wrong_epoch)
            else if known
            then (p, ok false)
            else count_share c share_size p s is_valid).0
  guarded-AllCounted p s is_valid false known e inv = inv
  guarded-AllCounted p s is_valid true true e inv = inv
  guarded-AllCounted p s is_valid true false e inv =
      count_share-AllCounted p s is_valid (e refl) inv

  -- `add_share` keeps the books, whatever it returns, evicts or refuses: where every miner's counter
  -- is the number of its stored shares, at most 5000, all its own and of the current epoch, this
  -- holds afterwards too.
  pub add_share-AllCounted :
      (p : SharePool) (s : Share) (is_valid : Bool)
      → AllCounted p
      → AllCounted (add_share c share_size p s is_valid).0
  unfolding add_share
  add_share-AllCounted p s is_valid inv =
      guarded-AllCounted p s is_valid (s.header.epoch_index == p.current_epoch)
        (mem (share_hash c s) p.share_hashes) (==_iff s.header.epoch_index p.current_epoch).0 inv

-- `new_epoch` moves to the next epoch with an empty pool, whose books are in order whatever they
-- were before: no share and no counter of the old epoch is carried over.
pub new_epoch-AllCounted :
    (now : ℕ) (p : SharePool)
    → AllCounted (new_epoch now p) × ((k : List ℕ) → get_shares (new_epoch now p) k ≡ 0)
unfolding new_epoch get_shares lookup
new_epoch-AllCounted now p = (λ k. (refl, omega arith, tt), λ k. refl)
