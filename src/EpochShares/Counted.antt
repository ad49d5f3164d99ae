-- ===== src/EpochShares/Counted.antt =====
-- The books of `EpochShares` in accum-node/src/share.rs.
use mathlib.Core.Path.{subst}
use accum_core.Base.{
  ℕ, ◌+◌, ◌%◌, ◌^◌, ◌≤◌, ◌≡◌, refl, sym, inl, inr, Bool, true, false, Option, none, some, List, [],
  ◌∷◌, ◌++◌, Result, ok, leb, if◌then◌else◌, length, length-append, eq_bytes, eq_bytes_refl,
  eq_of_eq_bytes, Bool-cases, All, All-append, arith,
}
use accum_core.Base.Dict.{lookup, insert, unwrap_or, include, lookup-insert, mem-include}
use accum_core.Base.Totals.{total, measure_or_zero, total-insert}
use accum_core.Crypto.{Crypto}
use accum_core.EpochShares.{EpochShares, has_share, push_share, add_share}
use accum_core.Packet.{SharePacket, ShareError}
use accum_core.Packet.Accept.{share_hash}

abbrev pub stored : EpochShares → List ℕ → List SharePacket
stored s k = unwrap_or [] (lookup k s.shares)

-- The counter is the number of all stored packets; a miner has at most 5000, all its own, and the
-- hash of each is in the set.
pub record IsCounted (c : Crypto) (s : EpochShares) : Type 0 where
  pub counted : s.share_count ≡ total length s.shares % 2 ^ 64
  pub limited : (k : List ℕ) → length (stored s k) ≤ 5000
  pub owned :
      (k : List ℕ)
      → All (λ (p : SharePacket). (p.miner_id ≡ k) × (has_share c s p ≡ true)) (stored s k)

measure_stored :
    (o : Option (List SharePacket)) → measure_or_zero length o ≡ length (unwrap_or [] o)
measure_stored none = refl
measure_stored (some ps) = refl

-- The vector of a miner after another one is written.
stored-insert :
    (s : EpochShares) (k q : List ℕ) (ps : List SharePacket)
    → unwrap_or [] (lookup q (insert k ps s.shares)) ≡ (if eq_bytes k q then ps else stored s q)
stored-insert s k q ps = elim (Bool-cases (eq_bytes k q)) [
  | inl hit ↦ rw (lookup-insert k q ps s.shares, hit) refl
  | inr miss ↦ rw (lookup-insert k q ps s.shares, miss) refl
]

module _ (c : Crypto) where
  abbrev Owned : EpochShares → List ℕ → List SharePacket → Type 0
  Owned s k ps = All (λ (p : SharePacket). (p.miner_id ≡ k) × (has_share c s p ≡ true)) ps

  -- A larger set of hashes.
  Owned-weaken :
      (s t : EpochShares) (k : List ℕ) (ps : List SharePacket)
      → ((p : SharePacket) → has_share c s p ≡ true → has_share c t p ≡ true)
      → Owned s k ps
      → Owned t k ps
  Owned-weaken s t k [] larger h = tt
  Owned-weaken s t k (p ∷ ps) larger ((own, known), h) =
      ((own, larger p known), Owned-weaken s t k ps larger h)

  -- Two results of a test on keys.
  pick :
      (P : List SharePacket → Type 0) (b : Bool) (x y : List SharePacket)
      → (b ≡ true → P x)
      → P y
      → P (if b then x else y)
  pick P true x y hx hy = hx refl
  pick P false x y hx hy = hy

  push_share-IsCounted :
      (s : EpochShares) (p : SharePacket) → IsCounted c s → IsCounted c (push_share c s p).0
  unfolding push_share
  push_share-IsCounted s p inv =
      let k = p.miner_id in
      let old = stored s k in
      elim (Bool-cases (leb 5000 (length old))) [
        | inl full ↦
            rw (push_share, full)
              (record {
                counted = omega (
                  arith,
                  inv.counted,
                  total-insert length k old s.shares,
                  measure_stored (lookup k s.shares),
                );
                limited = λ q. rw (stored-insert s k q old) (
                    pick (λ l. length l ≤ 5000) (eq_bytes k q) old (stored s q) (λ _. inv.limited k)
                      (inv.limited q));
                owned = λ q. rw (stored-insert s k q old) (
                    pick (Owned s q) (eq_bytes k q) old (stored s q)
                      (λ same. rw (sym (eq_of_eq_bytes k q same)) (inv.owned k)) (inv.owned q));
              })
        | inr room ↦
            let after : EpochShares = record {
              shares = insert k (old ++ (p ∷ [])) s.shares;
              share_hashes = include (share_hash c p) s.share_hashes;
              share_count = (s.share_count + 1) % 2 ^ 64;
            } in
            let longer = length-append old (p ∷ []) in
            let larger : (r : SharePacket) → has_share c s r ≡ true → has_share c after r ≡ true =
              λ r known.
                rw (mem-include (share_hash c p) (share_hash c r) s.share_hashes) (ground arith) in
            let new : has_share c after p ≡ true =
              rw
                (
                  mem-include (share_hash c p) (share_hash c p) s.share_hashes,
                  eq_bytes_refl (share_hash c p),
                )
                refl in
            rw (push_share, room)
              (record {
                counted = omega (
                  arith,
                  inv.counted,
                  longer,
                  total-insert length k (old ++ (p ∷ [])) s.shares,
                  measure_stored (lookup k s.shares),
                );
                limited = λ q. rw (stored-insert s k q (old ++ (p ∷ []))) (
                    pick (λ l. length l ≤ 5000) (eq_bytes k q) (old ++ (p ∷ [])) (stored s q)
                      (λ _. ground arith) (inv.limited q));
                owned = λ q. rw (stored-insert s k q (old ++ (p ∷ []))) (
                    pick (Owned after q) (eq_bytes k q) (old ++ (p ∷ [])) (stored s q)
                      (λ same.
                        subst (λ x. Owned after x (old ++ (p ∷ []))) (eq_of_eq_bytes k q same)
                          (All-append
                            (λ (r : SharePacket). (r.miner_id ≡ k) × (has_share c after r ≡ true))
                            old (p ∷ []) (Owned-weaken s after k old larger (inv.owned k))
                            ((refl, new), tt)))
                      (Owned-weaken s after q (stored s q) larger (inv.owned q)));
              })
      ]

  either-IsCounted :
      (b : Bool) (x y : EpochShares × Result ShareError (Unit {0}))
      → IsCounted c x.0
      → IsCounted c y.0
      → IsCounted c (if b then x else y).0
  either-IsCounted true x y hx hy = hx
  either-IsCounted false x y hx hy = hy

  -- `add_share` keeps the books, whatever it returns: where the counter is the number of all stored
  -- packets (in 64 bits), and every miner has at most 5000, all of them its own and known by their
  -- hashes, this holds afterwards too.
  pub add_share-IsCounted :
      (s : EpochShares) (p : SharePacket) → IsCounted c s → IsCounted c (add_share c s p).0
  unfolding add_share
  add_share-IsCounted s p inv =
      either-IsCounted (has_share c s p) (s, ok tt) (push_share c s p) inv
        (push_share-IsCounted s p inv)
