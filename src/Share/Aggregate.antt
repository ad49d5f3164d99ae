-- ===== src/Share/Aggregate.antt =====
-- `AggregatedShare` and `AggregatedSharePool` of accum-node/src/main.rs: a signed summary of a miner's
-- shares of an epoch.
pub mod Verified
use accum_core.Base.{
  ℕ, ◌%◌, ◌^◌, Bool, true, false, not, ◌&&◌, Option, none, some, List, [], ◌∷◌, ◌++◌, map, ltb,
  ◌==◌, if◌then◌else◌, eq_bytes, length,
}
use accum_core.Base.Dict.{Dict, insert, remove, mem, include, exclude}
use accum_core.Bytes.{to_le_bytes}
use accum_core.Crypto.{Crypto, miner_id_from_pubkey, verify_signature}
use accum_core.Merkle.{build_merkle_root}
use accum_core.Share.{Share, share_hash}
use accum_core.Target.{Hash32}

pub record AggregatedShare : Type 0 where
  pub miner_id : List ℕ
  pub share_count : ℕ
  pub merkle_root : Hash32
  pub signature : List ℕ
  pub pubkey : List ℕ
  pub timestamp : ℕ
  pub epoch : ℕ

pub record AggregatedSharePool : Type 0 where
  aggregates : Dict AggregatedShare
  share_counts : Dict ℕ
  verified_roots : List Hash32
  max_aggregates : ℕ

-- The loop that compares the miners of the shares.
pub all_of_miner : List ℕ → List Share → Bool
all_of_miner id [] = true
all_of_miner id (s ∷ rest) = if eq_bytes s.miner_id id then all_of_miner id rest else false

-- What `AggregatedSharePool::new_epoch` leaves.
unfoldable pub new_epoch : AggregatedSharePool → AggregatedSharePool
new_epoch p = record p { aggregates = []; share_counts = []; verified_roots = [] }

-- `if self.aggregates.len() > self.max_aggregates`: the first entry of the map goes.
drop_first : AggregatedSharePool → Dict AggregatedShare → AggregatedSharePool
drop_first p [] = p
drop_first p ((k, agg) ∷ _) = record p {
  aggregates = remove k p.aggregates;
  verified_roots = exclude agg.merkle_root p.verified_roots;
  share_counts = remove k p.share_counts;
}

module _ (c : Crypto) where
  -- `AggregatedShare::build_message`
  abbrev pub build_message : List ℕ → ℕ → Hash32 → ℕ → ℕ → Hash32
  build_message miner_id share_count merkle_root epoch timestamp = c.sha256 (
      miner_id
      ++ (to_le_bytes 4 share_count
          ++ (merkle_root ++ (to_le_bytes 4 epoch ++ to_le_bytes 8 timestamp))))

  -- The checks of `AggregatedShare::verify` behind the Merkle root.
  verify_key : AggregatedShare → Bool
  verify_key a = elim (c.parse_pubkey a.pubkey) [
    | none ↦ false
    | some key ↦
        eq_bytes (miner_id_from_pubkey c key) a.miner_id
        && verify_signature c a.pubkey a.signature
            (build_message a.miner_id a.share_count a.merkle_root a.epoch a.timestamp)
  ]

  pub verify_root : AggregatedShare → Option Hash32 → Option Bool
  unfolding verify_key
  verify_root a none = none
  verify_root a (some root) = some (eq_bytes root a.merkle_root && verify_key a)

  -- `AggregatedShare::verify`; `none` is the panic of `hashes[0]` in `build_merkle_root`.
  unfoldable pub verify : AggregatedShare → List Share → Option Bool
  unfolding all_of_miner verify_root
  verify a shares =
      if not (length shares % 2 ^ 32 == a.share_count)
      then some false
      else if not (all_of_miner a.miner_id shares)
      then some false
      else verify_root a (build_merkle_root c.sha256 (map (share_hash c) shares))

  -- The part of `add_aggregate` behind the verification.
  store_aggregate : AggregatedSharePool → AggregatedShare → AggregatedSharePool
  unfolding drop_first
  store_aggregate p agg =
      let p1 = record p {
        aggregates = insert agg.miner_id agg p.aggregates;
        share_counts = insert agg.miner_id agg.share_count p.share_counts;
        verified_roots = include agg.merkle_root p.verified_roots;
      } in
      if ltb p1.max_aggregates (length p1.aggregates) then drop_first p1 p1.aggregates else p1

  -- The match on what `verify` returned.
  add_verified :
      AggregatedSharePool → AggregatedShare → Option Bool → Option (AggregatedSharePool × Bool)
  unfolding store_aggregate
  add_verified p agg none = none
  add_verified p agg (some false) = some (p, false)
  add_verified p agg (some true) = some (store_aggregate p agg, true)

  -- `AggregatedSharePool::add_aggregate`
  abbrev add_aggregate :
      AggregatedSharePool → AggregatedShare → List Share → Option (AggregatedSharePool × Bool)
  unfolding add_verified verify
  add_aggregate p agg shares =
      if mem agg.merkle_root p.verified_roots
      then some (p, false)
      else add_verified p agg (verify agg shares)
