-- ===== src/EpochShares.antt =====
-- `EpochShares` of accum-node/src/share.rs: the packets of the current epoch, by miner.
pub mod Counted
use accum_core.Base.{
  ℕ, ◌+◌, ◌%◌, ◌^◌, Bool, true, false, Option, none, some, List, [], ◌∷◌, ◌++◌, Result, ok, err,
  leb, if◌then◌else◌, length, map,
}
use accum_core.Base.Dict.{Dict, lookup, insert, unwrap_or, mem, include}
use accum_core.Crypto.{Crypto}
use accum_core.Merkle.{calculate_merkle_root}
use accum_core.Packet.{SharePacket, ShareError, too_many_shares}
use accum_core.Packet.Accept.{share_hash}
use accum_core.Target.{Hash32}

pub record EpochShares : Type 0 where
  pub shares : Dict (List SharePacket)
  pub share_count : ℕ
  pub share_hashes : List Hash32

-- `EpochShares::new`, which `clear` leaves too.
abbrev pub new_shares : EpochShares
new_shares = record { shares = []; share_count = 0; share_hashes = [] }

-- `EpochShares::clear`
abbrev clear : EpochShares → EpochShares
clear s = new_shares

-- `get_miner_shares`
abbrev pub get_miner_shares : EpochShares → List ℕ → Option (List SharePacket)
get_miner_shares s k = lookup k s.shares

-- `miner_share_count`
abbrev pub miner_share_count : EpochShares → List ℕ → ℕ
miner_share_count s k = length (unwrap_or [] (get_miner_shares s k))

-- `miners`
abbrev miners : EpochShares → List (List ℕ)
miners s = map (λ (e : List ℕ × List SharePacket). e.0) s.shares

module _ (c : Crypto) where
  -- `has_share`
  abbrev pub has_share : EpochShares → SharePacket → Bool
  has_share s p = mem (share_hash c p) s.share_hashes

  -- The part of `add_share` behind the check for a duplicate. A refused miner keeps the vector that
  -- `or_default` has made.
  pub push_share : EpochShares → SharePacket → EpochShares × Result ShareError (Unit {0})
  push_share s p =
      let k = p.miner_id in
      let old = unwrap_or [] (lookup k s.shares) in
      if leb 5000 (length old)
      then (record s { shares = insert k old s.shares }, err too_many_shares)
      else (
        record {
          shares = insert k (old ++ (p ∷ [])) s.shares;
          share_hashes = include (share_hash c p) s.share_hashes;
          share_count = (s.share_count + 1) % 2 ^ 64;
        },
        ok tt,
      )

  -- `EpochShares::add_share`
  pub add_share : EpochShares → SharePacket → EpochShares × Result ShareError (Unit {0})
  unfolding push_share
  add_share s p = if has_share s p then (s, ok tt) else push_share s p

  -- `EpochShares::calculate_merkle_root`, in the order in which the set is iterated.
  abbrev epoch_root : EpochShares → Option Hash32
  epoch_root s = calculate_merkle_root c.sha256 s.share_hashes
