-- ===== src/Examples/Packets.antt =====
-- The theorems on share packets and on the shares of an epoch at small inputs.
use accum_core.Base.{
  ℕ, ◌<◌, ◌≡◌, refl, Bool, true, false, Option, none, some, List, [], ◌∷◌, Result, ok, err,
  replicate, arith,
}
use accum_core.Base.Dict.{lookup}
use accum_core.EpochShares.{new_shares, add_share}
use accum_core.EpochShares.Counted.{IsCounted, add_share-IsCounted}
use accum_core.Examples.{zeros_crypto, replicate-IsBytes}
use accum_core.Header.{BlockHeader}
use accum_core.Packet.{SharePacket}
use accum_core.Packet.Accept.{validate, new_packet, IsShare, validate-IsShare}
use accum_core.Target.{Target, genesis}

abbrev header : BlockHeader
header = record {
  version = 1;
  prev_hash = replicate 32 0;
  merkle_root = replicate 32 0;
  timestamp = 10_000;
  difficulty = genesis;
  nonce = 0;
  epoch_index = 1;
}

abbrev packet : SharePacket
packet = new_packet zeros_crypto (replicate 20 0) header 7

abbrev easy : Target
easy = record { bytes = replicate 32 0xff }

accepts : validate zeros_crypto packet easy (replicate 32 0) (replicate 33 2) ≡ ok tt
unfolding validate accum_core.Base.eq_bytes accum_core.Header.to_bytes accum_core.Bytes.to_le_bytes
    accum_core.Target.is_met_by accum_core.Types.shift_left
accepts = refl

validate-IsShare_example : IsShare zeros_crypto packet easy (replicate 32 0) (replicate 33 2)
validate-IsShare_example =
    validate-IsShare zeros_crypto packet easy (replicate 32 0) (replicate 33 2)
      (replicate-IsBytes 32 0 (omega arith)) (replicate-IsBytes 32 0xff (omega arith)) accepts

new_shares-IsCounted : IsCounted zeros_crypto new_shares
unfolding lookup
new_shares-IsCounted = record { counted = refl; limited = λ k. omega arith; owned = λ k. tt }

add_share-IsCounted_example : IsCounted zeros_crypto (add_share zeros_crypto new_shares packet).0
add_share-IsCounted_example =
    add_share-IsCounted zeros_crypto new_shares packet new_shares-IsCounted
