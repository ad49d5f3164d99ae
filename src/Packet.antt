-- ===== src/Packet.antt =====
-- `struct SharePacket` of accum-node/src/share.rs and its 180 bytes.
pub mod Roundtrip
pub mod Accept
use accum_core.Base.{ℕ, ◌^◌, ◌<◌, ◌>>=◌, List, ◌++◌, Result, ok, err, ◌==◌, if◌then◌else◌, length}
use accum_core.Bytes.{IsBytes, to_le_bytes, from_le_bytes}
use accum_core.Target.{Hash32}
use accum_core.Header.{BlockHeader, IsHeader, HeaderError, to_bytes, deserialize, slice}

pub record SharePacket : Type 0 where
  pub miner_id : List ℕ
  pub header : BlockHeader
  pub nonce : ℕ
  pub hash : Hash32

-- The ranges of the field types.
pub record IsPacket (p : SharePacket) : Type 0 where
  pub miner_id_20 : IsBytes 20 p.miner_id
  pub header_fits : IsHeader p.header
  pub nonce_u64 : p.nonce < 2 ^ 64
  pub hash_32 : IsBytes 32 p.hash

-- The variants of `ShareError`.
pub data ShareError : Type 0 where
  invalid_length : ShareError
  invalid_header_length : ShareError
  stale_prev_hash : ShareError
  invalid_miner_id : ShareError
  prefilter_rejected : ShareError
  invalid_hash : ShareError
  target_not_met : ShareError
  too_many_shares : ShareError
  roundtrip_failed : ShareError
  deserialization_failed : ShareError

-- `SharePacket::serialize`
pub serialize : SharePacket → List ℕ
serialize p = p.miner_id ++ (to_bytes p.header ++ (to_le_bytes 8 p.nonce ++ p.hash))

-- `map_err(|_| ShareError::DeserializationFailed)`
abbrev pub header_failed : Result HeaderError BlockHeader → Result ShareError BlockHeader
header_failed (ok h) = ok h
header_failed (err _) = err deserialization_failed

-- `SharePacket::deserialize`
pub decode : List ℕ → Result ShareError SharePacket
decode bytes =
    if length bytes == 180
    then (do
      header ← header_failed (deserialize (slice 20 120 bytes))
      ok (record {
        miner_id = slice 0 20 bytes;
        header = header;
        nonce = from_le_bytes (slice 140 8 bytes);
        hash = slice 148 32 bytes;
      }))
    else err invalid_length
