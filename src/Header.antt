-- ===== src/Header.antt =====
-- `struct BlockHeader` and its 120 bytes: `to_bytes` of accum-node/src/main.rs, which is `as_bytes`
-- of accum-node/src/block.rs, and `deserialize` of the latter. The struct is the same in both.
pub mod Roundtrip
use accum_core.Base.{
  ℕ, ◌+◌, ◌%◌, ◌^◌, ◌<◌, Bool, true, false, List, ◌++◌, Result, ok, err, Option, none, some, ◌==◌,
  ltb, leb, not, if◌then◌else◌, length, take, drop, replicate,
}
use accum_core.Bytes.{IsBytes, to_le_bytes, from_le_bytes}
use accum_core.Target.{Target, Hash32}

pub record BlockHeader : Type 0 where
  pub version : ℕ
  pub prev_hash : Hash32
  pub merkle_root : Hash32
  pub timestamp : ℕ
  pub difficulty : Target
  pub nonce : ℕ
  pub epoch_index : ℕ

-- The ranges of the field types.
pub record IsHeader (h : BlockHeader) : Type 0 where
  pub version_u32 : h.version < 2 ^ 32
  pub prev_hash_32 : IsBytes 32 h.prev_hash
  pub merkle_root_32 : IsBytes 32 h.merkle_root
  pub timestamp_u64 : h.timestamp < 2 ^ 64
  pub difficulty_32 : IsBytes 32 h.difficulty.bytes
  pub nonce_u64 : h.nonce < 2 ^ 64
  pub epoch_index_u32 : h.epoch_index < 2 ^ 32

-- `BlockHeader::to_bytes`: the fields one after the other, integers little-endian.
unfoldable pub to_bytes : BlockHeader → List ℕ
to_bytes h =
    to_le_bytes 4 h.version
    ++ (h.prev_hash
        ++ (h.merkle_root
            ++ (to_le_bytes 8 h.timestamp
                ++ (h.difficulty.bytes ++ (to_le_bytes 8 h.nonce ++ to_le_bytes 4 h.epoch_index)))))

-- `Error::InvalidHeaderLength`
pub data HeaderError : Type 0 where
  invalid_header_length : HeaderError

-- `&bytes[offset..offset + n]`
abbrev pub slice : ℕ → ℕ → List ℕ → List ℕ
slice offset n bytes = take n (drop offset bytes)

-- `BlockHeader::deserialize`, with its running offset.
pub deserialize : List ℕ → Result HeaderError BlockHeader
deserialize bytes =
    if length bytes == 120
    then ok (record {
      version = from_le_bytes (slice 0 4 bytes);
      prev_hash = slice 4 32 bytes;
      merkle_root = slice 36 32 bytes;
      timestamp = from_le_bytes (slice 68 8 bytes);
      difficulty = record { bytes = slice 76 32 bytes };
      nonce = from_le_bytes (slice 108 8 bytes);
      epoch_index = from_le_bytes (slice 116 4 bytes);
    })
    else err invalid_header_length

-- `header.clone()` with another nonce, the input of `hash_with_nonce`.
abbrev pub with_nonce : BlockHeader → ℕ → BlockHeader
with_nonce h n = record h { nonce = n }

-- `BlockHeader::validate_timestamp` at the time `now`: at most two hours ahead, and later than the
-- previous block where there is one. `now + 7200` wraps in `u64`.
unfoldable pub validate_timestamp : ℕ → BlockHeader → Option ℕ → Bool
validate_timestamp now h prev_timestamp =
    if ltb ((now + 7200) % 2 ^ 64) h.timestamp
    then false
    else elim prev_timestamp [ none ↦ true | some prev ↦ not (leb h.timestamp prev) ]
