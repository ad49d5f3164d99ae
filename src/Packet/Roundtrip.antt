-- ===== src/Packet/Roundtrip.antt =====
-- Encoding and decoding a share packet are inverse to one another.
use accum_core.Base.{ℕ, ◌≡◌, ◌≢◌, ◌∙◌, List, ◌++◌, ok, err, arith, length, length-append}
use accum_core.Bytes.{to_le_bytes, length-to_le_bytes, from_le_bytes-to_le_bytes}
use accum_core.Header.{to_bytes, slice}
use accum_core.Header.Roundtrip.{
  slice_after, slice_here, slice_all, to_bytes-IsBytes, deserialize-to_bytes,
}
use accum_core.Packet.{SharePacket, IsPacket, serialize, decode, invalid_length}

-- The four parts of a packet one after the other, each found again at its offset.
module _ (a b c d : List ℕ) (ha : length a ≡ 20) (hb : length b ≡ 120) (hc : length c ≡ 8)
    (hd : length d ≡ 32) where
  abbrev parts : List ℕ
  parts = a ++ (b ++ (c ++ d))

  at_0 : slice 0 20 parts ≡ a
  at_0 = slice_here 20 a _ ha

  at_20 : slice 20 120 parts ≡ b
  at_20 = slice_after 20 0 120 a _ ha ∙ slice_here 120 b _ hb

  at_140 : slice 140 8 parts ≡ c
  at_140 = slice_after 20 120 8 a _ ha ∙ slice_after 120 0 8 b _ hb ∙ slice_here 8 c _ hc

  at_148 : slice 148 32 parts ≡ d
  at_148 =
      slice_after 20 128 32 a _ ha
      ∙ slice_after 120 8 32 b _ hb
      ∙ slice_after 8 0 32 c _ hc
      ∙ slice_all 32 d hd

  size : length parts ≡ 180
  size =
      let l3 = length-append a (b ++ (c ++ d)) in
      let l2 = length-append b (c ++ d) in omega (arith, l3, l2, length-append c d)

-- A packet whose fields fit their types is decoded from its bytes as it was.
decode-serialize : (p : SharePacket) → IsPacket p → decode (serialize p) ≡ ok p
unfolding decode serialize
decode-serialize p v =
    let nonce = to_le_bytes 8 p.nonce in
    let ln = length-to_le_bytes 8 p.nonce in
    let lb = (to_bytes-IsBytes p.header v.header_fits).size in
    rw (
      size p.miner_id (to_bytes p.header) nonce p.hash v.miner_id_20.size lb ln v.hash_32.size,
      at_0 p.miner_id (to_bytes p.header) nonce p.hash v.miner_id_20.size lb ln v.hash_32.size,
      at_20 p.miner_id (to_bytes p.header) nonce p.hash v.miner_id_20.size lb ln v.hash_32.size,
      at_140 p.miner_id (to_bytes p.header) nonce p.hash v.miner_id_20.size lb ln v.hash_32.size,
      at_148 p.miner_id (to_bytes p.header) nonce p.hash v.miner_id_20.size lb ln v.hash_32.size,
      deserialize-to_bytes p.header v.header_fits,
      from_le_bytes-to_le_bytes 8 p.nonce v.nonce_u64,
    )

-- Every array of another length is refused.
decode_refuses : (xs : List ℕ) → length xs ≢ 180 → decode xs ≡ err invalid_length
unfolding decode
decode_refuses xs ne = ground arith
