-- ===== src/Packet/Accept.antt =====
-- `SharePacket::validate` of accum-node/src/share.rs, with the hash functions of
-- accum-node/src/crypto.rs that it calls.
use mathlib.Core.Path.{subst}
use accum_core.Base.{
  ℕ, ◌/◌, ◌≤◌, ◌≡◌, sym, not, not-false, List, [], ◌∷◌, ◌++◌, Result, ok, ◌>>◌, >>=-eq-ok,
  reject_if, reject_if-eq-ok, ◌==◌, eq_bytes, eq_of_eq_bytes, length, Bool,
}
use accum_core.Bytes.{IsBytes, to_le_bytes, from_be_bytes}
use accum_core.Crypto.{Crypto, miner_id_from_pubkey}
use accum_core.Header.{BlockHeader, to_bytes, with_nonce}
use accum_core.Packet.{
  SharePacket, ShareError, stale_prev_hash, invalid_miner_id, invalid_header_length,
  prefilter_rejected, invalid_hash, target_not_met,
}
use accum_core.Target.{Target, Hash32, is_met_by}
use accum_core.Target.Order.{is_met_by_iff}
use accum_core.Types.{shift_left}
use accum_core.Types.Shift.{shift_left_divides, shift_left_byte-IsBytes}

-- `b"accum_salt"`
abbrev pub accum_salt : List ℕ
accum_salt = 0x61 ∷ 0x63 ∷ 0x63 ∷ 0x75 ∷ 0x6d ∷ 0x5f ∷ 0x73 ∷ 0x61 ∷ 0x6c ∷ 0x74 ∷ []

-- `hash_below_target`: the loop of `Target::is_met_by`.
abbrev pub hash_below_target : Hash32 → Hash32 → Bool
hash_below_target hash target = is_met_by (record { bytes = target }) hash

module _ (c : Crypto) where
  -- `argon2id_hash`
  abbrev pub argon2id_hash : List ℕ → Hash32
  argon2id_hash data_bytes = c.argon2id data_bytes accum_salt

  -- `BlockHeader::hash` of accum-node/src/block.rs
  abbrev pub block_hash : BlockHeader → Hash32
  block_hash h = argon2id_hash (to_bytes h)

  -- `SharePacket::new`
  abbrev pub new_packet : List ℕ → BlockHeader → ℕ → SharePacket
  new_packet miner_id header nonce = record {
    miner_id = miner_id;
    header = header;
    nonce = nonce;
    hash = block_hash (with_nonce header nonce);
  }

  -- `SharePacket::share_hash`: the hash of the packet's bytes.
  abbrev pub share_hash : SharePacket → Hash32
  share_hash p = c.sha256 (p.miner_id ++ (to_bytes p.header ++ (to_le_bytes 8 p.nonce ++ p.hash)))

  -- `SharePacket::validate`
  unfoldable pub validate : SharePacket → Target → Hash32 → List ℕ → Result ShareError (Unit {0})
  validate p target_block current_prev_hash pubkey =
      let target_share = shift_left target_block 8 in
      let header_bytes = to_bytes p.header in
      do
        reject_if (not (eq_bytes p.header.prev_hash current_prev_hash)) stale_prev_hash
        reject_if (not (eq_bytes p.miner_id (miner_id_from_pubkey c pubkey))) invalid_miner_id
        reject_if (not (length header_bytes == 120)) invalid_header_length
        reject_if
            (not (
              hash_below_target (c.sha256 (header_bytes ++ to_le_bytes 8 p.nonce))
                target_share.bytes))
            prefilter_rejected
        reject_if (not (eq_bytes (block_hash (with_nonce p.header p.nonce)) p.hash)) invalid_hash
        reject_if (not (hash_below_target p.hash target_share.bytes)) target_not_met

  -- What a packet that is accepted has.
  pub record IsShare (p : SharePacket) (target : Target) (prev : Hash32) (pubkey : List ℕ)
      : Type 0 where
    pub on_tip : p.header.prev_hash ≡ prev
    own_key : p.miner_id ≡ miner_id_from_pubkey c pubkey
    pub own_hash : p.hash ≡ block_hash (with_nonce p.header p.nonce)
    pub has_work : from_be_bytes p.hash ≤ from_be_bytes target.bytes / 256

  -- A packet with a 32-byte hash that `validate` accepts for a 32-byte target is on the tip, of the
  -- key's miner, carries the hash of its header with its nonce, and that hash, read as a number, is
  -- at most a 256th of the target of a block.
  pub validate-IsShare :
      (p : SharePacket) (target : Target) (prev : Hash32) (pubkey : List ℕ)
      → IsBytes 32 p.hash
      → IsBytes 32 target.bytes
      → validate p target prev pubkey ≡ ok tt
      → IsShare p target prev pubkey
  unfolding validate
  validate-IsShare p target prev pubkey hp ht h =
      let share = shift_left target 8 in
      let (_, e1, h1) = >>=-eq-ok (reject_if (not (eq_bytes p.header.prev_hash prev)) _) _ h in
      let (_, e2, h2) =
        >>=-eq-ok (reject_if (not (eq_bytes p.miner_id (miner_id_from_pubkey c pubkey))) _) _ h1 in
      let (_, e3, h3) = >>=-eq-ok (reject_if (not (length (to_bytes p.header) == 120)) _) _ h2 in
      let (_, e4, h4) =
        >>=-eq-ok
          (reject_if
            (not (
              hash_below_target (c.sha256 (to_bytes p.header ++ to_le_bytes 8 p.nonce))
                share.bytes))
            _)
          _ h3 in
      let (_, e5, h5) =
        >>=-eq-ok (reject_if (not (eq_bytes (block_hash (with_nonce p.header p.nonce)) p.hash)) _) _
          h4 in
      record {
        on_tip = eq_of_eq_bytes _ _ (not-false _ (reject_if-eq-ok _ _ e1));
        own_key = eq_of_eq_bytes _ _ (not-false _ (reject_if-eq-ok _ _ e2));
        own_hash = sym (eq_of_eq_bytes _ _ (not-false _ (reject_if-eq-ok _ _ e5)));
        has_work =
            subst (λ x. from_be_bytes p.hash ≤ x) (shift_left_divides target ht)
              ((is_met_by_iff share p.hash (shift_left_byte-IsBytes target ht) hp).0
                (not-false _ (reject_if-eq-ok _ _ h5)));
      }
