-- ===== src/Share.antt =====
-- `Share` of accum-node/src/main.rs with `Argon2Cache::prefilter`: what a share is and when it is valid.
pub mod Countable
pub mod Pool
pub mod Aggregate
use accum_core.Base.{
  ℕ, ◌+◌, ◌%◌, ◌^◌, Bool, true, false, not, List, ◌++◌, Result, ok, err, ◌>>=◌, ◌>>◌, reject_if,
  ltb, ◌==◌, eq_bytes, take,
}
use accum_core.Bytes.{to_le_bytes}
use accum_core.Crypto.{Crypto}
use accum_core.Header.{BlockHeader, to_bytes}
use accum_core.Pow.{hash_with_nonce, wrapping_sub}
use accum_core.Target.{Target, Hash32, is_met_by}

pub record Share : Type 0 where
  pub miner_id : List ℕ
  pub header : BlockHeader
  pub nonce : ℕ
  pub hash : Hash32
  pub timestamp : ℕ

-- The messages of `Share::validate`.
pub data ShareRefusal : Type 0 where
  stale_prev_hash : ShareRefusal
  wrong_epoch : ShareRefusal
  too_old : ShareRefusal
  too_far_in_future : ShareRefusal
  prefilter_rejected : ShareRefusal
  hash_mismatch : ShareRefusal
  target_not_met : ShareRefusal

module _ (c : Crypto) where
  -- `Share::share_hash`
  abbrev pub share_hash : Share → Hash32
  share_hash s = c.sha256 (s.miner_id ++ (to_bytes s.header ++ (to_le_bytes 8 s.nonce ++ s.hash)))

  -- `Argon2Cache::prefilter`: SHA-256 of the header and the nonce, by its first eight bytes.
  unfoldable pub prefilter : List ℕ → ℕ → Target → Bool
  prefilter header nonce target =
      is_met_by (record { bytes = take 8 target.bytes })
        (take 8 (c.sha256 (header ++ to_le_bytes 8 nonce)))

  -- `Share::validate`
  unfoldable pub validate : Share → Target → Hash32 → ℕ → ℕ → Result ShareRefusal (Unit {0})
  unfolding prefilter
  validate s target_share expected_prev_hash expected_epoch now = do
    reject_if (not (eq_bytes s.header.prev_hash expected_prev_hash)) stale_prev_hash
    reject_if (not (s.header.epoch_index == expected_epoch)) wrong_epoch
    reject_if (ltb s.timestamp (wrapping_sub now 7200)) too_old
    reject_if (ltb ((now + 7200) % 2 ^ 64) s.timestamp) too_far_in_future
    reject_if (not (prefilter (to_bytes s.header) s.nonce target_share)) prefilter_rejected
    reject_if (not (eq_bytes (hash_with_nonce c s.header s.nonce) s.hash)) hash_mismatch
    reject_if (not (is_met_by target_share s.hash)) target_not_met
