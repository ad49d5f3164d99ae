-- ===== src/Sync/Accept.antt =====
-- `SyncManager::verify_and_accept_blocks` of accum-node/src/main.rs, over the store of blocks and
-- unspent outputs, and the handler of the message `Blocks` that calls it.
pub mod Linked
pub mod Chain
pub mod Handler
pub mod Prefix
use accum_core.Base.{
  ℕ, ◌+◌, ◌-◌, ◌≡◌, Bool, true, false, not, Option, none, some, List, [], ◌∷◌, Result, ok, err,
  ◌>>=◌, ◌>>◌, reject_if, ltb, ◌==◌, if◌then◌else◌, length, eq_bytes, map,
}
use accum_core.Crypto.{Crypto, verify_signature}
use accum_core.Header.{BlockHeader, validate_timestamp}
use accum_core.Merkle.{zero_hash, compute_merkle_root}
use accum_core.Pow.{header_hash}
use accum_core.Sync.{
  Block, SyncManager, SyncError, db_failed, previous_block_not_found, invalid_prev_hash,
  difficulty_not_met, invalid_timestamp, invalid_merkle_root, invalid_signature, push_header,
  current_height, on_blocks_received,
}
use accum_core.Target.{Hash32, is_met_by}
use accum_core.Tx.{OutPoint, TxOut}
use accum_core.Tx.Encode.{txid}
use accum_core.Utxo.{UtxoDb, DbError, update_utxo_set, block_left}

-- `ProductionStorage`: the column family of blocks beside that of the unspent outputs. Neither
-- write touches the other's keys.
pub record ChainDb : Type 1 where
  pub utxo : UtxoDb
  pub get_block : utxo.Store → ℕ → Result DbError (Option Block)
  pub save_block : utxo.Store → ℕ → Block → Result DbError utxo.Store
  pub get_block-save_block :
      (s t : utxo.Store) (h k : ℕ) (b : Block)
      → save_block s h b ≡ ok t
      → get_block t k ≡ (if h == k then ok (some b) else get_block s k)
  pub get_block-save_utxo :
      (s t : utxo.Store) (k : ℕ) (p : OutPoint) (o : TxOut)
      → utxo.save_utxo s p o ≡ ok t
      → get_block t k ≡ get_block s k
  pub get_block-delete_utxo :
      (s t : utxo.Store) (k : ℕ) (p : OutPoint)
      → utxo.delete_utxo s p ≡ ok t
      → get_block t k ≡ get_block s k
  pub get_utxo-save_block :
      (s t : utxo.Store) (h : ℕ) (p : OutPoint) (b : Block)
      → save_block s h b ≡ ok t
      → utxo.get_utxo t p ≡ utxo.get_utxo s p

-- `.get_block(…)?.ok_or("Previous block not found")?`
abbrev pub found_block : Result DbError (Option Block) → Result SyncError Block
found_block (err e) = err db_failed
found_block (ok none) = err previous_block_not_found
found_block (ok (some b)) = ok b

-- `?` on a write
abbrev pub written {ℓ} : {S : Type ℓ} → Result DbError S → Result SyncError S
written (err e) = err db_failed
written (ok s) = ok s

-- An absent root is the panic of `hashes[0]`, which the nonempty list rules out.
abbrev pub root_is : Hash32 → Option Hash32 → Bool
root_is claimed none = false
root_is claimed (some root) = eq_bytes claimed root

abbrev pub signed_by : Crypto → Hash32 → Option (List ℕ) → Option (List ℕ) → Bool
signed_by c hash none _ = true
signed_by c hash (some sig) none = true
signed_by c hash (some sig) (some pubkey) = verify_signature c pubkey sig hash

-- What a round of the loop leads to: the next state, or the error and what the round leaves behind.
abbrev pub resume {ℓ κ} :
    {S : Type ℓ} {A : Type κ}
    → S
    → Result SyncError S
    → (S → S × Result SyncError A)
    → S × Result SyncError A
resume s (err e) k = (s, err e)
resume s (ok s') k = k s'

module _ (c : Crypto) (db : ChainDb) (now : ℕ) where
  open db use {utxo, get_block, save_block}

  -- The hash that the block at this height must name.
  unfoldable pub expected_prev : utxo.Store → ℕ → Result SyncError Hash32
  expected_prev s height =
      if height == 1
      then ok zero_hash
      else (do prev ← found_block (get_block s (height - 1)); ok (header_hash c prev.header))

  pub prev_timestamp : utxo.Store → ℕ → Result SyncError (Option ℕ)
  prev_timestamp s height =
      if ltb 1 height
      then (do prev ← found_block (get_block s (height - 1)); ok (some prev.header.timestamp))
      else ok none

  -- The checks of one round, in their order.
  unfoldable pub check_block : utxo.Store → ℕ → Block → Result SyncError (Unit {0})
  unfolding expected_prev prev_timestamp
  check_block s height b = do
    expected ← expected_prev s height
    reject_if (not (eq_bytes b.header.prev_hash expected)) invalid_prev_hash
    reject_if (not (is_met_by b.header.difficulty (header_hash c b.header))) difficulty_not_met
    prev ← prev_timestamp s height
    reject_if (not (validate_timestamp now b.header prev)) invalid_timestamp
    reject_if
        (not (
          root_is b.header.merkle_root
            (compute_merkle_root c.sha256 (map (txid c) b.transactions))))
        invalid_merkle_root
    reject_if (not (signed_by c (header_hash c b.header) b.signature b.pubkey)) invalid_signature

  -- One round: `height` is `expected_height`.
  unfoldable pub accept_block :
      ℕ → SyncManager × utxo.Store → Block → Result SyncError (SyncManager × utxo.Store)
  unfolding check_block
  accept_block height (m, s) b = do
    check_block s height b
    s1 ← written (save_block s height b)
    s2 ← written (update_utxo_set utxo (txid c) s1 b.transactions)
    ok (push_header c m b.header height, s2)

  -- What a failing round leaves in the store: the writes that it has made, which nothing undoes.
  written_left : utxo.Store → Block → Result DbError utxo.Store → utxo.Store
  written_left s b (err e) = s
  written_left s b (ok s1) = block_left utxo (txid c) s1 b.transactions

  pub checked_left : ℕ → utxo.Store → Block → Result SyncError (Unit {0}) → utxo.Store
  unfolding written_left
  checked_left height s b (err e) = s
  checked_left height s b (ok u) = written_left s b (save_block s height b)

  pub left_behind : ℕ → SyncManager × utxo.Store → Block → SyncManager × utxo.Store
  unfolding checked_left check_block
  left_behind height (m, s) b = (m, checked_left height s b (check_block s height b))

  -- The loop, after `height` blocks. A height counts the headers of a vector in memory, and does not
  -- reach 64 bits.
  unfoldable pub accept_blocks :
      ℕ → SyncManager × utxo.Store → List Block → (SyncManager × utxo.Store) × Result SyncError ℕ
  unfolding accept_block left_behind
  accept_blocks height st [] = (st, ok height)
  accept_blocks height st (b ∷ rest) =
      resume (left_behind (height + 1) st b) (accept_block (height + 1) st b)
        (λ st'. accept_blocks (height + 1) st' rest)

  -- `SyncManager::verify_and_accept_blocks`
  unfoldable pub verify_and_accept_blocks :
      SyncManager × utxo.Store → List Block → (SyncManager × utxo.Store) × Result SyncError ℕ
  unfolding accept_blocks
  verify_and_accept_blocks (m, s) blocks = accept_blocks (current_height m) (m, s) blocks
