-- ===== src/Utxo.antt =====
-- The column family of unspent outputs that accum-node/src/main.rs keeps in RocksDB: the calls
-- `get_utxo`, `save_utxo` and `delete_utxo` as an interface, whose laws are those of a key-value
-- store that may fail, and `SyncManager::update_utxo_set` over it.
pub mod Update
use accum_core.Base.{
  ℕ, ◌+◌, ◌%◌, ◌^◌, ◌≡◌, Bool, true, false, Option, none, some, List, [], ◌∷◌, Result, ok, err,
  ◌>>=◌, if◌then◌else◌,
}
use accum_core.Target.{Hash32}
use accum_core.Tx.{OutPoint, eq_outpoint, TxOut, TxIn, Transaction, is_coinbase_input, outpoint}

-- What RocksDB or bincode reports.
pub data DbError : Type 0 where
  db_error : DbError

pub record UtxoDb : Type 1 where
  pub Store : Type 0
  pub get_utxo : Store → OutPoint → Result DbError (Option TxOut)
  pub save_utxo : Store → OutPoint → TxOut → Result DbError Store
  pub delete_utxo : Store → OutPoint → Result DbError Store
  -- A read sees the last write of its key, and no other.
  pub get-save :
      (s t : Store) (p q : OutPoint) (o : TxOut)
      → save_utxo s p o ≡ ok t
      → get_utxo t q ≡ (if eq_outpoint p q then ok (some o) else get_utxo s q)
  pub get-delete :
      (s t : Store) (p q : OutPoint)
      → delete_utxo s p ≡ ok t
      → get_utxo t q ≡ (if eq_outpoint p q then ok none else get_utxo s q)

module _ (db : UtxoDb) where
  open db use {Store, save_utxo, delete_utxo}

  -- `for (i, output) in tx.outputs.iter().enumerate()`: `i as u32` is the index.
  unfoldable pub save_outputs : Store → Hash32 → ℕ → List TxOut → Result DbError Store
  save_outputs s txid i [] = ok s
  save_outputs s txid i (o ∷ rest) = do
    s' ← save_utxo s (txid, i % 2 ^ 32) o
    save_outputs s' txid (i + 1) rest

  -- `for input in &tx.inputs`
  unfoldable pub delete_inputs : Store → List TxIn → Result DbError Store
  delete_inputs s [] = ok s
  delete_inputs s (input ∷ rest) = do
    s' ← (if is_coinbase_input input then ok s else delete_utxo s (outpoint input))
    delete_inputs s' rest

  -- One round of the loop over the transactions of a block.
  unfoldable pub apply_tx : (Transaction → Hash32) → Store → Transaction → Result DbError Store
  unfolding save_outputs delete_inputs
  apply_tx txid s tx = do s' ← save_outputs s (txid tx) 0 tx.outputs; delete_inputs s' tx.inputs

  -- `SyncManager::update_utxo_set`, on the transactions of the block.
  unfoldable pub update_utxo_set :
      (Transaction → Hash32) → Store → List Transaction → Result DbError Store
  unfolding apply_tx
  update_utxo_set txid s [] = ok s
  update_utxo_set txid s (tx ∷ rest) = do s' ← apply_tx txid s tx; update_utxo_set txid s' rest

  -- What these loops leave in the store, which stop at the first write that fails.
  outputs_left : Store → Hash32 → ℕ → List TxOut → Store
  outputs_left s txid i [] = s
  outputs_left s txid i (o ∷ rest) = elim (save_utxo s (txid, i % 2 ^ 32) o) [
    | err e ↦ s
    | ok s' ↦ outputs_left s' txid (i + 1) rest
  ]

  inputs_left : Store → List TxIn → Store
  inputs_left s [] = s
  inputs_left s (input ∷ rest) =
      elim (if is_coinbase_input input then ok s else delete_utxo s (outpoint input)) [
        | err e ↦ s
        | ok s' ↦ inputs_left s' rest
      ]

  tx_left : (Transaction → Hash32) → Store → Transaction → Store
  unfolding save_outputs outputs_left inputs_left
  tx_left txid s tx = elim (save_outputs s (txid tx) 0 tx.outputs) [
    | err e ↦ outputs_left s (txid tx) 0 tx.outputs
    | ok s' ↦ inputs_left s' tx.inputs
  ]

  pub block_left : (Transaction → Hash32) → Store → List Transaction → Store
  unfolding apply_tx tx_left
  block_left txid s [] = s
  block_left txid s (tx ∷ rest) = elim (apply_tx txid s tx) [
    | err e ↦ tx_left txid s tx
    | ok s' ↦ block_left txid s' rest
  ]
