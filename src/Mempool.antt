-- ===== src/Mempool.antt =====
-- The transactions that wait to be mined: `Node::add_transaction_to_mempool` and
-- `sort_mempool_by_fee` of accum-node/src/main.rs.
pub mod Sorted
pub mod Apart
use accum_core.Base.{
  ℕ, Bool, true, false, not, ◌&&◌, ◌||◌, Option, none, some, List, [], ◌∷◌, ◌++◌, Result, ok, err,
  ◌>>=◌, ◌>>◌, reject_if, leb, if◌then◌else◌, eq_bytes, take, drop,
}
use accum_core.Base.Dict.{mem, include, exclude}
use accum_core.Crypto.{Crypto}
use accum_core.Target.{Hash32}
use accum_core.Tx.{OutPoint, TxIn, Transaction, is_coinbase_input, outpoint}
use accum_core.Tx.Encode.{txid}
use accum_core.Tx.Validate.{TxError, contains, validate_basic, validate}
use accum_core.Tx.Validate.Fee.{fee}
use accum_core.Utxo.{UtxoDb}

-- The fields of `Node` that this is about.
pub record Mempool : Type 0 where
  pub mempool : List Transaction
  pub processed_txids : List Hash32

pub data MempoolError : Type 0 where
  invalid : TxError → MempoolError
  already_processed : MempoolError
  already_in_mempool : MempoolError
  input_already_used : MempoolError

-- `map_err`
abbrev pub checked {ℓ} : {A : Type ℓ} → Result TxError A → Result MempoolError A
checked (err e) = err (invalid e)
checked (ok a) = ok a

-- The outpoints of the inputs that are not the coinbase input.
pub plain_outpoints : List TxIn → List OutPoint
plain_outpoints [] = []
plain_outpoints (i ∷ rest) =
    let others = plain_outpoints rest in if is_coinbase_input i then others else outpoint i ∷ others

-- `used_inputs`
pub used_inputs : List Transaction → List OutPoint
unfolding plain_outpoints
used_inputs [] = []
used_inputs (tx ∷ rest) = plain_outpoints tx.inputs ++ used_inputs rest

-- Whether some input is in the list.
pub any_used : List OutPoint → List TxIn → Bool
unfolding contains
any_used used [] = false
any_used used (i ∷ rest) =
    (not (is_coinbase_input i) && contains (outpoint i) used) || any_used used rest

module _ (c : Crypto) where
  pub has_txid : Hash32 → List Transaction → Bool
  has_txid id [] = false
  has_txid id (tx ∷ rest) = eq_bytes (txid c tx) id || has_txid id rest

  -- The removals from `processed_txids`, the last transaction's first.
  forget : List Transaction → List Hash32 → List Hash32
  forget [] processed = processed
  forget (tx ∷ rest) processed = exclude (txid c tx) (forget rest processed)

  -- `while self.mempool.len() > max_mempool_size`
  pub trim : ℕ → Mempool → Mempool
  unfolding forget
  trim max_size m = record {
    mempool = take max_size m.mempool;
    processed_txids = forget (drop max_size m.mempool) m.processed_txids;
  }

  module _ (db : UtxoDb) where
    open db use {Store}

    -- `a.fee(&self.storage).unwrap_or(0)`
    abbrev or_zero : Result TxError ℕ → ℕ
    or_zero (err e) = 0
    or_zero (ok n) = n

    abbrev pub fee_or_zero : Store → Transaction → ℕ
    fee_or_zero s tx = or_zero (fee db s tx)

    pub insert_by_fee : Store → Transaction → List Transaction → List Transaction
    insert_by_fee s tx [] = tx ∷ []
    insert_by_fee s tx (x ∷ xs) =
        let rest = insert_by_fee s tx xs in
        if leb (fee_or_zero s x) (fee_or_zero s tx) then tx ∷ x ∷ xs else x ∷ rest

    -- `Node::sort_mempool_by_fee`: a stable sort, the highest fee first.
    pub sort_by_fee : Store → List Transaction → List Transaction
    unfolding insert_by_fee
    sort_by_fee s [] = []
    sort_by_fee s (tx ∷ rest) = insert_by_fee s tx (sort_by_fee s rest)

    -- `Node::add_transaction_to_mempool`. An error leaves the mempool as it is; whether the copy in
    -- the database is written is not looked at, here as in the code.
    unfoldable pub add_transaction_to_mempool :
        ℕ → Store → Mempool → Transaction → Result MempoolError Mempool
    unfolding has_txid any_used used_inputs trim sort_by_fee
    add_transaction_to_mempool max_size s m tx = do
      checked (validate_basic tx)
      _ ← checked (validate c db s tx)
      reject_if (mem (txid c tx) m.processed_txids) already_processed
      reject_if (has_txid (txid c tx) m.mempool) already_in_mempool
      reject_if (any_used (used_inputs m.mempool) tx.inputs) input_already_used
      ok (
          trim max_size (record {
            mempool = sort_by_fee s (m.mempool ++ (tx ∷ []));
            processed_txids = include (txid c tx) m.processed_txids;
          }))
