-- ===== src/Node.antt =====
-- The chain that `Node` of accum-node/src/main.rs keeps: its genesis, the handler of
-- `P2PMessage::Block`, and `Node::update_utxo_set`. Mining is in Node/Mine.
pub mod Mine
pub mod Linked
pub mod Chained
pub mod Median
pub mod Genesis
pub mod Shares
pub mod Epoch
use accum_core.Base.{
  ℕ, ◌+◌, ◌%◌, ◌^◌, Bool, true, false, not, Option, none, some, List, [], ◌∷◌, ◌++◌, Result, ok,
  err, ltb, if◌then◌else◌, eq_bytes, length, replicate,
}
use accum_core.Base.Dict.{Dict, insert, mem, include}
use accum_core.Crypto.{Crypto}
use accum_core.Header.{BlockHeader}
use accum_core.Merkle.{zero_hash}
use accum_core.Pow.{header_hash}
use accum_core.Sync.{Block}
use accum_core.Sync.Accept.{ChainDb}
use accum_core.Target.{Hash32, is_met_by}
use accum_core.Tx.{
  TxOut, TxIn, Transaction, coinbase_input, is_coinbase, is_coinbase_input, outpoint,
}
use accum_core.Tx.Encode.{txid}
use accum_core.Utxo.{UtxoDb, DbError}

-- The fields of `Node` that the chain and the mempool are in.
pub record Node : Type 0 where
  pub height : ℕ
  pub epoch : ℕ
  pub blocks : List BlockHeader
  pub block_hashes : Dict ℕ
  pub timestamps : List ℕ
  pub mempool : List Transaction
  pub processed_txids : List Hash32
  pub blocks_found : ℕ

-- `self.blocks.last()`
abbrev pub last_block : List BlockHeader → Option BlockHeader
last_block [] = none
last_block (h ∷ []) = some h
last_block (h ∷ k ∷ rest) = last_block (k ∷ rest)

-- `const GENESIS_TIMESTAMP`
abbrev genesis_timestamp : ℕ
genesis_timestamp = 1_741_353_600

-- `const GENESIS_OUTPUT_SCRIPT`
abbrev genesis_output_script : List ℕ
genesis_output_script =
    0x76 ∷ 0xa9 ∷ 0x14 ∷ 0x62 ∷ 0xe9 ∷ 0x07 ∷ 0xb1 ∷ 0x5c ∷ 0xbf ∷ 0x27 ∷ 0xd5 ∷ 0x42 ∷ 0x53 ∷ 0x99
    ∷ 0xeb ∷ 0xf6 ∷ 0xf0 ∷ 0xfb ∷ 0x50 ∷ 0xeb ∷ 0xb8 ∷ 0x8f ∷ 0x18 ∷ 0x88 ∷ 0xac ∷ []

-- The transaction of `create_genesis_block`.
abbrev pub genesis_coinbase : Transaction
genesis_coinbase = record {
  version = 1;
  inputs = coinbase_input ∷ [];
  outputs = record { value = 500_000_000; script_pubkey = genesis_output_script } ∷ [];
  locktime = 0;
}

-- The header of `create_genesis_block`, with the Merkle root that `init_genesis` gives it.
abbrev pub genesis_header : Crypto → BlockHeader
genesis_header c = record {
  version = 1;
  prev_hash = zero_hash;
  merkle_root = txid c genesis_coinbase;
  timestamp = genesis_timestamp;
  difficulty = record { bytes = replicate 32 0xff };
  nonce = 0;
  epoch_index = 1;
}

-- The chain after `init_genesis` in a new node.
abbrev pub init_genesis : Crypto → Node
init_genesis c = record {
  height = 0;
  epoch = 1;
  blocks = genesis_header c ∷ [];
  block_hashes = insert (header_hash c (genesis_header c)) 0 [];
  timestamps = genesis_timestamp ∷ [];
  mempool = [];
  processed_txids = [];
  blocks_found = 0;
}

module _ (c : Crypto) where
  hash_or_zero : Option BlockHeader → Hash32
  hash_or_zero none = zero_hash
  hash_or_zero (some h) = header_hash c h

  -- `Node::last_hash`
  abbrev pub last_hash : Node → Hash32
  unfolding hash_or_zero
  last_hash n = hash_or_zero (last_block n.blocks)

  -- The ids of the transactions that are not coinbase transactions.
  unfoldable pub plain_txids : List Transaction → List Hash32
  plain_txids [] = []
  plain_txids (tx ∷ rest) =
      let others = plain_txids rest in if is_coinbase tx then others else txid c tx ∷ others

  -- The insertions into `processed_txids`.
  pub process_txids : List Hash32 → List Hash32 → List Hash32
  process_txids [] processed = processed
  process_txids (id ∷ rest) processed = process_txids rest (include id processed)

  -- `mempool.retain(|tx| !txids_in_block.contains(&txid))`
  retain_others : List Hash32 → List Transaction → List Transaction
  retain_others ids [] = []
  retain_others ids (tx ∷ rest) =
      let others = retain_others ids rest in if mem (txid c tx) ids then others else tx ∷ others

  -- `blocks.push`, `block_hashes.insert`, `timestamps.push`, `height = …`
  abbrev pub push_block : Node → BlockHeader → Hash32 → Node
  push_block n header hash = record n {
    blocks = n.blocks ++ (header ∷ []);
    block_hashes = insert hash (n.height + 1) n.block_hashes;
    timestamps = n.timestamps ++ (header.timestamp ∷ []);
    height = n.height + 1;
  }

  -- The chain and the mempool with a received block.
  pub accepted_node : Node → BlockHeader → List Transaction → Node
  unfolding plain_txids process_txids retain_others
  accepted_node n header txs =
      let ids = plain_txids txs in
      record (push_block n header (header_hash c header)) {
        processed_txids = process_txids ids n.processed_txids;
        mempool = retain_others ids n.mempool;
      }

  module _ (db : ChainDb) where
    open db use {utxo, save_block}

    -- `let _ = self.storage.…`: the error of a write is dropped.
    abbrev pub or_unchanged : utxo.Store → Result DbError utxo.Store → utxo.Store
    or_unchanged s (ok s') = s'
    or_unchanged s (err e) = s

    put_outputs : utxo.Store → Hash32 → ℕ → List TxOut → utxo.Store
    put_outputs s id i [] = s
    put_outputs s id i (o ∷ rest) =
        put_outputs (or_unchanged s (utxo.save_utxo s (id, i % 2 ^ 32) o)) id (i + 1) rest

    take_inputs : utxo.Store → List TxIn → utxo.Store
    take_inputs s [] = s
    take_inputs s (input ∷ rest) =
        take_inputs
          (if is_coinbase_input input
            then s
            else or_unchanged s (utxo.delete_utxo s (outpoint input)))
          rest

    -- `Node::update_utxo_set`
    pub apply_block : utxo.Store → List Transaction → utxo.Store
    unfolding put_outputs take_inputs
    apply_block s [] = s
    apply_block s (tx ∷ rest) =
        apply_block (take_inputs (put_outputs s (txid c tx) 0 tx.outputs) tx.inputs) rest

    -- The node after a block that it has saved.
    pub accept_saved :
        Node
        → BlockHeader
        → List Transaction
        → Result DbError utxo.Store
        → Option (Node × utxo.Store)
    unfolding apply_block
    accept_saved n header txs (err e) = none
    accept_saved n header txs (ok s) = some (accepted_node n header txs, apply_block s txs)

    -- The handler of `P2PMessage::Block` up to the broadcast; `none` where it returns before it has
    -- changed anything. The heights and the ids stand in other column families than the outputs.
    pub receive_block :
        Node × utxo.Store → BlockHeader → List Transaction → Option (Node × utxo.Store)
    unfolding accept_saved
    receive_block (n, s) header txs =
        if not (eq_bytes header.prev_hash (last_hash n))
        then none
        else if not (is_met_by header.difficulty (header_hash c header))
        then none
        else accept_saved n header txs (
            save_block s (n.height + 1)
              (record { header = header; transactions = txs; signature = none; pubkey = none }))
