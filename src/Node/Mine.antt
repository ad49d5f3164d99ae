-- ===== src/Node/Mine.antt =====
-- `Node::mine_block` of accum-node/src/main.rs. The difficulty, which is computed with f64, and the
-- size of an encoded transaction are parameters.
pub mod Search
pub mod Received
use accum_core.Base.{
  ℕ, zero, suc, ◌+◌, ◌%◌, ◌^◌, Bool, true, false, not, ◌&&◌, Option, none, some, List, [], ◌∷◌,
  ◌++◌, Result, ok, err, ltb, if◌then◌else◌, eq_bytes, length, replicate, map,
}
use accum_core.Base.Dict.{mem, unwrap_or}
use accum_core.Bytes.{to_le_bytes}
use accum_core.Crypto.{Crypto}
use accum_core.Header.{BlockHeader, to_bytes, with_nonce}
use accum_core.Merkle.{zero_hash, leb_bytes, build_merkle_root}
use accum_core.Node.{
  Node, last_block, last_hash, push_block, or_unchanged, apply_block, plain_txids, process_txids,
}
use accum_core.Pow.{header_hash, hash_with_nonce, wrapping_sub}
use accum_core.Share.{Share, prefilter}
use accum_core.Sync.{Block}
use accum_core.Sync.Accept.{ChainDb}
use accum_core.Target.{Target, Hash32, is_met_by, share_target, prefilter_target}
use accum_core.Tx.{TxOut, Transaction, coinbase_input}
use accum_core.Tx.Encode.{txid}
use accum_core.Tx.Spend.{Wallet, SpendError, pay_to}

-- `const TARGET_BLOCK_TIME`, `const BLOCK_REWARD_LYT` and `const MINING_BATCH_SIZE`
abbrev pub target_block_time : ℕ
target_block_time = 60

abbrev pub block_reward_lyt : ℕ
block_reward_lyt = 500_000

abbrev pub mining_batch_size : ℕ
mining_batch_size = 5_000_000

-- `Transaction::coinbase`
abbrev pub coinbase : List TxOut → ℕ → Transaction
coinbase outputs height = record {
  version = 1;
  inputs = record coinbase_input { script_sig = to_le_bytes 8 height } ∷ [];
  outputs = outputs;
  locktime = 0;
}

-- The loop over the mempool, up to a megabyte.
pub pack : (Transaction → ℕ) → ℕ → List Transaction → List Transaction
pack size total [] = []
pack size total (tx ∷ rest) =
    let more = pack size (total + size tx) rest in
    if ltb 1_000_000 (total + size tx) then [] else tx ∷ more

-- `block_txids`: whether an id comes twice.
unfoldable pub has_duplicate : List Hash32 → Bool
has_duplicate [] = false
has_duplicate (id ∷ rest) = if mem id rest then true else has_duplicate rest

module _ (decode_base58 : List ℕ → Option (List ℕ)) where
  reward_of : Result SpendError TxOut → List TxOut
  reward_of (ok o) = o ∷ []
  reward_of (err e) = []

  -- The output of the block reward, where there is a wallet with a good address.
  pub reward_outputs : Option Wallet → List TxOut
  unfolding reward_of
  reward_outputs none = []
  reward_outputs (some w) = reward_of (pay_to decode_base58 w.address block_reward_lyt)

-- `if now - last.timestamp < TARGET_BLOCK_TIME { return; }`
pub too_early : ℕ → Option BlockHeader → Bool
too_early now none = false
too_early now (some last) = ltb (wrapping_sub now last.timestamp) target_block_time

module _ (c : Crypto) where
  -- `best_nonce` and `best_hash` after the share test of one round.
  better : Target → ℕ × Hash32 → ℕ → Hash32 → ℕ × Hash32
  better target (best_nonce, best_hash) nonce hash =
      if is_met_by target hash && not (leb_bytes best_hash hash)
      then (nonce, hash)
      else (best_nonce, best_hash)

  -- The loop over the nonces, from one on: the nonce of a block, and the best share before it.
  pub search : BlockHeader → Target → ℕ → ℕ → ℕ × Hash32 → (ℕ × Hash32) × Option ℕ
  unfolding better
  search header difficulty zero nonce best = (best, none)
  search header difficulty (suc rounds) nonce best =
      let passes = prefilter c (to_bytes header) nonce (prefilter_target difficulty) in
      let hash = hash_with_nonce c header nonce in
      let best' = if passes then better (share_target difficulty) best nonce hash else best in
      let rest = search header difficulty rounds (nonce + 1) best' in
      if passes && is_met_by difficulty hash then (best, some nonce) else rest

  -- The header that is mined at the time `now`.
  unfoldable pub template : ℕ → Target → Node → List Transaction → BlockHeader
  template now difficulty n txs = record {
    version = 1;
    prev_hash = last_hash c n;
    merkle_root = unwrap_or zero_hash (build_merkle_root c.sha256 (map (txid c) txs));
    timestamp = now;
    difficulty = difficulty;
    nonce = 0;
    epoch_index = n.epoch;
  }

  module _ (db : ChainDb) where
    open db use {utxo, save_block}

    -- The part of `mine_block` behind a found nonce, up to the end of the epoch: `none` where a
    -- transaction is in the block twice. A block is signed where there is a wallet.
    unfoldable pub adopt :
        Option Wallet
        → Node × utxo.Store
        → BlockHeader
        → List Transaction
        → Option ((Node × utxo.Store) × Block)
    adopt wallet (n, s) header txs =
        let hash = header_hash c header in
        let block : Block = record {
          header = header;
          transactions = txs;
          signature = elim wallet [ none ↦ none | some w ↦ w.sign hash ];
          pubkey = elim wallet [ none ↦ none | some w ↦ some w.public_key ];
        } in
        let n1 = push_block c n header hash in
        if has_duplicate (plain_txids c txs)
        then none
        else some (
          (
            record n1 {
              blocks_found = (n.blocks_found + 1) % 2 ^ 64;
              processed_txids = process_txids c (plain_txids c txs) n.processed_txids;
              mempool = [];
            },
            apply_block c db (or_unchanged c db s (save_block s (n.height + 1) block)) txs,
          ),
          block,
        )

    -- What the search has found; a best share, where it is better than nothing, goes to `add_share`.
    unfoldable pub conclude :
        Option Wallet
        → Node × utxo.Store
        → BlockHeader
        → List Transaction
        → Option ℕ
        → Option ((Node × utxo.Store) × Block)
    unfolding adopt
    conclude wallet st header txs none = none
    conclude wallet st header txs (some nonce) = adopt wallet st (with_nonce header nonce) txs

    -- The part of `mine_block` behind the outputs of the coinbase transaction.
    unfoldable pub mine_with :
        (Transaction → ℕ)
        → ℕ
        → ℕ
        → Target
        → Option Wallet
        → Node × utxo.Store
        → List TxOut
        → Option ((Node × utxo.Store) × Block)
    unfolding pack template search conclude
    mine_with size rounds now difficulty wallet (n, s) [] = none
    mine_with size rounds now difficulty wallet (n, s) (o ∷ others) =
        let reward = coinbase (o ∷ others) (n.height + 1) in
        let txs = reward ∷ pack size (size reward) n.mempool in
        let header = template now difficulty n txs in
        conclude wallet (n, s) header txs
          (search header difficulty rounds 0 (0, replicate 32 0xff)).1

    -- `Node::mine_block` at the time `now` with `rounds` nonces, `MINING_BATCH_SIZE` in the code.
    unfoldable pub mine_block :
        (List ℕ → Option (List ℕ))
        → (Transaction → ℕ)
        → ℕ
        → ℕ
        → Target
        → Option Wallet
        → Node × utxo.Store
        → Option ((Node × utxo.Store) × Block)
    unfolding reward_outputs mine_with too_early
    mine_block decode_base58 size rounds now difficulty wallet (n, s) =
        if too_early now (last_block n.blocks)
        then none
        else mine_with size rounds now difficulty wallet (n, s)
            (reward_outputs decode_base58 wallet)
