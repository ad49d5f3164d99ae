-- ===== src/Node/Genesis.antt =====
-- Two parts of accum-node/src/main.rs that disagree on the first block: `mine_block` builds it on the
-- hash of the genesis block, `verify_and_accept_blocks` expects 32 zeros.
use accum_core.Base.{
  ℕ, ◌≡◌, ◌≢◌, refl, sym, ◌∙◌, inl, inr, false, Option, some, List, ◌∷◌, err, eq_bytes,
  eq_of_eq_bytes, Bool-cases,
}
use accum_core.Crypto.{Crypto}
use accum_core.Merkle.{zero_hash}
use accum_core.Node.{Node, hash_or_zero, init_genesis, genesis_header}
use accum_core.Node.Mine.{mine_block}
use accum_core.Node.Mine.Received.{mine_block-IsMined}
use accum_core.Pow.{header_hash}
use accum_core.Sync.{Block, new_manager, invalid_prev_hash}
use accum_core.Sync.Accept.{
  ChainDb, verify_and_accept_blocks, accept_blocks, accept_block, check_block, expected_prev,
}
use accum_core.Target.{Target}
use accum_core.Tx.{Transaction}
use accum_core.Tx.Spend.{Wallet}

module _ (c : Crypto) (db : ChainDb) where
  open db use {utxo}

  refused_at_one :
      (now : ℕ) (t : utxo.Store) (block : Block) (rest : List Block)
      → eq_bytes block.header.prev_hash zero_hash ≡ false
      → verify_and_accept_blocks c db now (new_manager, t) (block ∷ rest)
        ≡ ((new_manager, t), err invalid_prev_hash)
  unfolding verify_and_accept_blocks accept_blocks accept_block check_block expected_prev
  refused_at_one now t block rest other = rw other refl

  -- The first block that a new node mines is refused by `verify_and_accept_blocks` of every
  -- synchronisation that starts without blocks, whatever follows it: it names the hash of the genesis
  -- block, which, unless that hash is all zeros, is not the hash expected at height 1.
  pub mine_block-refused :
      (decode_base58 : List ℕ → Option (List ℕ)) (size : Transaction → ℕ) (rounds now : ℕ)
      (difficulty : Target) (wallet : Option Wallet) (n' : Node) (s s' : utxo.Store) (block : Block)
      (later : ℕ) (t : utxo.Store) (rest : List Block)
      → header_hash c (genesis_header c) ≢ zero_hash
      → mine_block c db decode_base58 size rounds now difficulty wallet (init_genesis c, s)
        ≡ some ((n', s'), block)
      → verify_and_accept_blocks c db later (new_manager, t) (block ∷ rest)
        ≡ ((new_manager, t), err invalid_prev_hash)
  unfolding hash_or_zero
  mine_block-refused decode_base58 size rounds now difficulty wallet n' s s' block later t rest
        nonzero h =
      let m =
        mine_block-IsMined c db decode_base58 size rounds now difficulty wallet (init_genesis c) n'
          s s' block h in
      elim (Bool-cases (eq_bytes block.header.prev_hash zero_hash)) [
        | inl same ↦
            absurd (nonzero (sym m.on_tip ∙ eq_of_eq_bytes block.header.prev_hash zero_hash same))
        | inr other ↦ refused_at_one later t block rest other
      ]
