-- ===== src/Node/Mine/Received.antt =====
-- Mining and receiving in accum-node/src/main.rs agree: what one node mines another accepts.
use accum_core.Base.{
  ℕ, ◌+◌, ◌≡◌, refl, inl, inr, true, Option, none, some, List, [], ◌∷◌, ◌++◌, ok, eq_bytes,
  eq_bytes_refl, Bool-cases, replicate, and_true,
}
use accum_core.Crypto.{Crypto}
use accum_core.Header.{BlockHeader, with_nonce, to_bytes}
use accum_core.Node.{
  Node, last_block, hash_or_zero, last_hash, plain_txids, accepted_node, apply_block, accept_saved,
  receive_block,
}
use accum_core.Node.Mine.{
  template, adopt, conclude, mine_with, mine_block, has_duplicate, too_early, reward_outputs,
  coinbase, pack, search,
}
use accum_core.Node.Mine.Search.{search-IsFirst}
use accum_core.Pow.{header_hash, hash_with_nonce}
use accum_core.Share.{prefilter}
use accum_core.Sync.{Block}
use accum_core.Sync.Accept.{ChainDb}
use accum_core.Target.{Target, is_met_by, prefilter_target}
use accum_core.Tx.{Transaction, TxOut}
use accum_core.Tx.Spend.{Wallet}

last_block-append : (hs : List BlockHeader) (k : BlockHeader) → last_block (hs ++ (k ∷ [])) ≡ some k
last_block-append [] k = refl
last_block-append (h ∷ []) k = refl
last_block-append (h ∷ g ∷ rest) k = last_block-append (g ∷ rest) k

module _ (c : Crypto) (db : ChainDb) where
  open db use {utxo, save_block}

  -- What a node has mined on its tip.
  pub record IsMined (n n' : Node) (block : Block) : Type 0 where
    pub on_tip : block.header.prev_hash ≡ last_hash c n
    pub has_work : is_met_by block.header.difficulty (header_hash c block.header) ≡ true
    new_tip : last_block n'.blocks ≡ some block.header

  abbrev OnMined : Node → Option ((Node × utxo.Store) × Block) → Type 0
  OnMined n none = Unit
  OnMined n (some ((n', s'), block)) = IsMined n n' block

  conclude-OnMined :
      (wallet : Option Wallet) (n : Node) (s : utxo.Store) (header : BlockHeader)
      (txs : List Transaction) (found : Option ℕ)
      → header.prev_hash ≡ last_hash c n
      → ((nonce : ℕ)
          → found ≡ some nonce
          → is_met_by header.difficulty (hash_with_nonce c header nonce) ≡ true)
      → OnMined n (conclude c db wallet (n, s) header txs found)
  unfolding conclude adopt
  conclude-OnMined wallet n s header txs none prev work = tt
  conclude-OnMined wallet n s header txs (some nonce) prev work =
      let mined = with_nonce header nonce in
      elim (Bool-cases (has_duplicate (plain_txids c txs))) [
        | inl twice ↦ rw (conclude, adopt, twice) tt
        | inr once ↦
            rw (conclude, adopt, once)
              (record {
                on_tip = prev;
                has_work = work nonce refl;
                new_tip = last_block-append n.blocks mined;
              })
      ]

  mine_with-OnMined :
      (size : Transaction → ℕ) (rounds now : ℕ) (difficulty : Target) (wallet : Option Wallet)
      (n : Node) (s : utxo.Store) (outputs : List TxOut)
      → OnMined n (mine_with c db size rounds now difficulty wallet (n, s) outputs)
  unfolding mine_with template
  mine_with-OnMined size rounds now difficulty wallet n s [] = tt
  mine_with-OnMined size rounds now difficulty wallet n s (o ∷ others) =
      let reward = coinbase (o ∷ others) (n.height + 1) in
      let txs = reward ∷ pack size (size reward) n.mempool in
      let header = template c now difficulty n txs in
      conclude-OnMined wallet n s header txs
        (search c header difficulty rounds 0 (0, replicate 32 0xff)).1 refl
        (λ nonce found.
          let first =
            (search-IsFirst c header difficulty rounds 0 (0, replicate 32 0xff) nonce).0 found in
          (and_true (prefilter c (to_bytes header) nonce (prefilter_target difficulty))
            (is_met_by difficulty (hash_with_nonce c header nonce)) first.solved).1)

  pub mine_block-IsMined :
      (decode_base58 : List ℕ → Option (List ℕ)) (size : Transaction → ℕ) (rounds now : ℕ)
      (difficulty : Target) (wallet : Option Wallet) (n n' : Node) (s s' : utxo.Store)
      (block : Block)
      → mine_block c db decode_base58 size rounds now difficulty wallet (n, s)
        ≡ some ((n', s'), block)
      → IsMined n n' block
  unfolding mine_block
  mine_block-IsMined decode_base58 size rounds now difficulty wallet n n' s s' block h =
      elim (Bool-cases (too_early now (last_block n.blocks))) [
        | inl early ↦ absurd (cc (rw (mine_block, early) at h))
        | inr late ↦ rw (rw (mine_block, late) at h) at (
            mine_with-OnMined size rounds now difficulty wallet n s
              (reward_outputs decode_base58 wallet))
      ]

  -- A node has the header as its tip.
  pub record IsAccepted (o : Node) (t : utxo.Store) (block : Block) (tip : Node) : Type 0 where
    pub node : Node
    pub store : utxo.Store
    pub accepted : receive_block c db (o, t) block.header block.transactions ≡ some (node, store)
    same_tip : last_hash c node ≡ last_hash c tip

  received :
      (o : Node) (t u : utxo.Store) (tip : Node) (block : Block)
      → eq_bytes block.header.prev_hash (last_hash c o) ≡ true
      → is_met_by block.header.difficulty (header_hash c block.header) ≡ true
      → last_block tip.blocks ≡ some block.header
      → save_block t (o.height + 1) (record block { signature = none; pubkey = none }) ≡ ok u
      → IsAccepted o t block tip
  unfolding receive_block accept_saved accepted_node hash_or_zero
  received o t u tip block prev work new_tip saved = record {
    node = accepted_node c o block.header block.transactions;
    store = apply_block c db u block.transactions;
    accepted = rw (receive_block, prev, work, saved) refl;
    same_tip = rw (last_block-append o.blocks block.header, new_tip) refl;
  }

  -- A block that a node mines is accepted, when it arrives in a `Block` message, by every node with
  -- the same tip whose database saves it, and then the two have the same tip again.
  pub mine_block-IsAccepted :
      (decode_base58 : List ℕ → Option (List ℕ)) (size : Transaction → ℕ) (rounds now : ℕ)
      (difficulty : Target) (wallet : Option Wallet) (n n' : Node) (s s' : utxo.Store)
      (block : Block) (o : Node) (t u : utxo.Store)
      → mine_block c db decode_base58 size rounds now difficulty wallet (n, s)
        ≡ some ((n', s'), block)
      → last_hash c o ≡ last_hash c n
      → save_block t (o.height + 1) (record block { signature = none; pubkey = none }) ≡ ok u
      → IsAccepted o t block n'
  mine_block-IsAccepted decode_base58 size rounds now difficulty wallet n n' s s' block o t u h tip
        saved =
      let m =
        mine_block-IsMined decode_base58 size rounds now difficulty wallet n n' s s' block h in
      received o t u n' block (rw (m.on_tip, tip) (eq_bytes_refl (last_hash c n))) m.has_work
        m.new_tip saved
