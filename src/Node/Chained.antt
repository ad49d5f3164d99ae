-- ===== src/Node/Chained.antt =====
-- What the chain in memory of accum-node/src/main.rs satisfies after any number of mined and
-- received blocks.
use accum_core.Base.{
  ℕ, ◌+◌, ◌≡◌, refl, inl, inr, Option, none, some, List, [], ◌∷◌, Result, ok, err, eq_bytes,
  eq_of_eq_bytes, replicate, Bool-cases, Bool, true, false,
}
use accum_core.Crypto.{Crypto}
use accum_core.Header.{BlockHeader, with_nonce}
use accum_core.Node.{
  Node, last_block, last_hash, init_genesis, push_block, plain_txids, accepted_node, accept_saved,
  receive_block,
}
use accum_core.Node.Mine.{
  template, adopt, conclude, mine_with, mine_block, has_duplicate, too_early, reward_outputs,
  coinbase, pack, search,
}
use accum_core.Pow.{header_hash}
use accum_core.Sync.{Block}
use accum_core.Sync.Accept.{ChainDb}
use accum_core.Sync.Accept.Handler.{Handled, handle_blocks, handle_blocks_keeps}
use accum_core.Target.{Target, is_met_by}
use accum_core.Tx.{Transaction, TxOut}
use accum_core.Tx.Spend.{Wallet}
use accum_core.Utxo.{DbError}
use accum_core.Node.Linked.{IsChained, push_block-IsChained, same_chain}

module _ (c : Crypto) where
  module _ (db : ChainDb) where
    open db use {utxo, save_block}

    -- Where an operation has changed the node.
    abbrev OnNode : Bool → Option (Node × utxo.Store) → Type 0
    OnNode synced none = Unit
    OnNode synced (some (n, s)) = IsChained c synced n

    accept_saved-OnNode :
        {synced : Bool} (n : Node) (header : BlockHeader) (txs : List Transaction)
        (r : Result DbError utxo.Store)
        → header.prev_hash ≡ last_hash c n
        → IsChained c synced n
        → OnNode synced (accept_saved c db n header txs r)
    unfolding accept_saved accepted_node
    accept_saved-OnNode n header txs (err e) prev inv = tt
    accept_saved-OnNode n header txs (ok s) prev inv =
        let n1 = push_block c n header (header_hash c header) in
        same_chain c n1 _ refl refl refl
          (push_block-IsChained c n header (header_hash c header) prev inv)

    receive_block-OnNode :
        {synced : Bool} (n : Node) (s : utxo.Store) (header : BlockHeader) (txs : List Transaction)
        → IsChained c synced n
        → OnNode synced (receive_block c db (n, s) header txs)
    unfolding receive_block
    receive_block-OnNode n s header txs inv =
        elim (Bool-cases (eq_bytes header.prev_hash (last_hash c n))) [
          | inr other ↦ rw (receive_block, other) tt
          | inl next ↦ elim (Bool-cases (is_met_by header.difficulty (header_hash c header))) [
            | inr weak ↦ rw (receive_block, next, weak) tt
            | inl met ↦
                rw (receive_block, next, met)
                  (accept_saved-OnNode n header txs
                    (save_block s (n.height + 1) (record {
                      header = header;
                      transactions = txs;
                      signature = none;
                      pubkey = none;
                    }))
                    (eq_of_eq_bytes header.prev_hash (last_hash c n) next) inv)
          ]
        ]

    receive_block-IsChained :
        {synced : Bool} (n n' : Node) (s s' : utxo.Store) (header : BlockHeader)
        (txs : List Transaction)
        → IsChained c synced n
        → receive_block c db (n, s) header txs ≡ some (n', s')
        → IsChained c synced n'
    receive_block-IsChained n n' s s' header txs inv h =
        rw h at (receive_block-OnNode n s header txs inv)

    abbrev OnMined : Bool → Option ((Node × utxo.Store) × Block) → Type 0
    OnMined synced none = Unit
    OnMined synced (some ((n, s), b)) = IsChained c synced n

    conclude-OnMined :
        {synced : Bool} (wallet : Option Wallet) (n : Node) (s : utxo.Store) (header : BlockHeader)
        (txs : List Transaction) (found : Option ℕ)
        → header.prev_hash ≡ last_hash c n
        → IsChained c synced n
        → OnMined synced (conclude c db wallet (n, s) header txs found)
    unfolding conclude adopt
    conclude-OnMined wallet n s header txs none prev inv = tt
    conclude-OnMined wallet n s header txs (some nonce) prev inv =
        let mined = with_nonce header nonce in
        elim (Bool-cases (has_duplicate (plain_txids c txs))) [
          | inl twice ↦ rw (conclude, adopt, twice) tt
          | inr once ↦
              rw (conclude, adopt, once)
                (same_chain c (push_block c n mined (header_hash c mined)) _ refl refl refl
                  (push_block-IsChained c n mined (header_hash c mined) prev inv))
        ]

    mine_with-OnMined :
        {synced : Bool} (size : Transaction → ℕ) (rounds now : ℕ) (difficulty : Target)
        (wallet : Option Wallet) (n : Node) (s : utxo.Store) (outputs : List TxOut)
        → IsChained c synced n
        → OnMined synced (mine_with c db size rounds now difficulty wallet (n, s) outputs)
    unfolding mine_with template
    mine_with-OnMined size rounds now difficulty wallet n s [] inv = tt
    mine_with-OnMined size rounds now difficulty wallet n s (o ∷ others) inv =
        let reward = coinbase (o ∷ others) (n.height + 1) in
        let txs = reward ∷ pack size (size reward) n.mempool in
        let header = template c now difficulty n txs in
        conclude-OnMined wallet n s header txs
          (search c header difficulty rounds 0 (0, replicate 32 0xff)).1 refl inv

    mine_block-OnMined :
        {synced : Bool} (decode_base58 : List ℕ → Option (List ℕ)) (size : Transaction → ℕ)
        (rounds now : ℕ) (difficulty : Target) (wallet : Option Wallet) (n : Node) (s : utxo.Store)
        → IsChained c synced n
        → OnMined synced (mine_block c db decode_base58 size rounds now difficulty wallet (n, s))
    unfolding mine_block
    mine_block-OnMined decode_base58 size rounds now difficulty wallet n s inv =
        elim (Bool-cases (too_early now (last_block n.blocks))) [
          | inl early ↦ rw (mine_block, early) tt
          | inr late ↦
              rw (mine_block, late)
                (mine_with-OnMined size rounds now difficulty wallet n s
                  (reward_outputs decode_base58 wallet) inv)
        ]

    -- The nodes that mining and messages of peers lead to from the genesis, and whether a `Blocks`
    -- message is among them.
    pub data Reached : Bool → Node → utxo.Store → Type 0 where
      start : (s : utxo.Store) → Reached false (init_genesis c) s
      receive :
          {synced : Bool} {n n' : Node} {s s' : utxo.Store} (header : BlockHeader)
          (txs : List Transaction)
          → Reached synced n s
          → receive_block c db (n, s) header txs ≡ some (n', s')
          → Reached synced n' s'
      mine :
          {synced : Bool} {n n' : Node} {s s' : utxo.Store}
          (decode_base58 : List ℕ → Option (List ℕ)) (size : Transaction → ℕ) (rounds now : ℕ)
          (difficulty : Target) (wallet : Option Wallet) (block : Block)
          → Reached synced n s
          → mine_block c db decode_base58 size rounds now difficulty wallet (n, s)
            ≡ some ((n', s'), block)
          → Reached synced n' s'
      sync :
          {synced : Bool} (now : ℕ) (h : Handled c db now) (blocks : List Block) (peer_id : List ℕ)
          → Reached synced h.node h.store
          → Reached true
              (handle_blocks c db now h blocks peer_id).node
              (handle_blocks c db now h blocks peer_id).store

    -- Whatever blocks a node mines, and receives from its peers in `Block` and `Blocks` messages, in
    -- any order and whatever the database does, each of its headers names the hash of the one before,
    -- and its timestamps are those of the headers. As long as no `Blocks` message has been among them,
    -- it has one header for each height from 0 to its own.
    pub Reached-IsChained :
        {synced : Bool} {n : Node} {s : utxo.Store} → Reached synced n s → IsChained c synced n
    Reached-IsChained (start s) = record { heights = refl; linked = tt; times = refl }
    Reached-IsChained (receive header txs before step) =
        receive_block-IsChained _ _ _ _ header txs (Reached-IsChained before) step
    Reached-IsChained
          (mine {n = n} {s = s} decode_base58 size rounds now difficulty wallet block before step) =
        rw step at (
          mine_block-OnMined decode_base58 size rounds now difficulty wallet n s
            (Reached-IsChained before))
    Reached-IsChained (sync now h blocks peer_id before) =
        let (same_blocks, same_times) = handle_blocks_keeps c db now h blocks peer_id in
        let inv = Reached-IsChained before in
        record {
          heights = tt;
          linked = rw same_blocks inv.linked;
          times = rw (same_blocks, same_times) inv.times;
        }
