-- ===== src/Sync/Accept/Handler.antt =====
-- The handler of the message `Blocks` in accum-node/src/main.rs: the blocks are verified and accepted,
-- the node and the transport take the new height, and the blocks are reported to the session.
use accum_core.Base.{
  ℕ, ◌+◌, ◌*◌, ◌≡◌, refl, sym, ap, ◌∙◌, true, some, List, [], ◌∷◌, Result, ok, err, ok-injective,
  >>=-eq-ok, length, length-append, eq_bytes, arith,
}
use accum_core.Crypto.{Crypto}
use accum_core.Sync.{
  Block, SyncSession, SyncManager, SyncError, push_header, push_blocks, current_height,
  receive_blocks, receive_in, on_blocks_received,
}
use accum_core.Sync.Accept.{
  ChainDb, written, check_block, left_behind, accept_block, accept_blocks, verify_and_accept_blocks,
}
use accum_core.Sync.Accept.Chain.{resume-eq-ok}
use accum_core.Node.{Node}
use accum_core.Pow.{header_hash}
use accum_core.Target.{Hash32}
use accum_core.Tx.Encode.{txid}
use accum_core.Utxo.{update_utxo_set}

module _ (c : Crypto) (db : ChainDb) (now : ℕ) where
  open db use {utxo, save_block}

  -- What the handler changes: the manager, the node with its database, and the height and the hash
  -- that the transport keeps for its peers.
  pub record Handled : Type 0 where
    pub sync_manager : SyncManager
    pub node : Node
    pub store : utxo.Store
    pub local_height : ℕ
    pub local_best_hash : Hash32

  -- `if let Some(last) = blocks.last()`
  best_hash : Hash32 → List Block → Hash32
  best_hash old [] = old
  best_hash old (b ∷ []) = header_hash c b.header
  best_hash old (b ∷ b' ∷ rest) = best_hash old (b' ∷ rest)

  -- The two arms of the match on the result: the node takes the height and the session hears of the
  -- blocks, or the peer is banned, which changes nothing here.
  report : Handled → (SyncManager × utxo.Store) × Result SyncError ℕ → List Block → List ℕ → Handled
  unfolding on_blocks_received best_hash
  report h ((m, s), ok height) blocks peer_id = record {
    sync_manager = (on_blocks_received c now m blocks peer_id).0;
    node = record (h.node) { height = height };
    store = s;
    local_height = height;
    local_best_hash = best_hash h.local_best_hash blocks;
  }
  report h ((m, s), err _) blocks peer_id = record h { sync_manager = m; store = s }

  -- `P2PMessage::Blocks(blocks) => …`
  pub handle_blocks : Handled → List Block → List ℕ → Handled
  unfolding verify_and_accept_blocks report
  handle_blocks h blocks peer_id =
      report h (verify_and_accept_blocks c db now (h.sync_manager, h.store) blocks) blocks peer_id

  -- Whatever arrives, the node's headers and timestamps stay.
  report_keeps :
      (h : Handled) (r : (SyncManager × utxo.Store) × Result SyncError ℕ) (blocks : List Block)
      (peer_id : List ℕ)
      → ((report h r blocks peer_id).node.blocks ≡ h.node.blocks)
        × ((report h r blocks peer_id).node.timestamps ≡ h.node.timestamps)
  unfolding report
  report_keeps h ((m, s), ok height) blocks peer_id = (refl, refl)
  report_keeps h ((m, s), err _) blocks peer_id = (refl, refl)

  pub handle_blocks_keeps :
      (h : Handled) (blocks : List Block) (peer_id : List ℕ)
      → ((handle_blocks h blocks peer_id).node.blocks ≡ h.node.blocks)
        × ((handle_blocks h blocks peer_id).node.timestamps ≡ h.node.timestamps)
  unfolding handle_blocks
  handle_blocks_keeps h blocks peer_id =
      report_keeps h (verify_and_accept_blocks c db now (h.sync_manager, h.store) blocks) blocks
        peer_id

  length-push_blocks :
      (m : SyncManager) (height : ℕ) (blocks : List Block)
      → current_height (push_blocks c m height blocks).0 ≡ current_height m + length blocks
  unfolding push_blocks
  length-push_blocks m height [] = omega arith
  length-push_blocks m height (b ∷ rest) =
      let ih = length-push_blocks (push_header c m b.header (height + 1)) (height + 1) rest in
      let pushed = length-append m.local_chain (b.header ∷ []) in omega arith

  length-on_blocks_received :
      (m : SyncManager) (session : SyncSession) (b : Block) (rest : List Block) (peer_id : List ℕ)
      → m.active_session ≡ some session
      → eq_bytes session.peer_id peer_id ≡ true
      → current_height (on_blocks_received c now m (b ∷ rest) peer_id).0
        ≡ current_height m + length (b ∷ rest)
  unfolding on_blocks_received receive_in receive_blocks
  length-on_blocks_received m session b rest peer_id active right =
      rw (on_blocks_received, active, right)
        (length-push_blocks m session.current_height (b ∷ rest))

  accept_block_keeps :
      (height : ℕ) (m m' : SyncManager) (s s' : utxo.Store) (b : Block)
      → accept_block c db now height (m, s) b ≡ ok (m', s')
      → (m'.active_session ≡ m.active_session) × (current_height m' ≡ current_height m + 1)
  unfolding accept_block
  accept_block_keeps height m m' s s' b h =
      let (_, _, h0) = >>=-eq-ok (check_block c db now s height b) _ h in
      let (s1, _, h1) = >>=-eq-ok (written (save_block s height b)) _ h0 in
      let (s2, _, h2) =
        >>=-eq-ok (written (update_utxo_set utxo (txid c) s1 b.transactions)) _ h1 in
      let done : (push_header c m b.header height, s2) ≡ (m', s') = ok-injective h2 in
      (
        ap (λ p. p.0.active_session) (sym done),
        ap (λ p. current_height p.0) (sym done) ∙ length-append m.local_chain (b.header ∷ []),
      )

  accept_blocks_keeps :
      (height : ℕ) (m m' : SyncManager) (s s' : utxo.Store) (blocks : List Block) (result : ℕ)
      → accept_blocks c db now height (m, s) blocks ≡ ((m', s'), ok result)
      → (m'.active_session ≡ m.active_session)
        × (current_height m' ≡ current_height m + length blocks)
  unfolding accept_blocks
  accept_blocks_keeps height m m' s s' [] result h =
      let same = ap (λ p. current_height p.0.0) (sym h) in
      (ap (λ p. p.0.0.active_session) (sym h), omega arith)
  accept_blocks_keeps height m m' s s' (b ∷ rest) result h =
      let ((m1, s1), accepted, h1) =
        resume-eq-ok (left_behind c db now (height + 1) (m, s) b)
          (accept_block c db now (height + 1) (m, s) b) _ h in
      let (session, longer) = accept_block_keeps (height + 1) m m1 s s1 b accepted in
      let (session', longer') = accept_blocks_keeps (height + 1) m1 m' s1 s' rest result h1 in
      (session' ∙ session, omega arith)

  -- Let the session be with the peer that sent a nonempty list of blocks, and let all of them be
  -- accepted. Then the handler extends `local_chain` by twice as many headers as there are
  -- blocks: the manager's height is ahead of the height that the store has reached.
  pub handle_blocks_twice :
      (h : Handled) (m' : SyncManager) (s' : utxo.Store) (session : SyncSession) (b : Block)
      (rest : List Block) (peer_id : List ℕ) (result : ℕ)
      → h.sync_manager.active_session ≡ some session
      → eq_bytes session.peer_id peer_id ≡ true
      → verify_and_accept_blocks c db now (h.sync_manager, h.store) (b ∷ rest)
        ≡ ((m', s'), ok result)
      → current_height (handle_blocks h (b ∷ rest) peer_id).sync_manager
        ≡ current_height h.sync_manager + 2 * length (b ∷ rest)
  unfolding handle_blocks verify_and_accept_blocks report
  handle_blocks_twice h m' s' session b rest peer_id result active right accepted =
      let m = h.sync_manager in
      let (same, longer) =
        accept_blocks_keeps (current_height m) m m' h.store s' (b ∷ rest) result accepted in
      let twice = length-on_blocks_received m' session b rest peer_id (same ∙ active) right in
      ap (λ r. current_height (report h r (b ∷ rest) peer_id).sync_manager) accepted ∙ omega arith
