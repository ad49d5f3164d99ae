-- ===== src/Sync/Session.antt =====
-- The synchronisation session of accum-node/src/main.rs as a state machine: the steps of
-- `SyncManager`, and what holds in every state they reach.
use accum_core.Base.{
  ℕ, ◌+◌, ◌≡◌, refl, Bool, ◌||◌, inl, inr, List, [], ◌∷◌, leb, ltb, eq_bytes, Option, Bool-cases,
  Option-cases, arith,
}
use accum_core.Base.Dict.{Dict, lookup}
use accum_core.Crypto.{Crypto}
use accum_core.Header.{BlockHeader}
use accum_core.Pow.{wrapping_sub}
use accum_core.Sync.{
  Block, SyncPeer, SyncSession, SyncManager, new_manager, update_peer, remove_peer, start_sync,
  push_header, push_blocks, receive_blocks, receive_in, on_blocks_received, check_timeouts,
  current_height,
}
use accum_core.Sync.Coherent.{
  IsCoherent, timeout_round-IsCoherent, start_active_sync-IsCoherent,
  request_blocks_from_peer-IsCoherent, request_round-IsCoherent,
}
use accum_core.Sync.Request.{set_chain, start_active_sync, request_blocks_from_peer}
use accum_core.Sync.Rounds.{timeout_round, request_round}
use accum_core.Peer.{P2pMessage}
use accum_core.Target.{Hash32}

-- One call of an operation; `accept` is one round of `verify_and_accept_blocks`.
pub data Step (c : Crypto) : SyncManager → SyncManager → Type 0 where
  update :
      (now : ℕ) (m : SyncManager) (peer_id : List ℕ) (height : ℕ) (best_hash : Hash32)
      (latency_ms : ℕ)
      → Step c m (update_peer now m peer_id height best_hash latency_ms)
  leave : (m : SyncManager) (peer_id : List ℕ) → Step c m (remove_peer m peer_id)
  start : (now : ℕ) (m : SyncManager) (peer : SyncPeer) → Step c m (start_sync now m peer).0
  accept :
      (m : SyncManager) (header : BlockHeader) (height : ℕ)
      → Step c m (push_header c m header height)
  receive :
      (now : ℕ) (m : SyncManager) (blocks : List Block) (peer_id : List ℕ)
      → Step c m (on_blocks_received c now m blocks peer_id).0
  timeout : (now : ℕ) (m : SyncManager) → Step c m (check_timeouts now m).0
  expire : (now : ℕ) (m : SyncManager) → Step c m (timeout_round now m)
  replace :
      (m : SyncManager) (chain : List BlockHeader) (hashes : Dict ℕ)
      → Step c m (set_chain m chain hashes)
  activate : (now : ℕ) (m : SyncManager) → Step c m (start_active_sync now m).0
  ask :
      (callback : Option (List ℕ → P2pMessage → Bool)) (now : ℕ) (m : SyncManager)
      (peer_id : List ℕ) (from : ℕ)
      → Step c m (request_blocks_from_peer callback now m peer_id from).0
  round :
      (callback : Option (List ℕ → P2pMessage → Bool)) (now last : ℕ) (m : SyncManager)
      → Step c m (request_round callback now last m).0

pub data Reachable (c : Crypto) : SyncManager → Type 0 where
  begin : Reachable c new_manager
  next : {m m' : SyncManager} → Reachable c m → Step c m m' → Reachable c m'

push_blocks_keeps :
    (c : Crypto) (m : SyncManager) (height : ℕ) (blocks : List Block)
    → ((push_blocks c m height blocks).0.sync_in_progress ≡ m.sync_in_progress)
      × ((push_blocks c m height blocks).0.active_session ≡ m.active_session)
unfolding push_blocks
push_blocks_keeps c m height [] = (refl, refl)
push_blocks_keeps c m height (b ∷ rest) =
    push_blocks_keeps c (push_header c m b.header (height + 1)) (height + 1) rest

start_sync-IsCoherent :
    (now : ℕ) (m : SyncManager) (peer : SyncPeer)
    → IsCoherent m
    → IsCoherent (start_sync now m peer).0
unfolding start_sync
start_sync-IsCoherent now m peer inv =
    elim (Bool-cases (m.sync_in_progress || leb peer.height (current_height m))) [
      | inl busy ↦ rw busy inv
      | inr free ↦ rw free (λ h. (_, refl, refl, ground arith))
    ]

receive_blocks-IsCoherent :
    (c : Crypto) (now : ℕ) (m : SyncManager) (session : SyncSession) (blocks : List Block)
    → IsCoherent (receive_blocks c now m session blocks).0
unfolding receive_blocks
receive_blocks-IsCoherent c now m session blocks h =
    elim (Bool-cases
      (leb session.target_height (push_blocks c m session.current_height blocks).1)) [
        | inl done ↦ cc (rw done at h)
        | inr more ↦ rw more (_, refl, refl, ground arith)
      ]

receive_in-IsCoherent :
    (c : Crypto) (now : ℕ) (m : SyncManager) (session : SyncSession) (blocks : List Block)
    → IsCoherent (receive_in c now m session blocks).0
unfolding receive_in
receive_in-IsCoherent c now m session [] h = cc
receive_in-IsCoherent c now m session (b ∷ rest) h =
    receive_blocks-IsCoherent c now m session (b ∷ rest) h

on_blocks_received-IsCoherent :
    (c : Crypto) (now : ℕ) (m : SyncManager) (blocks : List Block) (peer_id : List ℕ)
    → IsCoherent m
    → IsCoherent (on_blocks_received c now m blocks peer_id).0
unfolding on_blocks_received
on_blocks_received-IsCoherent c now m blocks peer_id inv = elim (Option-cases m.active_session) [
  | inl none_active ↦ rw (on_blocks_received, none_active) inv
  | inr (session, active) ↦ elim (Bool-cases (eq_bytes session.peer_id peer_id)) [
    | inr wrong ↦ rw (on_blocks_received, active, wrong) inv
    | inl right ↦
        rw (on_blocks_received, active, right) (receive_in-IsCoherent c now m session blocks)
  ]
]

check_timeouts-IsCoherent :
    (now : ℕ) (m : SyncManager) → IsCoherent m → IsCoherent (check_timeouts now m).0
unfolding check_timeouts
check_timeouts-IsCoherent now m inv = elim (Option-cases m.active_session) [
  | inl none_active ↦ rw (check_timeouts, none_active) inv
  | inr (session, active) ↦ elim (Bool-cases (ltb 60 (wrapping_sub now session.last_activity))) [
    | inl late ↦ rw (check_timeouts, active, late) (λ h. cc)
    | inr live ↦ rw (check_timeouts, active, live) inv
  ]
]

update_peer-IsCoherent :
    (now : ℕ) (m : SyncManager) (peer_id : List ℕ) (height : ℕ) (best_hash : Hash32)
    (latency_ms : ℕ)
    → IsCoherent m
    → IsCoherent (update_peer now m peer_id height best_hash latency_ms)
unfolding update_peer
update_peer-IsCoherent now m peer_id height best_hash latency_ms inv =
    elim (Option-cases (lookup peer_id m.peers)) [
      | inl new ↦ rw (update_peer, new) inv
      | inr (p, known) ↦ rw (update_peer, known) inv
    ]

Step-IsCoherent : (c : Crypto) {m m' : SyncManager} → Step c m m' → IsCoherent m → IsCoherent m'
unfolding remove_peer
Step-IsCoherent c (update now m p h b l) inv = update_peer-IsCoherent now m p h b l inv
Step-IsCoherent c (leave m p) inv = inv
Step-IsCoherent c (start now m peer) inv = start_sync-IsCoherent now m peer inv
Step-IsCoherent c (accept m header height) inv = inv
Step-IsCoherent c (receive now m blocks p) inv = on_blocks_received-IsCoherent c now m blocks p inv
Step-IsCoherent c (timeout now m) inv = check_timeouts-IsCoherent now m inv
Step-IsCoherent c (expire now m) inv =
    timeout_round-IsCoherent now m (check_timeouts-IsCoherent now m inv)
Step-IsCoherent c (replace m chain hashes) inv = inv
Step-IsCoherent c (activate now m) inv = start_active_sync-IsCoherent now m inv
Step-IsCoherent c (ask callback now m peer_id from) inv =
    request_blocks_from_peer-IsCoherent callback now m peer_id from inv
Step-IsCoherent c (round callback now last m) inv = request_round-IsCoherent callback now last m inv

-- In every state that any sequence of calls and of rounds of the node's loop reaches from a new
-- manager, a synchronisation that is
-- in progress has a session, which is open and below its target height.
pub Reachable-IsCoherent : (c : Crypto) {m : SyncManager} → Reachable c m → IsCoherent m
Reachable-IsCoherent c begin h = cc
Reachable-IsCoherent c (next before step) h =
    Step-IsCoherent c step (Reachable-IsCoherent c before) h
