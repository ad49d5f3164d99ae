-- ===== src/Sync/Coherent.antt =====
-- A synchronisation in progress has an open session: the requests for blocks keep this.
use accum_core.Base.{
  ℕ, ◌+◌, ◌%◌, ◌^◌, min, ◌<◌, ◌≡◌, refl, inl, inr, Bool, true, false, ◌&&◌, Option, none, some,
  List, Result, ok, err, ◌==◌, leb, ltb, if◌then◌else◌, Bool-cases, Option-cases, arith,
}
use accum_core.Base.Dict.{lookup, insert, unwrap_or}
use accum_core.Peer.{P2pMessage, get_blocks}
use accum_core.Pow.{wrapping_sub}
use accum_core.Sync.{
  SyncPeer, SyncStatus, idle, requesting, receiving, verifying, completed, failed_timeout,
  SyncSession, SyncManager, check_timeouts, current_height,
}
use accum_core.Sync.Request.{
  RequestError, send_failed, too_many_retries, sync_batch_size, now_receiving, open_session,
  select_best_peer, start_active_sync, send_request, request_from, request_count,
  request_blocks_from_peer,
}
use accum_core.Sync.Rounds.{
  drop_session, expired, timeout_round, requested, ask_in, ask_for, request_round, is_requesting,
}

abbrev pub is_open : SyncStatus → Bool
is_open idle = false
is_open requesting = true
is_open receiving = true
is_open verifying = false
is_open completed = false
is_open failed_timeout = false

-- While a synchronisation is in progress there is a session, it is open, and it has not reached its
-- target.
abbrev pub IsCoherent : SyncManager → Type 0
IsCoherent m =
    m.sync_in_progress ≡ true
    → (session : SyncSession) × (m.active_session ≡ some session)
      × (is_open session.status ≡ true)
      × (session.current_height < session.target_height)

drop_session-IsCoherent : (m : SyncManager) → IsCoherent (drop_session m)
drop_session-IsCoherent m h = cc

expired-IsCoherent : (r : SyncManager × Option (List ℕ)) → IsCoherent r.0 → IsCoherent (expired r)
unfolding expired
expired-IsCoherent (m, none) inv = inv
expired-IsCoherent (m, some peer) inv = drop_session-IsCoherent m

-- A session that is marked as receiving.
now_receiving-IsCoherent :
    (now a b : ℕ) (m : SyncManager)
    → IsCoherent m
    → IsCoherent (record m {
      active_session = now_receiving now m.active_session;
      last_request_time = a;
      last_sync_attempt = b;
    })
unfolding now_receiving
now_receiving-IsCoherent now a b m inv h =
    let (s, active, unfinished, low) = inv h in
    rw active (record s { status = receiving; last_activity = now }, refl, refl, low)

-- Either result of a test.
either-IsCoherent {ℓ} :
    {A : Type ℓ} (b : Bool) (x y : SyncManager × A)
    → IsCoherent x.0
    → IsCoherent y.0
    → IsCoherent (if b then x else y).0
either-IsCoherent true x y hx hy = hx
either-IsCoherent false x y hx hy = hy

open_session-IsCoherent :
    (now : ℕ) (m : SyncManager) (o : Option (List ℕ × SyncPeer))
    → IsCoherent m
    → IsCoherent (open_session now m o).0
unfolding open_session
open_session-IsCoherent now m none inv = inv
open_session-IsCoherent now m (some (k, p)) inv =
    elim (Bool-cases (leb p.height (current_height m))) [
      | inl low ↦ rw low inv
      | inr high ↦ rw high (λ h. (_, refl, refl, ground arith))
    ]

pub start_active_sync-IsCoherent :
    (now : ℕ) (m : SyncManager) → IsCoherent m → IsCoherent (start_active_sync now m).0
unfolding start_active_sync
start_active_sync-IsCoherent now m inv =
    either-IsCoherent m.sync_in_progress (m, false) (open_session now m (select_best_peer m)) inv
      (open_session-IsCoherent now m (select_best_peer m) inv)

pub timeout_round-IsCoherent :
    (now : ℕ) (m : SyncManager)
    → IsCoherent (check_timeouts now m).0
    → IsCoherent (timeout_round now m)
unfolding timeout_round
timeout_round-IsCoherent now m inv = expired-IsCoherent (check_timeouts now m) inv

module _ (callback : Option (List ℕ → P2pMessage → Bool)) where
  send_request-IsCoherent :
      (now : ℕ) (m : SyncManager) (k : List ℕ) (msg : P2pMessage)
      → IsCoherent m
      → IsCoherent (send_request callback now m k msg).0
  unfolding send_request
  send_request-IsCoherent now m k msg inv = elim (Option-cases callback) [
    | inl unset ↦ rw (send_request, unset) inv
    | inr (send, set) ↦
        rw (send_request, set)
          (either-IsCoherent (send k msg)
            (
              record m {
                active_session = now_receiving now m.active_session;
                last_request_time = now;
                last_sync_attempt = now;
              },
              ok msg,
            )
            (m, err send_failed) (now_receiving-IsCoherent now now now m inv) inv)
  ]

  request_from-IsCoherent :
      (now : ℕ) (m : SyncManager) (k : List ℕ) (p : SyncPeer) (from : ℕ)
      → IsCoherent m
      → IsCoherent (request_from callback now m k p from).0
  unfolding request_from
  request_from-IsCoherent now m k p from inv =
      let retries = unwrap_or 0 (lookup k m.retry_count) in
      let m1 = record m { retry_count = insert k retries m.retry_count } in
      either-IsCoherent p.banned _ _ inv (
        either-IsCoherent (ltb (wrapping_sub now m.last_request_time) 5 && m.sync_in_progress) _ _
          inv
          (either-IsCoherent (request_count from p == 0) _ _ inv (
            either-IsCoherent (leb 3 retries) (m1, err too_many_retries) _ inv
              (send_request-IsCoherent now m1 k (get_blocks from (request_count from p)) inv))))

  pub request_blocks_from_peer-IsCoherent :
      (now : ℕ) (m : SyncManager) (k : List ℕ) (from : ℕ)
      → IsCoherent m
      → IsCoherent (request_blocks_from_peer callback now m k from).0
  unfolding request_blocks_from_peer
  request_blocks_from_peer-IsCoherent now m k from inv = elim (Option-cases (lookup k m.peers)) [
    | inl unknown ↦ rw (request_blocks_from_peer, unknown) inv
    | inr (p, known) ↦
        rw (request_blocks_from_peer, known) (request_from-IsCoherent now m k p from inv)
  ]

  requested-IsCoherent :
      (now last : ℕ) (r : SyncManager × Result RequestError P2pMessage)
      → IsCoherent r.0
      → IsCoherent (requested now last r).0
  unfolding requested
  requested-IsCoherent now last (m, ok msg) inv =
      now_receiving-IsCoherent now m.last_request_time m.last_sync_attempt m inv
  requested-IsCoherent now last (m, err e) inv = drop_session-IsCoherent m

  ask_for-IsCoherent :
      (now last : ℕ) (m : SyncManager) (o : Option SyncSession)
      → IsCoherent m
      → IsCoherent (ask_for callback now last m o).0
  unfolding ask_for ask_in
  ask_for-IsCoherent now last m none inv = inv
  ask_for-IsCoherent now last m (some session) inv =
      let from = (session.current_height + 1) % 2 ^ 64 in
      let to = min (wrapping_sub ((from + sync_batch_size) % 2 ^ 64) 1) session.target_height in
      either-IsCoherent (is_requesting session.status) _ _
        (either-IsCoherent (leb from to)
          (requested now last (request_blocks_from_peer callback now m session.peer_id from)) _
          (requested-IsCoherent now last
            (request_blocks_from_peer callback now m session.peer_id from)
            (request_blocks_from_peer-IsCoherent now m session.peer_id from inv))
          (λ h. cc))
        inv

  pub request_round-IsCoherent :
      (now last : ℕ) (m : SyncManager)
      → IsCoherent m
      → IsCoherent (request_round callback now last m).0
  unfolding request_round
  request_round-IsCoherent now last m inv =
      either-IsCoherent (leb 2 (wrapping_sub now last))
        (ask_for callback now last m m.active_session) (m, last)
        (ask_for-IsCoherent now last m m.active_session inv) inv
