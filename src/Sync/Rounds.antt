-- ===== src/Sync/Rounds.antt =====
-- The two parts of `Node::run_with_graceful_shutdown` in accum-node/src/main.rs that drive a
-- synchronisation: the check for a timeout, and the request for the next blocks.
use accum_core.Base.{
  ℕ, ◌+◌, ◌%◌, ◌^◌, Bool, true, false, Option, none, some, Result, ok, err, leb, List,
  if◌then◌else◌, min,
}
use accum_core.Peer.{P2pMessage}
use accum_core.Pow.{wrapping_sub}
use accum_core.Sync.{
  SyncStatus, idle, requesting, receiving, verifying, completed, failed_timeout, SyncSession,
  SyncManager, check_timeouts,
}
use accum_core.Sync.Request.{RequestError, now_receiving, request_blocks_from_peer, sync_batch_size}

-- `active_session = None; sync_in_progress = false;`
abbrev pub drop_session : SyncManager → SyncManager
drop_session m = record m { active_session = none; sync_in_progress = false }

unfoldable pub expired : SyncManager × Option (List ℕ) → SyncManager
expired (m, none) = m
expired (m, some peer) = drop_session m

-- Step 4 of the loop.
unfoldable pub timeout_round : ℕ → SyncManager → SyncManager
unfolding expired
timeout_round now m = expired (check_timeouts now m)

-- `status == SyncStatus::Requesting`
pub is_requesting : SyncStatus → Bool
is_requesting idle = false
is_requesting requesting = true
is_requesting receiving = false
is_requesting verifying = false
is_requesting completed = false
is_requesting failed_timeout = false

-- The match on what `request_blocks_from_peer` returns, with `last_sync_request_time`.
unfoldable pub requested : ℕ → ℕ → SyncManager × Result RequestError P2pMessage → SyncManager × ℕ
requested now last (m, ok msg) =
    (record m { active_session = now_receiving now m.active_session }, now)
requested now last (m, err e) = (drop_session m, last)

module _ (callback : Option (List ℕ → P2pMessage → Bool)) where
  -- The part of step 5 with a session.
  unfoldable pub ask_in : ℕ → ℕ → SyncManager → SyncSession → SyncManager × ℕ
  unfolding requested is_requesting
  ask_in now last m session =
      let from = (session.current_height + 1) % 2 ^ 64 in
      let to = min (wrapping_sub ((from + sync_batch_size) % 2 ^ 64) 1) session.target_height in
      if is_requesting session.status
      then (if leb from to
          then requested now last (request_blocks_from_peer callback now m session.peer_id from)
          else (
            record m {
              active_session = some (record session { status = completed });
              sync_in_progress = false;
            },
            last,
          ))
      else (m, last)

  unfoldable pub ask_for : ℕ → ℕ → SyncManager → Option SyncSession → SyncManager × ℕ
  unfolding ask_in
  ask_for now last m none = (m, last)
  ask_for now last m (some session) = ask_in now last m session

  -- Step 5 of the loop: at most every two seconds.
  unfoldable pub request_round : ℕ → ℕ → SyncManager → SyncManager × ℕ
  unfolding ask_for
  request_round now last m =
      if leb 2 (wrapping_sub now last) then ask_for now last m m.active_session else (m, last)
