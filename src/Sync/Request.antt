-- ===== src/Sync/Request.antt =====
-- How `SyncManager` of accum-node/src/main.rs chooses a peer and asks it for blocks, and the two
-- parts of `run_with_graceful_shutdown` that call it. The callback that sends a message is a
-- parameter: `none` where none is set, and else whether it returns `Ok`.
pub mod Bounds
pub mod Nearest
pub mod Choice
use accum_core.Base.{
  ℕ, ◌+◌, ◌%◌, ◌^◌, Bool, true, false, not, ◌&&◌, ◌||◌, Option, none, some, List, [], ◌∷◌, Result,
  ok, err, ltb, leb, ◌==◌, if◌then◌else◌, min,
}
use accum_core.Base.Dict.{Dict, lookup, insert, unwrap_or}
use accum_core.Header.{BlockHeader}
use accum_core.Peer.{P2pMessage, get_blocks, max_blocks_per_request}
use accum_core.Pow.{wrapping_sub}
use accum_core.Sync.{
  SyncPeer, SyncStatus, requesting, receiving, completed, SyncSession, SyncManager, current_height,
  check_timeouts,
}

-- `const SYNC_BATCH_SIZE`
abbrev pub sync_batch_size : ℕ
sync_batch_size = 500

-- `const SYNC_MAX_RETRIES`
abbrev sync_max_retries : ℕ
sync_max_retries = 3

-- The messages of the two functions that request blocks.
pub data RequestError : Type 0 where
  peer_not_found : RequestError
  peer_is_banned : RequestError
  too_frequent : RequestError
  no_blocks : RequestError
  too_many_retries : RequestError
  send_failed : RequestError
  no_callback : RequestError

-- `SyncManager::set_chain`
abbrev pub set_chain : SyncManager → List BlockHeader → Dict ℕ → SyncManager
set_chain m chain hashes = record m { local_chain = chain; local_hashes = hashes }

-- `max()` of the heights of the peers that are not banned.
best_height : Dict SyncPeer → Option ℕ
best_height [] = none
best_height ((k, p) ∷ rest) =
    let others = best_height rest in
    if p.banned
    then others
    else some (elim others [ none ↦ p.height | some h ↦ if ltb p.height h then h else p.height ])

-- `SyncManager::needs_sync`
abbrev needs_sync : ℕ → SyncManager → Bool
unfolding best_height
needs_sync now m =
    let sync_timeout = ltb 60 (wrapping_sub now m.last_sync_attempt) in
    ltb (current_height m) (unwrap_or (current_height m) (best_height m.peers))
    && ((elim m.active_session [ none ↦ true | some session ↦ false ]) || sync_timeout)

-- `filter(|(_, p)| …)`
pub filter_peers : (SyncPeer → Bool) → Dict SyncPeer → Dict SyncPeer
filter_peers keep [] = []
filter_peers keep ((k, p) ∷ rest) =
    let others = filter_peers keep rest in if keep p then (k, p) ∷ others else others

abbrev pub nearer : List ℕ × SyncPeer → Option (List ℕ × SyncPeer) → List ℕ × SyncPeer
nearer e none = e
nearer e (some f) = if leb e.1.latency_ms f.1.latency_ms then e else f

-- `min_by_key` on the latency: the first of the least.
pub min_latency : Dict SyncPeer → Option (List ℕ × SyncPeer)
min_latency [] = none
min_latency (e ∷ rest) = some (nearer e (min_latency rest))

abbrev pub higher : List ℕ × SyncPeer → Option (List ℕ × SyncPeer) → List ℕ × SyncPeer
higher e none = e
higher e (some f) = if ltb f.1.height e.1.height then e else f

-- `max_by_key` on the height: the last of the greatest.
pub max_height : Dict SyncPeer → Option (List ℕ × SyncPeer)
max_height [] = none
max_height (e ∷ rest) = some (higher e (max_height rest))

-- `or_else`
abbrev pub or_else {ℓ} : {A : Type ℓ} → Option A → Option A → Option A
or_else none other = other
or_else (some a) other = some a

abbrev pub is_ahead : ℕ → SyncPeer → Bool
is_ahead height p = not p.banned && ltb height p.height

-- `SyncManager::select_best_peer`, with the peer itself in place of its height and latency.
pub select_best_peer : SyncManager → Option (List ℕ × SyncPeer)
unfolding min_latency max_height filter_peers
select_best_peer m =
    or_else (min_latency (filter_peers (is_ahead (current_height m)) m.peers))
      (max_height (filter_peers (λ p. not p.banned) m.peers))

-- The session that `start_active_sync` opens with a peer.
unfoldable pub open_session : ℕ → SyncManager → Option (List ℕ × SyncPeer) → SyncManager × Bool
open_session now m none = (m, false)
open_session now m (some (k, p)) =
    let height = current_height m in
    if leb p.height height then (m, false) else (
      record m {
        active_session = some (record {
          peer_id = k;
          from_height = height + 1;
          target_height = p.height;
          current_height = height;
          started_at = now;
          last_activity = now;
          blocks_received = 0;
          status = requesting;
        });
        sync_in_progress = true;
        last_sync_attempt = now;
      },
      true,
    )

-- `SyncManager::start_active_sync`, which never fails.
unfoldable pub start_active_sync : ℕ → SyncManager → SyncManager × Bool
unfolding open_session select_best_peer
start_active_sync now m =
    if m.sync_in_progress then (m, false) else open_session now m (select_best_peer m)

-- The number of blocks to ask for, in `u64` and then in `u32`.
pub request_count : ℕ → SyncPeer → ℕ
request_count from p =
    let to = min (wrapping_sub ((from + sync_batch_size) % 2 ^ 64) 1) p.height in
    (wrapping_sub to from + 1) % 2 ^ 64 % 2 ^ 32

-- `if let Some(session) = self.active_session.as_mut()`
unfoldable pub now_receiving : ℕ → Option SyncSession → Option SyncSession
now_receiving now none = none
now_receiving now (some s) = some (record s { status = receiving; last_activity = now })

module _ (callback : Option (List ℕ → P2pMessage → Bool)) where
  -- The end of `request_blocks_from_peer`; the message that the callback has taken is returned.
  unfoldable pub send_request :
      ℕ → SyncManager → List ℕ → P2pMessage → SyncManager × Result RequestError P2pMessage
  unfolding now_receiving
  send_request now m k msg = elim callback [
    | none ↦ (m, err no_callback)
    | some send ↦
        if send k msg
        then (
          record m {
            active_session = now_receiving now m.active_session;
            last_request_time = now;
            last_sync_attempt = now;
          },
          ok msg,
        )
        else (m, err send_failed)
  ]

  -- The part of `request_blocks_from_peer` behind the lookup.
  unfoldable pub request_from :
      ℕ → SyncManager → List ℕ → SyncPeer → ℕ → SyncManager × Result RequestError P2pMessage
  unfolding send_request request_count
  request_from now m k p from =
      let count = request_count from p in
      let retries = unwrap_or 0 (lookup k m.retry_count) in
      let m1 = record m { retry_count = insert k retries m.retry_count } in
      if p.banned
      then (m, err peer_is_banned)
      else if ltb (wrapping_sub now m.last_request_time) 5 && m.sync_in_progress
      then (m, err too_frequent)
      else if count == 0
      then (m, err no_blocks)
      else if leb sync_max_retries retries
      then (m1, err too_many_retries)
      else send_request now m1 k (get_blocks from count)

  -- `SyncManager::request_blocks_from_peer`
  unfoldable pub request_blocks_from_peer :
      ℕ → SyncManager → List ℕ → ℕ → SyncManager × Result RequestError P2pMessage
  unfolding request_from
  request_blocks_from_peer now m k from = elim (lookup k m.peers) [
    | none ↦ (m, err peer_not_found)
    | some p ↦ request_from now m k p from
  ]
