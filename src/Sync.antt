-- ===== src/Sync.antt =====
-- `SyncManager` of accum-node/src/main.rs: its peers, its session and its copy of the chain, as
-- operations on a record. The times `now` are the readings of the clock.
pub mod Session
pub mod Accept
pub mod Request
pub mod Rounds
pub mod Coherent
use accum_core.Base.{
  ℕ, ◌+◌, ◌-◌, ◌%◌, ◌^◌, Bool, true, false, not, ◌&&◌, ◌||◌, Option, none, some, List, [], ◌∷◌,
  ◌++◌, Result, ok, err, ltb, leb, ◌==◌, if◌then◌else◌, length, eq_bytes, min, max,
}
use accum_core.Base.Dict.{Dict, lookup, insert, remove}
use accum_core.Crypto.{Crypto}
use accum_core.Header.{BlockHeader}
use accum_core.Pow.{header_hash, wrapping_sub}
use accum_core.Target.{Hash32}
use accum_core.Tx.{Transaction}

-- `struct Block`
pub record Block : Type 0 where
  pub header : BlockHeader
  pub transactions : List Transaction
  pub signature : Option (List ℕ)
  pub pubkey : Option (List ℕ)

-- `struct SyncPeer` without the address, which is only printed.
pub record SyncPeer : Type 0 where
  pub peer_id : List ℕ
  pub height : ℕ
  pub best_hash : Hash32
  pub latency_ms : ℕ
  pub last_sync_time : ℕ
  pub retries : ℕ
  pub banned : Bool

-- `enum SyncStatus`: `Failed` is made with one message only.
pub data SyncStatus : Type 0 where
  idle : SyncStatus
  requesting : SyncStatus
  receiving : SyncStatus
  verifying : SyncStatus
  completed : SyncStatus
  failed_timeout : SyncStatus

pub record SyncSession : Type 0 where
  pub peer_id : List ℕ
  pub from_height : ℕ
  pub target_height : ℕ
  pub current_height : ℕ
  pub started_at : ℕ
  pub last_activity : ℕ
  pub blocks_received : ℕ
  pub status : SyncStatus

-- `struct SyncManager` without `pending_blocks` and `sync_complete_height`, which nothing reads, and
-- without the callback that sends messages.
pub record SyncManager : Type 0 where
  pub peers : Dict SyncPeer
  pub active_session : Option SyncSession
  pub local_chain : List BlockHeader
  pub local_hashes : Dict ℕ
  pub sync_in_progress : Bool
  pub last_sync_attempt : ℕ
  pub last_request_time : ℕ
  pub retry_count : Dict ℕ

-- The errors of `SyncManager`.
pub data SyncError : Type 0 where
  wrong_peer : SyncError
  no_session : SyncError
  db_failed : SyncError
  previous_block_not_found : SyncError
  invalid_prev_hash : SyncError
  difficulty_not_met : SyncError
  invalid_timestamp : SyncError
  invalid_merkle_root : SyncError
  invalid_signature : SyncError

-- `SyncManager::new`
abbrev pub new_manager : SyncManager
new_manager = record {
  peers = [];
  active_session = none;
  local_chain = [];
  local_hashes = [];
  sync_in_progress = false;
  last_sync_attempt = 0;
  last_request_time = 0;
  retry_count = [];
}

-- `SyncManager::current_height`
abbrev pub current_height : SyncManager → ℕ
current_height m = length m.local_chain

-- `SyncManager::update_peer`
pub update_peer : ℕ → SyncManager → List ℕ → ℕ → Hash32 → ℕ → SyncManager
update_peer now m peer_id height best_hash latency_ms = elim (lookup peer_id m.peers) [
  | some p ↦ record m {
    peers =
        insert peer_id
          (record p {
            height = height;
            best_hash = best_hash;
            latency_ms = latency_ms;
            last_sync_time = now;
          })
          m.peers;
  }
  | none ↦ record m {
    peers =
        insert peer_id
          (record {
            peer_id = peer_id;
            height = height;
            best_hash = best_hash;
            latency_ms = latency_ms;
            last_sync_time = now;
            retries = 0;
            banned = false;
          })
          m.peers;
  }
]

-- `SyncManager::remove_peer`
pub remove_peer : SyncManager → List ℕ → SyncManager
remove_peer m peer_id = record m { peers = remove peer_id m.peers }

-- `SyncManager::start_sync`
pub start_sync : ℕ → SyncManager → SyncPeer → SyncManager × Bool
start_sync now m peer =
    if m.sync_in_progress || leb peer.height (current_height m) then (m, false) else (
      record m {
        active_session = some (record {
          peer_id = peer.peer_id;
          from_height = current_height m;
          target_height = peer.height;
          current_height = current_height m;
          started_at = now;
          last_activity = now;
          blocks_received = 0;
          status = requesting;
        });
        sync_in_progress = true;
        last_sync_attempt = now;
      },
      true,
    )

-- `self.local_chain.push(…)` and the insertion into `local_hashes`
abbrev pub push_header : Crypto → SyncManager → BlockHeader → ℕ → SyncManager
push_header c m header height = record m {
  local_chain = m.local_chain ++ (header ∷ []);
  local_hashes = insert (header_hash c header) height m.local_hashes;
}

-- The loop of `on_blocks_received`, from a session height on.
pub push_blocks : Crypto → SyncManager → ℕ → List Block → SyncManager × ℕ
push_blocks c m height [] = (m, height)
push_blocks c m height (b ∷ rest) =
    push_blocks c (push_header c m b.header (height + 1)) (height + 1) rest

-- What `on_blocks_received` does in a session with a nonempty list.
pub receive_blocks : Crypto → ℕ → SyncManager → SyncSession → List Block → SyncManager × ℕ
unfolding push_blocks
receive_blocks c now m session blocks =
    let (m', height) = push_blocks c m session.current_height blocks in
    let done = leb session.target_height height in
    (
      record m' {
        active_session = some (record session {
          blocks_received = (session.blocks_received + length blocks) % 2 ^ 32;
          last_activity = now;
          current_height = height;
          status = if done then completed else requesting;
        });
        sync_in_progress = if done then false else m'.sync_in_progress;
      },
      height,
    )

-- The part of `on_blocks_received` behind the check of the peer.
pub receive_in :
    Crypto → ℕ → SyncManager → SyncSession → List Block → SyncManager × Result SyncError ℕ
unfolding receive_blocks
receive_in c now m session [] = (
  record m {
    active_session = some (record session { status = completed });
    sync_in_progress = false;
  },
  ok session.current_height,
)
receive_in c now m session (b ∷ rest) =
    let (m', height) = receive_blocks c now m session (b ∷ rest) in (m', ok height)

-- `SyncManager::on_blocks_received`
pub on_blocks_received :
    Crypto → ℕ → SyncManager → List Block → List ℕ → SyncManager × Result SyncError ℕ
unfolding receive_in
on_blocks_received c now m blocks peer_id = elim m.active_session [
  | none ↦ (m, err no_session)
  | some session ↦
      if eq_bytes session.peer_id peer_id
      then receive_in c now m session blocks
      else (m, err wrong_peer)
]

-- The peer of a session that timed out.
fail_peer : SyncPeer → SyncPeer
fail_peer p =
    let retries' = (p.retries + 1) % 2 ^ 32 in
    record p { retries = retries'; banned = p.banned || leb 3 retries' }

-- `SyncManager::check_timeouts`
pub check_timeouts : ℕ → SyncManager → SyncManager × Option (List ℕ)
unfolding fail_peer
check_timeouts now m = elim m.active_session [
  | none ↦ (m, none)
  | some session ↦
      if ltb 60 (wrapping_sub now session.last_activity)
      then (
        record m {
          active_session = some (record session { status = failed_timeout });
          peers = elim (lookup session.peer_id m.peers) [
            | none ↦ m.peers
            | some p ↦ insert session.peer_id (fail_peer p) m.peers
          ];
          sync_in_progress = false;
        },
        some session.peer_id,
      )
      else (m, none)
]
