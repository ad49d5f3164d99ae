-- ===== src/Examples/Peers.antt =====
-- The theorems on connections, requests for blocks and limits of shares at small inputs.
use accum_core.Base.{
  ℕ, ◌+◌, ◌^◌, ◌≤◌, ◌<◌, ◌≡◌, ◌≢◌, ◌*◌, refl, Bool, true, false, Option, some, List, [], ◌∷◌, ok,
  length, replicate, eq_bytes, if◌then◌else◌, arith,
}
use accum_core.Base.Dict.{lookup}
use accum_core.Guards.{InvalidShareMonitor, record_share, status_of}
use accum_core.Guards.Monitor.{Reports, record_all, total_of, invalid_of, record_share_exact}
use accum_core.Peer.{
  PeerConnection, P2pMessage, heartbeat, get_blocks, Frame, too_large, decoded, new_connection,
  receive_message, max_messages_per_hour, max_blocks_per_request,
}
use accum_core.Peer.Quiet.{receive_message-Silent}
use accum_core.Peer.Hourly.{receive_all, receive_all_hourly}
use accum_core.Sync.{SyncPeer, SyncManager, new_manager}
use accum_core.Sync.Request.{request_blocks_from_peer, sync_batch_size, start_active_sync}
use accum_core.Sync.Request.Bounds.{
  request_blocks_from_peer_bounds, request_blocks_from_peer_behind,
}
use accum_core.Sync.Request.Choice.{IsOpened, start_active_sync-IsOpened}

abbrev all_delivered : P2pMessage → Bool
all_delivered msg = true

abbrev connection : PeerConnection
connection = new_connection (7 ∷ []) 100

bans : (receive_message all_delivered 110 connection too_large).0.0.banned ≡ true
unfolding receive_message
bans = refl

receive_message-Silent_example : (receive_message all_delivered 110 connection too_large).0.1 ≡ []
receive_message-Silent_example = receive_message-Silent all_delivered 110 connection too_large bans

abbrev nearly_full : PeerConnection
nearly_full = record connection { messages_this_hour = 999 }

abbrev frames : List (ℕ × Frame)
frames =
    (3_600, decoded (heartbeat 1))
    ∷ (3_650, decoded (heartbeat 2))
    ∷ (3_701, decoded (heartbeat 3))
    ∷ []

receive_all_hourly_example :
    length (receive_all all_delivered nearly_full frames) + nearly_full.messages_this_hour
    ≤ 2 * max_messages_per_hour
receive_all_hourly_example =
    receive_all_hourly all_delivered nearly_full 3_000 6_000 frames (omega arith) (omega arith)
      (omega arith)
      (omega arith, omega arith, (omega arith, omega arith, (omega arith, omega arith, tt)))

abbrev peer : SyncPeer
peer = record {
  peer_id = 5 ∷ [];
  height = 900;
  best_hash = replicate 32 0;
  latency_ms = 3;
  last_sync_time = 50;
  retries = 0;
  banned = false;
}

abbrev slow_peer : SyncPeer
slow_peer = record peer { peer_id = 6 ∷ []; latency_ms = 30 }

abbrev manager : SyncManager
manager = record new_manager { peers = (6 ∷ [], slow_peer) ∷ (5 ∷ [], peer) ∷ [] }

abbrev sends : Option (List ℕ → P2pMessage → Bool)
sends = some (λ k msg. true)

finds_peer : lookup (5 ∷ []) manager.peers ≡ some peer
unfolding lookup eq_bytes
finds_peer = refl

abbrev asked : ℕ → ℕ → SyncManager
asked now from = (request_blocks_from_peer sends now manager (5 ∷ []) from).0

asks : request_blocks_from_peer sends 100 manager (5 ∷ []) 1 ≡ (asked 100 1, ok (get_blocks 1 500))
unfolding request_blocks_from_peer lookup eq_bytes
asks = refl

request_blocks_from_peer_bounds_example :
    (n : ℕ) × (get_blocks 1 500 ≡ get_blocks 1 n)
    × (0 < n)
    × (n ≤ sync_batch_size)
    × (1 + n ≤ peer.height + 1)
    × (peer.banned ≡ false)
request_blocks_from_peer_bounds_example =
    request_blocks_from_peer_bounds sends 100 manager (asked 100 1) (5 ∷ []) peer 1
      (get_blocks 1 500) finds_peer (omega arith) (omega arith) asks

asks_behind :
    request_blocks_from_peer sends 100 manager (5 ∷ []) 902
    ≡ (asked 100 902, ok (get_blocks 902 4_294_967_295))
unfolding request_blocks_from_peer lookup eq_bytes
asks_behind = refl

request_blocks_from_peer_behind_example :
    (n : ℕ) × (get_blocks 902 4_294_967_295 ≡ get_blocks 902 n) × (max_blocks_per_request < n)
request_blocks_from_peer_behind_example =
    request_blocks_from_peer_behind sends 100 manager (asked 100 902) (5 ∷ []) peer 902
      (get_blocks 902 4_294_967_295) finds_peer (omega arith) (omega arith) asks_behind

abbrev opened : SyncManager
opened = (start_active_sync 100 manager).0

opens : start_active_sync 100 manager ≡ (opened, true)
unfolding start_active_sync
opens = refl

start_active_sync-IsOpened_example : IsOpened 100 manager opened
start_active_sync-IsOpened_example = start_active_sync-IsOpened 100 manager opened opens

abbrev reports : Reports
reports = (1 ∷ [], true) ∷ (1 ∷ [], false) ∷ []

few : total_of (1 ∷ []) reports + 1 < 2 ^ 32
unfolding eq_bytes
few = omega arith

-- A monitor that has banned the miner in the epoch before.
abbrev monitor : InvalidShareMonitor
monitor = record { miner_stats = (1 ∷ [], (40, 50)) ∷ []; epoch = 2 }

next : monitor.epoch ≢ 3
next e = absurd (omega arith)

record_share_exact_example :
    (record_share (record_all monitor 3 reports) (1 ∷ []) true 3).1
    ≡ status_of
        (invalid_of (1 ∷ []) reports + (if true then 0 else 1), total_of (1 ∷ []) reports + 1)
record_share_exact_example = record_share_exact monitor 3 (1 ∷ []) reports true next few
