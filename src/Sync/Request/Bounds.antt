-- ===== src/Sync/Request/Bounds.antt =====
-- The messages that `request_blocks_from_peer` sends.
use accum_core.Base.{
  ℕ, ◌+◌, ◌-◌, ◌^◌, ◌≤◌, ◌<◌, ◌≡◌, inl, inr, Bool, false, ◌&&◌, Option, some, List, ok, ltb, leb,
  ◌==◌, min, Bool-cases, Option-cases, arith,
}
use accum_core.Base.Dict.{lookup, insert, unwrap_or}
use accum_core.Peer.{P2pMessage, get_blocks, max_blocks_per_request}
use accum_core.Pow.{wrapping_sub}
use accum_core.Sync.{SyncPeer, SyncManager}
use accum_core.Sync.Request.{
  request_count, send_request, request_from, request_blocks_from_peer, sync_batch_size,
}

-- The number of blocks from `from` to the height of the peer, cut at 500.
request_count_value :
    (from : ℕ) (p : SyncPeer)
    → from ≤ p.height
    → p.height + sync_batch_size < 2 ^ 64
    → request_count from p ≡ min sync_batch_size (p.height - from + 1)
unfolding request_count
request_count_value from p low fits = omega arith

-- A peer that is more than one block behind the request: the difference wraps around.
request_count_wraps :
    (from : ℕ) (p : SyncPeer)
    → p.height + 1 < from
    → from + sync_batch_size < 2 ^ 32
    → sync_batch_size < request_count from p
unfolding request_count
request_count_wraps from p behind fits = omega arith

module _ (callback : Option (List ℕ → P2pMessage → Bool)) where
  send_request_same :
      (now : ℕ) (m m' : SyncManager) (k : List ℕ) (sent msg : P2pMessage)
      → send_request callback now m k sent ≡ (m', ok msg)
      → msg ≡ sent
  unfolding send_request
  send_request_same now m m' k sent msg h = elim (Option-cases callback) [
    | inl unset ↦ cc (rw (send_request, unset) at h)
    | inr (send, set) ↦ elim (Bool-cases (send k sent)) [
      | inl done ↦ cc (rw (send_request, set, done) at h)
      | inr failed ↦ cc (rw (send_request, set, failed) at h)
    ]
  ]

  -- What a request that was sent has passed.
  request_from_sent :
      (now : ℕ) (m m' : SyncManager) (k : List ℕ) (p : SyncPeer) (from : ℕ) (msg : P2pMessage)
      → request_from callback now m k p from ≡ (m', ok msg)
      → (msg ≡ get_blocks from (request_count from p))
        × (p.banned ≡ false)
        × ((request_count from p == 0) ≡ false)
  unfolding request_from
  request_from_sent now m m' k p from msg h = elim (Bool-cases p.banned) [
    | inl banned ↦ cc (rw banned at h)
    | inr free ↦
        let h1 = rw free at h in
        elim (Bool-cases (ltb (wrapping_sub now m.last_request_time) 5 && m.sync_in_progress)) [
          | inl soon ↦ cc (rw soon at h1)
          | inr late ↦
              let h2 = rw late at h1 in
              elim (Bool-cases (request_count from p == 0)) [
                | inl none_left ↦ cc (rw none_left at h2)
                | inr some_left ↦
                    let h3 = rw some_left at h2 in
                    let retries = unwrap_or 0 (lookup k m.retry_count) in
                    elim (Bool-cases (leb 3 retries)) [
                      | inl many ↦ cc (rw many at h3)
                      | inr few ↦ (
                        send_request_same now
                            (record m { retry_count = insert k retries m.retry_count }) m' k
                            (get_blocks from (request_count from p)) msg (rw few at h3),
                        free,
                        some_left,
                      )
                    ]
              ]
        ]
  ]

  request_sent :
      (now : ℕ) (m m' : SyncManager) (k : List ℕ) (p : SyncPeer) (from : ℕ) (msg : P2pMessage)
      → lookup k m.peers ≡ some p
      → request_blocks_from_peer callback now m k from ≡ (m', ok msg)
      → (msg ≡ get_blocks from (request_count from p))
        × (p.banned ≡ false)
        × ((request_count from p == 0) ≡ false)
  unfolding request_blocks_from_peer
  request_sent now m m' k p from msg known h =
      request_from_sent now m m' k p from msg (rw (request_blocks_from_peer, known) at h)

  -- Of a known peer whose height is at least `from` and not within 500 of the end of `u64`,
  -- `request_blocks_from_peer` asks, where it sends a message, at least one block and at most 500
  -- from `from` on, none above the peer's height, and only if the peer is not banned.
  pub request_blocks_from_peer_bounds :
      (now : ℕ) (m m' : SyncManager) (k : List ℕ) (p : SyncPeer) (from : ℕ) (msg : P2pMessage)
      → lookup k m.peers ≡ some p
      → from ≤ p.height
      → p.height + sync_batch_size < 2 ^ 64
      → request_blocks_from_peer callback now m k from ≡ (m', ok msg)
      → (n : ℕ) × (msg ≡ get_blocks from n)
        × (0 < n)
        × (n ≤ sync_batch_size)
        × (from + n ≤ p.height + 1)
        × (p.banned ≡ false)
  request_blocks_from_peer_bounds now m m' k p from msg known low fits h =
      let (same, free, some_left) = request_sent now m m' k p from msg known h in
      let value = request_count_value from p low fits in
      (request_count from p, same, ground arith, ground arith, ground arith, free)

  -- Of a known peer that is more than one block below `from`, with `from` not within 500 of 2^32,
  -- it asks, where it sends a message, more than the 500 blocks that a request may name.
  pub request_blocks_from_peer_behind :
      (now : ℕ) (m m' : SyncManager) (k : List ℕ) (p : SyncPeer) (from : ℕ) (msg : P2pMessage)
      → lookup k m.peers ≡ some p
      → p.height + 1 < from
      → from + sync_batch_size < 2 ^ 32
      → request_blocks_from_peer callback now m k from ≡ (m', ok msg)
      → (n : ℕ) × (msg ≡ get_blocks from n) × (max_blocks_per_request < n)
  request_blocks_from_peer_behind now m m' k p from msg known behind fits h =
      let (same, free, some_left) = request_sent now m m' k p from msg known h in
      (request_count from p, same, request_count_wraps from p behind fits)
