-- ===== src/Peer.antt =====
-- `PeerConnection` of accum-node/src/main.rs: what one connection counts, and when it bans its peer.
-- The socket is not in the state; a send is a message in the list that the operation returns. The
-- times `now` are the readings of the clock.
pub mod Quiet
pub mod Counts
pub mod Hourly
use accum_core.Base.{
  ℕ, ◌+◌, ◌%◌, ◌^◌, Bool, true, false, not, ◌&&◌, ◌||◌, Option, none, some, List, [], ◌∷◌, ltb, leb,
  ◌==◌, eq_bytes, if◌then◌else◌,
}
use accum_core.Pow.{wrapping_sub}
use accum_core.Target.{Hash32}

-- `const MAX_MESSAGES_PER_HOUR`
abbrev pub max_messages_per_hour : ℕ
max_messages_per_hour = 1000

-- `const MAX_BLOCKS_PER_REQUEST`
abbrev pub max_blocks_per_request : ℕ
max_blocks_per_request = 500

-- `const PEER_TIMEOUT_SECS`
abbrev peer_timeout_secs : ℕ
peer_timeout_secs = 300

-- `const MIN_VERSION` and `const MAX_VERSION`
abbrev pub min_version : ℕ
min_version = 1

abbrev pub max_version : ℕ
max_version = 1

-- `struct PeerConnection` without the stream and the address, which is only printed. A ban's reason
-- is a byte string.
pub record PeerConnection : Type 0 where
  pub peer_id : List ℕ
  pub last_message_time : ℕ
  pub last_heartbeat : ℕ
  pub last_hour_reset : ℕ
  pub messages_this_hour : ℕ
  pub version : Option ℕ
  pub height : Option ℕ
  pub best_hash : Option Hash32
  pub messages_sent : ℕ
  pub messages_received : ℕ
  pub invalid_messages : ℕ
  pub banned : Bool
  pub ping_nonce : Option ℕ
  pub ping_time : Option ℕ

-- The messages that `receive_message` looks into; `other_message` stands for the rest.
pub data P2pMessage : Type 0 where
  heartbeat : ℕ → P2pMessage
  ping : ℕ → P2pMessage
  pong : ℕ → P2pMessage
  version_message : ℕ → ℕ → Hash32 → P2pMessage
  get_blocks : ℕ → ℕ → P2pMessage
  ban_peer : List ℕ → P2pMessage
  other_message : P2pMessage

-- What the socket holds: nothing yet, a length that is too large, an error or bytes that are no
-- message, or a message.
pub data Frame : Type 0 where
  would_block : Frame
  too_large : Frame
  io_error : Frame
  undecodable : Frame
  decoded : P2pMessage → Frame

-- `PeerConnection::new`
abbrev pub new_connection : List ℕ → ℕ → PeerConnection
new_connection peer_id now = record {
  peer_id = peer_id;
  last_message_time = now;
  last_heartbeat = now;
  last_hour_reset = now;
  messages_this_hour = 0;
  version = none;
  height = none;
  best_hash = none;
  messages_sent = 0;
  messages_received = 0;
  invalid_messages = 0;
  banned = false;
  ping_nonce = none;
  ping_time = none;
}

-- `PeerConnection::is_stale`
abbrev is_stale : ℕ → PeerConnection → Bool
is_stale now p = ltb peer_timeout_secs (wrapping_sub now p.last_message_time)

-- `PeerConnection::needs_heartbeat`
abbrev needs_heartbeat : ℕ → PeerConnection → Bool
needs_heartbeat now p = ltb 30 (wrapping_sub now p.last_heartbeat)

-- `PeerConnection::check_version`: whether it returns `Ok`.
pub check_version : Option ℕ → Bool
check_version none = false
check_version (some v) = leb min_version v && leb v max_version

-- `PeerConnection::update_state`
abbrev update_state : ℕ → PeerConnection → ℕ → Hash32 → PeerConnection
update_state now p height hash = record p {
  height = some height;
  best_hash = some hash;
  last_message_time = now;
}

-- The connection after one more message.
abbrev pub received : ℕ → PeerConnection → PeerConnection
received now p = record p {
  messages_received = (p.messages_received + 1) % 2 ^ 32;
  last_message_time = now;
}

module _ (delivered : P2pMessage → Bool) where
  -- `PeerConnection::send_message`, with what reaches the stream. Whether a message is encoded, is
  -- short enough and is written is the parameter.
  pub send_message : ℕ → PeerConnection → P2pMessage → PeerConnection × List P2pMessage
  send_message now p msg = if p.banned || not (delivered msg) then (p, []) else (
    record p { messages_sent = (p.messages_sent + 1) % 2 ^ 32; last_message_time = now },
    msg ∷ [],
  )

  -- `PeerConnection::send_ping` with the random nonce.
  abbrev send_ping : ℕ → ℕ → PeerConnection → PeerConnection × List P2pMessage
  unfolding send_message
  send_ping nonce now p = send_message now (record p { ping_nonce = some nonce }) (ping nonce)

  -- `PeerConnection::ban`
  pub ban : ℕ → PeerConnection → PeerConnection × List P2pMessage
  unfolding send_message
  ban now p =
      if p.banned
      then (p, [])
      else send_message now (record p { banned = true }) (ban_peer p.peer_id)

  -- The two resets of `check_rate_limit`.
  pub reset_hour : ℕ → PeerConnection → PeerConnection
  reset_hour now p =
      if ltb 3600 (wrapping_sub now p.last_hour_reset)
      then record p { messages_this_hour = 0; last_hour_reset = now }
      else p

  -- The rest of `check_rate_limit`.
  pub count_message : ℕ → PeerConnection → (PeerConnection × List P2pMessage) × Bool
  unfolding ban
  count_message now p =
      if leb max_messages_per_hour p.messages_this_hour
      then (ban now p, false)
      else ((record p { messages_this_hour = (p.messages_this_hour + 1) % 2 ^ 32 }, []), true)

  -- `PeerConnection::check_rate_limit`
  pub check_rate_limit : ℕ → PeerConnection → (PeerConnection × List P2pMessage) × Bool
  unfolding reset_hour count_message
  check_rate_limit now p = count_message now (reset_hour now p)

  -- The answer to a `Pong`.
  note_pong : ℕ → PeerConnection → ℕ → Option ℕ → PeerConnection
  note_pong now p nonce none = record p { last_heartbeat = now }
  note_pong now p nonce (some awaited) = record p {
    last_heartbeat = now;
    ping_time = if nonce == awaited then some now else p.ping_time;
  }

  -- The match on the decoded message in `receive_message`: the message is passed on, or not.
  pub look_into :
      ℕ → PeerConnection → P2pMessage → (PeerConnection × List P2pMessage) × Option P2pMessage
  unfolding send_message ban note_pong check_version
  look_into now p (heartbeat nonce) =
      (send_message now (record p { last_heartbeat = now }) (pong nonce), some (heartbeat nonce))
  look_into now p (ping nonce) = ((p, []), some (ping nonce))
  look_into now p (pong nonce) = ((note_pong now p nonce p.ping_nonce, []), some (pong nonce))
  look_into now p (version_message v h hash) =
      let seen = record p { height = some h; best_hash = some hash; version = some v } in
      if check_version (some v)
      then ((seen, []), some (version_message v h hash))
      else (ban now seen, none)
  look_into now p (get_blocks from count) =
      if ltb max_blocks_per_request count
      then (ban now p, none)
      else ((p, []), some (get_blocks from count))
  look_into now p (ban_peer id) =
      ((if eq_bytes id p.peer_id then ban now p else (p, [])), some (ban_peer id))
  look_into now p other_message = ((p, []), some other_message)

  -- The part of `receive_message` behind the rate limit.
  pub note_message :
      ℕ → PeerConnection → P2pMessage → (PeerConnection × List P2pMessage) × Option P2pMessage
  unfolding look_into
  note_message now p msg = look_into now (received now p) msg

  -- The part of `receive_message` behind the decoding, by what the rate limit returns.
  pub limited :
      ℕ
      → P2pMessage
      → (PeerConnection × List P2pMessage) × Bool
      → (PeerConnection × List P2pMessage) × Option P2pMessage
  unfolding note_message
  limited now msg ((p, out), true) = note_message now p msg
  limited now msg ((p, out), false) = ((p, out), none)

  -- `PeerConnection::receive_message`: the connection, what it has sent, and the message that it
  -- passes on; an error passes on none.
  unfoldable pub receive_message :
      ℕ → PeerConnection → Frame → (PeerConnection × List P2pMessage) × Option P2pMessage
  unfolding limited check_rate_limit ban
  receive_message now p would_block = ((p, []), none)
  receive_message now p io_error = ((p, []), none)
  receive_message now p undecodable =
      ((record p { invalid_messages = (p.invalid_messages + 1) % 2 ^ 32 }, []), none)
  receive_message now p too_large =
      (ban now (record p { invalid_messages = (p.invalid_messages + 1) % 2 ^ 32 }), none)
  receive_message now p (decoded msg) = limited now msg (check_rate_limit now p)
