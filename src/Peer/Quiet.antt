-- ===== src/Peer/Quiet.antt =====
-- What a connection sends and what it passes on.
use accum_core.Base.{
  ℕ, ◌≤◌, ◌≡◌, refl, inl, inr, Bool, true, false, ◌&&◌, Option, none, some, List, [], ltb, leb,
  Bool-cases, arith,
}
use accum_core.Peer.{
  PeerConnection, received, P2pMessage, heartbeat, ping, pong, version_message, get_blocks,
  ban_peer, other_message, Frame, would_block, too_large, io_error, undecodable, decoded,
  send_message, ban, reset_hour, count_message, check_rate_limit, look_into, note_message, limited,
  receive_message, check_version, max_blocks_per_request, min_version, max_version,
}

-- What a message that is passed on satisfies.
abbrev pub Acceptable : P2pMessage → Type 0
Acceptable (version_message v h hash) = (min_version ≤ v) × (v ≤ max_version)
Acceptable (get_blocks from count) = count ≤ max_blocks_per_request
Acceptable (heartbeat nonce) = Unit
Acceptable (ping nonce) = Unit
Acceptable (pong nonce) = Unit
Acceptable (ban_peer id) = Unit
Acceptable other_message = Unit

abbrev AcceptableOr : Option P2pMessage → Type 0
AcceptableOr none = Unit
AcceptableOr (some msg) = Acceptable msg

-- Nothing was sent in a call that leaves the connection banned.
abbrev Silent : (PeerConnection × List P2pMessage) → Type 0
Silent (p, out) = p.banned ≡ true → out ≡ []

module _ (delivered : P2pMessage → Bool) where
  ban-Silent :
      (now : ℕ) (p : PeerConnection)
      → ((ban delivered now p).0.banned ≡ true) × ((ban delivered now p).1 ≡ [])
  unfolding ban send_message
  ban-Silent now p = ground arith

  send_message-Silent :
      (now : ℕ) (p : PeerConnection) (msg : P2pMessage) → Silent (send_message delivered now p msg)
  unfolding send_message
  send_message-Silent now p msg h = ground arith

  look_into-Silent :
      (now : ℕ) (p : PeerConnection) (msg : P2pMessage) → Silent (look_into delivered now p msg).0
  unfolding look_into
  look_into-Silent now p (heartbeat nonce) h = send_message-Silent now _ (pong nonce) h
  look_into-Silent now p (ping nonce) h = refl
  look_into-Silent now p (pong nonce) h = refl
  look_into-Silent now p (version_message v k hash) h =
      let e =
        (ban-Silent now
          (record p { height = some k; best_hash = some hash; version = some v })).1 in
      ground arith
  look_into-Silent now p (get_blocks from count) h = let e = (ban-Silent now p).1 in ground arith
  look_into-Silent now p (ban_peer id) h = let e = (ban-Silent now p).1 in ground arith
  look_into-Silent now p other_message h = refl

  limited-Silent :
      (now : ℕ) (msg : P2pMessage) (r : (PeerConnection × List P2pMessage) × Bool)
      → (r.1 ≡ false → r.0.1 ≡ [])
      → Silent (limited delivered now msg r).0
  unfolding limited note_message
  limited-Silent now msg ((p, out), true) quiet = look_into-Silent now (received now p) msg
  limited-Silent now msg ((p, out), false) quiet = λ h. quiet refl

  check_rate_limit-quiet :
      (now : ℕ) (p : PeerConnection)
      → (check_rate_limit delivered now p).1 ≡ false
      → (check_rate_limit delivered now p).0.1 ≡ []
  unfolding check_rate_limit count_message
  check_rate_limit-quiet now p h =
      let e = (ban-Silent now (reset_hour delivered now p)).1 in ground arith

  -- Whatever arrives, and whatever the connection was before: when it is banned after
  -- `receive_message`, that call has sent nothing, not even the notice of the ban.
  pub receive_message-Silent :
      (now : ℕ) (p : PeerConnection) (frame : Frame)
      → (receive_message delivered now p frame).0.0.banned ≡ true
      → (receive_message delivered now p frame).0.1 ≡ []
  unfolding receive_message
  receive_message-Silent now p would_block h = refl
  receive_message-Silent now p io_error h = refl
  receive_message-Silent now p undecodable h = refl
  receive_message-Silent now p too_large h = (ban-Silent now _).1
  receive_message-Silent now p (decoded msg) h =
      limited-Silent now msg (check_rate_limit delivered now p) (check_rate_limit-quiet now p) h

  -- What is passed on is acceptable.
  look_into_sound :
      (now : ℕ) (p : PeerConnection) (msg : P2pMessage)
      → AcceptableOr (look_into delivered now p msg).1
  unfolding look_into check_version
  look_into_sound now p (heartbeat nonce) = tt
  look_into_sound now p (ping nonce) = tt
  look_into_sound now p (pong nonce) = tt
  look_into_sound now p (version_message v k hash) =
      elim (Bool-cases (leb min_version v && leb v max_version)) [
        | inl good ↦ rw good (ground arith, ground arith)
        | inr bad ↦ rw bad tt
      ]
  look_into_sound now p (get_blocks from count) =
      elim (Bool-cases (ltb max_blocks_per_request count)) [
        | inl many ↦ rw many tt
        | inr few ↦ rw few (ground arith)
      ]
  look_into_sound now p (ban_peer id) = tt
  look_into_sound now p other_message = tt

  limited_sound :
      (now : ℕ) (msg : P2pMessage) (r : (PeerConnection × List P2pMessage) × Bool)
      → AcceptableOr (limited delivered now msg r).1
  unfolding limited note_message
  limited_sound now msg ((q, out), true) = look_into_sound now (received now q) msg
  limited_sound now msg ((q, out), false) = tt

  receive_message_checked :
      (now : ℕ) (p : PeerConnection) (frame : Frame)
      → AcceptableOr (receive_message delivered now p frame).1
  unfolding receive_message
  receive_message_checked now p would_block = tt
  receive_message_checked now p io_error = tt
  receive_message_checked now p undecodable = tt
  receive_message_checked now p too_large = tt
  receive_message_checked now p (decoded msg) =
      limited_sound now msg (check_rate_limit delivered now p)

  -- A message that `receive_message` passes on announces the one supported version if it is a
  -- `Version`, and asks for at most 500 blocks if it is a `GetBlocks`.
  receive_message_sound :
      (now : ℕ) (p : PeerConnection) (frame : Frame) (msg : P2pMessage)
      → (receive_message delivered now p frame).1 ≡ some msg
      → Acceptable msg
  receive_message_sound now p frame msg h = rw h at (receive_message_checked now p frame)
