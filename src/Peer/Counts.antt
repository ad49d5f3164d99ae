-- ===== src/Peer/Counts.antt =====
-- What one call of `receive_message` does to the counter of the hour.
use accum_core.Base.{
  ℕ, ◌+◌, ◌%◌, ◌^◌, ◌≤◌, ◌≡◌, refl, inl, inr, Bool, true, false, Option, none, some, List, [], ◌∷◌,
  ltb, leb, if◌then◌else◌, length, ◌∙◌, Bool-cases, arith,
}
use accum_core.Pow.{wrapping_sub}
use accum_core.Peer.{
  PeerConnection, received, P2pMessage, heartbeat, ping, pong, version_message, get_blocks,
  ban_peer, other_message, Frame, would_block, too_large, io_error, undecodable, decoded,
  send_message, ban, reset_hour, count_message, check_rate_limit, note_pong, look_into,
  note_message, limited, receive_message, max_messages_per_hour,
}

-- The message that a call passes on, as a list.
abbrev pub passed_list : Option P2pMessage → List P2pMessage
passed_list none = []
passed_list (some msg) = msg ∷ []

module _ (delivered : P2pMessage → Bool) where
  -- The counter of the hour and its start.
  unfoldable pub Kept : PeerConnection → PeerConnection → Type 0
  Kept p q = (q.messages_this_hour ≡ p.messages_this_hour) × (q.last_hour_reset ≡ p.last_hour_reset)

  send_message-Kept :
      (now : ℕ) (p : PeerConnection) (msg : P2pMessage)
      → Kept p (send_message delivered now p msg).0
  unfolding send_message Kept
  send_message-Kept now p msg = ground arith

  pub ban-Kept : (now : ℕ) (p : PeerConnection) → Kept p (ban delivered now p).0
  unfolding ban send_message Kept
  ban-Kept now p = ground arith

  look_into-Kept :
      (now : ℕ) (p : PeerConnection) (msg : P2pMessage) → Kept p (look_into delivered now p msg).0.0
  unfolding look_into note_pong Kept
  look_into-Kept now p (heartbeat nonce) = send_message-Kept now _ (pong nonce)
  look_into-Kept now p (ping nonce) = (refl, refl)
  look_into-Kept now p (pong nonce) = ground arith
  look_into-Kept now p (version_message v k hash) =
      let e =
        ban-Kept now (record p { height = some k; best_hash = some hash; version = some v }) in
      ground arith
  look_into-Kept now p (get_blocks from count) = let e = ban-Kept now p in ground arith
  look_into-Kept now p (ban_peer id) = let e = ban-Kept now p in ground arith
  look_into-Kept now p other_message = (refl, refl)

  -- One call inside the hour: a message that is passed on advances the counter, which is below the
  -- limit.
  pub record Counts (p q : PeerConnection) (passed : Option P2pMessage) : Type 0 where
    pub same_hour : q.last_hour_reset ≡ p.last_hour_reset
    pub counted : length (passed_list passed) + p.messages_this_hour ≤ q.messages_this_hour
    pub capped : q.messages_this_hour ≤ max_messages_per_hour

  check_rate_limit-room :
      (now : ℕ) (p : PeerConnection)
      → ltb 3600 (wrapping_sub now p.last_hour_reset) ≡ false
      → p.messages_this_hour ≤ max_messages_per_hour
      → let ((q, out), allowed) = check_rate_limit delivered now p in
        (q.last_hour_reset ≡ p.last_hour_reset)
        × ((if allowed then 1 else 0) + p.messages_this_hour ≤ q.messages_this_hour)
        × (q.messages_this_hour ≤ max_messages_per_hour)
  unfolding check_rate_limit count_message reset_hour Kept
  check_rate_limit-room now p same low =
      let e = ban-Kept now p in
      elim (Bool-cases (leb max_messages_per_hour p.messages_this_hour)) [
        | inl full ↦ rw (same, full) (e.1, omega arith, omega arith)
        | inr room ↦ rw (same, room) (refl, ground arith, ground arith)
      ]

  passed_short : (passed : Option P2pMessage) → length (passed_list passed) ≤ 1
  passed_short none = omega arith
  passed_short (some msg) = omega arith

  limited-Counts :
      (now : ℕ) (p : PeerConnection) (msg : P2pMessage)
      (r : (PeerConnection × List P2pMessage) × Bool)
      → (r.0.0.last_hour_reset ≡ p.last_hour_reset)
        × ((if r.1 then 1 else 0) + p.messages_this_hour ≤ r.0.0.messages_this_hour)
        × (r.0.0.messages_this_hour ≤ max_messages_per_hour)
      → Counts p (limited delivered now msg r).0.0 (limited delivered now msg r).1
  unfolding limited note_message Kept
  limited-Counts now p msg ((q, out), true) (reset, counted, low) =
      let seen = received now q in
      let kept = look_into-Kept now seen msg in
      let short = passed_short (look_into delivered now seen msg).1 in
      record { same_hour = kept.1 ∙ reset; counted = omega arith; capped = omega arith }
  limited-Counts now p msg ((q, out), false) (reset, counted, low) = record {
    same_hour = reset;
    counted = counted;
    capped = low;
  }

  pub receive_message-Counts :
      (now : ℕ) (p : PeerConnection) (frame : Frame)
      → ltb 3600 (wrapping_sub now p.last_hour_reset) ≡ false
      → p.messages_this_hour ≤ max_messages_per_hour
      → Counts p
          (receive_message delivered now p frame).0.0
          (receive_message delivered now p frame).1
  unfolding receive_message Kept
  receive_message-Counts now p would_block same low = record {
    same_hour = refl;
    counted = omega arith;
    capped = low;
  }
  receive_message-Counts now p io_error same low = record {
    same_hour = refl;
    counted = omega arith;
    capped = low;
  }
  receive_message-Counts now p undecodable same low = record {
    same_hour = refl;
    counted = omega arith;
    capped = low;
  }
  receive_message-Counts now p too_large same low =
      let e = ban-Kept now (record p { invalid_messages = (p.invalid_messages + 1) % 2 ^ 32 }) in
      record { same_hour = e.1; counted = omega arith; capped = omega arith }
  receive_message-Counts now p (decoded msg) same low =
      limited-Counts now p msg (check_rate_limit delivered now p)
        (check_rate_limit-room now p same low)
