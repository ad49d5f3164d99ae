-- ===== src/Peer/Hourly.antt =====
-- How many messages a connection passes on in an hour.
use accum_core.Base.{
  ℕ, ◌+◌, ◌*◌, ◌%◌, ◌^◌, ◌≤◌, ◌<◌, ◌⊎◌, ap, ◌≡◌, refl, inl, inr, Bool, true, false, none, List, [],
  ◌∷◌, ◌++◌, ltb, length, length-append, ◌∙◌, Bool-cases, arith,
}
use accum_core.Pow.{wrapping_sub}
use accum_core.Peer.{
  PeerConnection, P2pMessage, Frame, would_block, too_large, io_error, undecodable, decoded,
  reset_hour, check_rate_limit, receive_message, max_messages_per_hour,
}
use accum_core.Peer.Counts.{passed_list, Kept, ban-Kept, receive_message-Counts}

module _ (delivered : P2pMessage → Bool) where
  -- The frames of a connection one after the other, each with the time of its call: the messages
  -- that are passed on.
  pub receive_all : PeerConnection → List (ℕ × Frame) → List P2pMessage
  receive_all p [] = []
  receive_all p ((now, frame) ∷ rest) =
      let ((q, out), passed) = receive_message delivered now p frame in
      passed_list passed ++ receive_all q rest

  -- Calls at most an hour after `start`.
  abbrev pub AllWithinHour : ℕ → List (ℕ × Frame) → Type 0
  AllWithinHour start [] = Unit
  AllWithinHour start ((now, frame) ∷ rest) =
      (ltb 3600 (wrapping_sub now start) ≡ false) × AllWithinHour start rest

  -- Of the frames that arrive within an hour of the last reset at most 1000 are passed on, counted
  -- with those that the connection has counted since that reset.
  receive_all_bounded :
      (p : PeerConnection) (frames : List (ℕ × Frame))
      → p.messages_this_hour ≤ max_messages_per_hour
      → AllWithinHour p.last_hour_reset frames
      → length (receive_all p frames) + p.messages_this_hour ≤ max_messages_per_hour
  unfolding receive_all
  receive_all_bounded p [] low within = omega arith
  receive_all_bounded p ((now, frame) ∷ rest) low (here, within) =
      let step = receive_message-Counts delivered now p frame here low in
      let ((q, out), passed) = receive_message delivered now p frame in
      let ih = receive_all_bounded q rest step.capped (rw (step.same_hour) within) in
      let split = length-append (passed_list passed) (receive_all q rest) in
      let once = step.counted in omega arith

  -- The times of the calls, in their order, from `low` to `high`.
  abbrev pub AllBetween : ℕ → ℕ → List (ℕ × Frame) → Type 0
  AllBetween low high [] = Unit
  AllBetween low high ((now, frame) ∷ rest) = (low ≤ now) × (now ≤ high) × AllBetween now high rest

  -- A reset is the last one within the hour.
  between-AllWithinHour :
      (start low high : ℕ) (frames : List (ℕ × Frame))
      → start ≤ low
      → high ≤ start + 3600
      → high < 2 ^ 64
      → AllBetween low high frames
      → AllWithinHour start frames
  between-AllWithinHour start low high [] before span fits h = tt
  between-AllWithinHour start low high ((now, frame) ∷ rest) before span fits (a, b, later) =
      (ground arith, between-AllWithinHour start now high rest (omega arith) span fits later)

  -- A message that is due to reset the hour is received as after the reset.
  reset_first :
      (now : ℕ) (p : PeerConnection) (msg : P2pMessage)
      → now < 2 ^ 64
      → ltb 3600 (wrapping_sub now p.last_hour_reset) ≡ true
      → receive_message delivered now p (decoded msg)
        ≡ receive_message delivered now
            (record p { messages_this_hour = 0; last_hour_reset = now })
            (decoded msg)
  unfolding receive_message check_rate_limit reset_hour
  reset_first now p msg fits due =
      let fresh : ltb 3600 (wrapping_sub now now) ≡ false = ground arith in rw (due, fresh) refl

  -- A frame without a message leaves the counter and the hour.
  frame-Kept :
      (now : ℕ) (p : PeerConnection) (frame : Frame)
      → ((msg : P2pMessage) × (frame ≡ decoded msg))
        ⊎ (Kept delivered p (receive_message delivered now p frame).0.0
            × ((receive_message delivered now p frame).1 ≡ none))
  unfolding receive_message Kept
  frame-Kept now p would_block = inr ((refl, refl), refl)
  frame-Kept now p io_error = inr ((refl, refl), refl)
  frame-Kept now p undecodable = inr ((refl, refl), refl)
  frame-Kept now p too_large =
      let e =
        ban-Kept delivered now
          (record p { invalid_messages = (p.invalid_messages + 1) % 2 ^ 32 }) in
      inr ((e.0, e.1), refl)
  frame-Kept now p (decoded msg) = inl (msg, refl)

  from :
      (now low high : ℕ) (frames : List (ℕ × Frame))
      → low ≤ now
      → AllBetween now high frames
      → AllBetween low high frames
  from now low high [] a h = tt
  from now low high ((x, frame) ∷ rest) a (b, d, later) = (omega arith, d, later)

  -- Of the frames that arrive within any hour, in the order of their times, at most 2000 are passed
  -- on, counted with those that the connection has counted already: the hour of the code begins with
  -- a reset, and at most one reset falls into the time.
  pub receive_all_hourly :
      (p : PeerConnection) (low high : ℕ) (frames : List (ℕ × Frame))
      → p.messages_this_hour ≤ max_messages_per_hour
      → high ≤ low + 3600
      → high < 2 ^ 64
      → AllBetween low high frames
      → length (receive_all p frames) + p.messages_this_hour ≤ 2 * max_messages_per_hour
  unfolding receive_all Kept
  receive_all_hourly p low high [] room span fits h = omega arith
  receive_all_hourly p low high ((now, frame) ∷ rest) room span fits (a, b, later) =
      let ((q, out), passed) = receive_message delivered now p frame in
      let split = length-append (passed_list passed) (receive_all q rest) in
      elim (Bool-cases (ltb 3600 (wrapping_sub now p.last_hour_reset))) [
        | inr same ↦
            let step = receive_message-Counts delivered now p frame same room in
            let once = step.counted in
            let ih =
              receive_all_hourly q low high rest step.capped span fits
                (from now low high rest a later) in
            omega arith
        | inl due ↦ elim (frame-Kept now p frame) [
          | inr (kept, nothing) ↦
              let none_passed = ap (λ o. length (passed_list o)) nothing in
              let count = kept.0 in
              let ih =
                receive_all_hourly q low high rest (omega arith) span fits
                  (from now low high rest a later) in
              omega arith
          | inl (msg, e) ↦
              let fresh : PeerConnection = record p {
                messages_this_hour = 0;
                last_hour_reset = now;
              } in
              let reset = reset_first now p msg (omega arith) due in
              let within =
                between-AllWithinHour now now high ((now, decoded msg) ∷ rest) (omega arith)
                  (omega arith) fits (omega arith, b, later) in
              let bound =
                receive_all_bounded fresh ((now, decoded msg) ∷ rest) (omega arith) within in
              let same : receive_all p ((now, frame) ∷ rest)
                  ≡ receive_all fresh ((now, decoded msg) ∷ rest) =
                ap (λ x. receive_all p ((now, x) ∷ rest)) e
                ∙ ap (λ r. passed_list r.1 ++ receive_all r.0.0 rest) reset in
              let size = ap length same in omega arith
        ]
      ]
