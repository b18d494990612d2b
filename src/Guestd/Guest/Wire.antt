-- ===== src/Guestd/Guest/Wire.antt =====
-- The state against the transcript of the channel: what is in flight, and what a drain is told.
use sleepwalk.Prelude.{ℕ, ◌≡◌, refl, true, Option, none, some, List, [], ◌∷◌, ◌++◌, arith}
use sleepwalk.Prelude.Results.{ok}
use sleepwalk.Proto.Ids.{TurnId, Timestamp}
use sleepwalk.Proto.Vsock.{
  GuestToHost, HostToGuest, hello, turn_started, turn_ended, drain_ack, resumed, secrets,
  drain_request, drain_cancel, run_turn,
}
use sleepwalk.Guestd.Channel.{GuestChannel, Transcript}
use sleepwalk.Guestd.Guest.{
  Guest, handshake, start_turn, begin_observed_turn, replay_next, resume, end_turn, handle,
}
use sleepwalk.Guestd.Guest.Calls.{
  Call, handshakes, starts, observes, replays, resumes, ends, handles, spoke, perform, history,
  note, open_turn, open_turn-snoc,
}

module _ (ch : GuestChannel) (tr : Transcript ch) where
  -- What the transcript leaves open is what the supervisor believes to be in flight.
  unfoldable pub Truthful : Guest ch.Conn → Type 0
  Truthful g = g.in_flight ≡ open_turn (tr.sent g.chan)

  -- The turn that is open once `m` has been sent.
  open_after :
      (m : GuestToHost) (c : ch.Conn)
      → (ch.send m c).0 ≡ ok tt
      → open_turn (tr.sent (ch.send m c).1) ≡ note (open_turn (tr.sent c)) m
  open_after m c h = rw (tr.sent-send_ok m c h) (open_turn-snoc (tr.sent c) m)

  handshake-Truthful :
      (g : Guest ch.Conn)
      → spoke (handshake ch g).0 ≡ true
      → Truthful g
      → Truthful (handshake ch g).1
  unfolding handshake Truthful
  handshake-Truthful g s h =
      let greeting = hello g.vm_id g.version in
      ground (arith, open_after greeting g.chan, tr.sent-recv (ch.send greeting g.chan).1)

  run_turn-Truthful :
      (t : TurnId) (now : Timestamp) (g : Guest ch.Conn)
      → spoke (handle ch (run_turn t) now g).0 ≡ true
      → Truthful g
      → Truthful (handle ch (run_turn t) now g).1
  unfolding handle Truthful
  run_turn-Truthful t now g s h = ground (
    arith,
    open_after (turn_started t now) g.chan,
    open_after (turn_ended t now) (ch.send (turn_started t now) g.chan).1,
  )

  handle-Truthful :
      (m : HostToGuest) (now : Timestamp) (g : Guest ch.Conn)
      → spoke (handle ch m now g).0 ≡ true
      → Truthful g
      → Truthful (handle ch m now g).1
  unfolding handle Truthful
  handle-Truthful (run_turn t) now g s h = run_turn-Truthful t now g s h
  handle-Truthful (drain_request d) now g s h =
      ground (arith, open_after (drain_ack g.in_flight) g.chan)
  handle-Truthful drain_cancel now g s h = h
  handle-Truthful (secrets env) now g s h = h
  handle-Truthful HostToGuest.ping now g s h = ground (arith, open_after GuestToHost.pong g.chan)
  handle-Truthful HostToGuest.pong now g s h = h

  end_turn-Truthful :
      (o : Option TurnId) (now : Timestamp) (g : Guest ch.Conn)
      → g.in_flight ≡ o
      → spoke (end_turn ch now g).0 ≡ true
      → Truthful g
      → Truthful (end_turn ch now g).1
  unfolding end_turn Truthful
  end_turn-Truthful none now g e s h = ground arith
  end_turn-Truthful (some t) now g e s h = ground (arith, open_after (turn_ended t now) g.chan)

  perform-Truthful :
      (c : Call) (g : Guest ch.Conn)
      → spoke (perform ch c g).0 ≡ true
      → Truthful g
      → Truthful (perform ch c g).1
  unfolding perform start_turn begin_observed_turn replay_next resume Truthful
  perform-Truthful handshakes g s h = ground (arith, handshake-Truthful g)
  perform-Truthful (starts now) g s h =
      ground (arith, open_after (turn_started g.next_turn now) g.chan)
  perform-Truthful (observes now) g s h =
      ground (arith, open_after (turn_started g.next_turn now) g.chan)
  perform-Truthful (replays now) g s h =
      ground (arith, open_after (turn_started g.next_turn now) g.chan)
  perform-Truthful (resumes now) g s h = ground (arith, open_after (resumed now) g.chan)
  perform-Truthful (ends now) g s h = ground (arith, end_turn-Truthful g.in_flight now g refl)
  perform-Truthful (handles m now) g s h = ground (arith, handle-Truthful m now g)

  -- As long as the channel does not fail, after any calls in any order the turn that the
  -- supervisor has in flight is the one that its messages leave open.
  pub history-Truthful :
      (cs : List Call) (g : Guest ch.Conn)
      → (history ch cs g).0 ≡ true
      → Truthful g
      → Truthful (history ch cs g).1
  unfolding history
  history-Truthful [] g s h = h
  history-Truthful (c ∷ cs) g s h =
      ground (arith, perform-Truthful c g, history-Truthful cs (perform ch c g).1)

  -- If the turn in flight was at first the one that the messages sent leave open, and no call of the
  -- channel has failed since, then after any calls a drain request that is answered closes the gate,
  -- and the one message sent for it names the turn that the earlier messages leave open. The turns
  -- themselves are not touched.
  pub drain_names_open_turn :
      (cs : List Call) (g h : Guest ch.Conn) (deadline : ℕ) (now : Timestamp)
      → Truthful g
      → history ch cs g ≡ (true, h)
      → (handle ch (drain_request deadline) now h).0 ≡ ok tt
      → let d = (handle ch (drain_request deadline) now h).1 in
        (tr.sent d.chan ≡ tr.sent h.chan ++ drain_ack (open_turn (tr.sent h.chan)) ∷ [])
        × (d.gated ≡ true)
        × (d.in_flight ≡ h.in_flight)
        × (d.backlog ≡ h.backlog)
  unfolding handle Truthful
  drain_names_open_turn cs g h deadline now t s e =
      ground (arith, tr.sent-send_ok (drain_ack h.in_flight) h.chan, history-Truthful cs g)
