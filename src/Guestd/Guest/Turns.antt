-- ===== src/Guestd/Guest/Turns.antt =====
-- Turns that start and turns that wait: what the gate holds back, and that nothing is lost.
use sleepwalk.Prelude.{
  ℕ, ◌+◌, ◌*◌, ◌^◌, length, ◌≤◌, ◌<◌, ◌≡◌, refl, true, Option, none, some, List, [], ◌∷◌, arith,
}
use sleepwalk.Prelude.Results.{Result, ok, err}
use sleepwalk.Proto.Ids.{TurnId, Timestamp}
use sleepwalk.Proto.Vsock.{
  GuestToHost, HostToGuest, hello, turn_started, turn_ended, drain_ack, resumed, secrets,
  drain_request, drain_cancel, run_turn,
}
use sleepwalk.Guestd.Channel.{GuestChannel, Transcript, ChannelError}
use sleepwalk.Guestd.Guest.{
  Guest, GuestError, handshake, start_turn, begin_observed_turn, replay_next, resume, end_turn,
  handle,
}
use sleepwalk.Guestd.Guest.Calls.{
  Call, handshakes, starts, observes, replays, resumes, ends, handles, spoke, perform, history,
  start_count, turns_started, turns_started-snoc,
}

-- The calls that ask for one more turn to be run.
abbrev pub asks : Call → ℕ
asks (starts now) = 1
asks (observes now) = 1
asks (handles (run_turn t) now) = 1
asks _ = 0

-- Whether the call was carried out.
abbrev pub accepted : Result (Unit {0}) GuestError → ℕ
accepted (ok _) = 1
accepted (err _) = 0

module _ (ch : GuestChannel) (tr : Transcript ch) where
  abbrev pub started_by : Guest ch.Conn → ℕ
  started_by g = turns_started (tr.sent g.chan)

  started_after :
      (m : GuestToHost) (c : ch.Conn)
      → (ch.send m c).0 ≡ ok tt
      → turns_started (tr.sent (ch.send m c).1) ≡ turns_started (tr.sent c) + start_count m
  started_after m c h = rw (tr.sent-send_ok m c h) (turns_started-snoc (tr.sent c) m)

  unsent :
      (m : GuestToHost) (c : ch.Conn) (e : ChannelError)
      → (ch.send m c).0 ≡ err e
      → turns_started (tr.sent (ch.send m c).1) ≡ turns_started (tr.sent c)
  unsent m c e h = rw (tr.sent-send_err m c e h)

  pub quiet :
      (m : GuestToHost) (c : ch.Conn)
      → start_count m ≡ 0
      → turns_started (tr.sent (ch.send m c).1) ≡ turns_started (tr.sent c)
  quiet m c z = by_result (ch.send m c).0 refl
    where
      by_result :
          (r : Result (Unit {0}) ChannelError)
          → (ch.send m c).0 ≡ r
          → turns_started (tr.sent (ch.send m c).1) ≡ turns_started (tr.sent c)
      by_result (ok u) e = omega (arith, started_after m c e)
      by_result (err x) e = unsent m c x e

  -- What a call does to the turns started and waiting, if the channel does not fail.
  abbrev Accounts : Call → Guest ch.Conn → Type 0
  Accounts c g =
      let (r, g') = perform ch c g in
      spoke r ≡ true → started_by g' + g'.backlog ≡ started_by g + g.backlog + asks c * accepted r

  module _ (g : Guest ch.Conn) (b : g.backlog + 1 < 2 ^ 32) where
    starts-account : (now : Timestamp) → Accounts (starts now) g
    unfolding start_turn perform
    starts-account now s = ground (arith, started_after (turn_started g.next_turn now) g.chan)

    observes-account : (now : Timestamp) → Accounts (observes now) g
    unfolding begin_observed_turn perform
    observes-account now s = ground (arith, started_after (turn_started g.next_turn now) g.chan)

    replays-account : (now : Timestamp) → Accounts (replays now) g
    unfolding replay_next perform
    replays-account now s = ground (arith, started_after (turn_started g.next_turn now) g.chan)

    ends-account : (now : Timestamp) (o : Option TurnId) → g.in_flight ≡ o → Accounts (ends now) g
    unfolding end_turn perform
    ends-account now none e s = ground arith
    ends-account now (some t) e s = ground (arith, quiet (turn_ended t now) g.chan)

    handles-account : (m : HostToGuest) (now : Timestamp) → Accounts (handles m now) g
    unfolding handle perform
    handles-account (run_turn t) now s = ground (
      arith,
      started_after (turn_started t now) g.chan,
      quiet (turn_ended t now) (ch.send (turn_started t now) g.chan).1,
    )
    handles-account (drain_request d) now s = ground (arith, quiet (drain_ack g.in_flight) g.chan)
    handles-account drain_cancel now s = ground arith
    handles-account (secrets env) now s = ground arith
    handles-account HostToGuest.ping now s = ground (arith, quiet GuestToHost.pong g.chan)
    handles-account HostToGuest.pong now s = ground arith

    perform-account : (c : Call) → Accounts c g
    unfolding handshake resume perform
    perform-account handshakes s =
        let greeting = hello g.vm_id g.version in
        ground (arith, quiet greeting g.chan, tr.sent-recv (ch.send greeting g.chan).1)
    perform-account (starts now) s = starts-account now s
    perform-account (observes now) s = observes-account now s
    perform-account (replays now) s = replays-account now s
    perform-account (resumes now) s = ground (arith, quiet (resumed now) g.chan)
    perform-account (ends now) s = ends-account now g.in_flight refl s
    perform-account (handles m now) s = handles-account m now s

  handle-backlog :
      (m : HostToGuest) (now : Timestamp) (g : Guest ch.Conn)
      → (handle ch m now g).1.backlog ≤ g.backlog + 1
  unfolding handle
  handle-backlog (run_turn t) now g = ground arith
  handle-backlog _ now g = ground arith

  -- No call adds more than one turn to the backlog.
  perform-backlog : (c : Call) (g : Guest ch.Conn) → (perform ch c g).1.backlog ≤ g.backlog + 1
  unfolding perform handshake start_turn begin_observed_turn replay_next resume end_turn
  perform-backlog handshakes g = ground arith
  perform-backlog (handles m now) g = ground (arith, handle-backlog m now g)
  perform-backlog _ g = ground arith

  -- How many of the calls asked for a turn and were accepted.
  pub asked : List Call → Guest ch.Conn → ℕ
  asked [] g = 0
  asked (c ∷ cs) g = let (r, g') = perform ch c g in asks c * accepted r + asked cs g'

  -- If the channel does not fail and the backlog and the number of the calls are below 2^32 together,
  -- so that the counter of the backlog does not wrap, then after any calls every request for a turn
  -- that was accepted has been started or waits in the backlog: none is lost and none invented.
  pub history-account :
      (cs : List Call) (g : Guest ch.Conn)
      → g.backlog + length cs < 2 ^ 32
      → (history ch cs g).0 ≡ true
      → let g' = (history ch cs g).1 in
        started_by g' + g'.backlog ≡ started_by g + g.backlog + asked cs g
  unfolding history asked
  history-account [] g b s = omega arith
  history-account (c ∷ cs) g b s = ground (
    arith,
    perform-account g (omega arith) c,
    perform-backlog c g,
    history-account cs (perform ch c g).1,
  )
