-- ===== src/Guestd/Guest/Gate.antt =====
-- The drain gate: what no call can do while it is closed.
use sleepwalk.Prelude.{◌≡◌, refl, Bool, true, false, Option, none, some, List, [], ◌∷◌, arith, all}
use sleepwalk.Proto.Ids.{TurnId, Timestamp}
use sleepwalk.Proto.Vsock.{
  GuestToHost, HostToGuest, hello, turn_ended, drain_ack, secrets, drain_request, drain_cancel,
  run_turn,
}
use sleepwalk.Guestd.Channel.{GuestChannel, Transcript}
use sleepwalk.Guestd.Guest.{Guest, handshake, start_turn, replay_next, end_turn, handle}
use sleepwalk.Guestd.Guest.Calls.{
  Call, handshakes, starts, observes, replays, resumes, ends, handles, perform, history,
}
use sleepwalk.Guestd.Guest.Turns.{started_by, quiet}

-- All calls but those that reopen the gate, and the report of a turn that a wrapped process has
-- begun by itself.
abbrev pub keeps_gate : Call → Bool
keeps_gate (observes now) = false
keeps_gate (resumes now) = false
keeps_gate (handles drain_cancel now) = false
keeps_gate _ = true

module _ (ch : GuestChannel) (tr : Transcript ch) where
  -- The gate is closed, and as many turns have started as before.
  abbrev pub HeldSince : Guest ch.Conn → Guest ch.Conn → Type 0
  HeldSince g g' = (g'.gated ≡ true) × (started_by ch tr g' ≡ started_by ch tr g)

  module _ (g : Guest ch.Conn) (closed : g.gated ≡ true) where
    ends-held :
        (now : Timestamp) (o : Option TurnId)
        → g.in_flight ≡ o
        → HeldSince g (perform ch (ends now) g).1
    unfolding end_turn perform
    ends-held now none e = ground arith
    ends-held now (some t) e = ground (arith, quiet ch tr (turn_ended t now) g.chan)

    handles-held :
        (m : HostToGuest) (now : Timestamp)
        → keeps_gate (handles m now) ≡ true
        → HeldSince g (perform ch (handles m now) g).1
    unfolding handle perform
    handles-held (run_turn t) now k = ground arith
    handles-held (drain_request d) now k =
        ground (arith, quiet ch tr (drain_ack g.in_flight) g.chan)
    handles-held drain_cancel now k = cc
    handles-held (secrets env) now k = ground arith
    handles-held HostToGuest.ping now k = ground (arith, quiet ch tr GuestToHost.pong g.chan)
    handles-held HostToGuest.pong now k = ground arith

    perform-held : (c : Call) → keeps_gate c ≡ true → HeldSince g (perform ch c g).1
    unfolding handshake start_turn replay_next perform
    perform-held handshakes k =
        let greeting = hello g.vm_id g.version in
        ground (arith, quiet ch tr greeting g.chan, tr.sent-recv (ch.send greeting g.chan).1)
    perform-held (starts now) k = ground arith
    perform-held (observes now) k = cc
    perform-held (replays now) k = ground arith
    perform-held (resumes now) k = cc
    perform-held (ends now) k = ends-held now g.in_flight refl
    perform-held (handles m now) k = handles-held m now k

  -- While the gate is closed no turn starts, whatever is called, also if the channel fails: only a
  -- resume or a cancelled drain reopens it, and only a turn observed in a wrapped process passes it.
  pub history-held :
      (cs : List Call) (g : Guest ch.Conn)
      → g.gated ≡ true
      → all keeps_gate cs ≡ true
      → HeldSince g (history ch cs g).1
  unfolding history
  history-held [] g closed k = (closed, refl)
  history-held (c ∷ cs) g closed k =
      ground (arith, perform-held g closed c, history-held cs (perform ch c g).1)
