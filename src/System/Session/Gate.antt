-- ===== src/System/Session/Gate.antt =====
-- What the guest's own calls leave true: an open gate brings no ack, and a closed one stays closed.
use sleepwalk.Prelude.{
  both_true, ℕ, ◌≡◌, refl, Bool, true, false, Option, none, some, List, [], ◌∷◌, ◌++◌, arith, all,
  All, ◌⊎◌, inl, inr,
}
use sleepwalk.Proto.Ids.{TurnId, Timestamp}
use sleepwalk.Proto.Vsock.{
  GuestToHost, HostToGuest, hello, turn_started, turn_ended, drain_ack, secrets, drain_request,
  drain_cancel, run_turn,
}
use sleepwalk.Guestd.Channel.{PseudoChannel, pseudo_channel, send_pseudo, recv_pseudo}
use sleepwalk.Guestd.Guest.{Guest, handshake, start_turn, replay_next, end_turn, handle}
use sleepwalk.Guestd.Guest.Calls.{
  Call, handshakes, starts, observes, replays, resumes, ends, handles, perform, history,
}
use sleepwalk.Guestd.Guest.Gate.{keeps_gate}

-- The calls that are neither the drain's own nor reopen the gate.
abbrev pub is_local : Call → Bool
is_local (handles (drain_request d) now) = false
is_local c = keeps_gate c

-- The gate is closed and no turn is in flight.
abbrev pub Held : Guest PseudoChannel → Type 0
Held g = (g.gated ≡ true) × (g.in_flight ≡ none)

-- The message does not acknowledge an idle guest.
abbrev pub NotIdle : GuestToHost → Type 0
NotIdle (drain_ack none) = ⊥
NotIdle _ = Unit

abbrev pub Unacked : Guest PseudoChannel → Type 0
Unacked g = All NotIdle g.chan.outbox

NotIdle-append :
    (ms : List GuestToHost) (m : GuestToHost)
    → NotIdle m
    → All NotIdle ms
    → All NotIdle (ms ++ m ∷ [])
NotIdle-append [] m n h = (n, tt)
NotIdle-append (k ∷ ms) m n h = (h.0, NotIdle-append ms m n h.1)

perform-Held :
    (c : Call) (g : Guest PseudoChannel)
    → is_local c ≡ true
    → Held g
    → Held (perform pseudo_channel c g).1
unfolding perform handshake start_turn replay_next end_turn handle recv_pseudo send_pseudo
perform-Held handshakes g k h = ground arith
perform-Held (starts now) g k h = ground arith
perform-Held (observes now) g k h = cc
perform-Held (replays now) g k h = ground arith
perform-Held (resumes now) g k h = cc
perform-Held (ends now) g k h = ground arith
perform-Held (handles (run_turn t) now) g k h = ground arith
perform-Held (handles (drain_request d) now) g k h = cc
perform-Held (handles drain_cancel now) g k h = cc
perform-Held (handles (secrets env) now) g k h = h
perform-Held (handles HostToGuest.ping now) g k h = h
perform-Held (handles HostToGuest.pong now) g k h = h

ends-Unacked :
    (now : Timestamp) (o : Option TurnId) (g : Guest PseudoChannel)
    → g.in_flight ≡ o
    → Unacked g
    → Unacked (perform pseudo_channel (ends now) g).1
unfolding perform end_turn send_pseudo
ends-Unacked now none g e h = ground arith
ends-Unacked now (some t) g e h =
    ground (arith, NotIdle-append g.chan.outbox (turn_ended t now) tt h)

perform-Unacked :
    (c : Call) (g : Guest PseudoChannel)
    → is_local c ≡ true
    → Unacked g
    → Unacked (perform pseudo_channel c g).1
unfolding perform handshake start_turn replay_next end_turn handle recv_pseudo send_pseudo
perform-Unacked handshakes g k h =
    ground (arith, NotIdle-append g.chan.outbox (hello g.vm_id g.version) tt h)
perform-Unacked (starts now) g k h =
    ground (arith, NotIdle-append g.chan.outbox (turn_started g.next_turn now) tt h)
perform-Unacked (observes now) g k h = cc
perform-Unacked (replays now) g k h =
    ground (arith, NotIdle-append g.chan.outbox (turn_started g.next_turn now) tt h)
perform-Unacked (resumes now) g k h = cc
perform-Unacked (ends now) g k h = ends-Unacked now g.in_flight g refl h
perform-Unacked (handles (run_turn t) now) g k h =
    let begun = NotIdle-append g.chan.outbox (turn_started t now) tt h in
    ground
      (arith, NotIdle-append (g.chan.outbox ++ turn_started t now ∷ []) (turn_ended t now) tt begun)
perform-Unacked (handles (drain_request d) now) g k h = cc
perform-Unacked (handles drain_cancel now) g k h = cc
perform-Unacked (handles (secrets env) now) g k h = h
perform-Unacked (handles HostToGuest.ping now) g k h =
    NotIdle-append g.chan.outbox GuestToHost.pong tt h
perform-Unacked (handles HostToGuest.pong now) g k h = h

-- Either the host cannot read that the guest is idle, or the guest is gated and idle.
abbrev pub Sound : Guest PseudoChannel → Type 0
Sound g = Unacked g ⊎ Held g

perform-Sound :
    (c : Call) (g : Guest PseudoChannel)
    → is_local c ≡ true
    → Sound g
    → Sound (perform pseudo_channel c g).1
perform-Sound c g k (inl h) = inl (perform-Unacked c g k h)
perform-Sound c g k (inr h) = inr (perform-Held c g k h)

pub history-Sound :
    (cs : List Call) (g : Guest PseudoChannel)
    → all is_local cs ≡ true
    → Sound g
    → Sound (history pseudo_channel cs g).1
unfolding history
history-Sound [] g k h = h
history-Sound (c ∷ cs) g k h =
    let (now_local, later_local) = both_true (is_local c) (all is_local cs) k in
    history-Sound cs (perform pseudo_channel c g).1 later_local (perform-Sound c g now_local h)

pub history-Held :
    (cs : List Call) (g : Guest PseudoChannel)
    → all is_local cs ≡ true
    → Held g
    → Held (history pseudo_channel cs g).1
unfolding history
history-Held [] g k h = h
history-Held (c ∷ cs) g k h =
    let (now_local, later_local) = both_true (is_local c) (all is_local cs) k in
    history-Held cs (perform pseudo_channel c g).1 later_local (perform-Held c g now_local h)

-- An ack of an idle guest is an ack of a guest that is held.
pub request-Sound :
    (d : ℕ) (now : Timestamp) (o : Option TurnId) (g : Guest PseudoChannel)
    → g.in_flight ≡ o
    → Sound g
    → Sound (handle pseudo_channel (drain_request d) now g).1
unfolding handle send_pseudo
request-Sound d now none g e h = inr (refl, e)
request-Sound d now (some t) g e (inl h) =
    inl (ground (arith, NotIdle-append g.chan.outbox (drain_ack (some t)) tt h))
request-Sound d now (some t) g e (inr h) = ground arith
