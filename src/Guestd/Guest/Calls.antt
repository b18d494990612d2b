-- ===== src/Guestd/Guest/Calls.antt =====
-- Every call that a program can make on a `Guest`, as one type, and a history of them.
use sleepwalk.Prelude.{
  ℕ, ◌+◌, ◌≡◌, refl, Bool, true, false, ◌&&◌, Option, none, some, List, [], ◌∷◌, ◌++◌, arith,
}
use sleepwalk.Prelude.Results.{Result, ok, err}
use sleepwalk.Proto.Ids.{TurnId, Timestamp}
use sleepwalk.Proto.Vsock.{GuestToHost, HostToGuest, turn_started, turn_ended}
use sleepwalk.Guestd.Channel.{GuestChannel}
use sleepwalk.Guestd.Guest.{
  Guest, GuestError, channel, handshake, start_turn, begin_observed_turn, replay_next, resume,
  end_turn, handle,
}

pub data Call : Type 0 where
  handshakes : Call
  starts observes replays resumes ends : Timestamp → Call
  handles : HostToGuest → Timestamp → Call

-- The result without its value.
abbrev pub outcome : {A S : Type 0} → Result A GuestError × S → Result (Unit {0}) GuestError × S
outcome (ok _, s) = (ok tt, s)
outcome (err e, s) = (err e, s)

-- Whether the call ended otherwise than by a failure of the channel.
abbrev pub spoke : {A : Type 0} → Result A GuestError → Bool
spoke (err (channel _)) = false
spoke _ = true

module _ (ch : GuestChannel) where
  unfoldable pub perform : Call → Guest ch.Conn → Result (Unit {0}) GuestError × Guest ch.Conn
  perform handshakes g = outcome (handshake ch g)
  perform (starts now) g = outcome (start_turn ch now g)
  perform (observes now) g = outcome (begin_observed_turn ch now g)
  perform (replays now) g = outcome (replay_next ch now g)
  perform (resumes now) g = outcome (resume ch now g)
  perform (ends now) g = outcome (end_turn ch now g)
  perform (handles m now) g = outcome (handle ch m now g)

  -- A history of calls, and whether no call of it was cut off by the channel.
  unfoldable pub history : List Call → Guest ch.Conn → Bool × Guest ch.Conn
  history [] g = (true, g)
  history (c ∷ cs) g =
      let (r, g') = perform c g in let (rest, g'') = history cs g' in (spoke r && rest, g'')

-- The turn that the messages leave open: the last one started, if nothing ended it.
abbrev pub note : Option TurnId → GuestToHost → Option TurnId
note w (turn_started t now) = some t
note w (turn_ended t now) = none
note w _ = w

pub open_from : Option TurnId → List GuestToHost → Option TurnId
open_from w [] = w
open_from w (m ∷ ms) = open_from (note w m) ms

unfoldable pub open_turn : List GuestToHost → Option TurnId
unfolding open_from
open_turn = open_from none

open_from-snoc :
    (w : Option TurnId) (ms : List GuestToHost) (m : GuestToHost)
    → open_from w (ms ++ m ∷ []) ≡ note (open_from w ms) m
unfolding open_from
open_from-snoc w [] m = refl
open_from-snoc w (n ∷ ms) m = open_from-snoc (note w n) ms m

pub open_turn-snoc :
    (ms : List GuestToHost) (m : GuestToHost) → open_turn (ms ++ m ∷ []) ≡ note (open_turn ms) m
unfolding open_turn
open_turn-snoc = open_from-snoc none

-- How many turns the messages start.
abbrev pub start_count : GuestToHost → ℕ
start_count (turn_started t now) = 1
start_count _ = 0

unfoldable pub turns_started : List GuestToHost → ℕ
turns_started [] = 0
turns_started (m ∷ ms) = start_count m + turns_started ms

pub turns_started-snoc :
    (ms : List GuestToHost) (m : GuestToHost)
    → turns_started (ms ++ m ∷ []) ≡ turns_started ms + start_count m
unfolding turns_started
turns_started-snoc [] m = omega arith
turns_started-snoc (n ∷ ms) m = omega (arith, turns_started-snoc ms m)
