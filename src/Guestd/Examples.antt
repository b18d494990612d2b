-- ===== src/Guestd/Examples.antt =====
-- A supervisor on the scripted channel, and the clock.
use sleepwalk.Prelude.{ℕ, ◌+◌, ◌≡◌, refl, true, List, [], ◌∷◌, ◌++◌, arith}
use sleepwalk.Proto.Ids.{Timestamp, first}
use sleepwalk.Proto.Vsock.{drain_ack, drain_request, run_turn}
use sleepwalk.Guestd.Channel.{
  PseudoChannel, new_pseudo, pseudo_channel, pseudo_transcript, send_pseudo,
}
use sleepwalk.Guestd.Guest.{Guest, new, handle, start_turn, end_turn}
use sleepwalk.Guestd.Guest.Calls.{Call, starts, ends, handles, replays, perform, history, open_turn}
use sleepwalk.Guestd.Guest.Wire.{Truthful, history-Truthful, drain_names_open_turn}
use sleepwalk.Guestd.Guest.Turns.{asked, started_by, history-account}
use sleepwalk.Guestd.Guest.Gate.{HeldSince, history-held}

abbrev at : ℕ → Timestamp
at n = record { nanos = n }

abbrev guest : Guest PseudoChannel
guest = new pseudo_channel (record { uuid = 1 }) (record { version = [] }) new_pseudo

-- One turn runs and a second begins.
abbrev busy_calls : List Call
busy_calls = starts (at 1) ∷ ends (at 2) ∷ starts (at 3) ∷ []

abbrev busy_guest : Guest PseudoChannel
busy_guest = (history pseudo_channel busy_calls guest).1

-- A drain comes while it runs, it ends, and two more are asked for.
abbrev drained_calls : List Call
drained_calls =
    handles (drain_request 500) (at 4)
    ∷ ends (at 5)
    ∷ starts (at 6)
    ∷ handles (run_turn first) (at 7)
    ∷ []

guest-Truthful : Truthful pseudo_channel pseudo_transcript guest
unfolding Truthful new open_turn pseudo_transcript
guest-Truthful = refl

history-Truthful_example :
    Truthful pseudo_channel pseudo_transcript (history pseudo_channel busy_calls guest).1
unfolding history perform start_turn end_turn send_pseudo new
history-Truthful_example =
    history-Truthful pseudo_channel pseudo_transcript busy_calls guest refl guest-Truthful

drain_names_open_turn_example :
    let d = (handle pseudo_channel (drain_request 500) (at 4) busy_guest).1 in
    (d.chan.outbox ≡ busy_guest.chan.outbox ++ drain_ack (open_turn busy_guest.chan.outbox) ∷ [])
    × (d.gated ≡ true)
    × (d.in_flight ≡ busy_guest.in_flight)
    × (d.backlog ≡ busy_guest.backlog)
unfolding history perform start_turn end_turn send_pseudo new handle pseudo_transcript
drain_names_open_turn_example =
    drain_names_open_turn pseudo_channel pseudo_transcript busy_calls guest busy_guest 500 (at 4)
      guest-Truthful refl refl

history-account_example :
    let g' = (history pseudo_channel drained_calls guest).1 in
    started_by pseudo_channel pseudo_transcript g' + g'.backlog
    ≡ started_by pseudo_channel pseudo_transcript guest
      + guest.backlog
      + asked pseudo_channel pseudo_transcript drained_calls guest
unfolding history perform start_turn end_turn send_pseudo new handle
history-account_example =
    history-account pseudo_channel pseudo_transcript drained_calls guest (omega arith) refl

abbrev gated_guest : Guest PseudoChannel
gated_guest = record busy_guest { gated = true }

abbrev gated_calls : List Call
gated_calls = ends (at 5) ∷ starts (at 6) ∷ replays (at 7) ∷ handles (run_turn first) (at 8) ∷ []

history-held_example :
    HeldSince pseudo_channel pseudo_transcript gated_guest
      (history pseudo_channel gated_calls gated_guest).1
history-held_example =
    history-held pseudo_channel pseudo_transcript gated_calls gated_guest refl refl
