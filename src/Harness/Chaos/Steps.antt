-- ===== src/Harness/Chaos/Steps.antt =====
-- What each event does to the state.
use sleepwalk.Prelude.{
  ℕ, ◌+◌, ◌%◌, ◌^◌, ◌≡◌, refl, true, false, if◌then◌else◌, ◌==◌, none, some, [], ◌∷◌, ◌++◌, arith,
}
use sleepwalk.Prelude.Results.{ok}
use sleepwalk.Proto.Ids.{TurnId, next}
use sleepwalk.Proto.Vsock.{GuestToHost, turn_started, turn_ended, drain_ack}
use sleepwalk.Guestd.Channel.{PseudoChannel, send_pseudo}
use sleepwalk.Guestd.Guest.{Guest, start_turn, end_turn, handle}
use sleepwalk.Harness.Chaos.{Event, Kind, Sim, at_tick, drain_event, play, increment}

abbrev pub say : GuestToHost → Guest PseudoChannel → Guest PseudoChannel
say m g = record g { chan = record g.chan { outbox = g.chan.outbox ++ m ∷ [] } }

abbrev pub on_supervisor : (Guest PseudoChannel → Guest PseudoChannel) → Sim → Sim
on_supervisor f s = record s { guest = f s.guest }

abbrev pub start_event : ℕ → ℕ → Event
start_event i tick = record { tick = tick; kind = Kind.start; turn = i }

abbrev pub end_event : ℕ → ℕ → Event
end_event i tick = record { tick = tick; kind = Kind.end; turn = i }

-- The state after a turn has started.
abbrev pub begun : ℕ → ℕ → Sim → Sim
begun i tick s = record s {
  guest =
      say (turn_started s.guest.next_turn (at_tick tick))
        (record s.guest { next_turn = next s.guest.next_turn; in_flight = some s.guest.next_turn });
  started_at = λ j. if j == i then some s.guest.next_turn else s.started_at j;
}

abbrev pub ended : TurnId → ℕ → Sim → Sim
ended id tick s = record s {
  guest = say (turn_ended id (at_tick tick)) (record s.guest { in_flight = none });
  completed = increment s.completed;
}

abbrev pub deferred : Sim → Sim
deferred s = on_supervisor (λ g. record g { backlog = (g.backlog + 1) % 2 ^ 32 }) s

abbrev pub drained_at : ℕ → Sim → Sim
drained_at tick s = record s {
  guest = say (drain_ack s.guest.in_flight) (record s.guest { gated = true });
  drained = true;
}

pub play_start :
    (i tick : ℕ) (s : Sim)
    → s.guest.gated ≡ false
    → s.guest.in_flight ≡ none
    → s.drained ≡ false
    → play (start_event i tick) s ≡ (ok tt, begun i tick s)
unfolding play start_turn send_pseudo
play_start i tick s gate idle before = ground arith

pub play-deferred :
    (i tick : ℕ) (s : Sim)
    → s.guest.gated ≡ true
    → s.guest.in_flight ≡ none
    → play (start_event i tick) s ≡ (ok tt, deferred s)
unfolding play start_turn
play-deferred i tick s gate idle = ground arith

pub play_end :
    (i tick : ℕ) (id : TurnId) (s : Sim)
    → s.started_at i ≡ some id
    → s.guest.in_flight ≡ some id
    → play (end_event i tick) s ≡ (ok tt, ended id tick s)
unfolding play end_turn send_pseudo
play_end i tick id s known running = ground arith

pub play_no_end :
    (i tick : ℕ) (s : Sim) → s.started_at i ≡ none → play (end_event i tick) s ≡ (ok tt, s)
unfolding play
play_no_end i tick s unknown = ground arith

pub play_drain : (tick : ℕ) (s : Sim) → play (drain_event tick) s ≡ (ok tt, drained_at tick s)
unfolding play handle send_pseudo
play_drain tick s = refl
