-- ===== src/Harness/Chaos/States.antt =====
-- The state of the simulation as the phases of a run see it.
use sleepwalk.Prelude.{ℕ, ◌+◌, ◌≤◌, ◌≡◌, true, false, none, some, List}
use sleepwalk.Prelude.Results.{Result, ok, err}
use sleepwalk.Proto.Ids.{TurnId}
use sleepwalk.Proto.Vsock.{GuestToHost}
use sleepwalk.Guestd.Guest.{GuestError}
use sleepwalk.Harness.Chaos.{Sim, read_ack}
use sleepwalk.Harness.Chaos.Ack.{answered}

abbrev pub sent : Sim → List GuestToHost
sent s = s.guest.chan.outbox

-- What holds from one point of the run to the end of it: how many turns have been started, and that
-- none of those from `i` on has.
pub record Steady (i : ℕ) (s : Sim) : Type 0 where
  pub clean : s.started_while_gated ≡ 0
  pub fresh : (j : ℕ) → i ≤ j → s.started_at j ≡ none

-- Before the drain: the gate is open, nothing waits, and what is in flight is what the messages
-- say.
pub record Open (i : ℕ) (s : Sim) : Type 0 where
  pub gate : s.guest.gated ≡ false
  pub waiting : s.guest.backlog ≡ 0
  pub count : s.completed ≡ i
  pub before : s.drained ≡ false
  pub unanswered : answered (sent s) ≡ false
  pub truthful : (read_ack none (sent s)).1 ≡ s.guest.in_flight

-- After the drain: the gate is closed and the acknowledgement was right.
pub record Closed (i : ℕ) (s : Sim) : Type 0 where
  pub gate : s.guest.gated ≡ true
  pub count : s.completed + s.guest.backlog ≡ i
  pub after : s.drained ≡ true
  pub answered_once : answered (sent s) ≡ true
  pub agrees : (read_ack none (sent s)).0 ≡ (read_ack none (sent s)).1

-- The turn `i` is in flight.
pub record Running (i : ℕ) (s : Sim) : Type 0 where
  pub id : TurnId
  pub running : s.guest.in_flight ≡ some id
  pub known : s.started_at i ≡ some id

-- The run went through, to a state where something holds.
abbrev pub Ends : (Sim → Type 0) → Result (Unit {0}) GuestError × Sim → Type 0
Ends P (ok _, s) = P s
Ends P (err _, s) = ⊥
