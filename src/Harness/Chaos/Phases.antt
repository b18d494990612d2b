-- ===== src/Harness/Chaos/Phases.antt =====
-- Each step leads from one phase of a run to the next.
use sleepwalk.Prelude.{ℕ, suc, ◌+◌, ◌^◌, ◌<◌, ◌≡◌, refl, ap, sym, ◌∙◌, none, [], ◌∷◌, arith}
use sleepwalk.Proto.Ids.{TurnId}
use sleepwalk.Proto.Vsock.{GuestToHost, turn_started, turn_ended, drain_ack}
use sleepwalk.Harness.Chaos.{Sim, at_tick, read_ack}
use sleepwalk.Harness.Chaos.Ack.{answered, read_ack-append, read_ack-snoc}
use sleepwalk.Harness.Chaos.States.{Closed, Open, Running, Steady, sent}
use sleepwalk.Harness.Chaos.Steps.{begun, deferred, drained_at, ended, on_supervisor, say}

abbrev pub IdleOpen : ℕ → Sim → Type 0
IdleOpen i s = Open i s × Steady i s × (s.guest.in_flight ≡ none)

abbrev pub BusyOpen : ℕ → Sim → Type 0
BusyOpen i s = Open i s × Steady (suc i) s × Running i s

abbrev pub IdleClosed : ℕ → Sim → Type 0
IdleClosed i s = Closed i s × Steady i s × (s.guest.in_flight ≡ none)

abbrev pub BusyClosed : ℕ → Sim → Type 0
BusyClosed i s = Closed i s × Steady (suc i) s × Running i s

pub begun_lem : (i tick : ℕ) (s : Sim) → IdleOpen i s → BusyOpen i (begun i tick s)
unfolding answered read_ack
begun_lem i tick s (o, t, idle) =
    let more =
      read_ack-snoc none (sent s) (turn_started s.guest.next_turn (at_tick tick)) o.unanswered in
    (
      record {
        gate = o.gate;
        waiting = o.waiting;
        count = o.count;
        before = o.before;
        unanswered = more.1;
        truthful = ap (λ p. p.1) more.0;
      },
      record { clean = t.clean; fresh = λ j b. ground (arith, t.fresh j) },
      record { id = s.guest.next_turn; running = refl; known = ground arith },
    )

pub ended-Open :
    (i tick : ℕ) (id : TurnId) (s : Sim)
    → i + 1 < 2 ^ 32
    → Open i s
    → Steady (suc i) s
    → IdleOpen (suc i) (ended id tick s)
unfolding answered read_ack
ended-Open i tick id s b o t =
    let more = read_ack-snoc none (sent s) (turn_ended id (at_tick tick)) o.unanswered in
    (
      record {
        gate = o.gate;
        waiting = o.waiting;
        count = ground (arith, o.count);
        before = o.before;
        unanswered = more.1;
        truthful = ap (λ p. p.1) more.0;
      },
      record { clean = t.clean; fresh = t.fresh },
      refl,
    )

pub drained_lem : (i tick : ℕ) (s : Sim) → Open i s → Closed i (drained_at tick s)
unfolding answered read_ack
drained_lem i tick s o =
    let more = read_ack-snoc none (sent s) (drain_ack s.guest.in_flight) o.unanswered in
    record {
      gate = refl;
      count = ground (arith, o.count, o.waiting);
      after = refl;
      answered_once = more.1;
      agrees = ap (λ p. p.0) more.0 ∙ sym (ap (λ p. p.1) more.0 ∙ o.truthful);
    }

pub said_Closed :
    (i : ℕ) (m : GuestToHost) (s : Sim) → Closed i s → Closed i (on_supervisor (say m) s)
said_Closed i m s c =
    let more = read_ack-append none (sent s) (m ∷ []) c.answered_once in
    record {
      gate = c.gate;
      count = c.count;
      after = c.after;
      answered_once = more.1;
      agrees = ap (λ p. p.0) more.0 ∙ c.agrees ∙ sym (ap (λ p. p.1) more.0);
    }

pub ended-Closed :
    (i tick : ℕ) (id : TurnId) (s : Sim)
    → i + 1 < 2 ^ 32
    → Closed i s
    → Steady (suc i) s
    → IdleClosed (suc i) (ended id tick s)
ended-Closed i tick id s b c t =
    let more = said_Closed i (turn_ended id (at_tick tick)) s c in
    (
      record {
        gate = c.gate;
        count = ground (arith, c.count);
        after = c.after;
        answered_once = more.answered_once;
        agrees = more.agrees;
      },
      record { clean = t.clean; fresh = t.fresh },
      refl,
    )

pub deferred_lem :
    (i : ℕ) (s : Sim) → i + 1 < 2 ^ 32 → IdleClosed i s → IdleClosed (suc i) (deferred s)
deferred_lem i s b (c, t, idle) = (
  record {
    gate = c.gate;
    count = ground (arith, c.count);
    after = c.after;
    answered_once = c.answered_once;
    agrees = c.agrees;
  },
  record { clean = t.clean; fresh = λ j h. t.fresh j (omega arith) },
  idle,
)
