-- ===== src/Harness/Chaos/Replay.antt =====
-- The loop that replays the turns put off.
use sleepwalk.Prelude.{
  ℕ, zero, suc, ◌+◌, ◌-◌, ◌^◌, ◌<◌, ◌≡◌, refl, ap, sym, ◌∙◌, inl, inr, Bool, Bool-cases, true,
  false, ◌==◌, none, [], ◌∷◌, ◌++◌, arith,
}
use sleepwalk.Prelude.Results.{Result, ok, err}
use sleepwalk.Proto.Ids.{next}
use sleepwalk.Proto.Vsock.{turn_started, turn_ended, resumed}
use sleepwalk.Guestd.Channel.{send_pseudo}
use sleepwalk.Guestd.Guest.{GuestError, end_turn, replay_next}
use sleepwalk.Harness.Chaos.{Sim, at_tick, replay_all, read_ack, increment}
use sleepwalk.Harness.Chaos.Ack.{answered, read_ack-append}
use sleepwalk.Harness.Chaos.States.{sent}
use sleepwalk.Harness.Chaos.Steps.{on_supervisor, say}
use sleepwalk.Harness.Chaos.Phases.{IdleClosed, said_Closed}

-- After the resume: the gate is open again and the turns put off are replayed.
pub record Replaying (n : ℕ) (s : Sim) : Type 0 where
  pub gate : s.guest.gated ≡ false
  pub idle : s.guest.in_flight ≡ none
  pub count : s.completed + s.guest.backlog ≡ n
  pub clean : s.started_while_gated ≡ 0
  pub answered_once : answered (sent s) ≡ true
  pub agrees : (read_ack none (sent s)).0 ≡ (read_ack none (sent s)).1

abbrev pub resumed_at : ℕ → Sim → Sim
resumed_at tick s = on_supervisor (λ g. record (say (resumed (at_tick tick)) g) { gated = false }) s

pub resumed_lem : (n tick : ℕ) (s : Sim) → IdleClosed n s → Replaying n (resumed_at tick s)
resumed_lem n tick s (c, t, idle) =
    let more = said_Closed n (resumed (at_tick tick)) s c in
    record {
      gate = refl;
      idle = idle;
      count = c.count;
      clean = t.clean;
      answered_once = more.answered_once;
      agrees = more.agrees;
    }

-- The state after one of them has been replayed.
abbrev pub replayed : ℕ → Sim → Sim
replayed t s =
    let id = s.guest.next_turn in
    record s {
      guest = say (turn_ended id (at_tick (t + 2))) (
          say (turn_started id (at_tick (t + 1))) (record s.guest {
            backlog = s.guest.backlog - 1;
            next_turn = next id;
            in_flight = none;
          }));
      completed = increment s.completed;
    }

pub replayed_lem :
    (n t : ℕ) (s : Sim)
    → n < 2 ^ 32
    → 0 < s.guest.backlog
    → Replaying n s
    → Replaying n (replayed t s)
replayed_lem n t s b w r =
    let starts = turn_started s.guest.next_turn (at_tick (t + 1)) in
    let ends = turn_ended s.guest.next_turn (at_tick (t + 2)) in
    let one = read_ack-append none (sent s) (starts ∷ []) r.answered_once in
    let two = read_ack-append none (sent s ++ starts ∷ []) (ends ∷ []) one.1 in
    let same = two.0 ∙ one.0 in
    record {
      gate = r.gate;
      idle = refl;
      count = ground (arith, r.count);
      clean = r.clean;
      answered_once = two.1;
      agrees = ap (λ p. p.0) same ∙ r.agrees ∙ sym (ap (λ p. p.1) same);
    }

pub replay_all-done :
    (fuel n t : ℕ) (s : Sim)
    → s.guest.backlog ≡ 0
    → Replaying n s
    → replay_all (suc fuel) t s ≡ (ok true, s)
unfolding replay_all replay_next
replay_all-done fuel n t s w r = ground (arith, r.gate, r.idle)

pub replay_all-step :
    (fuel n t : ℕ) (s : Sim)
    → 0 < s.guest.backlog
    → Replaying n s
    → replay_all (suc fuel) t s ≡ replay_all fuel (t + 2) (replayed t s)
unfolding replay_all replay_next end_turn send_pseudo
replay_all-step fuel n t s w r = ground (arith, r.gate, r.idle)

-- The loop has come to its `break`, in such a state.
abbrev pub Breaks : (Sim → Type 0) → Result Bool GuestError × Sim → Type 0
Breaks P (ok true, s) = P s
Breaks P (ok false, s) = ⊥
Breaks P (err e, s) = ⊥

pub replay_all-Replaying :
    (fuel n t : ℕ) (s : Sim)
    → n < 2 ^ 32
    → s.guest.backlog < fuel
    → Replaying n s
    → Breaks (λ s'. Replaying n s' × (s'.guest.backlog ≡ 0)) (replay_all fuel t s)
replay_all-Replaying zero n t s b f r = absurd (omega arith)
replay_all-Replaying (suc fuel) n t s b f r = elim (Bool-cases (s.guest.backlog == 0)) [
  | inl none_left ↦
      let z : s.guest.backlog ≡ 0 = ground arith in rw (replay_all-done fuel n t s z r) (r, z)
  | inr some_left ↦
      let w : 0 < s.guest.backlog = ground arith in
      rw (replay_all-step fuel n t s w r) (
        replay_all-Replaying fuel n (t + 2) (replayed t s) b (omega arith)
          (replayed_lem n t s b w r))
]
