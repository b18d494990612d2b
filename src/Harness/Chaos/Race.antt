-- ===== src/Harness/Chaos/Race.antt =====
-- The race rule, for every seed.
use sleepwalk.Prelude.{
  ℕ, suc, Bool, ◌+◌, ◌^◌, ◌<◌, ◌≡◌, refl, true, false, Option, none, some, List, [], ◌∷◌, ◌++◌,
  length, arith,
}
use sleepwalk.Prelude.Results.{Result, ok, err}
use sleepwalk.Proto.Ids.{VmId, TurnId}
use sleepwalk.Guestd.Channel.{new_pseudo, pseudo_channel, send_pseudo}
use sleepwalk.Guestd.Guest.{Guest, GuestError, start_turn, end_turn, handle, replay_next}
use sleepwalk.Guestd.Guest
use sleepwalk.Harness.Rng.{seeded}
use sleepwalk.Harness.Chaos.{
  RaceReport, race_rule_holds, same_turn, Turn, Sim, at_tick, turn_events, drain_event, play_all,
  replay_all, read_ack, sort_events, generate, simulate_turns, simulate, on_guest, max_of, last_end,
}
use sleepwalk.Harness.Chaos.Ack.{answered}
use sleepwalk.Harness.Chaos.Timeline.{Spaced, sort_events-Merged, generate-Spaced}
use sleepwalk.Harness.Chaos.States.{Ends, sent}
use sleepwalk.Harness.Chaos.Phases.{IdleClosed, IdleOpen}
use sleepwalk.Harness.Chaos.Order.{open_run}
use sleepwalk.Harness.Chaos.Replay.{
  Replaying, Breaks, replay_all-Replaying, resumed_at, resumed_lem,
}

Ends-ok :
    (P : Sim → Type 0) (x : Result (Unit {0}) GuestError × Sim)
    → Ends P x
    → (x ≡ (ok tt, x.1)) × P x.1
Ends-ok P (ok u, s) h = (refl, h)
Ends-ok P (err e, s) h = absurd h

Breaks-ok :
    (P : Sim → Type 0) (x : Result Bool GuestError × Sim)
    → Breaks P x
    → (x ≡ (ok true, x.1)) × P x.1
Breaks-ok P (ok true, s) h = (refl, h)
Breaks-ok P (ok false, s) h = absurd h
Breaks-ok P (err e, s) h = absurd h

abbrev start_state : VmId → Sim
start_state vm = record {
  guest = Guest.new pseudo_channel vm (record { version = [] }) new_pseudo;
  started_at = λ i. none;
  drained = false;
  completed = 0;
  started_while_gated = 0;
}

start_lem : (vm : VmId) → IdleOpen 0 (start_state vm)
unfolding Guest.new answered read_ack
start_lem vm = (
  record {
    gate = refl;
    waiting = refl;
    count = refl;
    before = refl;
    unanswered = refl;
    truthful = refl;
  },
  record { clean = refl; fresh = λ j h. refl },
  refl,
)

same_turn_refl : (o : Option TurnId) → same_turn o o ≡ true
same_turn_refl none = refl
same_turn_refl (some t) = ground arith

race_holds :
    (n : ℕ) (s : Sim)
    → Replaying n s
    → s.guest.backlog ≡ 0
    → race_rule_holds (record {
      attempted = n;
      completed = s.completed;
      ack_in_flight = (read_ack none (sent s)).0;
      wire_in_flight = (read_ack none (sent s)).1;
      started_while_gated = s.started_while_gated;
    })
      ≡ true
unfolding race_rule_holds
race_holds n s r z =
    ground (arith, r.count, r.clean, r.agrees, same_turn_refl (read_ack none (sent s)).1)

resume_lem :
    (t : ℕ) (s : Sim)
    → on_guest (Guest.resume pseudo_channel (at_tick t)) s ≡ (ok tt, resumed_at t s)
unfolding Guest.resume send_pseudo
resume_lem t s = refl

-- What the simulation reports.
abbrev pub Upheld : ℕ → Result (Option RaceReport) GuestError → Type 0
Upheld n (ok none) = ⊥
Upheld n (ok (some r)) = (race_rule_holds r ≡ true) × (r.attempted ≡ n) × (r.completed ≡ n)
Upheld n (err e) = ⊥

-- Turns that follow one another, fewer than 2^32, and a drain at any time among them: no call of the
-- supervisor fails, every turn is completed, the acknowledgement names the turn that was in flight,
-- and none starts while the gate is closed.
pub simulate_turns-Upheld :
    (vm : VmId) (turns : List Turn) (drain_at : ℕ)
    → Spaced 0 turns
    → length turns < 2 ^ 32
    → Upheld (length turns) (simulate_turns vm turns drain_at)
unfolding simulate_turns
simulate_turns-Upheld vm turns drain_at spaced b =
    let d = drain_event drain_at in
    let order = sort_events-Merged d 0 0 turns spaced in
    let events = sort_events (turn_events 0 turns ++ d ∷ []) in
    let first = Ends-ok (IdleClosed (length turns)) (play_all events (start_state vm)) (
      open_run turns events 0 (length turns) drain_at (start_state vm) (omega arith) b order
        (start_lem vm)) in
    let s1 = (play_all events (start_state vm)).1 in
    let t = max_of drain_at (last_end turns) + 1 in
    let s2 = resumed_at t s1 in
    let ready = resumed_lem (length turns) t s1 first.1 in
    let last =
      Breaks-ok (λ s. Replaying (length turns) s × (s.guest.backlog ≡ 0))
        (replay_all (suc s2.guest.backlog) t s2)
        (replay_all-Replaying (suc s2.guest.backlog) (length turns) t s2 b (omega arith) ready) in
    let s3 = (replay_all (suc s2.guest.backlog) t s2).1 in
    let holds = race_holds (length turns) s3 last.1.0 last.1.1 in
    ground (arith, first.0, resume_lem t s1, last.0, last.1.1, last.1.0.count, holds)

-- For every seed the replay loop of the simulation comes to its `break` and no call of the supervisor
-- fails; as many turns are attempted as were generated and each completes, the DrainAck names exactly
-- the turn that the earlier messages leave open, and no turn starts behind the closed gate.
pub simulate-Upheld :
    (vm : VmId) (seed : ℕ) → Upheld (length (generate (seeded seed)).0) (simulate vm seed)
unfolding simulate
simulate-Upheld vm seed =
    let (spaced, few, many) = generate-Spaced (seeded seed) in
    simulate_turns-Upheld vm (generate (seeded seed)).0 (generate (seeded seed)).1 spaced
      (omega (arith, many))
