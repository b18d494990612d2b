-- ===== src/Harness/Chaos.antt =====
-- crates/harness/src/chaos.rs: one run of the turn-versus-drain simulation. `started`, a vector with
-- a place for each turn, is a function on the places. `sort_by_key` is a stable insertion sort.
pub mod Timeline
pub mod Ack
pub mod States
pub mod Steps
pub mod Phases
pub mod Order
pub mod Replay
pub mod Race
use Prim.Native.Nat.{compare, Ordering}
use sleepwalk.Prelude.{
  ℕ, zero, suc, ◌+◌, ◌*◌, ◌%◌, ◌^◌, Bool, true, false, ◌&&◌, if◌then◌else◌, leb, ltb, ◌==◌, Option,
  none, some, List, [], ◌∷◌, ◌++◌, length, replicate,
}
use sleepwalk.Prelude.Order.{Cmp, by_key, both, not_gt}
use sleepwalk.Prelude.Results.{Result, ok, err, Method, pure, fail, gets, modify, ◌>>=◌, ◌>>◌}
use sleepwalk.Proto.Ids.{VmId, GuestdVersion, TurnId, Timestamp, u64_max}
use sleepwalk.Proto.Vsock.{GuestToHost, turn_started, turn_ended, drain_ack, drain_request}
use sleepwalk.Guestd.Channel.{PseudoChannel, new_pseudo, pseudo_channel}
use sleepwalk.Guestd.Guest.{
  Guest, GuestError, StartOutcome, started, queued, start_turn, end_turn, handle, replay_next,
}
use sleepwalk.Guestd.Guest
use sleepwalk.Harness.Rng.{SplitMix64, seeded, next_u64}

abbrev tick_ns : ℕ
tick_ns = 1000000

-- `Timestamp::from_nanos(tick.saturating_mul(TICK_NS))`
abbrev pub at_tick : ℕ → Timestamp
at_tick tick = record { nanos = if ltb u64_max (tick * tick_ns) then u64_max else tick * tick_ns }

pub record RaceReport : Type 0 where
  pub attempted : ℕ
  pub completed : ℕ
  pub ack_in_flight : Option TurnId
  pub wire_in_flight : Option TurnId
  pub started_while_gated : ℕ

abbrev pub same_turn : Option TurnId → Option TurnId → Bool
same_turn none none = true
same_turn (some s) (some t) = s.counter == t.counter
same_turn _ _ = false

-- `RaceReport::race_rule_holds`
unfoldable pub race_rule_holds : RaceReport → Bool
race_rule_holds r =
    r.completed == r.attempted
    && same_turn r.ack_in_flight r.wire_in_flight
    && r.started_while_gated == 0

-- `RaceReport::drain_hit_busy`
unfoldable pub drain_hit_busy : RaceReport → Bool
drain_hit_busy r = elim r.ack_in_flight [ none ↦ false | some id ↦ true ]

pub record Turn : Type 0 where
  pub start : ℕ
  pub end : ℕ

pub data Kind : Type 0 where
  end start drain : Kind

-- The discriminants, by which kinds compare.
abbrev pub rank : Kind → ℕ
rank Kind.end = 0
rank Kind.start = 1
rank Kind.drain = 2

pub record Event : Type 0 where
  pub tick : ℕ
  pub kind : Kind
  pub turn : ℕ

abbrev pub by_time : Cmp Event
by_time =
    both (by_key (λ e. e.tick) compare)
      (both (by_key (λ e. rank e.kind) compare) (by_key (λ e. e.turn) compare))

-- `sort_by_key`
unfoldable pub sort_in : Event → List Event → List Event
sort_in e [] = e ∷ []
sort_in e (f ∷ fs) =
    let rest = sort_in e fs in if not_gt (by_time e f) then e ∷ f ∷ fs else f ∷ rest

unfoldable pub sort_events : List Event → List Event
sort_events [] = []
sort_events (e ∷ es) = sort_in e (sort_events es)

-- The two events of each turn, and the drain's at the end.
unfoldable pub turn_events : ℕ → List Turn → List Event
turn_events i [] = []
turn_events i (t ∷ ts) =
    record { tick = t.start; kind = Kind.start; turn = i }
    ∷ record { tick = t.end; kind = Kind.end; turn = i }
    ∷ turn_events (suc i) ts

abbrev pub drain_event : ℕ → Event
drain_event at = record { tick = at; kind = Kind.drain; turn = u64_max }

-- The variables of the loop over the events.
pub record Sim : Type 0 where
  pub guest : Guest PseudoChannel
  pub started_at : ℕ → Option TurnId
  pub drained : Bool
  pub completed : ℕ
  pub started_while_gated : ℕ

abbrev Run : Type 0 → Type 0
Run A = Method Sim GuestError A

-- `?` on a call of the supervisor's.
abbrev pub on_guest : {A : Type 0} → Method (Guest PseudoChannel) GuestError A → Run A
on_guest m s = let (r, g) = m s.guest in (r, record s { guest = g })

abbrev pub increment : ℕ → ℕ
increment n = (n + 1) % 2 ^ 32

abbrev pub bump_completed : Sim → Sim
bump_completed s = record s { completed = increment s.completed }

abbrev note_start : ℕ → StartOutcome → Sim → Sim
note_start i queued s = s
note_start i (started id) s = record s {
  started_while_gated =
      if s.drained then increment s.started_while_gated else s.started_while_gated;
  started_at = λ j. if j == i then some id else s.started_at j;
}

abbrev is_open : Option TurnId → Option TurnId → Bool
is_open none o = false
is_open (some id) o = same_turn o (some id)

-- One turn of the loop.
unfoldable pub play : Event → Run (Unit {0})
play e s = elim e.kind [
  | start ↦
      (do o ← on_guest (start_turn pseudo_channel (at_tick e.tick)); modify (note_start e.turn o)) s
  | end ↦
      (if is_open (s.started_at e.turn) s.guest.in_flight
          then (do on_guest (end_turn pseudo_channel (at_tick e.tick)); modify bump_completed)
          else pure tt)
        s
  | drain ↦
      (do
        on_guest (handle pseudo_channel (drain_request 500000000) (at_tick e.tick))
        modify λ s. record s { drained = true })
        s
]

unfoldable pub play_all : List Event → Run (Unit {0})
play_all [] = pure tt
play_all (e ∷ es) = play e >> play_all es

-- The loop after the resume, and whether it has come to its `break`; the fuel is one more than the
-- backlog.
unfoldable pub replay_all : ℕ → ℕ → Run Bool
replay_all zero t = pure false
replay_all (suc fuel) t = do
  next ← on_guest (replay_next pseudo_channel (at_tick (t + 1)))
  elim next [
    | none ↦ pure true
    | some id ↦ do
      on_guest (end_turn pseudo_channel (at_tick (t + 2)))
      modify bump_completed
      replay_all fuel (t + 2)
  ]

-- `read_ack`, with what the messages read so far leave in flight.
unfoldable pub read_ack : Option TurnId → List GuestToHost → Option TurnId × Option TurnId
read_ack w [] = (none, w)
read_ack w (turn_started t now ∷ ms) = read_ack (some t) ms
read_ack w (turn_ended t now ∷ ms) = read_ack none ms
read_ack w (drain_ack acked ∷ ms) = (acked, w)
read_ack w (m ∷ ms) = read_ack w ms

-- `generate`: one turn after another, then the drain's offset.
unfoldable pub generate_turns : ℕ → ℕ → SplitMix64 → List Turn × ℕ × SplitMix64
generate_turns zero cursor rng = ([], cursor, rng)
generate_turns (suc k) cursor rng =
    let (a, rng1) = next_u64 rng in
    let (b, rng2) = next_u64 rng1 in
    let start : ℕ = cursor + a % 120 in
    let end : ℕ = start + (20 + b % 150) in
    let (ts, last, rng3) = generate_turns k end rng2 in
    (record { start = start; end = end } ∷ ts, last, rng3)

unfoldable pub generate : SplitMix64 → List Turn × ℕ
generate rng =
    let (a, rng1) = next_u64 rng in
    let (turns, cursor, rng2) = generate_turns (3 + a % 6) 0 rng1 in
    let (b, _) = next_u64 rng2 in
    let span : ℕ = if leb cursor 1 then 1 else cursor in (turns, b % span)

abbrev pub last_end : List Turn → ℕ
last_end [] = 0
last_end (t ∷ []) = t.end
last_end (t ∷ u ∷ ts) = last_end (u ∷ ts)

abbrev pub max_of : ℕ → ℕ → ℕ
max_of a b = if leb a b then b else a

-- `simulate` after `generate`; the VM's id is random. There is no report if the replay loop does not
-- end.
unfoldable pub simulate_turns : VmId → List Turn → ℕ → Result (Option RaceReport) GuestError
simulate_turns vm turns drain_at =
    let g = Guest.new pseudo_channel vm (record { version = [] }) new_pseudo in
    let s0 : Sim = record {
      guest = g;
      started_at = λ i. none;
      drained = false;
      completed = 0;
      started_while_gated = 0;
    } in
    let t = max_of drain_at (last_end turns) + 1 in
    let run : Run Bool = (do
      play_all (sort_events (turn_events 0 turns ++ drain_event drain_at ∷ []))
      on_guest (Guest.resume pseudo_channel (at_tick t))
      s ← gets λ s. s
      replay_all (suc s.guest.backlog) t) in
    let (r, s) = run s0 in
    let (acked, wire) = read_ack none s.guest.chan.outbox in
    elim r [
      | ok false ↦ ok none
      | ok true ↦ ok (
          some (record {
            attempted = length turns % 2 ^ 32;
            completed = s.completed;
            ack_in_flight = acked;
            wire_in_flight = wire;
            started_while_gated = s.started_while_gated;
          }))
      | err e ↦ err e
    ]

-- `simulate`
unfoldable pub simulate : VmId → ℕ → Result (Option RaceReport) GuestError
simulate vm seed =
    let (turns, drain_at) = generate (seeded seed) in simulate_turns vm turns drain_at
