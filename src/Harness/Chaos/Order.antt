-- ===== src/Harness/Chaos/Order.antt =====
-- The loop over the events, wherever the drain comes among them.
use sleepwalk.Prelude.{ℕ, suc, ◌+◌, ◌^◌, ◌<◌, ◌≡◌, inl, inr, List, [], ◌∷◌, length, arith}
use mathlib.Core.Path.{subst}
use sleepwalk.Prelude.Results.{ok}
use sleepwalk.Harness.Chaos.{Turn, Event, Sim, turn_events, drain_event, play, play_all}
use sleepwalk.Harness.Chaos.Timeline.{Merged, Merged-cons, Merged-nil}
use sleepwalk.Harness.Chaos.States.{Ends}
use sleepwalk.Harness.Chaos.Steps.{
  begun, deferred, drained_at, end_event, ended, play-deferred, play_drain, play_end, play_no_end,
  play_start,
}
use sleepwalk.Harness.Chaos.Phases.{
  BusyClosed, BusyOpen, IdleClosed, IdleOpen, begun_lem, deferred_lem, drained_lem, ended-Closed,
  ended-Open,
}

pub play_all-cons :
    (e : Event) (es : List Event) (s s' : Sim)
    → play e s ≡ (ok tt, s')
    → play_all (e ∷ es) s ≡ play_all es s'
unfolding play_all
play_all-cons e es s s' h = ground (arith, h)

-- The rest of the turns after the drain: each is put off, and none starts.
pub closed_run :
    (ts : List Turn) (i n : ℕ) (s : Sim)
    → i + length ts ≡ n
    → n < 2 ^ 32
    → IdleClosed i s
    → Ends (IdleClosed n) (play_all (turn_events i ts) s)
unfolding turn_events play_all
closed_run [] i n s e b h = subst (λ k. IdleClosed k s) (ground arith) h
closed_run (t ∷ ts) i n s e b h =
    let (c, u, idle) = h in
    let put_off = play-deferred i t.start s c.gate idle in
    let skipped = play_no_end i t.end (deferred s) (u.fresh i (omega arith)) in
    rw
      (
        play_all-cons _ _ s (deferred s) put_off,
        play_all-cons _ _ (deferred s) (deferred s) skipped,
      )
      (closed_run ts (suc i) n (deferred s) (omega arith) b (deferred_lem i s (omega arith) h))

-- The turn in flight when the drain came is ended, not cut.
pub finished_run :
    (t : Turn) (ts : List Turn) (i n : ℕ) (s : Sim)
    → suc i + length ts ≡ n
    → n < 2 ^ 32
    → BusyClosed i s
    → Ends (IdleClosed n) (play_all (end_event i t.end ∷ turn_events (suc i) ts) s)
finished_run t ts i n s e b (c, u, r) =
    rw (play_all-cons _ _ s (ended r.id t.end s) (play_end i t.end r.id s r.known r.running)) (
      closed_run ts (suc i) n (ended r.id t.end s) e b
        (ended-Closed i t.end r.id s (omega arith) c u))

-- All that is left, with the drain first.
pub drain_first :
    (ts : List Turn) (i n tick : ℕ) (s : Sim)
    → i + length ts ≡ n
    → n < 2 ^ 32
    → IdleOpen i s
    → Ends (IdleClosed n) (play_all (drain_event tick ∷ turn_events i ts) s)
drain_first ts i n tick s e b (o, u, idle) =
    let next_state = drained_at tick s in
    rw (play_all-cons (drain_event tick) (turn_events i ts) s next_state (play_drain tick s)) (
      closed_run ts i n next_state e b
        (drained_lem i tick s o, record { clean = u.clean; fresh = u.fresh }, idle))

-- The same while a turn is in flight.
pub drain_during :
    (t : Turn) (ts : List Turn) (i n tick : ℕ) (s : Sim)
    → suc i + length ts ≡ n
    → n < 2 ^ 32
    → BusyOpen i s
    → Ends
        (IdleClosed n)
        (play_all (drain_event tick ∷ end_event i t.end ∷ turn_events (suc i) ts) s)
drain_during t ts i n tick s e b (o, u, r) =
    let next_state = drained_at tick s in
    rw (play_all-cons (drain_event tick) _ s next_state (play_drain tick s)) (
      finished_run t ts i n next_state e b (
        drained_lem i tick s o,
        record { clean = u.clean; fresh = u.fresh },
        record { id = r.id; running = r.running; known = r.known },
      ))

-- Wherever the drain comes.
pub open_run :
    (ts : List Turn) (l : List Event) (i n tick : ℕ) (s : Sim)
    → i + length ts ≡ n
    → n < 2 ^ 32
    → Merged (drain_event tick) (turn_events i ts) l
    → IdleOpen i s
    → Ends (IdleClosed n) (play_all l s)
unfolding turn_events
open_run [] l i n tick s e b m h =
    rw (Merged-nil (drain_event tick) l m) (drain_first [] i n tick s e b h)
open_run (t ∷ ts) l i n tick s e b m h =
    let busy = begun_lem i t.start s h in
    let busy_state = begun i t.start s in
    let starts = play_start i t.start s h.0.gate h.2 h.0.before in
    elim (Merged-cons _ _ _ l m) [
      | inl first ↦ rw first (drain_first (t ∷ ts) i n tick s e b h)
      | inr (l1, later, m1) ↦
          rw (later, play_all-cons _ l1 s busy_state starts)
            (elim (Merged-cons _ _ _ l1 m1) [
              | inl during ↦ rw during (drain_during t ts i n tick busy_state (omega arith) b busy)
              | inr (l2, after, m2) ↦
                  let (o, u, r) = busy in
                  let ends = play_end i t.end r.id busy_state r.known r.running in
                  rw (after, play_all-cons _ l2 busy_state (ended r.id t.end busy_state) ends)
                    (open_run ts l2 (suc i) n tick (ended r.id t.end busy_state) (omega arith) b m2
                      (ended-Open i t.end r.id busy_state (omega arith) o u))
            ])
    ]
