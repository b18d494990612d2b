-- ===== src/Guestd/Wrap/Agreement.antt =====
-- The two ways of following a wrapped process, the supervisor's and the tracker's, agree.
use sleepwalk.Prelude.{
  ◌+◌, ◌≤◌, ◌<◌, ◌≡◌, refl, Bool, true, false, Option, none, some, List, [], ◌∷◌, arith, length,
}
use sleepwalk.Prelude.Results.{ok, err}
use sleepwalk.Proto.Ids.{TurnId, Timestamp, VmId, GuestdVersion, next, u64_max}
use sleepwalk.Proto.Vsock.{GuestToHost, turn_started, turn_ended}
use sleepwalk.Guestd.Channel.{GuestChannel}
use sleepwalk.Guestd.Guest.{Guest, new, begin_observed_turn, end_turn}
use sleepwalk.Guestd.Wrap.{
  TurnSignal, start, end, apply_signal, TurnTracker, new_tracker, apply, in_flight,
}

-- The tracker counts turns from 1 and the supervisor from 0.
abbrev pub shifted : Option TurnId → Option TurnId
shifted none = none
shifted (some t) = some (record { counter = t.counter + 1 })

abbrev pub Signals : Type 0
Signals = List (TurnSignal × Timestamp)

pub apply_all : Signals → TurnTracker → TurnTracker
apply_all [] t = t
apply_all ((s, now) ∷ ss) t = apply_all ss (apply s t)

-- The supervisor fed with the same signals, and whether every one was handled without an error.
pub feed : (ch : GuestChannel) → Signals → Guest ch.Conn → Bool × Guest ch.Conn
feed ch [] g = (true, g)
feed ch ((s, now) ∷ ss) g =
    let (r, g') = apply_signal ch s now g in
    let (rest, g'') = feed ch ss g' in (elim r [ ok _ ↦ rest | err _ ↦ false ], g'')

record Agree {C : Type 0} (t : TurnTracker) (g : Guest C) : Type 0 where
  same_id : t.last_id ≡ g.next_turn.counter
  same_turn : in_flight t ≡ shifted g.in_flight

module _ (ch : GuestChannel)
    (live : (m : GuestToHost) (c : ch.Conn) → (ch.send m c).0 ≡ ok tt) where
  apply-Agree :
      (s : TurnSignal) (now : Timestamp) (t : TurnTracker) (g : Guest ch.Conn) (o : Option TurnId)
      → g.in_flight ≡ o
      → t.last_id < u64_max
      → Agree t g
      → let (r, g') = apply_signal ch s now g in
        (r ≡ ok tt) × Agree (apply s t) g' × ((apply s t).last_id ≤ t.last_id + 1)
  unfolding apply_signal begin_observed_turn end_turn apply in_flight next
  apply-Agree start now t g none e b a = ground (arith, live (turn_started g.next_turn now) g.chan)
  apply-Agree start now t g (some i) e b a = ground arith
  apply-Agree end now t g none e b a = ground arith
  apply-Agree end now t g (some i) e b a = ground (arith, live (turn_ended i now) g.chan)

  feed-Agree :
      (ss : Signals) (t : TurnTracker) (g : Guest ch.Conn)
      → t.last_id + length ss ≤ u64_max
      → Agree t g
      → ((feed ch ss g).0 ≡ true) × Agree (apply_all ss t) (feed ch ss g).1
  unfolding feed apply_all
  feed-Agree [] t g b a = (refl, a)
  feed-Agree ((s, now) ∷ ss) t g b a =
      let (r, a', l) = apply-Agree s now t g g.in_flight refl (omega arith) a in
      ground (arith, r, feed-Agree ss (apply s t) (apply_signal ch s now g).1 (omega arith) a')

  -- On a channel that does not fail, no sequence of inferred boundaries makes the supervisor fail,
  -- and after any sequence shorter than 2^64 - 1 the tracker of wrap mode reports a turn in flight
  -- exactly if the supervisor does, under an id that is one higher.
  pub tracker_agrees :
      (ss : Signals) (vm : VmId) (version : GuestdVersion) (c : ch.Conn)
      → length ss ≤ u64_max
      → let g = feed ch ss (new ch vm version c) in
        (g.0 ≡ true) × (in_flight (apply_all ss new_tracker) ≡ shifted g.1.in_flight)
  unfolding new in_flight
  tracker_agrees ss vm version c b =
      let (r, a) =
        feed-Agree ss new_tracker (new ch vm version c) (omega arith)
          (record { same_id = refl; same_turn = refl }) in
      (r, a.same_turn)
