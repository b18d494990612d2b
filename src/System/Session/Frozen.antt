-- ===== src/System/Session/Frozen.antt =====
-- What the drain of crates/hostd/src/guestlink.rs and `migrate_running` of crates/hostd/src/migrate.rs
-- come to with a guest behind them.
use mathlib.Core.Path.{subst}
use sleepwalk.Prelude.{
  ℕ, zero, suc, ◌≡◌, refl, sym, Bool, true, false, Option, none, some, List, [], ◌∷◌, arith, all,
  All, inl, inr,
}
use sleepwalk.Prelude.Results.{Result, ok, err}
use sleepwalk.Proto.Ids.{VmId, TurnId, Timestamp}
use sleepwalk.Proto.Vsock.{
  GuestToHost, HostToGuest, hello, turn_started, turn_ended, drain_ack, resumed, secrets,
  drain_request, drain_cancel,
}
use sleepwalk.Guestd.Channel.{PseudoChannel, pseudo_channel}
use sleepwalk.Guestd.Guest.{Guest, handle}
use sleepwalk.Guestd.Guest.Calls.{Call, history}
use sleepwalk.Hostd.Migrate.{
  Host, LinkError, DrainState, quiescent, busy, link_handshake, await_ack, link_drain,
  drain_to_quiescence,
}
use sleepwalk.System.Session.{
  Session, Trouble, Delivery, arrives, lost, arrives_unknown, deliver, tick, run_batch, take_first,
  leave_unread, take_message, receive, read, Faults, session_host,
}
use sleepwalk.System.Session.Gate.{is_local, Held, NotIdle, Sound, history-Sound, request-Sound}

-- If there was a snapshot, the supervisor in it, if there was one, was held.
abbrev pub FrozenHeld : Option (Option (Guest PseudoChannel)) → Type 0
FrozenHeld none = Unit
FrozenHeld (some none) = Unit
FrozenHeld (some (some g)) = Held g

-- The schedule makes local calls only, and no snapshot was taken of a guest that was not held.
abbrev pub Tame : Session → Type 0
Tame s = All (λ batch. all is_local batch ≡ true) s.schedule × FrozenHeld s.frozen

abbrev pub Good : Session → Type 0
Good s = Sound s.guest × Tame s

abbrev pub Ready : Session → Type 0
Ready s = Held s.guest × Tame s

tick_of :
    (P : Guest PseudoChannel → Type 0)
    → ((cs : List Call) (g : Guest PseudoChannel)
        → all is_local cs ≡ true
        → P g
        → P (history pseudo_channel cs g).1)
    → (b : List (List Call)) (s : Session) → s.schedule ≡ b
    → P s.guest
    → Tame s
    → P (run_batch b s).guest × Tame (run_batch b s)
tick_of P f [] s e p h = (p, h)
tick_of P f (b ∷ bs) s e p h =
    let calls = subst (All (λ batch. all is_local batch ≡ true)) e h.0 in
    (f b s.guest calls.0 p, (calls.1, h.1))

-- What a message that the host has read tells it.
abbrev Learned : GuestToHost → Session → Type 0
Learned (drain_ack none) s = Ready s
Learned _ s = Good s

abbrev Taken : Result GuestToHost Trouble × Session → Type 0
Taken (ok m, s) = Learned m s × Good s
Taken (err e, s) = Good s

-- The rest of what is unread tells no more.
unread-Sound :
    (m : GuestToHost) (ms : List GuestToHost) (s : Session)
    → s.guest.chan.outbox ≡ m ∷ ms
    → Sound s.guest
    → Sound (leave_unread ms s).guest
unread-Sound m ms s e (inl u) = inl (subst (All NotIdle) e u).1
unread-Sound m ms s e (inr h) = inr h

idle-Ready :
    (ms : List GuestToHost) (s : Session)
    → s.guest.chan.outbox ≡ drain_ack none ∷ ms
    → Good s
    → Ready (leave_unread ms s)
idle-Ready ms s e (inl u, t) = absurd (subst (All NotIdle) e u).0
idle-Ready ms s e (inr h, t) = (h, t)

take-Taken :
    (ms : List GuestToHost) (s : Session)
    → s.guest.chan.outbox ≡ ms
    → Good s
    → Taken (take_first ms s)
take-Taken [] s e h = h
take-Taken (drain_ack none ∷ ms) s e h =
    (idle-Ready ms s e h, (unread-Sound (drain_ack none) ms s e h.0, h.1))
take-Taken (drain_ack (some t) ∷ ms) s e h =
    let g : Good (leave_unread ms s) = (unread-Sound (drain_ack (some t)) ms s e h.0, h.1) in (g, g)
take-Taken (hello v w ∷ ms) s e h =
    let g : Good (leave_unread ms s) = (unread-Sound (hello v w) ms s e h.0, h.1) in (g, g)
take-Taken (turn_started t n ∷ ms) s e h =
    let g : Good (leave_unread ms s) = (unread-Sound (turn_started t n) ms s e h.0, h.1) in (g, g)
take-Taken (turn_ended t n ∷ ms) s e h =
    let g : Good (leave_unread ms s) = (unread-Sound (turn_ended t n) ms s e h.0, h.1) in (g, g)
take-Taken (resumed n ∷ ms) s e h =
    let g : Good (leave_unread ms s) = (unread-Sound (resumed n) ms s e h.0, h.1) in (g, g)
take-Taken (GuestToHost.ping ∷ ms) s e h =
    let g : Good (leave_unread ms s) = (unread-Sound GuestToHost.ping ms s e h.0, h.1) in (g, g)
take-Taken (GuestToHost.pong ∷ ms) s e h =
    let g : Good (leave_unread ms s) = (unread-Sound GuestToHost.pong ms s e h.0, h.1) in (g, g)

module _ (now : Timestamp) (f : Faults) (deadline patience : ℕ) where
  abbrev host : Host
  host = session_host now f

  tick-Good : (s : Session) → Good s → Good (tick s)
  unfolding tick
  tick-Good s h = tick_of Sound history-Sound s.schedule s refl h.0 h.1

  read-Taken : (b : Bool) (s : Session) → Good s → Taken (read now f b s)
  unfolding take_message
  read-Taken true s h = take-Taken s.guest.chan.outbox s refl h
  read-Taken false s h = h

  recv-Taken : (s : Session) → Good s → Taken (host.recv s)
  recv-Taken s h = read-Taken (f.reads s.ticks) (tick s) (tick-Good s h)

  -- The drain's ack of an idle guest comes from one that is held.
  abbrev Acked : Result (Option TurnId) (LinkError Trouble) × Session → Type 0
  Acked (ok none, s) = Ready s
  Acked (ok (some t), s) = Good s
  Acked (err e, s) = Good s

  Taken-Good : (p : Result GuestToHost Trouble × Session) → Taken p → Good p.1
  Taken-Good (ok m, s) h = h.1
  Taken-Good (err e, s) h = h

  await_ack-Acked : (n : ℕ) (s : Session) → Good s → Acked (await_ack host deadline patience n s)
  unfolding await_ack
  await_ack-Acked zero s h = h
  await_ack-Acked (suc n) s h =
      let got = recv-Taken s h in
      let rest = await_ack-Acked n (host.recv s).1 (Taken-Good (host.recv s) got) in
      ground (arith, got, rest)

  -- The host's own messages.
  secrets-Good : (s : Session) → Good s → Good (receive now (secrets []) s)
  unfolding receive handle
  secrets-Good s h = h

  request-Good : (s : Session) → Good s → Good (receive now (drain_request deadline) s)
  unfolding receive
  request-Good s h = (request-Sound deadline now s.guest.in_flight s.guest refl h.0, h.1)

  -- A message of the host's arrives or not, whatever the host is told.
  deliver-Good :
      (d : Delivery) (m : HostToGuest) (s : Session)
      → Good s
      → Good (receive now m s)
      → Good (deliver now f d m s).1
  deliver-Good arrives m s h k = k
  deliver-Good lost m s h k = h
  deliver-Good arrives_unknown m s h k = k

  deliver_frozen :
      (d : Delivery) (m : HostToGuest) (s : Session)
      → FrozenHeld s.frozen
      → FrozenHeld (deliver now f d m s).1.frozen
  unfolding receive
  deliver_frozen arrives m s h = h
  deliver_frozen lost m s h = h
  deliver_frozen arrives_unknown m s h = h

  abbrev Passed : Result (Unit {0}) (LinkError Trouble) × Session → Type 0
  Passed (ok _, s) = Good s
  Passed (err e, s) = Good s

  link_handshake-Passed : (s : Session) → Good s → Passed (link_handshake host deadline patience s)
  unfolding link_handshake
  link_handshake-Passed s h =
      let got = recv-Taken s h in
      let good = Taken-Good (host.recv s) got in
      let s1 : Session = (host.recv s).1 in
      ground (
        arith,
        got,
        good,
        deliver-Good (f.delivers s1.ticks) (secrets []) (tick s1) (tick-Good s1 good)
            (secrets-Good (tick s1) (tick-Good s1 good)),
      )

  -- The drain and what `drain_to_quiescence` does about it.
  abbrev pub Drained : Result DrainState (LinkError Trouble) × Session → Type 0
  Drained (ok quiescent, s) = Ready s
  Drained (ok busy, s) = FrozenHeld s.frozen
  Drained (err e, s) = FrozenHeld s.frozen

  link_drain-Drained : (s : Session) → Good s → Drained (link_drain host deadline patience s)
  unfolding link_drain
  link_drain-Drained s h =
      let good = tick-Good s h in
      let sent_to =
        deliver-Good (f.delivers s.ticks) (drain_request deadline) (tick s) good
          (request-Good (tick s) good) in
      let s1 : Session = (deliver now f (f.delivers s.ticks) (drain_request deadline) (tick s)).1 in
      ground (arith, sent_to, await_ack-Acked patience s1 sent_to)

  run_batch_frozen : (b : List (List Call)) (s : Session) → (run_batch b s).frozen ≡ s.frozen
  run_batch_frozen [] s = refl
  run_batch_frozen (c ∷ cs) s = refl

  tick_frozen : (s : Session) → FrozenHeld s.frozen → FrozenHeld (tick s).frozen
  unfolding tick
  tick_frozen s h = subst FrozenHeld (sym (run_batch_frozen s.schedule s)) h

  Passed-Good : (p : Result (Unit {0}) (LinkError Trouble) × Session) → Passed p → Good p.1
  Passed-Good (ok _, s) h = h
  Passed-Good (err e, s) h = h

  Drained-frozen :
      (p : Result DrainState (LinkError Trouble) × Session) → Drained p → FrozenHeld p.1.frozen
  Drained-frozen (ok quiescent, s) h = h.1.1
  Drained-frozen (ok busy, s) h = h
  Drained-frozen (err e, s) h = h

  -- If no unread message of the guest says that it is idle, or the guest is held (its gate closed and
  -- no turn in flight), its calls are local and no snapshot was taken of a guest that was not held:
  -- then, if the drain says quiescent, the guest is held at that moment, and in any case still no
  -- snapshot was taken of a guest that was not held.
  pub drain_to_quiescence-Drained :
      (s : Session) → Good s → Drained (drain_to_quiescence host deadline patience s)
  unfolding drain_to_quiescence
  drain_to_quiescence-Drained s h =
      let met = link_handshake-Passed s h in
      let s1 : Session = (link_handshake host deadline patience s).1 in
      let s2 : Session = (link_drain host deadline patience s1).1 in
      let asked =
        link_drain-Drained s1 (Passed-Good (link_handshake host deadline patience s) met) in
      let kept = Drained-frozen (link_drain host deadline patience s1) asked in
      ground (
        arith,
        met,
        asked,
        deliver_frozen (f.delivers s2.ticks) drain_cancel (tick s2) (tick_frozen s2 kept),
      )

  abbrev Parted : {R : Type 0} → R × (Session × List VmId) → Type 0
  Parted (r, (s, torn)) = FrozenHeld s.frozen
