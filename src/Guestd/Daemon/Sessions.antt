-- ===== src/Guestd/Daemon/Sessions.antt =====
-- What a host-driven guest says in each of its sessions.
use mathlib.Core.List.{append-nil, append_assoc}
use sleepwalk.Prelude.{
  ℕ, ◌+◌, ◌%◌, ◌^◌, ◌<◌, ◌≤◌, not_below, All, length, ◌≡◌, refl, Bool, true, false, Option, none,
  some, List, [], ◌∷◌, ◌++◌, arith,
}
use sleepwalk.Proto.Ids.{VmId, GuestdVersion, Timestamp}
use sleepwalk.Proto.Vsock.{
  GuestToHost, HostToGuest, hello, turn_started, turn_ended, drain_ack, secrets, drain_request,
  drain_cancel, run_turn,
}
use sleepwalk.Guestd.Channel.{PseudoChannel, pseudo_channel, send_pseudo, recv_pseudo}
use sleepwalk.Guestd.Guest.{Guest, new, take_secrets, handshake, run_commanded, handle}
use sleepwalk.Guestd.Daemon.{
  Accept, connected, failed, timed_out, serve_messages_only, host_session, run_host_driven,
}

-- The answers to a list of messages, by whether the gate is closed when they come: every turn that
-- meets an open gate is run at once, every other is not answered, and every drain request finds the
-- guest idle.
abbrev pub told : Bool → List HostToGuest → List Timestamp → List GuestToHost
told gated [] ts = []
told gated (m ∷ ms) [] = []
told false (run_turn t ∷ ms) (now ∷ ts) = turn_started t now ∷ turn_ended t now ∷ told false ms ts
told true (run_turn t ∷ ms) (now ∷ ts) = told true ms ts
told gated (drain_request d ∷ ms) (now ∷ ts) = drain_ack none ∷ told true ms ts
told gated (drain_cancel ∷ ms) (now ∷ ts) = told false ms ts
told gated (secrets env ∷ ms) (now ∷ ts) = told gated ms ts
told gated (HostToGuest.ping ∷ ms) (now ∷ ts) = GuestToHost.pong ∷ told gated ms ts
told gated (HostToGuest.pong ∷ ms) (now ∷ ts) = told gated ms ts

-- How many of them ask for a turn behind a closed gate.
abbrev pub held_back : Bool → List HostToGuest → ℕ
held_back gated [] = 0
held_back false (run_turn t ∷ ms) = held_back false ms
held_back true (run_turn t ∷ ms) = 1 + held_back true ms
held_back gated (drain_request d ∷ ms) = held_back true ms
held_back gated (drain_cancel ∷ ms) = held_back false ms
held_back gated (secrets env ∷ ms) = held_back gated ms
held_back gated (HostToGuest.ping ∷ ms) = held_back gated ms
held_back gated (HostToGuest.pong ∷ ms) = held_back gated ms

-- A session over, with what went out in it and how many turns are still waiting.
abbrev pub Over : List GuestToHost → ℕ → Bool × Guest PseudoChannel → Type 0
Over said waiting (ended, g) =
    (ended ≡ true) × (g.chan.outbox ≡ said) × (g.backlog ≡ waiting % 2 ^ 32) × (g.in_flight ≡ none)

abbrev behind :
    Bool → List HostToGuest → List GuestToHost → Guest PseudoChannel → Guest PseudoChannel
behind b ms o g = record g { chan = record { inbox = ms; outbox = o }; in_flight = none; gated = b }

serve_messages_only-Over :
    (ms : List HostToGuest) (ts : List Timestamp) (o : List GuestToHost) (b : Bool)
    (g : Guest PseudoChannel)
    → length ms < length ts
    → g.backlog < 2 ^ 32
    → Over
        (o ++ told b ms ts)
        (g.backlog + held_back b ms)
        (serve_messages_only pseudo_channel ts (behind b ms o g))
unfolding serve_messages_only handle run_commanded send_pseudo recv_pseudo
serve_messages_only-Over ms [] o b g l w = elim (not_below (length ms) l) [ ]
serve_messages_only-Over [] (now ∷ ts) o b g l w = ground (arith, append-nil o)
serve_messages_only-Over (run_turn t ∷ ms) (now ∷ ts) o false g l w =
    let began = o ++ turn_started t now ∷ [] in
    let rest = told false ms ts in
    ground (
      arith,
      append_assoc began (turn_ended t now ∷ []) rest,
      append_assoc o (turn_started t now ∷ []) (turn_ended t now ∷ rest),
      serve_messages_only-Over ms ts (began ++ turn_ended t now ∷ []) false g (omega arith) w,
    )
serve_messages_only-Over (run_turn t ∷ ms) (now ∷ ts) o true g l w =
    let g' : Guest PseudoChannel = record g { backlog = (g.backlog + 1) % 2 ^ 32 } in
    let rest = serve_messages_only-Over ms ts o true g' (omega arith) (omega arith) in
    ground (arith, rest)
serve_messages_only-Over (drain_request d ∷ ms) (now ∷ ts) o b g l w =
    let said = drain_ack none ∷ [] in
    ground (
      arith,
      append_assoc o said (told true ms ts),
      serve_messages_only-Over ms ts (o ++ said) true g (omega arith) w,
    )
serve_messages_only-Over (drain_cancel ∷ ms) (now ∷ ts) o b g l w =
    serve_messages_only-Over ms ts o false g (omega arith) w
serve_messages_only-Over (secrets env ∷ ms) (now ∷ ts) o b g l w =
    let g' : Guest PseudoChannel = record g { env = env } in
    serve_messages_only-Over ms ts o b g' (omega arith) w
serve_messages_only-Over (HostToGuest.ping ∷ ms) (now ∷ ts) o b g l w =
    let said = GuestToHost.pong ∷ [] in
    ground (
      arith,
      append_assoc o said (told b ms ts),
      serve_messages_only-Over ms ts (o ++ said) b g (omega arith) w,
    )
serve_messages_only-Over (HostToGuest.pong ∷ ms) (now ∷ ts) o b g l w =
    serve_messages_only-Over ms ts o b g (omega arith) w

-- What goes out in a session on a connection with these messages, and how many turns wait at its end.
abbrev pub session_told :
    VmId → GuestdVersion → List HostToGuest → List Timestamp → List GuestToHost
session_told vm version (secrets env ∷ ms) ts = hello vm version ∷ told false ms ts
session_told vm version ms ts = hello vm version ∷ []

abbrev pub session_waiting : List HostToGuest → ℕ
session_waiting (secrets env ∷ ms) = held_back false ms
session_waiting ms = 0

-- The session went as it has to by what came in on its own connection.
abbrev pub Alone :
    GuestdVersion → Accept pseudo_channel → Option (Bool × Guest PseudoChannel) → Type 0
Alone version (connected vm ts chan) (some end) =
    Over (chan.outbox ++ session_told vm version chan.inbox ts) (session_waiting chan.inbox) end
Alone version (connected vm ts chan) none = ⊥
Alone version _ none = Unit
Alone version _ (some end) = ⊥

abbrev pub AllAlone :
    GuestdVersion
    → List (Accept pseudo_channel)
    → List (Option (Bool × Guest PseudoChannel))
    → Type 0
AllAlone version [] [] = Unit
AllAlone version (a ∷ later) (s ∷ ends) = Alone version a s × AllAlone version later ends
AllAlone version _ _ = ⊥

-- The host leaves before the times of its messages run out.
abbrev pub Leaves : Accept pseudo_channel → Type 0
Leaves (connected vm ts chan) = length chan.inbox ≤ length ts
Leaves _ = Unit

connected-Alone :
    (version : GuestdVersion) (vm : VmId) (ts : List Timestamp) (ms : List HostToGuest)
    (o : List GuestToHost)
    → length ms ≤ length ts
    → let chan : PseudoChannel = record { inbox = ms; outbox = o } in
      Alone version
        (connected vm ts chan)
        (host_session pseudo_channel version (connected vm ts chan))
unfolding host_session handshake new take_secrets send_pseudo recv_pseudo
connected-Alone version vm ts [] o l = (refl, refl, refl, refl)
connected-Alone version vm ts (secrets env ∷ ms) o l =
    let greeting = hello vm version ∷ [] in
    let g = new pseudo_channel vm version (record { inbox = []; outbox = [] }) in
    let g' : Guest PseudoChannel = record g { env = env } in
    ground (
      arith,
      append_assoc o greeting (told false ms ts),
      serve_messages_only-Over ms ts (o ++ greeting) false g' (omega (arith)) (omega arith),
    )
connected-Alone version vm ts (drain_request d ∷ ms) o l = (refl, refl, refl, refl)
connected-Alone version vm ts (drain_cancel ∷ ms) o l = (refl, refl, refl, refl)
connected-Alone version vm ts (run_turn t ∷ ms) o l = (refl, refl, refl, refl)
connected-Alone version vm ts (HostToGuest.ping ∷ ms) o l = (refl, refl, refl, refl)
connected-Alone version vm ts (HostToGuest.pong ∷ ms) o l = (refl, refl, refl, refl)

-- Every session of a host-driven guest on a scripted channel, with a time for each wait of it, ends
-- without a turn in flight, and what goes out in it depends on what comes in on its own connection
-- only: the greeting, then, if secrets came first, one start and end for each turn that is asked for
-- with the gate open, an acknowledgement that names no turn for each drain request, and a pong for
-- each ping. A turn that is asked for behind a closed gate is counted, modulo 2^32, in the guest of
-- that session, and started neither in it nor in a later one.
pub run_host_driven-AllAlone :
    (version : GuestdVersion) (accepts : List (Accept pseudo_channel))
    → All Leaves accepts
    → AllAlone version accepts (run_host_driven pseudo_channel version accepts)
unfolding run_host_driven host_session
run_host_driven-AllAlone version [] h = tt
run_host_driven-AllAlone version (connected vm ts chan ∷ later) h = (
  connected-Alone version vm ts chan.inbox chan.outbox h.0,
  run_host_driven-AllAlone version later h.1,
)
run_host_driven-AllAlone version (failed ∷ later) h =
    (tt, run_host_driven-AllAlone version later h.1)
run_host_driven-AllAlone version (timed_out ∷ later) h =
    (tt, run_host_driven-AllAlone version later h.1)
