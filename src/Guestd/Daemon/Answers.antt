-- ===== src/Guestd/Daemon/Answers.antt =====
-- What the daemon answers about a wrapped process, by all that the process has printed.
use mathlib.Core.List.{append-nil, append_assoc}
use mathlib.Core.Path.{◌∙◌}
use sleepwalk.Prelude.{
  ℕ, ◌+◌, ◌%◌, ◌^◌, ◌<◌, not_below, length, ◌≡◌, refl, sym, Bool, true, false, Option, none, some,
  List, [], ◌∷◌, ◌++◌, arith,
}
use sleepwalk.Proto.Ids.{Text, TurnId}
use sleepwalk.Proto.Vsock.{
  GuestToHost, HostToGuest, drain_ack, secrets, drain_request, drain_cancel, run_turn,
}
use sleepwalk.Guestd.Channel.{PseudoChannel, pseudo_channel, send_pseudo, recv_pseudo}
use sleepwalk.Guestd.Wrap.{
  TurnSignal, start, end, WrapConfig, classify, TurnTracker, new_tracker, apply, in_flight,
}
use sleepwalk.Guestd.Daemon.{
  NextLine, line, closed, broken, Reader, act, read_next, read_lines, answer, serve_wrap_messages,
}

-- The boundaries among the lines, up to the end of the output.
abbrev pub boundary : Option TurnSignal → List TurnSignal → List TurnSignal
boundary (some sig) sigs = sig ∷ sigs
boundary none sigs = sigs

abbrev pub boundaries : WrapConfig → List NextLine → List TurnSignal
boundaries cfg [] = []
boundaries cfg (line l ∷ ns) = boundary (classify cfg l) (boundaries cfg ns)
boundaries cfg (closed ∷ ns) = []
boundaries cfg (broken ∷ ns) = []

-- Whether the last boundary is a start, and how many starts do not follow a start, if a turn was
-- open before or not.
abbrev pub ends_open : Bool → List TurnSignal → Bool
ends_open b [] = b
ends_open b (start ∷ sigs) = ends_open true sigs
ends_open b (end ∷ sigs) = ends_open false sigs

abbrev pub turns_in : Bool → List TurnSignal → ℕ
turns_in b [] = 0
turns_in false (start ∷ sigs) = 1 + turns_in true sigs
turns_in true (start ∷ sigs) = turns_in true sigs
turns_in b (end ∷ sigs) = turns_in false sigs

-- The turn that the process has open after these boundaries: the latest, by number.
abbrev pub named : Bool → ℕ → Option TurnId
named true n = some (record { counter = n % 2 ^ 64 })
named false n = none

abbrev pub open_in : WrapConfig → List NextLine → Option TurnId
open_in cfg ns = named (ends_open false (boundaries cfg ns)) (turns_in false (boundaries cfg ns))

abbrev follow : TurnTracker → List TurnSignal → TurnTracker
follow t sigs = record {
  in_turn = ends_open t.in_turn sigs;
  last_id = (t.last_id + turns_in t.in_turn sigs) % 2 ^ 64;
}

follow-apply :
    (sig : TurnSignal) (sigs : List TurnSignal) (b : Bool) (n : ℕ)
    → follow (apply sig (record { in_turn = b; last_id = n })) sigs
      ≡ follow (record { in_turn = b; last_id = n }) (sig ∷ sigs)
unfolding apply
follow-apply start sigs true n = refl
follow-apply start sigs false n = ground arith
follow-apply end sigs b n = ground arith

-- The task that reads the process, before it has read anything.
abbrev pub at_start : Reader
at_start = record { tracker = new_tracker; log = []; reading = true }

read_lines_ended :
    (cfg : WrapConfig) (ns : List NextLine) (r : Reader)
    → r.reading ≡ false
    → read_lines cfg ns r ≡ r
unfolding read_lines
read_lines_ended cfg [] r h = refl
read_lines_ended cfg (n ∷ ns) r h = ground arith

read_lines-append :
    (cfg : WrapConfig) (ns later : List NextLine) (r : Reader)
    → read_lines cfg (ns ++ later) r ≡ read_lines cfg later (read_lines cfg ns r)
unfolding read_lines
read_lines-append cfg [] later r = refl
read_lines-append cfg (n ∷ ns) later r =
    ground (arith, read_lines-append cfg ns later (read_next cfg n r), read_lines_ended cfg later r)

acted :
    (o : Option TurnSignal) (l : Text) (r : Reader) (sigs : List TurnSignal)
    → r.tracker.last_id < 2 ^ 64
    → ((act o l r).reading ≡ r.reading)
      × ((act o l r).tracker.last_id < 2 ^ 64)
      × (follow (act o l r).tracker sigs ≡ follow r.tracker (boundary o sigs))
unfolding apply
acted none l r sigs b = (refl, b, refl)
acted (some start) l r sigs b =
    (refl, ground arith, follow-apply start sigs r.tracker.in_turn r.tracker.last_id)
acted (some end) l r sigs b = (refl, b, follow-apply end sigs r.tracker.in_turn r.tracker.last_id)

read_lines_tracker :
    (cfg : WrapConfig) (ns : List NextLine) (r : Reader)
    → r.reading ≡ true
    → r.tracker.last_id < 2 ^ 64
    → (read_lines cfg ns r).tracker ≡ follow r.tracker (boundaries cfg ns)
unfolding read_lines read_next
read_lines_tracker cfg [] r h b = ground arith
read_lines_tracker cfg (line l ∷ ns) r h b =
    let r' : Reader = act (classify cfg l) l r in
    let (kept, small, same) = acted (classify cfg l) l r (boundaries cfg ns) b in
    ground (arith, same, read_lines_tracker cfg ns r' (kept ∙ h) small)
read_lines_tracker cfg (closed ∷ ns) r h b =
    ground (arith, read_lines_ended cfg ns (read_next cfg closed r) refl)
read_lines_tracker cfg (broken ∷ ns) r h b =
    ground (arith, read_lines_ended cfg ns (read_next cfg broken r) refl)

-- After any output, the tracker names the turn that the process has open by it.
in_flight-read_lines :
    (cfg : WrapConfig) (ns : List NextLine)
    → in_flight (read_lines cfg ns at_start).tracker ≡ open_in cfg ns
unfolding in_flight
in_flight-read_lines cfg ns = ground (arith, read_lines_tracker cfg ns at_start refl (omega arith))

-- The answers to the messages of a session, where the process has printed `before` until it begins
-- and one more list of lines before each message.
abbrev pub replies :
    WrapConfig → List NextLine → List (List NextLine) → List HostToGuest → List GuestToHost
replies cfg before reads [] = []
replies cfg before [] (m ∷ ms) = []
replies cfg before (ns ∷ reads) (drain_request d ∷ ms) =
    drain_ack (open_in cfg (before ++ ns)) ∷ replies cfg (before ++ ns) reads ms
replies cfg before (ns ∷ reads) (HostToGuest.ping ∷ ms) =
    GuestToHost.pong ∷ replies cfg (before ++ ns) reads ms
replies cfg before (ns ∷ reads) (HostToGuest.pong ∷ ms) = replies cfg (before ++ ns) reads ms
replies cfg before (ns ∷ reads) (secrets env ∷ ms) = replies cfg (before ++ ns) reads ms
replies cfg before (ns ∷ reads) (drain_cancel ∷ ms) = replies cfg (before ++ ns) reads ms
replies cfg before (ns ∷ reads) (run_turn t ∷ ms) = replies cfg (before ++ ns) reads ms

-- A session over, with what went out in it.
abbrev pub Answered : List GuestToHost → Bool × (Reader × PseudoChannel) → Type 0
Answered said (ended, (r, c)) = (ended ≡ true) × (c.inbox ≡ []) × (c.outbox ≡ said)

-- The session of a wrapped process that has printed `before` until the session begins: with one
-- wait more than messages it ends, every message is read, and what went out are the replies: each
-- drain request was acknowledged with exactly the turn that the process had open by all it had
-- printed until then (the last boundary was a start; the id is how many starts did not follow a
-- start, modulo 2^64), each ping was answered, and nothing else was.
pub serve_wrap_messages-Answered :
    (cfg : WrapConfig) (before : List NextLine) (reads : List (List NextLine))
    (ms : List HostToGuest) (o : List GuestToHost)
    → length ms < length reads
    → Answered (o ++ replies cfg before reads ms) (
        serve_wrap_messages pseudo_channel cfg reads
          (read_lines cfg before at_start)
          (record { inbox = ms; outbox = o }))
unfolding serve_wrap_messages answer send_pseudo recv_pseudo
serve_wrap_messages-Answered cfg before [] ms o l = elim (not_below (length ms) l) [ ]
serve_wrap_messages-Answered cfg before (ns ∷ reads) [] o l = (refl, refl, sym (append-nil o))
serve_wrap_messages-Answered cfg before (ns ∷ reads) (drain_request d ∷ ms) o l =
    let said = drain_ack (open_in cfg (before ++ ns)) ∷ [] in
    ground (
      arith,
      read_lines-append cfg before ns at_start,
      in_flight-read_lines cfg (before ++ ns),
      append_assoc o said (replies cfg (before ++ ns) reads ms),
      serve_wrap_messages-Answered cfg (before ++ ns) reads ms (o ++ said) (omega arith),
    )
serve_wrap_messages-Answered cfg before (ns ∷ reads) (HostToGuest.ping ∷ ms) o l =
    let said = GuestToHost.pong ∷ [] in
    ground (
      arith,
      read_lines-append cfg before ns at_start,
      append_assoc o said (replies cfg (before ++ ns) reads ms),
      serve_wrap_messages-Answered cfg (before ++ ns) reads ms (o ++ said) (omega arith),
    )
serve_wrap_messages-Answered cfg before (ns ∷ reads) (HostToGuest.pong ∷ ms) o l = ground (
  arith,
  read_lines-append cfg before ns at_start,
  serve_wrap_messages-Answered cfg (before ++ ns) reads ms o (omega arith),
)
serve_wrap_messages-Answered cfg before (ns ∷ reads) (secrets env ∷ ms) o l = ground (
  arith,
  read_lines-append cfg before ns at_start,
  serve_wrap_messages-Answered cfg (before ++ ns) reads ms o (omega arith),
)
serve_wrap_messages-Answered cfg before (ns ∷ reads) (drain_cancel ∷ ms) o l = ground (
  arith,
  read_lines-append cfg before ns at_start,
  serve_wrap_messages-Answered cfg (before ++ ns) reads ms o (omega arith),
)
serve_wrap_messages-Answered cfg before (ns ∷ reads) (run_turn t ∷ ms) o l = ground (
  arith,
  read_lines-append cfg before ns at_start,
  serve_wrap_messages-Answered cfg (before ++ ns) reads ms o (omega arith),
)
