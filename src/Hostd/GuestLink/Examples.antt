-- ===== src/Hostd/GuestLink/Examples.antt =====
-- A link and a guest's channel on a stream in memory, with two messages each way.
use mathlib.Core.Path.{subst}
use sleepwalk.Prelude.{ap, List, [], ◌∷◌, ◌++◌, ◌≡◌, refl, arith, ◌==◌, if◌then◌else◌}
use sleepwalk.Prelude.Results.{Result, ok, err}
use sleepwalk.Prelude.Strings.{
  read_line, newline, trim, trim_end, trim_start, starts_with, decimal, digits_in, OneLine,
}
use sleepwalk.Proto.Ids.{Text}
use sleepwalk.Proto.Vsock.{
  GuestToHost, HostToGuest, hello, turn_started, turn_ended, drain_ack, resumed, secrets,
  drain_request, drain_cancel, run_turn,
}
use sleepwalk.Proto.Lines.{Stream, Duplex, Codec, PrintsLines, send_each, recv_each}
use sleepwalk.Proto.Lines.Ends.{Readable}
use sleepwalk.Guestd.Framing.{framed_send}
use sleepwalk.Hostd.GuestLink.{
  link_send, link_recv, guest_closed, connect_failed, connect_retry, connect_line, link_connect,
  shake,
}
use sleepwalk.Hostd.GuestLink.Retry.{Retried, connect_retry-outcome}
use sleepwalk.Hostd.GuestLink.Delivery.{link_recv-framed_send}

record Pipe : Type 0 where
  input : Text
  output : Text

abbrev pipe : Stream
pipe = record {
  Conn = Pipe;
  Error = ⊥;
  write_all = λ t c. (ok tt, record c { output = c.output ++ t });
  flush = λ c. (ok tt, c);
  read_line = λ c. (ok (read_line c.input).0, record c { input = (read_line c.input).1 });
}

pipe_taken :
    (c : Pipe) (line : Text)
    → (pipe.read_line c).0 ≡ ok line
    → (line, (read_line c.input).1) ≡ read_line c.input
pipe_taken c line h = ground arith

abbrev pipe_duplex : Duplex pipe
pipe_duplex = record {
  incoming = λ c. c.input;
  outgoing = λ c. c.output;
  write_all_ok = λ t c h. refl;
  incoming-write_all = λ t c. refl;
  outgoing-flush = λ c. refl;
  incoming-flush = λ c. refl;
  read_line_ok = pipe_taken;
  outgoing-read_line = λ c. refl;
}

abbrev printed : Result Text Text → Text
printed (ok t) = t
printed (err e) = []

unfoldable Fine : {M : Type 0} → (Text → Result M Text) → M → Text → Type 0
Fine from_str m t = OneLine t × (trim_end t ≡ t) × (from_str t ≡ ok m)

Fine-printed :
    {M : Type 0} (from_str : Text → Result M Text) (m : M) (r : Result Text Text) (t : Text)
    → r ≡ ok t
    → Fine from_str m (printed r)
    → Fine from_str m t
Fine-printed from_str m r t h f = subst (Fine from_str m) (ap printed h) f

-- Of the messages to the host, ping and pong as the lines "p" and "q".
abbrev print_up : GuestToHost → Result Text Text
print_up GuestToHost.ping = ok (112 ∷ [])
print_up GuestToHost.pong = ok (113 ∷ [])
print_up _ = err []

abbrev read_up : Text → Result GuestToHost Text
read_up [] = err []
read_up (c ∷ cs) = if c == 112 then ok GuestToHost.ping else ok GuestToHost.pong

abbrev json_up : Codec GuestToHost
json_up = record { to_vec = print_up; from_str = read_up }

json_up_prints : PrintsLines json_up
unfolding trim_end Fine trim_start
json_up_prints GuestToHost.ping t h =
    Fine-printed read_up GuestToHost.ping (print_up GuestToHost.ping) t h ((refl, tt), refl, refl)
json_up_prints GuestToHost.pong t h =
    Fine-printed read_up GuestToHost.pong (print_up GuestToHost.pong) t h ((refl, tt), refl, refl)
json_up_prints (hello v w) t h = ground arith
json_up_prints (turn_started i n) t h = ground arith
json_up_prints (turn_ended i n) t h = ground arith
json_up_prints (drain_ack o) t h = ground arith
json_up_prints (resumed n) t h = ground arith

abbrev print_down : HostToGuest → Result Text Text
print_down HostToGuest.ping = ok (112 ∷ [])
print_down drain_cancel = ok (113 ∷ [])
print_down _ = err []

abbrev read_down : Text → Result HostToGuest Text
read_down [] = err []
read_down (c ∷ cs) = if c == 112 then ok HostToGuest.ping else ok drain_cancel

abbrev json_down : Codec HostToGuest
json_down = record { to_vec = print_down; from_str = read_down }

json_down_prints : PrintsLines json_down
unfolding trim_end Fine trim_start
json_down_prints HostToGuest.ping t h =
    Fine-printed read_down HostToGuest.ping (print_down HostToGuest.ping) t h
      ((refl, tt), refl, refl)
json_down_prints drain_cancel t h =
    Fine-printed read_down drain_cancel (print_down drain_cancel) t h ((refl, tt), refl, refl)
json_down_prints (secrets e) t h = ground arith
json_down_prints (drain_request e) t h = ground arith
json_down_prints (run_turn e) t h = ground arith
json_down_prints HostToGuest.pong t h = ground arith

abbrev start : Pipe
start = record { input = []; output = [] }

abbrev up : List GuestToHost
up = GuestToHost.pong ∷ GuestToHost.ping ∷ []

-- "OK 7"
abbrev answer : Text
answer = 79 ∷ 75 ∷ 32 ∷ 55 ∷ []

abbrev sent_up : Pipe
sent_up = (send_each (framed_send pipe (λ e. []) json_up) up start).1

abbrev socket : Pipe
socket = record { input = answer ++ newline ∷ 113 ∷ 10 ∷ 112 ∷ 10 ∷ []; output = [] }

abbrev link : Pipe
link = record { input = 113 ∷ 10 ∷ 112 ∷ 10 ∷ []; output = connect_line 52 }

abbrev guest_end : Pipe
guest_end = record { input = 113 ∷ 10 ∷ 112 ∷ 10 ∷ []; output = [] }

abbrev down : List HostToGuest
down = drain_cancel ∷ HostToGuest.ping ∷ []

reads_all : Readable pipe
reads_all c = ((read_line c.input).0, refl)

joined : link_connect pipe (ok socket) 52 ≡ ok link
unfolding link_connect shake read_line starts_with decimal digits_in
joined = refl

answer-OneLine : OneLine answer
answer-OneLine = (refl, (refl, (refl, (refl, tt))))

sent_ok : (send_each (framed_send pipe (λ e. []) json_up) up start).0 ≡ ok tt
unfolding send_each framed_send
sent_ok = refl

piped : socket.input ≡ answer ++ newline ∷ sent_up.output
unfolding send_each framed_send
piped = refl

sent_down_ok : (send_each (link_send pipe json_down) down link).0 ≡ ok tt
unfolding send_each link_send
sent_down_ok = refl

piped_down :
    (send_each (link_send pipe json_down) down link).1.output ≡ connect_line 52 ++ guest_end.input
unfolding send_each link_send decimal digits_in
piped_down = refl

link_recv-framed_send_example :
    ((recv_each (link_recv pipe json_up) 2 link).0 ≡ ok up)
    × ((link_recv pipe json_up (recv_each (link_recv pipe json_up) 2 link).1).0 ≡ err guest_closed)
link_recv-framed_send_example =
    link_recv-framed_send pipe pipe pipe_duplex pipe_duplex (λ e. []) 52 socket link json_up
      json_up_prints reads_all joined answer answer-OneLine start up refl sent_ok piped

-- A socket that answers "NO" to CONNECT.
abbrev refusing : Pipe
refusing = record { input = 78 ∷ 79 ∷ 10 ∷ []; output = [] }

refused : link_connect pipe (ok refusing) 52 ≡ err (connect_failed 52 (78 ∷ 79 ∷ []))
unfolding link_connect shake read_line starts_with decimal digits_in trim trim_end trim_start
refused = refl

connect_retry-outcome_example :
    Retried pipe 52
      (ok refusing ∷ ok socket ∷ ok start ∷ [])
      (connect_retry pipe (ok refusing ∷ ok socket ∷ ok start ∷ []) 52)
connect_retry-outcome_example =
    connect_retry-outcome pipe 52 (ok refusing ∷ ok socket ∷ ok start ∷ [])
