-- ===== src/Hostd/GuestLink.antt =====
-- crates/hostd/src/guestlink.rs: the host's end of the guest protocol, dialled through Firecracker's
-- socket (vsock) or over TCP. Dialling is a parameter, and so is the number of attempts that begin
-- before a deadline; the pause between attempts is left out. The handshake and the drain over a link
-- are in Hostd/Migrate.
pub mod Delivery
pub mod Retry
mod Examples
use sleepwalk.Prelude.{ℕ, zero, suc, List, [], ◌∷◌, ◌++◌, Bool, true, false, not, if◌then◌else◌}
use sleepwalk.Prelude.Results.{
  Result, ok, err, map_err, Method, pure, fail, fail_if, from_result, ◌>>=◌, ◌>>◌,
}
use sleepwalk.Prelude.Strings.{newline, trim, trim_end, starts_with, decimal}
use sleepwalk.Proto.Ids.{Text}
use sleepwalk.Proto.Vsock.{GuestToHost, HostToGuest}
use sleepwalk.Proto.Lines.{Stream, Codec}

-- The errors of this file: those of the stream, and those it makes itself.
pub data LinkFault (E : Type 0) : Type 0 where
  stream_error : E → LinkFault E
  -- `io::Error::other` of an error of serde_json.
  json_error : Text → LinkFault E
  guest_closed no_attempt : LinkFault E
  -- The port, and what was answered to CONNECT.
  connect_failed : ℕ → Text → LinkFault E

-- "CONNECT <port>\n"
abbrev pub connect_line : ℕ → Text
connect_line port = 67 ∷ 79 ∷ 78 ∷ 78 ∷ 69 ∷ 67 ∷ 84 ∷ 32 ∷ (decimal port ++ newline ∷ [])

-- "OK"
abbrev pub ok_text : Text
ok_text = 79 ∷ 75 ∷ []

module _ (s : Stream) where
  abbrev pub Fault : Type 0
  Fault = LinkFault s.Error

  abbrev on_stream : {A : Type 0} → Method s.Conn s.Error A → Method s.Conn Fault A
  on_stream m c = let (r, c') = m c in (map_err stream_error r, c')

  -- `connect` once the socket is reached.
  unfoldable pub shake : ℕ → Method s.Conn Fault (Unit {0})
  shake port = do
    on_stream (s.write_all (connect_line port))
    on_stream s.flush
    answer ← on_stream s.read_line
    fail_if (not (starts_with answer ok_text)) (connect_failed port (trim answer))

  abbrev pub link_over : s.Conn → Result (Unit {0}) Fault → Result s.Conn Fault
  link_over c (ok _) = ok c
  link_over c (err e) = err e

  -- `GuestLink::connect`, where `dialed` is what `UnixStream::connect` returned.
  unfoldable pub link_connect : Result s.Conn s.Error → ℕ → Result s.Conn Fault
  link_connect dialed port = elim dialed [
    | err e ↦ err (stream_error e)
    | ok c ↦ let (r, c') = shake port c in link_over c' r
  ]

  -- `GuestLink::connect_tcp`
  unfoldable pub link_connect_tcp : Result s.Conn s.Error → Result s.Conn Fault
  link_connect_tcp dialed = map_err stream_error dialed

  -- The loop of `connect_retry` and of `connect_tcp_retry`, over the results of its attempts.
  unfoldable pub retry_from : Fault → List (Result s.Conn Fault) → Result s.Conn Fault
  retry_from last [] = err last
  retry_from last (ok c ∷ rs) = ok c
  retry_from last (err e ∷ rs) = retry_from e rs

  abbrev pub connects : ℕ → List (Result s.Conn s.Error) → List (Result s.Conn Fault)
  connects port [] = []
  connects port (d ∷ ds) = link_connect d port ∷ connects port ds

  abbrev tcp_connects : List (Result s.Conn s.Error) → List (Result s.Conn Fault)
  tcp_connects [] = []
  tcp_connects (d ∷ ds) = link_connect_tcp d ∷ tcp_connects ds

  -- `GuestLink::connect_retry`, where the list is what dialling returns at each attempt.
  unfoldable pub connect_retry : List (Result s.Conn s.Error) → ℕ → Result s.Conn Fault
  connect_retry dials port = retry_from no_attempt (connects port dials)

  -- `GuestLink::connect_tcp_retry`
  unfoldable pub connect_tcp_retry : List (Result s.Conn s.Error) → Result s.Conn Fault
  connect_tcp_retry dials = retry_from no_attempt (tcp_connects dials)

  -- `GuestLink::send`
  unfoldable pub link_send : Codec HostToGuest → HostToGuest → Method s.Conn Fault (Unit {0})
  link_send json m = do
    line ← from_result (map_err json_error (json.to_vec m))
    on_stream (s.write_all (line ++ newline ∷ []))
    on_stream s.flush

  abbrev pub parse_line : Codec GuestToHost → Text → Method s.Conn Fault GuestToHost
  parse_line json [] = fail guest_closed
  parse_line json (c ∷ cs) = from_result (map_err json_error (json.from_str (trim_end (c ∷ cs))))

  -- `GuestLink::recv`
  unfoldable pub link_recv : Codec GuestToHost → Method s.Conn Fault GuestToHost
  link_recv json = on_stream s.read_line >>= parse_line json
