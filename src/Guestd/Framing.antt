-- ===== src/Guestd/Framing.antt =====
-- crates/guestd/src/framing.rs: `JsonLineChannel`, the guest's channel over a byte stream. Its two
-- locks guard the halves of one connection, which is passed along; the display of an error of the
-- stream is an argument.
use sleepwalk.Prelude.{[], ◌∷◌, ◌++◌}
use sleepwalk.Prelude.Results.{map_err, Method, fail, from_result, ◌>>=◌, ◌>>◌}
use sleepwalk.Prelude.Strings.{newline, trim_end}
use sleepwalk.Proto.Ids.{Text}
use sleepwalk.Proto.Vsock.{GuestToHost, HostToGuest}
use sleepwalk.Proto.Lines.{Stream, Codec}
use sleepwalk.Guestd.Channel.{ChannelError, closed, io, malformed, GuestChannel}

module _ (s : Stream) (show_error : s.Error → Text) where
  abbrev io_err : s.Error → ChannelError
  io_err e = io (show_error e)

  abbrev streamed : {A : Type 0} → Method s.Conn s.Error A → Method s.Conn ChannelError A
  streamed m c = let (r, c') = m c in (map_err io_err r, c')

  -- `JsonLineChannel::send`
  unfoldable pub framed_send :
      Codec GuestToHost → GuestToHost → Method s.Conn ChannelError (Unit {0})
  framed_send json m = do
    line ← from_result (map_err malformed (json.to_vec m))
    streamed (s.write_all (line ++ newline ∷ []))
    streamed s.flush

  abbrev pub parse_line : Codec HostToGuest → Text → Method s.Conn ChannelError HostToGuest
  parse_line json [] = fail closed
  parse_line json (c ∷ cs) = from_result (map_err malformed (json.from_str (trim_end (c ∷ cs))))

  -- `JsonLineChannel::recv`
  unfoldable pub framed_recv : Codec HostToGuest → Method s.Conn ChannelError HostToGuest
  framed_recv json = streamed s.read_line >>= parse_line json

  abbrev pub json_line_channel : Codec GuestToHost → Codec HostToGuest → GuestChannel
  json_line_channel out_json in_json = record {
    Conn = s.Conn;
    send = framed_send out_json;
    recv = framed_recv in_json;
  }
