-- ===== src/Guestd/Channel.antt =====
-- crates/guestd/src/channel.rs: the trait `GuestChannel`, with what a transcript of it means, and
-- crates/guestd/src/pseudo_channel.rs, the scripted channel, which keeps one. The channel's
-- interior state is passed along.
use sleepwalk.Prelude.{◌≡◌, refl, List, [], ◌∷◌, ◌++◌, arith}
use sleepwalk.Prelude.Results.{Result, ok, err}
use sleepwalk.Proto.Ids.{Text}
use sleepwalk.Proto.Vsock.{GuestToHost, HostToGuest}

pub data ChannelError : Type 0 where
  closed : ChannelError
  io malformed : Text → ChannelError

pub record GuestChannel : Type 1 where
  pub Conn : Type 0
  pub send : GuestToHost → Conn → Result (Unit {0}) ChannelError × Conn
  pub recv : Conn → Result HostToGuest ChannelError × Conn

-- What a client may rely on where it speaks of the messages that went out: a send that succeeds
-- appends its message, and nothing else touches the transcript.
pub record Transcript (ch : GuestChannel) : Type 0 where
  pub sent : ch.Conn → List GuestToHost
  pub sent-send_ok :
      (m : GuestToHost) (c : ch.Conn)
      → (ch.send m c).0 ≡ ok tt
      → sent (ch.send m c).1 ≡ sent c ++ m ∷ []
  pub sent-send_err :
      (m : GuestToHost) (c : ch.Conn) (e : ChannelError)
      → (ch.send m c).0 ≡ err e
      → sent (ch.send m c).1 ≡ sent c
  pub sent-recv : (c : ch.Conn) → sent (ch.recv c).1 ≡ sent c

-- The two queues under `PseudoChannel`'s locks.
pub record PseudoChannel : Type 0 where
  pub inbox : List HostToGuest
  pub outbox : List GuestToHost

-- `PseudoChannel::new`
abbrev pub new_pseudo : PseudoChannel
new_pseudo = record { inbox = []; outbox = [] }

unfoldable pub push_inbound : HostToGuest → PseudoChannel → PseudoChannel
push_inbound m c = record c { inbox = c.inbox ++ m ∷ [] }

unfoldable pub send_pseudo :
    GuestToHost → PseudoChannel → Result (Unit {0}) ChannelError × PseudoChannel
send_pseudo m c = (ok tt, record c { outbox = c.outbox ++ m ∷ [] })

unfoldable pub recv_pseudo : PseudoChannel → Result HostToGuest ChannelError × PseudoChannel
recv_pseudo c = elim c.inbox [ [] ↦ (err closed, c) | m ∷ rest ↦ (ok m, record c { inbox = rest }) ]

abbrev pub pseudo_channel : GuestChannel
pseudo_channel = record { Conn = PseudoChannel; send = send_pseudo; recv = recv_pseudo }

pub pseudo_sent-recv : (c : PseudoChannel) → (recv_pseudo c).1.outbox ≡ c.outbox
unfolding recv_pseudo
pseudo_sent-recv c = ground arith

unfoldable pub pseudo_transcript : Transcript pseudo_channel
unfolding send_pseudo
pseudo_transcript = record {
  sent = λ c. c.outbox;
  sent-send_ok = λ m c h. refl;
  sent-send_err = λ m c e h. cc;
  sent-recv = pseudo_sent-recv;
}
