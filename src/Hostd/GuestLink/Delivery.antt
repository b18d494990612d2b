-- ===== src/Hostd/GuestLink/Delivery.antt =====
-- crates/hostd/src/guestlink.rs and crates/guestd/src/framing.rs: what the guest sends, the host
-- receives.
use mathlib.Core.Path.{subst}
use sleepwalk.Prelude.{
  ℕ, List, [], ◌∷◌, ◌++◌, ◌≡◌, refl, sym, ap, ◌∙◌, arith, length, ◌⊎◌, inl, inr,
}
use sleepwalk.Prelude.Results.{Result, ok, err, map_err}
use sleepwalk.Prelude.Strings.{newline, read_line, read_line-append, trim_end, OneLine}
use sleepwalk.Proto.Ids.{Text}
use sleepwalk.Proto.Vsock.{GuestToHost}
use sleepwalk.Proto.Lines.{
  Stream, Duplex, Codec, PrintsLines, Carries, send_each, recv_each, send_each-Carries,
  recv_each-Carries,
}
use sleepwalk.Proto.Lines.Ends.{Readable, put_line-outgoing, take_line-Carries, take_line_closed}
use sleepwalk.Guestd.Channel.{malformed, io}
use sleepwalk.Guestd.Framing.{framed_send}
use sleepwalk.Hostd.GuestLink.{
  LinkFault, stream_error, json_error, guest_closed, link_recv, link_connect, shake, connect_line,
  link_over, parse_line,
}

module _ (s : Stream) (d : Duplex s) where
  -- A read fails or takes the first line.
  read_line_takes :
      (c : s.Conn) (r : Result Text s.Error)
      → (s.read_line c).0 ≡ r
      → ((e : s.Error) × (r ≡ err e))
        ⊎ (d.incoming (s.read_line c).1 ≡ (read_line (d.incoming c)).1)
  read_line_takes c (ok line) h = inr (ap (λ r. r.1) (d.read_line_ok c line h))
  read_line_takes c (err e) h = inl (e, refl)

  -- What a handshake that succeeds has read and written.
  shake-Answered :
      (port : ℕ) (k : s.Conn)
      → (shake s port k).0 ≡ ok tt
      → (d.incoming (shake s port k).1 ≡ (read_line (d.incoming k)).1)
        × (d.outgoing (shake s port k).1 ≡ d.outgoing k ++ connect_line port)
  unfolding shake
  shake-Answered port k h =
      let k1 : s.Conn = (s.write_all (connect_line port) k).1 in
      let k2 : s.Conn = (s.flush k1).1 in
      ground (
        arith,
        d.write_all_ok (connect_line port) k,
        d.incoming-write_all (connect_line port) k,
        d.outgoing-flush k1,
        d.incoming-flush k1,
        d.outgoing-read_line k2,
        read_line_takes k2 (s.read_line k2).0 refl,
      )

  connected_of :
      (r : Result (Unit {0}) (LinkFault s.Error)) (c l : s.Conn)
      → link_over s c r ≡ ok l
      → (r ≡ ok tt) × (c ≡ l)
  connected_of (ok _) c l h = ground arith
  connected_of (err e) c l h = ground arith

  -- A link is what the handshake has left of the socket.
  connected :
      (port : ℕ) (k l : s.Conn)
      → link_connect s (ok k) port ≡ ok l
      → ((shake s port k).0 ≡ ok tt) × ((shake s port k).1 ≡ l)
  unfolding link_connect
  connected port k l h = connected_of (shake s port k).0 (shake s port k).1 l h

-- A line that is not empty is handed to serde_json.
link_parse_line :
    (s : Stream) (json : Codec GuestToHost) (line : Text) (c : s.Conn)
    → ¬ (line ≡ [])
    → parse_line s json line c ≡ (map_err json_error (json.from_str (trim_end line)), c)
link_parse_line s json [] c n = absurd (n refl)
link_parse_line s json (x ∷ xs) c n = refl

module _ (s t : Stream) (d : Duplex s) (e : Duplex t) (show_error : s.Error → Text) (port : ℕ)
    (k l : t.Conn) where
  -- The two ends implement a queue: what a fresh channel of the guest sends, in any number of messages
  -- and without an error, the link receives in the same order, and then finds the guest closed, if it
  -- has connected through a socket that hands out one line of answer and then what the guest has
  -- written, reads do not fail, and each message is printed on one line that reads back.
  pub link_recv-framed_send :
      (json : Codec GuestToHost)
      → PrintsLines json
      → Readable t
      → link_connect t (ok k) port ≡ ok l
      → (answer : Text) → OneLine answer
      → (c : s.Conn) (ms : List GuestToHost) → d.outgoing c ≡ []
      → (send_each (framed_send s show_error json) ms c).0 ≡ ok tt
      → e.incoming k
        ≡ answer ++ newline ∷ d.outgoing (send_each (framed_send s show_error json) ms c).1
      → ((recv_each (link_recv t json) (length ms) l).0 ≡ ok ms)
        × ((link_recv t json (recv_each (link_recv t json) (length ms) l).1).0 ≡ err guest_closed)
  unfolding framed_send link_recv
  link_recv-framed_send json prints reads joined answer one c ms fresh sent piped =
      let (text, wrote, carried) =
        send_each-Carries json d.outgoing (framed_send s show_error json)
          (λ m b h. put_line-outgoing s d (λ x. io (show_error x)) malformed (json.to_vec m) b h) ms
          c sent in
      let (shaken, same) = connected t e port k l joined in
      let (rest, _) = shake-Answered t e port k shaken in
      let heard : e.incoming l ≡ text =
        ap e.incoming (sym same)
        ∙ rest
        ∙ ap (λ i. (read_line i).1) piped
        ∙ ap (λ r. r.1) (read_line-append answer _ one)
        ∙ wrote
        ∙ ap (λ o. o ++ text) fresh in
      let (all, nothing) =
        recv_each-Carries json e.incoming (link_recv t json)
          (take_line-Carries t e stream_error json_error json (parse_line t json) prints reads
            (link_parse_line t json))
          ms l (subst (Carries json ms) (sym heard) carried) in
      (
        all,
        ap (λ r. r.0)
            (take_line_closed t e stream_error json_error json (parse_line t json) reads
              (recv_each (link_recv t json) (length ms) l).1 nothing),
      )
