-- ===== src/Proto/Lines.antt =====
-- Messages as lines of JSON on a byte stream, which crates/guestd/src/framing.rs and
-- crates/hostd/src/guestlink.rs write and read. The stream of tokio with its buffered reader is the
-- interface `Stream`, and serde_json the interface `Codec`.
pub mod Ends
use mathlib.Core.Path.{subst}
use sleepwalk.Prelude.{
  ℕ, zero, suc, List, [], ◌∷◌, ◌++◌, ◌≡◌, refl, sym, ap, ◌∙◌, append_assoc, arith, length,
  append-nil,
}
use sleepwalk.Prelude.Results.{Result, ok, err, Method, pure, bind_ok, bind_ok_first, ◌>>=◌, ◌>>◌}
use sleepwalk.Prelude.Strings.{
  newline, read_line, read_line-append, trim_end, trim_end-newline, OneLine,
}
use sleepwalk.Proto.Ids.{Text}

-- `read_line` on a stream hands out an empty line once the peer has closed.
pub record Stream : Type 1 where
  pub Conn : Type 0
  pub Error : Type 0
  pub write_all : Text → Method Conn Error (Unit {0})
  pub flush : Method Conn Error (Unit {0})
  pub read_line : Method Conn Error Text

-- What the documentation of tokio says of a stream whose peer writes UTF-8: a write that succeeds
-- puts the bytes after those written before, and a read that succeeds takes the next line, with its
-- newline, from those that the peer wrote.
pub record Duplex (s : Stream) : Type 0 where
  pub incoming : s.Conn → Text
  pub outgoing : s.Conn → Text
  pub write_all_ok :
      (t : Text) (c : s.Conn)
      → (s.write_all t c).0 ≡ ok tt
      → outgoing (s.write_all t c).1 ≡ outgoing c ++ t
  pub incoming-write_all : (t : Text) (c : s.Conn) → incoming (s.write_all t c).1 ≡ incoming c
  pub outgoing-flush : (c : s.Conn) → outgoing (s.flush c).1 ≡ outgoing c
  pub incoming-flush : (c : s.Conn) → incoming (s.flush c).1 ≡ incoming c
  pub read_line_ok :
      (c : s.Conn) (line : Text)
      → (s.read_line c).0 ≡ ok line
      → (line, incoming (s.read_line c).1) ≡ read_line (incoming c)
  pub outgoing-read_line : (c : s.Conn) → outgoing (s.read_line c).1 ≡ outgoing c

pub record Codec (M : Type 0) : Type 0 where
  pub to_vec : M → Result Text Text
  pub from_str : Text → Result M Text

append-cons_neq_nil : (t : Text) (c : ℕ) → ¬ (t ++ c ∷ [] ≡ [])
append-cons_neq_nil [] c = λ z. ground arith
append-cons_neq_nil (a ∷ t) c = λ z. ground arith

module _ {M : Type 0} (codec : Codec M) where
  -- What serde_json guarantees of its compact form: a value is printed on one line without white
  -- space at its end, and reads back.
  abbrev pub PrintsLines : Type 0
  PrintsLines =
      (m : M) (t : Text)
      → codec.to_vec m ≡ ok t
      → OneLine t × (trim_end t ≡ t) × (codec.from_str t ≡ ok m)

  -- The text is the lines of the messages, in order.
  abbrev pub Carries : List M → Text → Type 0
  Carries [] text = text ≡ []
  Carries (m ∷ ms) text =
      (t : Text) × (rest : Text) × (codec.to_vec m ≡ ok t)
      × (text ≡ t ++ newline ∷ rest)
      × Carries ms rest

  -- The first line holds the first message, and what comes after it the others.
  pub Carries-read_line :
      PrintsLines
      → (m : M) (ms : List M) (text line rest : Text) → Carries (m ∷ ms) text
      → (line, rest) ≡ read_line text
      → (codec.from_str (trim_end line) ≡ ok m) × Carries ms rest × ¬ (line ≡ [])
  Carries-read_line prints m ms text line rest (t, after, e, g, h) r =
      let (one, trimmed, parsed) = prints m t e in
      let first : (line, rest) ≡ (t ++ newline ∷ [], after) =
        r ∙ ap read_line g ∙ read_line-append t after one in
      (
        ap (λ p. codec.from_str (trim_end p.0)) first
            ∙ ap codec.from_str (trim_end-newline t ∙ trimmed)
            ∙ parsed,
        subst (Carries ms) (sym (ap (λ p. p.1) first)) h,
        λ z. append-cons_neq_nil t newline (sym (ap (λ p. p.0) first) ∙ z),
      )

-- One message after another, up to the first error.
module _ {S E M : Type 0} where
  unfoldable pub send_each : (M → Method S E (Unit {0})) → List M → Method S E (Unit {0})
  send_each send [] = pure tt
  send_each send (m ∷ ms) = send m >> send_each send ms

  unfoldable pub recv_each : Method S E M → ℕ → Method S E (List M)
  recv_each recv zero = pure []
  recv_each recv (suc n) = do m ← recv; ms ← recv_each recv n; pure (m ∷ ms)

  -- A send that writes its message's line, sends the messages' lines.
  pub send_each-Carries :
      (json : Codec M) (outgoing : S → Text) (send : M → Method S E (Unit {0}))
      → ((m : M) (c : S)
          → (send m c).0 ≡ ok tt
          → (t : Text) × (json.to_vec m ≡ ok t)
            × (outgoing (send m c).1 ≡ outgoing c ++ (t ++ newline ∷ [])))
      → (ms : List M) (c : S) → (send_each send ms c).0 ≡ ok tt
      → (text : Text) × (outgoing (send_each send ms c).1 ≡ outgoing c ++ text)
        × Carries json ms text
  unfolding send_each
  send_each-Carries json outgoing send line [] c h = ([], sym (append-nil (outgoing c)), refl)
  send_each-Carries json outgoing send line (m ∷ ms) c h =
      let (u, e, after) = bind_ok_first (send m) (λ _. send_each send ms) c tt h in
      let (t, f, g) = line m c e in
      let (text, gs, carried) =
        send_each-Carries json outgoing send line ms (send m c).1 (sym (ap (λ r. r.0) after) ∙ h) in
      (
        t ++ newline ∷ text,
        ap (λ r. outgoing r.1) after
            ∙ gs
            ∙ ap (λ o. o ++ text) g
            ∙ append_assoc (outgoing c) (t ++ newline ∷ []) text
            ∙ ap (λ o. outgoing c ++ o) (append_assoc t (newline ∷ []) text),
        (t, text, f, refl, carried),
      )

  -- A receive that takes one line's message, takes the messages in their order.
  pub recv_each-Carries :
      (json : Codec M) (incoming : S → Text) (recv : Method S E M)
      → ((m : M) (ms : List M) (c : S)
          → Carries json (m ∷ ms) (incoming c)
          → ((recv c).0 ≡ ok m) × Carries json ms (incoming (recv c).1))
      → (ms : List M) (c : S) → Carries json ms (incoming c)
      → ((recv_each recv (length ms) c).0 ≡ ok ms)
        × (incoming (recv_each recv (length ms) c).1 ≡ [])
  unfolding recv_each
  recv_each-Carries json incoming recv line [] c h = (refl, h)
  recv_each-Carries json incoming recv line (m ∷ ms) c h =
      let (e, carried) = line m ms c h in
      let (es, nothing) = recv_each-Carries json incoming recv line ms (recv c).1 carried in
      let first = bind_ok recv (λ n. recv_each recv (length ms) >>= λ ns. pure (n ∷ ns)) c m e in
      let rest = bind_ok (recv_each recv (length ms)) (λ ns. pure (m ∷ ns)) (recv c).1 ms es in
      (ap (λ r. r.0) (first ∙ rest), ap (λ r. incoming r.1) (first ∙ rest) ∙ nothing)
