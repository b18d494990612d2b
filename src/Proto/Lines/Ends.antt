-- ===== src/Proto/Lines/Ends.antt =====
-- The two halves of an end of the guest protocol, as crates/guestd/src/framing.rs and
-- crates/hostd/src/guestlink.rs both write them: a message is sent as its line, and a line received
-- as its message.
use mathlib.Core.Path.{subst}
use sleepwalk.Prelude.{List, [], ◌∷◌, ◌++◌, ◌≡◌, refl, sym, ap, ◌∙◌, arith}
use sleepwalk.Prelude.Results.{Result, ok, err, map_err, Method, bind_ok, ◌>>=◌, ◌>>◌, from_result}
use sleepwalk.Prelude.Strings.{newline, read_line, trim_end}
use sleepwalk.Proto.Ids.{Text}
use sleepwalk.Proto.Lines.{Stream, Duplex, Codec, PrintsLines, Carries, Carries-read_line}

-- Every read of the stream succeeds.
abbrev pub Readable : Stream → Type 0
Readable s = (c : s.Conn) → (line : Text) × ((s.read_line c).0 ≡ ok line)

-- The errors of the stream become those of the end by `f`, and those of the codec by `g`.
module _ (s : Stream) (d : Duplex s) {F : Type 0} (f : s.Error → F) (g : Text → F) where
  abbrev pub lifted : {A : Type 0} → Method s.Conn s.Error A → Method s.Conn F A
  lifted m c = let (r, c') = m c in (map_err f r, c')

  abbrev pub put_line : Result Text Text → Method s.Conn F (Unit {0})
  put_line r = do
    line ← from_result (map_err g r)
    lifted (s.write_all (line ++ newline ∷ []))
    lifted s.flush

  pub put_line-outgoing :
      (r : Result Text Text) (c : s.Conn)
      → (put_line r c).0 ≡ ok tt
      → (t : Text) × (r ≡ ok t)
        × (d.outgoing (put_line r c).1 ≡ d.outgoing c ++ (t ++ newline ∷ []))
  put_line-outgoing (err e) c h = ground arith
  put_line-outgoing (ok t) c h = (
    t,
    refl,
    ground (
      arith,
      d.write_all_ok (t ++ newline ∷ []) c,
      d.outgoing-flush (s.write_all (t ++ newline ∷ []) c).1,
    ),
  )

  module _ {M : Type 0} (json : Codec M) (parse : Text → Method s.Conn F M) where
    abbrev pub take_line : Method s.Conn F M
    take_line = lifted s.read_line >>= parse

    lifted_read_line :
        (c : s.Conn) (line : Text)
        → (s.read_line c).0 ≡ ok line
        → take_line c ≡ parse line (s.read_line c).1
    lifted_read_line c line h = bind_ok (lifted s.read_line) parse c line (ap (map_err f) h)

    -- With a line's worth of characters the first message is received.
    pub take_line-Carries :
        PrintsLines json
        → Readable s
        → ((line : Text) (c : s.Conn)
            → ¬ (line ≡ [])
            → parse line c ≡ (map_err g (json.from_str (trim_end line)), c))
        → (m : M) (ms : List M) (c : s.Conn) → Carries json (m ∷ ms) (d.incoming c)
        → ((take_line c).0 ≡ ok m) × Carries json ms (d.incoming (take_line c).1)
    take_line-Carries prints reads parses m ms c h =
        let (line, e) = reads c in
        let (parsed, carried, some_text) =
          Carries-read_line json prints m ms (d.incoming c) line (d.incoming (s.read_line c).1) h
            (d.read_line_ok c line e) in
        let taken =
          lifted_read_line c line e
          ∙ parses line (s.read_line c).1 some_text
          ∙ ap (λ r. (map_err g r, (s.read_line c).1)) parsed in
        (ap (λ r. r.0) taken, subst (λ r. Carries json ms (d.incoming r.1)) (sym taken) carried)

    -- With nothing left the end answers as `parse` does to the empty line.
    pub take_line_closed :
        Readable s → (c : s.Conn) → d.incoming c ≡ [] → take_line c ≡ parse [] (s.read_line c).1
    unfolding read_line
    take_line_closed reads c h =
        let (line, e) = reads c in
        let nothing : line ≡ [] =
          ap (λ r. r.0) (d.read_line_ok c line e) ∙ ap (λ t. (read_line t).0) h in
        lifted_read_line c line e ∙ ap (λ l. parse l (s.read_line c).1) nothing
