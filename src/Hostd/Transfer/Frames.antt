-- ===== src/Hostd/Transfer/Frames.antt =====
-- The encoding of numbers, and the round trip of files.
use sleepwalk.Prelude.{
  ℕ, zero, suc, sym, ap, ◌∙◌, ◌+◌, ◌*◌, ◌/◌, ◌%◌, ◌^◌, ◌≤◌, ◌<◌, ◌≡◌, refl, Bool, true, false,
  if◌then◌else◌, Option, none, some, List, [], ◌∷◌, ◌++◌, length, take, drop, map, length-append,
  length-take, length-drop, take-append-drop, take-append, drop-append, append-nil, append_assoc,
  All, arith,
}
use sleepwalk.Prelude.Results.{ok}
use sleepwalk.Proto.Compat.{same_text}
use sleepwalk.Proto.Compat.Classes.{same_text_iff}
use Prim.Native.Nat.{min}
use sleepwalk.Hostd.Transfer.{
  Bytes, chunk, Crc, OutboundFile, big_endian, number_from, read_exact, read_number, is_unsafe,
  send_contents, send_file, send_files, Inbound, recv_contents, recv_file, check_sum, recv_body,
  recv_named, recv_loop, recv_files,
}

abbrev at : Bytes → List (Bytes × Bytes) → Inbound
at stream disk = record { stream = stream; disk = disk }

length-big_endian : (width n : ℕ) → length (big_endian width n) ≡ width
unfolding big_endian
length-big_endian zero n = refl
length-big_endian (suc width) n = omega (
  arith,
  length-append (big_endian width (n / 256)) (n % 256 ∷ []),
  length-big_endian width (n / 256),
)

number_from-snoc :
    (n : ℕ) (bs : Bytes) (b : ℕ) → number_from n (bs ++ b ∷ []) ≡ number_from n bs * 256 + b
unfolding number_from
number_from-snoc n [] b = refl
number_from-snoc n (c ∷ bs) b = number_from-snoc (n * 256 + c) bs b

pub number_from-big_endian :
    (width n : ℕ) → n < 256 ^ width → number_from 0 (big_endian width n) ≡ n
unfolding number_from big_endian
number_from-big_endian zero n b = omega arith
number_from-big_endian (suc width) n b = grind (
  arith,
  number_from-snoc 0 (big_endian width (n / 256)) (n % 256),
  number_from-big_endian width (n / 256),
)

read_exact-append : (xs ys : Bytes) → read_exact (length xs) (xs ++ ys) ≡ (ok xs, ys)
unfolding read_exact
read_exact-append xs ys = ground (arith, length-append xs ys, take-append xs ys, drop-append xs ys)

read_number-append :
    (width n : ℕ) (ys : Bytes)
    → n < 256 ^ width
    → read_number width (big_endian width n ++ ys) ≡ (ok n, ys)
unfolding read_number
read_number-append width n ys b = ground (
  arith,
  read_exact-append (big_endian width n) ys,
  length-big_endian width n,
  number_from-big_endian width n b,
)

-- The checksum of bytes does not depend on how they are cut.
pub record Streams (crc : Crc) : Type 0 where
  pub update-nil : (h : crc.Hasher) → crc.update [] h ≡ h
  pub update-append :
      (xs ys : Bytes) (h : crc.Hasher) → crc.update (xs ++ ys) h ≡ crc.update ys (crc.update xs h)

module _ (crc : Crc) (streams : Streams crc) where
  cut :
      (n : ℕ) (cs : Bytes) (h : crc.Hasher)
      → crc.update (drop n cs) (crc.update (take n cs) h) ≡ crc.update cs h
  cut n cs h =
      sym (streams.update-append (take n cs) (drop n cs) h)
      ∙ ap (λ x. crc.update x h) (take-append-drop n cs)

  send_contents-all :
      (more : ℕ → ℕ) (fuel : ℕ) (cs : Bytes) (h : crc.Hasher)
      → length cs ≤ fuel
      → send_contents crc more fuel (length cs) cs h ≡ ok (cs, crc.update cs h)
  unfolding send_contents
  send_contents-all more zero [] h b = ground (arith, streams.update-nil h)
  send_contents-all more zero (c ∷ cs) h b = ground arith
  send_contents-all more (suc fuel) [] h b = ground (arith, streams.update-nil h)
  send_contents-all more (suc fuel) (c ∷ cs) h b =
      let all = c ∷ cs in
      let n = min (min (length all) chunk) (1 + more (length all)) in
      ground (
        arith,
        length-take n all,
        length-drop n all,
        take-append-drop n all,
        cut n all h,
        send_contents-all more fuel (drop n all) (crc.update (take n all) h),
      )

  module _ (is_utf8 : Bytes → Bool) where
    recv_contents-all :
        (fuel : ℕ) (cs rest : Bytes) (h : crc.Hasher) (name written : Bytes)
        (disk : List (Bytes × Bytes))
        → length cs ≤ fuel
        → recv_contents crc is_utf8 fuel (length cs) h (at (cs ++ rest) ((name, written) ∷ disk))
          ≡ (ok (crc.update cs h), at rest ((name, written ++ cs) ∷ disk))
    unfolding recv_contents
    recv_contents-all zero [] rest h name written disk b =
        ground (arith, append-nil written, streams.update-nil h)
    recv_contents-all zero (c ∷ cs) rest h name written disk b = ground arith
    recv_contents-all (suc fuel) [] rest h name written disk b =
        ground (arith, append-nil written, streams.update-nil h)
    recv_contents-all (suc fuel) (c ∷ cs) rest h name written disk b =
        let all = c ∷ cs in
        let want = min (length all) chunk in
        let buf = take want all in
        ground (
          arith,
          length-take want all,
          length-drop want all,
          take-append-drop want all,
          append_assoc buf (drop want all) rest,
          read_exact-append buf (drop want all ++ rest),
          append_assoc written buf (drop want all),
          cut want all h,
          recv_contents-all fuel (drop want all) rest (crc.update buf h) name (written ++ buf) disk,
        )

    -- A file that can be sent and whose name the receiver takes.
    abbrev pub Sendable : OutboundFile → Type 0
    Sendable f =
        (f.len ≡ length f.contents)
        × (0 < length f.name)
        × (length f.name < 2 ^ 16)
        × (f.len < 2 ^ 64)
        × (is_utf8 f.name ≡ true)
        × (is_unsafe f.name ≡ false)

    -- The frame of a file.
    frame : OutboundFile → Bytes
    frame f =
        big_endian 2 (length f.name)
        ++ f.name
        ++ big_endian 8 f.len
        ++ f.contents
        ++ big_endian 4 (crc.finalize (crc.update f.contents crc.fresh))

    send_file-frame : (f : OutboundFile) → Sendable f → send_file crc f ≡ ok (frame f)
    unfolding send_file frame
    send_file-frame f s = ground (arith, send_contents-all f.more f.len f.contents crc.fresh)

    module _ (crc_32 : (h : crc.Hasher) → crc.finalize h < 2 ^ 32) where
      check_sum-frame :
          (name rest : Bytes) (h : crc.Hasher) (disk : List (Bytes × Bytes))
          → check_sum crc is_utf8 name h (at (big_endian 4 (crc.finalize h) ++ rest) disk)
            ≡ (ok name, at rest disk)
      unfolding check_sum
      check_sum-frame name rest h disk =
          ground (arith, read_number-append 4 (crc.finalize h) rest, crc_32 h)

      trailer : OutboundFile → Bytes
      trailer f = big_endian 4 (crc.finalize (crc.update f.contents crc.fresh))

      recv_body-frame :
          (f : OutboundFile) (rest : Bytes) (disk : List (Bytes × Bytes))
          → Sendable f
          → recv_body crc is_utf8 f.name f.len (at (f.contents ++ (trailer f ++ rest)) disk)
            ≡ (ok f.name, at rest ((f.name, f.contents) ∷ disk))
      unfolding recv_body trailer
      recv_body-frame f rest disk s = ground (
        arith,
        recv_contents-all f.len f.contents (trailer f ++ rest) crc.fresh f.name [] disk,
        check_sum-frame f.name rest (crc.update f.contents crc.fresh) ((f.name, f.contents) ∷ disk),
      )

      recv_named-frame :
          (f : OutboundFile) (rest : Bytes) (disk : List (Bytes × Bytes))
          → Sendable f
          → recv_named crc is_utf8 f.name
              (at (big_endian 8 f.len ++ (f.contents ++ (trailer f ++ rest))) disk)
            ≡ (ok f.name, at rest ((f.name, f.contents) ∷ disk))
      unfolding recv_named
      recv_named-frame f rest disk s = ground (
        arith,
        read_number-append 8 f.len (f.contents ++ (trailer f ++ rest)),
        recv_body-frame f rest disk s,
      )

      recv_file-frame :
          (f : OutboundFile) (rest : Bytes) (disk : List (Bytes × Bytes))
          → Sendable f
          → recv_file crc is_utf8
              (length f.name)
              (at (f.name ++ (big_endian 8 f.len ++ (f.contents ++ (trailer f ++ rest)))) disk)
            ≡ (ok f.name, at rest ((f.name, f.contents) ∷ disk))
      unfolding recv_file
      recv_file-frame f rest disk s = ground (
        arith,
        read_exact-append f.name (big_endian 8 f.len ++ (f.contents ++ (trailer f ++ rest))),
        recv_named-frame f rest disk s,
      )

    frames : List OutboundFile → Bytes
    frames [] = big_endian 2 0
    frames (f ∷ fs) = frame f ++ frames fs

    send_files-frames :
        (fs : List OutboundFile) → All Sendable fs → send_files crc fs ≡ ok (frames fs)
    unfolding send_files frames
    send_files-frames [] s = refl
    send_files-frames (f ∷ fs) s = ground (arith, send_file-frame f s.0, send_files-frames fs s.1)

    -- The disk after the files, the last one first.
    pub delivered : List OutboundFile → List (Bytes × Bytes) → List (Bytes × Bytes)
    delivered [] disk = disk
    delivered (f ∷ fs) disk = delivered fs ((f.name, f.contents) ∷ disk)

    -- What the directory has under a name.
    abbrev pub found : Bytes → List (Bytes × Bytes) → Option Bytes
    found name [] = none
    found name ((n, contents) ∷ files) =
        let rest = found name files in if same_text name n then some contents else rest

    -- No two of the files have the same name.
    abbrev pub AllApart : List OutboundFile → Type 0
    AllApart [] = Unit
    AllApart (f ∷ fs) = All (λ g. same_text f.name g.name ≡ false) fs × AllApart fs

    found-delivered :
        (f : OutboundFile) (fs : List OutboundFile) (disk : List (Bytes × Bytes))
        → All (λ g. same_text f.name g.name ≡ false) fs
        → found f.name (delivered fs disk) ≡ found f.name disk
    unfolding delivered
    found-delivered f [] disk a = refl
    found-delivered f (g ∷ fs) disk a =
        ground (arith, a.0, found-delivered f fs ((g.name, g.contents) ∷ disk) a.1)

    each_found :
        (fs : List OutboundFile) (disk : List (Bytes × Bytes))
        → AllApart fs
        → All (λ f. found f.name (delivered fs disk) ≡ some f.contents) fs
    unfolding delivered
    each_found [] disk a = tt
    each_found (f ∷ fs) disk a =
        let own : same_text f.name f.name ≡ true = (same_text_iff f.name f.name).1 refl in
        let disk' : List (Bytes × Bytes) = (f.name, f.contents) ∷ disk in
        let here : found f.name disk' ≡ some f.contents = ground (arith, own) in
        (found-delivered f fs disk' a.0 ∙ here, each_found fs disk' a.1)

    length-frame : (f : OutboundFile) → 1 ≤ length (frame f)
    unfolding frame
    length-frame f =
        let head = big_endian 2 (length f.name) in
        let sum = big_endian 4 (crc.finalize (crc.update f.contents crc.fresh)) in
        omega (
          arith,
          length-append (head ++ f.name ++ big_endian 8 f.len ++ f.contents) sum,
          length-big_endian 4 (crc.finalize (crc.update f.contents crc.fresh)),
        )

    length-frames : (fs : List OutboundFile) → length fs < length (frames fs)
    unfolding frames frame big_endian
    length-frames [] = omega arith
    length-frames (f ∷ fs) =
        omega (arith, length-append (frame f) (frames fs), length-frames fs, length-frame f)

    module _ (crc_32 : (h : crc.Hasher) → crc.finalize h < 2 ^ 32) where
      frame-append :
          (f : OutboundFile) (rest : Bytes)
          → frame f ++ rest
            ≡ big_endian 2 (length f.name)
              ++ (f.name ++ (big_endian 8 f.len ++ (f.contents ++ (trailer crc_32 f ++ rest))))
      unfolding frame trailer
      frame-append f rest = simp append_assoc

      recv_loop-frames :
          (fs : List OutboundFile) (fuel : ℕ) (disk : List (Bytes × Bytes))
          → All Sendable fs
          → length fs < fuel
          → recv_loop crc is_utf8 fuel (at (frames fs) disk)
            ≡ (ok (map (λ f. f.name) fs), at [] (delivered fs disk))
      unfolding recv_loop frames delivered
      recv_loop-frames fs zero disk s b = ground arith
      recv_loop-frames [] (suc fuel) disk s b =
          ground (arith, read_number-append 2 0 [], append-nil (big_endian 2 0))
      recv_loop-frames (f ∷ fs) (suc fuel) disk s b = ground (
        arith,
        frame-append f (frames fs),
        read_number-append 2 (length f.name)
            (f.name ++ (big_endian 8 f.len ++ (f.contents ++ (trailer crc_32 f ++ frames fs)))),
        recv_file-frame crc_32 f (frames fs) disk s.0,
        recv_loop-frames fs fuel ((f.name, f.contents) ∷ disk) s.1,
      )

      -- Files that can be sent, under different names, arrive, however short the reads from them are:
      -- the sender accepts them, and the receiver, given what the sender wrote, accepts every file,
      -- ends with the stream read to its end, and has under each name the contents of the file of that
      -- name and has created nothing else. The checksum is of 32 bits and does not depend on how the
      -- bytes are cut.
      pub send_files-recv_files :
          (fs : List OutboundFile)
          → All Sendable fs
          → AllApart fs
          → (wire : Bytes) × (send_files crc fs ≡ ok wire)
            × (recv_files crc is_utf8 (at wire [])
                ≡ (ok (map (λ f. f.name) fs), at [] (delivered fs [])))
            × All (λ f. found f.name (delivered fs []) ≡ some f.contents) fs
      unfolding recv_files
      send_files-recv_files fs s apart = (
        frames fs,
        send_files-frames fs s,
        recv_loop-frames fs (length (frames fs)) [] s (length-frames fs),
        each_found fs [] apart,
      )
