-- ===== src/Hostd/Transfer.antt =====
-- crates/hostd/src/transfer.rs: the framing of the snapshot files on a stream. A stream is the list
-- of its bytes: the writer's takes every byte it is given, the reader's ends where the list ends. A
-- file is its bytes, and its declared length stands beside them. The CRC-32 of `crc32fast` and the
-- validity of UTF-8 are parameters; a name is the list of its UTF-8 bytes. The messages of errors
-- are left out.
pub mod Frames
pub mod Names
use sleepwalk.Prelude.{
  ℕ, zero, suc, ◌+◌, ◌-◌, ◌*◌, ◌/◌, ◌%◌, ◌^◌, Bool, true, false, not, ◌||◌, ◌&&◌, if◌then◌else◌,
  ltb, ◌==◌, Option, none, some, List, [], ◌∷◌, ◌++◌, length, take, drop,
}
use sleepwalk.Prelude.Results.{
  Result, ok, err, Method, pure, fail, fail_if, modify, from_result, ◌>>=◌, ◌>>◌,
}
use Prim.Native.Nat.{min}

abbrev pub Bytes : Type 0
Bytes = List ℕ

abbrev pub chunk : ℕ
chunk = 64 * 1024

pub data TransferError : Type 0 where
  io protocol : TransferError
  checksum : Bytes → ℕ → ℕ → TransferError

-- `crc32fast::Hasher`
pub record Crc : Type 1 where
  pub Hasher : Type 0
  pub fresh : Hasher
  pub update : Bytes → Hasher → Hasher
  pub finalize : Hasher → ℕ

-- `OutboundFile`, with what `File::open` of its path gives: the length and the contents, and how much
-- a read gives beyond its first byte, by the number of bytes that remain.
pub record OutboundFile : Type 0 where
  pub name : Bytes
  pub len : ℕ
  pub contents : Bytes
  pub more : ℕ → ℕ

-- The `width` bytes of a number, the highest first.
unfoldable pub big_endian : ℕ → ℕ → Bytes
big_endian zero n = []
big_endian (suc width) n = big_endian width (n / 256) ++ n % 256 ∷ []

-- The number that the bytes stand for, after those that stand for `n`.
unfoldable pub number_from : ℕ → Bytes → ℕ
number_from n [] = n
number_from n (b ∷ bs) = number_from (n * 256 + b) bs

-- `read_exact`
unfoldable pub read_exact : ℕ → Method Bytes TransferError Bytes
read_exact n s = if ltb (length s) n then (err io, s) else (ok (take n s), drop n s)

-- `read_u16`, `read_u32` and `read_u64`
unfoldable pub read_number : ℕ → Method Bytes TransferError ℕ
read_number width = do bs ← read_exact width; pure (number_from 0 bs)

unfoldable pub contains : ℕ → Bytes → Bool
contains c [] = false
contains c (b ∷ bs) = b == c || contains c bs

-- `name.contains("..")`
unfoldable pub contains_dots : Bytes → Bool
contains_dots [] = false
contains_dots (b ∷ []) = false
contains_dots (b ∷ c ∷ bs) = (b == b'.' && c == b'.') || contains_dots (c ∷ bs)

abbrev is_nil : Bytes → Bool
is_nil [] = true
is_nil (_ ∷ _) = false

unfoldable pub is_unsafe : Bytes → Bool
is_unsafe name = is_nil name || contains b'/' name || contains b'\\' name || contains_dots name

module _ (crc : Crc) where
  -- The `while` loop of `send_files`: the bytes it writes and the hasher at its end. Each turn takes
  -- at least one byte off `remaining`, so that `remaining` turns are enough.
  unfoldable pub send_contents :
      (ℕ → ℕ) → ℕ → ℕ → Bytes → crc.Hasher → Result (Bytes × crc.Hasher) TransferError
  send_contents more zero remaining contents hasher = ok ([], hasher)
  send_contents more (suc fuel) remaining contents hasher =
      let n = min (min remaining chunk) (1 + more remaining) in
      let buf = take n contents in
      let rest =
        send_contents more fuel (remaining - length buf) (drop n contents)
          (crc.update buf hasher) in
      if remaining == 0
      then ok ([], hasher)
      else if length buf == 0
      then err protocol
      else elim rest [ ok (out, h) ↦ ok (buf ++ out, h) | err e ↦ err e ]

  -- One turn of the loop over the files.
  unfoldable pub send_file : OutboundFile → Result Bytes TransferError
  send_file f =
      if ltb (length f.name) (2 ^ 16)
      then elim (send_contents f.more f.len f.len f.contents crc.fresh) [
        | ok (out, h) ↦ ok (
            big_endian 2 (length f.name)
            ++ f.name
            ++ big_endian 8 f.len
            ++ out
            ++ big_endian 4 (crc.finalize h))
        | err e ↦ err e
      ]
      else err protocol

  -- `send_files`
  unfoldable pub send_files : List OutboundFile → Result Bytes TransferError
  send_files [] = ok (big_endian 2 0)
  send_files (f ∷ fs) =
      let rest = send_files fs in
      elim (send_file f) [
        | ok out ↦ elim rest [ ok more ↦ ok (out ++ more) | err e ↦ err e ]
        | err e ↦ err e
      ]

-- The reader, and the files created in `dest_dir`, the last one first, each with what was written: a
-- name that is created again is truncated, so that the first entry of a name is what it holds.
pub record Inbound : Type 0 where
  pub stream : Bytes
  pub disk : List (Bytes × Bytes)

abbrev pub lift : {A : Type 0} → Method Bytes TransferError A → Method Inbound TransferError A
lift m i = let (r, s) = m i.stream in (r, record i { stream = s })

abbrev create : Bytes → Method Inbound TransferError (Unit {0})
create name = modify λ i. record i { disk = (name, []) ∷ i.disk }

-- What `write_all` on the file created last makes of the disk.
abbrev pub append_last : Bytes → List (Bytes × Bytes) → List (Bytes × Bytes)
append_last buf [] = []
append_last buf ((name, written) ∷ files) = (name, written ++ buf) ∷ files

abbrev write_all : Bytes → Method Inbound TransferError (Unit {0})
write_all buf = modify λ i. record i { disk = append_last buf i.disk }

module _ (crc : Crc) (is_utf8 : Bytes → Bool) where
  -- The `while` loop of `recv_files`, with turns as in `send_contents`.
  unfoldable pub recv_contents : ℕ → ℕ → crc.Hasher → Method Inbound TransferError crc.Hasher
  recv_contents zero remaining hasher i = (ok hasher, i)
  recv_contents (suc fuel) remaining hasher i =
      let want = min remaining chunk in
      let (r, i') = lift (read_exact want) i in
      if remaining == 0 then (ok hasher, i) else elim r [
        | ok buf ↦
            recv_contents fuel (remaining - want) (crc.update buf hasher)
              (record i' { disk = append_last buf i'.disk })
        | err e ↦ (err e, i')
      ]

  -- The end of a turn: the contents are in, the checksum is compared.
  unfoldable pub check_sum : Bytes → crc.Hasher → Method Inbound TransferError Bytes
  check_sum name hasher = do
    expected ← lift (read_number 4)
    let got = crc.finalize hasher
    fail_if (not (expected == got)) (checksum name expected got)
    pure name

  unfoldable pub recv_body : Bytes → ℕ → Method Inbound TransferError Bytes
  recv_body name len = do
    create name
    hasher ← recv_contents len len crc.fresh
    check_sum name hasher

  unfoldable pub recv_named : Bytes → Method Inbound TransferError Bytes
  recv_named name = do
    fail_if (not (is_utf8 name)) protocol
    fail_if (is_unsafe name) protocol
    len ← lift (read_number 8)
    recv_body name len

  -- One turn of the loop over the files, after the length of the name.
  unfoldable pub recv_file : ℕ → Method Inbound TransferError Bytes
  recv_file name_len = do name ← lift (read_exact name_len); recv_named name

  -- `recv_files`, with as many turns as the stream has bytes: each turn takes some, and with none
  -- left the first read of a turn fails as it does here. The paths returned are the names.
  unfoldable pub recv_loop : ℕ → Method Inbound TransferError (List Bytes)
  recv_loop zero = fail io
  recv_loop (suc fuel) = do
    name_len ← lift (read_number 2)
    if name_len == 0
        then pure []
        else do name ← recv_file name_len; names ← recv_loop fuel; pure (name ∷ names)

  unfoldable pub recv_files : Method Inbound TransferError (List Bytes)
  recv_files i = recv_loop (length i.stream) i
