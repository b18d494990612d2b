-- ===== src/Hostd/Transfer/Names.antt =====
-- The names that the receiver creates.
use sleepwalk.Prelude.{
  ℕ, zero, suc, ◌-◌, ◌≡◌, refl, Bool, true, false, List, [], ◌∷◌, length, ◌==◌, if◌then◌else◌, All,
  arith,
}
use sleepwalk.Prelude.Results.{Result, ok, err, Method, pure, bind_cases, ◌>>=◌}
use Prim.Native.Nat.{min}
use sleepwalk.Hostd.Transfer.{
  Bytes, chunk, TransferError, Crc, read_exact, read_number, is_unsafe, append_last, lift, Inbound,
  recv_contents, recv_file, check_sum, recv_body, recv_named, recv_loop, recv_files,
}

-- No file has a name that could leave the directory, or one that is not UTF-8.
abbrev pub Contained : (Bytes → Bool) → List (Bytes × Bytes) → Type 0
Contained is_utf8 disk = All (λ f. (is_unsafe f.0 ≡ false) × (is_utf8 f.0 ≡ true)) disk

module _ (crc : Crc) (is_utf8 : Bytes → Bool) where
  append_last-Contained :
      (buf : Bytes) (disk : List (Bytes × Bytes))
      → Contained is_utf8 disk
      → Contained is_utf8 (append_last buf disk)
  append_last-Contained buf [] c = c
  append_last-Contained buf (f ∷ disk) c = c

  abbrev Keeps : {A : Type 0} → Method Inbound TransferError A → Type 0
  Keeps m = (i : Inbound) → Contained is_utf8 i.disk → Contained is_utf8 (m i).1.disk

  bind-Keeps :
      {A B : Type 0} (m : Method Inbound TransferError A) (k : A → Method Inbound TransferError B)
      → Keeps m
      → ((a : A) → Keeps (k a))
      → Keeps (m >>= k)
  bind-Keeps m k f g i c =
      bind_cases (λ o. Contained is_utf8 o.1.disk) m k i (λ a h. g a (m i).1 (f i c)) (λ e h. f i c)

  lift-Keeps : {A : Type 0} (m : Method Bytes TransferError A) → Keeps (lift m)
  lift-Keeps m i c = c

  one_chunk :
      (fuel remaining : ℕ) (h : crc.Hasher) (i : Inbound)
      → Contained is_utf8 i.disk
      → ((remaining' : ℕ) (h' : crc.Hasher) → Keeps (recv_contents crc is_utf8 fuel remaining' h'))
      → (r : Result Bytes TransferError) → (read_exact (min remaining chunk) i.stream).0 ≡ r
      → Contained is_utf8 (recv_contents crc is_utf8 (suc fuel) remaining h i).1.disk
  unfolding recv_contents
  one_chunk fuel remaining h i c more (err e) q = ground arith
  one_chunk fuel remaining h i c more (ok buf) q =
      let want = min remaining chunk in
      ground (
        arith,
        append_last-Contained buf i.disk c,
        more (remaining - want) (crc.update buf h)
            (record { stream = (read_exact want i.stream).1; disk = append_last buf i.disk }),
      )

  recv_contents-Keeps :
      (fuel remaining : ℕ) (h : crc.Hasher) → Keeps (recv_contents crc is_utf8 fuel remaining h)
  unfolding recv_contents
  recv_contents-Keeps zero remaining h i c = c
  recv_contents-Keeps (suc fuel) remaining h i c =
      one_chunk fuel remaining h i c (recv_contents-Keeps fuel)
        (read_exact (min remaining chunk) i.stream).0 refl

  check_sum-Keeps : (name : Bytes) (h : crc.Hasher) → Keeps (check_sum crc is_utf8 name h)
  unfolding check_sum
  check_sum-Keeps name h i c = ground arith

  recv_body-Keeps :
      (name : Bytes) (len : ℕ)
      → is_unsafe name ≡ false
      → is_utf8 name ≡ true
      → Keeps (recv_body crc is_utf8 name len)
  unfolding recv_body
  recv_body-Keeps name len safe text i c =
      bind-Keeps (recv_contents crc is_utf8 len len crc.fresh) (check_sum crc is_utf8 name)
        (recv_contents-Keeps len len crc.fresh) (check_sum-Keeps name)
        (record i { disk = (name, []) ∷ i.disk }) ((safe, text), c)

  named_from :
      (name : Bytes) (text unsafe : Bool)
      → is_utf8 name ≡ text
      → is_unsafe name ≡ unsafe
      → Keeps (recv_named crc is_utf8 name)
  unfolding recv_named
  named_from name false unsafe t u i c = ground arith
  named_from name true true t u i c = ground arith
  named_from name true false t u i c =
      let read_it =
        bind-Keeps (lift (read_number 8)) (recv_body crc is_utf8 name) (lift-Keeps (read_number 8))
          (λ len. recv_body-Keeps name len u t) in
      ground (arith, read_it i c)

  recv_named-Keeps : (name : Bytes) → Keeps (recv_named crc is_utf8 name)
  recv_named-Keeps name = named_from name (is_utf8 name) (is_unsafe name) refl refl

  recv_file-Keeps : (n : ℕ) → Keeps (recv_file crc is_utf8 n)
  unfolding recv_file
  recv_file-Keeps n =
      bind-Keeps (lift (read_exact n)) (recv_named crc is_utf8) (lift-Keeps (read_exact n))
        recv_named-Keeps

  -- The rest of a turn of the loop, and the turns after it.
  more_files : ℕ → ℕ → Method Inbound TransferError (List Bytes)
  more_files fuel n = do
    name ← recv_file crc is_utf8 n
    names ← recv_loop crc is_utf8 fuel
    pure (name ∷ names)

  one_turn :
      (fuel n : ℕ) (b : Bool)
      → Keeps (recv_loop crc is_utf8 fuel)
      → Keeps (if b then pure [] else more_files fuel n)
  unfolding more_files
  one_turn fuel n true more = λ i c. c
  one_turn fuel n false more =
      bind-Keeps (recv_file crc is_utf8 n)
        (λ name. recv_loop crc is_utf8 fuel >>= λ names. pure (name ∷ names)) (recv_file-Keeps n)
        (λ name.
          bind-Keeps (recv_loop crc is_utf8 fuel) (λ names. pure (name ∷ names)) more
            (λ names i c. c))

  recv_loop-Keeps : (fuel : ℕ) → Keeps (recv_loop crc is_utf8 fuel)
  unfolding recv_loop more_files
  recv_loop-Keeps zero = λ i c. c
  recv_loop-Keeps (suc fuel) =
      bind-Keeps (lift (read_number 2)) (λ n. if n == 0 then pure [] else more_files fuel n)
        (lift-Keeps (read_number 2)) (λ n. one_turn fuel n (n == 0) (recv_loop-Keeps fuel))

  -- Whatever the stream holds, and however receiving it ends, every file created has a name that is
  -- UTF-8 and has no slash, no backslash and no two dots in a row.
  pub recv_files-Contained :
      (stream : Bytes)
      → Contained is_utf8 (recv_files crc is_utf8 (record { stream = stream; disk = [] })).1.disk
  unfolding recv_files
  recv_files-Contained stream = recv_loop-Keeps (length stream) _ tt
