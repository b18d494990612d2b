-- ===== src/Hostd/Firecracker/Requests.antt =====
-- crates/hostd/src/firecracker.rs: what Firecracker is asked, and how its answer is reported.
use sleepwalk.Prelude.{ℕ, ◌≡◌, Bool, true, false, ◌&&◌, Option, some}
use sleepwalk.Prelude.Results.{Result, ok, err}
use sleepwalk.Proto.Ids.{Text, compare_text}
use Prim.Native.Nat.{Ordering, lt}
use sleepwalk.Hostd.Firecracker.{
  Http, Op, FirecrackerError, rejected, unreachable, Request, Json, Fields, object, no_fields,
  field,
}
use sleepwalk.Hostd.Firecracker.Client
use sleepwalk.Hostd.Firecracker.Commands.{Command, command_of, endpoint_of}

abbrev less : Ordering → Bool
less lt = true
less _ = false

-- The first key of the fields, if there is one, comes after this one.
abbrev pub comes_before : Text → Fields → Bool
comes_before k no_fields = true
comes_before k (field l v fs) = less (compare_text k l)

-- Every object has its keys in order, each once.
unfoldable mutual
  pub is_ordered : Json → Bool
  is_ordered (object fs) = are_ordered fs
  is_ordered _ = true

  pub are_ordered : Fields → Bool
  are_ordered no_fields = true
  are_ordered (field k v fs) = is_ordered v && comes_before k fs && are_ordered fs

module _ (h : Http) (from_slice : Text → Option Json) where
  -- The request goes to the command's endpoint, and says all of the command.
  abbrev pub Says : Request → Command → Type 0
  Says r c = ((r.method, r.path) ≡ endpoint_of c) × (command_of from_slice r ≡ some c)

  abbrev pub Told : (Request → Type 0) → Op → Result (Unit {0}) FirecrackerError × h.World → Type 0
  Told P op (ok _, w) = (r : Request) × (v : h.World) × P r × ((h.send_request r v).0 ≡ ok 204)
  Told P op (err (rejected o d), w) =
      (o ≡ op)
      × ((r : Request) × (v : h.World) × (s : ℕ) × P r
          × ((h.send_request r v).0 ≡ ok s)
          × ¬ (s ≡ 204))
  Told P op (err (unreachable o stage d), w) = o ≡ op
