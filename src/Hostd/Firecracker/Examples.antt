-- ===== src/Hostd/Firecracker/Examples.antt =====
-- The configuration of a machine on a Firecracker that answers 204 to every request. The printer of
-- JSON prints objects of two numbers, and refuses every other value.
use mathlib.Core.Path.{subst, ap₂}
use sleepwalk.Prelude.{
  ℕ, suc, ◌≡◌, true, some, none, Option, [], ◌∷◌, ◌++◌, length, take, drop, take-append,
  drop-append,
}
use sleepwalk.Prelude.Results.{Result, ok, err}
use sleepwalk.Proto.Ids.{Text}
use sleepwalk.Hostd.Firecracker.{Http, Json, text, number, flag, object, field, no_fields}
use sleepwalk.Hostd.Firecracker.Commands.{Command, set_machine}
use sleepwalk.Hostd.Firecracker.Requests.{is_ordered}

-- The length of the first key, the numbers, the keys.
abbrev print_json : Json → Result Text Text
print_json (object (field k (number a) (field l (number b) no_fields))) =
    ok (length k ∷ a ∷ b ∷ (k ++ l))
print_json _ = err []

abbrev read_json : Text → Option Json
read_json (n ∷ a ∷ b ∷ keys) =
    some (object (field (take n keys) (number a) (field (drop n keys) (number b) no_fields)))
read_json _ = none

-- What is printed reads back.
abbrev Back : Json → Result Text Text → Type 0
Back v (ok t) = read_json t ≡ some v
Back v (err e) = Unit

print_json-Back : (v : Json) → Back v (print_json v)
print_json-Back (text t) = tt
print_json-Back (number n) = tt
print_json-Back (flag b) = tt
print_json-Back (object no_fields) = tt
print_json-Back (object (field k (text t) fs)) = tt
print_json-Back (object (field k (flag b) fs)) = tt
print_json-Back (object (field k (object o) fs)) = tt
print_json-Back (object (field k (number a) no_fields)) = tt
print_json-Back (object (field k (number a) (field l (text t) fs))) = tt
print_json-Back (object (field k (number a) (field l (flag b) fs))) = tt
print_json-Back (object (field k (number a) (field l (object o) fs))) = tt
print_json-Back (object (field k (number a) (field l (number b) (field m v fs)))) = tt
print_json-Back (object (field k (number a) (field l (number b) no_fields))) =
    ap₂ (λ p q. some (object (field p (number a) (field q (number b) no_fields)))) (take-append k l)
      (drop-append k l)

reads_back :
    (v : Json) (t : Text) → is_ordered v ≡ true → print_json v ≡ ok t → read_json t ≡ some v
reads_back v t s h = subst (Back v) h (print_json-Back v)

-- The world counts the effects.
abbrev accepting : Http
accepting = record {
  World = ℕ;
  connect = λ n. (ok tt, suc n);
  handshake = λ n. (ok tt, suc n);
  build = λ r. ok tt;
  send_request = λ r n. (ok 204, suc n);
  collect = λ n. (ok [], suc n);
  to_vec = print_json;
  fault_of = λ body. none;
}

abbrev two_cpus : Command
two_cpus = set_machine (record { vcpu_count = 2; mem_size_mib = 256 })
