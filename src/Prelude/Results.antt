-- ===== src/Prelude/Results.antt =====
-- Rust's `Result`, and the monad of a method on `&mut self` that may fail: what the method wrote
-- before it failed stays written.
use mathlib.Core.Bool.{Bool, true, false}
use mathlib.Core.Path.{◌≡◌, refl, ap}
use native.Mathlib.Omega.{arith}
use mathlib.Core.Option.{Option, none, some}

pub data Result (A E : Type 0) : Type 0 where
  ok : A → Result A E
  err : E → Result A E

abbrev pub map_err : {A E F : Type 0} → (E → F) → Result A E → Result A F
map_err f (ok a) = ok a
map_err f (err e) = err (f e)

abbrev pub ok_or : {A E : Type 0} → Option A → E → Result A E
ok_or (some a) e = ok a
ok_or none e = err e

-- A method on an object of type `S`.
abbrev pub Method : Type 0 → Type 0 → Type 0 → Type 0
Method S E A = S → Result A E × S

module _ {S E : Type 0} where
  abbrev pub pure : {A : Type 0} → A → Method S E A
  pure a s = (ok a, s)

  abbrev pub fail : {A : Type 0} → E → Method S E A
  fail e s = (err e, s)

  abbrev pub gets : {A : Type 0} → (S → A) → Method S E A
  gets f s = (ok (f s), s)

  abbrev pub modify : (S → S) → Method S E (Unit {0})
  modify f s = (ok tt, f s)

  abbrev pub from_result : {A : Type 0} → Result A E → Method S E A
  from_result r s = (r, s)

  -- `return Err(e)` under a test.
  abbrev pub fail_if : Bool → E → Method S E (Unit {0})
  fail_if true e = fail e
  fail_if false e = pure tt

  infixl 5 ◌>>=◌ ◌>>◌
  abbrev pub ◌>>=◌ : {A B : Type 0} → Method S E A → (A → Method S E B) → Method S E B
  ◌>>=◌ m f s = let (r, s') = m s in elim r [ ok a ↦ f a s' | err e ↦ (err e, s') ]

  abbrev pub ◌>>◌ : {A B : Type 0} → Method S E A → Method S E B → Method S E B
  m >> k = m >>= λ _. k

  -- What holds of `m >>= k` holds by how `m` ended.
  bind_cases_of :
      {A B : Type 0} (P : Result B E × S → Type 0) (k : A → Method S E B) (r : Result A E) (s : S)
      → ((a : A) → r ≡ ok a → P (k a s))
      → ((e : E) → r ≡ err e → P (err e, s))
      → P (elim r [ ok a ↦ k a s | err e ↦ (err e, s) ])
  bind_cases_of P k (ok a) s f g = f a refl
  bind_cases_of P k (err e) s f g = g e refl

  pub bind_cases :
      {A B : Type 0} (P : Result B E × S → Type 0) (m : Method S E A) (k : A → Method S E B) (s : S)
      → ((a : A) → (m s).0 ≡ ok a → P (k a (m s).1))
      → ((e : E) → (m s).0 ≡ err e → P (err e, (m s).1))
      → P ((m >>= k) s)
  bind_cases P m k s f g = bind_cases_of P k (m s).0 (m s).1 f g

  -- A first part that succeeds hands its value on.
  pub bind_ok :
      {A B : Type 0} (m : Method S E A) (k : A → Method S E B) (s : S) (a : A)
      → (m s).0 ≡ ok a
      → (m >>= k) s ≡ k a (m s).1
  bind_ok m k s a h = ap (λ r. elim r [ ok a ↦ k a (m s).1 | err e ↦ (err e, (m s).1) ]) h

  bind_ok_of :
      {A B : Type 0} (k : A → Method S E B) (r : Result A E) (s : S) (b : B)
      → ((from_result r >>= k) s).0 ≡ ok b
      → (a : A) × (r ≡ ok a)
  bind_ok_of k (ok a) s b h = (a, refl)
  bind_ok_of k (err e) s b h = ground arith

  -- If the whole succeeds, so does its first part.
  pub bind_ok_first :
      {A B : Type 0} (m : Method S E A) (k : A → Method S E B) (s : S) (b : B)
      → ((m >>= k) s).0 ≡ ok b
      → (a : A) × ((m s).0 ≡ ok a) × ((m >>= k) s ≡ k a (m s).1)
  bind_ok_first m k s b h =
      let (a, e) = bind_ok_of k (m s).0 (m s).1 b h in (a, e, bind_ok m k s a e)
