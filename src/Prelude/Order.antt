-- ===== src/Prelude/Order.antt =====
-- Comparisons as Rust's `Ord::cmp` gives them, the ways of combining them, and the folds
-- `Iterator::max_by` and `Iterator::min_by`.
use Prim.Native.Nat.{compare, Ordering}
use mathlib.Core.Path.{◌≡◌, refl, subst}
use mathlib.Core.Logic.{◌⊎◌, inl, inr}
use mathlib.Core.Bool.{Bool, true, false}
use mathlib.Core.Option.{Option, none, some, some-injective}
use mathlib.Core.List.{List, [], ◌∷◌}
use native.Mathlib.Omega.{arith}
use sleepwalk.Prelude.Lists.{In}

abbrev pub Cmp {ℓ} : Type ℓ → Type ℓ
Cmp A = A → A → Ordering

-- `Ordering::reverse`
abbrev pub flip : Ordering → Ordering
flip Ordering.lt = Ordering.gt
flip Ordering.eq = Ordering.eq
flip Ordering.gt = Ordering.lt

-- `Ordering::then`
abbrev pub and_then : Ordering → Ordering → Ordering
and_then Ordering.eq o = o
and_then o _ = o

abbrev pub not_gt : Ordering → Bool
not_gt Ordering.gt = false
not_gt _ = true

abbrev pub Le {ℓ} : {A : Type ℓ} → Cmp A → A → A → Type 0
Le c a b = not_gt (c a b) ≡ true

-- What the documentation of `Ord` asks of a comparison, equality of equal elements apart.
pub record IsOrder {ℓ} {A : Type ℓ} (c : Cmp A) : Type ℓ where
  pub flips : (a b : A) → c b a ≡ flip (c a b)
  pub trans : (x y z : A) → Le c x y → Le c y z → Le c x z

-- `Ord`: an order in which only equal elements compare equal.
pub record Ord {ℓ} (A : Type ℓ) : Type ℓ where
  pub cmp : Cmp A
  pub is_order : IsOrder cmp
  pub eq_of_cmp : (a b : A) → cmp a b ≡ Ordering.eq → a ≡ b

abbrev pub by_key {ℓ κ} : {A : Type ℓ} {B : Type κ} → (A → B) → Cmp B → Cmp A
by_key f c a b = c (f a) (f b)

abbrev pub reversed {ℓ} : {A : Type ℓ} → Cmp A → Cmp A
reversed c a b = c b a

abbrev pub both {ℓ} : {A : Type ℓ} → Cmp A → Cmp A → Cmp A
both c d a b = and_then (c a b) (d a b)

module _ {ℓ} {A : Type ℓ} where
  pub Le_refl : {c : Cmp A} → IsOrder c → (a : A) → Le c a a
  Le_refl h a = ground (arith, h.flips a a)

  pub Le_total : {c : Cmp A} → IsOrder c → (a b : A) → Le c a b ⊎ Le c b a
  Le_total h a b = ground (arith, h.flips a b)

  pub reversed-IsOrder : {c : Cmp A} → IsOrder c → IsOrder (reversed c)
  reversed-IsOrder h = record { flips = λ a b. h.flips b a; trans = λ x y z p q. h.trans z y x q p }

  pub both-IsOrder : {c d : Cmp A} → IsOrder c → IsOrder d → IsOrder (both c d)
  both-IsOrder {c} {d} h k = record {
    flips = λ a b. ground (arith, h.flips a b, k.flips a b);
    trans = λ x y z p q. ground (
      arith,
      h.flips x y,
      h.flips y z,
      h.flips x z,
      h.trans x y z,
      h.trans z x y,
      h.trans y z x,
      k.trans x y z,
    );
  }

pub by_key-IsOrder {ℓ κ} :
    {A : Type ℓ} {B : Type κ} (f : A → B) {c : Cmp B} → IsOrder c → IsOrder (by_key f c)
by_key-IsOrder f h = record {
  flips = λ a b. h.flips (f a) (f b);
  trans = λ x y z. h.trans (f x) (f y) (f z);
}

pub compare-IsOrder : IsOrder compare
compare-IsOrder = record { flips = λ a b. ground arith; trans = λ x y z p q. ground arith }

-- `Iterator::reduce`, with the winner so far.
reduce_from {ℓ} : {A : Type ℓ} → (A → A → A) → A → List A → A
reduce_from pick x [] = x
reduce_from pick x (y ∷ ys) = reduce_from pick (pick x y) ys

reduce {ℓ} : {A : Type ℓ} → (A → A → A) → List A → Option A
unfolding reduce_from
reduce pick [] = none
reduce pick (x ∷ xs) = some (reduce_from pick x xs)

-- On a tie `max_by` keeps the later element and `min_by` the earlier one.
abbrev later_max {ℓ} : {A : Type ℓ} → Cmp A → A → A → A
later_max c x y = elim (c x y) [ Ordering.gt ↦ x | _ ↦ y ]

abbrev earlier_min {ℓ} : {A : Type ℓ} → Cmp A → A → A → A
earlier_min c x y = elim (c x y) [ Ordering.gt ↦ y | _ ↦ x ]

-- `Iterator::max_by`
unfoldable pub max_by {ℓ} : {A : Type ℓ} → Cmp A → List A → Option A
unfolding reduce
max_by c = reduce (later_max c)

-- `Iterator::min_by`
unfoldable pub min_by {ℓ} : {A : Type ℓ} → Cmp A → List A → Option A
unfolding reduce
min_by c = reduce (earlier_min c)

-- An element of the list that no element exceeds.
pub record IsMax {A : Type 0} (c : Cmp A) (xs : List A) (m : A) : Type 0 where
  pub member : In m xs
  pub upper : (y : A) → In y xs → Le c y m

-- A pick among two that is the larger of them under `c`.
record Picks {A : Type 0} (c : Cmp A) (pick : A → A → A) : Type 0 where
  one_of : (x y : A) → (pick x y ≡ x) ⊎ (pick x y ≡ y)
  above_left : (x y : A) → Le c x (pick x y)
  above_right : (x y : A) → Le c y (pick x y)

module _ {A : Type 0} {c : Cmp A} {pick : A → A → A} (h : IsOrder c) (p : Picks c pick) where
  reduce_from-start : (x : A) (ys : List A) → Le c x (reduce_from pick x ys)
  unfolding reduce_from
  reduce_from-start x [] = Le_refl h x
  reduce_from-start x (y ∷ ys) =
      h.trans x (pick x y) _ (p.above_left x y) (reduce_from-start (pick x y) ys)

  reduce_from-upper : (x : A) (ys : List A) (z : A) → In z ys → Le c z (reduce_from pick x ys)
  unfolding reduce_from
  reduce_from-upper x [] z i = elim i [ ]
  reduce_from-upper x (y ∷ ys) z (inl e) =
      rw e (h.trans y (pick x y) _ (p.above_right x y) (reduce_from-start (pick x y) ys))
  reduce_from-upper x (y ∷ ys) z (inr m) = reduce_from-upper (pick x y) ys z m

  reduce_from-In : (x : A) (ys : List A) → In (reduce_from pick x ys) (x ∷ ys)
  unfolding reduce_from
  reduce_from-In x [] = inl refl
  reduce_from-In x (y ∷ ys) = ground (arith, p.one_of x y, reduce_from-In (pick x y) ys)

  reduce-IsMax : (xs : List A) {m : A} → reduce pick xs ≡ some m → IsMax c xs m
  unfolding reduce
  reduce-IsMax [] e = cc
  reduce-IsMax (x ∷ xs) e =
      subst (IsMax c (x ∷ xs)) (some-injective _ _ e)
        (record { member = reduce_from-In x xs; upper = λ z i. bound z i })
    where
      bound : (z : A) → In z (x ∷ xs) → Le c z (reduce_from pick x xs)
      bound z (inl e) = rw e (reduce_from-start x xs)
      bound z (inr i) = reduce_from-upper x xs z i

module _ {A : Type 0} {c : Cmp A} (h : IsOrder c) where
  later_max-Picks : Picks c (later_max c)
  later_max-Picks = record {
    one_of = λ x y. ground arith;
    above_left = λ x y. ground (arith, h.flips x y, h.flips x x);
    above_right = λ x y. ground (arith, h.flips x y, h.flips y y);
  }

  earlier_min-Picks : Picks (reversed c) (earlier_min c)
  earlier_min-Picks = record {
    one_of = λ x y. ground arith;
    above_left = λ x y. ground (arith, h.flips x y, h.flips x x);
    above_right = λ x y. ground (arith, h.flips x y, h.flips y y);
  }

  pub max_by-IsMax : (xs : List A) {m : A} → max_by c xs ≡ some m → IsMax c xs m
  unfolding max_by
  max_by-IsMax xs e = reduce-IsMax h later_max-Picks xs e

  pub min_by-IsMax : (xs : List A) {m : A} → min_by c xs ≡ some m → IsMax (reversed c) xs m
  unfolding min_by
  min_by-IsMax xs e = reduce-IsMax (reversed-IsOrder h) earlier_min-Picks xs e

module _ {A : Type 0} (c : Cmp A) where
  -- Both are defined exactly on the lists with an element.
  pub max_by-some : (x : A) (xs : List A) → In x xs → (m : A) × (max_by c xs ≡ some m)
  unfolding max_by reduce
  max_by-some x [] i = elim i [ ]
  max_by-some x (y ∷ ys) i = (reduce_from (later_max c) y ys, refl)

  pub min_by-some : (x : A) (xs : List A) → In x xs → (m : A) × (min_by c xs ≡ some m)
  unfolding min_by reduce
  min_by-some x [] i = elim i [ ]
  min_by-some x (y ∷ ys) i = (reduce_from (earlier_min c) y ys, refl)

-- Two greatest elements compare equal.
pub IsMax-unique :
    {A : Type 0} {c : Cmp A} {xs : List A} {m n : A}
    → IsOrder c
    → IsMax c xs m
    → IsMax c xs n
    → c m n ≡ Ordering.eq
IsMax-unique {m = m} {n = n} h p q =
    ground (arith, h.flips m n, p.upper n q.member, q.upper m p.member)
