-- ===== src/Prelude/BTreeMap.antt =====
-- `BTreeMap` as the code uses it: the entries in ascending order of their keys, each key once.
use Prim.Native.Nat.{Ordering}
use sleepwalk.Prelude.Lists.{In}
use sleepwalk.Prelude.Order.{Ord}
use mathlib.Core.Path.{◌≡◌, refl}
use mathlib.Core.Logic.{◌≢◌}
use mathlib.Core.Option.{Option, none, some}
use mathlib.Core.List.{List, [], ◌∷◌}
use native.Mathlib.Omega.{arith}

-- The ascending entries.
abbrev pub BTreeMap : Type 0 → Type 0 → Type 0
BTreeMap K V = List (K × V)

module _ {K : Type 0} ⦃o : Ord K⦄ where
  cmp_refl : (k : K) → o.cmp k k ≡ Ordering.eq
  cmp_refl k = ground (arith, o.is_order.flips k k)

  lt_trans :
      (i j k : K) → o.cmp i j ≡ Ordering.lt → o.cmp j k ≡ Ordering.lt → o.cmp i k ≡ Ordering.lt
  lt_trans i j k p q = ground (
    arith,
    o.is_order.flips i j,
    o.is_order.flips j k,
    o.is_order.flips i k,
    o.is_order.trans i j k,
    o.is_order.trans k i j,
  )

module _ {K V : Type 0} ⦃o : Ord K⦄ where
  -- `BTreeMap::get`
  unfoldable pub get : K → BTreeMap K V → Option V
  get k [] = none
  get k ((j, v) ∷ m) = elim (o.cmp k j) [ Ordering.eq ↦ some v | _ ↦ get k m ]

  -- `BTreeMap::insert`
  unfoldable pub insert : K → V → BTreeMap K V → BTreeMap K V
  insert k v [] = (k, v) ∷ []
  insert k v ((j, w) ∷ m) = elim (o.cmp k j) [
    | Ordering.lt ↦ (k, v) ∷ (j, w) ∷ m
    | Ordering.eq ↦ (k, v) ∷ m
    | Ordering.gt ↦ (j, w) ∷ insert k v m
  ]

  -- `BTreeMap::remove`
  unfoldable pub remove : K → BTreeMap K V → BTreeMap K V
  remove k [] = []
  remove k ((j, w) ∷ m) = elim (o.cmp k j) [ Ordering.eq ↦ m | _ ↦ (j, w) ∷ remove k m ]

  -- Every key is above `k`.
  abbrev pub Above : K → BTreeMap K V → Type 0
  Above k [] = Unit
  Above k ((j, w) ∷ m) = (o.cmp k j ≡ Ordering.lt) × Above k m

  -- The keys ascend strictly.
  abbrev pub IsAscending : BTreeMap K V → Type 0
  IsAscending [] = Unit
  IsAscending ((j, w) ∷ m) = Above j m × IsAscending m

  pub get-insert_self : (k : K) (v : V) (m : BTreeMap K V) → get k (insert k v m) ≡ some v
  unfolding get insert
  get-insert_self k v [] = ground (arith, cmp_refl k)
  get-insert_self k v ((j, w) ∷ m) = ground (arith, cmp_refl k, get-insert_self k v m)

  pub get-insert_ne : (i k : K) (v : V) (m : BTreeMap K V) → i ≢ k → get i (insert k v m) ≡ get i m
  unfolding get insert
  get-insert_ne i k v [] h = ground (arith, o.eq_of_cmp i k)
  get-insert_ne i k v ((j, w) ∷ m) h =
      ground (arith, o.eq_of_cmp i k, o.eq_of_cmp k j, get-insert_ne i k v m h)

  pub get-In : (k : K) (v : V) (m : BTreeMap K V) → get k m ≡ some v → In (k, v) m
  unfolding get
  get-In k v [] e = cc
  get-In k v ((j, w) ∷ m) e = ground (arith, o.eq_of_cmp k j, get-In k v m)

  Above-In :
      (k j : K) (v : V) (m : BTreeMap K V) → Above k m → In (j, v) m → o.cmp k j ≡ Ordering.lt
  Above-In k j v [] a i = absurd i
  Above-In k j v ((i', w) ∷ m) a i = ground (arith, Above-In k j v m)

  pub In-get : (k : K) (v : V) (m : BTreeMap K V) → IsAscending m → In (k, v) m → get k m ≡ some v
  unfolding get
  In-get k v [] a i = absurd i
  In-get k v ((j, w) ∷ m) a i =
      ground (arith, cmp_refl k, o.is_order.flips k j, Above-In j k v m, In-get k v m)

  Above-insert :
      (j k : K) (v : V) (m : BTreeMap K V)
      → o.cmp j k ≡ Ordering.lt
      → Above j m
      → Above j (insert k v m)
  unfolding insert
  Above-insert j k v [] h a = (h, tt)
  Above-insert j k v ((i, w) ∷ m) h a = ground (arith, Above-insert j k v m h)

  Above-trans : (i j : K) (m : BTreeMap K V) → o.cmp i j ≡ Ordering.lt → Above j m → Above i m
  Above-trans i j [] h a = tt
  Above-trans i j ((k, w) ∷ m) h a = (lt_trans i j k h a.0, Above-trans i j m h a.1)

  pub insert-IsAscending :
      (k : K) (v : V) (m : BTreeMap K V) → IsAscending m → IsAscending (insert k v m)
  unfolding insert
  insert-IsAscending k v [] a = (tt, tt)
  insert-IsAscending k v ((j, w) ∷ m) a = ground (
    arith,
    insert-IsAscending k v m,
    Above-insert j k v m,
    Above-trans k j m,
    o.eq_of_cmp k j,
    o.is_order.flips k j,
  )

  Above-get : (k : K) (m : BTreeMap K V) → Above k m → get k m ≡ none
  unfolding get
  Above-get k [] a = refl
  Above-get k ((j, w) ∷ m) a = ground (arith, Above-get k m a.1)

  pub get-remove_self : (k : K) (m : BTreeMap K V) → IsAscending m → get k (remove k m) ≡ none
  unfolding get remove
  get-remove_self k [] a = refl
  get-remove_self k ((j, w) ∷ m) a =
      ground (arith, o.eq_of_cmp k j, Above-get j m, get-remove_self k m)

  pub get-remove_ne : (i k : K) (m : BTreeMap K V) → i ≢ k → get i (remove k m) ≡ get i m
  unfolding get remove
  get-remove_ne i k [] h = refl
  get-remove_ne i k ((j, w) ∷ m) h =
      ground (arith, o.eq_of_cmp i j, o.eq_of_cmp k j, get-remove_ne i k m h)

  Above-remove : (j k : K) (m : BTreeMap K V) → Above j m → Above j (remove k m)
  unfolding remove
  Above-remove j k [] a = tt
  Above-remove j k ((i, w) ∷ m) a = ground (arith, Above-remove j k m)

  pub remove-IsAscending : (k : K) (m : BTreeMap K V) → IsAscending m → IsAscending (remove k m)
  unfolding remove
  remove-IsAscending k [] a = tt
  remove-IsAscending k ((j, w) ∷ m) a = ground (arith, remove-IsAscending k m, Above-remove j k m)
