-- ===== src/Proto/Ids.antt =====
-- crates/proto/src/ids.rs: the identifiers, one type for each. A UUID is the 128-bit number that
-- its bytes spell, and a string the list of its characters, so that both compare as Rust's derived
-- `Ord` does; the newtypes' methods are the record fields and constructors. `VmId::new` draws a
-- random UUID from outside, and an id is an argument where the source mints one.
use Prim.Native.Nat.{compare, Ordering}
use sleepwalk.Prelude.{ℕ, ◌+◌, ◌-◌, ◌^◌, ◌≡◌, refl, List, [], ◌∷◌, arith, ltb, if◌then◌else◌}
use sleepwalk.Prelude.Order.{Cmp, Ord, flip, and_then, Le, by_key, by_key-IsOrder, compare-IsOrder}

-- A text as its characters, by their Unicode numbers. UTF-8 keeps their order, so that comparing
-- characters is comparing bytes.
abbrev pub Text : Type 0
Text = List ℕ

-- `str::cmp`: place by place, and a prefix before what it begins.
unfoldable pub compare_text : Cmp Text
compare_text [] [] = Ordering.eq
compare_text [] (b ∷ t) = Ordering.lt
compare_text (a ∷ s) [] = Ordering.gt
compare_text (a ∷ s) (b ∷ t) = and_then (compare a b) (compare_text s t)

pub record VmId : Type 0 where
  pub uuid : ℕ

pub record HostId : Type 0 where
  pub name : Text

pub record TurnId : Type 0 where
  pub counter : ℕ

pub record GuestdVersion : Type 0 where
  pub version : Text

-- Nanoseconds since the Unix epoch.
pub record Timestamp : Type 0 where
  pub nanos : ℕ

-- `u64::MAX`
abbrev pub u64_max : ℕ
u64_max = 2 ^ 64 - 1

-- `u64::saturating_add`
abbrev pub saturating_add : ℕ → ℕ → ℕ
saturating_add a b = if ltb u64_max (a + b) then u64_max else a + b

-- `TurnId::FIRST`
abbrev pub first : TurnId
first = record { counter = 0 }

-- `TurnId::next`
unfoldable pub next : TurnId → TurnId
next t = record { counter = saturating_add t.counter 1 }

-- `VmId` and `HostId` derive `Ord` from what they wrap.
abbrev pub compare_vm : Cmp VmId
compare_vm = by_key (λ v. v.uuid) compare

abbrev pub compare_host : Cmp HostId
compare_host = by_key (λ h. h.name) compare_text

pub compare_text-flips : (s t : Text) → compare_text t s ≡ flip (compare_text s t)
unfolding compare_text
compare_text-flips [] [] = refl
compare_text-flips [] (b ∷ t) = refl
compare_text-flips (a ∷ s) [] = refl
compare_text-flips (a ∷ s) (b ∷ t) = ground (arith, compare_text-flips s t)

pub compare_text_trans :
    (s t u : Text) → Le compare_text s t → Le compare_text t u → Le compare_text s u
unfolding compare_text
compare_text_trans [] t [] p q = refl
compare_text_trans [] t (c ∷ u) p q = refl
compare_text_trans (a ∷ s) [] u p q = cc
compare_text_trans (a ∷ s) (b ∷ t) [] p q = cc
compare_text_trans (a ∷ s) (b ∷ t) (c ∷ u) p q = ground (arith, compare_text_trans s t u)

pub compare_text-eq : (s t : Text) → compare_text s t ≡ Ordering.eq → s ≡ t
unfolding compare_text
compare_text-eq [] [] e = refl
compare_text-eq [] (b ∷ t) e = cc
compare_text-eq (a ∷ s) [] e = cc
compare_text-eq (a ∷ s) (b ∷ t) e = ground (arith, compare_text-eq s t)

instance abbrev pub text_ord : Ord Text
text_ord = record {
  cmp = compare_text;
  is_order = record { flips = compare_text-flips; trans = compare_text_trans };
  eq_of_cmp = compare_text-eq;
}

pub vm_eq_of_cmp : (v w : VmId) → compare_vm v w ≡ Ordering.eq → v ≡ w
vm_eq_of_cmp v w e = ground arith

pub host_eq_of_cmp : (g h : HostId) → compare_host g h ≡ Ordering.eq → g ≡ h
host_eq_of_cmp g h e = ground (arith, compare_text-eq g.name h.name e)

instance abbrev pub vm_ord : Ord VmId
vm_ord = record {
  cmp = compare_vm;
  is_order = by_key-IsOrder (λ v. v.uuid) compare-IsOrder;
  eq_of_cmp = vm_eq_of_cmp;
}

instance abbrev pub host_ord : Ord HostId
host_ord = record {
  cmp = compare_host;
  is_order = by_key-IsOrder (λ h. h.name) text_ord.is_order;
  eq_of_cmp = host_eq_of_cmp;
}
