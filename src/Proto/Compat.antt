-- ===== src/Proto/Compat.antt =====
-- crates/proto/src/compat.rs: which hosts can restore a snapshot of which. `label` only formats.
pub mod Classes
use Prim.Native.Nat.{compare, Ordering}
use sleepwalk.Prelude.{
  ℕ, ◌+◌, ◌-◌, ◌*◌, ◌^◌, ◌≤◌, ◌<◌, ◌≡◌, refl, ◌↔◌, List, [], ◌∷◌, ◌++◌, Bool, true, false, ◌&&◌,
  Option, none, some, arith, leb, ltb, ◌==◌, if◌then◌else◌,
}
use sleepwalk.Prelude.Order.{Ord}
use sleepwalk.Proto.Ids.{Text, u64_max, compare_text, text_ord}

pub record CompatClass : Type 0 where
  pub vendor : Text
  pub model : Text
  pub tsc_khz : ℕ  -- u32
  pub kernel : Text

abbrev tolerance_ppm : ℕ
tolerance_ppm = 250

-- `u64::saturating_mul`
abbrev saturating_mul : ℕ → ℕ → ℕ
saturating_mul a b = if ltb u64_max (a * b) then u64_max else a * b

unfoldable pub tsc_within_tolerance : ℕ → ℕ → Bool
tsc_within_tolerance a b =
    let hi = if leb b a then a else b in
    let lo = if leb b a then b else a in
    leb (saturating_mul (hi - lo) 1000000) (saturating_mul hi tolerance_ppm)

-- The text before the first separator, and the text behind it if there is one.
pub split_first : ℕ → Text → Text × Option Text
split_first sep [] = ([], none)
split_first sep (c ∷ t) =
    let (before, rest) = split_first sep t in if c == sep then ([], some t) else (c ∷ before, rest)

-- `char::is_ascii_digit`
abbrev is_ascii_digit : ℕ → Bool
is_ascii_digit c = leb b'0' c && leb c b'9'

-- `take_while(char::is_ascii_digit)`
pub leading_digits : Text → Text
leading_digits [] = []
leading_digits (c ∷ t) = if is_ascii_digit c then c ∷ leading_digits t else []

-- `split` yields at least one part, and the arm `_` of the source is never taken.
pub tier_of : Text × Option Text → Text
unfolding split_first leading_digits
tier_of (major, none) = major
tier_of (major, some t) = major ++ b'.' ∷ leading_digits (split_first b'.' t).0

unfoldable pub kernel_tier : Text → Text
unfolding tier_of
kernel_tier release = tier_of (split_first b'.' release)

-- Two texts are equal if they compare equal.
abbrev pub same_text : Text → Text → Bool
same_text s t = elim (compare_text s t) [ Ordering.eq ↦ true | _ ↦ false ]

-- `CompatClass::compatible_with`
unfoldable pub compatible_with : CompatClass → CompatClass → Bool
compatible_with a b =
    same_text a.vendor b.vendor
    && same_text a.model b.model
    && same_text (kernel_tier a.kernel) (kernel_tier b.kernel)
    && tsc_within_tolerance a.tsc_khz b.tsc_khz
