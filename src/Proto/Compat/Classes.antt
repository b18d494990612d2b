-- ===== src/Proto/Compat/Classes.antt =====
-- When two hosts are compatible, and what a kernel's patch level has to do with it.
use sleepwalk.Prelude.{
  ℕ, ◌-◌, ◌*◌, ◌^◌, ◌≤◌, ◌<◌, ◌≡◌, refl, ap, ◌∙◌, ◌↔◌, [], ◌∷◌, ◌++◌, true, false, some, arith,
  ◌==◌, All,
}
use sleepwalk.Proto.Compat.{
  CompatClass, tsc_within_tolerance, split_first, leading_digits, tier_of, kernel_tier, same_text,
  compatible_with,
}
use sleepwalk.Proto.Ids.{Text, text_ord, compare_text-flips, compare_text-eq}

-- For two `u32` frequencies the test asks that they differ by at most 250 parts per million of the
-- larger one: the saturating products never saturate.
pub tsc_within_tolerance_exact :
    (a b : ℕ)
    → a < 2 ^ 32
    → b < 2 ^ 32
    → (tsc_within_tolerance a b ≡ true)
      ↔ ((a - b) * 1000000 ≤ a * 250) × ((b - a) * 1000000 ≤ b * 250)
unfolding tsc_within_tolerance
tsc_within_tolerance_exact a b ha hb = ground arith

pub tsc_within_tolerance_comm : (a b : ℕ) → tsc_within_tolerance a b ≡ tsc_within_tolerance b a
unfolding tsc_within_tolerance
tsc_within_tolerance_comm a b = ground arith

same_text_comm : (s t : Text) → same_text s t ≡ same_text t s
same_text_comm s t = ground (arith, compare_text-flips s t)

pub same_text_iff : (s t : Text) → (same_text s t ≡ true) ↔ (s ≡ t)
same_text_iff s t =
    ground (arith, compare_text-flips s t, compare_text-flips s s, compare_text-eq s t)

-- Compatibility does not depend on which host is the source and which the target.
pub compatible_with_comm : (a b : CompatClass) → compatible_with a b ≡ compatible_with b a
unfolding compatible_with
compatible_with_comm a b = ground (
  arith,
  same_text_comm a.vendor b.vendor,
  same_text_comm a.model b.model,
  same_text_comm (kernel_tier a.kernel) (kernel_tier b.kernel),
  tsc_within_tolerance_comm a.tsc_khz b.tsc_khz,
)

-- Frequencies in kHz that differ by at most 250 parts per million of the larger one.
abbrev pub WithinPpm : ℕ → ℕ → Type 0
WithinPpm a b = ((a - b) * 1000000 ≤ a * 250) × ((b - a) * 1000000 ≤ b * 250)

-- Two hosts with 32-bit frequencies are compatible exactly if they have the same vendor, the same
-- model and the same kernel tier, and frequencies within 250 parts per million of the larger.
pub compatible_with_iff :
    (a b : CompatClass)
    → a.tsc_khz < 2 ^ 32
    → b.tsc_khz < 2 ^ 32
    → (compatible_with a b ≡ true)
      ↔ (a.vendor ≡ b.vendor)
        × (a.model ≡ b.model)
        × (kernel_tier a.kernel ≡ kernel_tier b.kernel)
        × WithinPpm a.tsc_khz b.tsc_khz
unfolding compatible_with
compatible_with_iff a b ha hb = ground (
  arith,
  same_text_iff a.vendor b.vendor,
  same_text_iff a.model b.model,
  same_text_iff (kernel_tier a.kernel) (kernel_tier b.kernel),
  tsc_within_tolerance_exact a.tsc_khz b.tsc_khz ha hb,
)

split_first-append :
    (sep : ℕ) (s t : Text)
    → All (λ c. (c == sep) ≡ false) s
    → split_first sep (s ++ sep ∷ t) ≡ (s, some t)
unfolding split_first
split_first-append sep [] t h = ground arith
split_first-append sep (c ∷ s) t h = ground (arith, split_first-append sep s t h.1)

abbrev pub IsDigit : ℕ → Type 0
IsDigit c = (b'0' ≤ c) × (c ≤ b'9')

digits_without_dot : (s : Text) → All IsDigit s → All (λ c. (c == b'.') ≡ false) s
digits_without_dot [] h = tt
digits_without_dot (c ∷ s) h = (ground arith, digits_without_dot s h.1)

leading_digits-All : (s : Text) → All IsDigit s → leading_digits s ≡ s
unfolding leading_digits
leading_digits-All [] h = refl
leading_digits-All (c ∷ s) h = ground (arith, leading_digits-All s h.1)

-- Whatever follows the second dot of a release is no part of its tier, if the first part has no
-- dot and the second is of digits: `6.1.155` and `6.1.42` are both of the tier `6.1`.
pub kernel_tier_patch :
    (major minor patch : Text)
    → All (λ c. (c == b'.') ≡ false) major
    → All IsDigit minor
    → kernel_tier (major ++ b'.' ∷ (minor ++ b'.' ∷ patch)) ≡ major ++ b'.' ∷ minor
unfolding kernel_tier
kernel_tier_patch major minor patch h d =
    ap tier_of (split_first-append b'.' major (minor ++ b'.' ∷ patch) h)
    ∙ rw (
      split_first-append b'.' minor patch (digits_without_dot minor d),
      leading_digits-All minor d,
    )
