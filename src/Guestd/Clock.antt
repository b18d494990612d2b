-- ===== src/Guestd/Clock.antt =====
-- crates/guestd/src/clock.rs: the clock correction after a restore. The `i128` values never leave
-- its range, since both readings are `u64`, and are integers here.
use Prim.Native.Nat.{min}
use sleepwalk.Prelude.{
  ℕ, ◌+◌, ◌-◌, ◌≤◌, ◌≡◌, ◌↔◌, ◌&&◌, Bool, false, not, arith, ltb, ◌==◌, if◌then◌else◌,
}
use sleepwalk.Prelude.Int.{ℤ, pos, negsuc, pos_part, neg_part, ◌+ℤ◌, ◌-ℤ◌}
use sleepwalk.Proto.Ids.{Timestamp, u64_max}

pub record ClockFixup : Type 0 where
  pub offset_nanos : ℤ

-- `ClockFixup::between`
unfoldable pub between : Timestamp → Timestamp → ClockFixup
between guest_at_resume authoritative = record {
  offset_nanos = pos authoritative.nanos -ℤ pos guest_at_resume.nanos;
}

-- `ClockFixup::none`
unfoldable pub no_fixup : ClockFixup
no_fixup = record { offset_nanos = pos 0 }

-- `ClockFixup::is_skewed`
unfoldable pub is_skewed : ClockFixup → Bool
is_skewed f = not (pos_part f.offset_nanos == 0 && neg_part f.offset_nanos == 0)

-- `clamp(0, u64::MAX)` and the cast.
abbrev clamp_u64 : ℤ → ℕ
clamp_u64 (pos n) = if ltb u64_max n then u64_max else n
clamp_u64 (negsuc n) = 0

-- `ClockFixup::correct`
unfoldable pub correct : ClockFixup → Timestamp → Timestamp
correct f observed = record { nanos = clamp_u64 (pos observed.nanos +ℤ f.offset_nanos) }

-- A guest reading is mapped to the authoritative clock moved by as much as the reading differs from
-- the one at the resume, forwards or backwards, and held between the epoch and the largest `u64`.
pub correct-between :
    (g a t : Timestamp)
    → a.nanos ≤ u64_max
    → (correct (between g a) t).nanos
      ≡ min (a.nanos + (t.nanos - g.nanos)) u64_max - (g.nanos - t.nanos)
unfolding correct between ◌+ℤ◌ ◌-ℤ◌
correct-between g a t h = ground arith

-- The correction never turns the order of two readings around.
pub correct_mono :
    (f : ClockFixup) (s t : Timestamp)
    → s.nanos ≤ t.nanos
    → (correct f s).nanos ≤ (correct f t).nanos
unfolding correct ◌+ℤ◌
correct_mono f s t h = ground arith

-- The correction is off exactly for the two readings that agree.
pub is_skewed-between : (g a : Timestamp) → (is_skewed (between g a) ≡ false) ↔ (g.nanos ≡ a.nanos)
unfolding is_skewed between ◌-ℤ◌
is_skewed-between g a = ground arith
