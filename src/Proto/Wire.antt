-- ===== src/Proto/Wire.antt =====
-- crates/proto/src/wire.rs: a duration on the wire is its number of whole milliseconds. A duration is
-- its number of nanoseconds, of which Rust's `Duration` holds fewer than 2^64 seconds.
use sleepwalk.Prelude.{ℕ, ◌+◌, ◌*◌, ◌/◌, ◌≤◌, ◌<◌, ◌≡◌, arith, leb, if◌then◌else◌}
use sleepwalk.Proto.Ids.{u64_max}

abbrev ns_per_ms : ℕ
ns_per_ms = 1000000

-- `millis::serialize`
unfoldable pub to_millis : ℕ → ℕ
to_millis d = if leb (d / ns_per_ms) u64_max then d / ns_per_ms else u64_max

-- `millis::deserialize`
unfoldable pub from_millis : ℕ → ℕ
from_millis ms = ms * ns_per_ms

-- Sent and read back, a duration of at most 2^64 - 1 whole milliseconds loses exactly what it has
-- beyond its last whole millisecond.
pub from_millis-to_millis :
    (ms r : ℕ)
    → ms ≤ u64_max
    → r < 1000000
    → from_millis (to_millis (from_millis ms + r)) ≡ from_millis ms
unfolding to_millis from_millis
from_millis-to_millis ms r h k = ground arith
