-- ===== src/Harness/Rng.antt =====
-- The generator `SplitMix64` of crates/harness/src/schedule.rs.
use Prim.Native.Nat.{bit_xor}
use sleepwalk.Prelude.{ℕ, ◌+◌, ◌*◌, ◌/◌, ◌%◌, ◌^◌}

pub record SplitMix64 : Type 0 where
  pub state : ℕ

abbrev wrapping_mul : ℕ → ℕ → ℕ
wrapping_mul a b = (a * b) % 2 ^ 64

-- `SplitMix64::new`
abbrev pub seeded : ℕ → SplitMix64
seeded seed = record { state = seed }

-- `SplitMix64::next_u64`
unfoldable pub next_u64 : SplitMix64 → ℕ × SplitMix64
next_u64 rng =
    let z0 : ℕ = (rng.state + 0x9E3779B97F4A7C15) % 2 ^ 64 in
    let z1 : ℕ = wrapping_mul (bit_xor z0 (z0 / 2 ^ 30)) 0xBF58476D1CE4E5B9 in
    let z2 : ℕ = wrapping_mul (bit_xor z1 (z1 / 2 ^ 27)) 0x94D049BB133111EB in
    (bit_xor z2 (z2 / 2 ^ 31), record { state = z0 })
