-- ===== src/Harness/Examples.antt =====
-- Runs of the simulation.
use sleepwalk.Prelude.{length}
use sleepwalk.Harness.Rng.{seeded}
use sleepwalk.Harness.Chaos.{generate, simulate}
use sleepwalk.Harness.Chaos.Race.{Upheld, simulate-Upheld}

simulate-Upheld_example :
    Upheld (length (generate (seeded 42)).0) (simulate (record { uuid = 9 }) 42)
simulate-Upheld_example = simulate-Upheld (record { uuid = 9 }) 42
