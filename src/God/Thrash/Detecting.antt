-- ===== src/God/Thrash/Detecting.antt =====
-- god/thrash.go: what `Check` calls thrashing.
use genesis_ssmp.Base.{ℕ, ◌≤◌, ◌<◌, ◌≡◌, ◌⊎◌, List, ◌++◌, length, All}
use genesis_ssmp.God.Meter.{MissionMetrics, ThrashConfig, Meter}

-- The last turns, as many as the configuration asks for, all reached the soft limit.
pub Overpaged : ThrashConfig → MissionMetrics → Type 0
Overpaged config m =
    (0 < config.pf_consecutive_turns)
    × (early : List ℕ) × (late : List ℕ) × (m.turn_pf_counts ≡ early ++ late)
    × (length late ≡ config.pf_consecutive_turns)
    × All (λ c. config.pf_soft_limit ≤ c) late

pub Limits : ThrashConfig → MissionMetrics → Type 0
Limits config m =
    Overpaged config m
    ⊎ (config.max_rejects ≤ m.rejects)
    ⊎ (config.max_conflicts ≤ m.conflicts)
    ⊎ (config.max_test_failures ≤ m.test_failures)
