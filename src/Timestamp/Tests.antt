-- ===== src/Timestamp/Tests.antt =====
-- Timestamps on a small clock.
use network_project_cs.Common.{ℕ, ◌+◌, ◌≤◌, ◌≡◌, refl, none, some, arith}
use network_project_cs.Timestamp.{Clock, Process, timestamp_ms}
use network_project_cs.Timestamp.Elapsed.{IsSteady, timestamps_ordered}

-- Each reading takes two milliseconds.
abbrev ticking : Clock
ticking = record { State = ℕ; now = λ t. (t, t + 2000000) }

ticking-IsSteady : IsSteady ticking
ticking-IsSteady = record { shown = λ t. t; ahead = λ t. omega arith; kept = λ t. omega arith }

abbrev process : Process ticking
process = record { clock = 7; program_start = none }

-- The first call counts from the first of its two readings, whatever the clock shows.
two_readings : (timestamp_ms process).0 ≡ 2
unfolding timestamp_ms
two_readings = refl

timestamps_ordered_example :
    (2 ≤ (timestamp_ms {C = ticking} (record { clock = 9000007; program_start = some 7 })).0)
    × ((timestamp_ms {C = ticking}
          (record { clock = 9000007; program_start = some 7 })).1.program_start
        ≡ some 7)
unfolding timestamp_ms ticking-IsSteady
timestamps_ordered_example =
    timestamps_ordered ticking-IsSteady process 9000007 (λ s e. absurd cc) (omega arith)
      (omega arith)
