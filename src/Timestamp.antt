-- ===== src/Timestamp.antt =====
-- libsponge/util/util.cc: timestamp_ms. The clock is std::chrono's, which counts nanoseconds.
pub mod Elapsed
mod Tests
use network_project_cs.Common.{ℕ, ◌-◌, ◌/◌, ◌%◌, ◌^◌, Option, none, some, ltb, if◌then◌else◌}

-- The steady clock: the reading of `now`, in nanoseconds.
pub record Clock : Type 1 where
  pub State : Type 0
  pub now : State → ℕ × State

-- A point in time of the process: the clock, and the static `program_start` once it is set.
pub record Process (C : Clock) : Type 0 where
  pub clock : C.State
  pub program_start : Option ℕ

-- `duration_cast<milliseconds>(…).count()` as an `uint64_t`; a negative duration wraps around.
milliseconds : (now program_start : ℕ) → ℕ
milliseconds now program_start =
    if ltb now program_start
    then (2 ^ 64 - (program_start - now) / 1000000) % 2 ^ 64
    else (now - program_start) / 1000000 % 2 ^ 64

module _ {C : Clock} where
  -- The initialisation of the static, which is done on the first call.
  start : Process C → ℕ × Process C
  start p = started p.program_start
    where
      started : Option ℕ → ℕ × Process C
      started (some program_start) = (program_start, p)
      started none =
          let (program_start, clock) = C.now p.clock in
          (program_start, record { clock = clock; program_start = some program_start })

  unfoldable pub timestamp_ms : Process C → ℕ × Process C
  unfolding start milliseconds
  timestamp_ms p =
      let (program_start, p') = start p in
      let (now, clock) = C.now p'.clock in
      (milliseconds now program_start, record p' { clock = clock })
