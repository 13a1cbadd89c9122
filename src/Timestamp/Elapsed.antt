-- ===== src/Timestamp/Elapsed.antt =====
-- Timestamps are of one origin and never go back.
use network_project_cs.Common.{
  some-inj, sym, ◌∙◌, ◌*◌, ◌<◌, sym, ◌∙◌, ◌*◌, Option, none, ℕ, ◌-◌, ◌/◌, ◌%◌, ◌^◌, ◌≤◌, ◌≡◌, refl,
  false, some, ltb, arith,
}
use network_project_cs.Timestamp.{Clock, Process, milliseconds, start, timestamp_ms}

-- A clock that is never set back: its readings lie between what it has shown before and after.
pub record IsSteady (C : Clock) : Type 0 where
  pub shown : C.State → ℕ
  pub ahead : (c : C.State) → shown c ≤ (C.now c).0
  pub kept : (c : C.State) → (C.now c).0 ≤ shown (C.now c).1

elapsed_ordered :
    (s t t' : ℕ)
    → s ≤ t
    → t ≤ t'
    → t' < 2 ^ 64 * 1000000
    → (t - s) / 1000000 % 2 ^ 64 ≤ (t' - s) / 1000000 % 2 ^ 64
elapsed_ordered s t t' le later small = omega arith

module _ {C : Clock} (steady : IsSteady C) where
  -- The static holds a time that the clock has shown.
  abbrev pub IsStarted : Process C → Type 0
  IsStarted p = (s : ℕ) → p.program_start ≡ some s → s ≤ steady.shown p.clock

  -- What a call leaves: the origin is set, the call's reading is not before it or `before`, and the
  -- clock has shown the reading; the result is the time between the two, rounded down.
  abbrev Stamped : (before : ℕ) → ℕ × Process C → Type 0
  Stamped before (r, p) =
      (s : ℕ) × (t : ℕ) × (p.program_start ≡ some s)
      × (s ≤ t)
      × (before ≤ t)
      × (t ≤ steady.shown p.clock)
      × (r ≡ (t - s) / 1000000 % 2 ^ 64)

  milliseconds-eq : (s t : ℕ) → s ≤ t → milliseconds t s ≡ (t - s) / 1000000 % 2 ^ 64
  unfolding milliseconds
  milliseconds-eq s t le = let later : ltb t s ≡ false = ground arith in rw later refl

  timestamp_ms-Stamped :
      (p : Process C) → IsStarted p → Stamped (steady.shown p.clock) (timestamp_ms p)
  unfolding timestamp_ms start
  timestamp_ms-Stamped p started = stamped p.program_start refl
    where
      stamped :
          (o : Option ℕ) → p.program_start ≡ o → Stamped (steady.shown p.clock) (timestamp_ms p)
      stamped (some s) e =
          let t = (C.now p.clock).0 in
          let le : s ≤ t = omega (arith, started s e, steady.ahead p.clock) in
          let ahead = steady.ahead p.clock in
          rw e (s, t, refl, le, ahead, steady.kept p.clock, milliseconds-eq s t le)
      stamped none e =
          let (s, c) = C.now p.clock in
          let t = (C.now c).0 in
          let le : s ≤ t = omega (arith, steady.kept p.clock, steady.ahead c) in
          let ahead : steady.shown p.clock ≤ t = omega (arith, steady.ahead p.clock) in
          rw e (s, t, refl, le, ahead, steady.kept c, milliseconds-eq s t le)

  program_start_kept :
      (p : Process C) (s : ℕ) → p.program_start ≡ some s → (timestamp_ms p).1.program_start ≡ some s
  unfolding timestamp_ms start
  program_start_kept p s e = rw e refl

  -- A process that has gone on, on its own: the clock, but not the static, has changed.
  abbrev pub at_clock : C.State → Process C → Process C
  at_clock c p = record p { clock = c }

  later_stamp :
      (c : C.State) (r : ℕ) (p : Process C)
      → (before : ℕ) × Stamped before (r, p)
      → steady.shown p.clock ≤ steady.shown c
      → steady.shown (timestamp_ms (at_clock c p)).1.clock < 2 ^ 64 * 1000000
      → (r ≤ (timestamp_ms (at_clock c p)).0)
        × ((timestamp_ms (at_clock c p)).1.program_start ≡ p.program_start)
  later_stamp c r p (before, (s, t, origin, le, after, seen, e)) later small =
      let started : IsStarted (at_clock c p) =
        λ s' e'. let same : s ≡ s' = some-inj (sym origin ∙ e') in omega arith in
      let (s', t', origin', le', after', seen', e') = timestamp_ms-Stamped (at_clock c p) started in
      let same : s' ≡ s = some-inj (sym origin' ∙ program_start_kept (at_clock c p) s origin) in
      (
        rw (e, e', same) (elapsed_ordered s t t' le (omega arith) (omega arith)),
        program_start_kept (at_clock c p) s origin ∙ sym origin,
      )

  -- Of two calls in one process on a clock that is never set back, the second does not return less
  -- than the first, whatever time has gone by, and both count from the same origin, as long as the
  -- clock has shown less than 2 ^ 64 milliseconds.
  pub timestamps_ordered :
      (p : Process C) (c : C.State)
      → IsStarted p
      → steady.shown (timestamp_ms p).1.clock ≤ steady.shown c
      → steady.shown (timestamp_ms (at_clock c (timestamp_ms p).1)).1.clock < 2 ^ 64 * 1000000
      → ((timestamp_ms p).0 ≤ (timestamp_ms (at_clock c (timestamp_ms p).1)).0)
        × ((timestamp_ms (at_clock c (timestamp_ms p).1)).1.program_start
            ≡ (timestamp_ms p).1.program_start)
  timestamps_ordered p c started later small =
      later_stamp c (timestamp_ms p).0 (timestamp_ms p).1
        (steady.shown p.clock, timestamp_ms-Stamped p started) later small
