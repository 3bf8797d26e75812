-- ===== src/Drivers/Measurements/TimeOfDay.antt =====
-- The timestamp of a block and the time of another are those of one moment.
use generic_target.Base.{ℕ, ◌≡◌, refl, sym, ap, ◌∙◌, Option, none, some}
use generic_target.Base.Int.{pos}
use mathlib.Core.Path.{ap₂}
use generic_target.Clock.{Now, Tm, TimeInfo, utc_time_step}
use generic_target.Drivers.Measurements.{Double, utc_timestamp_step}

module _ {D : Type 0} (d : Double D) where
  -- The seconds of the day at a time.
  abbrev pub day_seconds : TimeInfo → D
  day_seconds t =
      d.add
        (d.add (d.mul (d.of_ℤ (pos 3600)) (d.of_ℤ (pos t.hour)))
          (d.mul (d.of_ℤ (pos 60)) (d.of_ℤ (pos t.minute))))
        (d.add (d.of_ℤ (pos t.second)) (d.seconds t.nanoseconds))

  -- What the standard for floating-point numbers says of 0.0.
  pub record HasZero : Type 0 where
    pub mul_zero : (x : ℕ) → d.mul (d.of_ℤ (pos x)) (d.of_ℤ (pos 0)) ≡ d.of_ℤ (pos 0)
    pub add_zero : d.add (d.of_ℤ (pos 0)) (d.of_ℤ (pos 0)) ≡ d.of_ℤ (pos 0)
    pub seconds_zero : d.seconds 0 ≡ d.of_ℤ (pos 0)

  midnight :
      HasZero
      → d.add
          (d.add
            (d.mul (d.of_ℤ (pos 3600)) (d.of_ℤ (pos 0)))
            (d.mul (d.of_ℤ (pos 60)) (d.of_ℤ (pos 0))))
          (d.add (d.of_ℤ (pos 0)) (d.seconds 0))
        ≡ d.of_ℤ (pos 0)
  midnight z =
      ap₂ d.add (ap₂ d.add (z.mul_zero 3600) (z.mul_zero 60) ∙ z.add_zero)
        (ap (d.add (d.of_ℤ (pos 0))) z.seconds_zero ∙ z.add_zero)
      ∙ z.add_zero

  -- For one answer of the clock and the calendar, also where the calendar has none, the block of the UTC
  -- timestamp gives the seconds of the day of the time that the block of the UTC time gives.
  pub utc_timestamp_step-utc_time_step :
      HasZero → (now : Now) → utc_timestamp_step d now ≡ day_seconds (utc_time_step now)
  unfolding utc_timestamp_step utc_time_step
  utc_timestamp_step-utc_time_step z now = by_calendar now.calendar
    where
      by_calendar :
          (c : Option Tm)
          → utc_timestamp_step d (record now { calendar = c })
            ≡ day_seconds (utc_time_step (record now { calendar = c }))
      by_calendar none = sym (midnight z)
      by_calendar (some tm) = refl
