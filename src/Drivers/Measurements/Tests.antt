-- ===== src/Drivers/Measurements/Tests.antt =====
-- A double that is a natural number, and 999 where it is not a number.
use generic_target.Base.{
  if◌then◌else◌, ℕ, ◌+◌, ◌*◌, ◌/◌, ◌^◌, ◌≡◌, refl, Option, none, some, List, [], ◌∷◌, arith,
}
use generic_target.Base.Int.{to_ℕ, ℤ, pos}
use generic_target.Base.Bytes.{same_bytes}
use generic_target.Base.Decimal.{decimal, digits}
use generic_target.Clock.{Now, utc_time_step}
use generic_target.Drivers.Measurements.{
  Double, zone_path, read_zone, read_zones, set, read_thermal_zones_step, utc_timestamp_step,
}
use generic_target.Drivers.Measurements.TimeOfDay.{
  HasZero, day_seconds, utc_timestamp_step-utc_time_step,
}

abbrev whole : Double ℕ
whole = record {
  of_ℤ = to_ℕ;
  add = λ x y. x + y;
  mul = λ x y. x * y;
  quiet_nan = 999;
  thousandth = 1;
  seconds = λ n. n / 10 ^ 9;
}

whole-HasZero : HasZero whole
whole-HasZero = record { mul_zero = λ x. omega arith; add_zero = refl; seconds_zero = refl }

-- Only the zone 1 has a file.
abbrev one_file : List ℕ → Option (List ℕ)
one_file path = if same_bytes path (zone_path 1) then some (b'4' ∷ []) else none

abbrev four : List ℕ → Option ℤ
four text = some (pos 4)

zones_read : read_thermal_zones_step whole one_file four 2 (0 ∷ 0 ∷ 7 ∷ []) ≡ 999 ∷ 4 ∷ 7 ∷ []
unfolding read_thermal_zones_step read_zones set read_zone zone_path decimal digits
zones_read = refl

abbrev noon : Now
noon = record {
  since_epoch = 1772281815999000000;
  calendar = some (record {
    tm_sec = 15;
    tm_min = 30;
    tm_hour = 12;
    tm_mday = 28;
    tm_mon = 1;
    tm_year = 126;
    tm_wday = 6;
    tm_yday = 58;
    tm_isdst = 0;
  });
}

utc_timestamp_step-utc_time_step_example :
    utc_timestamp_step whole noon ≡ day_seconds whole (utc_time_step noon)
utc_timestamp_step-utc_time_step_example = utc_timestamp_step-utc_time_step whole whole-HasZero noon
