-- ===== src/Drivers/Measurements.antt =====
-- library/drivers/GT_DriverReadThermalZones.cpp, GT_DriverUTCTimestamp.cpp, GT_DriverUnixTime.cpp,
-- GT_DriverModelExecutionTime.cpp and GT_DriverTaskExecutionTime.cpp, as they are compiled for the
-- target. A `double` is a type with the operations that these use.
pub mod Zones
pub mod TimeOfDay
pub mod TaskTimes
pub mod Tests
use generic_target.Base.{
  length, take, get_elem?, ℕ, zero, suc, ◌+◌, ◌-◌, Option, none, some, List, [], ◌∷◌, ◌++◌,
}
use generic_target.Base.Int.{ℤ, pos, negsuc}
use generic_target.Base.Bytes.{codes}
use generic_target.Base.Decimal.{decimal}
use generic_target.Clock.{Now, subsecond}
use generic_target.Drivers.Tasks.{find_task}

pub record Double (D : Type 0) : Type 0 where
  pub of_ℤ : ℤ → D  -- the cast of an integer, and the constants
  pub add : D → D → D
  pub mul : D → D → D
  pub quiet_nan : D
  pub thousandth : D  -- 0.001
  pub seconds : ℕ → D  -- the count of a `std::chrono::duration<double>`, from nanoseconds

-- The name of the file of a thermal zone.
unfoldable pub zone_path : ℕ → List ℕ
zone_path n = codes "/sys/class/thermal/thermal_zone" ++ (decimal n ++ codes "/temp")

-- An element of an array that is written; none is written behind its end.
unfoldable pub set {ℓ} : {A : Type ℓ} → List A → ℕ → A → List A
set [] n a = []
set (x ∷ xs) zero a = a ∷ xs
set (x ∷ xs) (suc n) a = x ∷ set xs n a

module _ {D : Type 0} (d : Double D) where
  -- `files` are the texts of the files that can be opened, and `extract` is `operator>>` to an int32_t.
  module _ (files : List ℕ → Option (List ℕ)) (extract : List ℕ → Option ℤ) where
    -- The value that the body of the loop leaves for a zone.
    unfoldable pub read_zone : ℕ → D
    read_zone n = elim (files (zone_path n)) [
      | none ↦ d.quiet_nan
      | some text ↦ elim (extract text) [
        | none ↦ d.quiet_nan
        | some temp ↦ d.mul (d.of_ℤ temp) d.thousandth
      ]
    ]

    -- The rounds of the loop from `n` on.
    unfoldable pub read_zones : ℕ → ℕ → List D → List D
    read_zones n zero temperatures = temperatures
    read_zones n (suc left) temperatures =
        read_zones (n + 1) left (set temperatures n (read_zone n))

    -- `GT_DriverReadThermalZonesStep`
    unfoldable pub read_thermal_zones_step : ℕ → List D → List D
    read_thermal_zones_step max_num temperatures = read_zones 0 max_num temperatures

  -- `GT_DriverUTCTimestampStep`, where the calendar is `gmtime_r`.
  unfoldable pub utc_timestamp_step : Now → D
  utc_timestamp_step now = elim now.calendar [
    | none ↦ d.of_ℤ (pos 0)
    | some tm ↦
        let s : D = d.add (d.of_ℤ (pos tm.tm_sec)) (d.seconds (subsecond now.since_epoch)) in
        d.add
          (d.add (d.mul (d.of_ℤ (pos 3600)) (d.of_ℤ (pos tm.tm_hour)))
            (d.mul (d.of_ℤ (pos 60)) (d.of_ℤ (pos tm.tm_min))))
          s
  ]

  -- `GT_DriverUnixTimeStep`
  unfoldable pub unix_time_step : Now → D
  unix_time_step now = d.seconds now.since_epoch

  -- `GT_DriverModelExecutionTimeStep`, with the start of the clock and its time.
  unfoldable pub model_execution_time_step : ℕ → ℕ → D
  model_execution_time_step time_of_start now = d.seconds (now - time_of_start)

  -- `GetTaskExecutionTime` of the scheduler, whose tasks have these times.
  unfoldable pub get_task_execution_time : List D → ℕ → D
  get_task_execution_time times id = elim (get_elem? times id) [
    | none ↦ d.of_ℤ (negsuc 0)
    | some time ↦ time
  ]

  -- `GT_DriverTaskExecutionTimeStep`: the first `length` characters at `task_name` are the name.
  unfoldable pub task_execution_time_step : List (List ℕ) → List ℕ → ℕ → List D → D
  task_execution_time_step names task_name length times =
      elim (find_task (take length task_name) 0 names) [
        | none ↦ d.of_ℤ (pos 0)
        | some id ↦ get_task_execution_time times id
      ]
