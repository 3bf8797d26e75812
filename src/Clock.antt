-- ===== src/Clock.antt =====
-- The time of day: core/code/GenericTarget/GT_AppStartTimepoint.{hpp,cpp}, the steps of
-- library/drivers/GT_DriverUTCTime.cpp and GT_DriverLocalTime.cpp, and the time that names the
-- directory of the data recorders.
pub mod Dates
pub mod Tests
use generic_target.Base.{ℕ, ◌+◌, ◌-◌, ◌*◌, ◌/◌, ◌^◌, Option, none, some}
use generic_target.Recorder.Index.{Utc}

-- `std::tm`, as `gmtime_r` or `localtime_r` fills it in; the year counts from 1900.
pub record Tm : Type 0 where
  pub tm_sec : ℕ
  pub tm_min : ℕ
  pub tm_hour : ℕ
  pub tm_mday : ℕ
  pub tm_mon : ℕ
  pub tm_year : ℕ
  pub tm_wday : ℕ
  pub tm_yday : ℕ
  pub tm_isdst : ℕ

-- What the clock and the calendar of the system answer: nanoseconds since the epoch, and the fields
-- of that time where the calendar has them.
pub record Now : Type 0 where
  pub since_epoch : ℕ
  pub calendar : Option Tm

pub record TimeInfo : Type 0 where
  pub nanoseconds : ℕ
  pub second : ℕ
  pub minute : ℕ
  pub hour : ℕ
  pub mday : ℕ
  pub month : ℕ
  pub year : ℕ
  pub wday : ℕ
  pub yday : ℕ
  pub isdst : ℕ

-- The initial values of the members, and the values without a calendar.
abbrev pub no_time : TimeInfo
no_time = record {
  nanoseconds = 0;
  second = 0;
  minute = 0;
  hour = 0;
  mday = 1;
  month = 0;
  year = 0;
  wday = 0;
  yday = 0;
  isdst = 0;
}

-- The time since the epoch less its whole seconds.
unfoldable pub subsecond : ℕ → ℕ
subsecond n = n - n / 10 ^ 9 * 10 ^ 9

unfoldable pub start_timepoint : Now → TimeInfo
start_timepoint now = elim now.calendar [
  | none ↦ no_time
  | some tm ↦ record {
    second = tm.tm_sec;
    minute = tm.tm_min;
    hour = tm.tm_hour;
    mday = tm.tm_mday;
    month = tm.tm_mon;
    year = tm.tm_year;
    wday = tm.tm_wday;
    yday = tm.tm_yday;
    isdst = tm.tm_isdst;
    nanoseconds = subsecond now.since_epoch;
  }
]

-- `GT_DriverUTCTimeStep`, where the calendar is `gmtime_r`, and `GT_DriverLocalTimeStep`, where it is
-- `localtime_r`.
unfoldable pub utc_time_step : Now → TimeInfo
utc_time_step now = elim now.calendar [
  | none ↦ record {
    second = 0;
    minute = 0;
    hour = 0;
    mday = 1;
    month = 0;
    year = 0;
    wday = 0;
    yday = 0;
    isdst = 0;
    nanoseconds = 0;
  }
  | some tm ↦ record {
    second = tm.tm_sec;
    minute = tm.tm_min;
    hour = tm.tm_hour;
    mday = tm.tm_mday;
    month = tm.tm_mon;
    year = tm.tm_year;
    wday = tm.tm_wday;
    yday = tm.tm_yday;
    isdst = tm.tm_isdst;
    nanoseconds = subsecond now.since_epoch;
  }
]

unfoldable pub local_time_step : Now → TimeInfo
local_time_step now = elim now.calendar [
  | none ↦ record {
    nanoseconds = 0;
    second = 0;
    minute = 0;
    hour = 0;
    mday = 1;
    month = 0;
    year = 0;
    wday = 0;
    yday = 0;
    isdst = 0;
  }
  | some tm ↦ record {
    second = tm.tm_sec;
    minute = tm.tm_min;
    hour = tm.tm_hour;
    mday = tm.tm_mday;
    month = tm.tm_mon;
    year = tm.tm_year;
    wday = tm.tm_wday;
    yday = tm.tm_yday;
    isdst = tm.tm_isdst;
    nanoseconds = subsecond now.since_epoch;
  }
]

-- `m_utc` and the directory of the data recorder manager, which is named by a time.
pub record DataDirectory : Type 0 where
  pub utc : Utc
  pub directory : Option Utc

-- `SetPathAndTimeIfNotSet` of the target, with the time at which the application was started.
unfoldable pub set_path_and_time_if_not_set : TimeInfo → DataDirectory → DataDirectory
set_path_and_time_if_not_set start d =
    let utc : Utc = record {
      year = 1900 + start.year;
      month = 1 + start.month;
      day = start.mday;
      hour = start.hour;
      minute = start.minute;
      second = start.second;
      millisecond = start.nanoseconds / 1000000;
    } in
    elim d.directory [ some t ↦ d | none ↦ record { utc = utc; directory = some utc } ]

-- The rest of `ClearAllDataRecorders`.
abbrev pub clear_path : DataDirectory → DataDirectory
clear_path d = record d { directory = none }
