-- ===== src/Clock/Tests.antt =====
-- A start of the application, and the theorem about the date of its recordings.
use generic_target.Base.{some, [], ◌∷◌}
use generic_target.Recorder.Index.{Index, Utc}
use generic_target.Clock.{Now}

-- 2026-02-28 12:30:15.999
abbrev started : Now
started = record {
  since_epoch = 1772281815999000000;
  calendar = some (record {
    tm_sec = 15;
    tm_min = 30;
    tm_hour = 12;
    tm_mday = 28;
    tm_mon = 1;
    tm_year = 126;
    tm_wday = 6;
    tm_yday = 58;
    tm_isdst = 0;
  });
}

abbrev unset : Utc
unset = record { year = 0; month = 0; day = 0; hour = 0; minute = 0; second = 0; millisecond = 0 }

abbrev one_id : Index
one_id = record {
  utc = unset;
  ids = (b'a' ∷ []) ∷ [];
  version = b'1' ∷ [];
  model_name = b'm' ∷ [];
  compile_date = [];
  compiler_version = [];
  os_info = [];
}
