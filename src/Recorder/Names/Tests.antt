-- ===== src/Recorder/Names/Tests.antt =====
-- Names of files, and the theorems about them at concrete inputs.
use generic_target.Base.{All, ℕ, ◌≡◌, refl, ◌≢◌, none, some, List, [], ◌∷◌, ◌++◌}
use generic_target.Base.Decimal.{padded, last_digits}
use generic_target.Clock.{Now, TimeInfo, start_timepoint, set_path_and_time_if_not_set}
use generic_target.Recorder.Names.Host.{host_eq_target}
use generic_target.Recorder.Names.{host_time, host_data_directory}
use generic_target.Recorder.Manager.{convert_to_valid_id}
use generic_target.Recorder.Names.{prefix, utc_string, data_directory, index_filename}
use generic_target.Recorder.Names.Distinct.{data_file, data_file_names}

-- 2024-02-29 23:59:58.007
abbrev leap_day : TimeInfo
leap_day = record {
  nanoseconds = 7654321;
  second = 58;
  minute = 59;
  hour = 23;
  mday = 29;
  month = 1;
  year = 124;
  wday = 4;
  yday = 59;
  isdst = 0;
}

-- "20240229_235958007"
leap_day_string :
    utc_string leap_day
    ≡ b'2' ∷ b'0' ∷ b'2' ∷ b'4' ∷ b'0' ∷ b'2' ∷ b'2' ∷ b'9' ∷ b'_' ∷ b'2' ∷ b'3' ∷ b'5' ∷ b'9'
      ∷ b'5' ∷ b'8' ∷ b'0' ∷ b'0' ∷ b'7' ∷ []
unfolding utc_string padded last_digits
leap_day_string = refl

-- "/opt/"
abbrev opt : List ℕ
opt = b'/' ∷ b'o' ∷ b'p' ∷ b't' ∷ b'/' ∷ []

data_file_names_example :
    (data_file opt (b'a' ∷ b'_' ∷ b'1' ∷ []) 2 ≡ data_file opt (b'a' ∷ []) 12
      → (convert_to_valid_id (b'a' ∷ b'_' ∷ b'1' ∷ []) ≡ convert_to_valid_id (b'a' ∷ []))
        × (◌≡◌ {A = ℕ} 2 12))
    × (data_file opt (b'a' ∷ b'_' ∷ b'1' ∷ []) 2 ≢ index_filename opt)
    × ((rest : List ℕ) × (data_file opt (b'a' ∷ b'_' ∷ b'1' ∷ []) 2 ≡ prefix opt ++ rest)
        × All (λ c. c ≢ b'/') rest)
data_file_names_example = data_file_names opt (b'a' ∷ b'_' ∷ b'1' ∷ []) (b'a' ∷ []) 2 12

abbrev leap_now : Now
leap_now = record {
  since_epoch = 1709251198007654321;
  calendar = some (record {
    tm_sec = 58;
    tm_min = 59;
    tm_hour = 23;
    tm_mday = 29;
    tm_mon = 1;
    tm_year = 124;
    tm_wday = 4;
    tm_yday = 59;
    tm_isdst = 0;
  });
}

host_eq_target_example :
    ((set_path_and_time_if_not_set
        (start_timepoint leap_now)
        (record { utc = host_time leap_now; directory = none })).utc
      ≡ host_time leap_now)
    × (data_directory [] (start_timepoint leap_now) ≡ host_data_directory (host_time leap_now))
host_eq_target_example = host_eq_target leap_now (host_time leap_now)
