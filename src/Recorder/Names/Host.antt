-- ===== src/Recorder/Names/Host.antt =====
-- The recorders on the target and in the simulation on the host.
use generic_target.Base.{ℕ, ◌≡◌, refl, Option, none, some, []}
use generic_target.Clock.{Tm, Now, start_timepoint, set_path_and_time_if_not_set}
use generic_target.Recorder.Index.{Utc}
use generic_target.Recorder.Names.{
  utc_string, data_directory, host_time, host_utc_string, host_data_directory,
}

same_time :
    (n : ℕ) (c : Option Tm) (u : Utc)
    → let now : Now = record { since_epoch = n; calendar = c } in
      ((set_path_and_time_if_not_set
          (start_timepoint now)
          (record { utc = u; directory = none })).utc
        ≡ host_time now)
      × (utc_string (start_timepoint now) ≡ host_utc_string (host_time now))
unfolding set_path_and_time_if_not_set start_timepoint host_time utc_string host_utc_string
same_time n none u = (refl, refl)
same_time n (some tm) u = (refl, refl)

-- For one answer of the clock and the calendar, also where the calendar has none, the application on
-- the target and the simulation on the host record the same date and name the directory alike, but
-- for the path of the application in front of it.
pub host_eq_target :
    (now : Now) (u : Utc)
    → ((set_path_and_time_if_not_set
          (start_timepoint now)
          (record { utc = u; directory = none })).utc
        ≡ host_time now)
      × (data_directory [] (start_timepoint now) ≡ host_data_directory (host_time now))
unfolding data_directory host_data_directory
host_eq_target now u =
    let (date, text) = same_time now.since_epoch now.calendar u in (date, cc text)
