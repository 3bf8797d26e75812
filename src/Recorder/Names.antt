-- ===== src/Recorder/Names.antt =====
-- library/drivers/GT_DriverImplementationDetails.cpp and
-- core/code/GenericTarget/GT_AppStartTimepoint.cpp: the names of the files that the recorders write,
-- and of the directory that holds them.
pub mod Distinct
pub mod Directories
pub mod Host
pub mod Tests
use generic_target.Base.{
  ◌==◌, if◌then◌else◌, ℕ, ◌+◌, ◌/◌, Bool, true, none, some, List, [], ◌∷◌, ◌++◌,
}
use generic_target.Base.Decimal.{decimal, padded}
use generic_target.Clock.{Now, TimeInfo, subsecond}
use generic_target.Recorder.Index.{Utc}

-- `operator/` of `std::filesystem::path`.
abbrev pub ends_with_slash : List ℕ → Bool
ends_with_slash [] = true
ends_with_slash (c ∷ []) = c == b'/'
ends_with_slash (c ∷ d ∷ cs) = ends_with_slash (d ∷ cs)

-- A path with a separator behind it where it needs one.
abbrev pub prefix : List ℕ → List ℕ
prefix p = if ends_with_slash p then p else p ++ (b'/' ∷ [])

abbrev pub join_path : List ℕ → List ℕ → List ℕ
join_path p [] = prefix p
join_path p (c ∷ cs) = if c == b'/' then c ∷ cs else prefix p ++ (c ∷ cs)

-- "data" and "index".
abbrev pub data_name : List ℕ
data_name = b'd' ∷ b'a' ∷ b't' ∷ b'a' ∷ []

abbrev pub index_name : List ℕ
index_name = b'i' ∷ b'n' ∷ b'd' ∷ b'e' ∷ b'x' ∷ []

-- `GetUTCString`
unfoldable pub utc_string : TimeInfo → List ℕ
utc_string t =
    padded 4 (1900 + t.year)
    ++ (padded 2 (1 + t.month)
        ++ (padded 2 t.mday
            ++ (b'_'
                ∷ (padded 2 t.hour
                    ++ (padded 2 t.minute
                        ++ (padded 2 t.second ++ padded 3 (t.nanoseconds / 1000000)))))))

-- `m_pathToDataDirectory`
unfoldable pub data_directory : List ℕ → TimeInfo → List ℕ
data_directory application start = join_path (join_path application data_name) (utc_string start)

-- `m_filename` of the recorder with an id, and `GetCurrentFilename`.
unfoldable pub recorder_filename : List ℕ → List ℕ → List ℕ
recorder_filename directory id = join_path directory id

unfoldable pub current_filename : List ℕ → ℕ → List ℕ
current_filename filename number = filename ++ (b'_' ∷ decimal number)

-- The file that `WriteIndexFile` opens.
unfoldable pub index_filename : List ℕ → List ℕ
index_filename directory = join_path directory index_name

-- The branch of `SetPathAndTimeIfNotSet` for the simulation on the host: the time of the first
-- recorder, as `m_utc`, and the directory that it names.
unfoldable pub host_time : Now → Utc
host_time now = elim now.calendar [
  | none ↦ record {
    year = 1900;
    month = 1;
    day = 1;
    hour = 0;
    minute = 0;
    second = 0;
    millisecond = 0;
  }
  | some tm ↦ record {
    year = 1900 + tm.tm_year;
    month = 1 + tm.tm_mon;
    day = tm.tm_mday;
    hour = tm.tm_hour;
    minute = tm.tm_min;
    second = tm.tm_sec;
    millisecond = subsecond now.since_epoch / 1000000;
  }
]

unfoldable pub host_utc_string : Utc → List ℕ
host_utc_string t =
    padded 4 t.year
    ++ (padded 2 t.month
        ++ (padded 2 t.day
            ++ (b'_'
                ∷ (padded 2 t.hour
                    ++ (padded 2 t.minute ++ (padded 2 t.second ++ padded 3 t.millisecond))))))

unfoldable pub host_data_directory : Utc → List ℕ
host_data_directory t = join_path (join_path [] data_name) (host_utc_string t)
