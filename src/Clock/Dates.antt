-- ===== src/Clock/Dates.antt =====
-- The date of a recording.
use generic_target.Base.{length, ℕ, ◌-◌, ◌^◌, ◌≤◌, ◌<◌, ◌≡◌, refl, Option, none, some, arith}
use generic_target.Recorder.Index.{Utc, Index, write_index_file, decode_index_file}
use generic_target.Recorder.Index.RoundTrip.{IsUtc, IsIndex, decode_index_file-write}
use generic_target.Clock.{
  Tm, Now, TimeInfo, start_timepoint, subsecond, DataDirectory, set_path_and_time_if_not_set,
}

-- The documented ranges of `std::tm`, for a year in reach of an int32_t.
abbrev pub IsTm : Tm → Type 0
IsTm t =
    (t.tm_sec ≤ 60)
    × (t.tm_min ≤ 59)
    × (t.tm_hour ≤ 23)
    × (t.tm_mday ≤ 31)
    × (t.tm_mon ≤ 11)
    × (t.tm_year < 2 ^ 31 - 1900)

abbrev pub IsNow : Now → Type 0
IsNow now = elim now.calendar [ none ↦ Unit | some t ↦ IsTm t ]

-- The ranges of the start timepoint that `TimeInfo` documents.
abbrev pub InRange : TimeInfo → Type 0
InRange i =
    (i.nanoseconds < 10 ^ 9)
    × (i.second ≤ 60)
    × (i.minute ≤ 59)
    × (i.hour ≤ 23)
    × (i.mday ≤ 31)
    × (i.month ≤ 11)
    × (i.year < 2 ^ 31 - 1900)

pub start_timepoint-InRange :
    (n : ℕ) (c : Option Tm)
    → IsNow (record { since_epoch = n; calendar = c })
    → InRange (start_timepoint (record { since_epoch = n; calendar = c }))
unfolding start_timepoint subsecond
start_timepoint-InRange n none h =
    (omega arith, omega arith, omega arith, omega arith, omega arith, omega arith, omega arith)
start_timepoint-InRange n (some t) (s, m, h, d, mo, y) = (omega arith, s, m, h, d, mo, y)

pub set_path-IsUtc :
    (i : TimeInfo) (u : Utc)
    → InRange i
    → IsUtc (set_path_and_time_if_not_set i (record { utc = u; directory = none })).utc
unfolding set_path_and_time_if_not_set
set_path-IsUtc i u (n, s, m, h, d, mo, y) = (
  omega (arith, y),
  omega (arith, mo),
  omega (arith, d),
  omega (arith, h),
  omega (arith, m),
  omega (arith, s),
  omega (arith, n),
)

pub set_path-twice :
    (i j : TimeInfo) (u : Utc) (o : Option Utc)
    → let d : DataDirectory = set_path_and_time_if_not_set i (record { utc = u; directory = o }) in
      set_path_and_time_if_not_set j d ≡ d
unfolding set_path_and_time_if_not_set
set_path-twice i j u none = refl
set_path-twice i j u (some t) = refl

-- The date that the first recorder of the application brings with it is the application's start, and
-- every later recorder keeps it. The index file holds it, and its decoder reads it back with the rest
-- of the index, whatever the clock says: the ranges of the calendar are those that its documentation
-- gives.
pub recorded_date :
    (now : Now) (later : TimeInfo) (u : Utc) (x : Index)
    → IsNow now
    → IsIndex x
    → length x.ids < 2 ^ 32
    → let d : DataDirectory =
        set_path_and_time_if_not_set (start_timepoint now) (record { utc = u; directory = none }) in
      (set_path_and_time_if_not_set later d ≡ d)
      × (decode_index_file (write_index_file (record x { utc = d.utc }))
          ≡ some (record x { utc = d.utc }))
recorded_date now later u x n v l =
    let d : DataDirectory =
      set_path_and_time_if_not_set (start_timepoint now) (record { utc = u; directory = none }) in
    (
      set_path-twice (start_timepoint now) later u none,
      decode_index_file-write (record x { utc = d.utc })
          (set_path-IsUtc (start_timepoint now) u
            (start_timepoint-InRange now.since_epoch now.calendar n))
          v l,
    )
