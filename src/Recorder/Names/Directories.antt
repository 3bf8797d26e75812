-- ===== src/Recorder/Names/Directories.antt =====
-- The directories of two recordings.
use generic_target.Base.{
  drop, All-append, ℕ, ◌/◌, ◌^◌, ◌≤◌, ◌<◌, ◌≡◌, sym, ap, ◌∙◌, ◌≢◌, List, [], ◌++◌, append-nil,
  arith,
}
use generic_target.Base.Decimal.{padded, padded_inj, padded-IsDigit}
use generic_target.Base.Texts.{Free, Free-digits, append_cancel}
use generic_target.Recorder.Names.Distinct.{digit-ne-slash, join_path-Free}
use generic_target.Clock.{TimeInfo}
use generic_target.Recorder.Names.{prefix, join_path, data_name, utc_string, data_directory}

-- The ranges in which the parts of the text have a fixed width.
abbrev pub IsShort : TimeInfo → Type 0
IsShort t =
    (t.nanoseconds < 10 ^ 9)
    × (t.second ≤ 60)
    × (t.minute ≤ 59)
    × (t.hour ≤ 23)
    × (t.mday ≤ 31)
    × (t.month ≤ 11)
    × (t.year < 8100)

-- The same time up to the millisecond.
abbrev pub SameMillisecond : TimeInfo → TimeInfo → Type 0
SameMillisecond s t =
    (s.year ≡ t.year)
    × (s.month ≡ t.month)
    × (s.mday ≡ t.mday)
    × (s.hour ≡ t.hour)
    × (s.minute ≡ t.minute)
    × (s.second ≡ t.second)
    × (s.nanoseconds / 1000000 ≡ t.nanoseconds / 1000000)

utc_string_inj :
    (s t : TimeInfo) → IsShort s → IsShort t → utc_string s ≡ utc_string t → SameMillisecond s t
unfolding utc_string
utc_string_inj s t (s0, s1, s2, s3, s4, s5, s6) (t0, t1, t2, t3, t4, t5, t6) e =
    let (year, e) = padded_inj 4 _ _ _ _ (omega (arith, s6)) (omega (arith, t6)) e in
    let (month, e) = padded_inj 2 _ _ _ _ (omega (arith, s5)) (omega (arith, t5)) e in
    let (mday, e) = padded_inj 2 _ _ _ _ (omega (arith, s4)) (omega (arith, t4)) e in
    let (hour, e) = padded_inj 2 _ _ _ _ (omega (arith, s3)) (omega (arith, t3)) (ap (drop 1) e) in
    let (minute, e) = padded_inj 2 _ _ _ _ (omega (arith, s2)) (omega (arith, t2)) e in
    let (second, e) = padded_inj 2 _ _ _ _ (omega (arith, s1)) (omega (arith, t1)) e in
    let (ms, _) =
      padded_inj 3 _ _ [] [] (omega (arith, s0)) (omega (arith, t0))
        (append-nil _ ∙ e ∙ sym (append-nil _)) in
    (omega (arith, year), omega (arith, month), mday, hour, minute, second, ms)

padded-Free : (w n : ℕ) (rest : List ℕ) → Free b'/' rest → Free b'/' (padded w n ++ rest)
padded-Free w n rest h =
    All-append (λ c. c ≢ b'/') (padded w n) rest
      (Free-digits b'/' (padded w n) digit-ne-slash (padded-IsDigit w n)) h

utc_string-Free : (t : TimeInfo) → Free b'/' (utc_string t)
unfolding utc_string
utc_string-Free t = padded-Free 4 _ _ (
    padded-Free 2 _ _ (
      padded-Free 2 _ _ (
        omega arith,
        padded-Free 2 _ _ (
            padded-Free 2 _ _ (
              padded-Free 2 _ _
                (Free-digits b'/' _ digit-ne-slash (padded-IsDigit 3 (t.nanoseconds / 1000000))))),
      )))

-- Two runs of one application record into the same directory only if they were started in the same
-- millisecond, for starts before the year 10000.
pub data_directories :
    (application : List ℕ) (s t : TimeInfo)
    → IsShort s
    → IsShort t
    → data_directory application s ≡ data_directory application t
    → SameMillisecond s t
unfolding data_directory
data_directories application s t hs ht e =
    let parent : List ℕ = join_path application data_name in
    utc_string_inj s t hs ht (
      append_cancel (prefix parent) (utc_string s) (utc_string t) (
        sym (join_path-Free parent (utc_string s) (utc_string-Free s))
        ∙ e
        ∙ join_path-Free parent (utc_string t) (utc_string-Free t)))
