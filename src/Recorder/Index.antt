-- ===== src/Recorder/Index.antt =====
-- library/drivers/GT_DriverImplementationDetails.cpp: the bytes that `WriteIndexFile` writes, and
-- packages/+GT/DecodeIndexFile.m, which reads them.
pub mod RoundTrip
pub mod Tests
use generic_target.Base.{
  if◌then◌else◌, length, ℕ, zero, suc, ◌+◌, ◌*◌, ◌/◌, ◌%◌, ◌^◌, Option, none, some, List, [], ◌∷◌,
  ◌++◌,
}
use generic_target.Base.Bytes.{be32, word32, read_be32, until_zero, same_bytes}
use generic_target.Recorder.Header.{◌>>=◌}

-- `m_utc`
pub record Utc : Type 0 where
  pub year : ℕ
  pub month : ℕ
  pub day : ℕ
  pub hour : ℕ
  pub minute : ℕ
  pub second : ℕ
  pub millisecond : ℕ

pub record Index : Type 0 where
  pub utc : Utc
  pub ids : List (List ℕ)
  pub version : List ℕ
  pub model_name : List ℕ
  pub compile_date : List ℕ
  pub compiler_version : List ℕ
  pub os_info : List ℕ

-- The eleven bytes of the date: the casts to `uint8_t` keep the lowest byte.
unfoldable pub date_bytes : Utc → List ℕ
date_bytes u =
    be32 u.year
    ++ (u.month % 256
        ∷ u.day % 256
        ∷ u.hour % 256
        ∷ u.minute % 256
        ∷ u.second % 256
        ∷ u.millisecond / 256 % 256
        ∷ u.millisecond % 256
        ∷ [])

unfoldable pub strings : List (List ℕ) → List ℕ → List ℕ
strings [] rest = rest
strings (s ∷ ss) rest = s ++ (0 ∷ strings ss rest)

unfoldable pub write_index_file : Index → List ℕ
write_index_file x =
    b'G'
    ∷ b'T'
    ∷ b'I'
    ∷ b'D'
    ∷ b'X'
    ∷ (date_bytes x.utc
        ++ (be32 (length x.ids % 2 ^ 32)
            ++ strings x.ids (
                strings
                  (x.version ∷ x.model_name ∷ x.compile_date ∷ x.compiler_version ∷ x.os_info ∷ [])
                  [])))

unfoldable pub read_date : List ℕ → Option (Utc × List ℕ)
read_date (a ∷ b ∷ c ∷ d ∷ mo ∷ da ∷ h ∷ mi ∷ s ∷ x ∷ y ∷ rest) = some (
  record {
    year = word32 a b c d;
    month = mo;
    day = da;
    hour = h;
    minute = mi;
    second = s;
    millisecond = x * 256 + y;
  },
  rest,
)
read_date _ = none

unfoldable pub read_strings : ℕ → List ℕ → Option (List (List ℕ) × List ℕ)
read_strings zero bytes = some ([], bytes)
read_strings (suc n) bytes = do
  (s, rest) ← until_zero bytes
  (ss, behind) ← read_strings n rest
  some (s ∷ ss, behind)

unfoldable pub five_strings : Utc → List (List ℕ) → List (List ℕ) → Option Index
five_strings u ids (a ∷ b ∷ c ∷ d ∷ e ∷ []) = some (record {
  utc = u;
  ids = ids;
  version = a;
  model_name = b;
  compile_date = c;
  compiler_version = d;
  os_info = e;
})
five_strings u ids _ = none

unfoldable pub decode_index_file : List ℕ → Option Index
decode_index_file (g ∷ t ∷ i ∷ d ∷ x ∷ bytes) =
    if same_bytes (g ∷ t ∷ i ∷ d ∷ x ∷ []) (b'G' ∷ b'T' ∷ b'I' ∷ b'D' ∷ b'X' ∷ [])
    then (do
      (utc, bytes) ← read_date bytes
      (count, bytes) ← read_be32 bytes
      (ids, bytes) ← read_strings count bytes
      (others, _) ← read_strings 5 bytes
      five_strings utc ids others)
    else none
decode_index_file _ = none
