-- ===== src/Recorder/Index/RoundTrip.antt =====
-- The index file is read back as it was written.
use generic_target.Base.{
  length, All, ℕ, suc, ◌%◌, ◌^◌, ◌<◌, ◌≡◌, refl, ap, some, List, [], ◌∷◌, ◌++◌, arith,
}
use generic_target.Base.Bytes.{
  be32, read_be32, word32_bytes, read_be32-be32, until_zero, IsText, until_zero-append,
}
use generic_target.Recorder.Index.{
  Utc, Index, date_bytes, read_date, strings, read_strings, write_index_file, decode_index_file,
  five_strings,
}

-- The members of a date fit in their bytes.
abbrev pub IsUtc : Utc → Type 0
IsUtc u =
    (u.year < 2 ^ 32)
    × (u.month < 256)
    × (u.day < 256)
    × (u.hour < 256)
    × (u.minute < 256)
    × (u.second < 256)
    × (u.millisecond < 2 ^ 16)

-- No string holds a zero byte.
abbrev pub IsIndex : Index → Type 0
IsIndex x =
    All IsText x.ids
    × IsText x.version
    × IsText x.model_name
    × IsText x.compile_date
    × IsText x.compiler_version
    × IsText x.os_info

Utc-ext :
    (u v : Utc)
    → u.year ≡ v.year
    → u.month ≡ v.month
    → u.day ≡ v.day
    → u.hour ≡ v.hour
    → u.minute ≡ v.minute
    → u.second ≡ v.second
    → u.millisecond ≡ v.millisecond
    → u ≡ v
Utc-ext u v a b c d e f g = λ i. record {
  year = a i;
  month = b i;
  day = c i;
  hour = d i;
  minute = e i;
  second = f i;
  millisecond = g i;
}

read_date-date_bytes :
    (u : Utc) (rest : List ℕ) → IsUtc u → read_date (date_bytes u ++ rest) ≡ some (u, rest)
unfolding read_date date_bytes be32
read_date-date_bytes u rest h =
    let (y, mo, d, ho, mi, s, ms) = h in
    ap (λ v. some (v, rest))
      (Utc-ext _ u (word32_bytes u.year y) (omega (arith, mo)) (omega (arith, d))
        (omega (arith, ho)) (omega (arith, mi)) (omega (arith, s)) (omega (arith, ms)))

read_next :
    (n : ℕ) (bytes rest r : List ℕ) (s : List ℕ) (ss : List (List ℕ))
    → until_zero bytes ≡ some (s, rest)
    → read_strings n rest ≡ some (ss, r)
    → read_strings (suc n) bytes ≡ some (s ∷ ss, r)
unfolding read_strings
read_next n bytes rest r s ss e f = rw (e, f) refl

read_strings-strings :
    (ss : List (List ℕ)) (rest : List ℕ)
    → All IsText ss
    → read_strings (length ss) (strings ss rest) ≡ some (ss, rest)
unfolding strings read_strings
read_strings-strings [] rest h = refl
read_strings-strings (s ∷ ss) rest h =
    read_next (length ss) (strings (s ∷ ss) rest) (strings ss rest) rest s ss
      (until_zero-append s (strings ss rest) h.0) (read_strings-strings ss rest h.1)

mod_small : (n : ℕ) → n < 2 ^ 32 → n % 2 ^ 32 ≡ n
mod_small n h = omega (arith, h)

-- The decoder of the index file reads back the date, the ids and the five strings that were
-- written: none holds a zero byte, there are fewer than 2 ^ 32 ids, and the date fits in its bytes.
pub decode_index_file-write :
    (x : Index)
    → IsUtc x.utc
    → IsIndex x
    → length x.ids < 2 ^ 32
    → decode_index_file (write_index_file x) ≡ some x
unfolding decode_index_file write_index_file five_strings
decode_index_file-write x u v n =
    let (ids, version, model_name, date, compiler, os) = v in
    let others : List (List ℕ) =
      x.version ∷ x.model_name ∷ x.compile_date ∷ x.compiler_version ∷ x.os_info ∷ [] in
    let count : read_be32 (be32 (length x.ids % 2 ^ 32) ++ strings x.ids (strings others []))
        ≡ some (length x.ids, strings x.ids (strings others [])) =
      rw (mod_small (length x.ids) n)
        (read_be32-be32 (length x.ids) (strings x.ids (strings others [])) n) in
    rw
      (
        read_date-date_bytes x.utc
            (be32 (length x.ids % 2 ^ 32) ++ strings x.ids (strings others [])) u,
        count,
        read_strings-strings x.ids (strings others []) ids,
        read_strings-strings others [] (version, (model_name, (date, (compiler, (os, tt))))),
      )
      refl
