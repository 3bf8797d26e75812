-- ===== src/Recorder/Decode.antt =====
-- packages/+GT/DecodeDataFiles.m: what it takes from the data files of a recorder, as the bytes of the
-- timestamps and of the values of each signal, before they are cast to the types of the signals.
pub mod Columns
pub mod Samples
pub mod Doubles
pub mod Recorded
pub mod Tests
use generic_target.Base.{
  ltb, ◌==◌, if◌then◌else◌, length, take, drop, ℕ, zero, suc, ◌+◌, ◌-◌, ◌*◌, ◌/◌, ◌^◌, min, Bool,
  not, ◌&&◌, ◌||◌, Option, none, some, List, [], ◌∷◌, ◌++◌,
}
use generic_target.Base.Bytes.{same_bytes}
use generic_target.Recorder.Header.{◌>>=◌, Decoded, decode_header}
use generic_target.Recorder.Header.Convert.{
  Signal, dimensions_of, data_types_of, num_signals_of, convert_header, bytes_of_type,
  get_size_of_signal,
}

-- The bytes of one signal, those of each sample apart.
pub record Values : Type 0 where
  pub name : List ℕ
  pub values : List (List ℕ)

pub record Recording : Type 0 where
  pub timestamps : List (List ℕ)
  pub signals : List Values

-- `header.numBytesPerSample` and `stride`, in the saturating arithmetic of MATLAB's uint32.
abbrev pub saturated : ℕ → ℕ
saturated n = min n (2 ^ 32 - 1)

abbrev pub num_bytes_per_sample : Decoded → ℕ
num_bytes_per_sample h = if h.bus then h.count else saturated (h.count * 8)

abbrev pub stride : Decoded → ℕ
stride h = saturated (8 + num_bytes_per_sample h)

-- The test that two files have the same header.
unfoldable pub same_header : Decoded → Decoded → Bool
same_header g h =
    (if g.bus then h.bus else not h.bus)
    && ((g.offset_sample_data == h.offset_sample_data)
        && ((g.count == h.count)
            && (same_bytes g.labels h.labels
                && (same_bytes g.dimensions h.dimensions
                    && (same_bytes g.data_types h.data_types
                        && (if g.big_endian then h.big_endian else not h.big_endian))))))

-- The bytes behind the headers of all files; `none` is an error.
unfoldable pub sample_bytes : Decoded → List (List ℕ) → Option (List ℕ)
sample_bytes h [] = some []
sample_bytes h (file ∷ files) = do
  g ← decode_header file
  rest ← sample_bytes h files
  if same_header h g then some (drop h.offset_sample_data file ++ rest) else none

-- The bytes at `offset` in each of `n` samples, `size` of them; `none` is an index out of range.
abbrev pub whole : ℕ → List ℕ → Option (List ℕ)
whole size bytes = if length bytes == size then some bytes else none

unfoldable pub bytes_at : ℕ → ℕ → ℕ → ℕ → List ℕ → Option (List (List ℕ))
bytes_at stride offset size zero bytes = some []
bytes_at stride offset size (suc n) bytes = do
  x ← whole size (take size (drop offset bytes))
  rest ← bytes_at stride offset size n (drop stride bytes)
  some (x ∷ rest)

-- The loop over the signals. The indices of a signal without bytes do not fit more than one sample,
-- and nothing can be cast to a type that is not known.
unfoldable pub decode_signals : ℕ → ℕ → List ℕ → ℕ → List Signal → Option (List Values)
decode_signals stride n bytes offset [] = some []
decode_signals stride n bytes offset (g ∷ gs) = do
  values ←
      if get_size_of_signal g == 0 && ltb 1 n || bytes_of_type g.data_type == 0
      then none
      else bytes_at stride offset (get_size_of_signal g) n bytes
  rest ← decode_signals stride n bytes (offset + get_size_of_signal g) gs
  some (record { name = g.name; values = values } ∷ rest)

-- The timestamps and the signals of the samples in the bytes.
unfoldable pub decode_samples : Decoded → List Signal → List ℕ → Option Recording
decode_samples h gs bytes =
    let n : ℕ = length bytes / (8 + num_bytes_per_sample h) in
    do
      timestamps ← bytes_at (stride h) 0 8 n bytes
      signals ← decode_signals (stride h) n bytes 8 gs
      some (record { timestamps = timestamps; signals = signals })

unfoldable pub decode_data_files : (List ℕ → List ℕ) → List (List ℕ) → Option Recording
decode_data_files str2num [] = some (record { timestamps = []; signals = [] })
decode_data_files str2num (file ∷ files) = do
  h ← decode_header file
  bytes ← sample_bytes h (file ∷ files)
  gs ← convert_header str2num h.labels (dimensions_of h) (data_types_of h) (num_signals_of h)
  decode_samples h gs bytes
