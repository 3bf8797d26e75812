-- ===== src/Recorder/Header/RoundTrip.antt =====
-- A file header reads back as it was written, and its offset is where the samples begin.
use generic_target.Base.{
  ltb, leb, ◌==◌, Bool-cases, length, length-append, take-append, ℕ, ◌+◌, ◌-◌, ◌^◌, ◌≤◌, ◌<◌, ◌≡◌,
  refl, inl, inr, true, false, not, some, List, [], ◌∷◌, ◌++◌, append_assoc, arith,
}
use generic_target.Base.Bytes.{be32, read_be32-be32, IsText, until_zero-append, last?, last?-append}
use generic_target.Recorder.Header.{
  Signals, endian_byte, offset_scalar_doubles, offset_bus, header_scalar_doubles, header_bus,
  decode_header, decode_content, decode_doubles, decode_bus, header_rest, read_endian,
}

header_rest-append :
    (offset : ℕ) (bytes body : List ℕ)
    → offset ≡ length bytes + 9
    → 5 ≤ length bytes
    → header_rest offset (bytes ++ body) ≡ some bytes
header_rest-append offset bytes body e h =
    let same : offset - 9 ≡ length bytes = omega arith in
    let no_less : ltb offset 9 ≡ false = ground arith in
    let full : (length bytes == length bytes) ≡ true = ground arith in
    let enough : leb 5 (length bytes) ≡ true = ground arith in
    rw (no_less, same, take-append, full, enough) refl

read_endian_byte : (first : ℕ) → read_endian (endian_byte first) ≡ some (not (first == 0))
read_endian_byte first = elim (Bool-cases (first == 0)) [ inl e ↦ rw e refl | inr e ↦ rw e refl ]

module _ (first : ℕ) (s : Signals) (texts : IsText s.labels) where
  abbrev rest_doubles : List ℕ
  rest_doubles = be32 s.num_signals ++ (s.labels ++ (0 ∷ endian_byte first ∷ []))

  length-rest_doubles : length rest_doubles ≡ length s.labels + 6
  unfolding be32
  length-rest_doubles = omega (arith, length-append {0} s.labels (0 ∷ endian_byte first ∷ []))

  last-rest_doubles : last? rest_doubles ≡ some (endian_byte first)
  unfolding be32 last?
  last-rest_doubles = last?-append (be32 s.num_signals ++ s.labels) 0 (endian_byte first)

  -- What is written by the recorder of scalar doubles, whatever samples follow it, is decoded to
  -- the labels, the number of signals and the byte order that it was written with; the offset is
  -- the length of the header. The labels hold no zero byte and are shorter than 2 ^ 32 - 15.
  pub decode-header_scalar_doubles :
      length s.labels + 15 < 2 ^ 32
      → s.num_signals < 2 ^ 32
      → (body : List ℕ)
      → decode_header (header_scalar_doubles first s ++ body)
        ≡ some (record {
          bus = false;
          offset_sample_data = length (header_scalar_doubles first s);
          count = s.num_signals;
          labels = s.labels;
          dimensions = [];
          data_types = [];
          big_endian = not (first == 0);
        })
  unfolding decode_header header_scalar_doubles decode_content decode_doubles
  decode-header_scalar_doubles small count body =
      rw
        (
          append_assoc (be32 (offset_scalar_doubles s)) rest_doubles body,
          read_be32-be32 (offset_scalar_doubles s) (rest_doubles ++ body) offset_small,
          header_rest-append (offset_scalar_doubles s) rest_doubles body offset_rest rest_long,
          last-rest_doubles,
          read_endian_byte first,
          read_be32-be32 s.num_signals (s.labels ++ (0 ∷ endian_byte first ∷ [])) count,
          until_zero-append s.labels (endian_byte first ∷ []) texts,
        )
        (cc length_header)
    where
      offset_eq : offset_scalar_doubles s ≡ length s.labels + 15
      offset_eq = unfold offset_scalar_doubles in omega arith

      offset_small : offset_scalar_doubles s < 2 ^ 32
      offset_small = omega (arith, offset_eq)

      offset_rest : offset_scalar_doubles s ≡ length rest_doubles + 9
      offset_rest = omega (arith, offset_eq, length-rest_doubles)

      rest_long : 5 ≤ length rest_doubles
      rest_long = omega (arith, length-rest_doubles)

      length_header : length (header_scalar_doubles first s) ≡ offset_scalar_doubles s
      length_header =
          unfold be32 in
          omega (arith, offset_eq, length-append {0} s.labels (0 ∷ endian_byte first ∷ []))

module _ (first : ℕ) (s : Signals) (labels : IsText s.labels) (dimensions : IsText s.dimensions)
    (data_types : IsText s.data_types) where
  abbrev tail_types : List ℕ
  tail_types = s.data_types ++ (0 ∷ endian_byte first ∷ [])

  abbrev tail_dimensions : List ℕ
  tail_dimensions = s.dimensions ++ (0 ∷ tail_types)

  abbrev rest_bus : List ℕ
  rest_bus = be32 s.num_bytes_per_sample ++ (s.labels ++ (0 ∷ tail_dimensions))

  length-rest_bus :
      length rest_bus ≡ length s.labels + length s.dimensions + length s.data_types + 8
  unfolding be32
  length-rest_bus = omega (
    arith,
    length-append {0} s.labels (0 ∷ tail_dimensions),
    length-append {0} s.dimensions (0 ∷ tail_types),
    length-append {0} s.data_types (0 ∷ endian_byte first ∷ []),
  )

  last?-under : (xs ys : List ℕ) (a : ℕ) → last? ys ≡ some a → last? (xs ++ ys) ≡ some a
  unfolding last?
  last?-under [] ys a h = h
  last?-under (x ∷ []) [] a h = cc
  last?-under (x ∷ []) (y ∷ ys) a h = h
  last?-under (x ∷ z ∷ xs) ys a h = last?-under (z ∷ xs) ys a h

  last-rest_bus : last? rest_bus ≡ some (endian_byte first)
  last-rest_bus = last?-under (be32 s.num_bytes_per_sample) _ _ (
      last?-under s.labels _ _ (
        last?-under (0 ∷ []) _ _ (
          last?-under s.dimensions _ _
            (last?-under (0 ∷ []) _ _ (last?-append s.data_types 0 (endian_byte first))))))

  -- What is written by the recorder of a bus, whatever samples follow it, is decoded to the labels,
  -- the dimensions, the data types, the number of bytes per sample and the byte order that it was
  -- written with; the offset is the length of the header. None of the three texts holds a zero byte,
  -- and all together are shorter than 2 ^ 32 - 17.
  pub decode-header_bus :
      length s.labels + length s.dimensions + length s.data_types + 17 < 2 ^ 32
      → s.num_bytes_per_sample < 2 ^ 32
      → (body : List ℕ)
      → decode_header (header_bus first s ++ body)
        ≡ some (record {
          bus = true;
          offset_sample_data = length (header_bus first s);
          count = s.num_bytes_per_sample;
          labels = s.labels;
          dimensions = s.dimensions;
          data_types = s.data_types;
          big_endian = not (first == 0);
        })
  unfolding decode_header header_bus decode_content decode_bus
  decode-header_bus small count body =
      rw
        (
          append_assoc (be32 (offset_bus s)) rest_bus body,
          read_be32-be32 (offset_bus s) (rest_bus ++ body) offset_small,
          header_rest-append (offset_bus s) rest_bus body offset_rest rest_long,
          last-rest_bus,
          read_endian_byte first,
          read_be32-be32 s.num_bytes_per_sample (s.labels ++ (0 ∷ tail_dimensions)) count,
          until_zero-append s.labels tail_dimensions labels,
          until_zero-append s.dimensions tail_types dimensions,
          until_zero-append s.data_types (endian_byte first ∷ []) data_types,
        )
        (cc length_header)
    where
      offset_eq : offset_bus s ≡ length s.labels + length s.dimensions + length s.data_types + 17
      offset_eq = unfold offset_bus in omega arith

      offset_small : offset_bus s < 2 ^ 32
      offset_small = omega (arith, offset_eq)

      offset_rest : offset_bus s ≡ length rest_bus + 9
      offset_rest = omega (arith, offset_eq, length-rest_bus)

      rest_long : 5 ≤ length rest_bus
      rest_long = omega (arith, length-rest_bus)

      length_header : length (header_bus first s) ≡ offset_bus s
      length_header = unfold be32 in omega (arith, offset_eq, length-rest_bus)
