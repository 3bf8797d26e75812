-- ===== src/Recorder/Header.antt =====
-- library/drivers/GT_DriverImplementationDetails.cpp: `WriteHeader` of the two data recorders, and
-- packages/+GT/DecodeDataFiles.m: `DecodeHeader`, which reads the files back.
pub mod Convert
pub mod RoundTrip
use generic_target.Base.{
  ltb, leb, ◌==◌, if◌then◌else◌, length, take, ℕ, ◌+◌, ◌-◌, ◌%◌, ◌^◌, Bool, true, false, ◌&&◌,
  Option, none, some, List, [], ◌∷◌, ◌++◌,
}
use generic_target.Base.Bytes.{be32, read_be32, until_zero, last?, same_bytes}

-- The byte order of the machine: the first byte in memory of the `uint16_t` value 0x0100.
abbrev pub endian_byte : ℕ → ℕ
endian_byte first = if first == 0 then 0x01 else 0x80

-- "GTDBL" and "GTBUS".
abbrev pub gtdbl : List ℕ
gtdbl = b'G' ∷ b'T' ∷ b'D' ∷ b'B' ∷ b'L' ∷ []

abbrev pub gtbus : List ℕ
gtbus = b'G' ∷ b'T' ∷ b'B' ∷ b'U' ∷ b'S' ∷ []

-- The members of a recorder that its header holds.
pub record Signals : Type 0 where
  pub num_signals : ℕ  -- uint32_t
  pub num_bytes_per_sample : ℕ  -- uint32_t
  pub labels : List ℕ
  pub dimensions : List ℕ
  pub data_types : List ℕ

unfoldable pub offset_scalar_doubles : Signals → ℕ
offset_scalar_doubles s = (15 + length s.labels % 2 ^ 32) % 2 ^ 32

unfoldable pub offset_bus : Signals → ℕ
offset_bus s =
    (17 + (length s.labels + length s.dimensions + length s.data_types) % 2 ^ 32) % 2 ^ 32

-- `first` is the first byte of 0x0100 in memory.
unfoldable pub header_scalar_doubles : ℕ → Signals → List ℕ
header_scalar_doubles first s =
    gtdbl
    ++ (be32 (offset_scalar_doubles s)
        ++ (be32 s.num_signals ++ (s.labels ++ (0 ∷ endian_byte first ∷ []))))

unfoldable pub header_bus : ℕ → Signals → List ℕ
header_bus first s =
    gtbus
    ++ (be32 (offset_bus s)
        ++ (be32 s.num_bytes_per_sample
            ++ (s.labels
                ++ (0 ∷ (s.dimensions ++ (0 ∷ (s.data_types ++ (0 ∷ endian_byte first ∷ []))))))))

-- What `DecodeHeader` finds in a file; `count` is the number of signals or of bytes per sample.
pub record Decoded : Type 0 where
  pub bus : Bool
  pub offset_sample_data : ℕ
  pub count : ℕ
  pub labels : List ℕ
  pub dimensions : List ℕ
  pub data_types : List ℕ
  pub big_endian : Bool

infixl 5 ◌>>=◌
abbrev pub ◌>>=◌ {ℓ κ} : {A : Type ℓ} {B : Type κ} → Option A → (A → Option B) → Option B
none >>= f = none
some a >>= f = f a

-- The indicator at the end of the header: 1 for little endian, 128 for big endian.
abbrev pub read_endian : ℕ → Option Bool
read_endian b = if b == 0x01 then some false else if b == 0x80 then some true else none

-- The part of the header behind the offset, by the header's id. The dimensions and the data types
-- of scalar doubles are not stored in the file; `DecodeHeader` fills them in from the count.
unfoldable pub decode_doubles : ℕ → Bool → List ℕ → Option Decoded
decode_doubles offset big bytes = do
  (count, rest) ← read_be32 bytes
  (labels, _) ← until_zero rest
  some (record {
    bus = false;
    offset_sample_data = offset;
    count = count;
    labels = labels;
    dimensions = [];
    data_types = [];
    big_endian = big;
  })

unfoldable pub decode_bus : ℕ → Bool → List ℕ → Option Decoded
decode_bus offset big bytes = do
  (count, rest) ← read_be32 bytes
  (labels, rest) ← until_zero rest
  (dimensions, rest) ← until_zero rest
  (data_types, _) ← until_zero rest
  some (record {
    bus = true;
    offset_sample_data = offset;
    count = count;
    labels = labels;
    dimensions = dimensions;
    data_types = data_types;
    big_endian = big;
  })

unfoldable pub decode_content : List ℕ → ℕ → Bool → List ℕ → Option Decoded
decode_content id offset big bytes =
    if same_bytes id gtdbl
    then decode_doubles offset big bytes
    else if same_bytes id gtbus
    then decode_bus offset big bytes
    else none

-- The bytes of the header behind the offset, if the file has them all, and at least five of them.
abbrev pub header_rest : ℕ → List ℕ → Option (List ℕ)
header_rest offset file =
    if ltb offset 9
    then none
    else (let bytes : List ℕ = take (offset - 9) file in
        if length bytes == offset - 9 && leb 5 (offset - 9) then some bytes else none)

unfoldable pub decode_header : List ℕ → Option Decoded
decode_header (a ∷ b ∷ c ∷ d ∷ e ∷ file) = do
  (offset, file) ← read_be32 file
  bytes ← header_rest offset file
  last ← last? bytes
  big ← read_endian last
  decode_content (a ∷ b ∷ c ∷ d ∷ e ∷ []) offset big bytes
decode_header _ = none
