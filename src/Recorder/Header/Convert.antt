-- ===== src/Recorder/Header/Convert.antt =====
-- packages/+GT/DecodeDataFiles.m: `ConvertHeader` and `GetSizeOfSignal`, which take the signals of a
-- recording from the texts of its header.
use generic_target.Base.{
  ltb, ◌==◌, if◌then◌else◌, length, ℕ, zero, suc, ◌+◌, ◌-◌, ◌*◌, ◌^◌, min, ◌&&◌, ◌||◌, Option, none,
  some, List, [], ◌∷◌, ◌++◌, map,
}
use generic_target.Base.Bytes.{codes, same_bytes}
use generic_target.Recorder.Header.{Decoded}

-- `split` at the commas.
abbrev pub prefixed : ℕ → List (List ℕ) → List (List ℕ)
prefixed b [] = (b ∷ []) ∷ []
prefixed b (part ∷ parts) = (b ∷ part) ∷ parts

unfoldable pub split : List ℕ → List (List ℕ)
split [] = [] ∷ []
split (b ∷ bs) = let rest = split bs in if b == b',' then [] ∷ rest else prefixed b rest

-- `count` of the commas.
unfoldable pub count_commas : List ℕ → ℕ
count_commas [] = 0
count_commas (b ∷ bs) = let rest = count_commas bs in if b == b',' then rest + 1 else rest

-- `strrep` with the empty text for `[` and for `]`.
unfoldable pub without_brackets : List ℕ → List ℕ
without_brackets [] = []
without_brackets (b ∷ bs) =
    let rest = without_brackets bs in if b == b'[' || b == b']' then rest else b ∷ rest

-- `repmat` of a text and a comma, less the last comma.
unfoldable pub comma_list : ℕ → List ℕ → List ℕ
comma_list zero text = []
comma_list (suc zero) text = text
comma_list (suc (suc n)) text = text ++ (b',' ∷ comma_list (suc n) text)

-- The fields that `DecodeHeader` generates: those of scalar doubles are not in the file.
abbrev pub double_text : List ℕ
double_text = b'd' ∷ b'o' ∷ b'u' ∷ b'b' ∷ b'l' ∷ b'e' ∷ []

abbrev pub dimensions_of : Decoded → List ℕ
dimensions_of h = if h.bus then h.dimensions else comma_list h.count (b'[' ∷ b'1' ∷ b']' ∷ [])

abbrev pub data_types_of : Decoded → List ℕ
data_types_of h = if h.bus then h.data_types else comma_list h.count double_text

abbrev pub num_signals_of : Decoded → ℕ
num_signals_of h = if h.bus then count_commas h.data_types + 1 else h.count

pub record Signal : Type 0 where
  pub name : List ℕ
  pub dimension : List ℕ
  pub data_type : List ℕ

abbrev pub prod : List ℕ → ℕ
prod [] = 1
prod (d ∷ ds) = d * prod ds

-- The dimension of one signal: a scalar above 1 is a column, and what has one value is 1.
abbrev pub column : List ℕ → List ℕ
column (d ∷ []) = if ltb 1 d then d ∷ 1 ∷ [] else d ∷ []
column ds = ds

abbrev pub dimension_of : List ℕ → List ℕ
dimension_of ds = if prod (column ds) == 1 then 1 ∷ [] else column ds

abbrev pub signals_of : List (List ℕ) → List (List ℕ) → List (List ℕ) → List Signal
signals_of (n ∷ ns) (d ∷ ds) (t ∷ ts) =
    record { name = n; dimension = d; data_type = t } ∷ signals_of ns ds ts
signals_of _ _ _ = []

-- `str2num` gives the numbers that a text lists; `none` is the error that the lists do not agree.
unfoldable pub convert_header :
    (List ℕ → List ℕ) → List ℕ → List ℕ → List ℕ → ℕ → Option (List Signal)
convert_header str2num labels dimensions data_types num_signals =
    let names = split labels in
    let dims = map (λ t. dimension_of (str2num t)) (split (without_brackets dimensions)) in
    let types = split data_types in
    if length names == length dims && (length names == length types && length names == num_signals)
    then some (signals_of names dims types)
    else none

-- The bytes of one value; 0 is a type that is not known.
unfoldable pub bytes_of_type : List ℕ → ℕ
bytes_of_type t =
    if same_bytes t (codes "boolean")
      || (same_bytes t (codes "logical")
          || (same_bytes t (codes "uint8") || same_bytes t (codes "int8")))
    then 1
    else if same_bytes t (codes "uint16") || same_bytes t (codes "int16")
    then 2
    else if same_bytes t (codes "uint32")
        || (same_bytes t (codes "int32") || same_bytes t (codes "single"))
    then 4
    else if same_bytes t (codes "uint64")
        || (same_bytes t (codes "int64") || same_bytes t (codes "double"))
    then 8
    else 0

-- In the saturating arithmetic of MATLAB's uint64.
unfoldable pub get_size_of_signal : Signal → ℕ
get_size_of_signal g =
    min (min (prod g.dimension) (2 ^ 64 - 1) * bytes_of_type g.data_type) (2 ^ 64 - 1)
