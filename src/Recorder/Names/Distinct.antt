-- ===== src/Recorder/Names/Distinct.antt =====
-- No two data files have one name.
use generic_target.Base.{
  ◌==◌, All, All-append, ℕ, ◌≡◌, refl, sym, ap, ◌∙◌, ◌≢◌, false, List, [], ◌∷◌, ◌++◌, append_assoc,
  append-nil, arith,
}
use generic_target.Base.Decimal.{IsDigit, decimal}
use generic_target.Base.Texts.{Free, not_split, split_inj, append_cancel, decimal-Free, decimal_inj}
use generic_target.Recorder.Manager.{convert_to_valid_id, is_valid_character}
use generic_target.Recorder.Names.{
  prefix, join_path, index_name, recorder_filename, current_filename, index_filename,
}

digit-ne-underscore : (d : ℕ) → IsDigit d → d ≢ b'_'
digit-ne-underscore d h e = omega (arith, h.0, h.1)

pub digit-ne-slash : (d : ℕ) → IsDigit d → d ≢ b'/'
digit-ne-slash d h e = omega (arith, h.0, h.1)

-- An id names no other directory.
convert_to_valid_id-Free : (cs : List ℕ) → Free b'/' (convert_to_valid_id cs)
unfolding convert_to_valid_id is_valid_character
convert_to_valid_id-Free [] = tt
convert_to_valid_id-Free (c ∷ cs) = (ground arith, convert_to_valid_id-Free cs)

pub join_path-Free :
    (directory id : List ℕ) → Free b'/' id → join_path directory id ≡ prefix directory ++ id
join_path-Free directory [] h = sym (append-nil (prefix directory))
join_path-Free directory (c ∷ cs) h = let e : (c == b'/') ≡ false = ground arith in rw e refl

-- The file of the recorder with the id that the characters `cs` give.
abbrev pub data_file : List ℕ → List ℕ → ℕ → List ℕ
data_file directory cs n = current_filename (recorder_filename directory (convert_to_valid_id cs)) n

data_file-prefix :
    (directory cs : List ℕ) (n : ℕ)
    → data_file directory cs n ≡ prefix directory ++ (convert_to_valid_id cs ++ (b'_' ∷ decimal n))
unfolding current_filename recorder_filename
data_file-prefix directory cs n =
    ap (λ l. l ++ (b'_' ∷ decimal n))
      (join_path-Free directory (convert_to_valid_id cs) (convert_to_valid_id-Free cs))
    ∙ append_assoc (prefix directory) (convert_to_valid_id cs) (b'_' ∷ decimal n)

-- Two data files of one directory have the same name only if they are the same file of the same
-- recorder, none has the name of the index file, and each lies in the directory itself, whatever
-- the characters are of which the ids are made.
pub data_file_names :
    (directory a b : List ℕ) (m n : ℕ)
    → (data_file directory a m ≡ data_file directory b n
        → (convert_to_valid_id a ≡ convert_to_valid_id b) × (m ≡ n))
      × (data_file directory a m ≢ index_filename directory)
      × ((rest : List ℕ) × (data_file directory a m ≡ prefix directory ++ rest)
          × All (λ c. c ≢ b'/') rest)
unfolding index_filename
data_file_names directory a b m n = (
  λ e.
      let (p, q) =
        split_inj b'_' (convert_to_valid_id a) (convert_to_valid_id b) (decimal m) (decimal n)
          (decimal-Free b'_' m digit-ne-underscore) (decimal-Free b'_' n digit-ne-underscore)
          (append_cancel (prefix directory) _ _
            (sym (data_file-prefix directory a m) ∙ e ∙ data_file-prefix directory b n)) in
      (p, decimal_inj m n q),
  λ e.
      not_split b'_' (convert_to_valid_id a) (decimal m) index_name (omega arith)
        (sym (append_cancel (prefix directory) _ _ (sym (data_file-prefix directory a m) ∙ e))),
  (
    convert_to_valid_id a ++ (b'_' ∷ decimal m),
    data_file-prefix directory a m,
    All-append (λ c. c ≢ b'/') (convert_to_valid_id a) (b'_' ∷ decimal m)
        (convert_to_valid_id-Free a) (omega arith, decimal-Free b'/' m digit-ne-slash),
  ),
)
