-- ===== src/Recorder/Decode/Doubles.antt =====
-- The signals of a recording of scalar doubles, whose dimensions and types the decoder generates.
use generic_target.Base.{
  ◌==◌, Bool-cases, length, length-map, All, ℕ, zero, suc, ◌*◌, ◌<◌, ◌≡◌, refl, sym, ap, ◌∙◌, inl,
  inr, true, some, List, [], ◌∷◌, map, arith,
}
use generic_target.Recorder.Header.Convert.{
  split, prefixed, without_brackets, comma_list, double_text, Signal, dimension_of, signals_of,
  convert_header, bytes_of_type, get_size_of_signal,
}
use generic_target.Recorder.Decode.Columns.{sum}

abbrev pub double_signal : List ℕ → Signal
double_signal name = record { name = name; dimension = 1 ∷ []; data_type = double_text }

-- `n` times `x`
abbrev times {ℓ} : {A : Type ℓ} → ℕ → A → List A
times zero x = []
times (suc n) x = x ∷ times n x

length-times {ℓ} : {A : Type ℓ} (n : ℕ) (x : A) → length (times n x) ≡ n
length-times zero x = refl
length-times (suc n) x = ap suc (length-times n x)

map-times {ℓ κ} :
    {A : Type ℓ} {B : Type κ} (f : A → B) (n : ℕ) (x : A) → map f (times n x) ≡ times n (f x)
map-times f zero x = refl
map-times f (suc n) x = ap (◌∷◌ (f x)) (map-times f n x)

prefixed-some : (b : ℕ) (parts : List (List ℕ)) → 0 < length (prefixed b parts)
prefixed-some b [] = omega arith
prefixed-some b (p ∷ ps) = omega arith

split-some : (text : List ℕ) → 0 < length (split text)
unfolding split
split-some [] = omega arith
split-some (b ∷ bs) = elim (Bool-cases (b == b',')) [
  | inl e ↦ rw e (omega arith)
  | inr e ↦ rw e (prefixed-some b (split bs))
]

without_brackets-list :
    (n : ℕ) → without_brackets (comma_list n (b'[' ∷ b'1' ∷ b']' ∷ [])) ≡ comma_list n (b'1' ∷ [])
unfolding without_brackets comma_list
without_brackets-list zero = refl
without_brackets-list (suc zero) = refl
without_brackets-list (suc (suc n)) = ap (λ l. b'1' ∷ b',' ∷ l) (without_brackets-list (suc n))

split-ones : (n : ℕ) → split (comma_list (suc n) (b'1' ∷ [])) ≡ times (suc n) (b'1' ∷ [])
unfolding split comma_list
split-ones zero = refl
split-ones (suc n) = ap (◌∷◌ (b'1' ∷ [])) (split-ones n)

split-types : (n : ℕ) → split (comma_list (suc n) double_text) ≡ times (suc n) double_text
unfolding split comma_list
split-types zero = refl
split-types (suc n) = ap (◌∷◌ double_text) (split-types n)

signals_of-times :
    (names : List (List ℕ))
    → signals_of names (times (length names) (1 ∷ [])) (times (length names) double_text)
      ≡ map double_signal names
signals_of-times [] = refl
signals_of-times (n ∷ ns) = ap (◌∷◌ (double_signal n)) (signals_of-times ns)

-- Where the labels are as many as the signals, they are the names of scalar doubles.
pub convert_header-doubles :
    (str2num : List ℕ → List ℕ) (labels : List ℕ) (n : ℕ)
    → str2num (b'1' ∷ []) ≡ 1 ∷ []
    → length (split labels) ≡ n
    → convert_header str2num labels
        (comma_list n (b'[' ∷ b'1' ∷ b']' ∷ []))
        (comma_list n double_text)
        n
      ≡ some (map double_signal (split labels))
unfolding convert_header
convert_header-doubles str2num labels zero one e = absurd (omega (arith, e, split-some labels))
convert_header-doubles str2num labels (suc n) one e =
    let names : List (List ℕ) = split labels in
    let dims : map (λ t. dimension_of (str2num t)) (times (suc n) (b'1' ∷ []))
        ≡ times (suc n) (1 ∷ []) =
      map-times (λ t. dimension_of (str2num t)) (suc n) (b'1' ∷ [])
      ∙ ap (λ d. times (suc n) (dimension_of d)) one in
    let long : length (map (λ t. dimension_of (str2num t)) (times (suc n) (b'1' ∷ []))) ≡ suc n =
      length-map (λ t. dimension_of (str2num t)) (times (suc n) (b'1' ∷ []))
      ∙ length-times (suc n) (b'1' ∷ []) in
    let same : (suc n == suc n) ≡ true = ground arith in
    let all : signals_of names (times (suc n) (1 ∷ [])) (times (suc n) double_text)
        ≡ map double_signal names =
      ap (λ k. signals_of names (times k (1 ∷ [])) (times k double_text)) (sym e)
      ∙ signals_of-times names in
    rw
      (
        without_brackets-list (suc n),
        split-ones n,
        split-types n,
        long,
        dims,
        length-times (suc n) double_text,
        e,
        same,
        all,
      )
      refl

pub size-double : (name : List ℕ) → get_size_of_signal (double_signal name) ≡ 8
unfolding get_size_of_signal bytes_of_type
size-double name = refl

pub sizes-doubles :
    (names : List (List ℕ))
    → sum (map get_size_of_signal (map double_signal names)) ≡ length names * 8
sizes-doubles [] = refl
sizes-doubles (n ∷ ns) = omega (arith, size-double n, sizes-doubles ns)

pub sized-doubles :
    (names : List (List ℕ)) → All (λ g. 0 < get_size_of_signal g) (map double_signal names)
sized-doubles [] = tt
sized-doubles (n ∷ ns) = (omega (arith, size-double n), sized-doubles ns)
