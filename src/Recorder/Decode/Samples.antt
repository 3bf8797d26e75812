-- ===== src/Recorder/Decode/Samples.antt =====
-- The decoder of data files on files that share a header.
use generic_target.Base.{
  length, length-append, drop-append, All, ℕ, suc, ◌+◌, ◌*◌, ◌/◌, ◌^◌, ◌<◌, ◌≡◌, refl, sym, ap, ◌∙◌,
  true, some, List, [], ◌∷◌, ◌++◌, map, append_assoc, arith,
}
use generic_target.Base.Bytes.{same_bytes}
use generic_target.Recorder.Header.{Decoded, decode_header}
use generic_target.Recorder.Header.Convert.{
  Signal, dimensions_of, data_types_of, num_signals_of, convert_header, get_size_of_signal,
}
use generic_target.Recorder.Decode.{
  Recording, num_bytes_per_sample, same_header, sample_bytes, decode_samples, decode_data_files,
  bytes_at, decode_signals, saturated,
}
use generic_target.Recorder.Decode.Columns.{
  concat, sum, Widths, columns, Row, IsRow, raw, length-concat, length-map, map-map,
  bytes_at-timestamps, decode_signals-raw,
}

-- What the tasks hand over at a time: the timestamp and the bytes of each signal.
pub record Sample : Type 0 where
  pub timestamp : List ℕ
  pub signals : List (List ℕ)

-- The bytes of the samples, one behind the other.
abbrev pub bytes_of : List Sample → List ℕ
bytes_of [] = []
bytes_of (x ∷ xs) = x.timestamp ++ (concat x.signals ++ bytes_of xs)

-- A timestamp of eight bytes, and the signals in the sizes that the header gives them.
abbrev pub IsSample : List Signal → Sample → Type 0
IsSample gs x = (length x.timestamp ≡ 8) × Widths (map get_size_of_signal gs) x.signals

-- The samples as the decoder shows them: the timestamps, and the values of each signal.
abbrev pub recording : List Signal → List Sample → Recording
recording gs xs = record {
  timestamps = map (λ x. x.timestamp) xs;
  signals = columns gs (map (λ x. x.signals) xs);
}

suc_mul : (a b : ℕ) → suc a * b ≡ a * b + b
suc_mul a b = grind arith

mul_div : (a w : ℕ) → 0 < w → a * w / w ≡ a
mul_div a w h = grind arith

pub length-bytes_of :
    (gs : List Signal) (n : ℕ) (xs : List Sample)
    → sum (map get_size_of_signal gs) ≡ n
    → All (IsSample gs) xs
    → length (bytes_of xs) ≡ length xs * (8 + n)
length-bytes_of gs n [] e h = omega arith
length-bytes_of gs n (x ∷ xs) e ((t, s), h) = omega (
  arith,
  length-append {0} x.timestamp (concat x.signals ++ bytes_of xs),
  length-append {0} (concat x.signals) (bytes_of xs),
  length-concat (map get_size_of_signal gs) x.signals s,
  e,
  length-bytes_of gs n xs e h,
  suc_mul (length xs) (8 + n),
)

-- The samples before anything is read of them, and behind their timestamps.
abbrev unread : List Sample → List (List (List ℕ))
unread xs = map (λ x. x.timestamp ∷ x.signals) xs

abbrev timed : List Sample → List Row
timed xs = map (λ x. (x.timestamp, x.signals)) xs

raw-unread : (xs : List Sample) → raw (map (λ r. ([], r)) (unread xs)) ≡ bytes_of xs
raw-unread [] = refl
raw-unread (x ∷ xs) =
    append_assoc x.timestamp (concat x.signals) (raw (map (λ r. ([], r)) (unread xs)))
    ∙ ap (λ l. x.timestamp ++ (concat x.signals ++ l)) (raw-unread xs)

raw-timed : (xs : List Sample) → raw (timed xs) ≡ bytes_of xs
raw-timed [] = refl
raw-timed (x ∷ xs) =
    append_assoc x.timestamp (concat x.signals) (raw (timed xs))
    ∙ ap (λ l. x.timestamp ++ (concat x.signals ++ l)) (raw-timed xs)

timed-IsRow :
    (gs : List Signal) (xs : List Sample)
    → All (IsSample gs) xs
    → All (IsRow 8 (map get_size_of_signal gs)) (timed xs)
timed-IsRow gs [] h = tt
timed-IsRow gs (x ∷ xs) (v, h) = (v, timed-IsRow gs xs h)

unread-Widths :
    (gs : List Signal) (xs : List Sample)
    → All (IsSample gs) xs
    → All (Widths (8 ∷ map get_size_of_signal gs)) (unread xs)
unread-Widths gs [] h = tt
unread-Widths gs (x ∷ xs) (v, h) = (v, unread-Widths gs xs h)

module _ (gs : List Signal) (w : ℕ) (xs : List Sample)
    (sized : 8 + sum (map get_size_of_signal gs) ≡ w) (v : All (IsSample gs) xs) where
  timestamps-bytes_of : bytes_at w 0 8 (length xs) (bytes_of xs) ≡ some (map (λ x. x.timestamp) xs)
  timestamps-bytes_of =
      ap (λ n. bytes_at w 0 8 n (bytes_of xs)) (sym (length-map (λ x. x.timestamp ∷ x.signals) xs))
      ∙ ap (bytes_at w 0 8 (length (unread xs))) (sym (raw-unread xs))
      ∙ bytes_at-timestamps w 8 (map get_size_of_signal gs) (unread xs) sized
          (unread-Widths gs xs v)
      ∙ ap some (map-map _ (λ x. x.timestamp ∷ x.signals) xs)

  signals-bytes_of :
      All (λ g. 0 < get_size_of_signal g) gs
      → decode_signals w (length xs) (bytes_of xs) 8 gs
        ≡ some (columns gs (map (λ x. x.signals) xs))
  signals-bytes_of p =
      ap (λ n. decode_signals w n (bytes_of xs) 8 gs)
        (sym (length-map (λ x. (x.timestamp, x.signals)) xs))
      ∙ ap (λ l. decode_signals w (length (timed xs)) l 8 gs) (sym (raw-timed xs))
      ∙ decode_signals-raw w 8 gs (timed xs) p sized (timed-IsRow gs xs v)
      ∙ ap (λ l. some (columns gs l)) (map-map _ (λ x. (x.timestamp, x.signals)) xs)

-- The samples are read back from their bytes, where their sizes are those of the header.
decode_samples-bytes_of :
    (h : Decoded) (gs : List Signal) (n : ℕ) (xs : List Sample)
    → num_bytes_per_sample h ≡ n
    → sum (map get_size_of_signal gs) ≡ n
    → n + 8 < 2 ^ 32
    → All (λ g. 0 < get_size_of_signal g) gs
    → All (IsSample gs) xs
    → decode_samples h gs (bytes_of xs) ≡ some (recording gs xs)
unfolding decode_samples
decode_samples-bytes_of h gs n xs e total small p v =
    let wide : saturated (8 + n) ≡ 8 + n = omega arith in
    let many : length (bytes_of xs) / (8 + n) ≡ length xs =
      ap (λ k. k / (8 + n)) (length-bytes_of gs n xs total v)
      ∙ mul_div (length xs) (8 + n) (omega arith) in
    rw
      (
        e,
        many,
        wide,
        timestamps-bytes_of gs (8 + n) xs (ap (λ k. 8 + k) total) v,
        signals-bytes_of gs (8 + n) xs (ap (λ k. 8 + k) total) v p,
      )
      refl

same_bytes_self : (xs : List ℕ) → same_bytes xs xs ≡ true
same_bytes_self [] = refl
same_bytes_self (x ∷ xs) = ground (arith, same_bytes_self xs)

same_header_self : (h : Decoded) → same_header h h ≡ true
unfolding same_header
same_header_self h =
    ground
      (arith, same_bytes_self h.labels, same_bytes_self h.dimensions, same_bytes_self h.data_types)

-- All elements, each as the bytes `f` gives it.
abbrev pub flat {ℓ} : {A : Type ℓ} → (A → List ℕ) → List A → List ℕ
flat f [] = []
flat f (x ∷ xs) = f x ++ flat f xs

pub flat-append {ℓ} :
    {A : Type ℓ} (f : A → List ℕ) (xs ys : List A) → flat f (xs ++ ys) ≡ flat f xs ++ flat f ys
flat-append f [] ys = refl
flat-append f (x ∷ xs) ys = simp (flat-append f xs ys, append_assoc)

-- Files that begin with the header that is decoded to `h`.
module _ (header : List ℕ) (h : Decoded)
    (reads : (body : List ℕ) → decode_header (header ++ body) ≡ some h)
    (offset : h.offset_sample_data ≡ length header) where
  sample_bytes-files :
      (bodies : List (List ℕ))
      → sample_bytes h (map (λ b. header ++ b) bodies) ≡ some (flat (λ b. b) bodies)
  unfolding sample_bytes
  sample_bytes-files [] = refl
  sample_bytes-files (b ∷ bs) =
      rw (reads b, sample_bytes-files bs, same_header_self h, offset, drop-append header b) refl

  pub decode_data_files-files :
      (str2num : List ℕ → List ℕ) (gs : List Signal) (n : ℕ) (bodies : List (List ℕ))
      (xs : List Sample)
      → convert_header str2num h.labels (dimensions_of h) (data_types_of h) (num_signals_of h)
        ≡ some gs
      → num_bytes_per_sample h ≡ n
      → sum (map get_size_of_signal gs) ≡ n
      → n + 8 < 2 ^ 32
      → All (λ g. 0 < get_size_of_signal g) gs
      → All (IsSample gs) xs
      → 0 < length xs
      → flat (λ b. b) bodies ≡ bytes_of xs
      → decode_data_files str2num (map (λ b. header ++ b) bodies) ≡ some (recording gs xs)
  unfolding decode_data_files
  decode_data_files-files str2num gs n [] [] c e total small p v some_sample f =
      absurd (omega (arith, some_sample))
  decode_data_files-files str2num gs n [] (x ∷ xs) c e total small p v some_sample f = absurd (
      omega (
        arith,
        length-bytes_of gs n (x ∷ xs) total v,
        ap (length {0}) f,
        suc_mul (length xs) (8 + n),
      ))
  decode_data_files-files str2num gs n (b ∷ bs) xs c e total small p v some_sample f =
      rw
        (
          reads b,
          sample_bytes-files (b ∷ bs),
          f,
          c,
          decode_samples-bytes_of h gs n xs e total small p v,
        )
        refl
