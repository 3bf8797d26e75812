-- ===== src/Recorder/Decode/Recorded.antt =====
-- From the samples that the tasks hand to a recorder to those that the decoder finds in its files.
use generic_target.Base.{
  if◌then◌else◌, Bool-cases, length, All, ℕ, zero, suc, ◌+◌, ◌*◌, ◌^◌, ◌<◌, ◌≡◌, refl, sym, ap, ◌∙◌,
  inl, inr, some, List, [], ◌∷◌, ◌++◌, map, append-nil, arith,
}
use generic_target.Base.Bytes.{IsText}
use generic_target.Recorder.Files.{Disk, Writer, stride_scalar_doubles, stride_bus}
use generic_target.Recorder.Files.Conserve.{all_before, open_part}
use generic_target.Recorder.Files.Flush.{Works}
use generic_target.Recorder.Header.{
  Signals, Decoded, header_scalar_doubles, header_bus, decode_header,
}
use generic_target.Recorder.Header.RoundTrip.{decode-header_scalar_doubles, decode-header_bus}
use generic_target.Recorder.Thread.{System, flushes, flush_buffer, Reach}
use generic_target.Recorder.Thread.Flushing.{flush_complete}
use generic_target.Recorder.Header.Convert.{
  split, count_commas, Signal, dimensions_of, data_types_of, num_signals_of, convert_header,
  get_size_of_signal,
}
use generic_target.Recorder.Decode.{num_bytes_per_sample, saturated, decode_data_files}
use generic_target.Recorder.Decode.Columns.{concat, sum, Widths}
use generic_target.Recorder.Decode.Doubles.{
  double_signal, convert_header-doubles, size-double, sizes-doubles, sized-doubles,
}
use generic_target.Recorder.Decode.Samples.{
  Sample, bytes_of, IsSample, recording, flat, flat-append, decode_data_files-files,
}

module _ {ℓ} {A : Type ℓ} where
  -- The bodies of the files with a number below `n`.
  abbrev pub numbered : ℕ → (ℕ → List A) → List (List A)
  numbered zero f = []
  numbered (suc n) f = numbered n f ++ (f n ∷ [])

  -- The bodies of all files, that of the open file last.
  abbrev pub bodies : Writer A → List (List A)
  bodies u =
      numbered u.current_file_number u.body
      ++ (if u.current_file_started then u.body u.current_file_number ∷ [] else [])

  -- The data files: the header, and the values in the bytes that `f` gives each.
  abbrev pub data_files : List ℕ → (A → List ℕ) → Writer A → List (List ℕ)
  data_files header f u = map (λ b. header ++ flat f b) (bodies u)

  flat-numbered :
      (f : A → List ℕ) (n : ℕ) (g : ℕ → List A)
      → flat (flat f) (numbered n g) ≡ flat f (all_before n g)
  unfolding all_before
  flat-numbered f zero g = refl
  flat-numbered f (suc n) g =
      flat-append (flat f) (numbered n g) (g n ∷ [])
      ∙ simp (flat-numbered f n g, flat-append f (all_before n g) (g n), append-nil)

  flat-bodies :
      (f : A → List ℕ) (u : Writer A)
      → flat (flat f) (bodies u) ≡ flat f (all_before u.current_file_number u.body ++ open_part u)
  flat-bodies f u = elim (Bool-cases u.current_file_started) [
    | inl e ↦
        rw
          (
            e,
            flat-append (flat f) (numbered u.current_file_number u.body)
                (u.body u.current_file_number ∷ []),
            flat-append f (all_before u.current_file_number u.body) (u.body u.current_file_number),
            flat-numbered f u.current_file_number u.body,
            append-nil,
          )
          refl
    | inr e ↦ rw (e, append-nil, append-nil, flat-numbered f u.current_file_number u.body) refl
  ]

  flat-map :
      (f : A → List ℕ) (bs : List (List A)) → flat (λ b. b) (map (flat f) bs) ≡ flat (flat f) bs
  flat-map f [] = refl
  flat-map f (b ∷ bs) = ap (λ l. flat f b ++ l) (flat-map f bs)

  map-flat :
      (header : List ℕ) (f : A → List ℕ) (bs : List (List A))
      → map (λ b. header ++ b) (map (flat f) bs) ≡ map (λ b. header ++ flat f b) bs
  map-flat header f [] = refl
  map-flat header f (b ∷ bs) = ap (◌∷◌ (header ++ flat f b)) (map-flat header f bs)

  -- The files of a recorder that has been stopped, where its header is decoded to `h`.
  module _ (f : A → List ℕ) (header : List ℕ) (h : Decoded)
      (reads : (body : List ℕ) → decode_header (header ++ body) ≡ some h)
      (offset : h.offset_sample_data ≡ length header) where
    decode-data_files :
        (u : Writer A) (str2num : List ℕ → List ℕ) (gs : List Signal) (k : ℕ) (xs : List Sample)
        (accepted : List A)
        → all_before u.current_file_number u.body ++ open_part u ≡ accepted
        → convert_header str2num h.labels (dimensions_of h) (data_types_of h) (num_signals_of h)
          ≡ some gs
        → num_bytes_per_sample h ≡ k
        → sum (map get_size_of_signal gs) ≡ k
        → k + 8 < 2 ^ 32
        → All (λ g. 0 < get_size_of_signal g) gs
        → All (IsSample gs) xs
        → 0 < length xs
        → flat f accepted ≡ bytes_of xs
        → decode_data_files str2num (data_files header f u) ≡ some (recording gs xs)
    decode-data_files u str2num gs k xs accepted e lists c total small sized v not_empty g =
        ap (decode_data_files str2num) (sym (map-flat header f (bodies u)))
        ∙ decode_data_files-files header h reads offset str2num gs k (map (flat f) (bodies u)) xs
            lists c total small sized v not_empty
            (flat-map f (bodies u) ∙ flat-bodies f u ∙ ap (flat f) e ∙ g)

abbrev pub one_byte : ℕ → List ℕ
one_byte b = b ∷ []

flat-one_byte : (bs : List ℕ) → flat one_byte bs ≡ bs
flat-one_byte [] = refl
flat-one_byte (b ∷ bs) = ap (◌∷◌ b) (flat-one_byte bs)

-- What the recorder of a bus has accepted by the time `Stop` flushes it, as samples of a timestamp
-- and the signals of the bus, is what the decoder finds in its data files behind the flush: the
-- timestamps, and the values of each signal under its name, in the same order, however the writing
-- task, the recorder thread and `Stop` were interleaved and over however many files. There is at least
-- one sample; `ConvertHeader` accepts the lists in the texts of the header, and the sizes that they
-- give the signals are positive and add up to the bytes of a sample. The file system works, the texts
-- hold no zero byte, and the sizes fit in 32 bits.
pub decode-bus_recording :
    (first n : ℕ) (g : Signals) (d : Disk) (str2num : List ℕ → List ℕ) (gs : List Signal)
    {s : System ℕ} (xs : List Sample)
    → Works d
    → IsText g.labels
    → IsText g.dimensions
    → IsText g.data_types
    → length g.labels + length g.dimensions + length g.data_types + 17 < 2 ^ 32
    → g.num_bytes_per_sample + 8 < 2 ^ 32
    → convert_header str2num g.labels g.dimensions g.data_types (count_commas g.data_types + 1)
      ≡ some gs
    → All (λ x. 0 < get_size_of_signal x) gs
    → sum (map get_size_of_signal gs) ≡ g.num_bytes_per_sample
    → Reach (stride_bus g.num_bytes_per_sample) n d s
    → s.owner ≡ flushes
    → length s.accepted < 2 ^ 32
    → All (IsSample gs) xs
    → 0 < length xs
    → s.accepted ≡ bytes_of xs
    → decode_data_files str2num (
        data_files
          (header_bus first g)
          one_byte
          (flush_buffer (stride_bus g.num_bytes_per_sample) n d s).0.writer)
      ≡ some (recording gs xs)
unfolding stride_bus
decode-bus_recording first n g d str2num gs {s} xs works labels dimensions types texts size lists
      sized total r at_flush small v not_empty e =
    let w = stride_bus g.num_bytes_per_sample in
    let f = flush_complete w n d works (omega (arith, size)) r small at_flush in
    decode-data_files one_byte (header_bus first g) _
      (decode-header_bus first g labels dimensions types texts (omega arith)) refl
      (flush_buffer w n d s).0.writer str2num gs g.num_bytes_per_sample xs s.accepted f.1 lists refl
      total size sized v not_empty (flat-one_byte s.accepted ∙ e)

-- A sample of scalar doubles, and the bytes that `double` gives each value.
abbrev pub values_of {ℓ} : {A : Type ℓ} → List (A × List A) → List A
values_of [] = []
values_of ((t, v) ∷ xs) = (t ∷ v) ++ values_of xs

module _ {ℓ} {A : Type ℓ} (double : A → List ℕ) where
  abbrev pub sample_of : A × List A → Sample
  sample_of (t, v) = record { timestamp = double t; signals = map double v }

  concat-map : (v : List A) → concat (map double v) ≡ flat double v
  concat-map [] = refl
  concat-map (x ∷ v) = ap (λ l. double x ++ l) (concat-map v)

  flat-values_of :
      (xs : List (A × List A)) → flat double (values_of xs) ≡ bytes_of (map sample_of xs)
  flat-values_of [] = refl
  flat-values_of ((t, v) ∷ xs) =
      ap (λ l. double t ++ l)
        (flat-append double v (values_of xs)
          ∙ ap (λ l. l ++ flat double (values_of xs)) (sym (concat-map v))
          ∙ ap (λ l. concat (map double v) ++ l) (flat-values_of xs))

  module _ (eight : (x : A) → length (double x) ≡ 8) where
    Widths-doubles :
        (names : List (List ℕ)) (v : List A)
        → length v ≡ length names
        → Widths (map get_size_of_signal (map double_signal names)) (map double v)
    Widths-doubles [] [] e = tt
    Widths-doubles [] (x ∷ v) e = absurd (omega (arith, e))
    Widths-doubles (n ∷ ns) [] e = absurd (omega (arith, e))
    Widths-doubles (n ∷ ns) (x ∷ v) e =
        (eight x ∙ sym (size-double n), Widths-doubles ns v (omega (arith, e)))

    sample_of-IsSample :
        (names : List (List ℕ)) (xs : List (A × List A))
        → All (λ x. length x.1 ≡ length names) xs
        → All (IsSample (map double_signal names)) (map sample_of xs)
    sample_of-IsSample names [] h = tt
    sample_of-IsSample names ((t, v) ∷ xs) (e, h) =
        ((eight t, Widths-doubles names v e), sample_of-IsSample names xs h)

    sample_of-some : (xs : List (A × List A)) → 0 < length xs → 0 < length (map sample_of xs)
    sample_of-some [] h = h
    sample_of-some (x ∷ xs) h = omega arith

    -- The same for the recorder of scalar doubles, where `double` gives the eight bytes of a double
    -- in memory: the decoder finds the bytes of each timestamp, and for each label those of its
    -- values. There is at least one sample, the labels are as many as the signals and hold no zero
    -- byte, and `str2num` reads the text "1" as the number 1.
    pub decode-doubles_recording :
        (first n : ℕ) (g : Signals) (d : Disk) (str2num : List ℕ → List ℕ) {s : System A}
        (xs : List (A × List A))
        → Works d
        → IsText g.labels
        → length g.labels + 15 < 2 ^ 32
        → g.num_signals * 8 + 8 < 2 ^ 32
        → length (split g.labels) ≡ g.num_signals
        → str2num (b'1' ∷ []) ≡ 1 ∷ []
        → Reach (stride_scalar_doubles g.num_signals) n d s
        → s.owner ≡ flushes
        → length s.accepted < 2 ^ 32
        → All (λ x. length x.1 ≡ length (split g.labels)) xs
        → 0 < length xs
        → s.accepted ≡ values_of xs
        → decode_data_files str2num (
            data_files
              (header_scalar_doubles first g)
              double
              (flush_buffer (stride_scalar_doubles g.num_signals) n d s).0.writer)
          ≡ some (recording (map double_signal (split g.labels)) (map sample_of xs))
    unfolding stride_scalar_doubles
    decode-doubles_recording first n g d str2num {s} xs works labels texts size names one r at_flush
          small v not_empty e =
        let w = stride_scalar_doubles g.num_signals in
        let f = flush_complete w n d works (omega (arith, size)) r small at_flush in
        let eight_bytes : saturated (g.num_signals * 8) ≡ g.num_signals * 8 = omega (arith, size) in
        decode-data_files double (header_scalar_doubles first g) _
          (decode-header_scalar_doubles first g labels texts (omega (arith, size))) refl
          (flush_buffer w n d s).0.writer str2num (map double_signal (split g.labels))
          (g.num_signals * 8) (map sample_of xs) s.accepted f.1
          (convert_header-doubles str2num g.labels g.num_signals one names) eight_bytes
          (sizes-doubles (split g.labels) ∙ ap (λ k. k * 8) names) size
          (sized-doubles (split g.labels)) (sample_of-IsSample (split g.labels) xs v)
          (sample_of-some xs not_empty) (ap (flat double) e ∙ flat-values_of xs)
