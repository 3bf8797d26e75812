-- ===== src/Recorder/Decode/Tests.antt =====
-- A recording of one sample, decoded, and the theorems about recordings at concrete inputs.
use generic_target.Base.{
  ◌==◌, ℕ, ◌+◌, ◌≡◌, refl, Bool, true, not, ◌&&◌, none, some, List, [], ◌∷◌, map, arith,
}
use generic_target.Base.Bytes.{IsText, codes}
use generic_target.Recorder.Files.{Disk, stride_scalar_doubles, stride_bus}
use generic_target.Recorder.Files.Flush.{Works}
use generic_target.Recorder.Header.{Signals, header_scalar_doubles, header_bus}
use generic_target.Recorder.Thread.{
  System, done, flushes, begin, write, flush_buffer, put_back, Reach, here, next, write_move,
  notify, loop_off, stop, stop_notify, back_move, join,
}
use generic_target.Base.Decimal.{read_decimal}
use generic_target.Recorder.Header.Convert.{
  Signal, split, count_commas, without_brackets, convert_header, bytes_of_type, get_size_of_signal,
}
use generic_target.Recorder.Decode.{decode_data_files}
use generic_target.Recorder.Decode.Samples.{Sample}
use generic_target.Recorder.Decode.Recorded.{
  data_files, one_byte, decode-bus_recording, decode-doubles_recording,
}

abbrev disk : Disk
disk = record {
  header = λ _. true;
  append = λ _. true;
  write_fails = λ _. none;
  close_fails = λ _. none;
}

disk-Works : Works disk
disk-Works = record {
  header = λ _. refl;
  append = λ _. refl;
  writes = λ _. refl;
  closes = λ _. refl;
}

-- The sample `x` is still in the shared buffer when `Stop` comes to flush it.
abbrev with_sample : List ℕ → System ℕ
with_sample x = record begin { buffer = x; accepted = x; worker = done; owner = flushes }

-- A text without zero bytes, by evaluation.
abbrev no_zero : List ℕ → Bool
no_zero [] = true
no_zero (b ∷ bs) = not (b == 0) && no_zero bs

no_zero-IsText : (text : List ℕ) → no_zero text ≡ true → IsText text
no_zero-IsText [] h = tt
no_zero-IsText (b ∷ bs) h = (ground (arith, h), no_zero-IsText bs (ground (arith, h)))

-- The number at the front of a text.
abbrev str2num : List ℕ → List ℕ
str2num text = (read_decimal 0 text).0 ∷ []

-- A byte, and an array of two.
abbrev one_bus : Signals
one_bus = record {
  num_signals = 2;
  num_bytes_per_sample = 3;
  labels = codes "a,b";
  dimensions = codes "1,[2]";
  data_types = codes "uint8,int8";
}

abbrev bus_signals : List Signal
bus_signals =
    record { name = codes "a"; dimension = 1 ∷ []; data_type = codes "uint8" }
    ∷ record { name = codes "b"; dimension = 2 ∷ 1 ∷ []; data_type = codes "int8" }
    ∷ []

bus_lists :
    convert_header str2num one_bus.labels one_bus.dimensions one_bus.data_types
      (count_commas one_bus.data_types + 1)
    ≡ some bus_signals
unfolding convert_header split without_brackets count_commas read_decimal
bus_lists = refl

-- A label too much.
too_many_labels :
    convert_header str2num (codes "a,b,c") one_bus.dimensions one_bus.data_types 2 ≡ none
unfolding convert_header split without_brackets read_decimal
too_many_labels = refl

sizes : map get_size_of_signal bus_signals ≡ 1 ∷ 2 ∷ []
unfolding get_size_of_signal bytes_of_type
sizes = refl

abbrev bus_bytes : List ℕ
bus_bytes = 0 ∷ 1 ∷ 2 ∷ 3 ∷ 4 ∷ 5 ∷ 6 ∷ 7 ∷ 9 ∷ 10 ∷ 11 ∷ []

abbrev bus_sample : Sample
bus_sample = record {
  timestamp = 0 ∷ 1 ∷ 2 ∷ 3 ∷ 4 ∷ 5 ∷ 6 ∷ 7 ∷ [];
  signals = (9 ∷ []) ∷ (10 ∷ 11 ∷ []) ∷ [];
}

bus_reached : Reach (stride_bus 3) 4 disk (with_sample bus_bytes)
unfolding stride_bus write put_back
bus_reached =
    next
      (next
        (next
          (next (next (next (next here (write_move bus_bytes refl)) (notify refl)) (stop refl))
            (loop_off refl refl))
          (stop_notify refl))
        (back_move refl))
      (join refl refl)

decode-bus_recording_example :
    decode_data_files str2num (
      data_files
        (header_bus 0 one_bus)
        one_byte
        (flush_buffer (stride_bus 3) 4 disk (with_sample bus_bytes)).0.writer)
    ≡ some (record {
      timestamps = (0 ∷ 1 ∷ 2 ∷ 3 ∷ 4 ∷ 5 ∷ 6 ∷ 7 ∷ []) ∷ [];
      signals =
          record { name = codes "a"; values = (9 ∷ []) ∷ [] }
          ∷ record { name = codes "b"; values = (10 ∷ 11 ∷ []) ∷ [] }
          ∷ [];
    })
unfolding get_size_of_signal bytes_of_type
decode-bus_recording_example =
    decode-bus_recording 0 4 one_bus disk str2num bus_signals (bus_sample ∷ []) disk-Works
      (no_zero-IsText one_bus.labels refl) (no_zero-IsText one_bus.dimensions refl)
      (no_zero-IsText one_bus.data_types refl) (omega arith) (omega arith) bus_lists
      (omega arith, (omega arith, tt)) refl bus_reached refl (omega arith)
      ((refl, (refl, (refl, tt))), tt) (omega arith) refl

-- Doubles that are told apart by the first of their bytes.
abbrev eight_bytes : ℕ → List ℕ
eight_bytes x = x ∷ 0 ∷ 0 ∷ 0 ∷ 0 ∷ 0 ∷ 0 ∷ 0 ∷ []

doubles_reached : Reach (stride_scalar_doubles 1) 4 disk (with_sample (5 ∷ 6 ∷ []))
unfolding stride_scalar_doubles write put_back
doubles_reached =
    next
      (next
        (next
          (next (next (next (next here (write_move (5 ∷ 6 ∷ []) refl)) (notify refl)) (stop refl))
            (loop_off refl refl))
          (stop_notify refl))
        (back_move refl))
      (join refl refl)

abbrev one_double : Signals
one_double = record {
  num_signals = 1;
  num_bytes_per_sample = 8;
  labels = codes "a";
  dimensions = [];
  data_types = [];
}

decode-doubles_recording_example :
    decode_data_files str2num (
      data_files
        (header_scalar_doubles 0 one_double)
        eight_bytes
        (flush_buffer (stride_scalar_doubles 1) 4 disk (with_sample (5 ∷ 6 ∷ []))).0.writer)
    ≡ some (record {
      timestamps = eight_bytes 5 ∷ [];
      signals = record { name = codes "a"; values = eight_bytes 6 ∷ [] } ∷ [];
    })
unfolding split read_decimal
decode-doubles_recording_example =
    decode-doubles_recording eight_bytes (λ x. refl) 0 4 one_double disk str2num ((5, 6 ∷ []) ∷ [])
      disk-Works (no_zero-IsText one_double.labels refl) (omega arith) (omega arith) refl refl
      doubles_reached refl (omega arith) (refl, tt) (omega arith) refl
