-- ===== src/Recorder/Manager.antt =====
-- library/drivers/GT_DriverImplementationDetails.cpp: `DataRecorderManager`, its recorders by id and
-- the names of their files.
pub mod Ids
pub mod Tests
use generic_target.Base.{
  leb, ◌==◌, if◌then◌else◌, ℕ, Bool, true, false, not, ◌&&◌, ◌||◌, List, [], ◌∷◌, ◌++◌,
}
use generic_target.Base.Bytes.{same_bytes}

-- `ConvertToPrintableString`
unfoldable pub convert_to_printable_string : List ℕ → List ℕ
convert_to_printable_string [] = []
convert_to_printable_string (c ∷ cs) =
    let rest : List ℕ = convert_to_printable_string cs in
    if leb b' ' c && leb c b'~' then c ∷ rest else rest

unfoldable pub is_valid_character : ℕ → Bool
is_valid_character c =
    (leb b'A' c && leb c b'Z')
    || ((leb b'a' c && leb c b'z') || ((leb b'0' c && leb c b'9') || (c == b'_' || c == b'-')))

-- `ConvertToValidID`
unfoldable pub convert_to_valid_id : List ℕ → List ℕ
convert_to_valid_id [] = []
convert_to_valid_id (c ∷ cs) = (if is_valid_character c then c else b'_') ∷ convert_to_valid_id cs

-- The settings of a recorder.
pub record Settings : Type 0 where
  pub num_samples_per_file : ℕ
  pub num_signals : ℕ
  pub num_bytes_per_sample : ℕ
  pub labels : List ℕ
  pub dimensions : List ℕ
  pub data_types : List ℕ

-- A recorder: whether it writes a bus, whether its thread runs, and the samples that `Write` has
-- handed to it, the latest first.
pub record DataRecorder : Type 0 where
  pub bus : Bool
  pub settings : Settings
  pub started : Bool
  pub written : List (List ℕ)

abbrev pub new_recorder : Bool → DataRecorder
new_recorder bus = record {
  bus = bus;
  settings = record {
    num_samples_per_file = 0;
    num_signals = 0;
    num_bytes_per_sample = 0;
    labels = [];
    dimensions = [];
    data_types = [];
  };
  started = false;
  written = [];
}

-- The setters of `DataRecorderBase`, which leave a recorder that has been started alone.
abbrev pub change : (Settings → Settings) → DataRecorder → DataRecorder
change f r = if not r.started then record r { settings = f r.settings } else r

unfoldable pub set_num_samples_per_file : ℕ → DataRecorder → DataRecorder
set_num_samples_per_file n = change (λ s. record s { num_samples_per_file = n })

unfoldable pub set_num_signals : ℕ → DataRecorder → DataRecorder
set_num_signals n = change (λ s. record s { num_signals = n })

unfoldable pub set_num_bytes_per_sample : ℕ → DataRecorder → DataRecorder
set_num_bytes_per_sample n = change (λ s. record s { num_bytes_per_sample = n })

unfoldable pub set_labels : List ℕ → DataRecorder → DataRecorder
set_labels l = change (λ s. record s { labels = l })

unfoldable pub set_dimensions : List ℕ → DataRecorder → DataRecorder
set_dimensions l = change (λ s. record s { dimensions = l })

unfoldable pub set_data_types : List ℕ → DataRecorder → DataRecorder
set_data_types l = change (λ s. record s { data_types = l })

-- `Start`, where `ok` is whether the thread got its priority, and `Stop`.
unfoldable pub stop_recorder : DataRecorder → DataRecorder
stop_recorder r = record r { started = false }

unfoldable pub start_recorder : Bool → DataRecorder → DataRecorder × Bool
start_recorder ok r =
    let t : DataRecorder = stop_recorder r in
    if ok then (record t { started = true }, true) else (stop_recorder t, false)

pub record RecorderEntry : Type 0 where
  pub id : List ℕ
  pub recorder : DataRecorder

-- The answers of the system to a call of `Add`: the directory, the start of the recorder's thread,
-- and the index file.
pub record AddAnswers : Type 0 where
  pub make_directory : Bool
  pub start : Bool
  pub write_index : Bool

unfoldable pub is_registered : List ℕ → List RecorderEntry → Bool
is_registered id [] = false
is_registered id (e ∷ es) = same_bytes e.id id || is_registered id es

-- The part that `AddDataRecorderScalarDoubles` and `AddDataRecorderBus` share, for a recorder whose
-- setters have been called.
unfoldable pub add_recorder :
    AddAnswers → List ℕ → DataRecorder → List RecorderEntry → List RecorderEntry × Bool
add_recorder a characters recorder es =
    let id : List ℕ = convert_to_valid_id characters in
    let (started, success) = start_recorder a.start recorder in
    if not a.make_directory
    then (es, false)
    else if is_registered id es
    then (es, false)
    else (es ++ (record { id = id; recorder = started } ∷ []), success && a.write_index)

unfoldable pub add_data_recorder_scalar_doubles :
    AddAnswers → List ℕ → List ℕ → ℕ → ℕ → List RecorderEntry → List RecorderEntry × Bool
add_data_recorder_scalar_doubles a characters names signals samples = add_recorder a characters (
    set_labels (convert_to_printable_string names)
      (set_num_signals signals (set_num_samples_per_file samples (new_recorder false))))

unfoldable pub add_data_recorder_bus :
    AddAnswers
    → List ℕ
    → ℕ
    → ℕ
    → List ℕ
    → List ℕ
    → List ℕ
    → List RecorderEntry
    → List RecorderEntry × Bool
add_data_recorder_bus a characters samples bytes names dimensions types =
    add_recorder a characters (
      set_data_types (convert_to_printable_string types) (
        set_dimensions (convert_to_printable_string dimensions) (
          set_labels (convert_to_printable_string names) (
            set_num_bytes_per_sample bytes
              (set_num_samples_per_file samples (new_recorder true))))))

-- `WriteScalarDoubles` and `WriteBus`: `Write` of the first recorder with the id.
unfoldable pub write_to : List ℕ → List ℕ → List RecorderEntry → List RecorderEntry
write_to id sample [] = []
write_to id sample (e ∷ es) =
    let rest : List RecorderEntry = write_to id sample es in
    let r : DataRecorder = e.recorder in
    if same_bytes e.id id
    then record e { recorder = record r { written = sample ∷ r.written } } ∷ es
    else e ∷ rest

unfoldable pub manager_write : List ℕ → List ℕ → List RecorderEntry → List RecorderEntry
manager_write characters sample = write_to (convert_to_valid_id characters) sample

abbrev pub stop_all : List RecorderEntry → List RecorderEntry
stop_all [] = []
stop_all (e ∷ es) = record e { recorder = stop_recorder e.recorder } ∷ stop_all es

-- `ClearAllDataRecorders`: no recorder is left, and these were stopped and deleted.
unfoldable pub clear_all_data_recorders :
    List RecorderEntry → List RecorderEntry × List RecorderEntry
clear_all_data_recorders es = ([], stop_all es)
