-- ===== src/Drivers/Recording.antt =====
-- library/drivers/GT_DriverDataRecorder.cpp, for the target.
pub mod Written
use generic_target.Base.{◌==◌, if◌then◌else◌, ℕ, Bool, false, not, List}
use generic_target.Recorder.Manager.{
  AddAnswers, RecorderEntry, add_data_recorder_scalar_doubles, add_data_recorder_bus, manager_write,
  clear_all_data_recorders,
}

-- The parameters of a recorder block; each array stands for the characters that its length counts.
pub record RecorderParameters : Type 0 where
  pub type_of_recorder : ℕ  -- uint8_t
  pub id_characters : List ℕ
  pub num_samples_per_file : ℕ
  pub num_bytes_per_sample : ℕ
  pub num_signals : ℕ
  pub signal_names : List ℕ
  pub dimensions : List ℕ
  pub data_types : List ℕ

-- `GT_DriverDataRecorderInitialize`, with whether it calls `ShouldTerminate`: the `switch` leaves
-- `success` false for a type that it does not know.
unfoldable pub data_recorder_initialize :
    AddAnswers → RecorderParameters → List RecorderEntry → List RecorderEntry × Bool
data_recorder_initialize a p es =
    let (fs, success) =
      if p.type_of_recorder == 0
      then add_data_recorder_scalar_doubles a p.id_characters p.signal_names p.num_signals
          p.num_samples_per_file es
      else if p.type_of_recorder == 1
      then add_data_recorder_bus a p.id_characters p.num_samples_per_file p.num_bytes_per_sample
          p.signal_names p.dimensions p.data_types es
      else (es, false) in
    (fs, not success)

unfoldable pub data_recorder_terminate : List RecorderEntry → List RecorderEntry
data_recorder_terminate es = (clear_all_data_recorders es).0

-- `GT_DriverDataRecorderStep` with a sample, a timestamp and the values or bytes.
unfoldable pub data_recorder_step : ℕ → List ℕ → List ℕ → List RecorderEntry → List RecorderEntry
data_recorder_step type_of_recorder id_characters sample es =
    if type_of_recorder == 0
    then manager_write id_characters sample es
    else if type_of_recorder == 1
    then manager_write id_characters sample es
    else es
