-- ===== src/Recorder/Manager/Tests.antt =====
-- Runs of the manager of the recorders, and the theorems about it at concrete inputs.
use generic_target.Base.{ℕ, ◌≡◌, refl, true, false, List, [], ◌∷◌}
use generic_target.Recorder.Manager.{
  AddAnswers, DataRecorder, new_recorder, set_num_signals, RecorderEntry, convert_to_valid_id,
  add_recorder, is_valid_character, is_registered,
}
use generic_target.Recorder.Manager.Ids.{DistinctIds}

-- "a/b"
abbrev slashed : List ℕ
slashed = b'a' ∷ b'/' ∷ b'b' ∷ []

abbrev granted : AddAnswers
granted = record { make_directory = true; start = true; write_index = true }

abbrev recorder : DataRecorder
recorder = new_recorder true

abbrev one_recorder : List RecorderEntry
one_recorder =
    record { id = b'a' ∷ b'_' ∷ b'b' ∷ []; recorder = record recorder { started = true } } ∷ []

one_recorder-DistinctIds : DistinctIds one_recorder
unfolding is_valid_character is_registered
one_recorder-DistinctIds = ((refl, (refl, (refl, tt))), refl, tt)

-- The ids "a/b" and "a_b" are one.
collision : (add_recorder granted slashed recorder one_recorder).1 ≡ false
unfolding add_recorder convert_to_valid_id is_valid_character is_registered
collision = refl

-- A recorder that has been started keeps its settings.
late_setter :
    set_num_signals 7 (record recorder { started = true }) ≡ record recorder { started = true }
unfolding set_num_signals
late_setter = refl
