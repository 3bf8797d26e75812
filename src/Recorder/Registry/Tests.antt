-- ===== src/Recorder/Registry/Tests.antt =====
-- Three calls: a recorder whose index file cannot be opened, the same id again, and another id.
use generic_target.Base.{ℕ, ◌≡◌, refl, Bool, true, false, some, List, [], ◌∷◌, map, arith}
use generic_target.Base.Bytes.{codes, c_string}
use generic_target.Clock.{Now, start_timepoint}
use generic_target.Recorder.Index.{Utc, decode_index_file}
use generic_target.Recorder.Manager.{
  RecorderEntry, new_recorder, is_registered, is_valid_character, add_recorder, convert_to_valid_id,
}
use generic_target.Recorder.Manager.Ids.{DistinctIds}
use generic_target.Recorder.Registry.{
  Utsname, Build, DataRecorderManager, new_data_recorder_manager, Registration, index_of, register,
  register_all, get_os_info, os_fields,
}
use generic_target.Recorder.Registry.Indexed.{index_file-Current, started_directory}

abbrev host : Utsname
host = record {
  sysname = b'L' ∷ 0 ∷ b'x' ∷ [];
  nodename = b'n' ∷ 0 ∷ [];
  release = b'6' ∷ 0 ∷ [];
  version = 0 ∷ [];
  machine = b'x' ∷ 0 ∷ [];
  domainname = [];
}

abbrev strings_of_build : Build
strings_of_build = record {
  version = b'2' ∷ [];
  model_name = b'm' ∷ [];
  built_timestamp = [];
  compiler_version = b'g' ∷ [];
}

abbrev at_start : Now
at_start = record {
  since_epoch = 1772281815999000000;
  calendar = some (record {
    tm_sec = 15;
    tm_min = 30;
    tm_hour = 12;
    tm_mday = 28;
    tm_mon = 1;
    tm_year = 126;
    tm_wday = 6;
    tm_yday = 58;
    tm_isdst = 0;
  });
}

abbrev no_utc : Utc
no_utc = record { year = 0; month = 0; day = 0; hour = 0; minute = 0; second = 0; millisecond = 0 }

abbrev call : Bool → List ℕ → Registration
call write_index characters = record {
  answers = record { make_directory = true; start = true; write_index = write_index };
  id_characters = characters;
  recorder = new_recorder true;
}

os_info_text :
    get_os_info (some host)
    ≡ codes "sysname=[L],nodename=[n],release=[6],version=[],machine=[x],domainname=[]"
unfolding get_os_info os_fields c_string
os_info_text = refl

abbrev earlier : List Registration
earlier = call false (b'a' ∷ b' ' ∷ []) ∷ call true (b'a' ∷ b'_' ∷ []) ∷ []

abbrev registered : DataRecorderManager
registered =
    (register strings_of_build (some host) (start_timepoint at_start) (call true (b'b' ∷ [])) (
      register_all strings_of_build (some host) (start_timepoint at_start) earlier
        (new_data_recorder_manager no_utc))).0

registered_ids : map RecorderEntry.id registered.entries ≡ (b'a' ∷ b'_' ∷ []) ∷ (b'b' ∷ []) ∷ []
unfolding register register_all add_recorder convert_to_valid_id is_registered is_valid_character
registered_ids = refl

index_file-Current_example :
    (decode_index_file registered.index_file
      ≡ some (
          index_of strings_of_build
            (some host)
            (started_directory at_start no_utc)
            registered.entries))
    × DistinctIds registered.entries
index_file-Current_example =
    index_file-Current strings_of_build (some host) at_start no_utc earlier (call true (b'b' ∷ []))
      (((λ e. cc), tt), ((λ e. cc), tt), tt, ((λ e. cc), tt))
      (omega arith, omega arith, omega arith, omega arith, omega arith, omega arith) refl refl
      (omega arith)
