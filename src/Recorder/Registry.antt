-- ===== src/Recorder/Registry.antt =====
-- library/drivers/GT_DriverImplementationDetails.cpp: `AddDataRecorderScalarDoubles` and
-- `AddDataRecorderBus` of the whole `DataRecorderManager`, which names its directory at the first call
-- and writes its index file at every call.
pub mod Indexed
pub mod Tests
use generic_target.Base.{
  if◌then◌else◌, ℕ, Bool, false, not, Option, none, some, List, [], ◌∷◌, ◌++◌, map,
}
use generic_target.Base.Bytes.{codes, c_string}
use generic_target.Clock.{TimeInfo, DataDirectory, set_path_and_time_if_not_set}
use generic_target.Recorder.Index.{Utc, Index, write_index_file}
use generic_target.Recorder.Manager.{AddAnswers, DataRecorder, RecorderEntry, add_recorder}

-- `struct utsname`: arrays of characters with a terminating zero.
pub record Utsname : Type 0 where
  pub sysname : List ℕ
  pub nodename : List ℕ
  pub release : List ℕ
  pub version : List ℕ
  pub machine : List ℕ
  pub domainname : List ℕ

-- The names and values that are added to the text one behind the other.
unfoldable pub os_fields : List (List ℕ × List ℕ) → List ℕ
os_fields [] = []
os_fields ((name, value) ∷ fields) =
    name ++ (b'=' ∷ b'[' ∷ (c_string value ++ (b']' ∷ os_fields fields)))

-- `GetOSInfo`, with what `uname` stores, or none where it fails.
unfoldable pub get_os_info : Option Utsname → List ℕ
get_os_info none = codes "unavailable"
get_os_info (some info) = os_fields (
    (codes "sysname", info.sysname)
    ∷ (codes ",nodename", info.nodename)
    ∷ (codes ",release", info.release)
    ∷ (codes ",version", info.version)
    ∷ (codes ",machine", info.machine)
    ∷ (codes ",domainname", info.domainname)
    ∷ [])

-- The strings that the build brings with it.
pub record Build : Type 0 where
  pub version : List ℕ
  pub model_name : List ℕ
  pub built_timestamp : List ℕ
  pub compiler_version : List ℕ

-- `index_file` is what the file holds.
pub record DataRecorderManager : Type 0 where
  pub entries : List RecorderEntry
  pub directory : DataDirectory
  pub index_file : List ℕ

abbrev pub new_data_recorder_manager : Utc → DataRecorderManager
new_data_recorder_manager u = record {
  entries = [];
  directory = record { utc = u; directory = none };
  index_file = [];
}

-- A call: the answers of the system, the characters of the id, and the new recorder with its settings.
pub record Registration : Type 0 where
  pub answers : AddAnswers
  pub id_characters : List ℕ
  pub recorder : DataRecorder

module _ (build : Build) (uname : Option Utsname) where
  -- What `WriteIndexFile` writes.
  unfoldable pub index_of : DataDirectory → List RecorderEntry → Index
  index_of d es = record {
    utc = d.utc;
    ids = map RecorderEntry.id es;
    version = build.version;
    model_name = build.model_name;
    compile_date = build.built_timestamp;
    compiler_version = build.compiler_version;
    os_info = get_os_info uname;
  }

module _ (build : Build) (uname : Option Utsname) (start : TimeInfo) where
  -- The file is rewritten where it can be opened, whether the recorder is new or not.
  unfoldable pub register : Registration → DataRecorderManager → DataRecorderManager × Bool
  register c m =
      let d : DataDirectory = set_path_and_time_if_not_set start m.directory in
      let (es, success) = add_recorder c.answers c.id_characters c.recorder m.entries in
      if not c.answers.make_directory then (record m { directory = d }, false) else (
        record {
          entries = es;
          directory = d;
          index_file =
              if c.answers.write_index
              then write_index_file (index_of build uname d es)
              else m.index_file;
        },
        success,
      )

  unfoldable pub register_all : List Registration → DataRecorderManager → DataRecorderManager
  register_all [] m = m
  register_all (c ∷ cs) m = register_all cs (register c m).0
