-- ===== src/Recorder/Index/Tests.antt =====
-- An index file, and the theorem about it.
use generic_target.Base.{[], ◌∷◌}
use generic_target.Recorder.Index.{Index}

abbrev two_ids : Index
two_ids = record {
  utc = record {
    year = 2026;
    month = 2;
    day = 28;
    hour = 12;
    minute = 30;
    second = 15;
    millisecond = 999;
  };
  ids = (b'a' ∷ []) ∷ (b'b' ∷ b'c' ∷ []) ∷ [];
  version = b'1' ∷ [];
  model_name = b'm' ∷ [];
  compile_date = [];
  compiler_version = [];
  os_info = [];
}
