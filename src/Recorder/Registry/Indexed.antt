-- ===== src/Recorder/Registry/Indexed.antt =====
-- The index file names the recorders of the manager.
use generic_target.Base.{
  ◌==◌, Bool-cases, length, length-append, length-map, All, ℕ, ◌+◌, ◌^◌, ◌≤◌, ◌<◌, ◌≡◌, refl, ap,
  ◌∙◌, ◌≢◌, inl, inr, Bool, true, not, ◌&&◌, Option, none, some, List, [], ◌∷◌, ◌++◌, map, arith,
}
use generic_target.Base.Bytes.{IsText, codes, c_string, IsText-append, c_string-IsText}
use mathlib.Core.Path.{subst}
use generic_target.Clock.{
  Now, TimeInfo, DataDirectory, start_timepoint, set_path_and_time_if_not_set,
}
use generic_target.Clock.Dates.{IsNow, set_path-IsUtc, set_path-twice, start_timepoint-InRange}
use generic_target.Recorder.Index.{Utc, write_index_file, decode_index_file}
use generic_target.Recorder.Index.RoundTrip.{decode_index_file-write}
use generic_target.Recorder.Manager.{
  RecorderEntry, is_valid_character, add_recorder, AddAnswers, DataRecorder, start_recorder,
  is_registered, convert_to_valid_id,
}
use generic_target.Recorder.Manager.Ids.{IsId, DistinctIds, add_recorder-DistinctIds}
use generic_target.Recorder.Registry.{
  Utsname, os_fields, get_os_info, Build, DataRecorderManager, new_data_recorder_manager,
  Registration, index_of, register, register_all,
}

valid-not-zero : (c : ℕ) → is_valid_character c ≡ true → c ≢ 0
unfolding is_valid_character
valid-not-zero c h = ground arith

IsId-IsText : (id : List ℕ) → IsId id → IsText id
IsId-IsText [] h = tt
IsId-IsText (c ∷ cs) h = (valid-not-zero c h.0, IsId-IsText cs h.1)

ids-IsText : (es : List RecorderEntry) → DistinctIds es → All IsText (map RecorderEntry.id es)
ids-IsText [] d = tt
ids-IsText (e ∷ es) d = (IsId-IsText e.id d.0, ids-IsText es d.2)

-- A name that holds no zero.
abbrev nonzero : List ℕ → Bool
nonzero [] = true
nonzero (b ∷ bs) = not (b == 0) && nonzero bs

nonzero-IsText : (bs : List ℕ) → nonzero bs ≡ true → IsText bs
nonzero-IsText [] h = tt
nonzero-IsText (b ∷ bs) h = (ground arith, nonzero-IsText bs (ground arith))

os_fields-IsText :
    (fields : List (List ℕ × List ℕ))
    → All (λ f. nonzero f.0 ≡ true) fields
    → IsText (os_fields fields)
unfolding os_fields
os_fields-IsText [] h = tt
os_fields-IsText ((name, value) ∷ fields) h =
    IsText-append name (b'=' ∷ b'[' ∷ (c_string value ++ (b']' ∷ os_fields fields)))
      (nonzero-IsText name h.0)
      (
        (λ e. cc),
        (
          (λ e. cc),
          IsText-append (c_string value) (b']' ∷ os_fields fields) (c_string-IsText value)
              ((λ e. cc), os_fields-IsText fields h.1),
        ),
      )

get_os_info-IsText : (uname : Option Utsname) → IsText (get_os_info uname)
unfolding get_os_info
get_os_info-IsText none = nonzero-IsText (codes "unavailable") refl
get_os_info-IsText (some info) =
    os_fields-IsText _ (refl, (refl, (refl, (refl, (refl, (refl, tt))))))

-- No string of the build holds a zero byte.
abbrev pub IsBuild : Build → Type 0
IsBuild b =
    IsText b.version × IsText b.model_name × IsText b.built_timestamp × IsText b.compiler_version

add_recorder-grows :
    (a : AddAnswers) (characters : List ℕ) (r : DataRecorder) (es : List RecorderEntry)
    → length (add_recorder a characters r es).0 ≤ length es + 1
unfolding add_recorder start_recorder
add_recorder-grows a characters r es = elim (Bool-cases a.make_directory) [
  | inr m ↦ simp m (omega arith)
  | inl m ↦ elim (Bool-cases (is_registered (convert_to_valid_id characters) es)) [
    | inl r ↦ simp (m, r) (omega arith)
    | inr r ↦ simp (m, r) (omega (arith, length-append es (_ ∷ [])))
  ]
]

-- The directory that the first call names, with the time at which the application was started.
abbrev pub started_directory : Now → Utc → DataDirectory
started_directory now u =
    set_path_and_time_if_not_set (start_timepoint now) (record { utc = u; directory = none })

module _ (build : Build) (uname : Option Utsname) (now : Now) (u : Utc) where
  abbrev start : TimeInfo
  start = start_timepoint now

  -- Of a manager that `n` calls have gone to.
  record Kept (n : ℕ) (m : DataRecorderManager) : Type 0 where
    distinct : DistinctIds m.entries
    few : length m.entries ≤ n
    named : set_path_and_time_if_not_set start m.directory ≡ started_directory now u

  register-Kept :
      (n : ℕ) (c : Registration) (m : DataRecorderManager)
      → Kept n m
      → Kept (n + 1) (register build uname start c m).0
  unfolding register
  register-Kept n c m k = elim (Bool-cases c.answers.make_directory) [
    | inr b ↦ simp b (record { distinct = k.distinct; few = omega (arith, k.few); named = named })
    | inl b ↦ simp b (record {
      distinct =
          (add_recorder-DistinctIds c.answers c.id_characters c.recorder m.entries k.distinct).0;
      few = omega (arith, k.few, add_recorder-grows c.answers c.id_characters c.recorder m.entries);
      named = named;
    })
  ]
    where
      named :
          set_path_and_time_if_not_set start (set_path_and_time_if_not_set start m.directory)
          ≡ started_directory now u
      named = ap (set_path_and_time_if_not_set start) k.named ∙ set_path-twice start start u none

  register_all-Kept :
      (cs : List Registration) (n : ℕ) (m : DataRecorderManager)
      → Kept n m
      → Kept (n + length cs) (register_all build uname start cs m)
  unfolding register_all
  register_all-Kept [] n m k = subst (λ i. Kept i m) (omega arith) k
  register_all-Kept (c ∷ cs) n m k =
      subst (λ i. Kept i (register_all build uname start cs (register build uname start c m).0))
        (omega arith)
        (register_all-Kept cs (n + 1) (register build uname start c m).0 (register-Kept n c m k))

  register-written :
      (c : Registration) (m : DataRecorderManager)
      → c.answers.make_directory ≡ true
      → c.answers.write_index ≡ true
      → (register build uname start c m).0.index_file
        ≡ write_index_file (
            index_of build uname
              (set_path_and_time_if_not_set start m.directory)
              (register build uname start c m).0.entries)
  unfolding register
  register-written c m d w = simp (d, w) refl

  all-Kept :
      (cs : List Registration)
      → Kept (length cs) (register_all build uname start cs (new_data_recorder_manager u))
  all-Kept cs =
      subst (λ i. Kept i (register_all build uname start cs (new_data_recorder_manager u)))
        (omega arith)
        (register_all-Kept cs 0 (new_data_recorder_manager u)
          (record { distinct = tt; few = omega arith; named = refl }))

  read_back :
      (es : List RecorderEntry)
      → IsBuild build
      → IsNow now
      → DistinctIds es
      → length es < 2 ^ 32
      → decode_index_file (write_index_file (index_of build uname (started_directory now u) es))
        ≡ some (index_of build uname (started_directory now u) es)
  unfolding index_of
  read_back es (v, mn, t, c) n d l =
      decode_index_file-write (index_of build uname (started_directory now u) es)
        (set_path-IsUtc start u (start_timepoint-InRange now.since_epoch now.calendar n))
        (ids-IsText es d, v, mn, t, c, get_os_info-IsText uname)
        (omega (arith, l, length-map RecorderEntry.id es))

  -- Whatever calls have registered recorders before, and whatever the system answered to them: behind a
  -- call that has the directory and can open the index file, the file decodes to the ids of the
  -- manager's recorders in their order, none twice, to the time at which the application was started,
  -- and to the strings of the build and the system. No string of the build holds a zero byte, the
  -- calendar keeps its documented ranges, and there are fewer than 2 ^ 32 calls.
  pub index_file-Current :
      (cs : List Registration) (c : Registration)
      → IsBuild build
      → IsNow now
      → c.answers.make_directory ≡ true
      → c.answers.write_index ≡ true
      → length cs + 1 < 2 ^ 32
      → let m : DataRecorderManager =
          (register build uname start c
            (register_all build uname start cs (new_data_recorder_manager u))).0 in
        (decode_index_file m.index_file
          ≡ some (index_of build uname (started_directory now u) m.entries))
        × DistinctIds m.entries
  index_file-Current cs c b n d w l =
      let before : DataRecorderManager =
        register_all build uname start cs (new_data_recorder_manager u) in
      let kept = all-Kept cs in
      let after = register-Kept (length cs) c before kept in
      let es : List RecorderEntry = (register build uname start c before).0.entries in
      (
        ap decode_index_file (register-written c before d w)
            ∙ ap (λ x. decode_index_file (write_index_file (index_of build uname x es))) kept.named
            ∙ read_back es b n after.distinct (omega (arith, l, after.few)),
        after.distinct,
      )
