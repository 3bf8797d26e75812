-- ===== src/Drivers/Recording/Written.antt =====
-- What a recorder block records.
use generic_target.Base.{
  ◌==◌, if◌then◌else◌, Bool-cases, ℕ, ◌≡◌, refl, ap, ◌∙◌, ◌⊎◌, inl, inr, Bool, true, false, not,
  List, [], ◌∷◌, ◌++◌, arith,
}
use generic_target.Base.Bytes.{same_bytes}
use generic_target.Recorder.Manager.{
  AddAnswers, DataRecorder, RecorderEntry, convert_to_valid_id, is_registered, add_recorder,
  add_data_recorder_scalar_doubles, add_data_recorder_bus, write_to, manager_write, set_labels,
  set_num_signals, set_num_samples_per_file, set_num_bytes_per_sample, set_dimensions,
  set_data_types,
}
use generic_target.Recorder.Manager.Ids.{DistinctIds, is_registered-snoc, add_recorder-DistinctIds}
use generic_target.Drivers.Recording.{
  RecorderParameters, data_recorder_initialize, data_recorder_step,
}

-- The samples that the recorder with an id was handed, the latest first.
abbrev pub samples_of : List ℕ → List RecorderEntry → List (List ℕ)
samples_of id [] = []
samples_of id (e ∷ es) = if same_bytes e.id id then e.recorder.written else samples_of id es

samples_of-snoc :
    (id : List ℕ) (es : List RecorderEntry) (e : RecorderEntry)
    → is_registered id es ≡ false
    → samples_of id (es ++ (e ∷ [])) ≡ samples_of id (e ∷ [])
unfolding is_registered
samples_of-snoc id [] e n = refl
samples_of-snoc id (f ∷ es) e n = elim (Bool-cases (same_bytes f.id id)) [
  | inl b ↦ absurd (ground (arith, b, n))
  | inr b ↦ rw b (samples_of-snoc id es e (ground (arith, b, n)))
]

write_to-samples :
    (id x : List ℕ) (es : List RecorderEntry)
    → is_registered id es ≡ true
    → (samples_of id (write_to id x es) ≡ x ∷ samples_of id es)
      × (is_registered id (write_to id x es) ≡ true)
unfolding is_registered write_to
write_to-samples id x [] r = absurd (cc r)
write_to-samples id x (e ∷ es) r = elim (Bool-cases (same_bytes e.id id)) [
  | inl b ↦ simp b (refl, refl)
  | inr b ↦ let v = write_to-samples id x es (ground (arith, b, r)) in simp b (v.0, v.1)
]

-- The calls of a block's step, one for each sample.
abbrev pub record_all : ℕ → List ℕ → List (List ℕ) → List RecorderEntry → List RecorderEntry
record_all type characters [] es = es
record_all type characters (x ∷ xs) es =
    record_all type characters xs (data_recorder_step type characters x es)

abbrev pub latest_first : List (List ℕ) → List (List ℕ) → List (List ℕ)
latest_first [] before = before
latest_first (x ∷ xs) before = latest_first xs (x ∷ before)

abbrev KnownType : ℕ → Type 0
KnownType t = (t ≡ 0) ⊎ (t ≡ 1)

step-write :
    (t : ℕ) (characters x : List ℕ) (es : List RecorderEntry)
    → KnownType t
    → data_recorder_step t characters x es ≡ write_to (convert_to_valid_id characters) x es
unfolding data_recorder_step manager_write
step-write t characters x es (inl e) = rw e refl
step-write t characters x es (inr e) = rw e refl

record_all-samples :
    (t : ℕ) (characters : List ℕ) (xs : List (List ℕ)) (es : List RecorderEntry)
    → KnownType t
    → is_registered (convert_to_valid_id characters) es ≡ true
    → samples_of (convert_to_valid_id characters) (record_all t characters xs es)
      ≡ latest_first xs (samples_of (convert_to_valid_id characters) es)
record_all-samples t characters [] es k r = refl
record_all-samples t characters (x ∷ xs) es k r =
    let e = step-write t characters x es k in
    let v = write_to-samples (convert_to_valid_id characters) x es r in
    record_all-samples t characters xs (data_recorder_step t characters x es) k
      (ap (is_registered (convert_to_valid_id characters)) e ∙ v.1)
    ∙ ap (λ fs. latest_first xs (samples_of (convert_to_valid_id characters) fs)) e
    ∙ ap (latest_first xs) v.0

same_bytes_refl : (xs : List ℕ) → same_bytes xs xs ≡ true
same_bytes_refl [] = refl
same_bytes_refl (x ∷ xs) =
    let head : (x == x) ≡ true = ground arith in rw (head, same_bytes_refl xs) refl

not-false : (b : Bool) → not b ≡ false → b ≡ true
not-false true h = refl
not-false false h = absurd (cc h)

-- Registered, with no sample yet.
abbrev Fresh : List ℕ → List RecorderEntry → Type 0
Fresh id es = (is_registered id es ≡ true) × (samples_of id es ≡ [])

add_recorder-Fresh :
    (a : AddAnswers) (characters : List ℕ) (r : DataRecorder) (es : List RecorderEntry)
    → DistinctIds es
    → r.written ≡ []
    → (add_recorder a characters r es).1 ≡ true
    → Fresh (convert_to_valid_id characters) (add_recorder a characters r es).0
add_recorder-Fresh a characters r es d w h =
    let id : List ℕ = convert_to_valid_id characters in
    let (new, last) = (add_recorder-DistinctIds a characters r es d).1 h in
    let e : RecorderEntry = record { id = id; recorder = record r { started = true } } in
    let same : same_bytes id id ≡ true = same_bytes_refl id in
    (
      ap (is_registered id) last ∙ is_registered-snoc id es e ∙ rw (new, same) refl,
      ap (samples_of id) last ∙ samples_of-snoc id es e new ∙ simp same w,
    )

initialize-Fresh :
    (a : AddAnswers) (p : RecorderParameters) (es : List RecorderEntry)
    → DistinctIds es
    → (data_recorder_initialize a p es).1 ≡ false
    → KnownType p.type_of_recorder
      × Fresh (convert_to_valid_id p.id_characters) (data_recorder_initialize a p es).0
unfolding data_recorder_initialize add_data_recorder_scalar_doubles add_data_recorder_bus set_labels
    set_num_signals set_num_samples_per_file set_num_bytes_per_sample set_dimensions set_data_types
initialize-Fresh a p es d = elim (Bool-cases (p.type_of_recorder == 0)) [
  | inl e ↦ simp e (λ h.
      (inl (ground (arith, e)), add_recorder-Fresh a p.id_characters _ es d refl (not-false _ h)))
  | inr e ↦ elim (Bool-cases (p.type_of_recorder == 1)) [
    | inl f ↦
        simp (e, f)
          (λ h. (
            inr (ground (arith, f)),
            add_recorder-Fresh a p.id_characters _ es d refl (not-false _ h),
          ))
    | inr f ↦ simp (e, f) (λ h. absurd (cc h))
  ]
]

-- A recorder block whose recorder could be registered records every sample of its steps, in their
-- order, and nothing else.
pub recorder_block :
    (a : AddAnswers) (p : RecorderParameters) (es : List RecorderEntry) (xs : List (List ℕ))
    → DistinctIds es
    → (data_recorder_initialize a p es).1 ≡ false
    → samples_of
        (convert_to_valid_id p.id_characters)
        (record_all p.type_of_recorder p.id_characters xs (data_recorder_initialize a p es).0)
      ≡ latest_first xs []
recorder_block a p es xs d h =
    let (k, fresh) = initialize-Fresh a p es d h in
    record_all-samples p.type_of_recorder p.id_characters xs (data_recorder_initialize a p es).0 k
      fresh.0
    ∙ ap (latest_first xs) fresh.1
