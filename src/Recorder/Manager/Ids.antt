-- ===== src/Recorder/Manager/Ids.antt =====
-- The ids of the recorders: they are names of files of their own.
use generic_target.Base.{
  ◌==◌, Bool-cases, length, All, ℕ, suc, ◌≡◌, refl, ap, ◌∙◌, inl, inr, Bool, true, false, ◌&&◌,
  ◌||◌, List, [], ◌∷◌, ◌++◌, arith,
}
use generic_target.Base.Bytes.{same_bytes}
use generic_target.Recorder.Manager.{
  is_valid_character, convert_to_valid_id, RecorderEntry, is_registered, add_recorder, AddAnswers,
  DataRecorder, start_recorder, stop_recorder,
}

abbrev pub IsId : List ℕ → Type 0
IsId = All (λ c. is_valid_character c ≡ true)

underscore : is_valid_character b'_' ≡ true
unfolding is_valid_character
underscore = refl

-- `ConvertToValidID` gives letters, digits, `_` and `-` only, as many as there were characters, and
-- leaves an id as it is.
pub convert_to_valid_id-IsId :
    (cs : List ℕ)
    → IsId (convert_to_valid_id cs)
      × (length (convert_to_valid_id cs) ≡ length cs)
      × (convert_to_valid_id (convert_to_valid_id cs) ≡ convert_to_valid_id cs)
unfolding convert_to_valid_id
convert_to_valid_id-IsId [] = (tt, refl, refl)
convert_to_valid_id-IsId (c ∷ cs) =
    let v = convert_to_valid_id-IsId cs in
    elim (Bool-cases (is_valid_character c)) [
      | inl e ↦ rw (e, e) ((refl, v.0), ap suc v.1, ap (◌∷◌ c) v.2)
      | inr e ↦ rw (e, underscore) ((refl, v.0), ap suc v.1, ap (◌∷◌ b'_') v.2)
    ]

same_bytes_sym : (xs ys : List ℕ) → same_bytes xs ys ≡ same_bytes ys xs
same_bytes_sym [] [] = refl
same_bytes_sym [] (y ∷ ys) = refl
same_bytes_sym (x ∷ xs) [] = refl
same_bytes_sym (x ∷ xs) (y ∷ ys) =
    let rest = same_bytes_sym xs ys in
    let head : (x == y) ≡ (y == x) = ground arith in rw (head, rest) refl

or_false : (a b : Bool) → (a || b) ≡ false → (a ≡ false) × (b ≡ false)
or_false a b h = ground arith

and_true : (a b : Bool) → (a && b) ≡ true → a ≡ true
and_true a b h = ground arith

-- No id stands twice, and all are valid.
abbrev pub DistinctIds : List RecorderEntry → Type 0
DistinctIds [] = Unit
DistinctIds (e ∷ es) = IsId e.id × (is_registered e.id es ≡ false) × DistinctIds es

pub is_registered-snoc :
    (id : List ℕ) (es : List RecorderEntry) (e : RecorderEntry)
    → is_registered id (es ++ (e ∷ [])) ≡ is_registered id es || same_bytes e.id id
unfolding is_registered
is_registered-snoc id [] e = ground arith
is_registered-snoc id (f ∷ es) e = elim (Bool-cases (same_bytes f.id id)) [
  | inl b ↦ rw b refl
  | inr b ↦ rw b (is_registered-snoc id es e)
]

DistinctIds-snoc :
    (es : List RecorderEntry) (e : RecorderEntry)
    → DistinctIds es
    → IsId e.id
    → is_registered e.id es ≡ false
    → DistinctIds (es ++ (e ∷ []))
unfolding is_registered
DistinctIds-snoc [] e d v n = (v, refl, tt)
DistinctIds-snoc (f ∷ es) e d v n =
    let other : same_bytes e.id f.id ≡ false = same_bytes_sym e.id f.id ∙ (or_false _ _ n).0 in
    (
      d.0,
      is_registered-snoc f.id es e
          ∙ ap (λ b. is_registered f.id es || b) other
          ∙ ap (λ b. b || false) d.1,
      DistinctIds-snoc es e d.2 v (or_false (same_bytes f.id e.id) _ n).1,
    )

-- `AddDataRecorderScalarDoubles` and `AddDataRecorderBus` keep the ids valid and without repetition,
-- whatever the system answers; they succeed only if the id is new and the recorder's thread has
-- started, and then the recorder is the last one of the list.
pub add_recorder-DistinctIds :
    (a : AddAnswers) (characters : List ℕ) (recorder : DataRecorder) (es : List RecorderEntry)
    → DistinctIds es
    → DistinctIds (add_recorder a characters recorder es).0
      × ((add_recorder a characters recorder es).1 ≡ true
          → (is_registered (convert_to_valid_id characters) es ≡ false)
            × ((add_recorder a characters recorder es).0
                ≡ es
                  ++ (record {
                    id = convert_to_valid_id characters;
                    recorder = record recorder { started = true };
                  }
                      ∷ [])))
unfolding add_recorder start_recorder stop_recorder
add_recorder-DistinctIds a characters recorder es d = elim (Bool-cases a.make_directory) [
  | inr m ↦ simp m (d, λ h. absurd (cc h))
  | inl m ↦ elim (Bool-cases (is_registered (convert_to_valid_id characters) es)) [
    | inl r ↦ simp (m, r) (d, λ h. absurd (cc h))
    | inr r ↦ elim (Bool-cases a.start) [
      | inl b ↦
          simp (m, r, b)
            (DistinctIds-snoc es _ d (convert_to_valid_id-IsId characters).0 r, λ h. (refl, refl))
      | inr b ↦
          simp (m, r, b)
            (DistinctIds-snoc es _ d (convert_to_valid_id-IsId characters).0 r, λ h. absurd (cc h))
    ]
  ]
]
