-- ===== src/Recorder/Files/Conserve.antt =====
-- No sample is lost, doubled or moved on its way into the data files.
use generic_target.Base.{
  leb, ◌==◌, if◌then◌else◌, ==_iff, Bool-cases, length, take-append-drop, length-drop, ℕ, zero, suc,
  ◌+◌, ◌*◌, ◌%◌, ◌^◌, ◌≤◌, ◌<◌, min, ◌≡◌, refl, ◌∙◌, ◌≢◌, inl, inr, true, false, not, ◌&&◌, none,
  some, List, [], ◌++◌, append_assoc, arith,
}
use generic_target.Recorder.Files.{
  Disk, Writer, samples_to_write, write_round, write_buffer_to_data_files, finish_file, set_body,
  stored, appended,
}
use generic_target.Recorder.Files.Loop.{
  opened, written, HasFile, HasFile-values, write_round_cases, write_buffer_keeps, Keeps,
  samples-le,
}

module _ {ℓ} {A : Type ℓ} where
  -- The bodies of the files with a number below `n`, in order.
  unfoldable pub all_before : ℕ → (ℕ → List A) → List A
  all_before zero f = []
  all_before (suc n) f = all_before n f ++ f n

  abbrev pub open_part : Writer A → List A
  open_part s = if s.current_file_started then s.body s.current_file_number else []

  -- What is in the finished files, in the open file and still in the buffer.
  abbrev pub recorded : Writer A → List A
  recorded s = all_before s.current_file_number s.body ++ (open_part s ++ s.values)

  all_before-set_body :
      (n i : ℕ) (f : ℕ → List A) (b : List A)
      → n ≤ i
      → all_before n (set_body f i b) ≡ all_before n f
  unfolding all_before
  all_before-set_body zero i f b h = refl
  all_before-set_body (suc n) i f b h =
      let other : (i == n) ≡ false = ground arith in
      rw (all_before-set_body n i f b (omega arith), other) refl

  set_body_self : (f : ℕ → List A) (i : ℕ) (b : List A) → set_body f i b i ≡ b
  set_body_self f i b = rw ((==_iff i i).1 refl)

-- A failed write leaves nothing behind, and `close` does not fail.
pub record IsReliable (d : Disk) : Type 0 where
  pub no_part : (r m : ℕ) → d.write_fails r ≡ some m → m ≡ 0
  pub closes : (r : ℕ) → d.close_fails r ≡ none

module _ {ℓ} {A : Type ℓ} where
  recorded-opened :
      (s : Writer A) → s.current_file_started ≡ false → recorded (opened s) ≡ recorded s
  recorded-opened s e =
      rw
        (
          e,
          all_before-set_body s.current_file_number s.current_file_number s.body [] (omega arith),
          set_body_self s.body s.current_file_number [],
        )
        refl

  recorded-HasFile : (s t : Writer A) → HasFile s t → recorded t ≡ recorded s
  recorded-HasFile s t (inl (_, e)) = rw e
  recorded-HasFile s t (inr (e, f)) = rw f (recorded-opened s e)

  -- A write of `m` values that all reach the open file.
  recorded-written :
      (s : Writer A) (m : ℕ) → s.current_file_started ≡ true → recorded (written s m m) ≡ recorded s
  recorded-written s m e =
      rw
        (
          e,
          all_before-set_body s.current_file_number s.current_file_number s.body
              (appended s s.current_file_number m) (omega arith),
          set_body_self s.body s.current_file_number (appended s s.current_file_number m),
          append_assoc,
          take-append-drop,
        )
        refl

  recorded-finish_file :
      (n k : ℕ) (s : Writer A)
      → s.current_file_started ≡ true
      → s.current_file_number + 1 < 2 ^ 32
      → recorded (finish_file n k s) ≡ recorded s
  unfolding finish_file all_before
  recorded-finish_file n k s e h =
      let next : (s.current_file_number + 1) % 2 ^ 32 ≡ suc (s.current_file_number) = omega arith in
      elim (Bool-cases (not (n == 0) && leb n (s.num_samples_written + k))) [
        | inl f ↦
            rw (f, e, next)
              (append_assoc (all_before s.current_file_number s.body) (s.body s.current_file_number)
                s.values)
        | inr f ↦ rw f refl
      ]

  pub finish_file-room :
      (n k : ℕ) (s : Writer A)
      → ((finish_file n k s).current_file_number ≤ s.current_file_number + 1)
        × ((finish_file n k s).values ≡ s.values)
  unfolding finish_file
  finish_file-room n k s = elim (Bool-cases (not (n == 0) && leb n (s.num_samples_written + k))) [
    | inl f ↦ rw f (omega arith, refl)
    | inr f ↦ rw f (omega arith, refl)
  ]

  pub HasFile-started : (s t : Writer A) → HasFile s t → t.current_file_started ≡ true
  HasFile-started s t (inl (e, f)) = rw f e
  HasFile-started s t (inr (e, f)) = rw f refl

  pub HasFile-number :
      (s t : Writer A) → HasFile s t → t.current_file_number ≡ s.current_file_number
  HasFile-number s t (inl (e, f)) = rw f refl
  HasFile-number s t (inr (e, f)) = rw f refl

  -- Everything that is recorded or waits, and a bound for the file numbers that may still be used.
  abbrev Holds : List A → ℕ → Writer A → Type ℓ
  Holds log b s = (recorded s ≡ log) × (s.current_file_number + length s.values ≤ b)

  module _ (w n : ℕ) (d : Disk) (reliable : IsReliable d) (hw : 0 < w) (log : List A) (b : ℕ)
      (hb : b < 2 ^ 32) where
    wrote-Holds :
        (k : ℕ) (t : Writer A)
        → t.current_file_started ≡ true
        → k ≢ 0
        → k * w ≤ length t.values
        → Holds log b t
        → Holds log b (finish_file n k (written t (stored (d.close_fails t.round) (k * w)) (k * w)))
    wrote-Holds k t st hk le (e, room) =
        let some_value : 1 ≤ k * w = grind arith in
        let after : Writer A = written t (k * w) (k * w) in
        let f = finish_file-room n k after in
        let all_stored : stored (d.close_fails t.round) (k * w) ≡ k * w =
          rw (reliable.closes t.round) refl in
        rw all_stored (
          recorded-finish_file n k after st (omega arith) ∙ recorded-written t (k * w) st ∙ e,
          rw (f.1) (omega (arith, f.0, length-drop {ℓ} (k * w) t.values)),
        )

    write_round-Holds :
        (s : Writer A) → Holds log b s → Keeps w n d (Holds log b) (write_round w n d s)
    write_round-Holds s (e, room) =
        write_round_cases w n d (Keeps w n d (Holds log b)) s (e, room)
          λ t f.
            let same : Holds log b t =
              (recorded-HasFile s t f ∙ e, rw (HasFile-number s t f, HasFile-values s t f) room) in
            (
              same,
              (
                (λ m q.
                    let none_stored : min m (samples_to_write w n t.values * w) ≡ 0 =
                      omega (arith, reliable.no_part t.round m q) in
                    rw none_stored (recorded-written t 0 (HasFile-started s t f) ∙ same.0, same.1)),
                (λ hk q. wrote-Holds _ t (HasFile-started s t f) hk (samples-le w n t.values) same),
              ),
            )

  module _ (w n : ℕ) (d : Disk) (s : Writer A) (reliable : IsReliable d) (hw : 0 < w)
      (room : s.current_file_number + length s.values < 2 ^ 32) where
    holds :
        Holds
          (recorded s)
          (s.current_file_number + length s.values)
          (write_buffer_to_data_files w n d s)
    holds =
        write_buffer_keeps w n d (Holds (recorded s) (s.current_file_number + length s.values))
          (write_round-Holds w n d reliable hw (recorded s)
            (s.current_file_number + length s.values) room)
          hw s (refl, omega arith)

    -- With a file system that stores a write whole or not at all, a call of
    -- `WriteBufferToDataFiles` leaves the same sequence of values: those in the files in the order
    -- of their numbers, then those still in the buffer. The file numbers that the call may use fit
    -- in 32 bits.
    pub recorded-write_buffer : recorded (write_buffer_to_data_files w n d s) ≡ recorded s
    recorded-write_buffer = holds.0

    pub number-write_buffer :
        (write_buffer_to_data_files w n d s).current_file_number
          + length (write_buffer_to_data_files w n d s).values
        ≤ s.current_file_number + length s.values
    number-write_buffer = holds.1
