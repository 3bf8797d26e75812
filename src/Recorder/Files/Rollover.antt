-- ===== src/Recorder/Files/Rollover.antt =====
-- How many samples a data file gets before the next one is started.
use generic_target.Base.{
  leb, ◌==◌, ==_iff, Bool-cases, length, take, drop, length-append, length-take, length-drop, ℕ,
  zero, suc, ◌+◌, ◌*◌, ◌/◌, ◌^◌, ◌≤◌, ◌<◌, min, ◌≡◌, refl, ◌≢◌, inl, inr, true, false, not, ◌&&◌,
  none, some, List, append-nil, arith,
}
use native.Mathlib.Decide.{dec_lt, ℕ_discrete}
use generic_target.Recorder.Files.{
  Disk, Writer, again, start_file, samples_to_write, write_round, write_buffer_to_data_files,
  finish_file, set_body, stored, appended, append_samples,
}
use generic_target.Recorder.Files.Loop.{
  skipped, extended, written, HasFile, write_round_cases, write_buffer_keeps, Keeps, samples-le,
}
use generic_target.Recorder.Files.Conserve.{IsReliable, HasFile-started}

samples-le_limit {ℓ} :
    {A : Type ℓ} (w n : ℕ) (values : List A) → 0 < n → samples_to_write w n values ≤ n
unfolding samples_to_write
samples-le_limit w zero values h = elim h [ ]
samples-le_limit w (suc n) values h = grind arith

pub mul_lt : (a b w : ℕ) → 0 < w → a < b → a * w < b * w
mul_lt a b w hw h = grind arith

between_files : (n w a : ℕ) → 0 < w → n ≤ a → a < 2 * n → (n * w ≤ a * w) × (a * w < 2 * n * w)
between_files n w a hw lo hi = (grind arith, mul_lt a (2 * n) w hw hi)

pub le-div : (n w l : ℕ) → 0 < w → n * w ≤ l → n ≤ l / w
le-div n w l hw h = elim (dec_lt (l / w) n) [ yes lt ↦ absurd (grind arith) | no ge ↦ omega arith ]

full_batch {ℓ} :
    {A : Type ℓ} (w n : ℕ) (values : List A)
    → 0 < w
    → 0 < n
    → n * w ≤ length values
    → samples_to_write w n values ≡ n
unfolding samples_to_write
full_batch w n values hw hn h = grind (arith, le-div n w (length values) hw h)

module _ {ℓ} {A : Type ℓ} (w n : ℕ) where
  -- A finished file: at least `n` samples and fewer than twice as many.
  abbrev pub Finished : List A → Type 0
  Finished b = (n * w ≤ length b) × (length b < 2 * n * w)

  abbrev pub OpenFits : Writer A → Type 0
  OpenFits s =
      s.current_file_started ≡ true
      → (length (s.body s.current_file_number) ≡ s.num_samples_written * w)
        × (s.num_samples_written < n)

  pub record Fits (s : Writer A) : Type 0 where
    pub finished : (j : ℕ) → j < s.current_file_number → Finished (s.body j)
    pub open_fits : OpenFits s
    pub room : s.current_file_number + length s.values < 2 ^ 32

  module _ (d : Disk) (reliable : IsReliable d) (hw : 0 < w) (hn : 0 < n) where
    skipped-Fits : (t : Writer A) → Fits t → Fits (skipped t)
    skipped-Fits t v = record { finished = v.finished; open_fits = v.open_fits; room = v.room }

    opened-Fits : (s t : Writer A) → HasFile s t → Fits s → Fits t
    opened-Fits s t (inl (_, e)) v = rw e v
    opened-Fits s t (inr (_, e)) v = rw e (record {
      finished = λ j h.
          let other : (s.current_file_number == j) ≡ false = ground arith in
          rw other (v.finished j h);
      open_fits =
          λ _. rw ((==_iff s.current_file_number s.current_file_number).1 refl) (omega arith);
      room = v.room;
    })

    -- The open file behind a write of `k` samples.
    length-appended :
        (k : ℕ) (t : Writer A)
        → t.current_file_started ≡ true
        → k * w ≤ length t.values
        → Fits t
        → length (appended t t.current_file_number (k * w)) ≡ (t.num_samples_written + k) * w
    length-appended k t st le v = omega (
      arith,
      length-append {ℓ} (t.body t.current_file_number) (take (k * w) t.values),
      length-take {ℓ} (k * w) t.values,
      v.open_fits st,
    )

    other_file :
        (t : Writer A) (j m : ℕ)
        → j < t.current_file_number
        → Fits t
        → Finished (set_body t.body t.current_file_number (appended t t.current_file_number m) j)
    other_file t j m h v =
        let other : (t.current_file_number == j) ≡ false = ground arith in rw other (v.finished j h)

    module _ (k : ℕ) (t : Writer A) (st : t.current_file_started ≡ true) (hk : k ≢ 0) (kn : k ≤ n)
        (le : k * w ≤ length t.values) (v : Fits t) where
      size : length (appended t t.current_file_number (k * w)) ≡ (t.num_samples_written + k) * w
      size = length-appended k t st le v

      room-written : t.current_file_number + 1 + length (drop (k * w) t.values) < 2 ^ 32
      room-written =
          let some_value : 1 ≤ k * w = grind arith in
          omega (arith, length-drop {ℓ} (k * w) t.values, v.room)

      closed-Finished :
          n ≤ t.num_samples_written + k
          → (j : ℕ) → j < t.current_file_number + 1
          → Finished
              (set_body t.body t.current_file_number (appended t t.current_file_number (k * w)) j)
      closed-Finished h j lt = elim (ℕ_discrete t.current_file_number j) [
        | yes e ↦
            rw ((==_iff t.current_file_number j).1 e, size)
              (between_files n w (t.num_samples_written + k) hw h (omega (arith, v.open_fits st)))
        | no e ↦ other_file t j (k * w) (omega arith) v
      ]

      wrote-Fits : Fits (finish_file n k (written t (k * w) (k * w)))
      unfolding finish_file
      wrote-Fits = elim (Bool-cases (not (n == 0) && leb n (t.num_samples_written + k))) [
        | inl f ↦ rw f (record {
          finished = λ j lt. closed-Finished (ground arith) j (omega (arith, room-written));
          open_fits = λ e. cc;
          room = omega (arith, room-written);
        })
        | inr f ↦ rw f (record {
          finished = λ j lt. other_file t j (k * w) lt v;
          open_fits = λ _.
              rw ((==_iff t.current_file_number t.current_file_number).1 refl) (size, ground arith);
          room = omega (arith, room-written);
        })
      ]

    extended-Fits : (t : Writer A) → Fits t → Fits (extended t 0)
    extended-Fits t v = record {
      finished = λ j lt. other_file t j 0 lt v;
      open_fits = λ st.
          rw ((==_iff t.current_file_number t.current_file_number).1 refl, append-nil)
            (v.open_fits st);
      room = v.room;
    }

    write_round-Fits : (s : Writer A) → Fits s → Keeps w n d Fits (write_round w n d s)
    write_round-Fits s v = write_round_cases w n d (Keeps w n d Fits) s (skipped-Fits s v) λ t f.
        let u : Fits t = opened-Fits s t f v in
        (
          skipped-Fits t u,
          (
            (λ m q.
                let none_stored : min m (samples_to_write w n t.values * w) ≡ 0 =
                  omega (arith, reliable.no_part t.round m q) in
                rw none_stored (extended-Fits t u)),
            (λ hk q.
                let all_stored : stored (d.close_fails t.round) (samples_to_write w n t.values * w)
                    ≡ samples_to_write w n t.values * w =
                  rw (reliable.closes t.round) refl in
                rw all_stored (
                  wrote-Fits (samples_to_write w n t.values) t (HasFile-started s t f) hk
                    (samples-le_limit w n t.values hn) (samples-le w n t.values) u)),
          ),
        )

-- With `n` samples per file, a file that has been finished holds at least `n` samples and fewer
-- than `2 * n`, also over several calls of `WriteBufferToDataFiles`, if the file system stores a
-- write whole or not at all and no close of a file fails.
pub file_sizes {ℓ} :
    {A : Type ℓ} (w n : ℕ) (d : Disk) (s : Writer A)
    → IsReliable d
    → 0 < w
    → 0 < n
    → Fits w n s
    → Fits w n (write_buffer_to_data_files w n d s)
file_sizes w n d s reliable hw hn v =
    write_buffer_keeps w n d (Fits w n) (write_round-Fits w n d reliable hw hn) hw s v

start_file_open {ℓ} :
    {A : Type ℓ} (d : Disk) (s : Writer A) → s.current_file_started ≡ true → start_file d s ≡ some s
unfolding start_file
start_file_open d s st = ground arith

append_samples_batch {ℓ} :
    {A : Type ℓ} (w n : ℕ) (d : Disk) (s : Writer A)
    → IsReliable d
    → 0 < n
    → d.append s.round ≡ true
    → d.write_fails s.round ≡ none
    → append_samples w n d n s ≡ again (finish_file n n (written s (n * w) (n * w)))
unfolding append_samples
append_samples_batch w n d s reliable hn opens wr =
    let not_zero : (n == 0) ≡ false = ground arith in
    rw (not_zero, opens, wr, reliable.closes s.round) refl

finishes : (n m : ℕ) → 0 < n → (not (n == 0) && leb n (m + n)) ≡ true
finishes n m h = ground arith

finish_file-body {ℓ} : {A : Type ℓ} (n k : ℕ) (s : Writer A) → (finish_file n k s).body ≡ s.body
unfolding finish_file
finish_file-body n k s = elim (Bool-cases (not (n == 0) && leb n (s.num_samples_written + k))) [
  | inl f ↦ rw f refl
  | inr f ↦ rw f refl
]

-- A file can hold more than `n` samples: where `k` samples, more than none and fewer than `n`, are in
-- the open file and `n` wait in the buffer, the next round puts all of them behind those and finishes
-- the file with `k + n` samples. The file system stores a write whole or not at all, no close fails,
-- the file opens for the append, and the write does not fail.
pub file_exceeds_limit {ℓ} :
    {A : Type ℓ} (w n : ℕ) (d : Disk) (s : Writer A)
    → IsReliable d
    → 0 < w
    → 0 < s.num_samples_written
    → s.current_file_started ≡ true
    → Fits w n s
    → n * w ≤ length s.values
    → d.append s.round ≡ true
    → d.write_fails s.round ≡ none
    → (t : Writer A) × (write_round w n d s ≡ again t)
      × (t.current_file_started ≡ false)
      × (length (t.body s.current_file_number) ≡ (s.num_samples_written + n) * w)
      × (n * w < length (t.body s.current_file_number))
unfolding write_round finish_file
file_exceeds_limit w n d s reliable hw hs st v le opens wr = (
  finish_file n n (written s (n * w) (n * w)),
  rw (start_file_open d s st, write_round, full_batch w n s.values hw hn le)
      (append_samples_batch w n d s reliable hn opens wr),
  rw (finishes n s.num_samples_written hn) refl,
  rw (finish_file-body n n (written s (n * w) (n * w))) size,
  rw (finish_file-body n n (written s (n * w) (n * w)), size)
      (mul_lt n (s.num_samples_written + n) w hw (omega arith)),
)
  where
    hn : 0 < n
    hn = omega (arith, v.open_fits st)

    size :
        length (
          set_body s.body s.current_file_number
            (appended s s.current_file_number (n * w))
            s.current_file_number)
        ≡ (s.num_samples_written + n) * w
    size =
        rw ((==_iff s.current_file_number s.current_file_number).1 refl)
          (length-appended w n d reliable hw hn n s st le v)
