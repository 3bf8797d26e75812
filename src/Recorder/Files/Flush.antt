-- ===== src/Recorder/Files/Flush.antt =====
-- With a file system that works, a buffer of whole samples is written to its end.
use generic_target.Base.{
  ◌==◌, Bool-cases, length, drop, length-drop, ℕ, zero, suc, ◌+◌, ◌-◌, ◌*◌, ◌≤◌, ◌<◌, ◌≡◌, refl, ap,
  ◌≢◌, inl, inr, true, false, none, some, List, [], ◌∷◌, arith,
}
use generic_target.Recorder.Files.{
  Disk, Writer, start_file, samples_to_write, append_samples, write_round,
  write_buffer_to_data_files, is_empty,
}
use native.Mathlib.Decide.{dec_lt}
use generic_target.Recorder.Files.Rollover.{mul_lt, le-div}
use generic_target.Recorder.Files.Loop.{
  opened, write_buffer_leads, Leads, samples-le, start_file-HasFile, HasFile-values,
  finish_file-values,
}

-- Every call succeeds.
pub record Works (d : Disk) : Type 0 where
  pub header : (r : ℕ) → d.header r ≡ true
  pub append : (r : ℕ) → d.append r ≡ true
  pub writes : (r : ℕ) → d.write_fails r ≡ none
  pub closes : (r : ℕ) → d.close_fails r ≡ none

-- A buffer that holds whole samples of `w` values.
abbrev pub IsWhole {ℓ} : {A : Type ℓ} → ℕ → List A → Type 0
IsWhole w values = (q : ℕ) × (length values ≡ q * w)

length-pos {ℓ} : {A : Type ℓ} (l : List A) → is_empty l ≡ false → 0 < length l
length-pos [] h = cc
length-pos (x ∷ l) h = omega arith

eq_nil {ℓ} : {A : Type ℓ} (l : List A) → is_empty l ≡ true → l ≡ []
eq_nil [] h = refl
eq_nil (x ∷ l) h = cc

one_sample : (q w l : ℕ) → 0 < w → l ≡ q * w → 0 < l → w ≤ l
one_sample zero w l hw e h = absurd (omega arith)
one_sample (suc q) w l hw e h = omega arith

samples-pos {ℓ} :
    {A : Type ℓ} (w n : ℕ) (values : List A)
    → 0 < w
    → w ≤ length values
    → samples_to_write w n values ≢ 0
unfolding samples_to_write
samples-pos w n values hw h = grind (arith, le-div 1 w (length values) hw (omega arith))

module _ {ℓ} {A : Type ℓ} (w n : ℕ) (d : Disk) (works : Works d) (hw : 0 < w) where
  abbrev Whole : Writer A → Type 0
  Whole s = IsWhole w s.values

  abbrev Empty : Writer A → Type 0
  Empty s = is_empty s.values ≡ true

  start_file_works : (s : Writer A) → (t : Writer A) × (start_file d s ≡ some t)
  unfolding start_file
  start_file_works s = elim (Bool-cases s.current_file_started) [
    | inl e ↦ (s, ground arith)
    | inr e ↦ (opened s, ground (arith, works.header s.round))
  ]

  IsWhole-drop :
      (k : ℕ) (values : List A)
      → k * w ≤ length values
      → IsWhole w values
      → IsWhole w (drop (k * w) values)
  IsWhole-drop k values le (q, e) = elim (dec_lt q k) [
    | yes lt ↦ absurd (omega (arith, mul_lt q k w hw lt))
    | no ge ↦
        let parts : q - k + k ≡ q = omega arith in
        (q - k, omega (arith, length-drop {ℓ} (k * w) values, ap (λ (t : ℕ). t * w) parts))
  ]

  append_samples-Leads :
      (k : ℕ) (t : Writer A)
      → k ≢ 0
      → k * w ≤ length t.values
      → Whole t
      → Leads w n d Whole Empty (append_samples w n d k t)
  unfolding append_samples
  append_samples-Leads k t hk le v =
      let not_zero : (k == 0) ≡ false = ground arith in
      rw (not_zero, works.append t.round, works.writes t.round, finish_file-values w n d)
        (IsWhole-drop k t.values le v)

  write_round-Leads :
      (s : Writer A)
      → Whole s
      → is_empty s.values ≡ false
      → Leads w n d Whole Empty (write_round w n d s)
  unfolding write_round
  write_round-Leads s v more =
      let (t, e) = start_file_works s in
      let same : t.values ≡ s.values = HasFile-values s t (start_file-HasFile d s t e) in
      let full : w ≤ length s.values =
        one_sample v.0 w (length s.values) hw v.1 (length-pos s.values more) in
      rw (e, write_round)
        (append_samples-Leads (samples_to_write w n t.values) t
          (samples-pos w n t.values hw (rw same full)) (samples-le w n t.values) (rw same v))

-- With a file system that works, a call of `WriteBufferToDataFiles` on whole samples empties the
-- buffer.
pub write_buffer_empties {ℓ} :
    {A : Type ℓ} (w n : ℕ) (d : Disk) (s : Writer A)
    → Works d
    → 0 < w
    → IsWhole w s.values
    → (write_buffer_to_data_files w n d s).values ≡ []
write_buffer_empties w n d s works hw v = eq_nil (write_buffer_to_data_files w n d s).values (
    write_buffer_leads w n d (Whole w n d works hw) (Empty w n d works hw)
      (write_round-Leads w n d works hw) (λ t vt e. e) hw s v)
