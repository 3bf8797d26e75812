-- ===== src/Recorder/Files/Loop.antt =====
-- The rounds of `WriteBufferToDataFiles` by cases; its loop ends, and keeps what each round keeps.
use generic_target.Base.{
  leb, ◌==◌, Bool-cases, Option-cases, length, drop, length-drop, ℕ, zero, suc, ◌+◌, ◌*◌, ◌/◌, ◌≤◌,
  ◌<◌, min, ◌≡◌, refl, ◌≢◌, ◌⊎◌, inl, inr, true, false, not, ◌&&◌, none, some, List, [], ◌∷◌, arith,
}
use native.Mathlib.Decide.{dec_le}
use generic_target.Recorder.Files.{
  Disk, Writer, Round, ended, again, start_file, samples_to_write, append_samples, write_round,
  write_loop, write_buffer_to_data_files, finish_file, set_body, stored, appended, is_empty,
}

pub samples-le {ℓ} :
    {A : Type ℓ} (w n : ℕ) (values : List A) → samples_to_write w n values * w ≤ length values
unfolding samples_to_write
samples-le w zero values = grind arith
samples-le w (suc n) values = elim (dec_le (length values / w) (suc n)) [
  | yes h ↦ grind arith
  | no h ↦ grind arith
]

module _ {ℓ} {A : Type ℓ} where
  abbrev pub opened : Writer A → Writer A
  opened s = record s {
    body = set_body s.body s.current_file_number [];
    current_file_started = true;
    num_samples_written = 0;
  }

  abbrev pub skipped : Writer A → Writer A
  skipped s = record s { round = s.round + 1 }

  abbrev pub extended : Writer A → ℕ → Writer A
  extended s m = record s {
    round = s.round + 1;
    body = set_body s.body s.current_file_number (appended s s.current_file_number m);
  }

  -- The state behind a write of `m` values of which `j` reach the file.
  abbrev pub written : Writer A → ℕ → ℕ → Writer A
  written s j m = record (extended s j) { values = drop m s.values }

  -- The state with a file open: the state before, or that state with a new file.
  abbrev pub HasFile : Writer A → Writer A → Type ℓ
  HasFile s t =
      ((s.current_file_started ≡ true) × (t ≡ s))
      ⊎ ((s.current_file_started ≡ false) × (t ≡ opened s))

  pub start_file-HasFile : (d : Disk) (s t : Writer A) → start_file d s ≡ some t → HasFile s t
  unfolding start_file
  start_file-HasFile d s t h = ground arith

  pub HasFile-values : (s t : Writer A) → HasFile s t → t.values ≡ s.values
  HasFile-values s t (inl (_, e)) = rw e
  HasFile-values s t (inr (_, e)) = rw e

module _ {ℓ κ} {A : Type ℓ} (w n : ℕ) (d : Disk) (P : Round A → Type κ) where
  -- What a write of `k` samples comes to, where it is tried.
  abbrev pub Written : ℕ → Writer A → Type κ
  Written k s =
      ((m : ℕ) → d.write_fails s.round ≡ some m → P (ended (extended s (min m (k * w)))))
      × (k ≢ 0
          → d.write_fails s.round ≡ none
          → P (
              again (finish_file n k (written s (stored (d.close_fails s.round) (k * w)) (k * w)))))

  append_samples_cases :
      (k : ℕ) (s : Writer A) → P (ended (skipped s)) → Written k s → P (append_samples w n d k s)
  unfolding append_samples
  append_samples_cases k s skip wrote = elim (Bool-cases (k == 0)) [
    | inl z ↦ rw z skip
    | inr z ↦ elim (Bool-cases (d.append s.round)) [
      | inl e ↦ elim (Option-cases (d.write_fails s.round)) [
        | inl f ↦ rw (z, e, f) (wrote.1 (ground arith) f)
        | inr (m, f) ↦ rw (z, e, f) (wrote.0 m f)
      ]
      | inr e ↦ rw (z, e) skip
    ]
  ]

  -- What holds behind each way through a round holds behind the round.
  pub write_round_cases :
      (s : Writer A)
      → P (ended (skipped s))
      → ((t : Writer A)
          → HasFile s t
          → P (ended (skipped t)) × Written (samples_to_write w n t.values) t)
      → P (write_round w n d s)
  unfolding write_round
  write_round_cases s refused go = elim (Option-cases (start_file d s)) [
    | inl e ↦ rw (e, write_round) refused
    | inr (t, e) ↦
        let g = go t (start_file-HasFile d s t e) in
        rw (e, write_round) (append_samples_cases _ t g.0 g.1)
  ]

module _ {ℓ} {A : Type ℓ} (w n : ℕ) (d : Disk) where
  pub finish_file-values : (k : ℕ) (s : Writer A) → (finish_file n k s).values ≡ s.values
  unfolding finish_file
  finish_file-values k s = elim (Bool-cases (not (n == 0) && leb n (s.num_samples_written + k))) [
    | inl e ↦ rw e
    | inr e ↦ rw e
  ]

  abbrev Shrinks : ℕ → Round A → Type 0
  Shrinks l (ended t) = Unit
  Shrinks l (again t) = length t.values < l

  drop-shorter :
      (k : ℕ) (values : List A)
      → 0 < w
      → k ≢ 0
      → k * w ≤ length values
      → length (drop (k * w) values) < length values
  drop-shorter k values hw hk le =
      let more : 1 ≤ k * w = grind arith in omega (arith, length-drop {ℓ} (k * w) values)

  write_round-Shrinks : (s : Writer A) → 0 < w → Shrinks (length s.values) (write_round w n d s)
  write_round-Shrinks s hw = write_round_cases w n d (Shrinks (length s.values)) s tt λ t f. (
    tt,
    (
      (λ m e. tt),
      λ hk e.
          rw (finish_file-values, ← HasFile-values s t f)
            (drop-shorter (samples_to_write w n t.values) t.values hw hk (samples-le w n t.values)),
    ),
  )

  is_empty_of_length : (l : List A) → length l ≤ 0 → is_empty l ≡ true
  is_empty_of_length [] h = refl
  is_empty_of_length (x ∷ l) h = absurd (omega arith)

-- `P` holds before each round, and `Q` behind the last.
module _ {ℓ κ} {A : Type ℓ} (w n : ℕ) (d : Disk) (P Q : Writer A → Type κ) where
  abbrev pub Leads : Round A → Type κ
  Leads (ended t) = Q t
  Leads (again t) = P t

  -- The loop ends, and `Q` holds behind it.
  abbrev Ends : ℕ → Writer A → Type (ℓ ⊔ κ)
  Ends fuel s = (t : Writer A) × (write_loop w n d fuel s ≡ some t) × Q t

  after_round :
      (fuel l : ℕ) (s : Writer A) (r : Round A)
      → ((t : Writer A) → length t.values < l → P t → Ends fuel t)
      → is_empty s.values ≡ false
      → write_round w n d s ≡ r
      → Leads r
      → Shrinks w n d l r
      → Ends (suc fuel) s
  unfolding write_loop
  after_round fuel l s (ended t) rest e q p sh = (t, rw (e, q, write_loop), p)
  after_round fuel l s (again t) rest e q p sh =
      let (u, r, pu) = rest t sh p in (u, rw (e, q, write_loop) r, pu)

  module _ (lead : (s : Writer A) → P s → is_empty s.values ≡ false → Leads (write_round w n d s))
      (stop : (s : Writer A) → P s → is_empty s.values ≡ true → Q s) (hw : 0 < w) where
    write_loop_leads : (fuel : ℕ) (s : Writer A) → length s.values ≤ fuel → P s → Ends fuel s
    unfolding write_loop
    write_loop_leads zero s le p =
        let e = is_empty_of_length w n d s.values le in (s, rw e, stop s p e)
    write_loop_leads (suc fuel) s le p = elim (Bool-cases (is_empty s.values)) [
      | inl e ↦ (s, rw e, stop s p e)
      | inr e ↦
          after_round fuel (length s.values) s (write_round w n d s)
            (λ t lt pt. write_loop_leads fuel t (omega arith) pt) e refl (lead s p e)
            (write_round-Shrinks w n d s hw)
    ]

    -- The length of the buffer is enough fuel.
    pub write_buffer_leads : (s : Writer A) → P s → Q (write_buffer_to_data_files w n d s)
    unfolding write_buffer_to_data_files
    write_buffer_leads s p =
        let (t, e, qt) = write_loop_leads (length s.values) s (omega arith) p in rw e qt

module _ {ℓ κ} {A : Type ℓ} (w n : ℕ) (d : Disk) (P : Writer A → Type κ) where
  abbrev pub Keeps : Round A → Type κ
  Keeps = Leads w n d P P

  -- What each round keeps holds behind the loop.
  pub write_buffer_keeps :
      ((s : Writer A) → P s → Keeps (write_round w n d s))
      → 0 < w
      → (s : Writer A) → P s
      → P (write_buffer_to_data_files w n d s)
  write_buffer_keeps keep hw s p =
      write_buffer_leads w n d P P (λ t pt e. keep t pt) (λ t pt e. pt) hw s p
