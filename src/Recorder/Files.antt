-- ===== src/Recorder/Files.antt =====
-- library/drivers/GT_DriverImplementationDetails.cpp: `WriteBufferToDataFiles` of the two data
-- recorders. Samples are lists of values: doubles, or bytes for a bus.
pub mod Loop
pub mod Conserve
pub mod Rollover
pub mod Flush
use generic_target.Base.{
  leb, ◌==◌, if◌then◌else◌, length, take, drop, ℕ, zero, suc, ◌+◌, ◌*◌, ◌/◌, ◌%◌, ◌^◌, min, Bool,
  true, false, not, ◌&&◌, Option, none, some, List, [], ◌∷◌, ◌++◌,
}

-- What the file system answers in a round of the loop: whether the header could be written,
-- whether the file could be opened to append, and after how many values `write` or `close` failed.
pub record Disk : Type 0 where
  pub header : ℕ → Bool
  pub append : ℕ → Bool
  pub write_fails : ℕ → Option ℕ
  pub close_fails : ℕ → Option ℕ

-- The bodies of the data files by number, the members of the recorder that the loop changes, and
-- the values that it is given. `round` counts the calls of the file system.
pub record Writer {ℓ} (A : Type ℓ) : Type ℓ where
  pub body : ℕ → List A
  pub current_file_number : ℕ  -- uint32_t
  pub num_samples_written : ℕ  -- size_t
  pub current_file_started : Bool
  pub values : List A
  pub round : ℕ

pub data Round {ℓ} (A : Type ℓ) : Type ℓ where
  ended : Writer A → Round A
  again : Writer A → Round A

-- `static_cast<size_t>(1 + m_numSignals)` and `(size_t)(8 + m_numBytesPerSample)`: the number of
-- values of a sample, in 32 bits.
unfoldable pub stride_scalar_doubles : ℕ → ℕ
stride_scalar_doubles num_signals = (1 + num_signals) % 2 ^ 32

unfoldable pub stride_bus : ℕ → ℕ
stride_bus num_bytes_per_sample = (8 + num_bytes_per_sample) % 2 ^ 32

-- How many of `m` values reach the file.
abbrev pub stored : Option ℕ → ℕ → ℕ
stored none m = m
stored (some k) m = min k m

module _ {ℓ} {A : Type ℓ} where
  abbrev pub set_body : (ℕ → List A) → ℕ → List A → ℕ → List A
  set_body f i b j = if i == j then b else f j

  -- A new file with its header, if none is open.
  unfoldable pub start_file : Disk → Writer A → Option (Writer A)
  start_file d s =
      if s.current_file_started
      then some s
      else if d.header s.round
      then some (record s {
        body = set_body s.body s.current_file_number [];
        current_file_started = true;
        num_samples_written = 0;
      })
      else none

  -- `w` is the stride and `n` the value of `m_numSamplesPerFile`.
  unfoldable pub samples_to_write : ℕ → ℕ → List A → ℕ
  samples_to_write w n values = if n == 0 then length values / w else min (length values / w) n

  -- Values appended to the open file.
  abbrev appended : Writer A → ℕ → ℕ → List A
  appended s i m = s.body i ++ take m s.values

  -- The markers behind a write of `k` samples.
  unfoldable pub finish_file : ℕ → ℕ → Writer A → Writer A
  finish_file n k s =
      let written : ℕ = s.num_samples_written + k in
      if not (n == 0) && leb n written
      then record s {
        num_samples_written = written;
        current_file_started = false;
        current_file_number = (s.current_file_number + 1) % 2 ^ 32;
      }
      else record s { num_samples_written = written }

  -- The end of a round, from the test of the number of samples on.
  unfoldable pub append_samples : ℕ → ℕ → Disk → ℕ → Writer A → Round A
  append_samples w n d k s =
      let i : ℕ = s.current_file_number in
      let t : Writer A = record s { round = s.round + 1 } in
      if k == 0
      then ended t
      else if not (d.append s.round)
      then ended t
      else elim (d.write_fails s.round) [
        | some m ↦ ended (record t { body = set_body s.body i (appended s i (min m (k * w))) })
        | none ↦ again (
            finish_file n k (record t {
              body = set_body s.body i (appended s i (stored (d.close_fails s.round) (k * w)));
              values = drop (k * w) s.values;
            }))
      ]

  unfoldable pub write_round : ℕ → ℕ → Disk → Writer A → Round A
  write_round w n d s = elim (start_file d s) [
    | none ↦ ended (record s { round = s.round + 1 })
    | some t ↦ append_samples w n d (samples_to_write w n t.values) t
  ]

  abbrev pub is_empty : List A → Bool
  is_empty [] = true
  is_empty (x ∷ xs) = false

  -- The loop on fuel; `none` means that the fuel ran out.
  unfoldable pub write_loop : ℕ → ℕ → Disk → ℕ → Writer A → Option (Writer A)
  write_loop w n d zero s = if is_empty s.values then some s else none
  write_loop w n d (suc fuel) s =
      if is_empty s.values
      then some s
      else elim (write_round w n d s) [ ended t ↦ some t | again t ↦ write_loop w n d fuel t ]

  abbrev from_some : Option (Writer A) → Writer A → Writer A
  from_some (some t) s = t
  from_some none s = s

  -- Each round that goes on takes a value off the list, so its length is enough fuel: `Loop`.
  unfoldable pub write_buffer_to_data_files : ℕ → ℕ → Disk → Writer A → Writer A
  write_buffer_to_data_files w n d s = from_some (write_loop w n d (length s.values) s) s
