-- ===== src/Recorder/Thread.antt =====
-- library/drivers/GT_DriverImplementationDetails.{hpp,cpp}: a task that calls `Write`, the recorder
-- thread `ThreadDataRecorder`, and the thread that calls `Stop`, interleaved at the mutex of the
-- buffer, the event and the termination flag.
pub mod Order
pub mod Wakeup
pub mod Stopping
pub mod Flushing
use generic_target.Base.{
  ◌==◌, if◌then◌else◌, length, ℕ, suc, ◌+◌, ◌≡◌, Bool, true, false, List, [], ◌++◌,
}
use generic_target.Recorder.Files.{Disk, Writer, write_buffer_to_data_files, is_empty}

-- `ThreadDataRecorder`: at its loop test, in `sem_wait` and `sem_trywait` of `Event::Wait`, at the
-- second test, before the copy of the buffer, at `WriteBufferToDataFiles`, behind the loop, ended.
pub data Worker : Type 0 where
  loops waits drains checks takes writes leaves done : Worker

-- `Write`: between calls, or before `Notify`.
pub data Producer : Type 0 where
  idle notifies : Producer

-- `Stop`: not called, before `Notify`, at `join`, before the flush, ended.
pub data Owner : Type 0 where
  runs posts joins flushes stopped : Owner

-- `writer.values` is `localBuffer`. `accepted` is every value that `Write` has taken, in order.
pub record System {ℓ} (A : Type ℓ) : Type ℓ where
  pub writer : Writer A
  pub buffer : List A
  pub sem : ℕ
  pub terminate : Bool
  pub worker : Worker
  pub producer : Producer
  pub owner : Owner
  pub accepted : List A

module _ {ℓ} {A : Type ℓ} where
  abbrev pub fresh_writer : Writer A
  fresh_writer = record {
    body = λ _. [];
    current_file_number = 0;
    num_samples_written = 0;
    current_file_started = false;
    values = [];
    round = 0;
  }

  -- Behind `Start`.
  abbrev pub begin : System A
  begin = record {
    writer = fresh_writer;
    buffer = [];
    sem = 0;
    terminate = false;
    worker = loops;
    producer = idle;
    owner = runs;
    accepted = [];
  }

  -- `Write` of the sample `x`, a timestamp and the signals: only a sample of the registered size is
  -- taken. `Notify` follows in any case.
  unfoldable pub write : ℕ → List A → System A → System A
  write w x s =
      if length x == w
      then record s { buffer = s.buffer ++ x; accepted = s.accepted ++ x; producer = notifies }
      else record s { producer = notifies }

  -- The critical section of `ThreadDataRecorder`.
  unfoldable pub take_buffer : System A → System A
  take_buffer s = record s {
    writer = record (s.writer) { values = s.writer.values ++ s.buffer };
    buffer = [];
    worker = writes;
  }

  unfoldable pub write_files : ℕ → ℕ → Disk → System A → System A
  write_files w n d s = record s {
    writer = write_buffer_to_data_files w n d s.writer;
    worker = loops;
  }

  -- Behind the loop: what is left goes back to the front of the buffer.
  unfoldable pub put_back : System A → System A
  put_back s = record s {
    writer = record (s.writer) { values = [] };
    buffer = s.writer.values ++ s.buffer;
    worker = done;
  }

  -- `FlushBuffer`: the files, and whether all of the buffer is in them. The buffer is empty after it.
  unfoldable pub flush_buffer : ℕ → ℕ → Disk → System A → System A × Bool
  flush_buffer w n d s =
      let u : Writer A =
        write_buffer_to_data_files w n d (record (s.writer) { values = s.buffer }) in
      (
        record s { writer = record u { values = [] }; buffer = []; owner = stopped },
        is_empty u.values,
      )

-- `w` values make a sample, and `n` samples a file.
pub data Move {ℓ} {A : Type ℓ} (w n : ℕ) (d : Disk) (s : System A) : System A → Type ℓ where
  write_move : (x : List A) → s.producer ≡ idle → Move w n d s (write w x s)
  notify : s.producer ≡ notifies → Move w n d s (record s { producer = idle; sem = s.sem + 1 })
  loop_on : s.worker ≡ loops → s.terminate ≡ false → Move w n d s (record s { worker = waits })
  loop_off : s.worker ≡ loops → s.terminate ≡ true → Move w n d s (record s { worker = leaves })
  wake :
      {k : ℕ}
      → s.worker ≡ waits
      → s.sem ≡ suc k
      → Move w n d s (record s { worker = drains; sem = k })
  wait_error : s.worker ≡ waits → Move w n d s (record s { worker = checks })
  drain : {k : ℕ} → s.worker ≡ drains → s.sem ≡ suc k → Move w n d s (record s { sem = k })
  drained : s.worker ≡ drains → s.sem ≡ 0 → Move w n d s (record s { worker = checks })
  check_on : s.worker ≡ checks → s.terminate ≡ false → Move w n d s (record s { worker = takes })
  check_off : s.worker ≡ checks → s.terminate ≡ true → Move w n d s (record s { worker = leaves })
  take_move : s.worker ≡ takes → Move w n d s (take_buffer s)
  files_move : s.worker ≡ writes → Move w n d s (write_files w n d s)
  back_move : s.worker ≡ leaves → Move w n d s (put_back s)
  stop : s.owner ≡ runs → Move w n d s (record s { terminate = true; owner = posts })
  stop_notify : s.owner ≡ posts → Move w n d s (record s { owner = joins; sem = s.sem + 1 })
  join :
      s.owner ≡ joins
      → s.worker ≡ done
      → Move w n d s (record s { terminate = false; sem = 0; owner = flushes })

-- The states between `Start` and the flush in `Stop`.
pub data Reach {ℓ} {A : Type ℓ} (w n : ℕ) (d : Disk) : System A → Type ℓ where
  here : Reach w n d begin
  next : {s t : System A} → Reach w n d s → Move w n d s t → Reach w n d t
