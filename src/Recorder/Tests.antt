-- ===== src/Recorder/Tests.antt =====
-- Runs of the data recorder, and the theorems about it at concrete inputs.
use generic_target.Base.{
  ◌==◌, if◌then◌else◌, length, ℕ, ◌+◌, ◌*◌, ◌<◌, ◌≡◌, refl, ◌⊎◌, true, false, none, some, [], ◌∷◌,
  arith,
}
use generic_target.Recorder.Thread.Stopping.{Alone, stop_recorder-Ends}
use generic_target.Recorder.Files.{
  Disk, Writer, again, write_round, write_loop, write_buffer_to_data_files, start_file,
  samples_to_write, append_samples, finish_file,
}
use generic_target.Recorder.Files.Conserve.{IsReliable, all_before}
use generic_target.Recorder.Files.Rollover.{Fits, file_sizes, file_exceeds_limit}
use generic_target.Recorder.Files.Flush.{Works}
use generic_target.Recorder.Thread.{
  System, waits, done, notifies, joins, flushes, fresh_writer, begin, write, put_back, Reach, here,
  next, write_move, notify, loop_on, loop_off, stop, stop_notify, back_move, join,
}
use generic_target.Recorder.Thread.Order.{everything, everything-eq-accepted}
use generic_target.Recorder.Thread.Wakeup.{no_lost_wakeup}

-- A disk on which every call succeeds, and one that refuses the second round's write.
abbrev working : Disk
working = record {
  header = λ _. true;
  append = λ _. true;
  write_fails = λ _. none;
  close_fails = λ _. none;
}

abbrev flaky : Disk
flaky = record working { write_fails = λ r. if r == 1 then some 0 else none }

flaky_part : (r m : ℕ) → flaky.write_fails r ≡ some m → m ≡ 0
flaky_part r m e = ground arith

flaky-IsReliable : IsReliable flaky
flaky-IsReliable = record { no_part = flaky_part; closes = λ _. refl }

working-IsReliable : IsReliable working
working-IsReliable = record { no_part = λ r m e. cc; closes = λ _. refl }

working-Works : Works working
working-Works = record {
  header = λ _. refl;
  append = λ _. refl;
  writes = λ _. refl;
  closes = λ _. refl;
}

-- Five samples of two values, at most two samples in a batch.
abbrev five : Writer ℕ
five = record fresh_writer { values = 10 ∷ 11 ∷ 20 ∷ 21 ∷ 30 ∷ 31 ∷ 40 ∷ 41 ∷ 50 ∷ 51 ∷ [] }

five_files : all_before 3 (write_buffer_to_data_files 2 2 working five).body ≡ five.values
unfolding write_buffer_to_data_files write_loop write_round start_file samples_to_write
    append_samples finish_file all_before
five_files = refl

five_third : (write_buffer_to_data_files 2 2 working five).body 2 ≡ 50 ∷ 51 ∷ []
unfolding write_buffer_to_data_files write_loop write_round start_file samples_to_write
    append_samples finish_file
five_third = refl

-- One sample of a file with room for two, and two more that wait.
abbrev half_full : Writer ℕ
half_full = record {
  body = λ _. 1 ∷ [];
  current_file_number = 0;
  num_samples_written = 1;
  current_file_started = true;
  values = 2 ∷ 3 ∷ [];
  round = 0;
}

half_full-Fits : Fits 1 2 half_full
half_full-Fits = record {
  finished = λ j h. absurd (omega arith);
  open_fits = λ _. (omega arith, omega arith);
  room = omega arith;
}

file_sizes_example : Fits 1 2 (write_buffer_to_data_files 1 2 working half_full)
file_sizes_example =
    file_sizes 1 2 working half_full working-IsReliable (omega arith) (omega arith) half_full-Fits

file_exceeds_limit_example :
    (t : Writer ℕ) × (write_round 1 2 working half_full ≡ again t)
    × (t.current_file_started ≡ false)
    × (length (t.body 0) ≡ (1 + 2) * 1)
    × (2 * 1 < length (t.body 0))
file_exceeds_limit_example =
    file_exceeds_limit 1 2 working half_full working-IsReliable (omega arith) (omega arith) refl
      half_full-Fits (omega arith) refl refl

-- One sample written, and the recorder thread before it sees the notification.
abbrev one_written : System ℕ
one_written = record begin {
  buffer = 1 ∷ 2 ∷ [];
  accepted = 1 ∷ 2 ∷ [];
  producer = notifies;
  worker = waits;
}

one_written_reached : Reach 2 4 working one_written
unfolding write
one_written_reached = next (next here (write_move (1 ∷ 2 ∷ []) refl)) (loop_on refl refl)

everything-eq-accepted_example : everything one_written ≡ 1 ∷ 2 ∷ []
everything-eq-accepted_example =
    everything-eq-accepted 2 4 working working-IsReliable (omega arith) one_written_reached
      (omega arith)

no_lost_wakeup_example : (0 < one_written.sem) ⊎ (one_written.producer ≡ notifies)
no_lost_wakeup_example = no_lost_wakeup 2 4 working one_written_reached refl (λ e. cc)

-- The sample is still in the shared buffer when `Stop` comes to flush it.
abbrev before_flush : System ℕ
before_flush = record begin {
  buffer = 1 ∷ 2 ∷ [];
  accepted = 1 ∷ 2 ∷ [];
  worker = done;
  owner = flushes;
}

before_flush_reached : Reach 2 4 working before_flush
unfolding write put_back
before_flush_reached =
    next
      (next
        (next
          (next (next (next (next here (write_move (1 ∷ 2 ∷ []) refl)) (notify refl)) (stop refl))
            (loop_off refl refl))
          (stop_notify refl))
        (back_move refl))
      (join refl refl)

-- `Stop` at `join`, while the recorder thread waits for its event.
abbrev at_join : System ℕ
at_join = record begin { worker = waits; terminate = true; owner = joins; sem = 1 }

at_join_reached : Reach 2 4 working at_join
at_join_reached = next (next (next here (loop_on refl refl)) (stop refl)) (stop_notify refl)

stop_recorder-Ends_example :
    (u : System ℕ) × Alone 2 4 working at_join u × (u.owner ≡ joins) × (u.worker ≡ done)
stop_recorder-Ends_example = stop_recorder-Ends 2 4 working at_join_reached refl
