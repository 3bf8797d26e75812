-- ===== src/Recorder/Thread/Flushing.antt =====
-- `Stop` leaves every accepted sample in the data files, if the file system works.
use generic_target.Base.{
  ◌==◌, ==_iff, Bool-cases, length, length-append, ℕ, ◌+◌, ◌^◌, ◌<◌, ◌≡◌, refl, ◌∙◌, ◌≢◌, inl, inr,
  true, List, [], ◌++◌, append_assoc, append-nil, arith,
}
use generic_target.Recorder.Files.{Disk, Writer, write_buffer_to_data_files}
use generic_target.Recorder.Files.Conserve.{
  IsReliable, recorded, all_before, open_part, recorded-write_buffer,
}
use generic_target.Recorder.Files.Flush.{Works, IsWhole, write_buffer_empties}
use generic_target.Recorder.Thread.{
  System, Worker, loops, waits, drains, checks, takes, writes, leaves, done, Owner, flushes,
  stopped, write, take_buffer, write_files, put_back, flush_buffer, Move, write_move, notify,
  loop_on, loop_off, wake, wait_error, drain, drained, check_on, check_off, take_move, files_move,
  back_move, stop, stop_notify, join, Reach, here, next,
}
use generic_target.Recorder.Thread.Order.{Inv, Reach-Inv}

abbrev Joined : Owner → Worker → Type 0
Joined flushes k = k ≡ done
Joined stopped k = k ≡ done
Joined _ k = Unit

module _ {ℓ} {A : Type ℓ} where
  abbrev Emptied : Worker → List A → Type ℓ
  Emptied done l = l ≡ []
  Emptied _ l = Unit

  -- Only whole samples are in the buffers, and the recorder thread has given up its own at its end.
  record Whole (w : ℕ) (s : System A) : Type ℓ where
    own : IsWhole w s.writer.values
    shared : IsWhole w s.buffer
    emptied : Emptied s.worker s.writer.values
    joined : Joined s.owner s.worker

  IsWhole-append : (w : ℕ) (xs ys : List A) → IsWhole w xs → IsWhole w ys → IsWhole w (xs ++ ys)
  IsWhole-append w xs ys (p, e) (q, f) = (p + q, omega (arith, length-append {ℓ} xs ys))

  one_sample : (w : ℕ) (x : List A) → (length x == w) ≡ true → IsWhole w x
  one_sample w x e = let h = (==_iff (length x) w).0 e in (1, omega arith)

module _ {ℓ} {A : Type ℓ} where
  recorded_empty :
      (u : Writer A)
      → u.values ≡ []
      → all_before u.current_file_number u.body ++ open_part u ≡ recorded u
  recorded_empty u e = simp (e, append-nil)

  recorded_own :
      (u : Writer A) (b : List A)
      → u.values ≡ []
      → recorded (record u { values = b }) ≡ recorded u ++ b
  recorded_own u b e = simp (e, append-nil, append_assoc)

-- The values in the data files.
abbrev pub in_files {ℓ} : {A : Type ℓ} → System A → List A
in_files s = all_before s.writer.current_file_number s.writer.body ++ open_part s.writer

Works-IsReliable : (d : Disk) → Works d → IsReliable d
Works-IsReliable d v = record { no_part = λ r m e. cc (v.writes r); closes = v.closes }

module _ {ℓ} {A : Type ℓ} (w n : ℕ) (d : Disk) (works : Works d) (hw : 0 < w) where
  write-Whole : (x : List A) (s : System A) → Whole w s → Whole w (write w x s)
  unfolding write
  write-Whole x s v = elim (Bool-cases (length x == w)) [
    | inl e ↦ rw e (record {
      own = v.own;
      shared = IsWhole-append w s.buffer x v.shared (one_sample w x e);
      emptied = v.emptied;
      joined = v.joined;
    })
    | inr e ↦
        rw e (record { own = v.own; shared = v.shared; emptied = v.emptied; joined = v.joined })
  ]

  -- The recorder thread is still at work where it takes a step.
  busy : (s : System A) (k : Worker) → s.worker ≢ done → Joined s.owner s.worker → Joined s.owner k
  busy s k h j = ground arith

  at_worker :
      (s : System A) (k : Worker) (m : ℕ)
      → Whole w s
      → s.worker ≢ done
      → Emptied k s.writer.values
      → Whole w (record s { worker = k; sem = m })
  at_worker s k m v h e = record {
    own = v.own;
    shared = v.shared;
    emptied = e;
    joined = busy s k h v.joined;
  }

  Move-Whole : {s t : System A} → Whole w s → Move w n d s t → Whole w t
  unfolding take_buffer write_files put_back
  Move-Whole {s} v (write_move x p) = write-Whole x s v
  Move-Whole {s} v (files_move p) =
      let none_left : IsWhole w (write_buffer_to_data_files w n d s.writer).values =
        (0, rw (write_buffer_empties w n d s.writer works hw v.own) (omega arith)) in
      record {
        own = none_left;
        shared = v.shared;
        emptied = tt;
        joined = busy s loops (ground arith) v.joined;
      }
  Move-Whole {s} v (take_move p) = record {
    own = IsWhole-append w s.writer.values s.buffer v.own v.shared;
    shared = (0, omega arith);
    emptied = tt;
    joined = busy s writes (ground arith) v.joined;
  }
  Move-Whole {s} v (back_move p) = record {
    own = (0, omega arith);
    shared = IsWhole-append w s.writer.values s.buffer v.own v.shared;
    emptied = refl;
    joined = busy s done (ground arith) v.joined;
  }
  Move-Whole {s} v (notify p) = record {
    own = v.own;
    shared = v.shared;
    emptied = v.emptied;
    joined = v.joined;
  }
  Move-Whole {s} v (join p q) = record {
    own = v.own;
    shared = v.shared;
    emptied = v.emptied;
    joined = q;
  }
  Move-Whole {s} v (drain p q) = record {
    own = v.own;
    shared = v.shared;
    emptied = v.emptied;
    joined = v.joined;
  }
  Move-Whole {s} v (stop p) = record {
    own = v.own;
    shared = v.shared;
    emptied = v.emptied;
    joined = tt;
  }
  Move-Whole {s} v (stop_notify p) = record {
    own = v.own;
    shared = v.shared;
    emptied = v.emptied;
    joined = tt;
  }
  Move-Whole {s} v (loop_on p q) = at_worker s waits _ v (ground arith) tt
  Move-Whole {s} v (loop_off p q) = at_worker s leaves _ v (ground arith) tt
  Move-Whole {s} v (wake p q) = at_worker s drains _ v (ground arith) tt
  Move-Whole {s} v (wait_error p) = at_worker s checks _ v (ground arith) tt
  Move-Whole {s} v (drained p q) = at_worker s checks _ v (ground arith) tt
  Move-Whole {s} v (check_on p q) = at_worker s takes _ v (ground arith) tt
  Move-Whole {s} v (check_off p q) = at_worker s leaves _ v (ground arith) tt

  Reach-Whole : {s : System A} → Reach w n d s → Whole w s
  Reach-Whole here = record {
    own = (0, omega arith);
    shared = (0, omega arith);
    emptied = tt;
    joined = tt;
  }
  Reach-Whole (next r m) = Move-Whole (Reach-Whole r) m

  -- When `Stop` has joined the recorder thread and flushes the buffer, and the file system works:
  -- the flush succeeds, and the data files hold exactly the accepted samples in their order.
  pub flush_complete :
      {s : System A}
      → Reach w n d s
      → length s.accepted < 2 ^ 32
      → s.owner ≡ flushes
      → ((flush_buffer w n d s).1 ≡ true) × (in_files (flush_buffer w n d s).0 ≡ s.accepted)
  unfolding flush_buffer
  flush_complete {s} r small at_flush = (rw emptied refl, contents)
    where
      v : Whole w s
      v = Reach-Whole r

      inv : Inv s
      inv = Reach-Inv w n d (Works-IsReliable d works) hw small r

      own_empty : s.writer.values ≡ []
      own_empty = ground (arith, v.joined, v.emptied)

      before : Writer A
      before = record (s.writer) { values = s.buffer }

      behind : Writer A
      behind = write_buffer_to_data_files w n d before

      emptied : behind.values ≡ []
      emptied = write_buffer_empties w n d before works hw v.shared

      kept : recorded behind ≡ recorded before
      kept =
          recorded-write_buffer w n d before (Works-IsReliable d works) hw (omega (arith, inv.room))

      contents : all_before behind.current_file_number behind.body ++ open_part behind ≡ s.accepted
      contents =
          recorded_empty behind emptied
          ∙ kept
          ∙ recorded_own s.writer s.buffer own_empty
          ∙ inv.order
