-- ===== src/Recorder/Thread/Wakeup.antt =====
-- The recorder thread never sleeps on samples without a notification under way.
use generic_target.Base.{
  ◌==◌, Bool-cases, length, ℕ, ◌<◌, ◌≡◌, refl, ◌≢◌, ◌⊎◌, inl, inr, false, List, [], ◌∷◌, arith,
}
use generic_target.Recorder.Files.{Disk, is_empty}
use generic_target.Recorder.Thread.{
  System, Worker, waits, drains, checks, takes, leaves, done, notifies, write, take_buffer,
  write_files, put_back, Move, write_move, notify, loop_on, loop_off, wake, wait_error, drain,
  drained, check_on, check_off, take_move, files_move, back_move, stop, stop_notify, join, Reach,
  here, next,
}

-- The thread will look at the buffer before it can sleep again.
abbrev WillLook : Worker → Type 0
WillLook drains = Unit
WillLook checks = Unit
WillLook takes = Unit
WillLook leaves = Unit
WillLook done = Unit
WillLook _ = ⊥

module _ {ℓ} {A : Type ℓ} where
  abbrev Noticed : System A → Type 0
  Noticed s =
      (is_empty s.buffer ≡ false) → (0 < s.sem) ⊎ (s.producer ≡ notifies) ⊎ WillLook s.worker

  not_empty : (l : List A) → l ≢ [] → is_empty l ≡ false
  not_empty [] h = absurd (h refl)
  not_empty (x ∷ l) h = refl

module _ {ℓ} {A : Type ℓ} (w n : ℕ) (d : Disk) where
  write-Noticed : (x : List A) (s : System A) → Noticed (write w x s)
  unfolding write
  write-Noticed x s = elim (Bool-cases (length x == w)) [
    | inl e ↦ rw e (λ _. inr (inl refl))
    | inr e ↦ rw e (λ _. inr (inl refl))
  ]

  look_on : (s : System A) (k : Worker) → WillLook k → Noticed (record s { worker = k })
  look_on s k h _ = inr (inr h)

  Move-Noticed : {s t : System A} → Noticed s → Move w n d s t → Noticed t
  unfolding take_buffer write_files put_back
  Move-Noticed {s} v (write_move x p) = write-Noticed x s
  Move-Noticed {s} v (notify p) = λ _. inl (omega arith)
  Move-Noticed {s} v (loop_on p q) = ground arith
  Move-Noticed {s} v (loop_off p q) = λ _. inr (inr tt)
  Move-Noticed {s} v (wake p q) = λ _. inr (inr tt)
  Move-Noticed {s} v (wait_error p) = λ _. inr (inr tt)
  Move-Noticed {s} v (drain p q) = ground arith
  Move-Noticed {s} v (drained p q) = λ _. inr (inr tt)
  Move-Noticed {s} v (check_on p q) = λ _. inr (inr tt)
  Move-Noticed {s} v (check_off p q) = λ _. inr (inr tt)
  Move-Noticed {s} v (take_move p) = λ e. cc
  Move-Noticed {s} v (files_move p) = ground arith
  Move-Noticed {s} v (back_move p) = λ _. inr (inr tt)
  Move-Noticed {s} v (stop p) = v
  Move-Noticed {s} v (stop_notify p) = λ _. inl (omega arith)
  Move-Noticed {s} v (join p q) = λ _. inr (inr (rw q tt))

  Reach-Noticed : {s : System A} → Reach w n d s → Noticed s
  Reach-Noticed here = λ e. cc
  Reach-Noticed (next r m) = Move-Noticed (Reach-Noticed r) m

  -- Where the recorder thread waits for its event and there are samples in the buffer, the event has
  -- been notified or the task that wrote them is about to notify it: no wakeup is lost.
  pub no_lost_wakeup :
      {s : System A}
      → Reach w n d s
      → s.worker ≡ waits
      → s.buffer ≢ []
      → (0 < s.sem) ⊎ (s.producer ≡ notifies)
  no_lost_wakeup {s} r at_wait some_sample =
      let h = Reach-Noticed r (not_empty s.buffer some_sample) in ground (arith, h)
