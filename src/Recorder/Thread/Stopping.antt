-- ===== src/Recorder/Thread/Stopping.antt =====
-- `Stop` of a recorder never waits for ever at `join`.
use generic_target.Base.{
  ◌==◌, Bool-cases, length, ℕ, zero, suc, ◌-◌, ◌<◌, ◌≡◌, refl, sym, inl, inr, true, arith,
}
use mathlib.Core.Path.{subst}
use generic_target.Recorder.Files.{Disk}
use generic_target.Recorder.Thread.{
  System, Worker, loops, waits, drains, checks, takes, writes, leaves, done, Owner, posts, joins,
  write, take_buffer, write_files, put_back, Move, write_move, notify, loop_on, loop_off, wake,
  wait_error, drain, drained, check_on, check_off, take_move, files_move, back_move, stop,
  stop_notify, join, Reach, here, next,
}

-- `Stop` has set the flag, and stands before or behind its notification.
abbrev Stopping : Owner → Type 0
Stopping posts = Unit
Stopping joins = Unit
Stopping _ = ⊥

module _ {ℓ} {A : Type ℓ} (w n : ℕ) (d : Disk) where
  -- The flag is set in `Stop`, and at `join` the notification is there as long as the thread waits.
  record Inv (s : System A) : Type 0 where
    flagged : Stopping s.owner → s.terminate ≡ true
    notified : s.owner ≡ joins → s.worker ≡ waits → 0 < s.sem

  Move-Inv : {s t : System A} → Inv s → Move w n d s t → Inv t
  unfolding write take_buffer write_files put_back
  Move-Inv {s} v (write_move x p) = elim (Bool-cases (length x == w)) [
    | inl b ↦ simp b (record { flagged = v.flagged; notified = v.notified })
    | inr b ↦ simp b (record { flagged = v.flagged; notified = v.notified })
  ]
  Move-Inv {s} v (notify p) = record { flagged = v.flagged; notified = λ o a. omega arith }
  Move-Inv {s} v (loop_on p q) = record {
    flagged = v.flagged;
    notified = λ o a. absurd (cc (v.flagged (subst Stopping (sym o) tt), q));
  }
  Move-Inv {s} v (wake p q) = record { flagged = v.flagged; notified = λ o a. absurd (cc a) }
  Move-Inv {s} v (drain p q) = record { flagged = v.flagged; notified = λ o a. absurd (cc (p, a)) }
  Move-Inv {s} v (stop p) = record { flagged = λ h. refl; notified = λ o. absurd (cc o) }
  Move-Inv {s} v (stop_notify p) = record {
    flagged = λ h. v.flagged (subst Stopping (sym p) tt);
    notified = λ o a. omega arith;
  }
  Move-Inv {s} v (join p q) = record { flagged = λ h. absurd h; notified = λ o. absurd (cc o) }
  Move-Inv {s} v (loop_off p q) = record { flagged = v.flagged; notified = λ o a. absurd (cc a) }
  Move-Inv {s} v (wait_error p) = record { flagged = v.flagged; notified = λ o a. absurd (cc a) }
  Move-Inv {s} v (drained p q) = record { flagged = v.flagged; notified = λ o a. absurd (cc a) }
  Move-Inv {s} v (check_on p q) = record { flagged = v.flagged; notified = λ o a. absurd (cc a) }
  Move-Inv {s} v (check_off p q) = record { flagged = v.flagged; notified = λ o a. absurd (cc a) }
  Move-Inv {s} v (take_move p) = record { flagged = v.flagged; notified = λ o a. absurd (cc a) }
  Move-Inv {s} v (files_move p) = record { flagged = v.flagged; notified = λ o a. absurd (cc a) }
  Move-Inv {s} v (back_move p) = record { flagged = v.flagged; notified = λ o a. absurd (cc a) }

  Reach-Inv : {s : System A} → Reach w n d s → Inv s
  Reach-Inv here = record { flagged = λ h. absurd h; notified = λ o. absurd (cc o) }
  Reach-Inv (next r m) = Move-Inv (Reach-Inv r) m

  -- A move of the recorder thread that no failure of the system makes.
  abbrev pub IsThread : {s t : System A} → Move w n d s t → Type 0
  IsThread (write_move x p) = ⊥
  IsThread (notify p) = ⊥
  IsThread (wait_error p) = ⊥
  IsThread (stop p) = ⊥
  IsThread (stop_notify p) = ⊥
  IsThread (join p q) = ⊥
  IsThread _ = Unit

  -- The states that the recorder thread reaches alone.
  pub data Alone (s : System A) : System A → Type ℓ where
    stays : Alone s s
    moves : {t u : System A} → Alone s t → (m : Move w n d t u) → IsThread m → Alone s u

  before : {s t u : System A} (m : Move w n d s t) → IsThread m → Alone t u → Alone s u
  before m o stays = moves stays m o
  before m o (moves a k p) = moves (before m o a) k p

  -- The thread comes to its end alone, and `Stop` is still at `join`.
  abbrev pub Ends : System A → Type ℓ
  Ends s = (u : System A) × Alone s u × (u.owner ≡ joins) × (u.worker ≡ done)

  Ends-first : {s t : System A} (m : Move w n d s t) → IsThread m → Ends t → Ends s
  Ends-first m o (u, a, e, f) = (u, before m o a, e, f)

  leaves-Ends : (s : System A) → s.owner ≡ joins → s.worker ≡ leaves → Ends s
  unfolding put_back
  leaves-Ends s o p = Ends-first (back_move p) tt (_, stays, o, refl)

  loops-Ends : (s : System A) → s.owner ≡ joins → s.terminate ≡ true → s.worker ≡ loops → Ends s
  loops-Ends s o f p = Ends-first (loop_off p f) tt (leaves-Ends _ o refl)

  checks-Ends : (s : System A) → s.owner ≡ joins → s.terminate ≡ true → s.worker ≡ checks → Ends s
  checks-Ends s o f p = Ends-first (check_off p f) tt (leaves-Ends _ o refl)

  drains-Ends :
      (k : ℕ) (s : System A)
      → s.owner ≡ joins
      → s.terminate ≡ true
      → s.worker ≡ drains
      → s.sem ≡ k
      → Ends s
  drains-Ends zero s o f p e = Ends-first (drained p e) tt (checks-Ends _ o f refl)
  drains-Ends (suc k) s o f p e = Ends-first (drain p e) tt (drains-Ends k _ o f p refl)

  waits-Ends :
      (k : ℕ) (s : System A)
      → s.owner ≡ joins
      → s.terminate ≡ true
      → s.worker ≡ waits
      → s.sem ≡ suc k
      → Ends s
  waits-Ends k s o f p e = Ends-first (wake p e) tt (drains-Ends k _ o f refl refl)

  writes-Ends : (s : System A) → s.owner ≡ joins → s.terminate ≡ true → s.worker ≡ writes → Ends s
  unfolding write_files
  writes-Ends s o f p = Ends-first (files_move p) tt (loops-Ends _ o f refl)

  takes-Ends : (s : System A) → s.owner ≡ joins → s.terminate ≡ true → s.worker ≡ takes → Ends s
  unfolding take_buffer
  takes-Ends s o f p = Ends-first (take_move p) tt (writes-Ends _ o f refl)

  -- Whenever `Stop` stands at `join`, however the writing task, the recorder thread and `Stop` were
  -- interleaved before, the recorder thread comes to its end by its own moves, so that `join` returns:
  -- the notification of `Stop` is not lost, and what the files do makes no difference.
  pub stop_recorder-Ends : {s : System A} → Reach w n d s → s.owner ≡ joins → Ends s
  stop_recorder-Ends {s} r o = by_worker s.worker refl
    where
      v : Inv s
      v = Reach-Inv r

      flag : s.terminate ≡ true
      flag = v.flagged (subst Stopping (sym o) tt)

      by_worker : (k : Worker) → s.worker ≡ k → Ends s
      by_worker loops e = loops-Ends s o flag e
      by_worker waits e =
          waits-Ends (s.sem - 1) s o flag e (let h = v.notified o e in omega (arith, h))
      by_worker drains e = drains-Ends s.sem s o flag e refl
      by_worker checks e = checks-Ends s o flag e
      by_worker takes e = takes-Ends s o flag e
      by_worker writes e = writes-Ends s o flag e
      by_worker leaves e = leaves-Ends s o e
      by_worker done e = (s, stays, o, e)
