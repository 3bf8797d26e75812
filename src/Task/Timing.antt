-- ===== src/Task/Timing.antt =====
-- When a task is due: the counters of `Notify` in closed form.
use generic_target.Base.{ℕ, zero, suc, ◌+◌, ◌-◌, ◌*◌, ◌<◌, ◌≡◌, ◌↔◌, Bool, true, false, arith}
use generic_target.Base.Int.{ℤ, pos}
use native.Mathlib.Decide.{dec_le}
use generic_target.Task.{StartReplies, start, Task, count_down, notify}

-- What `Thread` does to the task where its job ends.
abbrev pub job_ended : Bool → Task → Task
job_ended true t = record t { job_pending_or_running = false }
job_ended false t = t

-- The task after `n` calls of `Notify`; `jobs i` is whether `Thread` ends a job behind the call `i`.
unfoldable pub notify_times : ℤ → (ℕ → Bool) → ℕ → Task → Task
notify_times p jobs zero t = t
notify_times p jobs (suc n) t = job_ended (jobs n) (notify p (notify_times p jobs n t)).0

abbrev Counts : Task → ℕ → ℕ → Type 0
Counts t o k = (t.offset_samples ≡ pos o) × (t.ticks ≡ pos k)

notify-offset :
    (p : ℤ) (t : Task) → (notify p t).0.offset_samples ≡ (count_down p t).0.offset_samples
unfolding notify
notify-offset p t = ground arith

notify-ticks : (p : ℤ) (t : Task) → (notify p t).0.ticks ≡ (count_down p t).0.ticks
unfolding notify
notify-ticks p t = ground arith

module _ (p : ℕ) (t : Task) where
  waiting :
      (o k : ℕ)
      → Counts t (suc o) k
      → Counts (notify (pos p) t).0 o k × ((count_down (pos p) t).1 ≡ false)
  unfolding count_down
  waiting o k c = ground (arith, notify-offset (pos p) t, notify-ticks (pos p) t)

  resting :
      (k : ℕ)
      → Counts t 0 (suc (suc k))
      → Counts (notify (pos p) t).0 0 (suc k) × ((count_down (pos p) t).1 ≡ false)
  unfolding count_down
  resting k c = ground (arith, notify-offset (pos p) t, notify-ticks (pos p) t)

  elapsed : Counts t 0 1 → Counts (notify (pos p) t).0 0 p × ((count_down (pos p) t).1 ≡ true)
  unfolding count_down
  elapsed c = ground (arith, notify-offset (pos p) t, notify-ticks (pos p) t)

reload : (p : ℕ) (t : Task) → 0 < p → Counts t 0 1 → Counts (notify (pos p) t).0 0 (suc (p - 1))
reload p t hp c = ground (arith, elapsed p t c)

-- No multiple of `p` lies strictly between `q * p` and `(q + 1) * p`.
between : (p q r k m : ℕ) → r + suc (suc k) ≡ p → m * p ≡ q * p + suc r → ⊥
between p q r k m f e = elim (dec_le m q) [ yes h ↦ grind arith | no h ↦ grind arith ]

started : (r : StartReplies) (o : ℕ) (t t' : Task) → start r (pos o) t ≡ (t', true) → Counts t' o 1
unfolding start
started r o t t' h = ground arith

-- The counters after `n` calls, for offset `o` and period `p`: still in the offset, or `r` ticks
-- after the `q`-th notification behind the first.
data Phase (p o n : ℕ) (t : Task) : Type 0 where
  offset : (d : ℕ) → n + d ≡ o → Counts t d 1 → Phase p o n t
  running : (q r k : ℕ) → n ≡ o + 1 + q * p + r → r + suc k ≡ p → Counts t 0 (suc k) → Phase p o n t

module _ (p o : ℕ) (hp : 0 < p) where
  next-Phase : (n : ℕ) (t : Task) → Phase p o n t → Phase p o (suc n) (notify (pos p) t).0
  next-Phase n t (offset zero e c) =
      running 0 0 (p - 1) (omega arith) (omega arith) (reload p t hp c)
  next-Phase n t (offset (suc d) e c) = offset d (omega arith) (waiting p t d 1 c).0
  next-Phase n t (running q r zero e f c) =
      running (q + 1) 0 (p - 1) (omega arith) (omega arith) (reload p t hp c)
  next-Phase n t (running q r (suc k) e f c) =
      running q (r + 1) k (omega arith) (omega arith) (resting p t k c).0

  job_ended-Phase : (b : Bool) (n : ℕ) (t : Task) → Phase p o n t → Phase p o n (job_ended b t)
  job_ended-Phase false n t v = v
  job_ended-Phase true n t (offset d e c) = offset d e c
  job_ended-Phase true n t (running q r k e f c) = running q r k e f c

  phase :
      (jobs : ℕ → Bool) (n : ℕ) (t : Task)
      → Counts t o 1
      → Phase p o n (notify_times (pos p) jobs n t)
  unfolding notify_times
  phase jobs zero t c = offset o (omega arith) c
  phase jobs (suc n) t c = job_ended-Phase (jobs n) (suc n) _ (next-Phase n _ (phase jobs n t c))

  Phase-due :
      (n : ℕ) (t : Task)
      → Phase p o n t
      → ((count_down (pos p) t).1 ≡ true) ↔ ((k : ℕ) × (n ≡ o + k * p))
  Phase-due n t (offset zero e c) = (λ _. (0, omega arith), λ _. (elapsed p t c).1)
  Phase-due n t (offset (suc d) e c) =
      (λ h. cc ((waiting p t d 1 c).1), λ (m, h). absurd (omega arith))
  Phase-due n t (running q r zero e f c) = (λ _. (q + 1, omega arith), λ _. (elapsed p t c).1)
  Phase-due n t (running q r (suc k) e f c) = (
    λ h. cc ((resting p t k c).1),
    λ (m, h). absurd (between p q r k m (omega arith) (omega arith)),
  )

-- After a start that succeeds with offset `o` and sample ticks `p`, the task is due at the call
-- of `notify` after the first `n` exactly if `n` is `o` or lies a multiple of `p` behind it,
-- whichever of these calls a job of the task ends behind.
pub due_iff :
    (r : StartReplies) (p o n : ℕ) (jobs : ℕ → Bool) (t t' : Task)
    → 0 < p
    → start r (pos o) t ≡ (t', true)
    → ((count_down (pos p) (notify_times (pos p) jobs n t')).1 ≡ true) ↔ ((k : ℕ) × (n ≡ o + k * p))
due_iff r p o n jobs t t' hp h = Phase-due p o hp n _ (phase p o hp jobs n t' (started r o t t' h))
