-- ===== src/Task/System/Stopping.antt =====
-- `PeriodicTask::Stop` never waits for ever at `join`.
use generic_target.Base.{ℕ, suc, ◌-◌, ◌≡◌, refl, ◌⊎◌, inl, inr, true, false, arith}
use generic_target.Base.Int.{ℤ}
use generic_target.Task.{Task, start, StartReplies}
use generic_target.Task.System.{
  joins, Worker, waits, woken, steps, exited, failed, System, begin, Move, wake, leave, run, finish,
  Reach,
}
use generic_target.Task.System.Accounting.{Inv, Reach-Inv, begin-Inv}

-- A move of the worker thread that no failure of the system makes.
abbrev pub IsWorker : {p : ℤ} {s t : System} → Move p s t → Type 0
IsWorker (wake w e) = Unit
IsWorker (leave w e) = Unit
IsWorker (run w e) = Unit
IsWorker (finish w) = Unit
IsWorker _ = ⊥

-- The states that the worker thread reaches alone.
pub data Alone (p : ℤ) (s : System) : System → Type 0 where
  stays : Alone p s s
  moves : {t u : System} → Alone p s t → (m : Move p t u) → IsWorker m → Alone p s u

before : {p : ℤ} {s t u : System} (m : Move p s t) → IsWorker m → Alone p t u → Alone p s u
before m o stays = moves stays m o
before m o (moves a k q) = moves (before m o a) k q

-- The worker comes to its end alone, and `Stop` is still at `join`, which then returns.
abbrev pub Ends : ℤ → System → Type 0
Ends p s =
    (u : System) × Alone p s u × (u.owner ≡ joins) × ((u.worker ≡ exited) ⊎ (u.worker ≡ failed))

Ends-first : (p : ℤ) {s t : System} (m : Move p s t) → IsWorker m → Ends p t → Ends p s
Ends-first p m o (u, a, e, f) = (u, before m o a, e, f)

module _ (p : ℤ) where
  woken-Ends :
      (s : System) → s.owner ≡ joins → s.worker ≡ woken → s.task.terminate ≡ true → Ends p s
  woken-Ends s o w e = Ends-first p (leave w e) tt (_, stays, o, inl refl)

  waits-Ends :
      (s : System) (n : ℕ)
      → s.owner ≡ joins
      → s.worker ≡ waits
      → s.sem ≡ suc n
      → s.task.terminate ≡ true
      → Ends p s
  waits-Ends s n o w e f = Ends-first p (wake w e) tt (woken-Ends _ o refl f)

  steps-Ends :
      (s : System) (n : ℕ)
      → s.owner ≡ joins
      → s.worker ≡ steps
      → s.sem ≡ suc n
      → s.task.terminate ≡ true
      → Ends p s
  steps-Ends s n o w e f = Ends-first p (finish w) tt (waits-Ends _ n o refl e f)

  pub Inv-Ends : (s : System) → Inv s → s.owner ≡ joins → Ends p s
  Inv-Ends s v o = by_worker s.worker refl
    where
      token : (s.worker ≡ waits) ⊎ (s.worker ≡ steps) → s.sem ≡ suc (s.sem - 1)
      token w = ground (arith, v.tokens, v.in_step)

      ending : s.task.terminate ≡ true
      ending = ground (arith, v.in_stop)

      by_worker : (w : Worker) → s.worker ≡ w → Ends p s
      by_worker waits e = waits-Ends s (s.sem - 1) o e (token (inl e)) ending
      by_worker woken e = woken-Ends s o e ending
      by_worker steps e = steps-Ends s (s.sem - 1) o e (token (inr e)) ending
      by_worker exited e = (s, stays, o, inl e)
      by_worker failed e = (s, stays, o, inr e)

-- Whenever `Stop` stands at `join`, in a state that a started task can reach, the worker thread comes
-- to its end by its own moves, with no error of `sem_wait`, so that `join` returns: the post that
-- `Stop` makes is never lost or used up.
pub stop-Ends :
    (r : StartReplies) (o p : ℤ) (t t' : Task)
    → t.terminate ≡ false
    → start r o t ≡ (t', true)
    → {s : System} → Reach p (begin t') s
    → s.owner ≡ joins
    → Ends p s
stop-Ends r o p t t' fresh begun {s} reached at_join =
    Inv-Ends p s (Reach-Inv p (begin-Inv r o t t' fresh begun) reached) at_join
