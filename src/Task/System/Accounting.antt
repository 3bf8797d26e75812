-- ===== src/Task/System/Accounting.antt =====
-- What holds in every reachable state of the owner and the worker of a task.
use generic_target.Base.{ℕ, ◌+◌, ◌%◌, ◌^◌, ◌≤◌, ◌≡◌, sym, ◌⊎◌, Bool, true, false, arith}
use generic_target.Base.Int.{ℤ}
use generic_target.Task.{Task, count_down, accept, start, StartReplies}
use generic_target.Task.System.{
  Owner, calls, posts, joins, stopped, Worker, woken, steps, exited, failed, System, begin, Move,
  not_due, overload, accepted, post, stop_post, join, interrupted, wake, wait_error, leave, run,
  finish, Reach, here, next,
}

abbrev pub bit : Bool → ℕ
bit true = 1
bit false = 0

abbrev posting : Owner → ℕ
posting posts = 1
posting _ = 0

abbrev stopping : Owner → ℕ
stopping joins = 1
stopping stopped = 1
stopping _ = 0

-- A token of the semaphore that the worker has taken and not given back.
abbrev taken : Worker → ℕ
taken woken = 1
taken steps = 1
taken exited = 1
taken _ = 0

abbrev InStep : Worker → Task → Type 0
InStep steps t = t.job_pending_or_running ≡ true
InStep _ t = Unit

-- `m_terminate` is set while `Stop` waits for the worker, and the worker is gone behind that.
abbrev InStop : Owner → Worker → Task → Type 0
InStop joins w t = t.terminate ≡ true
InStop stopped w t = (t.terminate ≡ false) × ((w ≡ exited) ⊎ (w ≡ failed))
InStop _ w t = t.terminate ≡ false

pub record Inv (s : System) : Type 0 where
  pub tokens :
      s.sem + posting s.owner + taken s.worker
      ≡ bit s.task.job_pending_or_running + stopping s.owner
  pub in_step : InStep s.worker s.task
  pub in_stop : InStop s.owner s.worker s.task
  pub counted :
      (s.completed + s.task.num_task_overloads + bit s.task.job_pending_or_running) % 2 ^ 64
      ≡ s.released % 2 ^ 64

-- The countdown touches none of the other members.
abbrev Same : Task → Task → Type 0
Same t u =
    (u.job_pending_or_running ≡ t.job_pending_or_running)
    × (u.num_task_overloads ≡ t.num_task_overloads)
    × (u.terminate ≡ t.terminate)

count_down-Same : (p : ℤ) (t u : Task) (due : Bool) → count_down p t ≡ (u, due) → Same t u
unfolding count_down
count_down-Same p t u due h = ground arith

abbrev Accepts : Task → Task → Bool → Type 0
Accepts t u posted =
    (u.terminate ≡ t.terminate)
    × (u.job_pending_or_running ≡ true)
    × (((posted ≡ true)
          × (t.job_pending_or_running ≡ false)
          × (u.num_task_overloads ≡ t.num_task_overloads))
        ⊎ ((posted ≡ false)
            × (t.job_pending_or_running ≡ true)
            × (u.num_task_overloads ≡ (t.num_task_overloads + 1) % 2 ^ 64)))

accept-Accepts : (t u : Task) (posted : Bool) → accept t ≡ (u, posted) → Accepts t u posted
unfolding accept
accept-Accepts t u posted h = ground arith

module _ (p : ℤ) {s : System} (v : Inv s) where
  count_down-Inv :
      (t : Task) (due : Bool)
      → s.owner ≡ calls
      → count_down p s.task ≡ (t, due)
      → Inv (record s { task = t })
  count_down-Inv t due o h = ground (arith, count_down-Same p s.task t due h)

  pub Move-Inv : {t : System} → Move p s t → Inv t
  Move-Inv (not_due {t} o h) = count_down-Inv t false o h
  Move-Inv (overload {t} {u} o h a) =
      ground (arith, count_down-Same p s.task t true h, accept-Accepts t u false a)
  Move-Inv (accepted {t} {u} o h a) =
      ground (arith, count_down-Same p s.task t true h, accept-Accepts t u true a)
  Move-Inv (post o) = ground arith
  Move-Inv (stop_post o) = ground arith
  Move-Inv (join o w) = ground arith
  Move-Inv (interrupted w) = v
  Move-Inv (wake w e) = ground arith
  Move-Inv (wait_error w) = ground arith
  Move-Inv (leave w e) = ground arith
  Move-Inv (run w e) = ground arith
  Move-Inv (finish w) = ground arith

pub begin-Inv :
    (r : StartReplies) (o : ℤ) (t t' : Task)
    → t.terminate ≡ false
    → start r o t ≡ (t', true)
    → Inv (begin t')
unfolding start
begin-Inv r o t t' h e = ground arith

pub Reach-Inv : (p : ℤ) {s t : System} → Inv s → Reach p s t → Inv t
Reach-Inv p v here = v
Reach-Inv p v (next r m) = Move-Inv p (Reach-Inv p v r) m

module _ (r : StartReplies) (o p : ℤ) (t t' : Task) (fresh : t.terminate ≡ false)
    (begun : start r o t ≡ (t', true)) {s : System} (reached : Reach p (begin t') s) where
  inv : Inv s
  inv = Reach-Inv p (begin-Inv r o t t' fresh begun) reached

  -- In every state that the owner and the worker of a started task can reach, the notifications
  -- that were due are, modulo 2 ^ 64, the jobs that ended, the overloads that were counted and the
  -- job that is queued or running: none is lost and none is counted twice.
  pub released_counted :
      s.released % 2 ^ 64
      ≡ (s.completed + s.task.num_task_overloads + bit s.task.job_pending_or_running) % 2 ^ 64
  released_counted = sym (inv.counted)

  -- While `Stop` has not been called, at most one notification is queued, and none while a job
  -- runs: an overrun is never followed by a burst of jobs.
  pub no_backlog :
      (s.owner ≡ calls) ⊎ (s.owner ≡ posts) → (s.sem ≤ 1) × (s.worker ≡ steps → s.sem ≡ 0)
  no_backlog h = let v = inv in ground (arith, v.tokens)
