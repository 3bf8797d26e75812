-- ===== src/Task/System.antt =====
-- core/code/GenericTarget/GT_PeriodicTask.cpp: the master thread in `Notify` and `Stop`, and the
-- worker in `Thread`, interleaved at each access of the semaphore and of the shared members.
pub mod Accounting
pub mod Stopping
use generic_target.Base.{ℕ, suc, ◌+◌, ◌≡◌, ◌⊎◌, true, false}
use generic_target.Base.Int.{ℤ}
use generic_target.Task.{Task, count_down, accept}

-- Where the thread that owns the task stands: between calls, before `sem_post` in `Notify`, at
-- `join` in `Stop`, or behind it.
pub data Owner : Type 0 where
  calls posts joins stopped : Owner

-- Where `Thread` stands: at `sem_wait`, behind it, in the model's step function, left by the test
-- of `m_terminate`, or left by an error of `sem_wait`.
pub data Worker : Type 0 where
  waits woken steps exited failed : Worker

-- `released` counts the notifications that were due, `completed` the jobs that ended.
pub record System : Type 0 where
  pub task : Task
  pub sem : ℕ
  pub owner : Owner
  pub worker : Worker
  pub released : ℕ
  pub completed : ℕ

-- After a start that succeeds.
abbrev pub begin : Task → System
begin t = record { task = t; sem = 0; owner = calls; worker = waits; released = 0; completed = 0 }

-- `p` is the entry of `sampleTicks` for the task.
pub data Move (p : ℤ) (s : System) : System → Type 0 where
  not_due :
      {t : Task}
      → s.owner ≡ calls
      → count_down p s.task ≡ (t, false)
      → Move p s (record s { task = t })
  overload :
      {t u : Task}
      → s.owner ≡ calls
      → count_down p s.task ≡ (t, true)
      → accept t ≡ (u, false)
      → Move p s (record s { task = u; released = s.released + 1 })
  accepted :
      {t u : Task}
      → s.owner ≡ calls
      → count_down p s.task ≡ (t, true)
      → accept t ≡ (u, true)
      → Move p s (record s { task = u; owner = posts; released = s.released + 1 })
  post : s.owner ≡ posts → Move p s (record s { owner = calls; sem = s.sem + 1 })
  stop_post :
      s.owner ≡ calls
      → Move p s
          (record s { task = record (s.task) { terminate = true }; owner = joins; sem = s.sem + 1 })
  join :
      s.owner ≡ joins
      → (s.worker ≡ exited) ⊎ (s.worker ≡ failed)
      → Move p s (record s {
        task = record (s.task) { terminate = false; started = false; joinable = false };
        owner = stopped;
      })
  interrupted : s.worker ≡ waits → Move p s s
  wake :
      {n : ℕ} → s.worker ≡ waits → s.sem ≡ suc n → Move p s (record s { sem = n; worker = woken })
  -- An error of `sem_wait` other than EINTR, which the system may answer at any time.
  wait_error : s.worker ≡ waits → Move p s (record s { worker = failed })
  leave : s.worker ≡ woken → s.task.terminate ≡ true → Move p s (record s { worker = exited })
  run : s.worker ≡ woken → s.task.terminate ≡ false → Move p s (record s { worker = steps })
  finish :
      s.worker ≡ steps
      → Move p s (record s {
        task = record (s.task) { job_pending_or_running = false };
        worker = waits;
        completed = s.completed + 1;
      })

pub data Reach (p : ℤ) (s : System) : System → Type 0 where
  here : Reach p s s
  next : {t u : System} → Reach p s t → Move p t u → Reach p s u
