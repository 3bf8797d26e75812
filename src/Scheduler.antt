-- ===== src/Scheduler.antt =====
-- core/code/GenericTarget/GT_BaseRateScheduler.{hpp,cpp}: the worker tasks, the master thread and
-- their start and stop. The timings are those of the generated model.
pub mod Threads
pub mod Ticks
pub mod Master
pub mod Tests
use generic_target.Base.{
  if◌then◌else◌, get_elem?, ℕ, zero, suc, Bool, true, false, not, ◌&&◌, ◌||◌, none, some, List, [],
  ◌∷◌, ◌++◌, map,
}
use generic_target.Base.Int.{ℤ}
use generic_target.Task.{Task, StartReplies, new_task, start, stop, notify}
use generic_target.Timer.{PeriodicTimer, cancel_timer, stop_timer}

-- A task of the model, and the answers of the system to its start and stop.
pub record Timing : Type 0 where
  pub sample_ticks : ℤ
  pub offset_ticks : ℤ
  pub replies : StartReplies

-- `deleted` are the tasks that have been deleted, as they were then.
pub record BaseRateScheduler : Type 0 where
  pub started : Bool
  pub terminate : Bool
  pub tasks : List Task
  pub master_joinable : Bool
  pub master_clock : PeriodicTimer
  pub deleted : List Task

-- The tasks that `StartWorkerThreads` makes, one for each timing, and whether all have started.
unfoldable pub started_tasks : List Timing → List Task × Bool
started_tasks [] = ([], true)
started_tasks (x ∷ xs) =
    let (t, ok) = start x.replies x.offset_ticks new_task in
    let (ts, all) = started_tasks xs in (t ∷ ts, ok && all)

unfoldable pub start_worker_threads : List Timing → BaseRateScheduler → BaseRateScheduler × Bool
start_worker_threads xs s =
    let (ts, ok) = started_tasks xs in (record s { tasks = s.tasks ++ ts }, ok)

-- `StopWorkerThreads`: every task is stopped, then deleted, where its destructor stops it again.
unfoldable pub stop_worker_threads : Bool → BaseRateScheduler → BaseRateScheduler
stop_worker_threads sem_destroy s = record s {
  tasks = [];
  deleted = s.deleted ++ map (λ t. stop sem_destroy (stop sem_destroy t)) s.tasks;
}

unfoldable pub stop_master_thread : BaseRateScheduler → BaseRateScheduler
stop_master_thread s = record s {
  terminate = false;
  master_joinable = false;
  master_clock = stop_timer (cancel_timer s.master_clock).0;
}

-- `priority` is the answer to `pthread_setschedparam`, `debug` the flag DEBUG.
unfoldable pub start_master_thread : Bool → Bool → BaseRateScheduler → BaseRateScheduler × Bool
start_master_thread priority debug s =
    let t : BaseRateScheduler = record s { master_joinable = true } in
    if priority || debug then (t, true) else (stop_master_thread t, false)

unfoldable pub start_scheduler :
    List Timing → Bool → Bool → Bool → BaseRateScheduler → BaseRateScheduler × Bool
start_scheduler xs priority debug sem_destroy s =
    let (t, workers) = start_worker_threads xs s in
    let (u, master) = start_master_thread priority debug t in
    if s.started
    then (s, true)
    else if not workers
    then (stop_worker_threads sem_destroy t, false)
    else if not master
    then (stop_worker_threads sem_destroy u, false)
    else (record u { started = true }, true)

unfoldable pub stop_scheduler : Bool → BaseRateScheduler → BaseRateScheduler
stop_scheduler sem_destroy s =
    if s.started
    then record (stop_worker_threads sem_destroy (stop_master_thread s)) { started = false }
    else s

-- The master thread's call of `Notify` for every task, with the model's sample ticks.
unfoldable pub notify_all : List Timing → List Task → List Task
notify_all [] ts = ts
notify_all (x ∷ xs) [] = []
notify_all (x ∷ xs) (t ∷ ts) = (notify x.sample_ticks t).0 ∷ notify_all xs ts

-- The tasks after `n` ticks.
unfoldable pub ticks : List Timing → ℕ → List Task → List Task
ticks xs zero ts = ts
ticks xs (suc n) ts = notify_all xs (ticks xs n ts)

-- The getters: 0 where no task has the id.
unfoldable pub get_num_task_overloads : ℕ → BaseRateScheduler → ℕ
get_num_task_overloads id s = elim (get_elem? s.tasks id) [
  | none ↦ 0
  | some t ↦ t.num_task_overloads
]

abbrev pub get_num_cpu_overloads : BaseRateScheduler → ℕ
get_num_cpu_overloads s = s.master_clock.num_cpu_overloads

abbrev pub get_num_lost_ticks : BaseRateScheduler → ℕ
get_num_lost_ticks s = s.master_clock.num_lost_ticks
