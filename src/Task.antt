-- ===== src/Task.antt =====
-- core/code/GenericTarget/GT_PeriodicTask.{hpp,cpp}: one worker task and its notification by the
-- master thread. The semaphore and the worker thread stand in `Task.System`.
pub mod Timing
pub mod System
pub mod Priority
pub mod Tests
use generic_target.Base.{ltb, if◌then◌else◌, ℕ, ◌+◌, ◌-◌, ◌%◌, ◌^◌, Bool, true, false, not, ◌||◌}
use generic_target.Base.Int.{is_neg, dec32, sub_ℕ, clamp, ℤ, pos, negsuc}

-- The members that `Start`, `Stop`, `Notify` and `Thread` share. `joinable` is `m_thread.joinable()`.
pub record Task : Type 0 where
  pub started : Bool
  pub terminate : Bool
  pub job_pending_or_running : Bool
  pub num_task_overloads : ℕ  -- uint64_t
  pub ticks : ℤ  -- int32_t
  pub offset_samples : ℤ  -- int32_t
  pub joinable : Bool

abbrev pub new_task : Task
new_task = record {
  started = false;
  terminate = false;
  job_pending_or_running = false;
  num_task_overloads = 0;
  ticks = pos 0;
  offset_samples = pos 0;
  joinable = false;
}

abbrev pub base_priority : ℕ
base_priority = 49

-- `basePriority - static_cast<int32_t>(taskID + 1)`; the cast reads a word from 2 ^ 31 on as
-- negative.
abbrev below_base : ℕ → ℤ
below_base task_id =
    let w : ℕ = (task_id + 1) % 2 ^ 32 in
    if ltb w (2 ^ 31) then sub_ℕ base_priority w else pos (base_priority + (2 ^ 32 - w))

-- The priority of the worker thread, within the system's range [lo, hi] for SCHED_FIFO.
unfoldable pub task_priority : ℕ → ℕ → ℕ → ℕ
task_priority lo hi task_id = clamp (pos (clamp (below_base task_id) 1 99)) lo hi

-- What the system answers to the calls of `Start` and `Stop`, and the build flag DEBUG.
pub record StartReplies : Type 0 where
  pub sem_init : Bool
  pub set_sched_param : Bool
  pub sem_destroy : Bool
  pub debug : Bool

unfoldable pub stop : Bool → Task → Task
stop sem_destroy t =
    if t.started
    then record t { started = not sem_destroy; terminate = false; joinable = false }
    else record t { terminate = false }

unfoldable pub start : StartReplies → ℤ → Task → Task × Bool
unfolding stop
start r offset_ticks t =
    if t.started
    then (t, false)
    else if not r.sem_init
    then (t, false)
    else (let t' : Task = record t {
      started = true;
      ticks = pos 1;
      offset_samples = offset_ticks;
      job_pending_or_running = false;
      num_task_overloads = 0;
      joinable = true;
    } in
        if r.set_sched_param || r.debug then (t', true) else (stop r.sem_destroy t', false))

-- `x < 1` on int32_t.
abbrev less_one : ℤ → Bool
less_one (pos n) = ltb n 1
less_one (negsuc n) = true

-- The first part of `Notify`: the two counters, and whether the task is due at this tick.
unfoldable pub count_down : ℤ → Task → Task × Bool
count_down sample_ticks t =
    let o : ℤ = dec32 t.offset_samples in
    if is_neg o
    then (let k : ℤ = dec32 t.ticks in
        if less_one k
        then (record t { offset_samples = pos 0; ticks = sample_ticks }, true)
        else (record t { offset_samples = pos 0; ticks = k }, false))
    else (record t { offset_samples = o }, false)

-- The second part: the compare-exchange. The flag says whether `sem_post` follows.
unfoldable pub accept : Task → Task × Bool
accept t =
    if t.job_pending_or_running
    then (record t { num_task_overloads = (t.num_task_overloads + 1) % 2 ^ 64 }, false)
    else (record t { job_pending_or_running = true }, true)

unfoldable pub notify : ℤ → Task → Task × Bool
unfolding count_down accept
notify sample_ticks t =
    let (t', due) = count_down sample_ticks t in if due then accept t' else (t', false)
