-- ===== src/Task/Tests.antt =====
-- Runs of the task model, and the theorems about it at concrete inputs.
use generic_target.Base.{◌==◌, ℕ, ◌+◌, ◌*◌, ◌%◌, ◌^◌, ◌≡◌, refl, ◌↔◌, ◌⊎◌, true, false, arith}
use generic_target.Base.Int.{pos}
use generic_target.Task.{Task, new_task, StartReplies, start, count_down, notify, task_priority}
use generic_target.Task.Timing.{notify_times, due_iff}
use generic_target.Task.System.{
  calls, joins, steps, exited, failed, System, begin, accepted, post, wake, run, stop_post, Reach,
  here, next,
}
use generic_target.Task.System.Accounting.{bit, released_counted}
use generic_target.Task.System.Stopping.{Alone, stop-Ends}

abbrev granted : StartReplies
granted = record { sem_init = true; set_sched_param = true; sem_destroy = true; debug = false }

-- A task with offset 1 and three sample ticks.
abbrev started : Task
started = record {
  started = true;
  terminate = false;
  job_pending_or_running = false;
  num_task_overloads = 0;
  ticks = pos 1;
  offset_samples = pos 1;
  joinable = true;
}

start_succeeds : start granted (pos 1) new_task ≡ (started, true)
unfolding start
start_succeeds = refl

-- The first job ends in time.
in_time : (notify_times (pos 3) (λ _. true) 5 started).num_task_overloads ≡ 0
unfolding notify_times notify
in_time = refl

-- Due at ticks 1 and 4; the second is an overload, since the first job has not ended.
fifth_tick : (notify_times (pos 3) (λ _. false) 5 started).num_task_overloads ≡ 1
unfolding notify_times notify
fifth_tick = refl

due_iff_example :
    ((count_down (pos 3) (notify_times (pos 3) (λ i. i == 2) 4 started)).1 ≡ true)
    ↔ ((k : ℕ) × (4 ≡ 1 + k * 3))
unfolding start
due_iff_example = due_iff granted 3 1 4 (λ i. i == 2) new_task started (omega arith) start_succeeds

first_priority : task_priority 1 99 0 ≡ 48
unfolding task_priority
first_priority = refl

-- Offset 0: due at once.
abbrev prompt : Task
prompt = record started { offset_samples = pos 0 }

start-prompt : start granted (pos 0) new_task ≡ (prompt, true)
unfolding start
start-prompt = refl

abbrev queued : Task
queued = record prompt { ticks = pos 3; job_pending_or_running = true }

-- The first notification, posted and taken by the worker, which is in the step function.
abbrev stepping : System
stepping = record {
  task = queued;
  sem = 0;
  owner = calls;
  worker = steps;
  released = 1;
  completed = 0;
}

stepping_reached : Reach (pos 3) (begin prompt) stepping
unfolding notify
stepping_reached =
    next
      (next
        (next
          (next here (accepted {t = record prompt { ticks = pos 3 }} {u = queued} refl refl refl))
          (post refl))
        (wake refl refl))
      (run refl refl)

-- The same, with `Stop` at `join`.
abbrev ending : System
ending = record stepping { task = record queued { terminate = true }; owner = joins; sem = 1 }

released_counted_example : 1 % 2 ^ 64 ≡ (0 + 0 + bit true) % 2 ^ 64
released_counted_example =
    released_counted granted (pos 0) (pos 3) new_task prompt refl start-prompt stepping_reached

stop-Ends_example :
    (u : System) × Alone (pos 3) ending u
    × (u.owner ≡ joins)
    × ((u.worker ≡ exited) ⊎ (u.worker ≡ failed))
stop-Ends_example =
    stop-Ends granted (pos 0) (pos 3) new_task prompt refl start-prompt {s = ending}
      (next stepping_reached (stop_post refl)) refl
