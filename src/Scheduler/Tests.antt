-- ===== src/Scheduler/Tests.antt =====
-- Runs of the scheduler, and the theorems about it at concrete inputs.
use generic_target.Base.{◌≡◌, refl, true, false, none, some, List, [], ◌∷◌, arith}
use generic_target.Base.Int.{pos}
use generic_target.Task.{StartReplies, start, stop}
use generic_target.Scheduler.{
  Timing, BaseRateScheduler, started_tasks, start_scheduler, ticks, start_worker_threads, start,
  stop,
}
use generic_target.Timer.{
  look, events, ticked, expirations, wait_for_tick, wait_loop, scan, count_read,
}
use generic_target.Scheduler.Master.{Round, master_loop}
use generic_target.Scheduler.Master.Delivery.{Delivered, master_loop-Delivered}
use generic_target.Scheduler.Threads.{Clean, start_scheduler-Clean}
use generic_target.Scheduler.Ticks.{AllDue, started_tasks-AllDue}

abbrev granted : StartReplies
granted = record { sem_init = true; set_sched_param = true; sem_destroy = true; debug = false }

abbrev refused : StartReplies
refused = record { sem_init = true; set_sched_param = false; sem_destroy = true; debug = false }

abbrev two_timings : List Timing
two_timings =
    record { sample_ticks = pos 1; offset_ticks = pos 0; replies = granted }
    ∷ record { sample_ticks = pos 5; offset_ticks = pos 2; replies = granted }
    ∷ []

abbrev second_refused : List Timing
second_refused =
    record { sample_ticks = pos 1; offset_ticks = pos 0; replies = granted }
    ∷ record { sample_ticks = pos 5; offset_ticks = pos 2; replies = refused }
    ∷ []

abbrev idle_scheduler : BaseRateScheduler
idle_scheduler = record {
  started = false;
  terminate = false;
  tasks = [];
  master_joinable = false;
  master_clock = record {
    epoll_fd = none;
    cancel_fd = none;
    timer_fd = none;
    num_cpu_overloads = 0;
    num_lost_ticks = 0;
    is_running = false;
    is_started = false;
    descriptors = [];
    expired = 0;
  };
  deleted = [];
}

idle_scheduler-Clean : Clean idle_scheduler
idle_scheduler-Clean = record { running = tt; joined = tt; idle = λ e. (refl, refl) }

start_scheduler-Clean_example :
    Clean (start_scheduler second_refused true false true idle_scheduler).0
    × ((start_scheduler second_refused true false true idle_scheduler).0.started
        ≡ (start_scheduler second_refused true false true idle_scheduler).1)
start_scheduler-Clean_example =
    start_scheduler-Clean second_refused true false true idle_scheduler idle_scheduler-Clean

second_refused_fails : (start_scheduler second_refused true false true idle_scheduler).1 ≡ false
unfolding start_scheduler start_worker_threads started_tasks start stop
second_refused_fails = refl

abbrev started_scheduler : BaseRateScheduler
started_scheduler = (start_scheduler two_timings true false true idle_scheduler).0

two_timings_start : (started_tasks two_timings).1 ≡ true
unfolding started_tasks start
two_timings_start = refl

started_tasks-AllDue_example :
    AllDue 7 two_timings (ticks two_timings 7 (started_tasks two_timings).0)
started_tasks-AllDue_example =
    started_tasks-AllDue two_timings 7 ((refl, refl, omega arith), ((refl, refl, omega arith), tt))
      two_timings_start

-- A tick in time, a tick behind which two are lost, and one that is read when the thread ends.
abbrev three_rounds : List Round
three_rounds =
    record {
      terminate_before = false;
      looks = look true (events (ticked (expirations 1) true ∷ [])) ∷ [];
      terminate_behind = false;
    }
    ∷ record {
      terminate_before = false;
      looks = look true (events (ticked (expirations 3) true ∷ [])) ∷ [];
      terminate_behind = false;
    }
    ∷ record {
      terminate_before = false;
      looks = look true (events (ticked (expirations 1) true ∷ [])) ∷ [];
      terminate_behind = true;
    }
    ∷ []

abbrev ticking : BaseRateScheduler
ticking = record idle_scheduler {
  tasks = (started_tasks two_timings).0;
  master_clock = record (idle_scheduler.master_clock) {
    timer_fd = some 5;
    is_running = true;
    is_started = true;
  };
}

master_loop-Delivered_example :
    Delivered two_timings ticking (master_loop two_timings three_rounds ticking)
master_loop-Delivered_example =
    master_loop-Delivered two_timings three_rounds ticking
      (((omega arith, tt), tt), (((omega arith, tt), tt), (((omega arith, tt), tt), tt)))

two_are_lost : (master_loop two_timings three_rounds ticking).0.master_clock.num_lost_ticks ≡ 2
unfolding master_loop wait_for_tick wait_loop scan count_read
two_are_lost = refl
