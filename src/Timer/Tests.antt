-- ===== src/Timer/Tests.antt =====
-- Runs of the timer, and the theorems about it at concrete inputs.
use generic_target.Base.{◌≡◌, refl, true, false, none, some, List, [], ◌∷◌}
use generic_target.Timer.{
  Answers, PeriodicTimer, positive, start_timer, stop_timer, look, events, ticked, expirations,
  Look, wait_for_tick, wait_loop, scan, count_read,
}
use generic_target.Timer.Start.{start_timer-Outcome}
use generic_target.Timer.Clock.{tick_calls}

abbrev idle_timer : PeriodicTimer
idle_timer = record {
  epoll_fd = none;
  cancel_fd = none;
  timer_fd = none;
  num_cpu_overloads = 0;
  num_lost_ticks = 0;
  is_running = false;
  is_started = false;
  descriptors = 0 ∷ 1 ∷ 2 ∷ [];
  expired = 0;
}

-- The timer descriptor cannot be added to the epoll instance.
abbrev refused : Answers
refused = record {
  epoll = some 3;
  event = some 4;
  timer = some 5;
  add_event = true;
  add_timer = false;
  set_time = true;
}

start_timer-Outcome_example :
    ((start_timer refused (positive 0 1000000) idle_timer).1 ≡ false
      → (start_timer refused (positive 0 1000000) idle_timer).0 ≡ idle_timer)
    × ((start_timer refused (positive 0 1000000) idle_timer).1 ≡ true
        → ((start_timer refused (positive 0 1000000) idle_timer).0.is_running ≡ true)
          × ((stop_timer (start_timer refused (positive 0 1000000) idle_timer).0).descriptors
              ≡ idle_timer.descriptors))
start_timer-Outcome_example = start_timer-Outcome refused idle_timer (positive 0 1000000)

abbrev running_timer : PeriodicTimer
running_timer = record idle_timer { is_running = true; is_started = true; timer_fd = some 5 }

-- A tick in time, and one behind which two are lost.
abbrev two_calls : List (List Look)
two_calls =
    (look true (events (ticked (expirations 1) true ∷ [])) ∷ [])
    ∷ (look true (events (ticked (expirations 3) true ∷ [])) ∷ [])
    ∷ []

two_calls_tick : (tick_calls two_calls running_timer).1 ≡ true
unfolding tick_calls wait_for_tick wait_loop scan count_read
two_calls_tick = refl

two_calls_lost : (tick_calls two_calls running_timer).0.num_lost_ticks ≡ 2
unfolding tick_calls wait_for_tick wait_loop scan count_read
two_calls_lost = refl
