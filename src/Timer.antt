-- ===== src/Timer.antt =====
-- core/code/GenericTarget/GT_PeriodicTimer.{hpp,cpp}: the periodic timer of the master thread, over
-- the answers of the system.
pub mod Start
pub mod Clock
pub mod Results
pub mod Tests
use generic_target.Base.{
  ltb, ◌==◌, if◌then◌else◌, remove, ℕ, ◌+◌, ◌-◌, ◌%◌, ◌^◌, Bool, true, false, not, ◌&&◌, ◌||◌,
  Option, none, some, List, [], ◌∷◌,
}
use generic_target.Base.Int.{ℤ, pos, negsuc}

-- `sampletime` as `Start` takes it apart: the whole seconds and the nanoseconds behind them.
pub data Sampletime : Type 0 where
  not_finite not_positive : Sampletime
  positive : ℕ → ℕ → Sampletime

-- The members, the descriptors that the program holds, and what the timer has expired so far for the
-- reads that succeeded.
pub record PeriodicTimer : Type 0 where
  pub epoll_fd : Option ℕ
  pub cancel_fd : Option ℕ
  pub timer_fd : Option ℕ
  pub num_cpu_overloads : ℕ  -- uint64_t
  pub num_lost_ticks : ℕ  -- uint64_t
  pub is_running : Bool
  pub is_started : Bool
  pub descriptors : List ℕ
  pub expired : ℕ

-- The answers to the calls of `Start`; a negative descriptor is `none`.
pub record Answers : Type 0 where
  pub epoll : Option ℕ
  pub event : Option ℕ
  pub timer : Option ℕ
  pub add_event : Bool
  pub add_timer : Bool
  pub set_time : Bool

-- `std::numeric_limits<time_t>::max()` rounds to 2 ^ 63 - 1 in a `long double`.
abbrev time_max : ℕ
time_max = 2 ^ 63 - 1

unfoldable pub is_valid_time : Sampletime → Bool
is_valid_time not_finite = false
is_valid_time not_positive = false
is_valid_time (positive whole nanoseconds) =
    ltb whole time_max && not (whole == 0 && nanoseconds == 0)

abbrev pub take_fd : ℕ → PeriodicTimer → PeriodicTimer
take_fd fd t = record t { descriptors = fd ∷ t.descriptors }

abbrev pub close_fd : ℕ → PeriodicTimer → PeriodicTimer
close_fd fd t = record t { descriptors = remove fd t.descriptors }

-- The descriptors are set up in one nest of `Start`, each with the calls that undo those before.
unfoldable pub arm : Answers → ℕ → ℕ → ℕ → PeriodicTimer → PeriodicTimer × Bool
arm a epoll cancel timer t =
    if a.add_event && (a.add_timer && a.set_time)
    then (
      record t {
        epoll_fd = some epoll;
        cancel_fd = some cancel;
        timer_fd = some timer;
        num_cpu_overloads = 0;
        num_lost_ticks = 0;
        is_started = true;
        is_running = true;
      },
      true,
    )
    else (close_fd epoll (close_fd cancel (close_fd timer t)), false)

unfoldable pub open_timer : Answers → ℕ → ℕ → PeriodicTimer → PeriodicTimer × Bool
open_timer a epoll cancel t = elim a.timer [
  | none ↦ (close_fd epoll (close_fd cancel t), false)
  | some timer ↦ arm a epoll cancel timer (take_fd timer t)
]

unfoldable pub open_event : Answers → ℕ → PeriodicTimer → PeriodicTimer × Bool
open_event a epoll t = elim a.event [
  | none ↦ (close_fd epoll t, false)
  | some cancel ↦ open_timer a epoll cancel (take_fd cancel t)
]

unfoldable pub open_epoll : Answers → PeriodicTimer → PeriodicTimer × Bool
open_epoll a t = elim a.epoll [
  | none ↦ (t, false)
  | some epoll ↦ open_event a epoll (take_fd epoll t)
]

unfoldable pub start_timer : Answers → Sampletime → PeriodicTimer → PeriodicTimer × Bool
start_timer a period t =
    if t.is_started || (t.is_running || not (is_valid_time period))
    then (t, false)
    else open_epoll a t

-- `Cancel`: whether the event is written.
unfoldable pub cancel_timer : PeriodicTimer → PeriodicTimer × Bool
cancel_timer t = (record t { is_running = false }, t.is_running)

abbrev pub close_some : Option ℕ → PeriodicTimer → PeriodicTimer
close_some none t = t
close_some (some fd) t = close_fd fd t

-- `Stop`: the timer, the event and the epoll instance are closed in this order.
unfoldable pub stop_timer : PeriodicTimer → PeriodicTimer
stop_timer t =
    if t.is_started
    then record (close_some t.epoll_fd (close_some t.cancel_fd (close_some t.timer_fd t))) {
      timer_fd = none;
      cancel_fd = none;
      epoll_fd = none;
      is_started = false;
    }
    else t

-- What `epoll_wait` and `read` answer to `WaitForTick`. A flag is `m_isRunning` as the thread finds
-- it behind the call.
pub data Read : Type 0 where
  expirations : ℕ → Read
  interrupted failed : Read

pub data Event : Type 0 where
  cancelled other : Event
  ticked : Read → Bool → Event

pub data Wake : Type 0 where
  wait_interrupted wait_failed : Wake
  events : List Event → Wake

-- The flag behind `epoll_wait`, and its answer.
pub data Look : Type 0 where
  look : Bool → Wake → Look

-- A read of `n` expirations.
unfoldable pub count_read : ℕ → PeriodicTimer → PeriodicTimer
count_read n t =
    let u : PeriodicTimer = record t { expired = t.expired + n } in
    if ltb 1 n
    then record u {
      num_cpu_overloads = (t.num_cpu_overloads + 1) % 2 ^ 64;
      num_lost_ticks = (t.num_lost_ticks + (n - 1)) % 2 ^ 64;
    }
    else u

-- The loop over the events, with the value that it returns, if it does.
unfoldable pub scan : List Event → PeriodicTimer → PeriodicTimer × Option ℤ
scan [] t = (t, none)
scan (cancelled ∷ es) t = (t, some (pos 0))
scan (other ∷ es) t = scan es t
scan (ticked (expirations n) running ∷ es) t =
    (count_read n t, some (if running then pos 1 else pos 0))
scan (ticked interrupted running ∷ es) t =
    let rest : PeriodicTimer × Option ℤ = scan es t in if running then rest else (t, some (pos 0))
scan (ticked failed running ∷ es) t = (t, some (if running then negsuc 0 else pos 0))

abbrev pub returned :
    Option ℤ → PeriodicTimer × Option ℤ → PeriodicTimer × Option ℤ → PeriodicTimer × Option ℤ
returned none done rest = rest
returned (some x) done rest = done

-- The outer loop for the looks at its events; `none` where it still waits behind them.
unfoldable pub wait_loop : List Look → PeriodicTimer → PeriodicTimer × Option ℤ
wait_loop [] t = (t, none)
wait_loop (look false wake ∷ ls) t = (t, some (pos 0))
wait_loop (look true wait_interrupted ∷ ls) t = wait_loop ls t
wait_loop (look true wait_failed ∷ ls) t = (t, some (negsuc 0))
wait_loop (look true (events es) ∷ ls) t =
    let found : PeriodicTimer × Option ℤ = scan es t in
    let rest : PeriodicTimer × Option ℤ = wait_loop ls found.0 in returned found.1 found rest

unfoldable pub wait_for_tick : List Look → PeriodicTimer → PeriodicTimer × Option ℤ
wait_for_tick ls t =
    if not t.is_running
    then (t, some (pos 0))
    else elim t.timer_fd [ none ↦ (t, some (negsuc 0)) | some fd ↦ wait_loop ls t ]
