-- ===== src/Scheduler/Master.antt =====
-- core/code/GenericTarget/GT_BaseRateScheduler.cpp: `MasterThread`, with the timer and the tasks.
pub mod Delivery
use generic_target.Base.{if◌then◌else◌, Bool, not, Option, none, some, List, [], ◌∷◌}
use generic_target.Base.Int.{is_neg, eq_ℤ, ℤ, pos}
use generic_target.Timer.{Look, Answers, Sampletime, wait_for_tick, start_timer, PeriodicTimer}
use generic_target.Scheduler.{Timing, BaseRateScheduler, notify_all}

-- A round of the loop: `m_terminate` at its test, what `WaitForTick` looks at, and `m_terminate`
-- behind it.
pub record Round : Type 0 where
  pub terminate_before : Bool
  pub looks : List Look
  pub terminate_behind : Bool

-- In the loop; ended; or ended with a call of `ShouldTerminate`.
pub data MasterState : Type 0 where
  loops ended failed : MasterState

-- A round behind `WaitForTick`, where `rest` is what follows if the loop goes on.
abbrev pub behind_wait :
    Bool
    → BaseRateScheduler
    → PeriodicTimer
    → Option ℤ
    → BaseRateScheduler × MasterState
    → BaseRateScheduler × MasterState
behind_wait terminate s clock none rest = (record s { master_clock = clock }, loops)
behind_wait terminate s clock (some x) rest =
    if is_neg x
    then (record s { master_clock = clock }, failed)
    else if eq_ℤ x (pos 0)
    then (record s { master_clock = clock }, ended)
    else if terminate
    then (record s { master_clock = clock }, ended)
    else rest

unfoldable pub master_loop :
    List Timing → List Round → BaseRateScheduler → BaseRateScheduler × MasterState
master_loop xs [] s = (s, loops)
master_loop xs (r ∷ rs) s =
    let (clock, result) = wait_for_tick r.looks s.master_clock in
    let rest : BaseRateScheduler × MasterState =
      master_loop xs rs (record s { master_clock = clock; tasks = notify_all xs s.tasks }) in
    if r.terminate_before then (s, ended) else behind_wait r.terminate_behind s clock result rest

unfoldable pub master_thread :
    Answers
    → Sampletime
    → List Timing
    → List Round
    → BaseRateScheduler
    → BaseRateScheduler × MasterState
master_thread a period xs rs s =
    let (clock, started) = start_timer a period s.master_clock in
    let t : BaseRateScheduler = record s { master_clock = clock } in
    let rest : BaseRateScheduler × MasterState = master_loop xs rs t in
    if not started then (t, failed) else rest
