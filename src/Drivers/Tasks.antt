-- ===== src/Drivers/Tasks.antt =====
-- library/drivers/GT_DriverNumTaskOverloads.cpp, GT_DriverNumCPUOverloads.cpp and
-- GT_DriverStopExecution.cpp, for the target. The names of the tasks are the generated model's.
pub mod Lookup
use generic_target.Base.{
  ◌==◌, if◌then◌else◌, length, take, ℕ, ◌+◌, Bool, not, Option, none, some, List, [], ◌∷◌,
}
use generic_target.Base.Bytes.{same_bytes}
use generic_target.Scheduler.{
  BaseRateScheduler, get_num_task_overloads, get_num_cpu_overloads, get_num_lost_ticks,
}

-- The loop over the ids from `id` on: the first task with the name.
unfoldable pub find_task : List ℕ → ℕ → List (List ℕ) → Option ℕ
find_task name id [] = none
find_task name id (n ∷ names) =
    let rest : Option ℕ = find_task name (id + 1) names in
    if same_bytes name n then some id else rest

-- `GT_DriverNumTaskOverloadsStep`: the first `length` characters at `task_name` are the name.
unfoldable pub num_task_overloads_step : List (List ℕ) → List ℕ → ℕ → BaseRateScheduler → ℕ
num_task_overloads_step names task_name length s =
    elim (find_task (take length task_name) 0 names) [
      | none ↦ 0
      | some id ↦ get_num_task_overloads id s
    ]

unfoldable pub num_cpu_overloads_step : BaseRateScheduler → ℕ × ℕ
num_cpu_overloads_step s = (get_num_cpu_overloads s, get_num_lost_ticks s)

-- `GT_DriverStopExecutionStep`: whether it calls `ShouldTerminate`.
unfoldable pub stop_execution_step : ℕ → Bool
stop_execution_step stop_execution = not (stop_execution == 0)
