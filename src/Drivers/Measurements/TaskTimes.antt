-- ===== src/Drivers/Measurements/TaskTimes.antt =====
-- The execution time that a block reads for a task by its name.
use generic_target.Base.{take, ℕ, ◌≡◌, refl, ap, List, arith}
use generic_target.Base.Int.{pos}
use generic_target.Drivers.Tasks.Lookup.{FirstAt, Nowhere, find_task-FirstAt, find_task-Nowhere}
use generic_target.Drivers.Measurements.{Double, get_task_execution_time, task_execution_time_step}

module _ {D : Type 0} (d : Double D) (names : List (List ℕ)) (name : List ℕ) (n : ℕ) where
  -- The first task with the name has its time read, or -1 where the scheduler has no such task.
  pub task_execution_time_step-FirstAt :
      (times : List D) (i : ℕ)
      → FirstAt (take n name) i names
      → task_execution_time_step d names name n times ≡ get_task_execution_time d times i
  unfolding task_execution_time_step
  task_execution_time_step-FirstAt times i f =
      rw (find_task-FirstAt (take n name) 0 i names f, task_execution_time_step)
        (ap (get_task_execution_time d times) (omega arith))

  -- A name that no task has is read as 0.
  pub task_execution_time_step-Nowhere :
      (times : List D)
      → Nowhere (take n name) names
      → task_execution_time_step d names name n times ≡ d.of_ℤ (pos 0)
  unfolding task_execution_time_step
  task_execution_time_step-Nowhere times f =
      rw (find_task-Nowhere (take n name) 0 names f, task_execution_time_step) refl
