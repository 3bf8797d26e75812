-- ===== src/Task/Priority.antt =====
-- The priorities of the worker threads.
use generic_target.Base.{ℕ, ◌+◌, ◌^◌, ◌≤◌, ◌<◌, arith}
use generic_target.Task.{task_priority}

-- For a number of tasks below 2 ^ 31: a task with a smaller id never has a smaller priority, and
-- every priority lies in the system's range.
pub task_priority_order :
    (lo hi i j : ℕ)
    → lo ≤ hi
    → i ≤ j
    → j + 1 < 2 ^ 31
    → (task_priority lo hi j ≤ task_priority lo hi i)
      × (lo ≤ task_priority lo hi j)
      × (task_priority lo hi i ≤ hi)
unfolding task_priority
task_priority_order lo hi i j h k b = ground arith
