-- ===== src/App/Termination/Ends.antt =====
-- A request to terminate ends the run.
use generic_target.Base.{ℕ}
use generic_target.App.Termination.{
  Process, Move, wake, join_threads, clear_flag, destroy_semaphore, thread_posts,
}

-- A move of the main thread behind its wait that no failure of `sem_wait` makes, or of a thread that
-- is in `ShouldTerminate` already: none of them is a signal or another call of `ShouldTerminate`.
abbrev pub IsOwn : {m : ℕ} {s t : Process} → Move m s t → Type 0
IsOwn (wake p w) = Unit
IsOwn (join_threads p a) = Unit
IsOwn (clear_flag p) = Unit
IsOwn (destroy_semaphore ok p) = Unit
IsOwn (thread_posts a) = Unit
IsOwn _ = ⊥

-- The states reached with nothing new asked.
pub data Quiet (m : ℕ) (s : Process) : Process → Type 0 where
  stays : Quiet m s s
  moves : {t u : Process} → Quiet m s t → (x : Move m t u) → IsOwn x → Quiet m s u
