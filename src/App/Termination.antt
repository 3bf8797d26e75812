-- ===== src/App/Termination.antt =====
-- core/code/GenericTarget/GT_GenericTarget.cpp: `Run` with its termination semaphore, and the calls of
-- `ShouldTerminate` from the signal handler and from the threads of the application, interleaved.
pub mod Requests
pub mod Ends
pub mod Tests
use generic_target.Base.{
  ltb, if◌then◌else◌, ℕ, suc, ◌+◌, ◌≡◌, Bool, true, false, ◌||◌, Option, none, some,
}
use generic_target.Base.Int.{ℤ, pos, negsuc}

-- `Run`: before `sem_init`, before the flag is set, in `Initialize`, at `sem_wait`, in `Terminate`,
-- before the flag is cleared, before `sem_destroy`, at its end.
pub data Phase : Type 0 where
  begins ready initializes waits terminates leaves destroys ended : Phase

-- `semaphore` is the count of `m_semaphoreTerminate` while it exists, `initialized` is
-- `m_semaphoreInitialized`, `handlers` is whether `SignalHandler` is installed, and `threads` whether
-- the application has started threads of its own. `asking` counts those that are in
-- `ShouldTerminate` between its test and its `sem_post`. `requests` counts the calls of `sem_post`, and `misused`
-- is a post without a semaphore. `result` is the exit code.
pub record Process : Type 0 where
  pub phase : Phase
  pub semaphore : Option ℕ
  pub initialized : Bool
  pub handlers : Bool
  pub threads : Bool
  pub asking : ℕ
  pub requests : ℕ
  pub misused : Bool
  pub result : ℤ

abbrev pub new_process : Process
new_process = record {
  phase = begins;
  semaphore = none;
  initialized = false;
  handlers = false;
  threads = false;
  asking = 0;
  requests = 0;
  misused = false;
  result = negsuc 0;
}

abbrev pub is_gone : Option ℕ → Bool
is_gone none = true
is_gone (some n) = false

-- `sem_post`, which fails at the greatest value of a semaphore.
abbrev pub posted : ℕ → Option ℕ → Option ℕ
posted sem_max none = none
posted sem_max (some n) = if ltb n sem_max then some (n + 1) else some n

unfoldable pub sem_post : ℕ → Process → Process
sem_post sem_max s = record s {
  semaphore = posted sem_max s.semaphore;
  requests = s.requests + 1;
  misused = s.misused || is_gone s.semaphore;
}

-- `ShouldTerminate` with nothing in between: on the main thread, whose own code stands still while
-- its signal handler runs.
unfoldable pub should_terminate : ℕ → Process → Process
should_terminate sem_max s = if s.initialized then sem_post sem_max s else s

-- The test of `ShouldTerminate` on another thread.
unfoldable pub test_initialized : Process → Process
test_initialized s = if s.initialized then record s { asking = s.asking + 1 } else s

-- The main thread, the signals that reach it, and the other threads, which a signal may reach too.
-- `Terminate`, and an `Initialize` that fails, join the threads that were started.
-- `Initialize` installs the handlers before all else. `sem_max` is the greatest value of a semaphore.
pub data Move (sem_max : ℕ) (s : Process) : Process → Type 0 where
  init_semaphore :
      s.phase ≡ begins → Move sem_max s (record s { semaphore = some 0; phase = ready })
  no_semaphore : s.phase ≡ begins → Move sem_max s (record s { phase = ended })
  set_flag : s.phase ≡ ready → Move sem_max s (record s { initialized = true; phase = initializes })
  set_handlers : s.phase ≡ initializes → Move sem_max s (record s { handlers = true })
  start_threads :
      s.phase ≡ initializes → s.handlers ≡ true → Move sem_max s (record s { threads = true })
  model_asks :
      s.phase ≡ initializes → s.handlers ≡ true → Move sem_max s (should_terminate sem_max s)
  initialized_move :
      s.phase ≡ initializes
      → s.handlers ≡ true
      → Move sem_max s (record s { phase = waits; result = pos 0 })
  not_initialized :
      s.phase ≡ initializes
      → s.asking ≡ 0
      → Move sem_max s (record s { phase = leaves; threads = false })
  wake :
      {n : ℕ}
      → s.phase ≡ waits
      → s.semaphore ≡ some (suc n)
      → Move sem_max s (record s { semaphore = some n; phase = terminates })
  wait_error : s.phase ≡ waits → Move sem_max s (record s { phase = terminates; result = negsuc 0 })
  join_threads :
      s.phase ≡ terminates
      → s.asking ≡ 0
      → Move sem_max s (record s { phase = leaves; threads = false })
  clear_flag :
      s.phase ≡ leaves → Move sem_max s (record s { initialized = false; phase = destroys })
  destroy_semaphore :
      (ok : Bool)
      → s.phase ≡ destroys
      → Move sem_max s
          (record s { semaphore = none; phase = ended; result = if ok then s.result else negsuc 0 })
  signal : s.handlers ≡ true → Move sem_max s (should_terminate sem_max s)
  thread_tests : s.threads ≡ true → Move sem_max s (test_initialized s)
  thread_posts :
      {k : ℕ} → s.asking ≡ suc k → Move sem_max s (sem_post sem_max (record s { asking = k }))

pub data Reach (sem_max : ℕ) (s : Process) : Process → Type 0 where
  here : Reach sem_max s s
  next : {t u : Process} → Reach sem_max s t → Move sem_max t u → Reach sem_max s u
