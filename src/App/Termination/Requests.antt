-- ===== src/App/Termination/Requests.antt =====
-- What a request to terminate the application does.
use generic_target.Base.{ℕ, ◌<◌, min, ◌≡◌, Bool, true, false, Option, some}
use generic_target.Base.Int.{ℤ, pos, negsuc}
use generic_target.App.Termination.{
  Phase, begins, ready, initializes, waits, terminates, leaves, destroys, ended, Process, is_gone,
}

-- The flag in each phase: it is set from `set_flag` to `clear_flag`.
abbrev flag : Phase → Bool
flag initializes = true
flag waits = true
flag terminates = true
flag leaves = true
flag _ = false

-- The semaphore in each phase, where `r` requests have been made.
abbrev Count : ℕ → Phase → ℕ → Option ℕ → Type 0
Count sem_max begins r o = r ≡ 0
Count sem_max ready r o = o ≡ some (min r sem_max)
Count sem_max initializes r o = o ≡ some (min r sem_max)
Count sem_max waits r o = o ≡ some (min r sem_max)
Count sem_max terminates r o = is_gone o ≡ false
Count sem_max leaves r o = is_gone o ≡ false
Count sem_max destroys r o = is_gone o ≡ false
Count sem_max ended r o = Unit

-- Whether the application may have threads.
abbrev may_thread : Phase → Bool
may_thread initializes = true
may_thread waits = true
may_thread terminates = true
may_thread _ = false

-- The exit code in each phase: an error until `Initialize` succeeds, and without an error behind
-- `sem_wait` only where termination has been requested.
abbrev Why : Phase → ℕ → ℤ → Type 0
Why begins r z = z ≡ negsuc 0
Why ready r z = z ≡ negsuc 0
Why initializes r z = z ≡ negsuc 0
Why waits r z = Unit
Why _ r z = z ≡ pos 0 → 0 < r

pub record Inv (sem_max : ℕ) (s : Process) : Type 0 where
  pub reason : Why s.phase s.requests s.result
  pub sound : s.misused ≡ false
  pub flagged : s.initialized ≡ flag s.phase
  pub counted : Count sem_max s.phase s.requests s.semaphore
  pub alone : may_thread s.phase ≡ false → (s.threads ≡ false) × (s.asking ≡ 0)
  pub only_threads : s.threads ≡ false → s.asking ≡ 0
