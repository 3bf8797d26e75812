-- ===== src/App/Tests.antt =====
-- A run of the application, and the theorem about it.
use generic_target.Base.{ℕ, ◌≡◌, refl, true, false, none, some, List, [], ◌∷◌}
use generic_target.Base.Int.{pos}
use generic_target.App.{Environment, new_application, run, initialize, open_app_socket}
use generic_target.App.Lifetime.{Lifecycle, whole_run, run-Lifecycle}

abbrev granting : Environment
granting = record {
  lock_memory = true;
  sem_init = true;
  signal_handlers = true;
  canonical_path = true;
  max_name_length = 107;
  socket = some 3;
  bind = true;
  scheduler_start = true;
  wait = true;
  sem_destroy = true;
}

abbrev app_name : List ℕ
app_name = b'g' ∷ b't' ∷ []

exit_code : (run granting app_name new_application).1 ≡ pos 0
unfolding run initialize open_app_socket
exit_code = refl

run-Lifecycle_example :
    ((run granting app_name new_application).0.fd ≡ none)
    × ((run granting app_name new_application).0.semaphore_initialized ≡ false)
    × Lifecycle (run granting app_name new_application).0.actions
    × ((run granting app_name new_application).1 ≡ pos 0
        → (run granting app_name new_application).0.actions ≡ whole_run)
run-Lifecycle_example = run-Lifecycle granting app_name
