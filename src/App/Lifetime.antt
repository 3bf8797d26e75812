-- ===== src/App/Lifetime.antt =====
-- What the application leaves behind, and what its exit code says.
use generic_target.Base.{
  ltb, ◌==◌, if◌then◌else◌, Bool-cases, length, ℕ, ◌≡◌, refl, ap, inl, inr, Bool, true, false, not,
  ◌&&◌, ◌||◌, Option, none, some, List, [], ◌∷◌, ◌++◌, arith,
}
use generic_target.Base.Int.{pos, negsuc}
use generic_target.App.{
  Environment, Application, Action, new_application, run, initialize, terminate, open_app_socket,
  close_app_socket, open_socket, close_socket, initialize_model, terminate_model, start_scheduler,
  stop_scheduler, act,
}

abbrev pub whole_run : List Action
whole_run =
    open_socket ∷ initialize_model ∷ start_scheduler ∷ stop_scheduler ∷ terminate_model
    ∷ close_socket ∷ []

-- The runs of the application: no socket, a socket that could not be bound, a scheduler that could
-- not be started, and a whole run.
pub data Lifecycle : List Action → Type 0 where
  no_socket : Lifecycle []
  not_bound : Lifecycle (open_socket ∷ close_socket ∷ [])
  not_scheduled :
      Lifecycle
        (open_socket ∷ initialize_model ∷ start_scheduler ∷ terminate_model ∷ close_socket ∷ [])
  completed : Lifecycle whole_run

-- Behind a step that says whether it succeeded: with a socket and the actions `done`, or without.
abbrev Stands : List Action → Application × Bool → Type 0
Stands done (s, false) = (s.fd ≡ none) × Lifecycle s.actions
Stands done (s, true) = ((fd : ℕ) × (s.fd ≡ some fd)) × (s.actions ≡ done)

abbrev begun : Application
begun = record new_application { semaphore_initialized = true }

open_app_socket-Stands :
    (e : Environment) (name : List ℕ) (fd : Option ℕ)
    → e.socket ≡ fd
    → Stands (open_socket ∷ []) (open_app_socket e name begun)
unfolding open_app_socket close_app_socket
open_app_socket-Stands e name none h =
    elim (Bool-cases (length name == 0 || ltb e.max_name_length (length name))) [
      | inl l ↦ simp l (refl, no_socket)
      | inr l ↦ simp (l, h) (refl, no_socket)
    ]
open_app_socket-Stands e name (some fd) h =
    elim (Bool-cases (length name == 0 || ltb e.max_name_length (length name))) [
      | inl l ↦ simp l (refl, no_socket)
      | inr l ↦ elim (Bool-cases e.bind) [
        | inl c ↦ simp (l, h, c) ((fd, refl), refl)
        | inr c ↦ simp (l, h, c) (refl, not_bound)
      ]
    ]

-- The scheduler's start behind a socket that is open, or not.
scheduled :
    (e : Environment) (r : Application × Bool)
    → Stands (open_socket ∷ []) r
    → Stands (open_socket ∷ initialize_model ∷ start_scheduler ∷ []) (
        if not r.1
        then (r.0, false)
        else if not e.scheduler_start
        then (
          close_app_socket (act terminate_model (act start_scheduler (act initialize_model r.0))),
          false,
        )
        else (act start_scheduler (act initialize_model r.0), true))
unfolding close_app_socket
scheduled e (s, false) v = v
scheduled e (s, true) ((fd, f), a) = elim (Bool-cases e.scheduler_start) [
  | inl h ↦ simp h ((fd, f), ap (λ l. (l ++ (initialize_model ∷ [])) ++ (start_scheduler ∷ [])) a)
  | inr h ↦ simp (h, f, a) (refl, not_scheduled)
]

initialize-Stands :
    (e : Environment) (name : List ℕ)
    → Stands (open_socket ∷ initialize_model ∷ start_scheduler ∷ []) (initialize e name begun)
unfolding initialize
initialize-Stands e name = elim (Bool-cases e.signal_handlers) [
  | inr h ↦ simp h (refl, no_socket)
  | inl h ↦ elim (Bool-cases e.canonical_path) [
    | inr p ↦ simp (h, p) (refl, no_socket)
    | inl p ↦
        simp (h, p)
          (scheduled e (open_app_socket e name begun) (open_app_socket-Stands e name e.socket refl))
  ]
]

-- The end of `Run`, behind `Initialize`.
ended :
    (e : Environment) (r : Application × Bool)
    → Stands (open_socket ∷ initialize_model ∷ start_scheduler ∷ []) r
    → ((if r.1 then terminate r.0 else r.0).fd ≡ none)
      × Lifecycle (if r.1 then terminate r.0 else r.0).actions
      × ((if e.sem_destroy then (if r.1 && e.wait then pos 0 else negsuc 0) else negsuc 0) ≡ pos 0
          → (if r.1 then terminate r.0 else r.0).actions ≡ whole_run)
unfolding terminate close_app_socket
ended e (s, false) v = (v.0, v.1, λ h. absurd (ground (arith, h)))
ended e (s, true) ((fd, f), a) = (simp f refl, simp (f, a) completed, λ h. simp (f, a) refl)

-- However the system answers, a run of the application closes its socket, marks the semaphore as
-- destroyed, and is one of four: without a socket, with one that could not be bound, with a
-- scheduler that could not be started, where the model is terminated all the same, and a whole run.
-- The exit code 0 is that of a whole run only.
pub run-Lifecycle :
    (e : Environment) (name : List ℕ)
    → ((run e name new_application).0.fd ≡ none)
      × ((run e name new_application).0.semaphore_initialized ≡ false)
      × Lifecycle (run e name new_application).0.actions
      × ((run e name new_application).1 ≡ pos 0
          → (run e name new_application).0.actions ≡ whole_run)
unfolding run
run-Lifecycle e name = elim (Bool-cases (e.lock_memory && e.sem_init)) [
  | inr h ↦ simp h (refl, refl, no_socket, λ c. absurd (cc c))
  | inl h ↦
      let v = ended e (initialize e name begun) (initialize-Stands e name) in
      simp h (v.0, refl, v.1, v.2)
]
