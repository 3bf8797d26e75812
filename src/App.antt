-- ===== src/App.antt =====
-- core/code/GenericTarget/GT_GenericTarget.cpp and GT_AppSocket.cpp: the run of the application from
-- its start to its exit code, and the socket that keeps a second instance out.
pub mod Lifetime
pub mod Signals
pub mod Termination
pub mod Tests
use generic_target.Base.{
  ltb, ◌==◌, if◌then◌else◌, length, ℕ, Bool, true, false, not, ◌&&◌, ◌||◌, Option, none, some, List,
  [], ◌∷◌, ◌++◌,
}
use generic_target.Base.Int.{ℤ, pos, negsuc}

-- The answers of the system and of the parts that `Run` starts. `wait` is what `sem_wait` answers in
-- the end, behind the interrupted calls.
pub record Environment : Type 0 where
  pub lock_memory : Bool
  pub sem_init : Bool
  pub signal_handlers : Bool
  pub canonical_path : Bool
  pub max_name_length : ℕ
  pub socket : Option ℕ
  pub bind : Bool
  pub scheduler_start : Bool
  pub wait : Bool
  pub sem_destroy : Bool

-- What the application does to the parts, in their order.
pub data Action : Type 0 where
  open_socket close_socket initialize_model terminate_model start_scheduler stop_scheduler : Action

pub record Application : Type 0 where
  pub fd : Option ℕ
  pub semaphore_initialized : Bool
  pub actions : List Action

abbrev pub new_application : Application
new_application = record { fd = none; semaphore_initialized = false; actions = [] }

abbrev pub act : Action → Application → Application
act a s = record s { actions = s.actions ++ (a ∷ []) }

-- `AppSocket::Close`
unfoldable pub close_app_socket : Application → Application
close_app_socket s = elim s.fd [ none ↦ s | some fd ↦ act close_socket (record s { fd = none }) ]

-- `AppSocket::Open`
unfoldable pub open_app_socket : Environment → List ℕ → Application → Application × Bool
open_app_socket e name s = elim s.fd [
  | some fd ↦ (s, false)
  | none ↦
      if length name == 0 || ltb e.max_name_length (length name)
      then (s, false)
      else elim e.socket [
        | none ↦ (s, false)
        | some new ↦
            let t : Application = act open_socket (record s { fd = some new }) in
            if e.bind then (t, true) else (close_app_socket t, false)
      ]
]

-- `GenericTarget::Terminate`
unfoldable pub terminate : Application → Application
terminate s = close_app_socket (act terminate_model (act stop_scheduler s))

-- `GenericTarget::Initialize`
unfoldable pub initialize : Environment → List ℕ → Application → Application × Bool
initialize e name s =
    let (t, opened) = open_app_socket e name s in
    let u : Application = act start_scheduler (act initialize_model t) in
    if not e.signal_handlers
    then (s, false)
    else if not e.canonical_path
    then (s, false)
    else if not opened
    then (t, false)
    else if not e.scheduler_start
    then (close_app_socket (act terminate_model u), false)
    else (u, true)

-- `GenericTarget::Run` and its exit code.
unfoldable pub run : Environment → List ℕ → Application → Application × ℤ
run e name s =
    let (t, ready) = initialize e name (record s { semaphore_initialized = true }) in
    let u : Application = if ready then terminate t else t in
    let result : ℤ = if ready && e.wait then pos 0 else negsuc 0 in
    if not (e.lock_memory && e.sem_init)
    then (s, negsuc 0)
    else (record u { semaphore_initialized = false }, if e.sem_destroy then result else negsuc 0)
