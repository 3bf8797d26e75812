-- ===== src/App/Signals.antt =====
-- core/code/GenericTarget/GT_GenericTarget.cpp: `SetSignalHandlers`, and what a signal does behind it.
pub mod Responses
pub mod Tests
use generic_target.Base.{◌==◌, if◌then◌else◌, ℕ, ◌+◌, Bool, true, false, List, [], ◌∷◌}

-- What the process does at a signal: the system's default, `SignalHandler`, or `CrashHandler`, which
-- is installed for one signal (SA_RESETHAND).
pub data Handler : Type 0 where
  default_action signal_handler crash_handler : Handler

-- Linux's numbers of SIGINT and SIGTERM, and of SIGSEGV, SIGABRT, SIGBUS, SIGILL and SIGFPE, in the
-- order of the array.
abbrev pub sigint : ℕ
sigint = 2

abbrev pub sigterm : ℕ
sigterm = 15

abbrev pub crash_signals : List ℕ
crash_signals = 11 ∷ 6 ∷ 7 ∷ 4 ∷ 8 ∷ []

abbrev pub install : ℕ → Handler → (ℕ → Handler) → ℕ → Handler
install signal h handlers n = if n == signal then h else handlers n

-- The loop of `SetSignalHandlers`, where `accepts` is whether `sigaction` succeeds for a signal.
unfoldable pub install_crash_handlers : (ℕ → Bool) → List ℕ → (ℕ → Handler) → (ℕ → Handler) × Bool
install_crash_handlers accepts [] handlers = (handlers, true)
install_crash_handlers accepts (signal ∷ signals) handlers =
    let rest : (ℕ → Handler) × Bool =
      install_crash_handlers accepts signals (install signal crash_handler handlers) in
    if accepts signal then rest else (handlers, false)

unfoldable pub set_signal_handlers : (ℕ → Bool) → (ℕ → Handler) → (ℕ → Handler) × Bool
set_signal_handlers accepts handlers =
    install_crash_handlers accepts crash_signals
      (install sigterm signal_handler (install sigint signal_handler handlers))

-- The default action, a call of `ShouldTerminate`, or the end of the process with an exit code.
pub data Response : Type 0 where
  by_default asks_to_terminate : Response
  exits : ℕ → Response

-- The response to a signal, and the handlers behind it.
unfoldable pub deliver : ℕ → (ℕ → Handler) → Response × (ℕ → Handler)
deliver signal handlers = elim (handlers signal) [
  | default_action ↦ (by_default, handlers)
  | signal_handler ↦ (asks_to_terminate, handlers)
  | crash_handler ↦ (exits (128 + signal), install signal default_action handlers)
]
