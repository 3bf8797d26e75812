-- ===== src/App/Signals/Tests.antt =====
-- The signals of a process that starts with the default actions.
use generic_target.Base.{ℕ, ◌≡◌, refl, true}
use generic_target.App.Signals.{
  Handler, default_action, set_signal_handlers, exits, deliver, install_crash_handlers,
}

abbrev defaults : ℕ → Handler
defaults n = default_action

-- A segmentation fault.
segmentation_fault : (deliver 11 (set_signal_handlers (λ s. true) defaults).0).0 ≡ exits 139
unfolding deliver set_signal_handlers install_crash_handlers
segmentation_fault = refl
