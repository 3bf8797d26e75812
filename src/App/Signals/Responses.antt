-- ===== src/App/Signals/Responses.antt =====
-- What the application does at each signal.
use generic_target.Base.{
  ◌==◌, if◌then◌else◌, ==_iff, Bool-cases, All, ℕ, ◌+◌, ◌≡◌, refl, ap, ◌∙◌, ◌≢◌, ◌↔◌, ◌⊎◌, inl, inr,
  Bool, true, false, ◌||◌, List, [], ◌∷◌, arith,
}
use generic_target.App.Signals.{
  Handler, default_action, signal_handler, crash_handler, sigint, sigterm, crash_signals, install,
  install_crash_handlers, set_signal_handlers, by_default, asks_to_terminate, exits, deliver,
}

abbrev pub among : ℕ → List ℕ → Bool
among n [] = false
among n (s ∷ ss) = n == s || among n ss

-- The system accepts the crash handler for each signal.
abbrev pub Accepted : (ℕ → Bool) → List ℕ → Type 0
Accepted accepts = All (λ s. accepts s ≡ true)

module _ (accepts : ℕ → Bool) where
  loop-Accepted :
      (signals : List ℕ) (handlers : ℕ → Handler)
      → (install_crash_handlers accepts signals handlers).1 ≡ true
      → Accepted accepts signals
  unfolding install_crash_handlers
  loop-Accepted [] handlers h = tt
  loop-Accepted (s ∷ ss) handlers h = elim (Bool-cases (accepts s)) [
    | inl a ↦ (a, loop-Accepted ss (install s crash_handler handlers) (simp a at h))
    | inr a ↦ absurd (cc (simp a at h))
  ]

  loop_installs :
      (signals : List ℕ) (handlers : ℕ → Handler) (n : ℕ)
      → Accepted accepts signals
      → ((install_crash_handlers accepts signals handlers).1 ≡ true)
        × ((install_crash_handlers accepts signals handlers).0 n
            ≡ (if among n signals then crash_handler else handlers n))
  unfolding install_crash_handlers
  loop_installs [] handlers n h = (refl, refl)
  loop_installs (s ∷ ss) handlers n (a, h) =
      let (ok, value) = loop_installs ss (install s crash_handler handlers) n h in
      simp a (ok, value ∙ ground arith)

deliver_asks :
    (n : ℕ) (handlers : ℕ → Handler)
    → handlers n ≡ signal_handler
    → deliver n handlers ≡ (asks_to_terminate, handlers)
unfolding deliver
deliver_asks n handlers e = rw (e, deliver) refl

deliver_crashes :
    (n : ℕ) (handlers : ℕ → Handler)
    → handlers n ≡ crash_handler
    → ((deliver n handlers).0 ≡ exits (128 + n))
      × ((deliver n (deliver n handlers).1).0 ≡ by_default)
unfolding deliver
deliver_crashes n handlers e =
    let first : deliver n handlers ≡ (exits (128 + n), install n default_action handlers) =
      rw (e, deliver) refl in
    let reset : install n default_action handlers n ≡ default_action =
      rw ((==_iff n n).1 refl) refl in
    (ap (λ r. r.0) first, ap (λ r. (deliver n r.1).0) first ∙ rw (reset, deliver) refl)

-- `SetSignalHandlers` succeeds exactly if the system accepts the crash handler for each of the five
-- signals. Then SIGINT and SIGTERM request termination each time; each of the five ends the process
-- with the code 128 + signal, and takes the default action if it comes again; and no other signal is
-- touched.
pub signal_responses :
    (accepts : ℕ → Bool) (handlers : ℕ → Handler) (n : ℕ)
    → let (after, ok) = set_signal_handlers accepts handlers in
      ((ok ≡ true) ↔ Accepted accepts crash_signals)
      × (ok ≡ true
          → ((n ≡ sigint) ⊎ (n ≡ sigterm) → deliver n after ≡ (asks_to_terminate, after))
            × (among n crash_signals ≡ true
                → ((deliver n after).0 ≡ exits (128 + n))
                  × ((deliver n (deliver n after).1).0 ≡ by_default))
            × (n ≢ sigint → n ≢ sigterm → among n crash_signals ≡ false → after n ≡ handlers n))
unfolding set_signal_handlers
signal_responses accepts handlers n = (
  (
    loop-Accepted accepts crash_signals asking,
    λ h. (loop_installs accepts crash_signals asking n h).0,
  ),
  λ ok.
      let value =
        (loop_installs accepts crash_signals asking n
          (loop-Accepted accepts crash_signals asking ok)).1 in
      (
        λ h. deliver_asks n (set_signal_handlers accepts handlers).0 (value ∙ asks h),
        λ c. deliver_crashes n (set_signal_handlers accepts handlers).0 (value ∙ rw c refl),
        λ a b c. value ∙ rw c (other a b),
      ),
)
  where
    asking : ℕ → Handler
    asking = install sigterm signal_handler (install sigint signal_handler handlers)

    asks :
        (n ≡ sigint) ⊎ (n ≡ sigterm)
        → (if among n crash_signals then crash_handler else asking n) ≡ signal_handler
    asks (inl e) = rw e refl
    asks (inr e) = rw e refl

    other : n ≢ sigint → n ≢ sigterm → asking n ≡ handlers n
    other a b = ground (arith, a, b)
