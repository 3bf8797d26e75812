-- ===== src/Udp/Manager/Binding.antt =====
-- The rounds of the management thread.
use generic_target.Base.{All, ◌≡◌, refl, sym, ap, ◌∙◌, Bool, true, ◌&&◌, List, [], ◌∷◌}
use generic_target.Base.Int.{ℤ}
use generic_target.Net.Sockets.{Kernel}
use generic_target.Udp.Bound.{Rejects, Valid, attempt_to_bind-Valid}
use generic_target.Udp.Manager.{bind_all, attempt_to_bind}
use generic_target.Services.{Entry}
use generic_target.Udp.{UdpService}

abbrev pub AllValid : List (Entry UdpService) → Type 0
AllValid = All (λ e. Valid e.service)

abbrev pub all_bound : List (Entry UdpService) → Bool
all_bound [] = true
all_bound (e ∷ es) = e.service.is_bound && all_bound es

-- A round of `ManagementThread` keeps every service valid, and its test, which ends the thread,
-- holds exactly if every service is bound after the round. The system refuses to bind a closed
-- socket.
pub bind_all-AllValid :
    (kernel : ℤ → Kernel) (es : List (Entry UdpService))
    → ((id : ℤ) → Rejects (kernel id))
    → AllValid es
    → AllValid (bind_all kernel es).0 × ((bind_all kernel es).1 ≡ all_bound (bind_all kernel es).0)
unfolding bind_all
bind_all-AllValid kernel [] rejects v = (tt, refl)
bind_all-AllValid kernel (e ∷ es) rejects v =
    let p = attempt_to_bind-Valid (kernel e.id) (rejects e.id) e.service v.0 in
    let q = bind_all-AllValid kernel es rejects v.1 in
    (
      (p.0, q.0),
      ap (λ b. b && (bind_all kernel es).1) (sym p.1)
          ∙ ap (λ b. (attempt_to_bind (kernel e.id) e.service).0.is_bound && b) q.1,
    )
