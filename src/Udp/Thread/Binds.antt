-- ===== src/Udp/Thread/Binds.antt =====
-- The management thread binds the services where the system lets it.
use generic_target.Base.{All, ℕ, ◌≡◌, true, false, some, List, ◌∷◌}
use generic_target.Base.Int.{is_neg, ℤ}
use generic_target.Net.Sockets.{Kernel, Call, is_open, bind, set_option, bind_to_device}
use generic_target.Services.{Entry}
use generic_target.Udp.{UdpService, attempt_to_bind}
use generic_target.Udp.Manager.Binding.{all_bound}
use generic_target.Udp.Thread.{Phase, done, UdpSystem, run_thread}

-- The system binds an open socket to its port and to its device.
pub record Grants (k : Kernel) : Type 0 where
  pub port :
      (fd port : ℕ) (calls : List Call) → is_neg (k (bind (some fd) port ∷ calls)).result ≡ false
  pub device :
      (fd : ℕ) (name : List ℕ) (calls : List Call)
      → is_neg (k (set_option (some fd) (bind_to_device name) ∷ calls)).result ≡ false

abbrev pub AllOpen : List (Entry UdpService) → Type 0
AllOpen = All (λ e. is_open e.service.udp_socket ≡ true)

module _ (kernel : ℤ → Kernel) (grants : (id : ℤ) → Grants (kernel id)) where
  abbrev bound : Entry UdpService → Entry UdpService
  bound e = record e { service = (attempt_to_bind (kernel e.id) e.service).0 }

  -- The thread ends with every service bound.
  abbrev Bound : UdpSystem → Type 0
  Bound x =
      (n : ℕ) × ((run_thread kernel n x).phase ≡ done)
      × (all_bound (run_thread kernel n x).manager.services ≡ true)

  abbrev at : UdpSystem → List (Entry UdpService) → Phase → UdpSystem
  at x es p = record x { manager = record (x.manager) { services = es }; phase = p }
