-- ===== src/Tcp/Manager.antt =====
-- library/drivers/GT_DriverImplementationDetails.{hpp,cpp}: `TCPClientServiceManager`. The system
-- answers to each service by its own calls.
use generic_target.Base.{All, ℕ, ◌≡◌, refl, Bool, false, List, [], ◌∷◌}
use generic_target.Base.Int.{ℤ, pos}
use generic_target.Net.Addresses.{Address}
use generic_target.Net.Sockets.{Kernel, World}
use generic_target.Services.{Entry, at_service, with_new}
use generic_target.Services.Routing.{OwnId, Grown, with_new-Grown}
use generic_target.Tcp.{
  TcpService, TcpServiceConfiguration, service_send, service_receive, new_service,
}
use generic_target.Tcp.Invariant.{begin}
use generic_target.Tcp.Destroyed.{destroy-Fresh}
use generic_target.Tcp.Thread.{TcpSystem, Reach, runs, create, destroy, new_system}

abbrev pub add_service :
    ℤ → TcpServiceConfiguration → List (Entry TcpSystem) → List (Entry TcpSystem) × Bool
add_service id conf = with_new (create conf) new_system id

-- A call of a service, by itself.
abbrev pub on_service {ℓ} : {R : Type ℓ} → (TcpService → TcpService × R) → TcpSystem → TcpSystem × R
on_service f x = let (s, r) = f x.service in (record x { service = s }, r)

abbrev pub Freed : World → Entry TcpSystem → Type 0
Freed w e =
    (e.service.service ≡ record new_service { world = e.service.service.world })
    × (e.service.service.world.descriptors ≡ w.descriptors)

module _ (kernel : ℤ → Kernel) where
  abbrev pub destroy_all : List (Entry TcpSystem) → List (Entry TcpSystem)
  destroy_all [] = []
  destroy_all (e ∷ es) = record e { service = destroy (kernel e.id) e.service } ∷ destroy_all es

  -- The manager's services behind it, and those that were destroyed.
  unfoldable pub clear_all_services :
      List (Entry TcpSystem) → List (Entry TcpSystem) × List (Entry TcpSystem)
  clear_all_services es = ([], destroy_all es)

  unfoldable pub manager_send :
      ℤ
      → Address
      → Bool
      → List ℕ
      → ℤ
      → List (Entry TcpSystem)
      → List (Entry TcpSystem) × (ℤ × ℕ × Bool)
  manager_send id a manage bytes size =
      at_service id (on_service (service_send (kernel id) a manage bytes size)) (pos 0, 0, false)

  unfoldable pub manager_receive :
      ℤ → Address → Bool → ℤ → List (Entry TcpSystem) → List (Entry TcpSystem) × (ℤ × ℕ × Bool)
  manager_receive id a manage max_size =
      at_service id (on_service (service_receive (kernel id) a manage max_size)) (pos 0, 0, false)

  -- Services that came about from new ones, and are not being destroyed.
  abbrev pub Running : World → Entry TcpSystem → Type 0
  Running w e = Reach (kernel e.id) (begin w) e.service × (e.service.owner ≡ runs)

  destroy_all-Freed :
      (w : World) (es : List (Entry TcpSystem))
      → All (Running w) es
      → All (Freed w) (destroy_all es)
  destroy_all-Freed w [] h = tt
  destroy_all-Freed w (e ∷ es) ((r, o), h) =
      let v = destroy-Fresh (kernel e.id) w e.service r o in ((v.0, v.1), destroy_all-Freed w es h)

  -- `ClearAllServices` leaves no service, and every service that it destroyed has given back its
  -- descriptors and is a new one but for the system's side.
  pub clear_all_services-Freed :
      (w : World) (es : List (Entry TcpSystem))
      → All (Running w) es
      → ((clear_all_services es).0 ≡ []) × All (Freed w) (clear_all_services es).1
  unfolding clear_all_services
  clear_all_services-Freed w es h = (refl, destroy_all-Freed w es h)

-- `AddService` never registers an id twice, and leaves every other service as it is.
pub add_service-Grown :
    (id : ℤ) (conf : TcpServiceConfiguration) (es : List (Entry TcpSystem))
    → OwnId es
    → Grown (create conf) new_system id es (add_service id conf es)
add_service-Grown id conf es d = with_new-Grown (create conf) new_system id es d
