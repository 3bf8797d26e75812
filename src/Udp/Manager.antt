-- ===== src/Udp/Manager.antt =====
-- library/drivers/GT_DriverImplementationDetails.{hpp,cpp}: `UDPServiceManager`. The system answers
-- to each service by its own calls.
pub mod Routing
pub mod Binding
use generic_target.Base.{if◌then◌else◌, ℕ, ◌+◌, Bool, true, false, not, ◌&&◌, ◌||◌, List, [], ◌∷◌}
use generic_target.Base.Int.{ℤ, pos}
use generic_target.Net.Addresses.{Ip, Address}
use generic_target.Net.Sockets.{Kernel}
use generic_target.Services.{Entry, at_service, with_new}
use generic_target.Udp.{
  UdpService, UdpServiceConfiguration, create, destroy, attempt_to_bind, new_service,
}
use generic_target.Udp.Sending.{service_send_to}
use generic_target.Udp.Groups.{service_receive_from}

-- `thread_started` is `m_threadStarted`, `joinable` is `m_managementThread.joinable()`, and
-- `notified` the count of `m_event`. `terminated` is a call of `std::terminate`, which a thread's
-- assignment makes when the thread is joinable.
pub record UdpServiceManager : Type 0 where
  pub services : List (Entry UdpService)
  pub thread_started : Bool
  pub joinable : Bool
  pub notified : ℕ
  pub terminated : Bool

abbrev pub new_manager : UdpServiceManager
new_manager = record {
  services = [];
  thread_started = false;
  joinable = false;
  notified = 0;
  terminated = false;
}

module _ (kernel : ℤ → Kernel) where
  abbrev pub start_thread : UdpServiceManager → UdpServiceManager
  start_thread m = record m {
    thread_started = true;
    joinable = true;
    terminated = m.terminated || m.joinable;
  }

  unfoldable pub add_service :
      ℤ → UdpServiceConfiguration → UdpServiceManager → UdpServiceManager × Bool
  add_service id conf m =
      let (es, ok) = with_new (create (kernel id) conf) new_service id m.services in
      let t : UdpServiceManager = record m { services = es } in
      (if not m.thread_started && ok then start_thread t else t, ok)

  abbrev pub destroy_all : List (Entry UdpService) → List (Entry UdpService)
  destroy_all [] = []
  destroy_all (e ∷ es) = record e { service = destroy (kernel e.id) e.service } ∷ destroy_all es

  -- The thread is joined and the services are destroyed; they are no longer the manager's.
  unfoldable pub clear_all_services :
      UdpServiceManager → UdpServiceManager × List (Entry UdpService)
  clear_all_services m = (
    record m { services = []; thread_started = false; joinable = false; notified = 0 },
    destroy_all m.services,
  )

  abbrev pub notify_thread : UdpServiceManager → UdpServiceManager
  notify_thread m =
      if m.thread_started then record m { thread_started = false; notified = m.notified + 1 } else m

  unfoldable pub manager_send_to :
      ℤ → Address → List ℕ → ℤ → UdpServiceManager → UdpServiceManager × (ℤ × ℕ)
  manager_send_to id dest bytes size m =
      let n : UdpServiceManager = notify_thread m in
      let (es, r) =
        at_service id (service_send_to (kernel id) dest bytes size) (pos 0, 0) n.services in
      (record n { services = es }, r)

  unfoldable pub manager_receive_from :
      ℤ → ℤ → List Ip → UdpServiceManager → UdpServiceManager × (ℤ × ℕ)
  manager_receive_from id max_size groups m =
      let n : UdpServiceManager = notify_thread m in
      let (es, r) =
        at_service id (service_receive_from (kernel id) max_size groups) (pos 0, 0) n.services in
      (record n { services = es }, r)

  -- A round of `ManagementThread`: every service, and whether all are bound.
  unfoldable pub bind_all : List (Entry UdpService) → List (Entry UdpService) × Bool
  bind_all [] = ([], true)
  bind_all (e ∷ es) =
      let (s, ok) = attempt_to_bind (kernel e.id) e.service in
      let (fs, all) = bind_all es in (record e { service = s } ∷ fs, ok && all)
