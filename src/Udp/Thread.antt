-- ===== src/Udp/Thread.antt =====
-- library/drivers/GT_DriverImplementationDetails.cpp: `UDPServiceManager::ManagementThread`, interleaved
-- with the calls of the manager. Each service's socket has a mutex, so a call of a service is one
-- move.
pub mod Wakeup
pub mod Ends
pub mod Binds
pub mod Tests
use generic_target.Base.{
  ltb, ◌==◌, if◌then◌else◌, length, ℕ, zero, suc, ◌+◌, ◌-◌, ◌≡◌, Bool, true, false, not, ◌&&◌, List,
  [], ◌∷◌,
}
use generic_target.Base.Int.{ℤ}
use generic_target.Net.Addresses.{Ip, Address}
use generic_target.Net.Sockets.{Kernel}
use generic_target.Services.{Entry}
use generic_target.Udp.{UdpService, UdpServiceConfiguration, attempt_to_bind}
use generic_target.Udp.Manager.{
  UdpServiceManager, new_manager, add_service, clear_all_services, manager_send_to,
  manager_receive_from,
}

-- `ManagementThread`: no thread, in `sem_wait` and `sem_trywait` of `Event::Wait`, at the test of
-- `m_terminate`, before the service at an index with the value of `allBound`, in `sleep_for`, ended.
pub data Phase : Type 0 where
  absent waits drains tests : Phase
  binds : ℕ → Bool → Phase
  sleeps done : Phase

-- Whether `join` returns.
abbrev pub joined : Phase → Bool
joined absent = true
joined done = true
joined _ = false

-- `terminate` is `m_terminate`, and `clearing` is whether `ClearAllServices` stands at `join`.
pub record UdpSystem : Type 0 where
  pub manager : UdpServiceManager
  pub phase : Phase
  pub terminate : Bool
  pub clearing : Bool

abbrev pub new_system : UdpSystem
new_system = record { manager = new_manager; phase = absent; terminate = false; clearing = false }

module _ (kernel : ℤ → Kernel) where
  -- `AttemptToBind` of the service at an index.
  unfoldable pub bind_at : ℕ → List (Entry UdpService) → List (Entry UdpService) × Bool
  bind_at n [] = ([], true)
  bind_at zero (e ∷ es) =
      let (s, ok) = attempt_to_bind (kernel e.id) e.service in (record e { service = s } ∷ es, ok)
  bind_at (suc n) (e ∷ es) = let (fs, ok) = bind_at n es in (e ∷ fs, ok)

  -- A move of the thread.
  unfoldable pub thread_move : Phase → UdpSystem → UdpSystem
  thread_move absent x = x
  thread_move waits x =
      let m : UdpServiceManager = x.manager in
      if m.notified == 0
      then x
      else record x { manager = record m { notified = m.notified - 1 }; phase = drains }
  thread_move drains x =
      let m : UdpServiceManager = x.manager in
      if m.notified == 0
      then record x { phase = tests }
      else record x { manager = record m { notified = m.notified - 1 } }
  thread_move tests x = record x { phase = if x.terminate then done else binds 0 true }
  thread_move (binds n all) x =
      let m : UdpServiceManager = x.manager in
      let (es, ok) = bind_at n m.services in
      if ltb n (length m.services)
      then record x { manager = record m { services = es }; phase = binds (n + 1) (all && ok) }
      else record x { phase = if all then done else sleeps }
  thread_move sleeps x = record x { phase = tests }
  thread_move done x = x

  unfoldable pub run_thread : ℕ → UdpSystem → UdpSystem
  run_thread zero x = x
  run_thread (suc n) x = run_thread n (thread_move x.phase x)

  -- `AddService`, with the thread that it may start.
  unfoldable pub add : ℤ → UdpServiceConfiguration → UdpSystem → UdpSystem
  add id conf x =
      let (m, ok) = add_service kernel id conf x.manager in
      record x {
        manager = m;
        phase = if not x.manager.thread_started && ok then waits else x.phase;
      }

  -- `ClearAllServices` up to its `join`, and behind it.
  unfoldable pub begin_clear : UdpSystem → UdpSystem
  begin_clear x =
      let m : UdpServiceManager = x.manager in
      record x {
        manager = record m { notified = m.notified + 1 };
        terminate = true;
        clearing = true;
      }

  unfoldable pub end_clear : UdpSystem → UdpSystem
  end_clear x = record x {
    manager = (clear_all_services kernel x.manager).0;
    phase = absent;
    terminate = false;
    clearing = false;
  }

  pub data Step (x : UdpSystem) : UdpSystem → Type 0 where
    adds : (id : ℤ) (conf : UdpServiceConfiguration) → x.clearing ≡ false → Step x (add id conf x)
    sends :
        (id : ℤ) (dest : Address) (bytes : List ℕ) (size : ℤ)
        → x.clearing ≡ false
        → Step x (record x { manager = (manager_send_to kernel id dest bytes size x.manager).0 })
    receives :
        (id : ℤ) (max_size : ℤ) (groups : List Ip)
        → x.clearing ≡ false
        → Step x
            (record x { manager = (manager_receive_from kernel id max_size groups x.manager).0 })
    clears : x.clearing ≡ false → Step x (begin_clear x)
    joins : x.clearing ≡ true → joined x.phase ≡ true → Step x (end_clear x)
    thread_moves : Step x (thread_move x.phase x)

  -- The states of a program that has not called `std::terminate`.
  pub data Reach : UdpSystem → Type 0 where
    here : Reach new_system
    next : {x y : UdpSystem} → Reach x → Step x y → y.manager.terminated ≡ false → Reach y
