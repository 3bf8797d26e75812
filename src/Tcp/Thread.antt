-- ===== src/Tcp/Thread.antt =====
-- library/drivers/GT_DriverImplementationDetails.cpp: `Create`, `Destroy` and `ManagementThread` of
-- `TCPClientService`, and the threads that send and receive, interleaved at the mutex, the event,
-- the atomic members and the calls of the system.
use generic_target.Base.{
  ◌==◌, if◌then◌else◌, length, ℕ, zero, suc, ◌+◌, ◌-◌, ◌≡◌, Bool, true, false, not, ◌||◌, List, [],
  ◌∷◌,
}
use generic_target.Base.Int.{ℤ}
use generic_target.Net.Addresses.{Address, same_address}
use generic_target.Net.Sockets.{Kernel}
use generic_target.Tcp.{
  TcpService, TcpServiceConfiguration, ConnectCall, reset_configuration, same_configuration,
  zero_address, service_send, service_receive, disconnect, open_client, connect_calls, connect_step,
  is_connect_command, new_service,
}

-- `ManagementThread`: not running; at its loop test; before the copy of the command; before
-- `Disconnect`; in `Connect` before `Open`, and before the calls that are left; at `sleep_for`; in
-- `sem_wait` and `sem_trywait` of `Event::Wait`; behind the loop; ended.
pub data Phase : Type 0 where
  not_started tests reads disconnects opens : Phase
  connects : List ConnectCall → Phase
  sleeps waits drains leaves done : Phase

-- `Destroy`: not called; before `Disconnect`, `Notify`, and `join`; behind `join`, before each of its
-- assignments and `Clear`.
pub data Owner : Type 0 where
  runs stops notifies joins resumes unmarks excuses clears forgets unsets_ip unsets_port : Owner

pub record TcpSystem : Type 0 where
  pub service : TcpService
  pub phase : Phase
  pub destination : Address
  pub owner : Owner

abbrev pub new_system : TcpSystem
new_system = record {
  service = new_service;
  phase = not_started;
  destination = zero_address;
  owner = runs;
}

-- A move of the thread that `Create` starts: one critical section, or one call of the system with
-- what is done about its answer. A wait for the event with a count of 0 goes on.
unfoldable pub thread_move : Kernel → Phase → Address → TcpService → TcpService × Phase × Address
thread_move k not_started d s = (s, not_started, d)
thread_move k tests d s = (s, (if s.terminate then leaves else reads), d)
thread_move k reads d s = (
  s,
  (if not s.is_connected || not (same_address d s.commanded_address) then disconnects else waits),
  s.commanded_address,
)
thread_move k disconnects d s = (disconnect k s, (if is_connect_command d then opens else waits), d)
thread_move k opens d s =
    let (t, ok) = open_client k s in
    (t, (if ok then connects (connect_calls t.active_conf d) else sleeps), d)
thread_move k (connects []) d s = (record s { is_connected = true }, waits, d)
thread_move k (connects (c ∷ cs)) d s =
    let (t, ok) = connect_step k c s in (t, (if ok then connects cs else sleeps), d)
thread_move k sleeps d s = (s, tests, d)
thread_move k waits d s =
    if s.notified == 0 then (s, waits, d) else (record s { notified = s.notified - 1 }, drains, d)
thread_move k drains d s =
    if s.notified == 0 then (s, tests, d) else (record s { notified = s.notified - 1 }, drains, d)
thread_move k leaves d s = (disconnect k s, done, d)
thread_move k done d s = (s, done, d)

unfoldable pub thread_step : Kernel → TcpSystem → TcpSystem
thread_step k x =
    let (s, p, d) = thread_move k x.phase x.destination x.service in
    record x { service = s; phase = p; destination = d }

-- `n` moves of the thread, with no other thread's in between.
unfoldable pub run_thread : Kernel → ℕ → TcpService × Phase × Address → TcpService × Phase × Address
run_thread k zero r = r
run_thread k (suc n) (s, p, d) = run_thread k n (thread_move k p d s)

-- `Create`
unfoldable pub create : TcpServiceConfiguration → TcpSystem → TcpSystem × Bool
create conf x =
    if x.service.is_created then (x, same_configuration conf x.service.active_conf) else (
      record x {
        service = record (x.service) { active_conf = conf; is_created = true };
        phase = tests;
        destination = zero_address;
      },
      true,
    )

-- The parts of `Destroy`.
abbrev pub begin_destroy : TcpSystem → TcpSystem
begin_destroy x = record x { service = record (x.service) { terminate = true }; owner = stops }

abbrev pub destroy_disconnect : Kernel → TcpSystem → TcpSystem
destroy_disconnect k x = record x { service = disconnect k x.service; owner = notifies }

abbrev pub destroy_notify : TcpSystem → TcpSystem
destroy_notify x = record x {
  service = record (x.service) { notified = x.service.notified + 1 };
  owner = joins;
}

-- Behind `join`: each member is reset by a move of its own.
abbrev pub resume : TcpSystem → TcpSystem
resume x = record x { service = record (x.service) { terminate = false }; owner = unmarks }

abbrev pub unmark : TcpSystem → TcpSystem
unmark x = record x { service = record (x.service) { is_created = false }; owner = excuses }

abbrev pub excuse : TcpSystem → TcpSystem
excuse x = record x { service = record (x.service) { latest_error_code = 0 }; owner = clears }

abbrev pub clear_event : TcpSystem → TcpSystem
clear_event x = record x { service = record (x.service) { notified = 0 }; owner = forgets }

abbrev pub forget : TcpSystem → TcpSystem
forget x = record x {
  service = record (x.service) { active_conf = reset_configuration };
  owner = unsets_ip;
}

abbrev pub unset_ip : TcpSystem → TcpSystem
unset_ip x = record x {
  service = record (x.service) {
    commanded_address = record (x.service.commanded_address) { ip = zero_address.ip };
  };
  owner = unsets_port;
}

abbrev pub unset_port : TcpSystem → TcpSystem
unset_port x = record x {
  service = record (x.service) {
    commanded_address = record (x.service.commanded_address) { port = 0 };
  };
  phase = not_started;
  owner = runs;
}

-- All of them, with no call of another thread in between.
abbrev pub end_destroy : TcpSystem → TcpSystem
end_destroy x = unset_port (unset_ip (forget (clear_event (excuse (unmark (resume x))))))

-- `join` returns, or there is no thread to join.
abbrev pub joined : Phase → Bool
joined not_started = true
joined done = true
joined _ = false

-- Enough moves to end a thread at a place, where `n` is the count of the event.
abbrev pub moves_left : Phase → ℕ → ℕ
moves_left (connects cs) n = length cs + n + 4
moves_left _ n = n + 14

-- `Destroy` as a whole, where no other thread calls the service meanwhile: the management thread runs
-- once it is notified.
unfoldable pub destroy : Kernel → TcpSystem → TcpSystem
destroy k x =
    let y : TcpSystem = destroy_notify (destroy_disconnect k (begin_destroy x)) in
    let (s, p, d) =
      run_thread k (moves_left y.phase y.service.notified) (y.service, y.phase, y.destination) in
    end_destroy (record y { service = s; phase = p; destination = d })

pub data Step (k : Kernel) (x : TcpSystem) : TcpSystem → Type 0 where
  creates : (conf : TcpServiceConfiguration) → x.owner ≡ runs → Step k x (create conf x).0
  sends :
      (a : Address) (manage : Bool) (bytes : List ℕ) (size : ℤ)
      → Step k x (record x { service = (service_send k a manage bytes size x.service).0 })
  receives :
      (a : Address) (manage : Bool) (max_size : ℤ)
      → Step k x (record x { service = (service_receive k a manage max_size x.service).0 })
  thread_moves : Step k x (thread_step k x)
  wait_error : x.phase ≡ waits → Step k x (record x { phase = tests })
  destroys : x.owner ≡ runs → Step k x (begin_destroy x)
  destroy_disconnects : x.owner ≡ stops → Step k x (destroy_disconnect k x)
  destroy_notifies : x.owner ≡ notifies → Step k x (destroy_notify x)
  destroy_joins : x.owner ≡ joins → joined x.phase ≡ true → Step k x (record x { owner = resumes })
  destroy_resumes : x.owner ≡ resumes → Step k x (resume x)
  destroy_unmarks : x.owner ≡ unmarks → Step k x (unmark x)
  destroy_excuses : x.owner ≡ excuses → Step k x (excuse x)
  destroy_clears : x.owner ≡ clears → Step k x (clear_event x)
  destroy_forgets : x.owner ≡ forgets → Step k x (forget x)
  destroy_unsets_ip : x.owner ≡ unsets_ip → Step k x (unset_ip x)
  destroy_unsets_port : x.owner ≡ unsets_port → Step k x (unset_port x)

pub data Reach (k : Kernel) (x : TcpSystem) : TcpSystem → Type 0 where
  here : Reach k x x
  next : {y z : TcpSystem} → Reach k x y → Step k y z → Reach k x z
