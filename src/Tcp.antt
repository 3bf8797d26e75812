-- ===== src/Tcp.antt =====
-- library/drivers/GT_DriverImplementationDetails.{hpp,cpp}: `TCPClientServiceConfiguration` and
-- `TCPClientService` on Linux, without its threads. A record of the service holds the members and
-- the system's side.
pub mod Calls
pub mod Connect
pub mod Thread
pub mod Places
pub mod Invariant
pub mod Settled
pub mod Destroyed
pub mod Join
pub mod Converges
pub mod Manager
pub mod Tests
use generic_target.Base.{
  ◌==◌, if◌then◌else◌, take, ℕ, ◌+◌, Bool, true, false, not, ◌&&◌, ◌||◌, Option, none, some, List,
  [], ◌∷◌,
}
use generic_target.Base.Int.{is_neg, to_ℕ, eq_ℤ, clamp, ℤ, pos, negsuc}
use generic_target.Base.Bytes.{same_bytes}
use generic_target.Net.Addresses.{Address, same_address}
use generic_target.Net.Sockets.{
  Call, Kernel, World, SocketOption, system_call, reset_last_error, close_socket, open_socket, bind,
  set_option, socket_stream, reuse_port, bind_to_device, reuse_address, set_non_blocking, priority,
  connect, send, receive, interface_name,
}

pub record TcpServiceConfiguration : Type 0 where
  pub port : ℤ  -- int32_t
  pub device_name : List ℕ
  pub socket_priority : ℤ  -- int32_t

abbrev pub reset_configuration : TcpServiceConfiguration
reset_configuration = record { port = pos 0; device_name = []; socket_priority = pos 0 }

-- `TCPClientServiceConfiguration::operator==`
unfoldable pub same_configuration : TcpServiceConfiguration → TcpServiceConfiguration → Bool
same_configuration x y =
    eq_ℤ x.port y.port
    && (same_bytes x.device_name y.device_name && eq_ℤ x.socket_priority y.socket_priority)

-- `notified` is the count of the semaphore in `m_event`; `peer` is the server that the system has
-- the socket connected to.
pub record TcpService : Type 0 where
  pub tcp_socket : Option ℕ
  pub active_conf : TcpServiceConfiguration
  pub terminate : Bool
  pub is_created : Bool
  pub is_connected : Bool
  pub commanded_address : Address
  pub latest_error_code : ℕ
  pub notified : ℕ
  pub peer : Option Address
  pub world : World

abbrev pub zero_address : Address
zero_address = record { ip = record { b0 = 0; b1 = 0; b2 = 0; b3 = 0 }; port = 0 }

-- Behind the constructor.
abbrev pub new_service : TcpService
new_service = record {
  tcp_socket = none;
  active_conf = reset_configuration;
  terminate = false;
  is_created = false;
  is_connected = false;
  commanded_address = zero_address;
  latest_error_code = 0;
  notified = 0;
  peer = none;
  world = record { calls = []; errno = 0; descriptors = []; members = [] };
}

unfoldable pub is_connect_command : Address → Bool
is_connect_command a =
    not ((a.ip.b0 == 0) && ((a.ip.b1 == 0) && ((a.ip.b2 == 0) && (a.ip.b3 == 0))))
    && not (a.port == 0)

-- `SetNewAddressCommand` with the `Notify` behind it, where the connection is managed.
unfoldable pub command_address : Address → Bool → TcpService → TcpService
command_address a manage s =
    if not manage
    then s
    else if same_address s.commanded_address a
    then record s { commanded_address = a }
    else record s { commanded_address = a; notified = s.notified + 1 }

-- ECONNRESET, EPIPE, ENOTCONN, ETIMEDOUT: `connectionClosed` of `Send`.
unfoldable pub send_closed : ℤ → ℕ → Bool
send_closed tx code =
    is_neg tx && ((code == 104) || ((code == 32) || ((code == 107) || (code == 110))))

-- ECONNRESET, ENOTCONN, ESHUTDOWN, ETIMEDOUT: `connectionClosed` of `Receive`.
unfoldable pub receive_closed : ℤ → ℕ → Bool
receive_closed rx code =
    eq_ℤ rx (pos 0)
    || (is_neg rx && ((code == 104) || ((code == 107) || ((code == 108) || (code == 110)))))

-- `Send` and `Receive` of the socket behind `ResetLastError`: -1 without a call where it is closed.
abbrev pub call_on : Kernel → (ℕ → Call) → Option ℕ → TcpService → TcpService × ℤ
call_on k c none s = (record s { world = reset_last_error s.world }, negsuc 0)
call_on k c (some fd) s =
    let (w, r) = system_call k (c fd) (reset_last_error s.world) in (record s { world = w }, r)

abbrev pub call_socket : Kernel → (ℕ → Call) → TcpService → TcpService × ℤ
call_socket k c s = call_on k c s.tcp_socket s

-- Behind a call of the socket: the code, and a lost connection.
abbrev pub note_result : (ℤ → ℕ → Bool) → TcpService → ℤ → TcpService
note_result closed t r =
    let u : TcpService = record t { latest_error_code = t.world.errno } in
    if closed r t.world.errno
    then record u { is_connected = false; notified = u.notified + 1 }
    else u

-- The body that `Send` and `Receive` share: what the call returns, the code, and `m_isConnected`.
unfoldable pub exchange :
    Kernel
    → (ℕ → Call)
    → (ℤ → ℕ → Bool)
    → Address
    → Bool
    → ℤ
    → TcpService
    → TcpService × (ℤ × ℕ × Bool)
exchange k c closed a manage size s0 =
    let s : TcpService = command_address a manage s0 in
    let (t, r) = call_socket k c s in
    let u : TcpService = note_result closed t r in
    if s.is_connected && not (is_neg size)
    then (u, (r, u.latest_error_code, u.is_connected))
    else (s, (negsuc 0, s.latest_error_code, s.is_connected))

unfoldable pub service_send :
    Kernel → Address → Bool → List ℕ → ℤ → TcpService → TcpService × (ℤ × ℕ × Bool)
service_send k a manage bytes size =
    exchange k (λ fd. send fd (take (to_ℕ size) bytes)) send_closed a manage size

unfoldable pub service_receive :
    Kernel → Address → Bool → ℤ → TcpService → TcpService × (ℤ × ℕ × Bool)
service_receive k a manage max_size =
    exchange k (λ fd. receive fd (to_ℕ max_size)) receive_closed a manage max_size

unfoldable pub disconnect : Kernel → TcpService → TcpService
disconnect k s = record s {
  world = close_socket k s.tcp_socket s.world;
  tcp_socket = none;
  peer = none;
  is_connected = false;
}

-- The first part of `Connect`: `Open`.
unfoldable pub open_client : Kernel → TcpService → TcpService × Bool
open_client k s =
    let (w, fd, ok) = open_socket k socket_stream s.tcp_socket (reset_last_error s.world) in
    let t : TcpService = record s { world = w; tcp_socket = fd } in
    if ok
    then (record t { peer = none }, true)
    else (record t { latest_error_code = w.errno }, false)

-- The calls of `Connect` behind `Open`.
pub data ConnectCall : Type 0 where
  sets : SocketOption → ConnectCall
  binds : ℕ → ConnectCall
  connects_to : Address → ConnectCall
  non_blocking : ConnectCall

abbrev pub connect_calls : TcpServiceConfiguration → Address → List ConnectCall
connect_calls conf destination =
    sets (reuse_port true)
    ∷ sets (reuse_address true)
    ∷ sets (priority conf.socket_priority)
    ∷ binds (clamp conf.port 0 65535)
    ∷ sets (bind_to_device (interface_name conf.device_name))
    ∷ connects_to destination
    ∷ non_blocking
    ∷ []

abbrev pub call_option : Kernel → Call → TcpService → TcpService × ℤ
call_option k c s =
    let (w, r) = system_call k c (reset_last_error s.world) in (record s { world = w }, r)

abbrev pub call_connect : Kernel → ConnectCall → TcpService → TcpService × ℤ
call_connect k (sets o) s = call_option k (set_option s.tcp_socket o) s
call_connect k (binds port) s = call_option k (bind s.tcp_socket port) s
call_connect k (connects_to a) s = call_socket k (λ fd. connect fd a) s
call_connect k non_blocking s = call_option k (set_non_blocking s.tcp_socket) s

-- What the system's answer makes of the service: the code and `Close`, which is missing where the
-- connection to the server fails.
abbrev pub failed : Kernel → ConnectCall → TcpService → TcpService
failed k (connects_to a) t = record t { latest_error_code = t.world.errno }
failed k _ t = record t {
  latest_error_code = t.world.errno;
  world = close_socket k t.tcp_socket t.world;
  tcp_socket = none;
  peer = none;
}

abbrev pub passed : ConnectCall → TcpService → TcpService
passed (connects_to a) t = record t { peer = some a }
passed _ t = t

abbrev pub answered : Kernel → ConnectCall → TcpService → ℤ → TcpService × Bool
answered k c t r = if is_neg r then (failed k c t, false) else (passed c t, true)

unfoldable pub connect_step : Kernel → ConnectCall → TcpService → TcpService × Bool
connect_step k c s = let (t, r) = call_connect k c s in answered k c t r

-- `Connect`, without another thread in between.
unfoldable pub connect_rest : Kernel → List ConnectCall → TcpService → TcpService × Bool
connect_rest k [] s = (record s { is_connected = true }, true)
connect_rest k (c ∷ cs) s =
    let (t, ok) = connect_step k c s in
    let rest : TcpService × Bool = connect_rest k cs t in if ok then rest else (t, false)

unfoldable pub connect_client : Kernel → Address → TcpService → TcpService × Bool
connect_client k destination s =
    let (t, ok) = open_client k s in
    if ok then connect_rest k (connect_calls t.active_conf destination) t else (t, false)
