-- ===== src/Udp.antt =====
-- library/drivers/GT_DriverImplementationDetails.{hpp,cpp}: `UDPServiceConfiguration` and
-- `UDPService`. A record of the service holds the members and the system's side.
pub mod Groups
pub mod Sending
pub mod Create
pub mod Bound
pub mod Manager
pub mod Thread
pub mod Tests
use generic_target.Base.{
  ltb, ◌==◌, if◌then◌else◌, ℕ, Bool, true, false, not, ◌&&◌, Option, none, List, [], ◌∷◌,
}
use generic_target.Base.Int.{is_neg, eq_ℤ, clamp, ℤ, pos}
use generic_target.Base.Bytes.{same_bytes}
use generic_target.Net.Addresses.{Ip, same_ip}
use generic_target.Net.Sockets.{
  Call, Kernel, World, system_call, reset_last_error, is_open, close_socket, open_socket, bind,
  set_option, socket_datagram, drop_membership, add_membership, reuse_port, bind_to_device,
  reuse_address, set_non_blocking, priority, allow_broadcast, multicast_all, multicast_loop,
  multicast_ttl, interface_name,
}

pub record UdpServiceConfiguration : Type 0 where
  pub port : ℤ  -- int32_t
  pub device_name : List ℕ
  pub socket_priority : ℤ  -- int32_t
  pub allow_broadcast : Bool
  pub allow_zero_length_message : Bool
  pub multicast_all : Bool
  pub multicast_loop : Bool
  pub multicast_ttl : ℕ  -- uint8_t
  pub multicast_interface_address : Ip

abbrev pub reset_configuration : UdpServiceConfiguration
reset_configuration = record {
  port = pos 0;
  device_name = [];
  socket_priority = pos 0;
  allow_broadcast = false;
  allow_zero_length_message = false;
  multicast_all = true;
  multicast_loop = true;
  multicast_ttl = 0;
  multicast_interface_address = record { b0 = 0; b1 = 0; b2 = 0; b3 = 0 };
}

abbrev pub same_bool : Bool → Bool → Bool
same_bool true b = b
same_bool false b = not b

-- `UDPServiceConfiguration::operator==`
unfoldable pub same_configuration : UdpServiceConfiguration → UdpServiceConfiguration → Bool
same_configuration x y =
    eq_ℤ x.port y.port
    && (same_bytes x.device_name y.device_name
        && (eq_ℤ x.socket_priority y.socket_priority
            && (same_bool x.allow_broadcast y.allow_broadcast
                && (same_bool x.allow_zero_length_message y.allow_zero_length_message
                    && (same_bool x.multicast_all y.multicast_all
                        && (same_bool x.multicast_loop y.multicast_loop
                            && (x.multicast_ttl == y.multicast_ttl
                                && same_ip x.multicast_interface_address
                                    y.multicast_interface_address)))))))

pub record UdpService : Type 0 where
  pub udp_socket : Option ℕ
  pub active_conf : UdpServiceConfiguration
  pub active_conf_set : Bool
  pub latest_error_code : ℕ
  pub currently_joined_groups : List Ip
  pub is_bound : Bool
  pub attempt_to_bind_status : ℕ
  pub world : World

-- Behind the constructor, before any call of the system.
abbrev pub new_service : UdpService
new_service = record {
  udp_socket = none;
  active_conf = reset_configuration;
  active_conf_set = false;
  latest_error_code = 0;
  currently_joined_groups = [];
  is_bound = false;
  attempt_to_bind_status = 0;
  world = record { calls = []; errno = 0; descriptors = []; members = [] };
}

-- A call on the service's socket behind `ResetLastError`.
abbrev pub call_service : Kernel → Call → UdpService → UdpService × ℤ
call_service k c s =
    let (w, r) = system_call k c (reset_last_error s.world) in (record s { world = w }, r)

abbrev pub close_service : Kernel → UdpService → UdpService
close_service k s = record s { world = close_socket k s.udp_socket s.world; udp_socket = none }

-- The calls of `Create` on a new socket, in their order.
abbrev pub setup_calls : UdpServiceConfiguration → Option ℕ → List Call
setup_calls conf fd =
    set_option fd (reuse_port true)
    ∷ set_option fd (reuse_address true)
    ∷ set_non_blocking fd
    ∷ set_option fd (priority conf.socket_priority)
    ∷ set_option fd (allow_broadcast conf.allow_broadcast)
    ∷ set_option fd (multicast_all conf.multicast_all)
    ∷ set_option fd (multicast_loop conf.multicast_loop)
    ∷ set_option fd (multicast_ttl conf.multicast_ttl)
    ∷ []

-- Each of them fails with a closed socket and its error code.
unfoldable pub set_up : Kernel → List Call → UdpService → UdpService × Bool
set_up k [] s = (s, true)
set_up k (c ∷ cs) s =
    let (t, r) = call_service k c s in
    let rest : UdpService × Bool = set_up k cs t in
    if is_neg r
    then (close_service k (record t { latest_error_code = t.world.errno }), false)
    else rest

unfoldable pub open_service : Kernel → UdpService → UdpService × Bool
open_service k s =
    let (w, fd, ok) = open_socket k socket_datagram s.udp_socket (reset_last_error s.world) in
    let t : UdpService = record s { world = w; udp_socket = fd } in
    if ok
    then set_up k (setup_calls t.active_conf fd) t
    else (record t { latest_error_code = w.errno }, false)

-- `std::clamp(m_activeConf.port, 0, 65535)`
abbrev pub bind_port : UdpServiceConfiguration → ℕ
bind_port conf = clamp conf.port 0 65535

-- `AttemptToBind`, its two steps behind the test of `m_isBound`.
unfoldable pub bind_first : Kernel → UdpService → UdpService × Bool
bind_first k s =
    if ltb s.attempt_to_bind_status 1
    then (let (t, r) = call_service k (bind s.udp_socket (bind_port s.active_conf)) s in
        if is_neg r
        then (record t { latest_error_code = t.world.errno }, false)
        else (record t { attempt_to_bind_status = 1 }, true))
    else (s, true)

unfoldable pub bind_second : Kernel → UdpService → UdpService × Bool
bind_second k s =
    if ltb s.attempt_to_bind_status 2
    then (let (t, r) =
          call_service k
            (set_option s.udp_socket (bind_to_device (interface_name s.active_conf.device_name)))
            s in
        if is_neg r
        then (record t { latest_error_code = t.world.errno }, false)
        else (record t { attempt_to_bind_status = 2 }, true))
    else (s, true)

unfoldable pub bind_both : Kernel → UdpService → UdpService × Bool
bind_both k s =
    let (t, first) = bind_first k s in
    let (u, second) = bind_second k t in
    if not first
    then (t, false)
    else if not second
    then (u, false)
    else (record u { is_bound = true }, true)

unfoldable pub attempt_to_bind : Kernel → UdpService → UdpService × Bool
attempt_to_bind k s = if s.is_bound then (s, true) else bind_both k s

abbrev pub set_configuration : UdpServiceConfiguration → UdpService → UdpService
set_configuration conf s =
    if s.active_conf_set then s else record s { active_conf = conf; active_conf_set = true }

unfoldable pub create : Kernel → UdpServiceConfiguration → UdpService → UdpService × Bool
create k conf s0 =
    let s : UdpService = set_configuration conf s0 in
    let (t, opened) = if is_open s.udp_socket then (s, true) else open_service k s in
    if not (same_configuration s.active_conf conf)
    then (s, false)
    else if not opened
    then (t, false)
    else ((attempt_to_bind k t).0, true)

abbrev pub without : Ip → List Ip → List Ip
without g [] = []
without g (x ∷ xs) = if same_ip x g then without g xs else x ∷ without g xs

-- `LeaveMulticastGroup` and `JoinMulticastGroup`, with the system's set of groups behind them.
unfoldable pub leave_group : Kernel → Ip → UdpService → UdpService × Bool
leave_group k g s =
    let (w, r) = system_call k (set_option s.udp_socket (drop_membership g)) s.world in
    if is_neg r
    then (record s { world = w }, false)
    else (record s { world = record w { members = without g w.members } }, true)

unfoldable pub join_group : Kernel → Ip → UdpService → UdpService × Bool
join_group k g s =
    let (w, r) = system_call k (set_option s.udp_socket (add_membership g)) s.world in
    if is_neg r
    then (record s { world = w }, false)
    else (record s { world = record w { members = g ∷ w.members } }, true)

unfoldable pub leave_all : Kernel → List Ip → UdpService → UdpService
leave_all k [] s = s
leave_all k (g ∷ gs) s = leave_all k gs (leave_group k g s).0

unfoldable pub destroy : Kernel → UdpService → UdpService
destroy k s =
    let t : UdpService =
      if is_open s.udp_socket
      then close_service k (leave_all k s.currently_joined_groups s)
      else s in
    record t {
      currently_joined_groups = [];
      latest_error_code = 0;
      is_bound = false;
      attempt_to_bind_status = 0;
      active_conf = reset_configuration;
    }
