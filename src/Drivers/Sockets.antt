-- ===== src/Drivers/Sockets.antt =====
-- library/drivers/GT_DriverUDPSocket.cpp and GT_DriverTCPClientSocket.cpp, for the target: not DEBUG,
-- not Windows. The model's block is the key of its service, its port.
pub mod Blocks
use generic_target.Base.{ltb, leb, ◌==◌, if◌then◌else◌, take, ℕ, Bool, not, ◌&&◌, List, [], ◌∷◌}
use generic_target.Base.Int.{ℤ}
use generic_target.Net.Addresses.{Ip, Address}
use generic_target.Net.Sockets.{Kernel}
use generic_target.Services.{Entry}
use generic_target.Udp.{UdpServiceConfiguration}
use generic_target.Udp.Manager.{
  UdpServiceManager, add_service, clear_all_services, manager_send_to, manager_receive_from,
}
use generic_target.Tcp.{TcpServiceConfiguration}
use generic_target.Tcp.Thread.{TcpSystem}
use generic_target.Tcp.Manager

-- The loop over the characters of the device name: a char is signed, so what is not ASCII is below
-- the blank.
unfoldable pub device_characters : List ℕ → List ℕ
device_characters [] = []
device_characters (c ∷ cs) =
    let rest : List ℕ = device_characters cs in if leb 32 c && ltb c 128 then c ∷ rest else rest

-- The loop over the bytes of the multicast groups: four at a time, and less than four are left out.
unfoldable pub groups_of : List ℕ → List Ip
groups_of (b0 ∷ b1 ∷ b2 ∷ b3 ∷ bytes) =
    record { b0 = b0; b1 = b1; b2 = b2; b3 = b3 } ∷ groups_of bytes
groups_of _ = []

-- `static_cast<bool>` of a uint8_t.
abbrev pub as_bool : ℕ → Bool
as_bool n = not (n == 0)

-- The parameters of a UDP block.
pub record UdpParameters : Type 0 where
  pub port : ℤ
  pub device_name : List ℕ
  pub socket_priority : ℤ
  pub allow_broadcast : ℕ
  pub allow_zero_length_message : ℕ
  pub multicast_all : ℕ
  pub multicast_loop : ℕ
  pub multicast_ttl : ℕ
  pub multicast_interface_address : Ip

abbrev pub udp_configuration : UdpParameters → UdpServiceConfiguration
udp_configuration p = record {
  port = p.port;
  device_name = device_characters p.device_name;
  socket_priority = p.socket_priority;
  allow_broadcast = as_bool p.allow_broadcast;
  allow_zero_length_message = as_bool p.allow_zero_length_message;
  multicast_all = as_bool p.multicast_all;
  multicast_loop = as_bool p.multicast_loop;
  multicast_ttl = p.multicast_ttl;
  multicast_interface_address = p.multicast_interface_address;
}

abbrev pub tcp_configuration : ℤ → List ℕ → ℤ → TcpServiceConfiguration
tcp_configuration port device_name socket_priority = record {
  port = port;
  device_name = device_characters device_name;
  socket_priority = socket_priority;
}

module _ (kernel : ℤ → Kernel) where
  -- `GT_DriverUDPSocketInitialize`, with whether it calls `ShouldTerminate`.
  unfoldable pub udp_socket_initialize :
      UdpParameters → UdpServiceManager → UdpServiceManager × Bool
  udp_socket_initialize p m =
      let (n, success) = add_service kernel p.port (udp_configuration p) m in (n, not success)

  unfoldable pub udp_socket_terminate : ℤ → UdpServiceManager → UdpServiceManager
  udp_socket_terminate port m = (clear_all_services kernel m).0

  -- `GT_DriverUDPSocketStep`, with `result` and `lastErrorCode`: of the bytes of the groups the first
  -- `num_group_bytes` count.
  unfoldable pub udp_socket_step :
      ℤ
      → ℕ
      → ℤ
      → Address
      → List ℕ
      → ℤ
      → List ℕ
      → ℕ
      → UdpServiceManager
      → UdpServiceManager × (ℤ × ℕ)
  udp_socket_step port send_receive rx_size destination bytes size group_bytes num_group_bytes m =
      if as_bool send_receive
      then manager_send_to kernel port destination bytes size m
      else manager_receive_from kernel port rx_size (groups_of (take num_group_bytes group_bytes)) m

  unfoldable pub tcp_client_socket_initialize :
      ℤ → List ℕ → ℤ → List (Entry TcpSystem) → List (Entry TcpSystem) × Bool
  tcp_client_socket_initialize port device_name socket_priority es =
      let (fs, success) =
        Manager.add_service port (tcp_configuration port device_name socket_priority) es in
      (fs, not success)

  unfoldable pub tcp_client_socket_terminate : ℤ → List (Entry TcpSystem) → List (Entry TcpSystem)
  tcp_client_socket_terminate port es = (Manager.clear_all_services kernel es).0

  unfoldable pub tcp_client_socket_step :
      ℤ
      → ℕ
      → ℤ
      → Address
      → ℕ
      → List ℕ
      → ℤ
      → List (Entry TcpSystem)
      → List (Entry TcpSystem) × (ℤ × ℕ × Bool)
  tcp_client_socket_step port send_receive rx_size server manage bytes size es =
      if as_bool send_receive
      then Manager.manager_send kernel port server (as_bool manage) bytes size es
      else Manager.manager_receive kernel port server (as_bool manage) rx_size es
