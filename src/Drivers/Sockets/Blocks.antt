-- ===== src/Drivers/Sockets/Blocks.antt =====
-- What a block of the model reaches through the functions of its driver.
use generic_target.Base.{◌==◌, ℕ, ◌≤◌, ◌<◌, ◌≡◌, ap, Bool, false, not, List, [], ◌∷◌}
use generic_target.Base.Int.{ℤ, pos}
use generic_target.Net.Addresses.{Ip, Address}
use generic_target.Net.Sockets.{Kernel}
use generic_target.Services.{Entry}
use generic_target.Services.Routing.{lookup, lookup-at_service}
use generic_target.Services.Creation.{service_or_new, lookup-with_new}
use generic_target.Udp.{UdpServiceConfiguration, UdpService, create, new_service}
use generic_target.Udp.Manager.{UdpServiceManager}
use generic_target.Tcp.{service_send, service_receive}
use generic_target.Tcp.Thread
use generic_target.Tcp.Thread.{TcpSystem, new_system}
use generic_target.Tcp.Manager.{on_service, manager_send, manager_receive}
use generic_target.Drivers.Sockets.{
  UdpParameters, udp_configuration, tcp_configuration, tcp_client_socket_initialize,
  tcp_client_socket_step, as_bool,
}

abbrev pub bytes_of : List Ip → List ℕ
bytes_of [] = []
bytes_of (g ∷ gs) = g.b0 ∷ g.b1 ∷ g.b2 ∷ g.b3 ∷ bytes_of gs

-- A character that is not a control character.
abbrev pub IsPlain : ℕ → Type 0
IsPlain c = (32 ≤ c) × (c < 128)

-- The configuration with the block's parameters, the device name as it is.
abbrev pub parameters_of : UdpParameters → UdpServiceConfiguration
parameters_of p = record {
  port = p.port;
  device_name = p.device_name;
  socket_priority = p.socket_priority;
  allow_broadcast = not (p.allow_broadcast == 0);
  allow_zero_length_message = not (p.allow_zero_length_message == 0);
  multicast_all = not (p.multicast_all == 0);
  multicast_loop = not (p.multicast_loop == 0);
  multicast_ttl = p.multicast_ttl;
  multicast_interface_address = p.multicast_interface_address;
}

module _ (kernel : ℤ → Kernel) where
  -- The service behind `GT_DriverUDPSocketInitialize`, and whether it has been created.
  abbrev pub udp_service_of : UdpParameters → UdpServiceManager → UdpService × Bool
  udp_service_of p m = create (kernel p.port) (udp_configuration p) (
      service_or_new (create (kernel p.port) (udp_configuration p)) new_service
        (lookup p.port m.services))

  abbrev pub tcp_service_of : ℤ → List ℕ → ℤ → List (Entry TcpSystem) → TcpSystem × Bool
  tcp_service_of port name priority es = Thread.create (tcp_configuration port name priority) (
      service_or_new (Thread.create (tcp_configuration port name priority)) new_system
        (lookup port es))

  -- A TCP client block whose service `GT_DriverTCPClientSocketInitialize` creates from its parameters
  -- sends and receives through this very service; the program is told to terminate exactly if the
  -- service could not be created.
  pub tcp_block :
      (port : ℤ) (name : List ℕ) (priority : ℤ) (es : List (Entry TcpSystem)) (server : Address)
      (manage : ℕ) (bytes : List ℕ) (size rx_size : ℤ)
      → let fs : List (Entry TcpSystem) =
          (tcp_client_socket_initialize kernel port name priority es).0 in
        let x : TcpSystem = (tcp_service_of port name priority es).0 in
        ((tcp_client_socket_step kernel port 1 rx_size server manage bytes size fs).1
          ≡ (service_send (kernel port) server (as_bool manage) bytes size x.service).1)
        × ((tcp_client_socket_step kernel port 0 rx_size server manage bytes size fs).1
            ≡ (service_receive (kernel port) server (as_bool manage) rx_size x.service).1)
        × ((tcp_client_socket_initialize kernel port name priority es).1
            ≡ not (tcp_service_of port name priority es).1)
  unfolding tcp_client_socket_step tcp_client_socket_initialize manager_send manager_receive
  tcp_block port name priority es server manage bytes size rx_size =
      let v =
        lookup-with_new (Thread.create (tcp_configuration port name priority)) new_system port es in
      let fs : List (Entry TcpSystem) =
        (tcp_client_socket_initialize kernel port name priority es).0 in
      let x : TcpSystem = (tcp_service_of port name priority es).0 in
      (
        ((lookup-at_service port port
              (on_service (service_send (kernel port) server (as_bool manage) bytes size))
              (pos 0, 0, false) fs).1
            x v.0).1,
        ((lookup-at_service port port
              (on_service (service_receive (kernel port) server (as_bool manage) rx_size))
              (pos 0, 0, false) fs).1
            x v.0).1,
        ap not v.1,
      )
