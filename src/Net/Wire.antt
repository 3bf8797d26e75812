-- ===== src/Net/Wire.antt =====
-- library/drivers/GT_DriverImplementationDetails.cpp: the addresses that `UDPSocket`, `TCPClientSocket`
-- and `TCPServerSocket` pass to the system and take from it, on Linux. A socket is `none` where
-- `m_socket` is negative.
pub mod Peers
pub mod Tests
use generic_target.Base.{if◌then◌else◌, take, ℕ, ◌%◌, ◌^◌, ◌<◌, ◌≡◌, Option, none, some, List}
use generic_target.Base.Int.{is_neg, to_ℕ, ℤ, negsuc}
use generic_target.Net.Addresses.{Address, ip_word, word_ip}

-- `sockaddr_in`, with the port and the address in the order of the network.
pub record Sockaddr : Type 0 where
  pub family : ℕ
  pub sin_port : ℕ
  pub sin_addr : ℕ

-- The conversions between the orders of the host and the network.
pub record ByteOrder : Type 0 where
  pub htonl : ℕ → ℕ
  pub ntohl : ℕ → ℕ
  pub htons : ℕ → ℕ
  pub ntohs : ℕ → ℕ

pub record IsByteOrder (o : ByteOrder) : Type 0 where
  pub ntohl-htonl : (x : ℕ) → x < 2 ^ 32 → o.ntohl (o.htonl x) ≡ x
  pub htonl-ntohl : (x : ℕ) → x < 2 ^ 32 → o.htonl (o.ntohl x) ≡ x
  pub ntohl_lt : (x : ℕ) → x < 2 ^ 32 → o.ntohl x < 2 ^ 32
  pub ntohs-htons : (x : ℕ) → x < 2 ^ 16 → o.ntohs (o.htons x) ≡ x
  pub htons-ntohs : (x : ℕ) → x < 2 ^ 16 → o.htons (o.ntohs x) ≡ x
  pub ntohs_lt : (x : ℕ) → x < 2 ^ 16 → o.ntohs x < 2 ^ 16

-- AF_INET
abbrev pub af_inet : ℕ
af_inet = 2

-- `Address{}`
abbrev pub no_address : Address
no_address = record { ip = record { b0 = 0; b1 = 0; b2 = 0; b3 = 0 }; port = 0 }

-- `TCPClientConnection`: an address with the socket of a client, negative where there is none.
pub record Connection : Type 0 where
  pub socket : ℤ
  pub peer : Address

module _ (o : ByteOrder) where
  -- `addr` in `SendTo` and `Connect`.
  unfoldable pub to_sockaddr : Address → Sockaddr
  to_sockaddr a = record {
    family = af_inet;
    sin_port = o.htons a.port;
    sin_addr = o.htonl (ip_word a.ip);
  }

  -- What `ReceiveFrom` and `Accept` take from the `addr` that the system has filled.
  unfoldable pub from_sockaddr : Sockaddr → Address
  from_sockaddr s = record { ip = word_ip (o.ntohl s.sin_addr); port = o.ntohs s.sin_port % 2 ^ 16 }

  -- `UDPSocket::SendTo` of `size` bytes, with what `sendto` answers for a descriptor, bytes and address.
  unfoldable pub udp_send_to : (ℕ → List ℕ → Sockaddr → ℤ) → Option ℕ → Address → List ℕ → ℤ → ℤ
  udp_send_to sendto socket destination bytes size = if is_neg size then negsuc 0 else elim socket [
    | none ↦ negsuc 0
    | some fd ↦ sendto fd (take (to_ℕ size) bytes) (to_sockaddr destination)
  ]

  -- `UDPSocket::ReceiveFrom`, with what `recvfrom` answers for a descriptor and a size: its result,
  -- the bytes and the address that it stores. A source is kept where nothing is received.
  unfoldable pub udp_receive_from :
      (ℕ → ℕ → ℤ × List ℕ × Sockaddr) → Option ℕ → Address → List ℕ → ℤ → ℤ × List ℕ × Address
  udp_receive_from recvfrom socket source bytes max_size =
      if is_neg max_size then (negsuc 0, bytes, source) else elim socket [
        | none ↦ (negsuc 0, bytes, source)
        | some fd ↦
            let (rx, stored, addr) = recvfrom fd (to_ℕ max_size) in
            if is_neg rx then (rx, stored, source) else (rx, stored, from_sockaddr addr)
      ]

  -- `TCPClientSocket::Connect`
  unfoldable pub tcp_connect : (ℕ → Sockaddr → ℤ) → Option ℕ → Address → ℤ
  tcp_connect connect socket server_address = elim socket [
    | none ↦ negsuc 0
    | some fd ↦ connect fd (to_sockaddr server_address)
  ]

  -- `TCPServerSocket::Listen`
  unfoldable pub tcp_listen : (ℕ → ℤ → ℤ) → Option ℕ → ℤ → ℤ
  tcp_listen listen socket backlog = elim socket [ none ↦ negsuc 0 | some fd ↦ listen fd backlog ]

  -- `TCPServerSocket::Accept`, which calls the system for a closed socket too.
  unfoldable pub tcp_accept : (Option ℕ → ℤ × Sockaddr) → Option ℕ → Connection
  tcp_accept accept socket =
      let (client_socket, addr) = accept socket in
      if is_neg client_socket
      then record { socket = client_socket; peer = no_address }
      else record { socket = client_socket; peer = from_sockaddr addr }
