-- ===== src/Net/Sockets.antt =====
-- library/drivers/GT_DriverImplementationDetails.{hpp,cpp}: `SocketBase`, `SocketBinding`,
-- `TCPSocketBase`, `TCPClientSocket` and `UDPSocket` on Linux. A socket is `none` where `m_socket` is
-- negative, and the system is a function of the calls made so far.
use generic_target.Base.{
  ltb, if◌then◌else◌, take, remove, ℕ, Bool, true, false, ◌||◌, Option, none, some, List, [], ◌∷◌,
}
use generic_target.Base.Int.{is_neg, to_ℕ, ℤ}
use generic_target.Net.Addresses.{Ip, Address}

pub data SocketOption : Type 0 where
  reuse_port reuse_address allow_broadcast multicast_all multicast_loop : Bool → SocketOption
  priority : ℤ → SocketOption
  multicast_ttl : ℕ → SocketOption
  bind_to_device : List ℕ → SocketOption
  add_membership drop_membership : Ip → SocketOption

pub data Call : Type 0 where
  socket_datagram socket_stream : Call
  set_option : Option ℕ → SocketOption → Call
  set_non_blocking : Option ℕ → Call
  bind : Option ℕ → ℕ → Call
  connect : ℕ → Address → Call
  send_to : ℕ → Address → List ℕ → Call
  send : ℕ → List ℕ → Call
  receive : ℕ → ℕ → Call
  receive_from : ℕ → ℕ → Call
  poll : ℕ → Call
  shutdown close : ℕ → Call

-- What a call returns, and `errno` where that is negative.
pub record Reply : Type 0 where
  pub result : ℤ
  pub error : ℕ

abbrev pub Kernel : Type 0
Kernel = List Call → Reply

-- The calls made, the latest first; the descriptors that the program holds; the multicast groups
-- that its socket is a member of for the system.
pub record World : Type 0 where
  pub calls : List Call
  pub errno : ℕ
  pub descriptors : List ℕ
  pub members : List Ip

unfoldable pub system_call : Kernel → Call → World → World × ℤ
system_call k c w =
    let calls : List Call = c ∷ w.calls in
    let r : Reply = k calls in
    (record w { calls = calls; errno = if is_neg r.result then r.error else w.errno }, r.result)

abbrev pub reset_last_error : World → World
reset_last_error w = record w { errno = 0 }

-- What `BindToDevice` passes on: the printable characters, as many as `ifr_name` holds.
unfoldable pub printable : List ℕ → List ℕ
printable [] = []
printable (c ∷ cs) =
    let rest : List ℕ = printable cs in if ltb c 32 || ltb 126 c then rest else c ∷ rest

abbrev pub interface_name : List ℕ → List ℕ
interface_name name = take 15 (printable name)

abbrev pub is_open : Option ℕ → Bool
is_open none = false
is_open (some fd) = true

-- `Close`: its answers are not looked at. The system drops the memberships with the socket.
unfoldable pub close_socket : Kernel → Option ℕ → World → World
close_socket k none w = w
close_socket k (some fd) w =
    let w' : World = (system_call k (close fd) (system_call k (shutdown fd) w).0).0 in
    record w' { descriptors = remove fd w'.descriptors; members = [] }

-- `Open`: the socket that was open before is closed.
unfoldable pub open_socket : Kernel → Call → Option ℕ → World → World × Option ℕ × Bool
unfolding system_call
open_socket k c old w =
    let (w', r) = system_call k c w in
    if is_neg r
    then (w', old, false)
    else (let v : World = close_socket k old w' in
        (record v { descriptors = to_ℕ r ∷ v.descriptors }, some (to_ℕ r), true))
