-- ===== src/Tcp/Calls.antt =====
-- `Send` and `Receive` of `TCPClientService`: what they change, and what they return.
use generic_target.Base.{
  Bool-cases, take, ℕ, ◌≤◌, ◌<◌, ◌≡◌, refl, sym, ◌∙◌, ◌⊎◌, inl, inr, Bool, true, false, not, ◌&&◌,
  Option, none, some, List, arith,
}
use generic_target.Base.Int.{is_neg, to_ℕ, ℤ, negsuc}
use generic_target.Net.Addresses.{Address, same_address, same_address_iff}
use generic_target.Net.Sockets.{Kernel, Call, system_call, reset_last_error, World, send, receive}
use generic_target.Tcp.{
  TcpService, command_address, exchange, service_send, service_receive, send_closed, receive_closed,
  call_socket, note_result, call_on,
}

-- From `s` to `t` no call of `Send` and `Receive` touches the socket; a new command and a lost
-- connection come with a notification.
pub record Called (s t : TcpService) : Type 0 where
  pub socket_kept : t.tcp_socket ≡ s.tcp_socket
  pub peer_kept : t.peer ≡ s.peer
  pub terminate_kept : t.terminate ≡ s.terminate
  pub created_kept : t.is_created ≡ s.is_created
  pub conf_kept : t.active_conf ≡ s.active_conf
  pub descriptors_kept : t.world.descriptors ≡ s.world.descriptors
  pub command : (t.commanded_address ≡ s.commanded_address) ⊎ (0 < t.notified)
  pub connected : (t.is_connected ≡ s.is_connected) ⊎ ((t.is_connected ≡ false) × (0 < t.notified))
  pub grows : s.notified ≤ t.notified

-- The system's side and the code may change.
Called-side :
    (s : TcpService) (w : World) (code : ℕ)
    → w.descriptors ≡ s.world.descriptors
    → Called s (record s { world = w; latest_error_code = code })
Called-side s w code e = record {
  socket_kept = refl;
  peer_kept = refl;
  terminate_kept = refl;
  created_kept = refl;
  conf_kept = refl;
  descriptors_kept = e;
  command = inl refl;
  connected = inl refl;
  grows = omega arith;
}

Called-refl : (s : TcpService) → Called s s
Called-refl s = Called-side s s.world s.latest_error_code refl

command_address-Called :
    (a : Address) (manage : Bool) (s : TcpService) → Called s (command_address a manage s)
unfolding command_address
command_address-Called a false s = Called-refl s
command_address-Called a true s = elim (Bool-cases (same_address s.commanded_address a)) [
  | inl e ↦ rw e (record {
    socket_kept = refl;
    peer_kept = refl;
    terminate_kept = refl;
    created_kept = refl;
    conf_kept = refl;
    descriptors_kept = refl;
    command = inl (sym ((same_address_iff s.commanded_address a).0 e));
    connected = inl refl;
    grows = omega arith;
  })
  | inr e ↦ rw e (record {
    socket_kept = refl;
    peer_kept = refl;
    terminate_kept = refl;
    created_kept = refl;
    conf_kept = refl;
    descriptors_kept = refl;
    command = inr (omega arith);
    connected = inl refl;
    grows = omega arith;
  })
]

Called-trans : (s t u : TcpService) → Called s t → Called t u → Called s u
Called-trans s t u p q = record {
  socket_kept = q.socket_kept ∙ p.socket_kept;
  peer_kept = q.peer_kept ∙ p.peer_kept;
  terminate_kept = q.terminate_kept ∙ p.terminate_kept;
  created_kept = q.created_kept ∙ p.created_kept;
  conf_kept = q.conf_kept ∙ p.conf_kept;
  descriptors_kept = q.descriptors_kept ∙ p.descriptors_kept;
  command = elim q.command [
    | inr n ↦ inr n
    | inl e ↦ elim p.command [ inl f ↦ inl (e ∙ f) | inr n ↦ inr (omega (arith, n, q.grows)) ]
  ];
  connected = elim q.connected [
    | inr n ↦ inr n
    | inl e ↦ elim p.connected [
      | inl f ↦ inl (e ∙ f)
      | inr n ↦ inr (e ∙ n.0, omega (arith, n.1, q.grows))
    ]
  ];
  grows = omega (arith, p.grows, q.grows);
}

-- A call of the socket changes the system's side alone.
call_on-Called :
    (k : Kernel) (c : ℕ → Call) (o : Option ℕ) (s : TcpService) → Called s (call_on k c o s).0
unfolding system_call
call_on-Called k c none s = Called-side s (reset_last_error s.world) s.latest_error_code refl
call_on-Called k c (some fd) s =
    Called-side s (system_call k (c fd) (reset_last_error s.world)).0 s.latest_error_code refl

note_result-Called :
    (closed : ℤ → ℕ → Bool) (s : TcpService) (r : ℤ) → Called s (note_result closed s r)
note_result-Called closed s r = elim (Bool-cases (closed r s.world.errno)) [
  | inr e ↦ rw e (Called-side s s.world s.world.errno refl)
  | inl e ↦ rw e (record {
    socket_kept = refl;
    peer_kept = refl;
    terminate_kept = refl;
    created_kept = refl;
    conf_kept = refl;
    descriptors_kept = refl;
    command = inl refl;
    connected = inr (refl, omega arith);
    grows = omega arith;
  })
]

exchange-Called :
    (k : Kernel) (c : ℕ → Call) (closed : ℤ → ℕ → Bool) (a : Address) (manage : Bool) (size : ℤ)
    (s : TcpService)
    → Called s (exchange k c closed a manage size s).0
unfolding exchange
exchange-Called k c closed a manage size s =
    let v : TcpService = command_address a manage s in
    let (t, r) = call_socket k c v in
    let p : Called s v = command_address-Called a manage s in
    let q : Called s (note_result closed t r) = Called-trans s v (note_result closed t r) p (
      Called-trans v t (note_result closed t r) (call_on-Called k c v.tcp_socket v)
        (note_result-Called closed t r)) in
    elim (Bool-cases (v.is_connected && not (is_neg size))) [ inl e ↦ rw e q | inr e ↦ rw e p ]

-- What `Send` and `Receive` return: the code and the flag are those that the service keeps.
abbrev pub Returned : (ℤ → ℕ → Bool) → ℤ → TcpService → TcpService × (ℤ × ℕ × Bool) → Type 0
Returned closed size s (t, (n, code, flag)) =
    (code ≡ t.latest_error_code)
    × (flag ≡ t.is_connected)
    × (s.is_connected ≡ false → (n ≡ negsuc 0) × (flag ≡ false) × (t.world ≡ s.world))
    × (s.is_connected ≡ true → is_neg size ≡ false → flag ≡ not (closed n code))

command_address-rest :
    (a : Address) (manage : Bool) (s : TcpService)
    → ((command_address a manage s).is_connected ≡ s.is_connected)
      × ((command_address a manage s).world ≡ s.world)
unfolding command_address
command_address-rest a false s = (refl, refl)
command_address-rest a true s = elim (Bool-cases (same_address s.commanded_address a)) [
  | inl e ↦ rw e (refl, refl)
  | inr e ↦ rw e (refl, refl)
]

note_result-flag :
    (closed : ℤ → ℕ → Bool) (t : TcpService) (r : ℤ)
    → t.is_connected ≡ true
    → (note_result closed t r).is_connected
      ≡ not (closed r (note_result closed t r).latest_error_code)
note_result-flag closed t r h = elim (Bool-cases (closed r t.world.errno)) [
  | inl e ↦ simp e refl
  | inr e ↦ simp e h
]

call_on-connected :
    (k : Kernel) (c : ℕ → Call) (o : Option ℕ) (s : TcpService)
    → (call_on k c o s).0.is_connected ≡ s.is_connected
unfolding system_call
call_on-connected k c none s = refl
call_on-connected k c (some fd) s = refl

exchange-Returned :
    (k : Kernel) (c : ℕ → Call) (closed : ℤ → ℕ → Bool) (a : Address) (manage : Bool) (size : ℤ)
    (s : TcpService)
    → Returned closed size s (exchange k c closed a manage size s)
unfolding exchange
exchange-Returned k c closed a manage size s =
    let v : TcpService = command_address a manage s in
    let (kept, same) = command_address-rest a manage s in
    let t : TcpService = (call_on k c v.tcp_socket v).0 in
    let r : ℤ = (call_on k c v.tcp_socket v).1 in
    let on : t.is_connected ≡ v.is_connected = call_on-connected k c v.tcp_socket v in
    elim (Bool-cases (v.is_connected && not (is_neg size))) [
      | inl e ↦ rw e (
        refl,
        refl,
        λ off. absurd (ground (arith, off, kept, e)),
        λ conn size_ok. note_result-flag closed t r (on ∙ kept ∙ conn),
      )
      | inr e ↦ rw e (
        refl,
        refl,
        λ off. (refl, kept ∙ off, same),
        λ conn size_ok. absurd (ground (arith, conn, size_ok, kept, e)),
      )
    ]

-- `Send` and `Receive` return the code and the connection flag that the service keeps. Where the
-- service is not connected they return -1 and false and make no call of the system; where it is, and
-- the size is not negative, it stays connected unless the call reports a closed connection.
pub exchange_results :
    (k : Kernel) (a : Address) (manage : Bool) (bytes : List ℕ) (size : ℤ) (s : TcpService)
    → Returned send_closed size s (service_send k a manage bytes size s)
      × Returned receive_closed size s (service_receive k a manage size s)
unfolding service_send service_receive
exchange_results k a manage bytes size s = (
  exchange-Returned k (λ fd. send fd (take (to_ℕ size) bytes)) send_closed a manage size s,
  exchange-Returned k (λ fd. receive fd (to_ℕ size)) receive_closed a manage size s,
)

pub service_send-Called :
    (k : Kernel) (a : Address) (manage : Bool) (bytes : List ℕ) (size : ℤ) (s : TcpService)
    → Called s (service_send k a manage bytes size s).0
unfolding service_send
service_send-Called k a manage bytes size s =
    exchange-Called k (λ fd. send fd (take (to_ℕ size) bytes)) send_closed a manage size s

pub service_receive-Called :
    (k : Kernel) (a : Address) (manage : Bool) (max_size : ℤ) (s : TcpService)
    → Called s (service_receive k a manage max_size s).0
unfolding service_receive
service_receive-Called k a manage max_size s =
    exchange-Called k (λ fd. receive fd (to_ℕ max_size)) receive_closed a manage max_size s
