-- ===== src/Tcp/Connect.antt =====
-- `Connect` and `Disconnect` of `TCPClientService`: the descriptors that they hold, the server that
-- the socket is connected to, and what they leave alone.
use generic_target.Base.{
  Bool-cases, ℕ, ◌≡◌, refl, sym, ap, ◌∙◌, inl, inr, Bool, true, false, Option, none, some, List, [],
  ◌∷◌, ◌++◌,
}
use generic_target.Base.Int.{is_neg, ℤ}
use mathlib.Core.Path.{subst}
use generic_target.Net.Addresses.{Address}
use generic_target.Net.Sockets.{
  Kernel, Call, World, open_socket, reset_last_error, is_open, socket_stream, system_call, connect,
}
use generic_target.Net.Descriptors.{held, close_socket-descriptors, open_socket-held}
use generic_target.Tcp.{
  TcpService, ConnectCall, sets, binds, connects_to, non_blocking, connect_calls, call_on,
  call_connect, answered, open_client, connect_step, connect_rest, connect_client, disconnect,
  failed, passed,
}

-- The descriptors of the program are that of the service's socket, if it is open, and `others`.
abbrev pub Owns : List ℕ → TcpService → Type 0
Owns others s = s.world.descriptors ≡ held s.tcp_socket ++ others

-- What the other threads read is as it was, but for the code.
abbrev pub Quiet : TcpService → TcpService → Type 0
Quiet s t =
    (t.is_connected ≡ s.is_connected)
    × (t.commanded_address ≡ s.commanded_address)
    × (t.notified ≡ s.notified)
    × (t.terminate ≡ s.terminate)
    × (t.is_created ≡ s.is_created)
    × (t.active_conf ≡ s.active_conf)

pub disconnect-Owns :
    (k : Kernel) (s : TcpService) (others : List ℕ) → Owns others s → Owns others (disconnect k s)
unfolding disconnect
disconnect-Owns k s others h = close_socket-descriptors k s.tcp_socket s.world others h

-- The peer behind a call that succeeds.
abbrev pub peer_after : ConnectCall → Option Address → Option Address
peer_after (connects_to a) p = some a
peer_after _ p = p

abbrev Outcome : List ℕ → ConnectCall → TcpService → TcpService × Bool → Type 0
Outcome others c s (t, ok) =
    Owns others t
    × Quiet s t
    × (ok ≡ true → (t.tcp_socket ≡ s.tcp_socket) × (t.peer ≡ peer_after c s.peer))

answered-Outcome :
    (k : Kernel) (c : ConnectCall) (s : TcpService) (w : World) (r : ℤ) (others : List ℕ)
    → w.descriptors ≡ held s.tcp_socket ++ others
    → Outcome others c s (answered k c (record s { world = w }) r)
answered-Outcome k c s w r others h = elim (Bool-cases (is_neg r)) [
  | inl e ↦ rw e (close c)
  | inr e ↦ rw e (pass c)
]
  where
    close : (c : ConnectCall) → Outcome others c s (failed k c (record s { world = w }), false)
    close (connects_to a) = (h, (refl, refl, refl, refl, refl, refl), λ b. cc)
    close (sets o) = (
      close_socket-descriptors k s.tcp_socket w others h,
      (refl, refl, refl, refl, refl, refl),
      λ b. cc,
    )
    close (binds o) = (
      close_socket-descriptors k s.tcp_socket w others h,
      (refl, refl, refl, refl, refl, refl),
      λ b. cc,
    )
    close non_blocking = (
      close_socket-descriptors k s.tcp_socket w others h,
      (refl, refl, refl, refl, refl, refl),
      λ b. cc,
    )

    pass : (c : ConnectCall) → Outcome others c s (passed c (record s { world = w }), true)
    pass (connects_to a) = (h, (refl, refl, refl, refl, refl, refl), λ b. (refl, refl))
    pass (sets o) = (h, (refl, refl, refl, refl, refl, refl), λ b. (refl, refl))
    pass (binds o) = (h, (refl, refl, refl, refl, refl, refl), λ b. (refl, refl))
    pass non_blocking = (h, (refl, refl, refl, refl, refl, refl), λ b. (refl, refl))

-- A call changes the system's side alone, and no descriptor.
abbrev WorldOnly : TcpService → TcpService → Type 0
WorldOnly s t = (t ≡ record s { world = t.world }) × (t.world.descriptors ≡ s.world.descriptors)

call_on-WorldOnly :
    (k : Kernel) (c : ℕ → Call) (o : Option ℕ) (s : TcpService) → WorldOnly s (call_on k c o s).0
unfolding system_call
call_on-WorldOnly k c none s = (refl, refl)
call_on-WorldOnly k c (some fd) s = (refl, refl)

call_connect-WorldOnly :
    (k : Kernel) (c : ConnectCall) (s : TcpService) → WorldOnly s (call_connect k c s).0
unfolding system_call
call_connect-WorldOnly k (sets o) s = (refl, refl)
call_connect-WorldOnly k (binds port) s = (refl, refl)
call_connect-WorldOnly k (connects_to a) s = call_on-WorldOnly k (λ fd. connect fd a) s.tcp_socket s
call_connect-WorldOnly k non_blocking s = (refl, refl)

pub connect_step-Outcome :
    (k : Kernel) (c : ConnectCall) (s : TcpService) (others : List ℕ)
    → Owns others s
    → Outcome others c s (connect_step k c s)
unfolding connect_step
connect_step-Outcome k c s others h =
    let (t, r) = call_connect k c s in
    let v = call_connect-WorldOnly k c s in
    subst (λ u. Outcome others c s (answered k c u r)) (sym v.0)
      (answered-Outcome k c s t.world r others (v.1 ∙ h))

pub open_client-Outcome :
    (k : Kernel) (s : TcpService) (others : List ℕ)
    → Owns others s
    → Owns others (open_client k s).0
      × Quiet s (open_client k s).0
      × ((open_client k s).1 ≡ true → is_open (open_client k s).0.tcp_socket ≡ true)
unfolding open_client
open_client-Outcome k s others h =
    let v = open_socket-held k socket_stream s.tcp_socket (reset_last_error s.world) others h in
    elim (Bool-cases (open_socket k socket_stream s.tcp_socket (reset_last_error s.world)).2) [
      | inl e ↦ rw e (v.0, (refl, refl, refl, refl, refl, refl), λ b. v.1 e)
      | inr e ↦ rw e (v.0, (refl, refl, refl, refl, refl, refl), λ b. cc)
    ]

-- What a run of `Connect` makes of a service that is not connected.
abbrev pub Connected : List ℕ → Address → TcpService × Bool → Type 0
Connected others d (t, ok) =
    Owns others t
    × (t.is_connected ≡ ok)
    × (ok ≡ true → (is_open t.tcp_socket ≡ true) × (t.peer ≡ some d))

-- The peer behind the calls, all of which succeed.
abbrev pub peer_behind : List ConnectCall → Option Address → Option Address
peer_behind [] p = p
peer_behind (c ∷ cs) p = peer_behind cs (peer_after c p)

connect_rest-Connected :
    (k : Kernel) (cs : List ConnectCall) (d : Address) (s : TcpService) (others : List ℕ)
    → Owns others s
    → is_open s.tcp_socket ≡ true
    → s.is_connected ≡ false
    → peer_behind cs s.peer ≡ some d
    → Connected others d (connect_rest k cs s)
unfolding connect_rest
connect_rest-Connected k [] d s others h o n e = (h, refl, λ b. (o, e))
connect_rest-Connected k (c ∷ cs) d s others h o n e =
    let (owns, quiet, kept) = connect_step-Outcome k c s others h in
    elim (Bool-cases (connect_step k c s).1) [
      | inl ok ↦ rw ok (
          connect_rest-Connected k cs d (connect_step k c s).0 others owns
            (ap is_open (kept ok).0 ∙ o) (quiet.0 ∙ n) (ap (peer_behind cs) (kept ok).1 ∙ e))
      | inr bad ↦ rw bad (owns, quiet.0 ∙ n, λ b. cc)
    ]

-- `Connect` of a service that is not connected returns whether it is connected after it: the socket
-- is open then and its peer the desired destination. On success and on every failure the descriptors
-- of the program are those of before and that of an open socket.
pub connect_client-Connected :
    (k : Kernel) (d : Address) (s : TcpService) (others : List ℕ)
    → Owns others s
    → s.is_connected ≡ false
    → Connected others d (connect_client k d s)
unfolding connect_client
connect_client-Connected k d s others h n =
    let (owns, quiet, opened) = open_client-Outcome k s others h in
    elim (Bool-cases (open_client k s).1) [
      | inl ok ↦ rw ok (
          connect_rest-Connected k (connect_calls (open_client k s).0.active_conf d) d
            (open_client k s).0 others owns (opened ok) (quiet.0 ∙ n) refl)
      | inr bad ↦ rw bad (owns, quiet.0 ∙ n, λ b. cc)
    ]
