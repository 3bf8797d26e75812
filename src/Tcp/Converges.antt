-- ===== src/Tcp/Converges.antt =====
-- The management thread of `TCPClientService` connects to a server that can be reached.
use generic_target.Base.{
  ◌==◌, if◌then◌else◌, Bool-cases, ℕ, zero, suc, ◌-◌, ◌≡◌, refl, sym, ap, ◌∙◌, ◌≢◌, inl, inr, true,
  false, not, ◌||◌, Option, none, some, List, [], ◌∷◌, arith,
}
use generic_target.Base.Int.{is_neg}
use mathlib.Core.Path.{subst}
use generic_target.Net.Sockets.{
  Kernel, World, Call, is_open, open_socket, socket_stream, system_call,
}
use generic_target.Net.Addresses.{Address, same_address}
use generic_target.Tcp.{
  TcpService, disconnect, open_client, connect_step, is_connect_command, ConnectCall, sets, binds,
  connects_to, non_blocking, connect_calls, call_on, call_connect,
}
use generic_target.Tcp.Connect.{Owns, disconnect-Owns, connect_step-Outcome, open_client-Outcome}
use generic_target.Tcp.Invariant.{has_resumed, begin, reachable-Good}
use generic_target.Tcp.Places.{At}
use generic_target.Tcp.Settled.{Commanded, settled}
use generic_target.Tcp.Destroyed.{run_thread-Reach}
use generic_target.Tcp.Thread.{
  Phase, not_started, tests, reads, disconnects, opens, connects, sleeps, waits, drains, leaves,
  done, runs, TcpSystem, thread_move, run_thread, Reach,
}

-- The system grants every call.
abbrev pub Granting : Kernel → Type 0
Granting k = (c : Call) (calls : List Call) → is_neg (k (c ∷ calls)).result ≡ false

module _ (k : Kernel) (granting : Granting k) where
  open_client-ok : (s : TcpService) → (open_client k s).1 ≡ true
  unfolding open_client open_socket system_call
  open_client-ok s = simp (granting socket_stream s.world.calls) refl

  call_on-ok :
      (c : ℕ → Call) (o : Option ℕ) (s : TcpService)
      → is_open o ≡ true
      → is_neg (call_on k c o s).1 ≡ false
  unfolding system_call
  call_on-ok c none s e = absurd (cc e)
  call_on-ok c (some fd) s e = granting (c fd) s.world.calls

  call_connect-ok :
      (c : ConnectCall) (s : TcpService)
      → is_open s.tcp_socket ≡ true
      → is_neg (call_connect k c s).1 ≡ false
  unfolding system_call
  call_connect-ok (sets o) s e = granting _ s.world.calls
  call_connect-ok (binds port) s e = granting _ s.world.calls
  call_connect-ok (connects_to a) s e = call_on-ok _ s.tcp_socket s e
  call_connect-ok non_blocking s e = granting _ s.world.calls

  connect_step-ok :
      (c : ConnectCall) (s : TcpService)
      → is_open s.tcp_socket ≡ true
      → (connect_step k c s).1 ≡ true
  unfolding connect_step
  connect_step-ok c s e =
      let n : is_neg (call_connect k c s).1 ≡ false = call_connect-ok c s e in simp n refl

  -- The thread comes to wait with no notification left.
  abbrev Idle : TcpService × Phase × Address → Type 0
  Idle r = (n : ℕ) × ((run_thread k n r).1 ≡ waits) × ((run_thread k n r).0.notified ≡ 0)

  Idle-step :
      (p : Phase) (d : Address) (s : TcpService) → Idle (thread_move k p d s) → Idle (s, p, d)
  unfolding run_thread
  Idle-step p d s (n, at_wait, none_left) = (suc n, at_wait, none_left)

  -- What the thread does once it waits, with the count of the event in `s`.
  abbrev Then : TcpService → Type 0
  Then s =
      (d : Address) (t : TcpService) (others : List ℕ)
      → Owns others t
      → t.notified ≡ s.notified
      → t.terminate ≡ false
      → Idle (t, waits, d)

  connects-Idle :
      (others : List ℕ) (cs : List ConnectCall) (d : Address) (s : TcpService)
      → Owns others s
      → s.terminate ≡ false
      → is_open s.tcp_socket ≡ true
      → Then s
      → Idle (s, connects cs, d)
  unfolding thread_move
  connects-Idle others [] d s o e opened next =
      Idle-step (connects []) d s (next d (record s { is_connected = true }) others o refl e)
  connects-Idle others (c ∷ cs) d s o e opened next =
      let (owns, q, kept) = connect_step-Outcome k c s others o in
      let ok : (connect_step k c s).1 ≡ true = connect_step-ok c s opened in
      Idle-step (connects (c ∷ cs)) d s (
        rw ok (
          connects-Idle others cs d (connect_step k c s).0 owns (q.3 ∙ e)
            (ap is_open (kept ok).0 ∙ opened) (λ d t others o n e. next d t others o (n ∙ q.2) e)))

  opens-Idle :
      (others : List ℕ) (d : Address) (s : TcpService)
      → Owns others s
      → s.terminate ≡ false
      → Then s
      → Idle (s, opens, d)
  unfolding thread_move
  opens-Idle others d s o e next =
      let (owns, q, opened) = open_client-Outcome k s others o in
      let ok : (open_client k s).1 ≡ true = open_client-ok s in
      Idle-step opens d s (
        rw ok (
          connects-Idle others (connect_calls (open_client k s).0.active_conf d) d
            (open_client k s).0 owns (q.3 ∙ e) (opened ok)
            (λ d t others o n e. next d t others o (n ∙ q.2) e)))

  disconnects-Idle :
      (others : List ℕ) (d : Address) (s : TcpService)
      → Owns others s
      → s.terminate ≡ false
      → Then s
      → Idle (s, disconnects, d)
  unfolding thread_move disconnect
  disconnects-Idle others d s o e next =
      let owns = disconnect-Owns k s others o in
      Idle-step disconnects d s (elim (Bool-cases (is_connect_command d)) [
        | inl b ↦ rw b (
            opens-Idle others d (disconnect k s) owns e (λ d t others o n e. next d t others o n e))
        | inr b ↦ rw b (next d (disconnect k s) others owns refl e)
      ])

  reads-Idle :
      (others : List ℕ) (d : Address) (s : TcpService)
      → Owns others s
      → s.terminate ≡ false
      → Then s
      → Idle (s, reads, d)
  unfolding thread_move
  reads-Idle others d s o e next =
      Idle-step reads d s
        (elim (Bool-cases (not s.is_connected || not (same_address d s.commanded_address))) [
          | inl b ↦ simp b (disconnects-Idle others s.commanded_address s o e next)
          | inr b ↦ simp b (next s.commanded_address s others o refl e)
        ])

  tests-Idle :
      (others : List ℕ) (d : Address) (s : TcpService)
      → Owns others s
      → s.terminate ≡ false
      → Then s
      → Idle (s, tests, d)
  unfolding thread_move
  tests-Idle others d s o e next = Idle-step tests d s (
      subst (λ b. Idle (s, (if b then leaves else reads), d)) (sym e)
        (reads-Idle others d s o e next))

  drains-Idle :
      (n : ℕ) (others : List ℕ) (d : Address) (s : TcpService)
      → Owns others s
      → s.notified ≡ n
      → s.terminate ≡ false
      → Idle (s, drains, d)
  unfolding thread_move run_thread
  drains-Idle zero others d s o z e =
      Idle-step drains d s
        (simp z (tests-Idle others d s o e (λ d t others o n e. (0, refl, n ∙ z))))
  drains-Idle (suc n) others d s o z e =
      let b : (s.notified == 0) ≡ false = ground (arith, z) in
      Idle-step drains d s (
        simp b
          (drains-Idle n others d (record s { notified = s.notified - 1 }) o (omega (arith, z)) e))

  waits-Idle :
      (others : List ℕ) (d : Address) (s : TcpService)
      → Owns others s
      → s.terminate ≡ false
      → Idle (s, waits, d)
  unfolding thread_move run_thread
  waits-Idle others d s o e = elim (Bool-cases (s.notified == 0)) [
    | inl b ↦ (0, refl, ground (arith, b))
    | inr b ↦ Idle-step waits d s (
        simp b
          (drains-Idle (s.notified - 1) others d (record s { notified = s.notified - 1 }) o refl e))
  ]

  thread-Idle :
      (others : List ℕ) (p : Phase) (d : Address) (s : TcpService)
      → Owns others s
      → s.terminate ≡ false
      → p ≢ not_started
      → At p d s
      → Idle (s, p, d)
  unfolding thread_move
  thread-Idle others p d s o e m h = go p m h
    where
      next : Then s
      next d t others o n e = waits-Idle others d t o e

      go : (p : Phase) → p ≢ not_started → At p d s → Idle (s, p, d)
      go not_started m h = absurd (m refl)
      go tests m h = tests-Idle others d s o e next
      go reads m h = reads-Idle others d s o e next
      go disconnects m h = disconnects-Idle others d s o e next
      go opens m h = opens-Idle others d s o e next
      go (connects cs) m h = connects-Idle others cs d s o e h.3 next
      go sleeps m h = Idle-step sleeps d s (tests-Idle others d s o e next)
      go waits m h = waits-Idle others d s o e
      go drains m h = drains-Idle s.notified others d s o refl e
      go leaves m h = absurd h
      go done m h = absurd h

-- Where the system grants its calls, the management thread comes to rest: from every place that it
-- can be at, with no call of another thread in between, some number of its moves brings it to wait
-- with no notification left, and the connection is then the commanded one.
pub converges :
    (k : Kernel) (w : World) (x : TcpSystem)
    → Granting k
    → Reach k (begin w) x
    → x.owner ≡ runs
    → x.phase ≢ not_started
    → (n : ℕ) × let (s, p, d) = run_thread k n (x.service, x.phase, x.destination) in
        (p ≡ waits) × (s.notified ≡ 0) × Commanded s
converges k w x g r o m =
    let f = reachable-Good k w x r in
    let (n, at_wait, none_left) =
      thread-Idle k g w.descriptors x.phase x.destination x.service f.owns
        (f.going (ap has_resumed o)) m (f.place o) in
    (n, (at_wait, none_left, settled (run_thread-Reach k n (begin w) x r) o at_wait none_left))
