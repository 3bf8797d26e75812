-- ===== src/Tcp/Places.antt =====
-- What the management thread of `TCPClientService` relies on at each of its places, and that its moves
-- and the calls of other threads keep it.
use generic_target.Base.{
  ◌==◌, Bool-cases, ℕ, ◌<◌, ◌≡◌, refl, sym, ap, ◌∙◌, ◌⊎◌, inl, inr, true, false, not, ◌||◌, none,
  some, List, [], ◌∷◌, arith,
}
use mathlib.Core.Path.{subst}
use generic_target.Net.Addresses.{Address, same_address, same_address_iff}
use generic_target.Net.Sockets.{Kernel, is_open}
use generic_target.Tcp.{
  TcpService, ConnectCall, disconnect, open_client, connect_step, is_connect_command,
}
use generic_target.Tcp.Calls.{Called}
use generic_target.Tcp.Connect.{Owns, Quiet, connect_step-Outcome, open_client-Outcome, peer_behind}
use generic_target.Tcp.Thread.{
  Phase, not_started, tests, reads, disconnects, opens, connects, sleeps, waits, drains, leaves,
  done, thread_move,
}

-- A connected service has an open socket that is connected to `d`, an address to connect to.
abbrev pub Linked : Address → TcpService → Type 0
Linked d s =
    s.is_connected ≡ true
    → (is_connect_command d ≡ true) × (is_open s.tcp_socket ≡ true) × (s.peer ≡ some d)

-- The thread has seen the last command, or it is notified.
abbrev pub Seen : Address → TcpService → Type 0
Seen d s = (s.commanded_address ≡ d) ⊎ (0 < s.notified)

-- The connection is what `d` asks for.
abbrev pub Obeys : Address → TcpService → Type 0
Obeys d s =
    (s.is_connected ≡ true)
    ⊎ ((is_connect_command d ≡ false) × (s.is_connected ≡ false) × (s.tcp_socket ≡ none))

-- What holds at each place of the thread, `d` its `destination`, unless `Destroy` was called.
abbrev pub At : Phase → Address → TcpService → Type 0
At not_started d s = Unit
At tests d s = Linked d s
At reads d s = Linked d s
At disconnects d s = Seen d s
At opens d s = (is_connect_command d ≡ true) × (s.is_connected ≡ false) × Seen d s
At (connects cs) d s =
    (is_connect_command d ≡ true)
    × (s.is_connected ≡ false)
    × Seen d s
    × (is_open s.tcp_socket ≡ true)
    × (peer_behind cs s.peer ≡ some d)
At sleeps d s = s.is_connected ≡ false
At waits d s = Linked d s × (((s.commanded_address ≡ d) × Obeys d s) ⊎ (0 < s.notified))
At drains d s = Linked d s
At leaves d s = ⊥
At done d s = ⊥

Called-Linked : (d : Address) (s t : TcpService) → Called s t → Linked d s → Linked d t
Called-Linked d s t c l on = elim c.connected [
  | inr n ↦ absurd (cc (n.0, on))
  | inl e ↦ let v = l (sym e ∙ on) in (v.0, ap is_open c.socket_kept ∙ v.1, c.peer_kept ∙ v.2)
]

Called-off : (s t : TcpService) → Called s t → s.is_connected ≡ false → t.is_connected ≡ false
Called-off s t c off = elim c.connected [ inr n ↦ n.0 | inl e ↦ e ∙ off ]

Called-Seen : (d : Address) (s t : TcpService) → Called s t → Seen d s → Seen d t
Called-Seen d s t c seen = elim c.command [
  | inr n ↦ inr n
  | inl e ↦ elim seen [ inl f ↦ inl (e ∙ f) | inr n ↦ inr (omega (arith, n, c.grows)) ]
]

Called-Obeys :
    (d : Address) (s t : TcpService)
    → Called s t
    → ((s.commanded_address ≡ d) × Obeys d s) ⊎ (0 < s.notified)
    → ((t.commanded_address ≡ d) × Obeys d t) ⊎ (0 < t.notified)
Called-Obeys d s t c (inr n) = inr (omega (arith, n, c.grows))
Called-Obeys d s t c (inl (e, o)) = elim c.command [
  | inr n ↦ inr n
  | inl f ↦ elim c.connected [
    | inr n ↦ inr n.1
    | inl g ↦ elim o [
      | inl on ↦ inl (f ∙ e, inl (g ∙ on))
      | inr off ↦ inl (f ∙ e, inr (off.0, g ∙ off.1, c.socket_kept ∙ off.2))
    ]
  ]
]

-- Another thread's call keeps what the management thread relies on.
pub Called-At : (p : Phase) (d : Address) (s t : TcpService) → Called s t → At p d s → At p d t
Called-At not_started d s t c h = h
Called-At tests d s t c h = Called-Linked d s t c h
Called-At reads d s t c h = Called-Linked d s t c h
Called-At disconnects d s t c h = Called-Seen d s t c h
Called-At opens d s t c h = (h.0, Called-off s t c h.1, Called-Seen d s t c h.2)
Called-At (connects cs) d s t c (cmd, off, seen, opened, peer) = (
  cmd,
  Called-off s t c off,
  Called-Seen d s t c seen,
  ap is_open c.socket_kept ∙ opened,
  ap (peer_behind cs) c.peer_kept ∙ peer,
)
Called-At sleeps d s t c h = Called-off s t c h
Called-At waits d s t c h = (Called-Linked d s t c h.0, Called-Obeys d s t c h.1)
Called-At drains d s t c h = Called-Linked d s t c h
Called-At leaves d s t c h = h
Called-At done d s t c h = h

Quiet-Seen : (d : Address) (s t : TcpService) → Quiet s t → Seen d s → Seen d t
Quiet-Seen d s t q (inl e) = inl (q.1 ∙ e)
Quiet-Seen d s t q (inr n) = inr (subst (λ m. 0 < m) (sym q.2) n)

off-Linked : (d : Address) (s : TcpService) → s.is_connected ≡ false → Linked d s
off-Linked d s off on = absurd (cc (off, on))

-- Where the thread is and what it knows, behind a move.
abbrev Behind : TcpService × Phase × Address → Type 0
Behind (t, p, d) = At p d t

reads-At :
    (k : Kernel) (d : Address) (s : TcpService) → Linked d s → Behind (thread_move k reads d s)
unfolding thread_move
reads-At k d s h =
    elim (Bool-cases (not s.is_connected || not (same_address d s.commanded_address))) [
      | inl e ↦ rw e (inl refl)
      | inr e ↦
          let on : s.is_connected ≡ true = ground arith in
          let same : same_address d s.commanded_address ≡ true = ground arith in
          rw e (
            subst (λ a. Linked a s) ((same_address_iff d s.commanded_address).0 same) h,
            inl (refl, inl on),
          )
    ]

disconnects-At :
    (k : Kernel) (d : Address) (s : TcpService) → Seen d s → Behind (thread_move k disconnects d s)
unfolding thread_move disconnect
disconnects-At k d s h = elim (Bool-cases (is_connect_command d)) [
  | inl e ↦ rw e (e, refl, h)
  | inr e ↦ rw e (λ on. cc, elim h [ inl f ↦ inl (f, inr (e, refl, refl)) | inr n ↦ inr n ])
]

module _ (k : Kernel) (others : List ℕ) where
  opens-At :
      (d : Address) (s : TcpService)
      → Owns others s
      → At opens d s
      → Behind (thread_move k opens d s)
  unfolding thread_move
  opens-At d s o (cmd, off, seen) =
      let (owns, quiet, opened) = open_client-Outcome k s others o in
      elim (Bool-cases (open_client k s).1) [
        | inl e ↦
            rw e (cmd, quiet.0 ∙ off, Quiet-Seen d s (open_client k s).0 quiet seen, opened e, refl)
        | inr e ↦ rw e (quiet.0 ∙ off)
      ]

  connects-At :
      (cs : List ConnectCall) (d : Address) (s : TcpService)
      → Owns others s
      → At (connects cs) d s
      → Behind (thread_move k (connects cs) d s)
  unfolding thread_move
  connects-At [] d s o (cmd, off, seen, opened, peer) =
      (λ on. (cmd, opened, peer), elim seen [ inl e ↦ inl (e, inl refl) | inr n ↦ inr n ])
  connects-At (c ∷ cs) d s o (cmd, off, seen, opened, peer) =
      let (owns, quiet, kept) = connect_step-Outcome k c s others o in
      elim (Bool-cases (connect_step k c s).1) [
        | inl e ↦ rw e (
          cmd,
          quiet.0 ∙ off,
          Quiet-Seen d s (connect_step k c s).0 quiet seen,
          ap is_open (kept e).0 ∙ opened,
          ap (peer_behind cs) (kept e).1 ∙ peer,
        )
        | inr e ↦ rw e (quiet.0 ∙ off)
      ]

  pub thread_move-At :
      (p : Phase) (d : Address) (s : TcpService)
      → Owns others s
      → s.terminate ≡ false
      → At p d s
      → Behind (thread_move k p d s)
  unfolding thread_move
  thread_move-At not_started d s o e h = h
  thread_move-At tests d s o e h = rw e h
  thread_move-At reads d s o e h = reads-At k d s h
  thread_move-At disconnects d s o e h = disconnects-At k d s h
  thread_move-At opens d s o e h = opens-At d s o h
  thread_move-At (connects cs) d s o e h = connects-At cs d s o h
  thread_move-At sleeps d s o e h = off-Linked d s h
  thread_move-At waits d s o e h = elim (Bool-cases (s.notified == 0)) [
    | inl n ↦ rw n h
    | inr n ↦ rw n h.0
  ]
  thread_move-At drains d s o e h = elim (Bool-cases (s.notified == 0)) [
    | inl n ↦ rw n h
    | inr n ↦ rw n h
  ]
  thread_move-At leaves d s o e h = absurd h
  thread_move-At done d s o e h = absurd h
