-- ===== src/Tcp/Settled.antt =====
-- The management thread of `TCPClientService` follows the commanded address.
use generic_target.Base.{◌≡◌, sym, ap, ◌∙◌, inl, inr, true, false, none, some, arith}
use generic_target.Net.Sockets.{is_open, Kernel, World}
use generic_target.Net.Addresses.{Address}
use mathlib.Core.Path.{subst}
use generic_target.Tcp.{TcpService, is_connect_command}
use generic_target.Tcp.Places.{Linked, Obeys, At}
use generic_target.Tcp.Invariant.{begin, reachable-Good}
use generic_target.Tcp.Thread.{TcpSystem, runs, waits, Reach}

-- The connection is the commanded one.
abbrev pub Commanded : TcpService → Type 0
Commanded s =
    (s.is_connected ≡ is_connect_command s.commanded_address)
    × (s.is_connected ≡ true → (is_open s.tcp_socket ≡ true) × (s.peer ≡ some s.commanded_address))
    × (s.is_connected ≡ false → s.tcp_socket ≡ none)

Obeys-Commanded :
    (d : Address) (s : TcpService) → Linked d s → s.commanded_address ≡ d → Obeys d s → Commanded s
Obeys-Commanded d s l e (inl on) =
    let (cmd, opened, peer) = l on in
    (
      on ∙ sym cmd ∙ ap is_connect_command (sym e),
      λ _. (opened, peer ∙ ap some (sym e)),
      λ off. absurd (cc (on, off)),
    )
Obeys-Commanded d s l e (inr (cmd, off, shut)) =
    (off ∙ sym cmd ∙ ap is_connect_command (sym e), λ on. absurd (cc (on, off)), λ _. shut)

pub settled :
    {k : Kernel} {w : World} {x : TcpSystem}
    → Reach k (begin w) x
    → x.owner ≡ runs
    → x.phase ≡ waits
    → x.service.notified ≡ 0
    → Commanded x.service
settled {k} {w} {x} r going at_wait none_left =
    let place = (reachable-Good k w x r).place going in
    let (linked, sees) = subst (λ p. At p x.destination x.service) at_wait place in
    elim sees [
      | inl (e, o) ↦ Obeys-Commanded x.destination x.service linked e o
      | inr n ↦ absurd (omega (arith, n, none_left))
    ]
