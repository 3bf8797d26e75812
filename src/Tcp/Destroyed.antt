-- ===== src/Tcp/Destroyed.antt =====
-- What `Destroy` of `TCPClientService` leaves, and that its `join` returns.
use generic_target.Base.{ℕ, zero, suc, ◌≡◌, refl, ap, ◌∙◌, true, ◌++◌, arith}
use generic_target.Net.Sockets.{Kernel, World}
use generic_target.Tcp.Join.Ends.{join-Ends}
use generic_target.Net.Descriptors.{held}
use generic_target.Tcp.{new_service}
use generic_target.Tcp.Invariant.{begin, reachable-Good}
use generic_target.Tcp.Thread.{
  TcpSystem, joins, joined, end_destroy, Reach, destroy, run_thread, runs, thread_step, next,
  destroy_notify, thread_moves, destroy_disconnect, begin_destroy, moves_left, destroys,
  destroy_disconnects, destroy_notifies,
}

-- Once `Destroy` has joined the thread, however the threads were interleaved and whatever the system
-- answered, the service behind its assignments, with no call of another thread between these, is a new
-- one but for the system's side, and the descriptors of the program are those that it held before the
-- service was made.
pub destroyed :
    {k : Kernel} {w : World} {x : TcpSystem}
    → Reach k (begin w) x
    → x.owner ≡ joins
    → joined x.phase ≡ true
    → ((end_destroy x).service ≡ record new_service { world = x.service.world })
      × (x.service.world.descriptors ≡ w.descriptors)
destroyed {k} {w} {x} r at_join j =
    let f = reachable-Good k w x r in
    let (shut, off, alone) = f.idle j in
    (
      λ i. record new_service {
        world = x.service.world;
        tcp_socket = shut i;
        is_connected = off i;
        peer = alone i;
      },
      f.owns ∙ ap (λ fd. held fd ++ w.descriptors) shut,
    )

pub run_thread-Reach :
    (k : Kernel) (n : ℕ) (x y : TcpSystem)
    → Reach k x y
    → let (s, p, d) = run_thread k n (y.service, y.phase, y.destination) in
      Reach k x (record y { service = s; phase = p; destination = d })
unfolding run_thread thread_step
run_thread-Reach k zero x y r = r
run_thread-Reach k (suc n) x y r = run_thread-Reach k n x (thread_step k y) (next r thread_moves)

-- A whole `Destroy` gives back what the service holds, and leaves a new service but for the system's
-- side.
pub destroy-Fresh :
    (k : Kernel) (w : World) (x : TcpSystem)
    → Reach k (begin w) x
    → x.owner ≡ runs
    → ((destroy k x).service ≡ record new_service { world = (destroy k x).service.world })
      × ((destroy k x).service.world.descriptors ≡ w.descriptors)
      × ((destroy k x).owner ≡ runs)
unfolding destroy
destroy-Fresh k w x r e =
    let y : TcpSystem = destroy_notify (destroy_disconnect k (begin_destroy x)) in
    let n : ℕ = moves_left y.phase y.service.notified in
    let ry : Reach k (begin w) y =
      next (next (next r (destroys e)) (destroy_disconnects refl)) (destroy_notifies refl) in
    let v =
      destroyed (run_thread-Reach k n (begin w) y ry) refl
        (join-Ends k w y n ry refl (omega arith)) in
    (v.0, v.1, refl)
