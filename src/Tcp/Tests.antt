-- ===== src/Tcp/Tests.antt =====
-- Runs of the TCP client service and its manager, and the theorems about them at concrete inputs.
use generic_target.Base.{All, ℕ, zero, suc, ◌≡◌, refl, true, List, [], ◌∷◌, arith}
use generic_target.Base.Int.{ℤ, pos, negsuc}
use generic_target.Net.Addresses.{Address, same_ip}
use generic_target.Net.Sockets.{
  Kernel, Call, Reply, World, socket_stream, send, receive, open_socket, system_call, close_socket,
}
use generic_target.Tcp.{
  reset_configuration, new_service, service_send, connect_client, is_connect_command,
  command_address, exchange, open_client, connect_step, disconnect,
}
use generic_target.Tcp.Connect.{Connected, connect_client-Connected}
use generic_target.Tcp.Invariant.{begin}
use generic_target.Tcp.Settled.{Commanded}
use generic_target.Tcp.Destroyed.{destroyed}
use generic_target.Tcp.Converges.{converges}
use generic_target.Tcp.Join.Ends.{join-Ends}
use generic_target.Tcp.Manager.{Running}
use generic_target.Services.{Entry}
use generic_target.Tcp.Thread.{
  TcpSystem, waits, Reach, here, next, creates, sends, thread_moves, destroys, destroy_disconnects,
  destroy_notifies, thread_step, thread_move, create, begin_destroy, destroy_disconnect,
  destroy_notify, end_destroy, run_thread, joined, waits,
}

-- A system that opens descriptor 5, takes 3 bytes, has lost the connection where bytes are received,
-- and grants every other call.
abbrev reply_to : Call → Reply
reply_to socket_stream = record { result = pos 5; error = 0 }
reply_to (send fd bytes) = record { result = pos 3; error = 0 }
reply_to (receive fd size) = record { result = negsuc 0; error = 104 }
reply_to _ = record { result = pos 0; error = 0 }

abbrev granting : Kernel
granting [] = record { result = pos 0; error = 0 }
granting (c ∷ cs) = reply_to c

-- 10.0.0.1, port 80
abbrev server : Address
server = record { ip = record { b0 = 10; b1 = 0; b2 = 0; b3 = 1 }; port = 80 }

-- The program holds descriptor 4.
abbrev world : World
world = record { calls = []; errno = 0; descriptors = 4 ∷ []; members = [] }

abbrev commanded : TcpSystem
commanded =
    let x : TcpSystem = (create reset_configuration (begin world)).0 in
    record x { service = (service_send granting server true [] (pos 0) x.service).0 }

commanded-Reach : Reach granting (begin world) commanded
commanded-Reach = next (next here (creates reset_configuration refl)) (sends server true [] (pos 0))

abbrev thread_steps : ℕ → TcpSystem → TcpSystem
thread_steps zero x = x
thread_steps (suc n) x = thread_step granting (thread_steps n x)

thread_steps-Reach :
    (n : ℕ) (x : TcpSystem)
    → Reach granting (begin world) x
    → Reach granting (begin world) (thread_steps n x)
thread_steps-Reach zero x r = r
thread_steps-Reach (suc n) x r = next (thread_steps-Reach n x r) thread_moves

settled_connected : (thread_steps 16 commanded).service.is_connected ≡ true
unfolding thread_step thread_move create service_send exchange command_address same_ip system_call
    is_connect_command open_client connect_step disconnect open_socket close_socket
settled_connected = refl

-- `Destroy` while the thread is in `Connect`.
abbrev joining : TcpSystem
joining = destroy_notify (destroy_disconnect granting (begin_destroy (thread_steps 7 commanded)))

joining-Reach : Reach granting (begin world) joining
unfolding thread_step thread_move create service_send
joining-Reach =
    next
      (next (next (thread_steps-Reach 7 commanded commanded-Reach) (destroys refl))
        (destroy_disconnects refl))
      (destroy_notifies refl)

join-Ends_example :
    joined (run_thread granting 30 (joining.service, joining.phase, joining.destination)).1 ≡ true
unfolding thread_step thread_move create service_send exchange command_address same_ip system_call
    is_connect_command open_client connect_step disconnect open_socket close_socket
join-Ends_example = join-Ends granting world joining 30 joining-Reach refl (omega arith)

abbrev ended : TcpSystem
ended = thread_steps 16 joining

destroyed_example :
    ((end_destroy ended).service ≡ record new_service { world = ended.service.world })
    × (ended.service.world.descriptors ≡ 4 ∷ [])
unfolding thread_step thread_move create service_send exchange command_address same_ip system_call
    is_connect_command open_client connect_step disconnect open_socket close_socket
destroyed_example = destroyed (thread_steps-Reach 16 joining joining-Reach) refl refl

connect_client-Connected_example :
    Connected (4 ∷ []) server (connect_client granting server (begin world).service)
connect_client-Connected_example =
    connect_client-Connected granting server (begin world).service (4 ∷ []) refl refl

abbrev kernels : ℤ → Kernel
kernels id = granting

abbrev entries : List (Entry TcpSystem)
entries = record { id = pos 7; service = thread_steps 16 commanded } ∷ []

entries-Running : All (Running kernels world) entries
unfolding thread_step create
entries-Running = ((thread_steps-Reach 16 commanded commanded-Reach, refl), tt)

-- A system that grants every call, with descriptor 5 for a socket.
abbrev all_granted : Kernel
all_granted calls = record { result = pos 5; error = 0 }

abbrev waiting_for_server : TcpSystem
waiting_for_server =
    let x : TcpSystem = (create reset_configuration (begin world)).0 in
    record x { service = (service_send all_granted server true [] (pos 0) x.service).0 }

abbrev started : TcpSystem
started = thread_step all_granted waiting_for_server

converges_example :
    (n : ℕ) × let (s, p, d) =
        run_thread all_granted n (started.service, started.phase, started.destination) in
      (p ≡ waits) × (s.notified ≡ 0) × Commanded s
unfolding thread_step thread_move create service_send exchange command_address same_ip system_call
converges_example =
    converges all_granted world started (λ c calls. refl)
      (next (next (next here (creates reset_configuration refl)) (sends server true [] (pos 0)))
        thread_moves)
      refl (λ e. cc e)
