-- ===== src/Udp/Thread/Tests.antt =====
-- A run of the manager with its management thread, and the theorems about it.
use generic_target.Base.{◌≡◌, refl, true, none, [], ◌∷◌, arith}
use generic_target.Base.Int.{ℤ, pos, negsuc}
use generic_target.Net.Addresses.{Address, same_ip}
use generic_target.Net.Sockets.{
  Kernel, Call, Reply, bind, socket_datagram, open_socket, system_call,
}
use generic_target.Services.{at_service, with_new, create_in}
use generic_target.Udp.{
  UdpServiceConfiguration, reset_configuration, create, set_up, same_configuration, attempt_to_bind,
  open_service, bind_both, bind_first, bind_second,
}
use generic_target.Udp.Sending.{service_send_to}
use generic_target.Udp.Manager.{add_service, manager_send_to}
use generic_target.Udp.Thread.{
  UdpSystem, new_system, run_thread, joined, add, begin_clear, adds, sends, clears, Reach, here,
  next,
}
use generic_target.Udp.Thread.Ends.{clear-Ends}

-- A system that opens descriptor 3 and grants every call but one on a closed socket.
abbrev reply_to : Call → Reply
reply_to socket_datagram = record { result = pos 3; error = 0 }
reply_to (bind none port) = record { result = negsuc 0; error = 9 }
reply_to _ = record { result = pos 0; error = 0 }

abbrev kernels : ℤ → Kernel
kernels id [] = record { result = pos 0; error = 0 }
kernels id (c ∷ cs) = reply_to c

abbrev port_5000 : UdpServiceConfiguration
port_5000 = record reset_configuration { port = pos 5000 }

abbrev peer : Address
peer = record { ip = record { b0 = 10; b1 = 0; b2 = 0; b3 = 1 }; port = 9 }

abbrev added : UdpSystem
added = add kernels (pos 1) port_5000 new_system

abbrev first_call : UdpSystem
first_call = record added {
  manager = (manager_send_to kernels (pos 1) peer (7 ∷ []) (pos 1) added.manager).0;
}

first_call-Reach : Reach kernels first_call
unfolding add add_service with_new create_in manager_send_to at_service create set_up open_service
    open_socket system_call same_configuration same_ip attempt_to_bind bind_both bind_first
    bind_second
first_call-Reach =
    next (next here (adds (pos 1) port_5000 refl) refl) (sends (pos 1) peer (7 ∷ []) (pos 1) refl)
      refl

abbrev clearing : UdpSystem
clearing = begin_clear kernels first_call

clear-Ends_example : joined (run_thread kernels 9 clearing).phase ≡ true
unfolding add add_service with_new create_in manager_send_to at_service create set_up open_service
    open_socket system_call same_configuration same_ip attempt_to_bind bind_both bind_first
    bind_second service_send_to begin_clear
clear-Ends_example =
    clear-Ends kernels clearing 9 (next first_call-Reach (clears refl) refl) refl (omega arith)
