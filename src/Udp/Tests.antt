-- ===== src/Udp/Tests.antt =====
-- Runs of the UDP service and its manager, and the theorems about them at concrete inputs.
use generic_target.Base.{◌≡◌, refl, true, false, ◌&&◌, ◌||◌, none, some, [], ◌∷◌, arith}
use generic_target.Base.Int.{ℤ, pos, negsuc}
use generic_target.Net.Addresses.{Ip, same_ip, Address}
use generic_target.Net.Sockets.{
  Kernel, Call, Reply, bind, socket_datagram, is_open, open_socket, system_call,
}
use generic_target.Udp.{
  UdpServiceConfiguration, new_service, reset_configuration, create, destroy, set_up,
  same_configuration, attempt_to_bind, open_service, bind_both, join_group, bind_first, bind_second,
}
use generic_target.Udp.Create.{Owns, create-Outcome}
use generic_target.Udp.Bound.{Rejects, Valid, attempt_to_bind-Valid, create-destroy}
use generic_target.Udp.Groups.{
  update_multicast_groups, make_unique, contains, unique_from, remove_invalid_group_addresses,
  is_invalid_group, leave_others, join_others,
}
use generic_target.Udp.Groups.Unique.{Distinct, is_multicast}
use generic_target.Udp.Groups.Members.{Agree, update_multicast_groups-Agree}
use generic_target.Udp.Manager.{new_manager, add_service, manager_send_to, UdpServiceManager}
use generic_target.Services.{at_service, with_new, create_in}
use generic_target.Udp.Manager.Routing.{add_service-late}

-- A system that opens descriptor 3 and grants every call but one on a closed socket.
abbrev reply_to : Call → Reply
reply_to socket_datagram = record { result = pos 3; error = 0 }
reply_to (bind none port) = record { result = negsuc 0; error = 9 }
reply_to _ = record { result = pos 0; error = 0 }

abbrev granting : Kernel
granting [] = record { result = pos 0; error = 0 }
granting (c ∷ cs) = reply_to c

granting-Rejects : Rejects granting
granting-Rejects port calls = refl

abbrev port_5000 : UdpServiceConfiguration
port_5000 = record reset_configuration { port = pos 5000 }

-- 239.0.0.1 and 10.0.0.1
abbrev group : Ip
group = record { b0 = 239; b1 = 0; b2 = 0; b3 = 1 }

abbrev host : Ip
host = record { b0 = 10; b1 = 0; b2 = 0; b3 = 1 }

created_bound : (create granting port_5000 new_service).0.is_bound ≡ true
unfolding create set_up open_service open_socket system_call same_configuration same_ip
    attempt_to_bind bind_both bind_first bind_second
created_bound = refl

port_5000_same : same_configuration port_5000 port_5000 ≡ true
unfolding same_configuration same_ip
port_5000_same = refl

port_5000_other : same_configuration reset_configuration port_5000 ≡ false
unfolding same_configuration same_ip
port_5000_other = refl

create-Outcome_example :
    Owns
      (7 ∷ [])
      (create granting port_5000
        (record new_service { world = record (new_service.world) { descriptors = 7 ∷ [] } })).0
    × (is_open
          (create granting port_5000 (record new_service {
            world = record (new_service.world) { descriptors = 7 ∷ [] };
          })).0.udp_socket
        ≡ (create granting port_5000
            (record new_service { world = record (new_service.world) { descriptors = 7 ∷ [] } })).1)
create-Outcome_example =
    create-Outcome granting port_5000
      (record new_service { world = record (new_service.world) { descriptors = 7 ∷ [] } }) (7 ∷ [])
      refl refl port_5000_same

attempt_to_bind-Valid_example :
    Valid (attempt_to_bind granting (record new_service { udp_socket = some 3 })).0
    × ((attempt_to_bind granting (record new_service { udp_socket = some 3 })).0.is_bound
        ≡ (attempt_to_bind granting (record new_service { udp_socket = some 3 })).1)
attempt_to_bind-Valid_example =
    attempt_to_bind-Valid granting granting-Rejects (record new_service { udp_socket = some 3 })
      (λ c. cc, omega arith, λ c. refl)

update_multicast_groups-Agree_example :
    Distinct
      (update_multicast_groups granting
        (group ∷ host ∷ group ∷ [])
        new_service).currently_joined_groups
    × Agree (update_multicast_groups granting (group ∷ host ∷ group ∷ []) new_service)
    × ((g : Ip)
        → contains g
            (update_multicast_groups granting
              (group ∷ host ∷ group ∷ [])
              new_service).currently_joined_groups
          ≡ true
        → (contains g [] || (contains g (group ∷ host ∷ group ∷ []) && is_multicast g)) ≡ true)
update_multicast_groups-Agree_example =
    update_multicast_groups-Agree granting (group ∷ host ∷ group ∷ []) new_service tt (λ g. refl)

joined_once :
    (update_multicast_groups granting
      (group ∷ host ∷ group ∷ [])
      new_service).currently_joined_groups
    ≡ group ∷ []
unfolding update_multicast_groups make_unique unique_from contains remove_invalid_group_addresses
    is_invalid_group leave_others join_others join_group system_call same_ip
joined_once = refl

abbrev kernels : ℤ → Kernel
kernels id = granting

-- Behind an `AddService` of another id.
abbrev running : UdpServiceManager
running = record new_manager { thread_started = true; joinable = true }

added_late :
    (add_service kernels
      (pos 1)
      port_5000
      (manager_send_to kernels (pos 2) (record { ip = host; port = 9 }) [] (pos 0) running).0).1
    ≡ true
unfolding add_service with_new create_in manager_send_to at_service create set_up open_service
    open_socket system_call same_configuration same_ip
added_late = refl

add_service-late_example :
    (add_service kernels
      (pos 1)
      port_5000
      (manager_send_to kernels
        (pos 2)
        (record { ip = host; port = 9 })
        []
        (pos 0)
        running).0).0.terminated
    ≡ true
add_service-late_example =
    add_service-late kernels (pos 1) (pos 2) port_5000 (record { ip = host; port = 9 }) [] (pos 0)
      running refl added_late

abbrev peer : Address
peer = record { ip = host; port = 9 }

create-destroy_example :
    create granting port_5000 (destroy granting (record new_service { active_conf_set = true }))
    ≡ (destroy granting (record new_service { active_conf_set = true }), false)
create-destroy_example =
    create-destroy granting port_5000 (record new_service { active_conf_set = true }) refl
      port_5000_other
