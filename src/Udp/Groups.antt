-- ===== src/Udp/Groups.antt =====
-- library/drivers/GT_DriverImplementationDetails.cpp: the multicast groups of `UDPService`, and
-- `ReceiveFrom`, which keeps them up to date.
pub mod Unique
pub mod Members
use generic_target.Base.{
  ltb, if◌then◌else◌, ℕ, Bool, false, not, ◌&&◌, ◌||◌, none, some, List, [], ◌∷◌, ◌++◌,
}
use generic_target.Base.Int.{is_neg, to_ℕ, ℤ, negsuc}
use generic_target.Net.Addresses.{Ip, same_ip}
use generic_target.Net.Sockets.{Kernel, receive_from, reset_last_error}
use generic_target.Udp.{UdpService, leave_group, join_group, call_service}

unfoldable pub is_invalid_group : Ip → Bool
is_invalid_group g = ltb g.b0 224 || ltb 239 g.b0

-- `RemoveInvalidGroupAddresses`: the loop erases or goes on.
unfoldable pub remove_invalid_group_addresses : List Ip → List Ip
remove_invalid_group_addresses [] = []
remove_invalid_group_addresses (g ∷ gs) =
    let rest : List Ip = remove_invalid_group_addresses gs in
    if is_invalid_group g then rest else g ∷ rest

-- The inner loops over a list of addresses: is `g` among them?
unfoldable pub contains : Ip → List Ip → Bool
contains g [] = false
contains g (x ∷ xs) = same_ip x g || contains g xs

-- `MakeUnique`, at index `k` of its loop: `kept` is what stands before the index, the other argument
-- what stands from it on.
unfoldable pub unique_from : List Ip → List Ip → List Ip
unique_from kept [] = kept
unique_from kept (g ∷ gs) =
    if contains g kept then unique_from kept gs else unique_from (kept ++ (g ∷ [])) gs

unfoldable pub make_unique : List Ip → List Ip
make_unique = unique_from []

-- The first loop of `UpdateMulticastGroups` over the joined groups, and the groups still joined.
unfoldable pub leave_others : Kernel → List Ip → List Ip → UdpService → UdpService × List Ip
leave_others k desired [] s = (s, [])
leave_others k desired (g ∷ gs) s =
    let (t, left) = leave_group k g s in
    let (u, joined) = leave_others k desired gs t in
    let (v, kept) = leave_others k desired gs s in
    if contains g desired then (v, g ∷ kept) else if left then (u, joined) else (u, g ∷ joined)

-- The second loop, over the desired groups.
unfoldable pub join_others : Kernel → List Ip → List Ip → UdpService → UdpService × List Ip
join_others k before [] s = (s, [])
join_others k before (g ∷ gs) s =
    let (t, done) = join_group k g s in
    let (u, joined) = join_others k before gs t in
    let (v, kept) = join_others k before gs s in
    if contains g before then (v, g ∷ kept) else if done then (u, g ∷ joined) else (u, joined)

unfoldable pub update_multicast_groups : Kernel → List Ip → UdpService → UdpService
update_multicast_groups k groups s =
    let desired : List Ip = make_unique (remove_invalid_group_addresses groups) in
    let (t, stay) = leave_others k desired s.currently_joined_groups s in
    let (u, come) = join_others k s.currently_joined_groups desired t in
    record u { currently_joined_groups = make_unique (stay ++ come) }

-- `ReceiveFrom` of the socket, and of the service: what `recvfrom` returns and the code.
abbrev pub socket_receive_from : Kernel → ℕ → UdpService → UdpService × ℤ
socket_receive_from k size s = elim s.udp_socket [
  | none ↦ (record s { world = reset_last_error s.world }, negsuc 0)
  | some fd ↦ call_service k (receive_from fd size) s
]

unfoldable pub service_receive_from : Kernel → ℤ → List Ip → UdpService → UdpService × (ℤ × ℕ)
service_receive_from k max_size groups s =
    let (t, rx) = socket_receive_from k (to_ℕ max_size) (update_multicast_groups k groups s) in
    if s.is_bound && not (is_neg max_size)
    then (record t { latest_error_code = t.world.errno }, (rx, t.world.errno))
    else (s, (negsuc 0, s.latest_error_code))
