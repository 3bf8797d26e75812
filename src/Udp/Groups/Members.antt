-- ===== src/Udp/Groups/Members.antt =====
-- The groups that `UDPService` takes for joined, and those that the system has its socket in.
use generic_target.Base.{
  Bool-cases, ◌≡◌, refl, sym, ap, ◌∙◌, ◌⊎◌, inl, inr, true, false, not, ◌&&◌, ◌||◌, List, [], ◌∷◌,
  ◌++◌, arith,
}
use generic_target.Base.Int.{is_neg}
use generic_target.Net.Addresses.{Ip, same_ip, same_ip_iff}
use generic_target.Net.Sockets.{Kernel, system_call, set_option, drop_membership, add_membership}
use generic_target.Udp.{UdpService, without, leave_group, join_group}
use generic_target.Udp.Groups.{
  contains, leave_others, join_others, update_multicast_groups, make_unique,
  remove_invalid_group_addresses,
}
use generic_target.Udp.Groups.Unique.{
  Distinct, contains-append, contains-same, make_unique-Distinct, contains-remove_invalid,
  is_multicast,
}

-- The service and the system agree on every group.
abbrev pub Agree : UdpService → Type 0
Agree s = (g : Ip) → contains g s.currently_joined_groups ≡ contains g s.world.members

contains-without :
    (g h : Ip) (xs : List Ip) → contains g (without h xs) ≡ (contains g xs && not (same_ip h g))
unfolding contains
contains-without g h [] = refl
contains-without g h (x ∷ xs) = elim (Bool-cases (same_ip x h)) [
  | inl e ↦
      let f : same_ip x g ≡ same_ip h g = ap (λ z. same_ip z g) ((same_ip_iff x h).0 e) in
      rw (e, f, contains-without g h xs) (ground arith)
  | inr e ↦ elim (Bool-cases (same_ip h g)) [
    | inl f ↦
        let n : same_ip x g ≡ false = ap (same_ip x) (sym ((same_ip_iff h g).0 f)) ∙ e in
        rw (e, n, contains-without g h xs) refl
    | inr f ↦ rw (e, contains-without g h xs, f) (ground arith)
  ]
]

leave_group-cases :
    (k : Kernel) (h : Ip) (s : UdpService)
    → (((leave_group k h s).1 ≡ false) × ((leave_group k h s).0.world.members ≡ s.world.members))
      ⊎ (((leave_group k h s).1 ≡ true)
          × ((leave_group k h s).0.world.members ≡ without h s.world.members))
unfolding leave_group system_call
leave_group-cases k h s =
    elim (Bool-cases
      (is_neg (k (set_option s.udp_socket (drop_membership h) ∷ s.world.calls)).result)) [
        | inl e ↦ inl (rw e refl, rw e refl)
        | inr e ↦ inr (rw e refl, rw e refl)
      ]

join_group-cases :
    (k : Kernel) (h : Ip) (s : UdpService)
    → (((join_group k h s).1 ≡ false) × ((join_group k h s).0.world.members ≡ s.world.members))
      ⊎ (((join_group k h s).1 ≡ true) × ((join_group k h s).0.world.members ≡ h ∷ s.world.members))
unfolding join_group system_call
join_group-cases k h s =
    elim (Bool-cases
      (is_neg (k (set_option s.udp_socket (add_membership h) ∷ s.world.calls)).result)) [
        | inl e ↦ inl (rw e refl, rw e refl)
        | inr e ↦ inr (rw e refl, rw e refl)
      ]

stay-sub :
    (k : Kernel) (desired before : List Ip) (s : UdpService) (g : Ip)
    → contains g (leave_others k desired before s).1 ≡ true
    → contains g before ≡ true
unfolding leave_others contains
stay-sub k desired [] s g h = h
stay-sub k desired (x ∷ xs) s g h =
    let p = stay-sub k desired xs s g in
    let q = stay-sub k desired xs (leave_group k x s).0 g in ground (arith, p, q)

stay-keeps :
    (k : Kernel) (desired before : List Ip) (s : UdpService) (g : Ip)
    → contains g before ≡ true
    → contains g desired ≡ true
    → contains g (leave_others k desired before s).1 ≡ true
unfolding leave_others contains
stay-keeps k desired [] s g h d = h
stay-keeps k desired (x ∷ xs) s g h d =
    let p = stay-keeps k desired xs s g in
    let q = stay-keeps k desired xs (leave_group k x s).0 g in
    let c = contains-same x g desired in ground (arith, p, q, c)

leave_others-members :
    (k : Kernel) (desired before : List Ip) (s : UdpService) (g : Ip)
    → Distinct before
    → contains g (leave_others k desired before s).0.world.members ≡ (
        contains g s.world.members
        && (not (contains g before) || contains g (leave_others k desired before s).1))
unfolding leave_others contains
leave_others-members k desired [] s g d = ground arith
leave_others-members k desired (h ∷ hs) s g d =
    let p = leave_others-members k desired hs s g d.1 in
    let q = leave_others-members k desired hs (leave_group k h s).0 g d.1 in
    let c = contains-same h g hs in
    let sub = stay-sub k desired hs (leave_group k h s).0 g in
    elim (leave_group-cases k h s) [
      | inl (e, f) ↦ let f' = ap (contains g) f in ground (arith, p, q, c, f', d.0)
      | inr (e, f) ↦
          let f' = ap (contains g) f ∙ contains-without g h s.world.members in
          ground (arith, p, q, c, f', d.0, sub)
    ]

come-sub :
    (k : Kernel) (before desired : List Ip) (s : UdpService) (g : Ip)
    → contains g (join_others k before desired s).1 ≡ true
    → contains g desired ≡ true
unfolding join_others contains
come-sub k before [] s g h = h
come-sub k before (x ∷ xs) s g h =
    let p = come-sub k before xs s g in
    let q = come-sub k before xs (join_group k x s).0 g in ground (arith, p, q)

join_others-members :
    (k : Kernel) (before desired : List Ip) (s : UdpService) (g : Ip)
    → contains g (join_others k before desired s).0.world.members ≡ (
        contains g s.world.members
        || (contains g (join_others k before desired s).1 && not (contains g before)))
unfolding join_others contains
join_others-members k before [] s g = ground arith
join_others-members k before (h ∷ hs) s g =
    let p = join_others-members k before hs s g in
    let q = join_others-members k before hs (join_group k h s).0 g in
    let c = contains-same h g before in
    elim (join_group-cases k h s) [
      | inl (e, f) ↦ let f' = ap (contains g) f in ground (arith, p, q, c, f')
      | inr (e, f) ↦ let f' = ap (contains g) f in ground (arith, p, q, c, f')
    ]

-- `UpdateMulticastGroups` keeps the service's list without repetition and equal, as a set, to the
-- groups that the system has the socket in, whatever calls fail; and every group of the list was
-- in it before or is a multicast address of the desired list.
pub update_multicast_groups-Agree :
    (k : Kernel) (groups : List Ip) (s : UdpService)
    → Distinct s.currently_joined_groups
    → Agree s
    → Distinct (update_multicast_groups k groups s).currently_joined_groups
      × Agree (update_multicast_groups k groups s)
      × ((g : Ip)
          → contains g (update_multicast_groups k groups s).currently_joined_groups ≡ true
          → (contains g s.currently_joined_groups || (contains g groups && is_multicast g)) ≡ true)
unfolding update_multicast_groups
update_multicast_groups-Agree k groups s d a = (u.0, agree, origin)
  where
    desired : List Ip
    desired = make_unique (remove_invalid_group_addresses groups)

    leaving : UdpService × List Ip
    leaving = leave_others k desired s.currently_joined_groups s

    coming : UdpService × List Ip
    coming = join_others k s.currently_joined_groups desired leaving.0

    u :
        Distinct (make_unique (leaving.1 ++ coming.1))
        × ((g : Ip)
            → contains g (make_unique (leaving.1 ++ coming.1)) ≡ contains g (leaving.1 ++ coming.1))
    u = make_unique-Distinct (leaving.1 ++ coming.1)

    joined :
        (g : Ip)
        → contains g (make_unique (leaving.1 ++ coming.1))
          ≡ (contains g leaving.1 || contains g coming.1)
    joined g = u.1 g ∙ contains-append g leaving.1 coming.1

    agree : Agree (update_multicast_groups k groups s)
    agree g =
        let p = leave_others-members k desired s.currently_joined_groups s g d in
        let q = join_others-members k s.currently_joined_groups desired leaving.0 g in
        let sub = stay-sub k desired s.currently_joined_groups s g in
        let keep = stay-keeps k desired s.currently_joined_groups s g in
        let new = come-sub k s.currently_joined_groups desired leaving.0 g in
        ground (arith, p, q, sub, keep, new, joined g, a g)

    origin :
        (g : Ip)
        → contains g (make_unique (leaving.1 ++ coming.1)) ≡ true
        → (contains g s.currently_joined_groups || (contains g groups && is_multicast g)) ≡ true
    origin g h =
        let sub = stay-sub k desired s.currently_joined_groups s g in
        let new = come-sub k s.currently_joined_groups desired leaving.0 g in
        let e =
          (make_unique-Distinct (remove_invalid_group_addresses groups)).1 g
          ∙ contains-remove_invalid g groups in
        ground (arith, sub, new, joined g, e)
