-- ===== src/Udp/Create.antt =====
-- `Create` and `Destroy` of `UDPService`: the descriptors that they hold, and the configuration.
use generic_target.Base.{
  ltb, Bool-cases, ℕ, ◌≡◌, refl, sym, ap, ◌∙◌, ◌⊎◌, inl, inr, Bool, true, false, List, [], ◌∷◌,
  ◌++◌,
}
use generic_target.Base.Int.{is_neg}
use generic_target.Net.Sockets.{
  Kernel, Call, is_open, open_socket, socket_datagram, reset_last_error, system_call, bind,
  set_option, bind_to_device, interface_name,
}
use generic_target.Net.Descriptors.{held, close_socket-descriptors, open_socket-held}
use generic_target.Udp.{
  UdpService, create, open_service, set_up, bind_second, attempt_to_bind, UdpServiceConfiguration,
  setup_calls, bind_first, same_configuration, set_configuration, bind_port, bind_both,
}

-- The descriptors of the program are that of the service's socket, if it is open, and `others`.
abbrev pub Owns : List ℕ → UdpService → Type 0
Owns others s = s.world.descriptors ≡ held s.udp_socket ++ others

-- The socket is open, or closed, and its descriptor is held, or given back.
abbrev Outcome : List ℕ → UdpService × Bool → Type 0
Outcome others (t, ok) = Owns others t × (is_open t.udp_socket ≡ ok)

set_up-Outcome :
    (k : Kernel) (cs : List Call) (s : UdpService) (others : List ℕ)
    → Owns others s
    → is_open s.udp_socket ≡ true
    → Outcome others (set_up k cs s)
unfolding set_up system_call
set_up-Outcome k [] s others h o = (h, o)
set_up-Outcome k (c ∷ cs) s others h o = elim (Bool-cases (is_neg (k (c ∷ s.world.calls)).result)) [
  | inl e ↦ rw e (close_socket-descriptors k s.udp_socket _ others h, refl)
  | inr e ↦ rw e (set_up-Outcome k cs _ others h o)
]

open_service-Outcome :
    (k : Kernel) (s : UdpService) (others : List ℕ)
    → Owns others s
    → is_open s.udp_socket ≡ false
    → Outcome others (open_service k s)
unfolding open_service
open_service-Outcome k s others h o =
    let v = open_socket-held k socket_datagram s.udp_socket (reset_last_error s.world) others h in
    elim (Bool-cases (open_socket k socket_datagram s.udp_socket (reset_last_error s.world)).2) [
      | inl e ↦ rw e (
          set_up-Outcome k
            (setup_calls s.active_conf
              (open_socket k socket_datagram s.udp_socket (reset_last_error s.world)).1)
            (record s {
              world = (open_socket k socket_datagram s.udp_socket (reset_last_error s.world)).0;
              udp_socket =
                  (open_socket k socket_datagram s.udp_socket (reset_last_error s.world)).1;
            })
            others v.0 (v.1 e))
      | inr e ↦ rw e (v.0, ap is_open (v.2 e) ∙ o)
    ]

-- The calls that bind change neither the socket nor the descriptors.
abbrev Kept : UdpService → UdpService → Type 0
Kept s t = (t.udp_socket ≡ s.udp_socket) × (t.world.descriptors ≡ s.world.descriptors)

bind_first-Kept : (k : Kernel) (s : UdpService) → Kept s (bind_first k s).0
unfolding bind_first system_call
bind_first-Kept k s = elim (Bool-cases (ltb s.attempt_to_bind_status 1)) [
  | inl b ↦
      elim (Bool-cases
        (is_neg (k (bind s.udp_socket (bind_port s.active_conf) ∷ s.world.calls)).result)) [
          | inl e ↦ rw (b, e) (refl, refl)
          | inr e ↦ rw (b, e) (refl, refl)
        ]
  | inr b ↦ rw b (refl, refl)
]

bind_second-Kept : (k : Kernel) (s : UdpService) → Kept s (bind_second k s).0
unfolding bind_second system_call
bind_second-Kept k s = elim (Bool-cases (ltb s.attempt_to_bind_status 2)) [
  | inl b ↦
      elim (Bool-cases (
        is_neg
          (k (
            set_option s.udp_socket (bind_to_device (interface_name s.active_conf.device_name))
            ∷ s.world.calls)).result)) [
              | inl e ↦ rw (b, e) (refl, refl)
              | inr e ↦ rw (b, e) (refl, refl)
            ]
  | inr b ↦ rw b (refl, refl)
]

bind_both-Kept : (k : Kernel) (s : UdpService) → Kept s (bind_both k s).0
unfolding bind_both
bind_both-Kept k s =
    let p = bind_first-Kept k s in
    let q = bind_second-Kept k (bind_first k s).0 in
    elim (Bool-cases (bind_first k s).1) [
      | inr e ↦ rw e p
      | inl e ↦ elim (Bool-cases (bind_second k (bind_first k s).0).1) [
        | inr f ↦ rw (e, f) (q.0 ∙ p.0, q.1 ∙ p.1)
        | inl f ↦ rw (e, f) (q.0 ∙ p.0, q.1 ∙ p.1)
      ]
    ]

attempt_to_bind-Kept : (k : Kernel) (s : UdpService) → Kept s (attempt_to_bind k s).0
unfolding attempt_to_bind
attempt_to_bind-Kept k s = elim (Bool-cases s.is_bound) [
  | inl b ↦ rw b (refl, refl)
  | inr b ↦ simp b (bind_both-Kept k s)
]

create-cases :
    (k : Kernel) (conf : UdpServiceConfiguration) (s : UdpService)
    → same_configuration (set_configuration conf s).active_conf conf ≡ true
    → is_open (set_configuration conf s).udp_socket ≡ false
    → (((open_service k (set_configuration conf s)).1 ≡ true)
        × (create k conf s
            ≡ ((attempt_to_bind k (open_service k (set_configuration conf s)).0).0, true)))
      ⊎ (((open_service k (set_configuration conf s)).1 ≡ false)
          × (create k conf s ≡ ((open_service k (set_configuration conf s)).0, false)))
unfolding create
create-cases k conf s same closed =
    elim (Bool-cases (open_service k (set_configuration conf s)).1) [
      | inl e ↦ inl (e, rw (closed, same, e) refl)
      | inr e ↦ inr (e, rw (closed, same, e) refl)
    ]

set_configuration-Kept :
    (conf : UdpServiceConfiguration) (s : UdpService) → Kept s (set_configuration conf s)
set_configuration-Kept conf s = elim (Bool-cases s.active_conf_set) [
  | inl b ↦ rw b (refl, refl)
  | inr b ↦ rw b (refl, refl)
]

Owns-Kept : (others : List ℕ) (s t : UdpService) → Kept s t → Owns others s → Owns others t
Owns-Kept others s t e h = e.1 ∙ h ∙ ap (λ fd. held fd ++ others) (sym e.0)

-- After `Create` of a service whose socket is closed, with the configuration that it has or takes:
-- the socket is open exactly if `Create` says so, and the descriptors of the program are those of
-- before and that of an open socket: an error at any of the calls leaves none behind.
pub create-Outcome :
    (k : Kernel) (conf : UdpServiceConfiguration) (s : UdpService) (others : List ℕ)
    → Owns others s
    → is_open s.udp_socket ≡ false
    → same_configuration (set_configuration conf s).active_conf conf ≡ true
    → Owns others (create k conf s).0
      × (is_open (create k conf s).0.udp_socket ≡ (create k conf s).1)
create-Outcome k conf s others h o same =
    let t : UdpService = set_configuration conf s in
    let kept : Kept s t = set_configuration-Kept conf s in
    let closed : is_open t.udp_socket ≡ false = ap is_open kept.0 ∙ o in
    let v : Outcome others (open_service k t) =
      open_service-Outcome k t others (Owns-Kept others s t kept h) closed in
    elim (create-cases k conf s same closed) [
      | inl (e, f) ↦
          let b = attempt_to_bind-Kept k (open_service k t).0 in
          rw f (
            Owns-Kept others (open_service k t).0 (attempt_to_bind k (open_service k t).0).0 b v.0,
            ap is_open b.0 ∙ v.1 ∙ e,
          )
      | inr (e, f) ↦ rw f (v.0, v.1 ∙ e)
    ]
