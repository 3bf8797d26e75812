-- ===== src/Udp/Bound.antt =====
-- The progress of `UDPService` from a closed socket to a bound one.
use generic_target.Base.{
  ltb, Bool-cases, ℕ, ◌≤◌, ◌<◌, ◌≡◌, refl, ap, ◌∙◌, inl, inr, Bool, true, false, Option, none, some,
  List, [], ◌∷◌, arith,
}
use generic_target.Base.Int.{is_neg}
use generic_target.Net.Sockets.{
  Kernel, Call, is_open, bind, set_option, bind_to_device, system_call, drop_membership,
  interface_name,
}
use generic_target.Udp.{
  UdpService, UdpServiceConfiguration, create, destroy, attempt_to_bind, bind_both, bind_first,
  bind_second, bind_port, leave_group, same_configuration, reset_configuration, leave_all, Ip,
  set_configuration,
}

-- The system refuses to bind what is not an open descriptor.
abbrev pub Rejects : Kernel → Type 0
Rejects k = (port : ℕ) (calls : List Call) → is_neg (k (bind none port ∷ calls)).result ≡ true

-- A bound service has taken both steps, and a service that has taken a step has an open socket.
abbrev pub Valid : UdpService → Type 0
Valid s =
    (s.is_bound ≡ true → s.attempt_to_bind_status ≡ 2)
    × (s.attempt_to_bind_status ≤ 2)
    × (0 < s.attempt_to_bind_status → is_open s.udp_socket ≡ true)

-- A step keeps the service valid and unbound; with `true` it has come to status `n`.
abbrev Step : ℕ → UdpService → UdpService × Bool → Type 0
Step n s (t, ok) = Valid t × (t.is_bound ≡ s.is_bound) × (ok ≡ true → n ≤ t.attempt_to_bind_status)

module _ (k : Kernel) (rejects : Rejects k) where
  bind_closed :
      (fd : Option ℕ) (port : ℕ) (calls : List Call)
      → is_neg (k (bind fd port ∷ calls)).result ≡ false
      → is_open fd ≡ true
  bind_closed none port calls e = absurd (ground (arith, rejects port calls))
  bind_closed (some fd) port calls e = refl

  bind_first-Step : (s : UdpService) → Valid s → s.is_bound ≡ false → Step 1 s (bind_first k s)
  unfolding bind_first system_call
  bind_first-Step s v nb = elim (Bool-cases (ltb s.attempt_to_bind_status 1)) [
    | inl b ↦
        elim (Bool-cases
          (is_neg (k (bind s.udp_socket (bind_port s.active_conf) ∷ s.world.calls)).result)) [
            | inl e ↦ rw (b, e) (v, refl, λ c. cc)
            | inr e ↦
                rw (b, e)
                  (
                    (
                      λ c. cc,
                      omega arith,
                      λ c. bind_closed s.udp_socket (bind_port s.active_conf) s.world.calls e,
                    ),
                    refl,
                    λ c. omega arith,
                  )
          ]
    | inr b ↦ rw b (v, refl, λ c. ground arith)
  ]

  bind_second-Step :
      (s : UdpService)
      → Valid s
      → s.is_bound ≡ false
      → 1 ≤ s.attempt_to_bind_status
      → Step 2 s (bind_second k s)
  unfolding bind_second system_call
  bind_second-Step s v nb one = elim (Bool-cases (ltb s.attempt_to_bind_status 2)) [
    | inl b ↦
        elim (Bool-cases (
          is_neg
            (k (
              set_option s.udp_socket (bind_to_device (interface_name s.active_conf.device_name))
              ∷ s.world.calls)).result)) [
                | inl e ↦ rw (b, e) (v, refl, λ c. cc)
                | inr e ↦ rw (b, e) ((λ c. refl, omega arith, λ c. v.2 one), refl, λ c. omega arith)
              ]
    | inr b ↦ rw b (v, refl, λ c. ground arith)
  ]

  bind_both-Valid :
      (s : UdpService)
      → Valid s
      → s.is_bound ≡ false
      → Valid (bind_both k s).0 × ((bind_both k s).0.is_bound ≡ (bind_both k s).1)
  unfolding bind_both
  bind_both-Valid s v nb =
      let p = bind_first-Step s v nb in
      elim (Bool-cases (bind_first k s).1) [
        | inr e ↦ rw e (p.0, p.1 ∙ nb)
        | inl e ↦
            let q = bind_second-Step (bind_first k s).0 p.0 (p.1 ∙ nb) (p.2 e) in
            elim (Bool-cases (bind_second k (bind_first k s).0).1) [
              | inr f ↦ rw (e, f) (q.0, q.1 ∙ p.1 ∙ nb)
              | inl f ↦ rw (e, f) ((λ c. omega (arith, q.0.1, q.2 f), q.0.1, q.0.2), refl)
            ]
      ]

  -- `AttemptToBind` keeps a service valid, which says that a bound service has an open socket whose
  -- port and device are bound, and returns whether the service is bound afterwards. The system
  -- refuses to bind a closed socket.
  pub attempt_to_bind-Valid :
      (s : UdpService)
      → Valid s
      → Valid (attempt_to_bind k s).0 × ((attempt_to_bind k s).0.is_bound ≡ (attempt_to_bind k s).1)
  unfolding attempt_to_bind
  attempt_to_bind-Valid s v = elim (Bool-cases s.is_bound) [
    | inl b ↦ rw b ((λ c. v.0 b, v.1, v.2), refl)
    | inr b ↦ simp b (bind_both-Valid s v b)
  ]

leave_group-conf_set :
    (k : Kernel) (g : Ip) (s : UdpService)
    → (leave_group k g s).0.active_conf_set ≡ s.active_conf_set
unfolding leave_group system_call
leave_group-conf_set k g s =
    elim (Bool-cases
      (is_neg (k (set_option s.udp_socket (drop_membership g) ∷ s.world.calls)).result)) [
        | inl e ↦ rw e refl
        | inr e ↦ rw e refl
      ]

leave_all-conf_set :
    (k : Kernel) (gs : List Ip) (s : UdpService)
    → (leave_all k gs s).active_conf_set ≡ s.active_conf_set
unfolding leave_all
leave_all-conf_set k [] s = refl
leave_all-conf_set k (g ∷ gs) s =
    leave_all-conf_set k gs (leave_group k g s).0 ∙ leave_group-conf_set k g s

destroy-conf_set : (k : Kernel) (s : UdpService) → (destroy k s).active_conf_set ≡ s.active_conf_set
unfolding destroy
destroy-conf_set k s = elim (Bool-cases (is_open s.udp_socket)) [
  | inl e ↦ rw e (leave_all-conf_set k s.currently_joined_groups s)
  | inr e ↦ rw e refl
]

destroy-conf : (k : Kernel) (s : UdpService) → (destroy k s).active_conf ≡ reset_configuration
unfolding destroy
destroy-conf k s = refl

create_ambiguous :
    (k : Kernel) (conf : UdpServiceConfiguration) (s : UdpService)
    → s.active_conf_set ≡ true
    → same_configuration s.active_conf conf ≡ false
    → create k conf s ≡ (s, false)
unfolding create
create_ambiguous k conf s e f =
    let same : set_configuration conf s ≡ s = simp e refl in
    let other : same_configuration (set_configuration conf s).active_conf conf ≡ false =
      ap (λ t. same_configuration t.active_conf conf) same ∙ f in
    simp other (ap (λ t. (t, false)) same)

-- A service that has been configured and then destroyed refuses every configuration but the one that
-- `Reset` sets: the mark that its configuration is set outlives `Destroy`.
pub create-destroy :
    (k : Kernel) (conf : UdpServiceConfiguration) (s : UdpService)
    → s.active_conf_set ≡ true
    → same_configuration reset_configuration conf ≡ false
    → create k conf (destroy k s) ≡ (destroy k s, false)
create-destroy k conf s e f =
    create_ambiguous k conf (destroy k s) (destroy-conf_set k s ∙ e)
      (ap (λ c. same_configuration c conf) (destroy-conf k s) ∙ f)
