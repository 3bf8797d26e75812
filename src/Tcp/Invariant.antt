-- ===== src/Tcp/Invariant.antt =====
-- What holds of `TCPClientService` in every state that its threads can reach.
use generic_target.Base.{
  ◌==◌, Bool-cases, ℕ, ◌≡◌, refl, sym, ap, ◌∙◌, inl, inr, Bool, true, false, not, ◌||◌, none, List,
  [], ◌∷◌, ◌++◌,
}
use mathlib.Core.Path.{subst}
use generic_target.Net.Descriptors.{held}
use generic_target.Net.Addresses.{Address, same_address}
use generic_target.Net.Sockets.{Kernel, World}
use generic_target.Tcp.{
  TcpService, TcpServiceConfiguration, disconnect, open_client, connect_step, is_connect_command,
  service_send, service_receive, new_service,
}
use generic_target.Tcp.Calls.{Called, service_send-Called, service_receive-Called}
use generic_target.Tcp.Connect.{Owns, disconnect-Owns, connect_step-Outcome, open_client-Outcome}
use generic_target.Tcp.Places.{At, Called-At, thread_move-At}
use generic_target.Tcp.Thread.{
  Phase, not_started, tests, reads, disconnects, opens, connects, sleeps, waits, drains, leaves,
  done, Owner, runs, stops, notifies, joins, TcpSystem, new_system, thread_move, thread_step,
  create, joined, Step, creates, sends, receives, thread_moves, wait_error, destroys,
  destroy_disconnects, destroy_notifies, resumes, destroy_joins, destroy_resumes, destroy_unmarks,
  destroy_excuses, destroy_clears, destroy_forgets, destroy_unsets_ip, destroy_unsets_port, Reach,
  here, next,
}

-- `Destroy` is behind `join`.
abbrev has_joined : Owner → Bool
has_joined runs = false
has_joined stops = false
has_joined notifies = false
has_joined joins = false
has_joined _ = true

-- `m_terminate` is not set.
abbrev pub has_resumed : Owner → Bool
has_resumed stops = false
has_resumed notifies = false
has_resumed joins = false
has_resumed resumes = false
has_resumed _ = true

abbrev pub Closed : TcpService → Type 0
Closed s = (s.tcp_socket ≡ none) × (s.is_connected ≡ false) × (s.peer ≡ none)

-- The state of a service, whose thread is at `p`: without its thread it is closed, and unless
-- `Destroy` was called the thread relies on what holds at its place.
pub record Follows (others : List ℕ) (s : TcpService) (p : Phase) (d : Address) (o : Owner)
    : Type 0 where
  pub owns : Owns others s
  pub idle : joined p ≡ true → Closed s
  pub created : s.is_created ≡ false → joined p ≡ true
  pub gone : has_joined o ≡ true → joined p ≡ true
  pub going : has_resumed o ≡ true → s.terminate ≡ false
  pub place : o ≡ runs → At p d s

abbrev pub Good : List ℕ → TcpSystem → Type 0
Good others x = Follows others x.service x.phase x.destination x.owner

Called-Follows :
    (others : List ℕ) (s t : TcpService) (p : Phase) (d : Address) (o : Owner)
    → Called s t
    → Follows others s p d o
    → Follows others t p d o
Called-Follows others s t p d o c f = record {
  owns = c.descriptors_kept ∙ f.owns ∙ ap (λ fd. held fd ++ others) (sym c.socket_kept);
  idle = λ j. let (shut, n, alone) = f.idle j in (c.socket_kept ∙ shut, off n, c.peer_kept ∙ alone);
  created = λ e. f.created (sym c.created_kept ∙ e);
  gone = f.gone;
  going = λ r. c.terminate_kept ∙ f.going r;
  place = λ r. Called-At p d s t c (f.place r);
}
  where
    off : s.is_connected ≡ false → t.is_connected ≡ false
    off e = elim c.connected [ inl g ↦ g ∙ e | inr n ↦ n.0 ]

module _ (k : Kernel) (others : List ℕ) where
  -- Behind a move of the thread.
  abbrev pub Kept : Phase → TcpService → TcpService × Phase × Address → Type 0
  Kept p s (t, q, e) =
      Owns others t
      × (t.is_created ≡ s.is_created)
      × (t.terminate ≡ s.terminate)
      × (joined p ≡ true → joined q ≡ true)
      × (joined q ≡ true → Closed t)

  pub thread_move-Kept :
      (p : Phase) (d : Address) (s : TcpService)
      → Owns others s
      → (joined p ≡ true → Closed s)
      → Kept p s (thread_move k p d s)
  unfolding thread_move disconnect
  thread_move-Kept not_started d s o i = (o, refl, refl, λ j. j, i)
  thread_move-Kept tests d s o i = elim (Bool-cases s.terminate) [
    | inl e ↦ rw e (o, refl, refl, λ j. cc, λ j. cc)
    | inr e ↦ rw e (o, refl, refl, λ j. cc, λ j. cc)
  ]
  thread_move-Kept reads d s o i =
      elim (Bool-cases (not s.is_connected || not (same_address d s.commanded_address))) [
        | inl e ↦ rw e (o, refl, refl, λ j. cc, λ j. cc)
        | inr e ↦ rw e (o, refl, refl, λ j. cc, λ j. cc)
      ]
  thread_move-Kept disconnects d s o i = elim (Bool-cases (is_connect_command d)) [
    | inl e ↦ rw e (disconnect-Owns k s others o, refl, refl, λ j. cc, λ j. cc)
    | inr e ↦ rw e (disconnect-Owns k s others o, refl, refl, λ j. cc, λ j. cc)
  ]
  thread_move-Kept opens d s o i =
      let (owns, q, opened) = open_client-Outcome k s others o in
      elim (Bool-cases (open_client k s).1) [
        | inl e ↦ rw e (owns, q.4, q.3, λ j. cc, λ j. cc)
        | inr e ↦ rw e (owns, q.4, q.3, λ j. cc, λ j. cc)
      ]
  thread_move-Kept (connects []) d s o i = (o, refl, refl, λ j. cc, λ j. cc)
  thread_move-Kept (connects (c ∷ cs)) d s o i =
      let (owns, q, kept) = connect_step-Outcome k c s others o in
      elim (Bool-cases (connect_step k c s).1) [
        | inl e ↦ rw e (owns, q.4, q.3, λ j. cc, λ j. cc)
        | inr e ↦ rw e (owns, q.4, q.3, λ j. cc, λ j. cc)
      ]
  thread_move-Kept sleeps d s o i = (o, refl, refl, λ j. cc, λ j. cc)
  thread_move-Kept waits d s o i = elim (Bool-cases (s.notified == 0)) [
    | inl n ↦ rw n (o, refl, refl, λ j. cc, λ j. cc)
    | inr n ↦ rw n (o, refl, refl, λ j. cc, λ j. cc)
  ]
  thread_move-Kept drains d s o i = elim (Bool-cases (s.notified == 0)) [
    | inl n ↦ rw n (o, refl, refl, λ j. cc, λ j. cc)
    | inr n ↦ rw n (o, refl, refl, λ j. cc, λ j. cc)
  ]
  thread_move-Kept leaves d s o i =
      (disconnect-Owns k s others o, refl, refl, λ j. refl, λ j. (refl, refl, refl))
  thread_move-Kept done d s o i = (o, refl, refl, λ j. j, i)

  thread_step-Good : (x : TcpSystem) → Good others x → Good others (thread_step k x)
  unfolding thread_step
  thread_step-Good x f =
      let (owns, made, term, stays, shut) =
        thread_move-Kept x.phase x.destination x.service f.owns f.idle in
      record {
        owns = owns;
        idle = shut;
        created = λ e. stays (f.created (sym made ∙ e));
        gone = λ b. stays (f.gone b);
        going = λ r. term ∙ f.going r;
        place = λ r.
            thread_move-At k others x.phase x.destination x.service f.owns
              (f.going (ap has_resumed r)) (f.place r);
      }

  create-Good :
      (conf : TcpServiceConfiguration) (x : TcpSystem)
      → x.owner ≡ runs
      → Good others x
      → Good others (create conf x).0
  unfolding create
  create-Good conf x r f = elim (Bool-cases x.service.is_created) [
    | inl e ↦ simp e f
    | inr e ↦
        let (shut, off, alone) = f.idle (f.created e) in
        simp e (record {
          owns = f.owns;
          idle = λ j. cc;
          created = λ b. cc;
          gone = λ b. absurd (cc (r, b));
          going = f.going;
          place = λ o on. absurd (cc (off, on));
        })
  ]

  pub Step-Good : (x y : TcpSystem) → Good others x → Step k x y → Good others y
  unfolding disconnect
  Step-Good x y f (creates conf r) = create-Good conf x r f
  Step-Good x y f (sends a manage bytes size) =
      Called-Follows others x.service (service_send k a manage bytes size x.service).0 x.phase
        x.destination x.owner (service_send-Called k a manage bytes size x.service) f
  Step-Good x y f (receives a manage max_size) =
      Called-Follows others x.service (service_receive k a manage max_size x.service).0 x.phase
        x.destination x.owner (service_receive-Called k a manage max_size x.service) f
  Step-Good x y f thread_moves = thread_step-Good x f
  Step-Good x y f (wait_error w) = record {
    owns = f.owns;
    idle = λ j. cc;
    created = λ e. absurd (cc (sym (ap joined w) ∙ f.created e));
    gone = λ b. absurd (cc (sym (ap joined w) ∙ f.gone b));
    going = f.going;
    place = λ r. (subst (λ p. At p x.destination x.service) w (f.place r)).0;
  }
  Step-Good x y f (destroys r) = record {
    owns = f.owns;
    idle = f.idle;
    created = f.created;
    gone = λ b. absurd (cc b);
    going = λ b. absurd (cc b);
    place = λ s. cc;
  }
  Step-Good x y f (destroy_disconnects r) = record {
    owns = disconnect-Owns k x.service others f.owns;
    idle = λ j. (refl, refl, refl);
    created = f.created;
    gone = λ b. absurd (cc b);
    going = λ b. absurd (cc b);
    place = λ s. cc;
  }
  Step-Good x y f (destroy_notifies r) = record {
    owns = f.owns;
    idle = f.idle;
    created = f.created;
    gone = λ b. absurd (cc b);
    going = λ b. absurd (cc b);
    place = λ s. cc;
  }
  Step-Good x y f (destroy_joins r j) = record {
    owns = f.owns;
    idle = f.idle;
    created = f.created;
    gone = λ b. j;
    going = λ b. absurd (cc b);
    place = λ s. cc;
  }
  Step-Good x y f (destroy_resumes r) = record {
    owns = f.owns;
    idle = f.idle;
    created = f.created;
    gone = λ b. f.gone (ap has_joined r);
    going = λ b. refl;
    place = λ s. cc;
  }
  Step-Good x y f (destroy_unmarks r) = record {
    owns = f.owns;
    idle = f.idle;
    created = λ e. f.gone (ap has_joined r);
    gone = λ b. f.gone (ap has_joined r);
    going = λ b. f.going (ap has_resumed r);
    place = λ s. cc;
  }
  Step-Good x y f (destroy_excuses r) = record {
    owns = f.owns;
    idle = f.idle;
    created = f.created;
    gone = λ b. f.gone (ap has_joined r);
    going = λ b. f.going (ap has_resumed r);
    place = λ s. cc;
  }
  Step-Good x y f (destroy_clears r) = record {
    owns = f.owns;
    idle = f.idle;
    created = f.created;
    gone = λ b. f.gone (ap has_joined r);
    going = λ b. f.going (ap has_resumed r);
    place = λ s. cc;
  }
  Step-Good x y f (destroy_forgets r) = record {
    owns = f.owns;
    idle = f.idle;
    created = f.created;
    gone = λ b. f.gone (ap has_joined r);
    going = λ b. f.going (ap has_resumed r);
    place = λ s. cc;
  }
  Step-Good x y f (destroy_unsets_ip r) = record {
    owns = f.owns;
    idle = f.idle;
    created = f.created;
    gone = λ b. f.gone (ap has_joined r);
    going = λ b. f.going (ap has_resumed r);
    place = λ s. cc;
  }
  Step-Good x y f (destroy_unsets_port r) = record {
    owns = f.owns;
    idle = λ _. f.idle (f.gone (ap has_joined r));
    created = λ _. refl;
    gone = λ b. refl;
    going = λ b. f.going (ap has_resumed r);
    place = λ s. tt;
  }

  pub Reach-Good : (x y : TcpSystem) → Good others x → Reach k x y → Good others y
  Reach-Good x y f here = f
  Reach-Good x y f (next r s) = Step-Good _ y (Reach-Good x _ f r) s

-- A new service, where the system's side is `w`.
abbrev pub begin : World → TcpSystem
begin w = record new_system { service = record new_service { world = w } }

pub reachable-Good :
    (k : Kernel) (w : World) (x : TcpSystem) → Reach k (begin w) x → Good w.descriptors x
reachable-Good k w x r =
    Reach-Good k w.descriptors (begin w) x
      (record {
        owns = refl;
        idle = λ j. (refl, refl, refl);
        created = λ e. refl;
        gone = λ b. absurd (cc b);
        going = λ e. refl;
        place = λ e. tt;
      })
      r
