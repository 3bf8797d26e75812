-- ===== src/Tcp/Join.antt =====
-- `join` in `Destroy` of `TCPClientService`: the thread is notified, and ends.
pub mod Ends
use generic_target.Base.{
  ◌==◌, Bool-cases, ℕ, ◌<◌, ◌≡◌, refl, sym, ap, ◌∙◌, ◌⊎◌, inl, inr, Bool, true, false, List, [],
  ◌∷◌, arith,
}
use mathlib.Core.Path.{subst}
use generic_target.Net.Sockets.{Kernel, World}
use generic_target.Net.Addresses.{Address}
use generic_target.Tcp.{TcpService, disconnect, service_send, service_receive}
use generic_target.Tcp.Calls.{Called, service_send-Called, service_receive-Called}
use generic_target.Tcp.Connect.{Owns, connect_step-Outcome, open_client-Outcome}
use generic_target.Tcp.Invariant.{begin, reachable-Good, Good, thread_move-Kept}
use generic_target.Tcp.Thread.{
  Phase, not_started, tests, reads, disconnects, opens, connects, sleeps, waits, drains, leaves,
  done, Owner, joins, TcpSystem, thread_move, thread_step, create, Step, creates, sends, receives,
  thread_moves, wait_error, destroys, destroy_disconnects, destroy_notifies, resumes, destroy_joins,
  destroy_resumes, destroy_unmarks, destroy_excuses, destroy_clears, destroy_forgets,
  destroy_unsets_ip, destroy_unsets_port, stops, notifies, Reach, here, next,
}

-- Places of the thread from which it looks at the termination flag before it can wait.
abbrev pub WillLook : Phase → Type 0
WillLook not_started = Unit
WillLook tests = Unit
WillLook sleeps = Unit
WillLook drains = Unit
WillLook leaves = Unit
WillLook done = Unit
WillLook _ = ⊥

abbrev pub stopping : Owner → Bool
stopping stops = true
stopping notifies = true
stopping joins = true
stopping resumes = true
stopping _ = false

-- While `Destroy` is at `join` the thread is notified, or needs no notification.
abbrev pub Woken : TcpService → Phase → Owner → Type 0
Woken s p o = (s.terminate ≡ stopping o) × (o ≡ joins → WillLook p ⊎ (0 < s.notified))

module _ (k : Kernel) (others : List ℕ) where
  move-Woken :
      (p : Phase) (d : Address) (s : TcpService)
      → Owns others s
      → WillLook p ⊎ (0 < s.notified)
      → s.terminate ≡ true
      → let (t, q, e) = thread_move k p d s in WillLook q ⊎ (0 < t.notified)
  unfolding thread_move disconnect
  move-Woken not_started d s o h e = inl tt
  move-Woken tests d s o h e = rw e (inl tt)
  move-Woken reads d s o (inl l) e = absurd l
  move-Woken reads d s o (inr n) e = inr n
  move-Woken disconnects d s o (inl l) e = absurd l
  move-Woken disconnects d s o (inr n) e = inr n
  move-Woken opens d s o (inl l) e = absurd l
  move-Woken opens d s o (inr n) e =
      inr (subst (λ m. 0 < m) (sym (open_client-Outcome k s others o).1.2) n)
  move-Woken (connects []) d s o (inl l) e = absurd l
  move-Woken (connects []) d s o (inr n) e = inr n
  move-Woken (connects (c ∷ cs)) d s o (inl l) e = absurd l
  move-Woken (connects (c ∷ cs)) d s o (inr n) e =
      inr (subst (λ m. 0 < m) (sym (connect_step-Outcome k c s others o).1.2) n)
  move-Woken sleeps d s o h e = inl tt
  move-Woken waits d s o (inl l) e = absurd l
  move-Woken waits d s o (inr n) e = elim (Bool-cases (s.notified == 0)) [
    | inl z ↦ absurd (ground (arith, n, z))
    | inr z ↦ rw z (inl tt)
  ]
  move-Woken drains d s o h e = elim (Bool-cases (s.notified == 0)) [
    | inl z ↦ rw z (inl tt)
    | inr z ↦ rw z (inl tt)
  ]
  move-Woken leaves d s o h e = inl tt
  move-Woken done d s o h e = inl tt

  Called-Woken : (s t : TcpService) (p : Phase) (o : Owner) → Called s t → Woken s p o → Woken t p o
  Called-Woken s t p o c v = (
    c.terminate_kept ∙ v.0,
    λ j. elim (v.1 j) [ inl l ↦ inl l | inr n ↦ inr (omega (arith, n, c.grows)) ],
  )

  Step-Woken :
      (x y : TcpSystem)
      → Good others x
      → Woken x.service x.phase x.owner
      → Step k x y
      → Woken y.service y.phase y.owner
  unfolding thread_step create disconnect
  Step-Woken x y f v (creates conf r) = elim (Bool-cases x.service.is_created) [
    | inl e ↦ simp e v
    | inr e ↦ simp e (v.0, λ j. inl tt)
  ]
  Step-Woken x y f v (sends a manage bytes size) =
      Called-Woken x.service (service_send k a manage bytes size x.service).0 x.phase x.owner
        (service_send-Called k a manage bytes size x.service) v
  Step-Woken x y f v (receives a manage max_size) =
      Called-Woken x.service (service_receive k a manage max_size x.service).0 x.phase x.owner
        (service_receive-Called k a manage max_size x.service) v
  Step-Woken x y f v thread_moves =
      let (owns, made, term, stays, shut) =
        thread_move-Kept k others x.phase x.destination x.service f.owns f.idle in
      (
        term ∙ v.0,
        λ j. move-Woken x.phase x.destination x.service f.owns (v.1 j) (v.0 ∙ ap stopping j),
      )
  Step-Woken x y f v (wait_error w) = (v.0, λ j. inl tt)
  Step-Woken x y f v (destroys r) = (refl, λ j. cc)
  Step-Woken x y f v (destroy_disconnects r) = (v.0 ∙ ap stopping r, λ j. cc)
  Step-Woken x y f v (destroy_notifies r) = (v.0 ∙ ap stopping r, λ j. inr (omega arith))
  Step-Woken x y f v (destroy_joins r j) = (v.0 ∙ ap stopping r, λ e. cc)
  Step-Woken x y f v (destroy_resumes r) = (refl, λ e. cc)
  Step-Woken x y f v (destroy_unmarks r) = (v.0 ∙ ap stopping r, λ e. cc)
  Step-Woken x y f v (destroy_excuses r) = (v.0 ∙ ap stopping r, λ e. cc)
  Step-Woken x y f v (destroy_clears r) = (v.0 ∙ ap stopping r, λ e. cc)
  Step-Woken x y f v (destroy_forgets r) = (v.0 ∙ ap stopping r, λ e. cc)
  Step-Woken x y f v (destroy_unsets_ip r) = (v.0 ∙ ap stopping r, λ e. cc)
  Step-Woken x y f v (destroy_unsets_port r) = (v.0 ∙ ap stopping r, λ e. cc)

pub reachable-Woken :
    (k : Kernel) (w : World) (x : TcpSystem) → Reach k (begin w) x → Woken x.service x.phase x.owner
reachable-Woken k w x here = (refl, λ j. cc)
reachable-Woken k w x (next r m) =
    Step-Woken k w.descriptors _ x (reachable-Good k w _ r) (reachable-Woken k w _ r) m
