-- ===== src/Udp/Thread/Ends.antt =====
-- `ClearAllServices` joins the management thread.
use generic_target.Base.{
  ltb, ◌==◌, if◌then◌else◌, ltb→lt, Bool-cases, length, ℕ, zero, suc, ◌+◌, ◌-◌, ◌≤◌, ◌<◌, ◌≡◌, refl,
  sym, ap, ◌∙◌, inl, inr, true, false, List, [], ◌∷◌, arith,
}
use generic_target.Base.Int.{ℤ}
use mathlib.Core.Path.{subst}
use generic_target.Net.Sockets.{Kernel}
use generic_target.Services.{Entry}
use generic_target.Udp.{UdpService}
use generic_target.Udp.Manager.{UdpServiceManager}
use generic_target.Udp.Thread.{
  Phase, absent, waits, drains, tests, binds, sleeps, done, UdpSystem, bind_at, thread_move,
  run_thread, joined, Reach,
}
use generic_target.Udp.Thread.Wakeup.{Reach-Inv}

-- Enough moves for the thread to end from a phase, once `m_terminate` is set.
abbrev pub left : UdpServiceManager → Phase → ℕ
left m absent = 0
left m waits = m.notified + 3
left m drains = m.notified + 2
left m tests = 1
left m (binds n all) = (length m.services - n) + 4
left m sleeps = 2
left m done = 0

abbrev pub moves_left : UdpSystem → ℕ
moves_left x = left x.manager x.phase

-- The thread has been told to end, and can see it.
abbrev Told : UdpSystem → Type 0
Told x = (x.terminate ≡ true) × (x.phase ≡ waits → 0 < x.manager.notified)

module _ (kernel : ℤ → Kernel) where
  pub length-bind_at :
      (n : ℕ) (es : List (Entry UdpService)) → length (bind_at kernel n es).0 ≡ length es
  unfolding bind_at
  length-bind_at n [] = refl
  length-bind_at zero (e ∷ es) = refl
  length-bind_at (suc n) (e ∷ es) = ap suc (length-bind_at n es)

  -- A move brings the thread nearer to its end.
  abbrev Nearer : Phase → UdpSystem → Type 0
  Nearer p x =
      Told (thread_move kernel p x)
      × (left (thread_move kernel p x).manager (thread_move kernel p x).phase < left x.manager p)

  move-Nearer : (p : Phase) (x : UdpSystem) → x.phase ≡ p → joined p ≡ false → Told x → Nearer p x
  unfolding thread_move
  move-Nearer absent x e j w = absurd (cc j)
  move-Nearer done x e j w = absurd (cc j)
  move-Nearer waits x e j (t, h) =
      let b : (x.manager.notified == 0) ≡ false = ground (arith, h e) in
      let more = h e in simp b ((t, λ f. absurd (cc f)), omega arith)
  move-Nearer drains x e j (t, h) = elim (Bool-cases (x.manager.notified == 0)) [
    | inl b ↦ simp b ((t, λ f. absurd (cc f)), omega arith)
    | inr b ↦
        let more : 0 < x.manager.notified = ground (arith, b) in
        simp b (
          (t, λ f. absurd (cc (f, e))),
          subst
              (λ p.
                left (record (x.manager) { notified = x.manager.notified - 1 }) p
                < x.manager.notified + 2)
              (sym e) (omega (arith, more)),
        )
  ]
  move-Nearer tests x e j (t, h) =
      subst
        (λ c.
          Told (record x { phase = if c then done else binds 0 true })
          × (left x.manager (if c then done else binds 0 true) < 1))
        (sym t) ((t, λ f. absurd (cc f)), omega arith)
  move-Nearer (binds n all) x e j (t, h) = elim (Bool-cases (ltb n (length x.manager.services))) [
    | inl b ↦
        simp b (
          (t, λ f. absurd (cc f)),
          omega (arith, length-bind_at n x.manager.services, ltb→lt n _ b),
        )
    | inr b ↦ elim (Bool-cases all) [
      | inl a ↦ simp (a, b) ((t, λ f. absurd (cc f)), omega arith)
      | inr a ↦ simp (a, b) ((t, λ f. absurd (cc f)), omega arith)
    ]
  ]
  move-Nearer sleeps x e j (t, h) = ((t, λ f. absurd (cc f)), omega arith)

  still : (p : Phase) (x : UdpSystem) → joined p ≡ true → thread_move kernel p x ≡ x
  unfolding thread_move
  still absent x j = refl
  still waits x j = absurd (cc j)
  still drains x j = absurd (cc j)
  still tests x j = absurd (cc j)
  still (binds n all) x j = absurd (cc j)
  still sleeps x j = absurd (cc j)
  still done x j = refl

  pub stays : (n : ℕ) (x : UdpSystem) → joined x.phase ≡ true → run_thread kernel n x ≡ x
  unfolding run_thread
  stays zero x j = refl
  stays (suc n) x j = ap (run_thread kernel n) (still x.phase x j) ∙ stays n x j

  Told-Ends :
      (n : ℕ) (x : UdpSystem)
      → Told x
      → moves_left x ≤ n
      → joined (run_thread kernel n x).phase ≡ true
  unfolding run_thread
  Told-Ends zero x w h = elim (Bool-cases (joined x.phase)) [
    | inl j ↦ j
    | inr j ↦ absurd (omega (arith, h, (move-Nearer x.phase x refl j w).1))
  ]
  Told-Ends (suc n) x w h = elim (Bool-cases (joined x.phase)) [
    | inl j ↦ ap (λ y. joined y.phase) (stays (suc n) x j) ∙ j
    | inr j ↦
        let near = move-Nearer x.phase x refl j w in
        Told-Ends n (thread_move kernel x.phase x) near.0 (omega (arith, h, near.1))
  ]

  -- `join` in `ClearAllServices` always returns: wherever the management thread is by then, however
  -- the calls of the manager were interleaved with it and whatever the system answers, it ends within
  -- `moves_left` of its moves.
  pub clear-Ends :
      (x : UdpSystem) (n : ℕ)
      → Reach kernel x
      → x.clearing ≡ true
      → moves_left x ≤ n
      → joined (run_thread kernel n x).phase ≡ true
  clear-Ends x n r c h = let v = Reach-Inv kernel r in Told-Ends n x (v.flagged ∙ c, v.cleared c) h
