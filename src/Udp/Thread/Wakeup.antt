-- ===== src/Udp/Thread/Wakeup.antt =====
-- The management thread is not left waiting.
use generic_target.Base.{
  ltb, ◌==◌, if◌then◌else◌, Bool-cases, length, ◌<◌, ◌≡◌, refl, sym, ◌≢◌, inl, inr, true, false,
  not, ◌&&◌, List, arith,
}
use generic_target.Base.Int.{ℤ}
use mathlib.Core.Path.{subst}
use generic_target.Net.Sockets.{Kernel}
use generic_target.Udp.{UdpService, create, new_service}
use generic_target.Services.{Entry, with_new}
use generic_target.Udp.Manager.{
  UdpServiceManager, add_service, manager_send_to, manager_receive_from, notify_thread,
}
use generic_target.Udp.Thread.{
  Phase, absent, waits, drains, tests, binds, sleeps, done, UdpSystem, thread_move, add,
  begin_clear, end_clear, Step, adds, sends, receives, clears, joins, thread_moves, Reach, here,
  next,
}

-- The thread's event is notified where it waits with its mark cleared, or while the services are
-- cleared; `m_terminate` is set exactly then.
abbrev Woken : UdpServiceManager → Phase → Type 0
Woken m p = p ≡ waits → m.thread_started ≡ false → 0 < m.notified

pub record Inv (x : UdpSystem) : Type 0 where
  pub woken : Woken x.manager x.phase
  pub cleared : x.clearing ≡ true → x.phase ≡ waits → 0 < x.manager.notified
  pub flagged : x.terminate ≡ x.clearing

module _ (kernel : ℤ → Kernel) where
  away : (x : UdpSystem) → x.phase ≢ waits → x.terminate ≡ x.clearing → Inv x
  away x n f = record { woken = λ w. absurd (n w); cleared = λ c w. absurd (n w); flagged = f }

  -- `SendTo` and `ReceiveFrom` clear the mark and notify, whatever they do to the service.
  notify-Inv :
      (x : UdpSystem) (es : List (Entry UdpService))
      → x.clearing ≡ false
      → Inv x
      → Inv (record x { manager = record (notify_thread kernel x.manager) { services = es } })
  notify-Inv x es c v = elim (Bool-cases x.manager.thread_started) [
    | inl s ↦ simp s (record {
      woken = λ w u. omega arith;
      cleared = λ t. absurd (cc (c, t));
      flagged = v.flagged;
    })
    | inr s ↦ simp s (record {
      woken = λ w u. v.woken w s;
      cleared = λ t. absurd (cc (c, t));
      flagged = v.flagged;
    })
  ]

  thread_move-Inv : (p : Phase) (x : UdpSystem) → x.phase ≡ p → Inv x → Inv (thread_move kernel p x)
  unfolding thread_move
  thread_move-Inv absent x e v = v
  thread_move-Inv waits x e v = elim (Bool-cases (x.manager.notified == 0)) [
    | inl b ↦ simp b v
    | inr b ↦
        simp b (record { woken = λ w. cc; cleared = λ c w. absurd (cc w); flagged = v.flagged })
  ]
  thread_move-Inv drains x e v = elim (Bool-cases (x.manager.notified == 0)) [
    | inl b ↦ simp b (away (record x { phase = tests }) (λ w. cc w) v.flagged)
    | inr b ↦ simp b (away _ (λ w. cc (w, e)) v.flagged)
  ]
  thread_move-Inv tests x e v = elim (Bool-cases x.terminate) [
    | inl b ↦
        subst (λ c. Inv (record x { phase = if c then done else binds 0 true })) (sym b)
          (away (record x { phase = done }) (λ w. cc w) v.flagged)
    | inr b ↦
        subst (λ c. Inv (record x { phase = if c then done else binds 0 true })) (sym b)
          (away (record x { phase = binds 0 true }) (λ w. cc w) v.flagged)
  ]
  thread_move-Inv (binds n all) x e v = elim (Bool-cases (ltb n (length x.manager.services))) [
    | inl b ↦ simp b (away _ (λ w. cc w) v.flagged)
    | inr b ↦ elim (Bool-cases all) [
      | inl a ↦ simp (a, b) (away (record x { phase = done }) (λ w. cc w) v.flagged)
      | inr a ↦ simp (a, b) (away (record x { phase = sleeps }) (λ w. cc w) v.flagged)
    ]
  ]
  thread_move-Inv sleeps x e v = record {
    woken = λ w. absurd (cc w);
    cleared = λ c w. absurd (cc w);
    flagged = v.flagged;
  }
  thread_move-Inv done x e v = v

  Step-Inv : {x y : UdpSystem} → Step kernel x y → y.manager.terminated ≡ false → Inv x → Inv y
  unfolding manager_send_to manager_receive_from add add_service begin_clear end_clear
  Step-Inv {x} (adds id conf c) alive v =
      elim (Bool-cases (
        not x.manager.thread_started
        && (with_new (create (kernel id) conf) new_service id x.manager.services).1)) [
          | inl b ↦ simp b (record {
            woken = λ w u. absurd (cc u);
            cleared = λ t. absurd (cc (c, t));
            flagged = v.flagged;
          })
          | inr b ↦
              simp b
                (record { woken = v.woken; cleared = λ t. absurd (cc (c, t)); flagged = v.flagged })
        ]
  Step-Inv {x} (sends id dest bytes size c) alive v = notify-Inv x _ c v
  Step-Inv {x} (receives id size groups c) alive v = notify-Inv x _ c v
  Step-Inv {x} (clears c) alive v = record {
    woken = λ w u. omega arith;
    cleared = λ t w. omega arith;
    flagged = refl;
  }
  Step-Inv {x} (joins c j) alive v = away _ (λ w. cc w) refl
  Step-Inv {x} thread_moves alive v = thread_move-Inv x.phase x refl v

  pub Reach-Inv : {x : UdpSystem} → Reach kernel x → Inv x
  Reach-Inv here = record {
    woken = λ w. absurd (cc w);
    cleared = λ c. absurd (cc c);
    flagged = refl;
  }
  Reach-Inv (next r m alive) = Step-Inv m alive (Reach-Inv r)
