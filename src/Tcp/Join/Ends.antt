-- ===== src/Tcp/Join/Ends.antt =====
-- The moves that the management thread of `TCPClientService` has left at `join`.
use generic_target.Base.{
  ◌==◌, if◌then◌else◌, Bool-cases, length, ℕ, zero, suc, ◌+◌, ◌-◌, ◌≤◌, ◌<◌, ◌≡◌, refl, sym, ap,
  ◌∙◌, ◌⊎◌, inl, inr, true, false, not, ◌||◌, List, [], ◌∷◌, arith,
}
use mathlib.Core.Path.{subst}
use generic_target.Net.Sockets.{Kernel, World}
use generic_target.Net.Addresses.{Address, same_address}
use generic_target.Tcp.{
  TcpService, disconnect, open_client, connect_step, is_connect_command, ConnectCall, connect_calls,
}
use generic_target.Tcp.Connect.{Owns, disconnect-Owns, connect_step-Outcome, open_client-Outcome}
use generic_target.Tcp.Invariant.{begin, reachable-Good}
use generic_target.Tcp.Join.{WillLook, reachable-Woken, stopping}
use generic_target.Tcp.Thread.{
  Phase, not_started, tests, reads, disconnects, opens, connects, sleeps, waits, drains, leaves,
  done, joins, TcpSystem, thread_move, joined, run_thread, moves_left, Reach,
}

some_left : (n : ℕ) (s : TcpService) → s.notified ≡ suc n → (s.notified == 0) ≡ false
some_left n s z = ground arith

module _ (k : Kernel) (others : List ℕ) where
  -- From `m` moves on, the thread has ended.
  abbrev EndsIn : ℕ → TcpService × Phase × Address → Type 0
  EndsIn m r = (n : ℕ) → m ≤ n → joined (run_thread k n r).1 ≡ true

  EndsIn-step :
      (m m' : ℕ) (p : Phase) (d : Address) (s : TcpService)
      → m < m'
      → EndsIn m (thread_move k p d s)
      → EndsIn m' (s, p, d)
  unfolding run_thread
  EndsIn-step m m' p d s less h zero l = absurd (omega (arith, l, less))
  EndsIn-step m m' p d s less h (suc n) l = h n (omega (arith, l, less))

  not_started-Ends : (m : ℕ) (d : Address) (s : TcpService) → EndsIn m (s, not_started, d)
  unfolding run_thread thread_move
  not_started-Ends m d s zero l = refl
  not_started-Ends m d s (suc n) l = not_started-Ends 0 d s n (omega arith)

  done-Ends : (m : ℕ) (d : Address) (s : TcpService) → EndsIn m (s, done, d)
  unfolding run_thread thread_move
  done-Ends m d s zero l = refl
  done-Ends m d s (suc n) l = done-Ends 0 d s n (omega arith)

  leaves-Ends : (d : Address) (s : TcpService) → EndsIn 1 (s, leaves, d)
  unfolding thread_move
  leaves-Ends d s = EndsIn-step 0 1 leaves d s (omega arith) (done-Ends 0 d (disconnect k s))

  tests-Ends : (d : Address) (s : TcpService) → s.terminate ≡ true → EndsIn 2 (s, tests, d)
  unfolding thread_move
  tests-Ends d s e =
      EndsIn-step 1 2 tests d s (omega arith)
        (subst (λ b. EndsIn 1 (s, (if b then leaves else reads), d)) (sym e) (leaves-Ends d s))

  sleeps-Ends : (d : Address) (s : TcpService) → s.terminate ≡ true → EndsIn 3 (s, sleeps, d)
  unfolding thread_move
  sleeps-Ends d s e = EndsIn-step 2 3 sleeps d s (omega arith) (tests-Ends d s e)

  drains-Ends :
      (n : ℕ) (d : Address) (s : TcpService)
      → s.notified ≡ n
      → s.terminate ≡ true
      → EndsIn (n + 3) (s, drains, d)
  unfolding thread_move
  drains-Ends zero d s z e = EndsIn-step 2 3 drains d s (omega arith) (simp z (tests-Ends d s e))
  drains-Ends (suc n) d s z e = EndsIn-step (n + 3) (suc n + 3) drains d s (omega arith) (
      simp (some_left n s z)
        (drains-Ends n d (record s { notified = s.notified - 1 }) (omega (arith, z)) e))

  waits-Ends :
      (n : ℕ) (d : Address) (s : TcpService)
      → s.notified ≡ n
      → 0 < n
      → s.terminate ≡ true
      → EndsIn (n + 3) (s, waits, d)
  unfolding thread_move
  waits-Ends zero d s z l e = absurd (omega (arith, l))
  waits-Ends (suc n) d s z l e = EndsIn-step (n + 3) (suc n + 3) waits d s (omega arith) (
      simp (some_left n s z)
        (drains-Ends n d (record s { notified = s.notified - 1 }) (omega (arith, z)) e))

  connects-Ends :
      (cs : List ConnectCall) (d : Address) (s : TcpService)
      → Owns others s
      → 0 < s.notified
      → s.terminate ≡ true
      → EndsIn (length cs + s.notified + 4) (s, connects cs, d)
  unfolding thread_move
  connects-Ends [] d s o l e =
      EndsIn-step (s.notified + 3) (0 + s.notified + 4) (connects []) d s (omega arith)
        (waits-Ends s.notified d (record s { is_connected = true }) refl l e)
  connects-Ends (c ∷ cs) d s o l e =
      let (owns, q, kept) = connect_step-Outcome k c s others o in
      let same : (connect_step k c s).0.notified ≡ s.notified = q.2 in
      let term : (connect_step k c s).0.terminate ≡ true = q.3 ∙ e in
      elim (Bool-cases (connect_step k c s).1) [
        | inl b ↦
            EndsIn-step (length cs + (connect_step k c s).0.notified + 4)
              (length (c ∷ cs) + s.notified + 4) (connects (c ∷ cs)) d s (omega (arith, same))
              (rw b (connects-Ends cs d (connect_step k c s).0 owns (omega (arith, l, same)) term))
        | inr b ↦
            EndsIn-step 3 (length (c ∷ cs) + s.notified + 4) (connects (c ∷ cs)) d s (omega arith)
              (rw b (sleeps-Ends d (connect_step k c s).0 term))
      ]

  opens-Ends :
      (d : Address) (s : TcpService)
      → Owns others s
      → 0 < s.notified
      → s.terminate ≡ true
      → EndsIn (s.notified + 12) (s, opens, d)
  unfolding thread_move
  opens-Ends d s o l e =
      let (owns, q, opened) = open_client-Outcome k s others o in
      let same : (open_client k s).0.notified ≡ s.notified = q.2 in
      let term : (open_client k s).0.terminate ≡ true = q.3 ∙ e in
      elim (Bool-cases (open_client k s).1) [
        | inl b ↦
            EndsIn-step (7 + (open_client k s).0.notified + 4) (s.notified + 12) opens d s
              (omega (arith, same))
              (rw b (
                connects-Ends (connect_calls (open_client k s).0.active_conf d) d
                  (open_client k s).0 owns (omega (arith, l, same)) term))
        | inr b ↦
            EndsIn-step 3 (s.notified + 12) opens d s (omega arith)
              (rw b (sleeps-Ends d (open_client k s).0 term))
      ]

  disconnects-Ends :
      (d : Address) (s : TcpService)
      → Owns others s
      → 0 < s.notified
      → s.terminate ≡ true
      → EndsIn (s.notified + 13) (s, disconnects, d)
  unfolding thread_move disconnect
  disconnects-Ends d s o l e = elim (Bool-cases (is_connect_command d)) [
    | inl b ↦
        EndsIn-step (s.notified + 12) (s.notified + 13) disconnects d s (omega arith)
          (rw b (opens-Ends d (disconnect k s) (disconnect-Owns k s others o) l e))
    | inr b ↦
        EndsIn-step (s.notified + 3) (s.notified + 13) disconnects d s (omega arith)
          (rw b (waits-Ends s.notified d (disconnect k s) refl l e))
  ]

  reads-Ends :
      (d : Address) (s : TcpService)
      → Owns others s
      → 0 < s.notified
      → s.terminate ≡ true
      → EndsIn (s.notified + 14) (s, reads, d)
  unfolding thread_move
  reads-Ends d s o l e =
      elim (Bool-cases (not s.is_connected || not (same_address d s.commanded_address))) [
        | inl b ↦
            EndsIn-step (s.notified + 13) (s.notified + 14) reads d s (omega arith)
              (simp b (disconnects-Ends s.commanded_address s o l e))
        | inr b ↦
            EndsIn-step (s.notified + 3) (s.notified + 14) reads d s (omega arith)
              (simp b (waits-Ends s.notified s.commanded_address s refl l e))
      ]

  more : (m m' : ℕ) (r : TcpService × Phase × Address) → m ≤ m' → EndsIn m r → EndsIn m' r
  more m m' r l h n le = h n (omega (arith, l, le))

  thread-Ends :
      (p : Phase) (d : Address) (s : TcpService)
      → Owns others s
      → s.terminate ≡ true
      → WillLook p ⊎ (0 < s.notified)
      → EndsIn (moves_left p s.notified) (s, p, d)
  thread-Ends not_started d s o e w = not_started-Ends (s.notified + 14) d s
  thread-Ends tests d s o e w =
      more 2 (s.notified + 14) (s, tests, d) (omega arith) (tests-Ends d s e)
  thread-Ends reads d s o e (inl w) = absurd w
  thread-Ends reads d s o e (inr l) = reads-Ends d s o l e
  thread-Ends disconnects d s o e (inl w) = absurd w
  thread-Ends disconnects d s o e (inr l) =
      more (s.notified + 13) (s.notified + 14) (s, disconnects, d) (omega arith)
        (disconnects-Ends d s o l e)
  thread-Ends opens d s o e (inl w) = absurd w
  thread-Ends opens d s o e (inr l) =
      more (s.notified + 12) (s.notified + 14) (s, opens, d) (omega arith) (opens-Ends d s o l e)
  thread-Ends (connects cs) d s o e (inl w) = absurd w
  thread-Ends (connects cs) d s o e (inr l) = connects-Ends cs d s o l e
  thread-Ends sleeps d s o e w =
      more 3 (s.notified + 14) (s, sleeps, d) (omega arith) (sleeps-Ends d s e)
  thread-Ends waits d s o e (inl w) = absurd w
  thread-Ends waits d s o e (inr l) =
      more (s.notified + 3) (s.notified + 14) (s, waits, d) (omega arith)
        (waits-Ends s.notified d s refl l e)
  thread-Ends drains d s o e w =
      more (s.notified + 3) (s.notified + 14) (s, drains, d) (omega arith)
        (drains-Ends s.notified d s refl e)
  thread-Ends leaves d s o e w =
      more 1 (s.notified + 14) (s, leaves, d) (omega arith) (leaves-Ends d s)
  thread-Ends done d s o e w = done-Ends (s.notified + 14) d s

-- `join` in `Destroy` always returns: wherever the management thread is by then, and whatever the
-- system answers, it ends within `moves_left` of its moves.
pub join-Ends :
    (k : Kernel) (w : World) (x : TcpSystem) (n : ℕ)
    → Reach k (begin w) x
    → x.owner ≡ joins
    → moves_left x.phase x.service.notified ≤ n
    → joined (run_thread k n (x.service, x.phase, x.destination)).1 ≡ true
join-Ends k w x n r at_join =
    let v = reachable-Woken k w x r in
    thread-Ends k w.descriptors x.phase x.destination x.service (reachable-Good k w x r).owns
      (v.0 ∙ ap stopping at_join) (v.1 at_join) n
