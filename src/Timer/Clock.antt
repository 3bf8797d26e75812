-- ===== src/Timer/Clock.antt =====
-- The ticks of the timer and those it reports as lost.
use generic_target.Base.{
  if◌then◌else◌, Bool-cases, length, All, ℕ, suc, ◌+◌, ◌%◌, ◌^◌, ◌≤◌, ◌≡◌, refl, ap, ◌≢◌, ◌⊎◌, inl,
  inr, Bool, true, false, Option, none, some, List, [], ◌∷◌, arith,
}
use generic_target.Base.Int.{eq_ℤ, ℤ, pos, negsuc}
use mathlib.Core.Path.{subst}
use generic_target.Timer.{
  Event, cancelled, other, ticked, expirations, interrupted, failed, wait_interrupted, wait_failed,
  events, Look, look, PeriodicTimer, count_read, scan, wait_loop, wait_for_tick, returned,
}

-- A timer that is read has expired at least once.
abbrev Expires : Event → Type 0
Expires cancelled = Unit
Expires other = Unit
Expires (ticked (expirations n) running) = 1 ≤ n
Expires (ticked interrupted running) = Unit
Expires (ticked failed running) = Unit

abbrev pub Genuine : Look → Type 0
Genuine (look running wait_interrupted) = Unit
Genuine (look running wait_failed) = Unit
Genuine (look running (events es)) = All Expires es

-- The difference of the expirations and the lost ticks grows by `n`, modulo 2 ^ 64.
abbrev pub Grows : ℕ → PeriodicTimer → PeriodicTimer → Type 0
Grows n t u = (u.expired + t.num_lost_ticks) % 2 ^ 64 ≡ (t.expired + u.num_lost_ticks + n) % 2 ^ 64

-- A call that returns a tick has one expiration that is not lost; one that returns another value
-- has one or changes nothing; one that still waits changes nothing.
abbrev pub Counted : PeriodicTimer → PeriodicTimer × Option ℤ → Type 0
Counted t (u, none) = u ≡ t
Counted t (u, some x) = (Grows 1 t u) ⊎ ((x ≢ pos 1) × (u ≡ t))

count_read-Grows : (n : ℕ) (t : PeriodicTimer) → 1 ≤ n → Grows 1 t (count_read n t)
unfolding count_read
count_read-Grows n t h = ground arith

scan-Counted : (es : List Event) (t : PeriodicTimer) → All Expires es → Counted t (scan es t)
unfolding scan
scan-Counted [] t v = refl
scan-Counted (cancelled ∷ es) t v = inr (λ e. cc, refl)
scan-Counted (other ∷ es) t v = scan-Counted es t v.1
scan-Counted (ticked (expirations n) running ∷ es) t v = inl (count_read-Grows n t v.0)
scan-Counted (ticked interrupted true ∷ es) t v = scan-Counted es t v.1
scan-Counted (ticked interrupted false ∷ es) t v = inr (λ e. cc, refl)
scan-Counted (ticked failed true ∷ es) t v = inr (λ e. cc, refl)
scan-Counted (ticked failed false ∷ es) t v = inr (λ e. cc, refl)

waits_on :
    (ls : List Look) (t : PeriodicTimer) (r : PeriodicTimer × Option ℤ)
    → Counted t r
    → ((u : PeriodicTimer) → Counted u (wait_loop ls u))
    → Counted t (returned r.1 r (wait_loop ls r.0))
waits_on ls t (u, none) c rest = subst (λ z. Counted z (wait_loop ls u)) c (rest u)
waits_on ls t (u, some x) c rest = c

wait_loop-Counted :
    (ls : List Look) (t : PeriodicTimer) → All Genuine ls → Counted t (wait_loop ls t)
unfolding wait_loop
wait_loop-Counted [] t v = refl
wait_loop-Counted (look false w ∷ ls) t v = inr (λ e. cc, refl)
wait_loop-Counted (look true wait_interrupted ∷ ls) t v = wait_loop-Counted ls t v.1
wait_loop-Counted (look true wait_failed ∷ ls) t v = inr (λ e. cc, refl)
wait_loop-Counted (look true (events es) ∷ ls) t v =
    waits_on ls t (scan es t) (scan-Counted es t v.0) (λ u. wait_loop-Counted ls u v.1)

pub wait_for_tick-Counted :
    (ls : List Look) (t : PeriodicTimer) → All Genuine ls → Counted t (wait_for_tick ls t)
unfolding wait_for_tick
wait_for_tick-Counted ls t v = elim (Bool-cases t.is_running) [
  | inr b ↦ simp b (inr (λ e. cc, refl))
  | inl b ↦ simp b (by_descriptor t.timer_fd)
]
  where
    by_descriptor :
        (fd : Option ℕ)
        → Counted t (elim fd [ none ↦ (t, some (negsuc 0)) | some n ↦ wait_loop ls t ])
    by_descriptor none = inr (λ e. cc, refl)
    by_descriptor (some n) = wait_loop-Counted ls t v

-- The master thread's calls, each with what it looks at, and whether all have returned a tick.
unfoldable pub tick_calls : List (List Look) → PeriodicTimer → PeriodicTimer × Bool
tick_calls [] t = (t, true)
tick_calls (ls ∷ calls) t =
    let (u, r) = wait_for_tick ls t in
    let rest : PeriodicTimer × Bool = tick_calls calls u in
    elim r [ none ↦ (u, false) | some x ↦ if eq_ℤ x (pos 1) then rest else (u, false) ]

eq_one : (x : ℤ) → eq_ℤ x (pos 1) ≡ true → x ≡ pos 1
eq_one (pos n) h = ap pos (ground arith)
eq_one (negsuc n) h = absurd (cc h)

Grows-add : (n : ℕ) (t u v : PeriodicTimer) → Grows 1 t u → Grows n u v → Grows (suc n) t v
Grows-add n t u v g h = omega (arith, g, h)

abbrev Continues : ℕ → PeriodicTimer → PeriodicTimer × Bool → Type 0
Continues n t (v, all) = all ≡ true → Grows n t v

next_call :
    (n : ℕ) (t u : PeriodicTimer) (r : Option ℤ) (rest : PeriodicTimer × Bool)
    → Counted t (u, r)
    → Continues n u rest
    → Continues
        (suc n)
        t
        (elim r [ none ↦ (u, false) | some x ↦ if eq_ℤ x (pos 1) then rest else (u, false) ])
next_call n t u none rest c d = λ h. absurd (cc h)
next_call n t u (some x) rest c d = elim (Bool-cases (eq_ℤ x (pos 1))) [
  | inr b ↦ rw b (λ h. absurd (cc h))
  | inl b ↦ rw b (λ h. Grows-add n t u rest.0 (ticked_once c (eq_one x b)) (d h))
]
  where
    ticked_once : Counted t (u, some x) → x ≡ pos 1 → Grows 1 t u
    ticked_once (inl g) e = g
    ticked_once (inr (m, g)) e = absurd (m e)

-- After any number of calls of `WaitForTick` that have all returned a tick, the expirations of the
-- timer since then are the ticks and the lost ticks that were counted, modulo 2 ^ 64. A read that
-- succeeds has at least one expiration.
pub ticks_counted :
    (calls : List (List Look)) (t : PeriodicTimer)
    → All (All Genuine) calls
    → (tick_calls calls t).1 ≡ true
    → ((tick_calls calls t).0.expired + t.num_lost_ticks) % 2 ^ 64
      ≡ (t.expired + (tick_calls calls t).0.num_lost_ticks + length calls) % 2 ^ 64
unfolding tick_calls
ticks_counted [] t v = λ h. omega arith
ticks_counted (ls ∷ calls) t v =
    next_call (length calls) t (wait_for_tick ls t).0 (wait_for_tick ls t).1
      (tick_calls calls (wait_for_tick ls t).0) (wait_for_tick-Counted ls t v.0)
      (ticks_counted calls (wait_for_tick ls t).0 v.1)
