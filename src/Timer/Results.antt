-- ===== src/Timer/Results.antt =====
-- The values that `WaitForTick` returns.
use generic_target.Base.{
  Bool-cases, ℕ, ◌≡◌, refl, ◌⊎◌, inl, inr, true, false, Option, none, some, List, [], ◌∷◌,
}
use generic_target.Base.Int.{is_neg, ℤ, pos, negsuc}
use generic_target.Timer.{
  Event, cancelled, other, ticked, expirations, interrupted, failed, wait_interrupted, wait_failed,
  events, Look, look, PeriodicTimer, scan, wait_loop, wait_for_tick, returned,
}

-- 1 for a tick, 0 for the end, or a negative value for an error.
abbrev pub IsResult : Option ℤ → Type 0
IsResult none = Unit
IsResult (some x) = (x ≡ pos 1) ⊎ (x ≡ pos 0) ⊎ (is_neg x ≡ true)

scan-IsResult : (es : List Event) (t : PeriodicTimer) → IsResult (scan es t).1
unfolding scan
scan-IsResult [] t = tt
scan-IsResult (cancelled ∷ es) t = inr (inl refl)
scan-IsResult (other ∷ es) t = scan-IsResult es t
scan-IsResult (ticked (expirations n) true ∷ es) t = inl refl
scan-IsResult (ticked (expirations n) false ∷ es) t = inr (inl refl)
scan-IsResult (ticked interrupted true ∷ es) t = scan-IsResult es t
scan-IsResult (ticked interrupted false ∷ es) t = inr (inl refl)
scan-IsResult (ticked failed true ∷ es) t = inr (inr refl)
scan-IsResult (ticked failed false ∷ es) t = inr (inl refl)

returned-IsResult :
    (o : Option ℤ) (done rest : PeriodicTimer × Option ℤ)
    → IsResult done.1
    → IsResult rest.1
    → IsResult (returned o done rest).1
returned-IsResult none done rest d r = r
returned-IsResult (some x) done rest d r = d

wait_loop-IsResult : (ls : List Look) (t : PeriodicTimer) → IsResult (wait_loop ls t).1
unfolding wait_loop
wait_loop-IsResult [] t = tt
wait_loop-IsResult (look false w ∷ ls) t = inr (inl refl)
wait_loop-IsResult (look true wait_interrupted ∷ ls) t = wait_loop-IsResult ls t
wait_loop-IsResult (look true wait_failed ∷ ls) t = inr (inr refl)
wait_loop-IsResult (look true (events es) ∷ ls) t =
    returned-IsResult (scan es t).1 (scan es t) (wait_loop ls (scan es t).0) (scan-IsResult es t)
      (wait_loop-IsResult ls (scan es t).0)

pub wait_for_tick-IsResult : (ls : List Look) (t : PeriodicTimer) → IsResult (wait_for_tick ls t).1
unfolding wait_for_tick
wait_for_tick-IsResult ls t = elim (Bool-cases t.is_running) [
  | inr b ↦ simp b (inr (inl refl))
  | inl b ↦ simp b (by_descriptor t.timer_fd)
]
  where
    by_descriptor :
        (fd : Option ℕ)
        → IsResult
            (elim fd as (λ _. PeriodicTimer × Option ℤ) [
              | none ↦ (t, some (negsuc 0))
              | some n ↦ wait_loop ls t
            ]).1
    by_descriptor none = inr (inr refl)
    by_descriptor (some n) = wait_loop-IsResult ls t
