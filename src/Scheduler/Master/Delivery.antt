-- ===== src/Scheduler/Master/Delivery.antt =====
-- What becomes of the expirations of the base rate timer.
use generic_target.Base.{
  ◌==◌, Bool-cases, All, ℕ, zero, suc, ◌+◌, ◌≡◌, refl, sym, ap, ◌∙◌, ◌≢◌, ◌⊎◌, inl, inr, Bool,
  false, Option, none, some, List, [], ◌∷◌, arith,
}
use generic_target.Base.Int.{to_ℕ, ℤ, pos, negsuc}
use mathlib.Core.Path.{subst}
use generic_target.Task.{Task}
use generic_target.Timer.{PeriodicTimer, wait_for_tick}
use generic_target.Timer.Clock.{Genuine, Grows, Counted, wait_for_tick-Counted}
use generic_target.Timer.Results.{IsResult, wait_for_tick-IsResult}
use generic_target.Scheduler.{Timing, BaseRateScheduler, notify_all, ticks}
use generic_target.Scheduler.Master.{
  Round, MasterState, loops, ended, failed, behind_wait, master_loop,
}

ticks-notify_all :
    (xs : List Timing) (n : ℕ) (ts : List Task)
    → ticks xs n (notify_all xs ts) ≡ ticks xs (suc n) ts
unfolding ticks
ticks-notify_all xs zero ts = refl
ticks-notify_all xs (suc n) ts = ap (notify_all xs) (ticks-notify_all xs n ts)

-- Every task has got `n` ticks; the expirations are these and the lost ones, or one more, which a
-- thread that has ended has read.
abbrev pub Delivered : List Timing → BaseRateScheduler → BaseRateScheduler × MasterState → Type 0
Delivered xs s (u, e) =
    (n : ℕ) × (u.tasks ≡ ticks xs n s.tasks)
    × (Grows n s.master_clock u.master_clock
        ⊎ ((e ≢ loops) × Grows (n + 1) s.master_clock u.master_clock))

-- A thread that ends behind a call of `WaitForTick`.
ends-Delivered :
    (xs : List Timing) (s : BaseRateScheduler) (clock : PeriodicTimer) (x : ℤ) (e : MasterState)
    → e ≢ loops
    → Counted s.master_clock (clock, some x)
    → Delivered xs s (record s { master_clock = clock }, e)
unfolding ticks
ends-Delivered xs s clock x e m (inl g) = (0, refl, inr (m, g))
ends-Delivered xs s clock x e m (inr (d, same)) =
    (0, refl, inl (subst (λ c. Grows 0 s.master_clock c) (sym same) (omega arith)))

-- A round that goes on.
next-Delivered :
    (xs : List Timing) (s : BaseRateScheduler) (clock : PeriodicTimer)
    (r : BaseRateScheduler × MasterState)
    → Grows 1 s.master_clock clock
    → Delivered xs (record s { master_clock = clock; tasks = notify_all xs s.tasks }) r
    → Delivered xs s r
next-Delivered xs s clock r g (n, t, counts) = (
  suc n,
  t ∙ ticks-notify_all xs n s.tasks,
  elim counts [ inl h ↦ inl (omega (arith, g, h)) | inr h ↦ inr (h.0, omega (arith, g, h.1)) ],
)

ended-loops : ended ≢ loops
ended-loops = λ e. cc

failed-loops : failed ≢ loops
failed-loops = λ e. cc

module _ (xs : List Timing) where
  behind_wait-Delivered :
      (behind : Bool) (s : BaseRateScheduler) (clock : PeriodicTimer) (o : Option ℤ)
      (rest : BaseRateScheduler × MasterState)
      → Counted s.master_clock (clock, o)
      → IsResult o
      → Delivered xs (record s { master_clock = clock; tasks = notify_all xs s.tasks }) rest
      → Delivered xs s (behind_wait behind s clock o rest)
  unfolding ticks
  behind_wait-Delivered behind s clock none rest c v d =
      (0, refl, inl (subst (λ c. Grows 0 s.master_clock c) (sym c) (omega arith)))
  behind_wait-Delivered behind s clock (some (negsuc m)) rest c v d =
      ends-Delivered xs s clock (negsuc m) failed failed-loops c
  behind_wait-Delivered behind s clock (some (pos m)) rest c v d = elim (Bool-cases (m == 0)) [
    | inl z ↦ rw z (ends-Delivered xs s clock (pos m) ended ended-loops c)
    | inr z ↦ elim (Bool-cases behind) [
      | inl b ↦ rw (z, b) (ends-Delivered xs s clock (pos m) ended ended-loops c)
      | inr b ↦ rw (z, b) (next-Delivered xs s clock rest (one m c v z) d)
    ]
  ]
    where
      one :
          (m : ℕ)
          → Counted s.master_clock (clock, some (pos m))
          → IsResult (some (pos m))
          → (m == 0) ≡ false
          → Grows 1 s.master_clock clock
      one m (inl g) v z = g
      one m (inr (d, same)) (inl e) z = absurd (d e)
      one m (inr (d, same)) (inr (inl e)) z = absurd (ground (arith, ap to_ℕ e, z))
      one m (inr (d, same)) (inr (inr e)) z = absurd (cc e)

  -- Every expiration of the base rate timer that the master thread reads is delivered to every task
  -- of the model, each in its order, or counted as lost (modulo 2 ^ 64), but for at most one, which
  -- the thread reads when it ends. A read that succeeds has at least one expiration.
  pub master_loop-Delivered :
      (rs : List Round) (s : BaseRateScheduler)
      → All (λ r. All Genuine r.looks) rs
      → Delivered xs s (master_loop xs rs s)
  unfolding master_loop ticks
  master_loop-Delivered [] s v = (0, refl, inl (omega arith))
  master_loop-Delivered (r ∷ rs) s v =
      let (clock, o) = wait_for_tick r.looks s.master_clock in
      let t : BaseRateScheduler = record s {
        master_clock = clock;
        tasks = notify_all xs s.tasks;
      } in
      elim (Bool-cases r.terminate_before) [
        | inl e ↦ simp e (0, refl, inl (omega arith))
        | inr e ↦ simp e (
            behind_wait-Delivered r.terminate_behind s clock o (master_loop xs rs t)
              (wait_for_tick-Counted r.looks s.master_clock v.0)
              (wait_for_tick-IsResult r.looks s.master_clock) (master_loop-Delivered rs t v.1))
      ]
