-- ===== src/Scheduler/Ticks.antt =====
-- What the ticks of the master clock do to the tasks of the model.
use generic_target.Base.{
  All, ℕ, zero, suc, ◌+◌, ◌*◌, ◌<◌, ◌≡◌, refl, sym, ap, ◌↔◌, Bool, true, false, ◌&&◌, List, [], ◌∷◌,
  arith,
}
use generic_target.Base.Int.{is_neg, to_ℕ, ℤ, pos, negsuc}
use mathlib.Core.Path.{subst}
use generic_target.Task.{Task, StartReplies, new_task, start, count_down}
use generic_target.Task.Timing.{notify_times, due_iff}
use generic_target.Scheduler.{Timing, started_tasks, notify_all, ticks}

-- The ticks of the model are positive, its offsets not negative.
abbrev pub IsRegular : Timing → Type 0
IsRegular x =
    (is_neg x.sample_ticks ≡ false) × (is_neg x.offset_ticks ≡ false) × (0 < to_ℕ x.sample_ticks)

-- Whether the next tick, behind `n` others, is one of the task's.
abbrev DueAt : ℕ → Timing → Task → Type 0
DueAt n x t =
    ((count_down x.sample_ticks t).1 ≡ true)
    ↔ ((k : ℕ) × (n ≡ to_ℕ x.offset_ticks + k * to_ℕ x.sample_ticks))

abbrev pub AllDue : ℕ → List Timing → List Task → Type 0
AllDue n [] [] = Unit
AllDue n [] (t ∷ ts) = ⊥
AllDue n (x ∷ xs) [] = ⊥
AllDue n (x ∷ xs) (t ∷ ts) = DueAt n x t × AllDue n xs ts

ticks-cons :
    (x : Timing) (xs : List Timing) (n : ℕ) (t : Task) (ts : List Task)
    → ticks (x ∷ xs) n (t ∷ ts) ≡ notify_times x.sample_ticks (λ _. false) n t ∷ ticks xs n ts
unfolding ticks notify_all notify_times
ticks-cons x xs zero t ts = refl
ticks-cons x xs (suc n) t ts = ap (notify_all (x ∷ xs)) (ticks-cons x xs n t ts)

ticks-nil : (n : ℕ) → ticks [] n [] ≡ []
unfolding ticks notify_all
ticks-nil zero = refl
ticks-nil (suc n) = ap (notify_all []) (ticks-nil n)

started-DueAt :
    (n : ℕ) (r : StartReplies) (p o : ℤ) (t : Task)
    → is_neg p ≡ false
    → is_neg o ≡ false
    → 0 < to_ℕ p
    → start r o new_task ≡ (t, true)
    → ((count_down p (notify_times p (λ _. false) n t)).1 ≡ true)
      ↔ ((k : ℕ) × (n ≡ to_ℕ o + k * to_ℕ p))
started-DueAt n r (pos p) (pos o) t a b h e = due_iff r p o n (λ _. false) new_task t h e
started-DueAt n r (pos p) (negsuc o) t a b h e = absurd (cc b)
started-DueAt n r (negsuc p) o t a b h e = absurd (cc a)

both : (a b : Bool) → (a && b) ≡ true → (a ≡ true) × (b ≡ true)
both a b h = ground arith

-- When all worker threads of the model have started: at the tick behind the first `n`, whatever `n`
-- is, every task of the model is due exactly if `n` is its offset or lies a multiple of its sample
-- ticks behind it. The sample ticks are positive and the offsets not negative.
pub started_tasks-AllDue :
    (xs : List Timing) (n : ℕ)
    → All IsRegular xs
    → (started_tasks xs).1 ≡ true
    → AllDue n xs (ticks xs n (started_tasks xs).0)
unfolding started_tasks
started_tasks-AllDue [] n v h = subst (AllDue n []) (sym (ticks-nil n)) tt
started_tasks-AllDue (x ∷ xs) n v h =
    let (a, b) = both (start x.replies x.offset_ticks new_task).1 (started_tasks xs).1 h in
    subst (AllDue n (x ∷ xs))
      (sym (ticks-cons x xs n (start x.replies x.offset_ticks new_task).0 (started_tasks xs).0))
      (
        started-DueAt n x.replies x.sample_ticks x.offset_ticks
            (start x.replies x.offset_ticks new_task).0 v.0.0 v.0.1 v.0.2
            (ap (λ b. ((start x.replies x.offset_ticks new_task).0, b)) a),
        started_tasks-AllDue xs n v.1 b,
      )
