-- ===== src/Drivers/Tasks/Lookup.antt =====
-- The overloads that a block reads for a task by its name.
use generic_target.Base.{
  take, get_elem?, All, ℕ, zero, suc, ◌+◌, ◌≡◌, refl, ap, ◌∙◌, true, false, none, some, List, [],
  ◌∷◌, arith,
}
use generic_target.Base.Bytes.{same_bytes}
use generic_target.Task.{Task}
use generic_target.Scheduler.{BaseRateScheduler, get_num_task_overloads}
use generic_target.Drivers.Tasks.{find_task, num_task_overloads_step}

-- No name before index `i` is `name`, and the one at `i` is.
abbrev pub FirstAt : List ℕ → ℕ → List (List ℕ) → Type 0
FirstAt name i [] = ⊥
FirstAt name zero (n ∷ names) = same_bytes name n ≡ true
FirstAt name (suc i) (n ∷ names) = (same_bytes name n ≡ false) × FirstAt name i names

abbrev pub Nowhere : List ℕ → List (List ℕ) → Type 0
Nowhere name = All (λ n. same_bytes name n ≡ false)

pub find_task-FirstAt :
    (name : List ℕ) (id i : ℕ) (names : List (List ℕ))
    → FirstAt name i names
    → find_task name id names ≡ some (id + i)
unfolding find_task
find_task-FirstAt name id zero [] h = absurd h
find_task-FirstAt name id (suc i) [] h = absurd h
find_task-FirstAt name id zero (n ∷ names) h = rw h (ap some (omega arith))
find_task-FirstAt name id (suc i) (n ∷ names) (d, h) =
    rw d (find_task-FirstAt name (id + 1) i names h ∙ ap some (omega arith))

pub find_task-Nowhere :
    (name : List ℕ) (id : ℕ) (names : List (List ℕ))
    → Nowhere name names
    → find_task name id names ≡ none
unfolding find_task
find_task-Nowhere name id [] h = refl
find_task-Nowhere name id (n ∷ names) (d, h) = rw d (find_task-Nowhere name (id + 1) names h)

-- The step returns the overloads of the first task with the name, where the scheduler has it, and 0
-- for a name that no task has.
pub num_task_overloads_step-first :
    (names : List (List ℕ)) (name : List ℕ) (n i : ℕ) (t : Task) (s : BaseRateScheduler)
    → (FirstAt (take n name) i names
        → get_elem? s.tasks i ≡ some t
        → num_task_overloads_step names name n s ≡ t.num_task_overloads)
      × (Nowhere (take n name) names → num_task_overloads_step names name n s ≡ 0)
unfolding num_task_overloads_step get_num_task_overloads
num_task_overloads_step-first names name n i t s = (
  λ f e. rw (find_task-FirstAt (take n name) 0 i names f, num_task_overloads_step) (found e),
  λ f. rw (find_task-Nowhere (take n name) 0 names f, num_task_overloads_step) refl,
)
  where
    found : get_elem? s.tasks i ≡ some t → get_num_task_overloads (0 + i) s ≡ t.num_task_overloads
    found e =
        let z : 0 + i ≡ i = omega arith in
        ap (λ j. get_num_task_overloads j s) z ∙ rw (get_num_task_overloads, e) refl
