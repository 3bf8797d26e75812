-- ===== src/Scheduler/Threads.antt =====
-- The threads that `Start` and `Stop` of the scheduler leave behind.
use generic_target.Base.{
  Bool-cases, All, All-append, ◌≡◌, refl, inl, inr, Bool, true, false, ◌||◌, List, [], ◌∷◌, ◌++◌,
  map, arith,
}
use generic_target.Task.{Task, start, stop}
use generic_target.Scheduler.{
  Timing, BaseRateScheduler, started_tasks, start_scheduler, stop_scheduler, start_worker_threads,
  stop_worker_threads, new_task, stop_master_thread, start_master_thread,
}

-- A task with a thread has been marked as started, so that `Stop` joins the thread.
abbrev Joinable : Task → Type 0
Joinable t = t.joinable ≡ true → t.started ≡ true

abbrev pub Joined : Task → Type 0
Joined t = t.joinable ≡ false

start-Joinable : (x : Timing) → Joinable (start x.replies x.offset_ticks new_task).0
unfolding start stop
start-Joinable x = ground arith

stop-Joined : (d : Bool) (t : Task) → Joinable t → Joined (stop d (stop d t))
unfolding stop
stop-Joined d t h = ground arith

started_tasks-Joinable : (xs : List Timing) → All Joinable (started_tasks xs).0
unfolding started_tasks
started_tasks-Joinable [] = tt
started_tasks-Joinable (x ∷ xs) = (start-Joinable x, started_tasks-Joinable xs)

map-Joined :
    (d : Bool) (ts : List Task) → All Joinable ts → All Joined (map (λ t. stop d (stop d t)) ts)
map-Joined d [] v = tt
map-Joined d (t ∷ ts) v = (stop-Joined d t v.0, map-Joined d ts v.1)

-- Every thread can be joined by `Stop`, and none was running when its object was deleted; a
-- scheduler that is not started has no threads.
pub record Clean (s : BaseRateScheduler) : Type 0 where
  pub running : All Joinable s.tasks
  pub joined : All Joined s.deleted
  pub idle : s.started ≡ false → (s.tasks ≡ []) × (s.master_joinable ≡ false)

start_worker_threads-tasks :
    (xs : List Timing) (s : BaseRateScheduler)
    → All Joinable s.tasks
    → All Joinable (s.tasks ++ (started_tasks xs).0)
start_worker_threads-tasks xs s v =
    All-append Joinable s.tasks (started_tasks xs).0 v (started_tasks-Joinable xs)

deleted-Joined :
    (d : Bool) (xs : List Timing) (s : BaseRateScheduler)
    → Clean s
    → All Joined (s.deleted ++ map (λ t. stop d (stop d t)) (s.tasks ++ (started_tasks xs).0))
deleted-Joined d xs s v =
    All-append Joined s.deleted _ v.joined
      (map-Joined d _ (start_worker_threads-tasks xs s v.running))

-- `Start` of the scheduler, on every answer of the system: no thread object is deleted while its
-- thread runs; if it fails, no task and no master thread is left and the scheduler is not started;
-- if it succeeds, it is started.
pub start_scheduler-Clean :
    (xs : List Timing) (priority debug d : Bool) (s : BaseRateScheduler)
    → Clean s
    → Clean (start_scheduler xs priority debug d s).0
      × ((start_scheduler xs priority debug d s).0.started
          ≡ (start_scheduler xs priority debug d s).1)
unfolding start_scheduler start_worker_threads start_master_thread stop_worker_threads
    stop_master_thread
start_scheduler-Clean xs priority debug d s v = elim (Bool-cases s.started) [
  | inl b ↦ simp b (record { running = v.running; joined = v.joined; idle = v.idle }, refl)
  | inr b ↦ elim (Bool-cases (started_tasks xs).1) [
    | inr w ↦
        simp (b, w)
          (
            record {
              running = tt;
              joined = deleted-Joined d xs s v;
              idle = λ e. (refl, (v.idle b).1);
            },
            refl,
          )
    | inl w ↦ elim (Bool-cases (priority || debug)) [
      | inr m ↦
          simp (b, w, m)
            (
              record { running = tt; joined = deleted-Joined d xs s v; idle = λ e. (refl, refl) },
              refl,
            )
      | inl m ↦
          simp (b, w, m)
            (
              record {
                running = start_worker_threads-tasks xs s v.running;
                joined = v.joined;
                idle = λ e. absurd (cc e);
              },
              refl,
            )
    ]
  ]
]

-- `Stop` of the scheduler joins and deletes every thread.
pub stop_scheduler-Clean :
    (d : Bool) (s : BaseRateScheduler)
    → Clean s
    → Clean (stop_scheduler d s)
      × ((stop_scheduler d s).started ≡ false)
      × ((stop_scheduler d s).tasks ≡ [])
      × ((stop_scheduler d s).master_joinable ≡ false)
unfolding stop_scheduler stop_worker_threads stop_master_thread
stop_scheduler-Clean d s v = elim (Bool-cases s.started) [
  | inl b ↦ simp b (
    record {
      running = tt;
      joined = All-append Joined s.deleted _ v.joined (map-Joined d s.tasks v.running);
      idle = λ e. (refl, refl);
    },
    refl,
    refl,
    refl,
  )
  | inr b ↦ simp b (
    record { running = v.running; joined = v.joined; idle = v.idle },
    refl,
    (v.idle b).0,
    (v.idle b).1,
  )
]
