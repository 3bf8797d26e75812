-- ===== src/Event.antt =====
-- library/drivers/GT_DriverImplementationDetails.{hpp,cpp}: `Event` on Linux, a semaphore that threads
-- post to in `Notify` and that one thread takes from in `Wait` and `Clear`, interleaved at the
-- calls of the semaphore.
pub mod Latch
pub mod Tests
use generic_target.Base.{◌==◌, if◌then◌else◌, ℕ, zero, suc, ◌+◌, ◌-◌, ◌<◌, ◌≡◌, List, [], ◌∷◌}

-- Where the one thread is: outside, in `sem_wait` and `sem_trywait` of `Wait`, in `sem_trywait` of
-- `Clear`.
pub data Place : Type 0 where
  outside sleeps drains clears : Place

-- What the calls of an event have done: `Notify`, `Wait` that returns behind its loops or on an
-- error, `Clear` that returns.
pub data Act : Type 0 where
  notified returned failed cleared : Act

-- `log` has the latest first.
pub record Event : Type 0 where
  pub sem : ℕ
  pub place : Place
  pub log : List Act

abbrev pub new_event : Event
new_event = record { sem = 0; place = outside; log = [] }

-- `Notify`: `sem_post` changes nothing where the semaphore has its greatest value, `sem_max`, and
-- its answer is not looked at.
unfoldable pub notify : ℕ → Event → Event
notify sem_max e = record e {
  sem = if e.sem == sem_max then e.sem else e.sem + 1;
  log = notified ∷ e.log;
}

-- `sem_wait` that takes one, and that fails with another error than EINTR.
abbrev pub take_one : Event → Event
take_one e = record e { sem = e.sem - 1; place = drains }

abbrev pub give_up : Event → Event
give_up e = record e { place = outside; log = failed ∷ e.log }

-- A call of `sem_trywait` in the loop of `Wait`, and in that of `Clear`.
unfoldable pub try_drain : Event → Event
try_drain e =
    if e.sem == 0
    then record e { place = outside; log = returned ∷ e.log }
    else record e { sem = e.sem - 1 }

unfoldable pub try_clear : Event → Event
try_clear e =
    if e.sem == 0
    then record e { place = outside; log = cleared ∷ e.log }
    else record e { sem = e.sem - 1 }

-- `sem_wait` that a signal interrupts is called again.
pub data Move (sem_max : ℕ) (e : Event) : Event → Type 0 where
  notifies : Move sem_max e (notify sem_max e)
  wait_begins : e.place ≡ outside → Move sem_max e (record e { place = sleeps })
  wait_interrupted : e.place ≡ sleeps → Move sem_max e e
  wait_fails : e.place ≡ sleeps → Move sem_max e (give_up e)
  wait_takes : e.place ≡ sleeps → 0 < e.sem → Move sem_max e (take_one e)
  wait_tries : e.place ≡ drains → Move sem_max e (try_drain e)
  clear_begins : e.place ≡ outside → Move sem_max e (record e { place = clears })
  clear_tries : e.place ≡ clears → Move sem_max e (try_clear e)

pub data Reach (sem_max : ℕ) : Event → Type 0 where
  here : Reach sem_max new_event
  next : {e f : Event} → Reach sem_max e → Move sem_max e f → Reach sem_max f

-- The next move of the thread in `Wait` or `Clear` where the system neither interrupts nor fails
-- a call; `sem_wait` blocks while the semaphore is 0.
unfoldable pub thread_move : Place → Event → Event
thread_move outside e = e
thread_move sleeps e = if e.sem == 0 then e else take_one e
thread_move drains e = try_drain e
thread_move clears e = try_clear e

unfoldable pub run_thread : ℕ → Event → Event
run_thread zero e = e
run_thread (suc n) e = run_thread n (thread_move e.place e)
