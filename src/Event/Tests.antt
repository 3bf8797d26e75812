-- ===== src/Event/Tests.antt =====
-- An event that is notified twice while its thread sleeps.
use generic_target.Base.{suc, ◌≡◌, refl, false, none, some, [], ◌∷◌, arith}
use generic_target.Event.{
  Event, new_event, notify, outside, sleeps, returned, notified, notifies, wait_begins, Reach, here,
  next, run_thread,
}
use generic_target.Event.Latch.{latch, Agrees, event_refines-latch, wait-Returns}

abbrev wakes : Event
wakes = notify 5 (notify 5 (record new_event { place = sleeps }))

woken_twice : Reach 5 wakes
unfolding notify
woken_twice = next (next (next here (wait_begins refl)) notifies) notifies

latch_of_log : latch (returned ∷ notified ∷ notified ∷ []) ≡ some false
unfolding latch
latch_of_log = refl

spurious : latch (returned ∷ returned ∷ notified ∷ []) ≡ none
unfolding latch
spurious = refl

event_refines-latch_example : Agrees sleeps wakes.sem (latch wakes.log)
unfolding notify latch
event_refines-latch_example = event_refines-latch 5 (ground arith) woken_twice

wait-Returns_example :
    run_thread (suc wakes.sem) wakes
    ≡ record { sem = 0; place = outside; log = returned ∷ wakes.log }
unfolding notify latch
wait-Returns_example = wait-Returns 5 (ground arith) woken_twice refl refl
