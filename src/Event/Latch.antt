-- ===== src/Event/Latch.antt =====
-- An `Event` is a latch: `Notify` sets it, `Wait` returns when it is set and resets it.
use generic_target.Base.{
  ltb, ◌==◌, if◌then◌else◌, Bool-cases, ℕ, zero, suc, ◌+◌, ◌-◌, ◌<◌, ◌≡◌, refl, sym, ap, ◌∙◌, ◌⊎◌,
  inl, inr, Bool, true, false, Option, none, some, List, [], ◌∷◌, arith,
}
use mathlib.Core.Path.{subst}
use generic_target.Event.{
  Place, outside, sleeps, drains, clears, Act, notified, returned, failed, cleared, Event, notify,
  try_drain, try_clear, Move, notifies, wait_begins, wait_interrupted, wait_fails, wait_takes,
  wait_tries, clear_begins, clear_tries, Reach, here, next, thread_move, run_thread,
}

-- What a latch holds behind the acts of a log, or none where `Wait` has returned while it was not set:
-- `m_notified` of the branch for Windows.
unfoldable pub latch : List Act → Option Bool
latch [] = some false
latch (a ∷ acts) = elim (latch acts) [
  | none ↦ none
  | some set ↦ elim a [
    | notified ↦ some true
    | returned ↦ (if set then some false else none)
    | failed ↦ some set
    | cleared ↦ some false
  ]
]

-- The latch of an event at a place, with the semaphore's value: while `Wait` drains the semaphore the
-- latch is still set, and while `Clear` does it may be.
abbrev pub Agrees : Place → ℕ → Option Bool → Type 0
Agrees outside n l = l ≡ some (ltb 0 n)
Agrees sleeps n l = l ≡ some (ltb 0 n)
Agrees drains n l = l ≡ some true
Agrees clears n l = (l ≡ some true) ⊎ ((l ≡ some false) × (n ≡ 0))

module _ (sem_max : ℕ) (positive : 0 < sem_max) where
  notify-Agrees :
      (p : Place) (n : ℕ) (acts : List Act)
      → Agrees p n (latch acts)
      → Agrees p (if n == sem_max then n else n + 1) (latch (notified ∷ acts))
  unfolding latch
  notify-Agrees outside n acts h = rw h (ground arith)
  notify-Agrees sleeps n acts h = rw h (ground arith)
  notify-Agrees drains n acts h = rw h refl
  notify-Agrees clears n acts (inl h) = rw h (inl refl)
  notify-Agrees clears n acts (inr (h, z)) = rw h (inl refl)

  some_left : (n : ℕ) → 0 < n → some (ltb 0 n) ≡ some true
  some_left n h = ap some (ground arith)

  none_left : (n : ℕ) → (n == 0) ≡ true → ltb 0 n ≡ false
  none_left n h = ground arith

  abbrev Held : Event → Place → Type 0
  Held e p = Agrees p e.sem (latch e.log)

  Move-Agrees :
      {e f : Event}
      → Agrees e.place e.sem (latch e.log)
      → Move sem_max e f
      → Agrees f.place f.sem (latch f.log)
  unfolding notify try_drain try_clear latch
  Move-Agrees {e} v notifies = notify-Agrees e.place e.sem e.log v
  Move-Agrees {e} v (wait_begins p) = subst (Held e) p v
  Move-Agrees {e} v (wait_interrupted p) = v
  Move-Agrees {e} v (wait_fails p) = let h = subst (Held e) p v in rw h refl
  Move-Agrees {e} v (wait_takes p q) = subst (Held e) p v ∙ some_left e.sem q
  Move-Agrees {e} v (wait_tries p) =
      let h = subst (Held e) p v in
      elim (Bool-cases (e.sem == 0)) [
        | inl b ↦ simp b (rw (h, none_left e.sem b) refl)
        | inr b ↦ simp b (subst (λ q. Agrees q (e.sem - 1) (latch e.log)) (sym p) h)
      ]
  Move-Agrees {e} v (clear_begins p) =
      let h = subst (Held e) p v in
      elim (Bool-cases (ltb 0 e.sem)) [
        | inl b ↦ inl (rw (h, b) refl)
        | inr b ↦ inr (rw (h, b) refl, ground arith)
      ]
  Move-Agrees {e} v (clear_tries p) =
      let h = subst (Held e) p v in
      elim (Bool-cases (e.sem == 0)) [
        | inl b ↦ simp b (elim h [
          | inl t ↦ rw (t, none_left e.sem b) refl
          | inr (t, z) ↦ rw (t, none_left e.sem b) refl
        ])
        | inr b ↦ simp b (
            subst (λ q. Agrees q (e.sem - 1) (latch e.log)) (sym p)
              (elim h [ inl t ↦ inl t | inr (t, z) ↦ absurd (ground arith) ]))
      ]

  -- Every run of the event is a run of the latch: `Wait` returns only where a `Notify` has set it, and
  -- resets it. Outside `Wait` and `Clear`, and while `Wait` sleeps, the latch is set exactly if the
  -- semaphore is not 0.
  pub event_refines-latch : {e : Event} → Reach sem_max e → Agrees e.place e.sem (latch e.log)
  unfolding latch
  event_refines-latch here = refl
  event_refines-latch (next r m) = Move-Agrees (event_refines-latch r) m

  drained-Returns :
      (n : ℕ) (l : List Act)
      → run_thread (suc n) (record { sem = n; place = drains; log = l })
        ≡ record { sem = 0; place = outside; log = returned ∷ l }
  unfolding run_thread thread_move try_drain
  drained-Returns zero l = refl
  drained-Returns (suc n) l =
      let less : suc n - 1 ≡ n = omega arith in
      let held : (suc n == 0) ≡ false = ground arith in rw (held, less) (drained-Returns n l)

  sleeping-Returns :
      (n : ℕ) (l : List Act)
      → 0 < n
      → run_thread (suc n) (record { sem = n; place = sleeps; log = l })
        ≡ record { sem = 0; place = outside; log = returned ∷ l }
  unfolding run_thread thread_move
  sleeping-Returns zero l h = absurd (omega (arith, h))
  sleeping-Returns (suc n) l h =
      let less : suc n - 1 ≡ n = omega arith in
      let held : (suc n == 0) ≡ false = ground arith in rw (held, less) (drained-Returns n l)

  -- `Wait` of a set latch returns within as many moves of its thread as the semaphore has, and one.
  pub wait-Returns :
      {e : Event}
      → Reach sem_max e
      → e.place ≡ sleeps
      → latch e.log ≡ some true
      → run_thread (suc e.sem) e ≡ record { sem = 0; place = outside; log = returned ∷ e.log }
  wait-Returns {e} r p h =
      let agrees = subst (Held e) p (event_refines-latch r) in
      let counted : ltb 0 e.sem ≡ true = cc (agrees, h) in
      let positive : 0 < e.sem = ground arith in
      subst
        (λ q.
          run_thread (suc e.sem) (record e { place = q })
          ≡ record { sem = 0; place = outside; log = returned ∷ e.log })
        (sym p) (sleeping-Returns e.sem e.log positive)
