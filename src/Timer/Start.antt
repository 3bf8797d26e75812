-- ===== src/Timer/Start.antt =====
-- What `Start` and `Stop` of the timer leave open.
use generic_target.Base.{
  Bool-cases, remove, remove_first, ℕ, ◌≡◌, refl, ap, ◌∙◌, inl, inr, Bool, true, false, not, ◌&&◌,
  ◌||◌, Option, none, some, ◌∷◌,
}
use generic_target.Timer.{
  Answers, PeriodicTimer, Sampletime, start_timer, stop_timer, open_epoll, take_fd, close_fd,
  open_event, arm, open_timer, is_valid_time,
}

-- A failure leaves the timer as it was; a success holds three descriptors more.
abbrev Outcome : PeriodicTimer → PeriodicTimer × Bool → Type 0
Outcome t (u, false) = u ≡ t
Outcome t (u, true) =
    (u.is_started ≡ true) × (u.is_running ≡ true) × ((stop_timer u).descriptors ≡ t.descriptors)

close_first : (fd : ℕ) (t : PeriodicTimer) → close_fd fd (take_fd fd t) ≡ t
close_first fd t = ap (λ l. record t { descriptors = l }) (remove_first fd t.descriptors)

module _ (a : Answers) (t : PeriodicTimer) where
  arm-Outcome :
      (epoll cancel timer : ℕ)
      → Outcome t (arm a epoll cancel timer (take_fd timer (take_fd cancel (take_fd epoll t))))
  unfolding arm stop_timer
  arm-Outcome epoll cancel timer = elim (Bool-cases (a.add_event && (a.add_timer && a.set_time))) [
    | inl e ↦ rw e (
      refl,
      refl,
      ap (λ l. remove epoll (remove cancel l)) (remove_first timer (cancel ∷ epoll ∷ t.descriptors))
          ∙ ap (remove epoll) (remove_first cancel (epoll ∷ t.descriptors))
          ∙ remove_first epoll t.descriptors,
    )
    | inr e ↦ rw e (
        ap (λ u. close_fd epoll (close_fd cancel u))
          (close_first timer (take_fd cancel (take_fd epoll t)))
        ∙ ap (close_fd epoll) (close_first cancel (take_fd epoll t))
        ∙ close_first epoll t)
  ]

  open_epoll-Outcome :
      (e c m : Option ℕ) → a.epoll ≡ e → a.event ≡ c → a.timer ≡ m → Outcome t (open_epoll a t)
  unfolding open_epoll open_event open_timer arm
  open_epoll-Outcome none c m p q r = rw p refl
  open_epoll-Outcome (some epoll) none m p q r = rw (p, q) (close_first epoll t)
  open_epoll-Outcome (some epoll) (some cancel) none p q r =
      rw (p, q, r)
        (ap (close_fd epoll) (close_first cancel (take_fd epoll t)) ∙ close_first epoll t)
  open_epoll-Outcome (some epoll) (some cancel) (some timer) p q r =
      rw (p, q, r) (arm-Outcome epoll cancel timer)

  Outcome-cases :
      (r : PeriodicTimer × Bool)
      → Outcome t r
      → (r.1 ≡ false → r.0 ≡ t)
        × (r.1 ≡ true → (r.0.is_running ≡ true) × ((stop_timer r.0).descriptors ≡ t.descriptors))
  Outcome-cases (u, false) v = (λ h. v, λ h. cc)
  Outcome-cases (u, true) v = (λ h. cc, λ h. (v.1, v.2))

  -- `Start` on every answer of the system: where it fails, the timer and the descriptors of the
  -- program are those of before; where it succeeds, the timer runs and `Stop` gives back the
  -- descriptors that it took.
  pub start_timer-Outcome :
      (period : Sampletime)
      → ((start_timer a period t).1 ≡ false → (start_timer a period t).0 ≡ t)
        × ((start_timer a period t).1 ≡ true
            → ((start_timer a period t).0.is_running ≡ true)
              × ((stop_timer (start_timer a period t).0).descriptors ≡ t.descriptors))
  unfolding start_timer
  start_timer-Outcome period =
      elim (Bool-cases (t.is_started || (t.is_running || not (is_valid_time period)))) [
        | inl e ↦ rw e (λ h. refl, λ h. cc)
        | inr e ↦ simp e (
            Outcome-cases (open_epoll a t)
              (open_epoll-Outcome a.epoll a.event a.timer refl refl refl))
      ]
