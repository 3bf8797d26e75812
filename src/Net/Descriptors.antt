-- ===== src/Net/Descriptors.antt =====
-- The descriptors that the program holds, at `Open` and `Close` of a socket.
use generic_target.Base.{
  Bool-cases, remove, remove_first, ℕ, ◌≡◌, refl, ap, ◌∙◌, inl, inr, true, false, Option, none,
  some, List, [], ◌∷◌, ◌++◌,
}
use generic_target.Base.Int.{is_neg, to_ℕ}
use generic_target.Net.Sockets.{
  Kernel, World, Call, is_open, close_socket, open_socket, system_call,
}

abbrev pub held : Option ℕ → List ℕ
held none = []
held (some fd) = fd ∷ []

pub close_socket-descriptors :
    (k : Kernel) (fd : Option ℕ) (w : World) (others : List ℕ)
    → w.descriptors ≡ held fd ++ others
    → (close_socket k fd w).descriptors ≡ others
unfolding close_socket system_call
close_socket-descriptors k none w others h = h
close_socket-descriptors k (some fd) w others h = ap (remove fd) h ∙ remove_first fd others

-- What `Open` leaves: a socket whose descriptor is held.
pub open_socket-held :
    (k : Kernel) (c : Call) (old : Option ℕ) (w : World) (others : List ℕ)
    → w.descriptors ≡ held old ++ others
    → ((open_socket k c old w).0.descriptors ≡ held (open_socket k c old w).1 ++ others)
      × ((open_socket k c old w).2 ≡ true → is_open (open_socket k c old w).1 ≡ true)
      × ((open_socket k c old w).2 ≡ false → (open_socket k c old w).1 ≡ old)
unfolding open_socket system_call
open_socket-held k c old w others h = elim (Bool-cases (is_neg (k (c ∷ w.calls)).result)) [
  | inl e ↦ rw e (h, λ b. cc, λ b. refl)
  | inr e ↦ rw e (
    ap (◌∷◌ (to_ℕ (k (c ∷ w.calls)).result))
        (close_socket-descriptors k old (record w { calls = c ∷ w.calls }) others h),
    λ b. refl,
    λ b. cc,
  )
]
