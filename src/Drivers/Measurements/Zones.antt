-- ===== src/Drivers/Measurements/Zones.antt =====
-- The temperatures that the block has behind its step.
use generic_target.Base.{
  length, drop, length-append, ℕ, zero, suc, ◌+◌, ◌≤◌, ◌≡◌, refl, sym, ap, ◌∙◌, Option, List, [],
  ◌∷◌, ◌++◌, map, append_assoc, arith,
}
use generic_target.Base.Int.{ℤ}
use mathlib.Core.Path.{subst}
use generic_target.Drivers.Measurements.{
  Double, set, read_zone, read_zones, read_thermal_zones_step,
}

abbrev pub range : ℕ → ℕ → List ℕ
range n zero = []
range n (suc k) = n ∷ range (n + 1) k

set-middle {ℓ} :
    {A : Type ℓ} (front back : List A) (x a : A)
    → set (front ++ (x ∷ back)) (length front) a ≡ front ++ (a ∷ back)
unfolding set
set-middle [] back x a = refl
set-middle (y ∷ front) back x a = ap (◌∷◌ y) (set-middle front back x a)

module _ {D : Type 0} (d : Double D) (files : List ℕ → Option (List ℕ))
    (extract : List ℕ → Option ℤ) where
  read_zones-behind :
      (left : ℕ) (front back : List D)
      → left ≤ length back
      → read_zones d files extract (length front) left (front ++ back)
        ≡ front ++ (map (read_zone d files extract) (range (length front) left) ++ drop left back)
  unfolding read_zones
  read_zones-behind zero front back h = refl
  read_zones-behind (suc left) front [] h = absurd (omega (arith, h))
  read_zones-behind (suc left) front (x ∷ back) h =
      let v : D = read_zone d files extract (length front) in
      let grown : length (front ++ (v ∷ [])) ≡ length front + 1 = length-append front (v ∷ []) in
      let rest = read_zones-behind left (front ++ (v ∷ [])) back (omega (arith, h)) in
      rw (set-middle front back x v) (
        subst
          (λ n.
            read_zones d files extract n left (front ++ (v ∷ back))
            ≡ front ++ (v ∷ (map (read_zone d files extract) (range n left) ++ drop left back)))
          grown
          (ap (read_zones d files extract (length (front ++ (v ∷ []))) left)
              (sym (append_assoc front (v ∷ []) back))
            ∙ rest
            ∙ append_assoc front (v ∷ []) _))

  -- The step gives every one of the first `max_num` temperatures the value of its zone, and leaves the
  -- others as they are; the array has that many.
  pub read_thermal_zones_step-read_zone :
      (max_num : ℕ) (temperatures : List D)
      → max_num ≤ length temperatures
      → read_thermal_zones_step d files extract max_num temperatures
        ≡ map (read_zone d files extract) (range 0 max_num) ++ drop max_num temperatures
  unfolding read_thermal_zones_step
  read_thermal_zones_step-read_zone max_num temperatures h =
      read_zones-behind max_num [] temperatures h
