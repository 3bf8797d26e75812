-- ===== src/Services/Routing.antt =====
-- Which service a call of a manager reaches.
use generic_target.Base.{
  if◌then◌else◌, Bool-cases, some_inj, ◌≡◌, refl, sym, ap, ◌∙◌, inl, inr, Bool, true, false, Option,
  none, some, List, [], ◌∷◌, ◌++◌, arith,
}
use generic_target.Base.Int.{eq_ℤ, ℤ, pos, negsuc}
use mathlib.Core.Path.{subst}
use generic_target.Services.{Entry, at_service, create_in, with_new}

pub eq_ℤ_refl : (x : ℤ) → eq_ℤ x x ≡ true
eq_ℤ_refl (pos n) = ground arith
eq_ℤ_refl (negsuc n) = ground arith

eq_ℤ→≡ : (x y : ℤ) → eq_ℤ x y ≡ true → x ≡ y
eq_ℤ→≡ (pos m) (pos n) h = ap pos (ground arith)
eq_ℤ→≡ (pos m) (negsuc n) h = absurd (ground arith)
eq_ℤ→≡ (negsuc m) (pos n) h = absurd (ground arith)
eq_ℤ→≡ (negsuc m) (negsuc n) h = ap negsuc (ground arith)

eq_ℤ_sym : (x y : ℤ) → eq_ℤ y x ≡ eq_ℤ x y
eq_ℤ_sym (pos m) (pos n) = ground arith
eq_ℤ_sym (pos m) (negsuc n) = refl
eq_ℤ_sym (negsuc m) (pos n) = refl
eq_ℤ_sym (negsuc m) (negsuc n) = ground arith

module _ {S : Type 0} where
  -- The service with an id.
  abbrev pub lookup : ℤ → List (Entry S) → Option S
  lookup id [] = none
  lookup id (e ∷ es) = if eq_ℤ id e.id then some e.service else lookup id es

  pub found :
      (e : Entry S) (es : List (Entry S)) (id : ℤ)
      → eq_ℤ id e.id ≡ true
      → some e.service ≡ lookup id (e ∷ es)
  found e es id h = simp h refl

  pub not_found :
      (e : Entry S) (es : List (Entry S)) (id : ℤ)
      → eq_ℤ id e.id ≡ false
      → lookup id es ≡ lookup id (e ∷ es)
  not_found e es id h = simp h refl

  -- `SendTo` and `ReceiveFrom` act on the first service with the id and on no other, and return what
  -- it returns, or the default.
  pub lookup-at_service {ℓ} :
      {R : Type ℓ} (id other : ℤ) (f : S → S × R) (r : R) (es : List (Entry S))
      → (eq_ℤ other id ≡ false → lookup other (at_service id f r es).0 ≡ lookup other es)
        × ((s : S)
            → lookup id es ≡ some s
            → (lookup id (at_service id f r es).0 ≡ some (f s).0)
              × ((at_service id f r es).1 ≡ (f s).1))
  unfolding at_service
  lookup-at_service id other f r [] = (λ n. refl, λ s h. cc)
  lookup-at_service id other f r (e ∷ es) =
      let v = lookup-at_service id other f r es in
      elim (Bool-cases (eq_ℤ id e.id)) [
        | inl h ↦
            let g : (eq_ℤ other id ≡ false) → eq_ℤ other e.id ≡ false =
              λ n. sym (ap (eq_ℤ other) (eq_ℤ→≡ id e.id h)) ∙ n in
            rw h (
              λ n. simp (g n) refl,
              λ s c. (simp h (ap (λ z. some (f z).0) (some_inj c)), ap (λ z. (f z).1) (some_inj c)),
            )
        | inr h ↦ rw h (
          λ n. elim (Bool-cases (eq_ℤ other e.id)) [ inl b ↦ rw b refl | inr b ↦ rw b (v.0 n) ],
          λ s c. (simp h (v.1 s c).0, (v.1 s c).1),
        )
      ]

  lookup-snoc_other :
      (other id : ℤ) (s : S) (es : List (Entry S))
      → eq_ℤ other id ≡ false
      → lookup other (es ++ (record { id = id; service = s } ∷ [])) ≡ lookup other es
  lookup-snoc_other other id s [] n = simp n refl
  lookup-snoc_other other id s (e ∷ es) n = elim (Bool-cases (eq_ℤ other e.id)) [
    | inl b ↦ rw b refl
    | inr b ↦ rw b (lookup-snoc_other other id s es n)
  ]

  -- Every service is found by its own id: no id stands twice.
  abbrev pub OwnId : List (Entry S) → Type 0
  OwnId [] = Unit
  OwnId (e ∷ es) = (lookup e.id es ≡ none) × OwnId es

module _ {S : Type 0} (create : S → S × Bool) (new : S) where
  abbrev Created : ℤ → List (Entry S) → Option (List (Entry S) × Bool) → Type 0
  Created id es none = lookup id es ≡ none
  Created id es (some (fs, ok)) =
      ((other : ℤ) → eq_ℤ other id ≡ false → lookup other fs ≡ lookup other es)
      × (OwnId es → OwnId fs)

  Created-behind :
      (id : ℤ) (e : Entry S) (es : List (Entry S)) (r : Option (List (Entry S) × Bool))
      → eq_ℤ id e.id ≡ false
      → Created id es r
      → Created id (e ∷ es) (elim r [ none ↦ none | some (fs, ok) ↦ some (e ∷ fs, ok) ])
  Created-behind id e es none n v = rw n v
  Created-behind id e es (some (fs, ok)) n v = (
    λ other m. elim (Bool-cases (eq_ℤ other e.id)) [
      | inl b ↦ rw b refl
      | inr b ↦ rw b (v.0 other m)
    ],
    λ d. (v.0 e.id (eq_ℤ_sym id e.id ∙ n) ∙ d.0, v.1 d.1),
  )

  create_in-Created : (id : ℤ) (es : List (Entry S)) → Created id es (create_in create id es)
  unfolding create_in
  create_in-Created id [] = refl
  create_in-Created id (e ∷ es) = elim (Bool-cases (eq_ℤ id e.id)) [
    | inr n ↦ rw n (Created-behind id e es (create_in create id es) n (create_in-Created id es))
    | inl b ↦ rw b (
      λ other m.
          let n : eq_ℤ other e.id ≡ false = sym (ap (eq_ℤ other) (eq_ℤ→≡ id e.id b)) ∙ m in
          simp n refl,
      λ d. d,
    )
  ]

  OwnId-snoc :
      (id : ℤ) (s : S) (es : List (Entry S))
      → OwnId es
      → lookup id es ≡ none
      → OwnId (es ++ (record { id = id; service = s } ∷ []))
  OwnId-snoc id s [] d n = (refl, tt)
  OwnId-snoc id s (e ∷ es) d n = elim (Bool-cases (eq_ℤ id e.id)) [
    | inl b ↦ absurd (cc (found e es id b ∙ n))
    | inr b ↦ (
      lookup-snoc_other e.id id s es (eq_ℤ_sym id e.id ∙ b) ∙ d.0,
      OwnId-snoc id s es d.1 (not_found e es id b ∙ n),
    )
  ]

  -- Every id still finds its own service, and the others are as they were.
  abbrev pub Grown : ℤ → List (Entry S) → List (Entry S) × Bool → Type 0
  Grown id es (fs, ok) =
      OwnId fs × ((other : ℤ) → eq_ℤ other id ≡ false → lookup other fs ≡ lookup other es)

  with_new_found :
      (id : ℤ) (es : List (Entry S)) (r : Option (List (Entry S) × Bool))
      → create_in create id es ≡ r
      → OwnId es
      → Grown id es (with_new create new id es)
  unfolding with_new
  with_new_found id es none e d =
      let v : Created id es none = subst (Created id es) e (create_in-Created id es) in
      let s : S × Bool = create new in
      let eq : with_new create new id es ≡ (es ++ (record { id = id; service = s.0 } ∷ []), s.1) =
        rw (e, with_new) refl in
      subst (Grown id es) (sym eq)
        (OwnId-snoc id s.0 es d v, λ other m. lookup-snoc_other other id s.0 es m)
  with_new_found id es (some (fs, ok)) e d =
      let v : Created id es (some (fs, ok)) = subst (Created id es) e (create_in-Created id es) in
      let eq : with_new create new id es ≡ (fs, ok) = rw (e, with_new) refl in
      subst (Grown id es) (sym eq) (v.1 d, v.0)

  pub with_new-Grown :
      (id : ℤ) (es : List (Entry S)) → OwnId es → Grown id es (with_new create new id es)
  with_new-Grown id es = with_new_found id es (create_in create id es) refl
