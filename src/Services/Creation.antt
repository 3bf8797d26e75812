-- ===== src/Services/Creation.antt =====
-- The service that a manager creates for an id.
use generic_target.Base.{
  Bool-cases, ◌≡◌, refl, sym, ap, ◌∙◌, inl, inr, Bool, true, false, Option, none, some, List, [],
  ◌∷◌, ◌++◌,
}
use generic_target.Base.Int.{eq_ℤ, ℤ}
use mathlib.Core.Path.{subst}
use generic_target.Services.{Entry, create_in, with_new}
use generic_target.Services.Routing.{lookup, found, not_found, eq_ℤ_refl}

module _ {S : Type 0} (create : S → S × Bool) (new : S) where
  -- The service that `AddService` creates: the one with the id, or else a new one.
  abbrev pub service_or_new : Option S → S
  service_or_new none = new
  service_or_new (some s) = s

  abbrev CreatedAt : ℤ → List (Entry S) → Option (List (Entry S) × Bool) → Type 0
  CreatedAt id es none = lookup id es ≡ none
  CreatedAt id es (some (fs, ok)) =
      (lookup id fs ≡ some (create (service_or_new (lookup id es))).0)
      × (ok ≡ (create (service_or_new (lookup id es))).1)

  CreatedAt-behind :
      (id : ℤ) (e : Entry S) (es : List (Entry S)) (r : Option (List (Entry S) × Bool))
      → eq_ℤ id e.id ≡ false
      → CreatedAt id es r
      → CreatedAt id (e ∷ es) (elim r [ none ↦ none | some (fs, ok) ↦ some (e ∷ fs, ok) ])
  CreatedAt-behind id e es none n v = rw n v
  CreatedAt-behind id e es (some (fs, ok)) n v = simp n v

  create_in-CreatedAt : (id : ℤ) (es : List (Entry S)) → CreatedAt id es (create_in create id es)
  unfolding create_in
  create_in-CreatedAt id [] = refl
  create_in-CreatedAt id (e ∷ es) = elim (Bool-cases (eq_ℤ id e.id)) [
    | inr n ↦ rw n (CreatedAt-behind id e es (create_in create id es) n (create_in-CreatedAt id es))
    | inl b ↦ simp b (refl, refl)
  ]

  lookup-snoc_same :
      (id : ℤ) (s : S) (es : List (Entry S))
      → lookup id es ≡ none
      → lookup id (es ++ (record { id = id; service = s } ∷ [])) ≡ some s
  lookup-snoc_same id s [] n = let e : eq_ℤ id id ≡ true = eq_ℤ_refl id in rw e refl
  lookup-snoc_same id s (e ∷ es) n = elim (Bool-cases (eq_ℤ id e.id)) [
    | inl b ↦ absurd (cc (found e es id b ∙ n))
    | inr b ↦ rw b (lookup-snoc_same id s es (not_found e es id b ∙ n))
  ]

  with_new_at :
      (id : ℤ) (es : List (Entry S)) (r : Option (List (Entry S) × Bool))
      → create_in create id es ≡ r
      → CreatedAt id es (some (with_new create new id es))
  unfolding with_new
  with_new_at id es none e =
      let v : lookup id es ≡ none = subst (CreatedAt id es) e (create_in-CreatedAt id es) in
      let c : S × Bool = create new in
      let eq : with_new create new id es ≡ (es ++ (record { id = id; service = c.0 } ∷ []), c.1) =
        rw (e, with_new) refl in
      let old : create (service_or_new (lookup id es)) ≡ c =
        ap (λ o. create (service_or_new o)) v in
      subst (λ r. CreatedAt id es (some r)) (sym eq)
        (lookup-snoc_same id c.0 es v ∙ ap (λ d. some d.0) (sym old), ap (λ d. d.1) (sym old))
  with_new_at id es (some (fs, ok)) e =
      let eq : with_new create new id es ≡ (fs, ok) = rw (e, with_new) refl in
      subst (λ r. CreatedAt id es (some r)) (sym eq)
        (subst (CreatedAt id es) e (create_in-CreatedAt id es))

  pub lookup-with_new :
      (id : ℤ) (es : List (Entry S))
      → (lookup id (with_new create new id es).0 ≡ some (create (service_or_new (lookup id es))).0)
        × ((with_new create new id es).1 ≡ (create (service_or_new (lookup id es))).1)
  lookup-with_new id es = with_new_at id es (create_in create id es) refl
