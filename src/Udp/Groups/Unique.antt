-- ===== src/Udp/Groups/Unique.antt =====
-- The lists that `MakeUnique` and `RemoveInvalidGroupAddresses` leave.
use generic_target.Base.{
  leb, Bool-cases, ◌≡◌, refl, sym, ap, ◌∙◌, inl, inr, Bool, true, false, not, ◌&&◌, ◌||◌, List, [],
  ◌∷◌, ◌++◌, arith,
}
use generic_target.Net.Addresses.{Ip, same_ip, same_ip_iff, same_ip_sym}
use generic_target.Udp.Groups.{
  contains, unique_from, make_unique, remove_invalid_group_addresses, is_invalid_group,
}

-- Membership in a list of addresses.
abbrev pub In : Ip → List Ip → Type 0
In g xs = contains g xs ≡ true

abbrev pub Distinct : List Ip → Type 0
Distinct [] = Unit
Distinct (x ∷ xs) = (contains x xs ≡ false) × Distinct xs

pub contains-append :
    (g : Ip) (xs ys : List Ip) → contains g (xs ++ ys) ≡ contains g xs || contains g ys
unfolding contains
contains-append g [] ys = refl
contains-append g (x ∷ xs) ys = elim (Bool-cases (same_ip x g)) [
  | inl e ↦ rw e refl
  | inr e ↦ rw (e, contains-append g xs ys) refl
]

-- A distinct list stays so with a new address behind it.
Distinct-snoc :
    (xs : List Ip) (g : Ip) → Distinct xs → contains g xs ≡ false → Distinct (xs ++ (g ∷ []))
unfolding contains
Distinct-snoc [] g d n = (refl, tt)
Distinct-snoc (x ∷ xs) g d n =
    let e : same_ip x g ≡ false = ground arith in
    let f : same_ip g x ≡ false = same_ip_sym g x ∙ e in
    (contains-append x xs (g ∷ []) ∙ rw (d.0, f) refl, Distinct-snoc xs g d.1 (ground arith))

unique_from-Distinct : (kept xs : List Ip) → Distinct kept → Distinct (unique_from kept xs)
unfolding unique_from
unique_from-Distinct kept [] d = d
unique_from-Distinct kept (g ∷ gs) d = elim (Bool-cases (contains g kept)) [
  | inl e ↦ rw e (unique_from-Distinct kept gs d)
  | inr e ↦ rw e (unique_from-Distinct (kept ++ (g ∷ [])) gs (Distinct-snoc kept g d e))
]

-- Equal addresses are in the same lists.
pub contains-same : (x g : Ip) (xs : List Ip) → same_ip x g ≡ true → contains x xs ≡ contains g xs
contains-same x g xs e = rw ((same_ip_iff x g).0 e) refl

contains-unique_from :
    (h : Ip) (kept xs : List Ip)
    → contains h (unique_from kept xs) ≡ contains h kept || contains h xs
unfolding unique_from contains
contains-unique_from h kept [] = ground arith
contains-unique_from h kept (g ∷ gs) = elim (Bool-cases (contains g kept)) [
  | inl e ↦
      rw (e, contains-unique_from h kept gs)
        (elim (Bool-cases (same_ip g h)) [
          | inl f ↦ rw (f, sym (contains-same g h kept f), e) refl
          | inr f ↦ rw f refl
        ])
  | inr e ↦
      rw (e, contains-unique_from h (kept ++ (g ∷ [])) gs, contains-append h kept (g ∷ []))
        (ground arith)
]

-- `MakeUnique` leaves a list without repetition that has the same addresses.
pub make_unique-Distinct :
    (xs : List Ip)
    → Distinct (make_unique xs) × ((g : Ip) → contains g (make_unique xs) ≡ contains g xs)
unfolding make_unique contains
make_unique-Distinct xs = (unique_from-Distinct [] xs tt, λ g. contains-unique_from g [] xs)

abbrev pub is_multicast : Ip → Bool
is_multicast g = leb 224 g.b0 && leb g.b0 239

is_invalid_group_lem : (g : Ip) → is_invalid_group g ≡ not (is_multicast g)
unfolding is_invalid_group
is_invalid_group_lem g = ground arith

-- The addresses that `RemoveInvalidGroupAddresses` leaves are those of the list whose first byte is
-- between 224 and 239.
pub contains-remove_invalid :
    (g : Ip) (xs : List Ip)
    → contains g (remove_invalid_group_addresses xs) ≡ (contains g xs && is_multicast g)
unfolding remove_invalid_group_addresses contains
contains-remove_invalid g [] = refl
contains-remove_invalid g (x ∷ xs) = elim (Bool-cases (same_ip x g)) [
  | inl f ↦
      let e : is_invalid_group x ≡ not (is_multicast g) =
        ap is_invalid_group ((same_ip_iff x g).0 f) ∙ is_invalid_group_lem g in
      elim (Bool-cases (is_multicast g)) [
        | inl m ↦ rw (f, e, m) (rw f refl)
        | inr m ↦ rw (f, e, m, contains-remove_invalid g xs) (ground arith)
      ]
  | inr f ↦ elim (Bool-cases (is_invalid_group x)) [
    | inl e ↦ rw (e, f) (contains-remove_invalid g xs)
    | inr e ↦ rw (e, f) (contains-remove_invalid g xs)
  ]
]
