-- ===== src/Services.antt =====
-- library/drivers/GT_DriverImplementationDetails.{hpp,cpp}: `m_services` of `UDPServiceManager` and of
-- `TCPClientServiceManager`, a vector of services with their ids, and the loops over it.
pub mod Text
pub mod Routing
pub mod Creation
use generic_target.Base.{if◌then◌else◌, Bool, Option, none, some, List, [], ◌∷◌, ◌++◌}
use generic_target.Base.Int.{eq_ℤ, ℤ}

pub record Entry (S : Type 0) : Type 0 where
  pub id : ℤ  -- int32_t
  pub service : S

module _ {S : Type 0} where
  -- The loop of a send or receive: the first service with the id, and `r` without one.
  unfoldable pub at_service {ℓ} :
      {R : Type ℓ} → ℤ → (S → S × R) → R → List (Entry S) → List (Entry S) × R
  at_service id f r [] = ([], r)
  at_service id f r (e ∷ es) =
      let (s, x) = f e.service in
      let (fs, y) = at_service id f r es in
      if eq_ℤ id e.id then (record e { service = s } ∷ es, x) else (e ∷ fs, y)

  -- The loop of `AddService`: `none` where no service has the id.
  unfoldable pub create_in : (S → S × Bool) → ℤ → List (Entry S) → Option (List (Entry S) × Bool)
  create_in create id [] = none
  create_in create id (e ∷ es) =
      if eq_ℤ id e.id
      then (let (s, ok) = create e.service in some (record e { service = s } ∷ es, ok))
      else elim (create_in create id es) [ none ↦ none | some (fs, ok) ↦ some (e ∷ fs, ok) ]

  -- A new service takes its place behind the others, even where its creation fails.
  unfoldable pub with_new : (S → S × Bool) → S → ℤ → List (Entry S) → List (Entry S) × Bool
  with_new create new id es = elim (create_in create id es) [
    | some r ↦ r
    | none ↦ let (s, ok) = create new in (es ++ (record { id = id; service = s } ∷ []), ok)
  ]
