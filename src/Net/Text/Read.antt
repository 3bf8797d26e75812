-- ===== src/Net/Text/Read.antt =====
-- The addresses that the printed texts stand for.
use generic_target.Base.{
  ◌==◌, if◌then◌else◌, Bool-cases, length, take, length-append, ℕ, zero, suc, ◌≤◌, ◌<◌, ◌≡◌, refl,
  sym, ap, ◌∙◌, inl, inr, not, ◌||◌, Option, none, some, List, [], ◌∷◌, ◌++◌, append_assoc,
  append-nil, arith,
}
use generic_target.Base.Decimal.{decimal, length-decimal, read_decimal, read-decimal}
use generic_target.Net.Addresses.{Ip, Address, IsIp, Ip-ext}
use generic_target.Net.Text.{
  dotted, address_to_string, snprintf, any_ip, bind_address, convert_to_mreq,
}

-- A text with the sign `c` at its front, less that sign.
abbrev pub after : ℕ → List ℕ → Option (List ℕ)
after c [] = none
after c (x ∷ xs) = if x == c then some xs else none

infixl 5 ◌>>=◌
abbrev ◌>>=◌ {ℓ κ} : {A : Type ℓ} {B : Type κ} → Option A → (A → Option B) → Option B
none >>= f = none
some a >>= f = f a

-- Four numbers with dots between them, and what follows them.
pub read_ip : List ℕ → Option (Ip × List ℕ)
read_ip text = do
  let (b0, rest) = read_decimal 0 text
  rest ← after b'.' rest
  let (b1, rest) = read_decimal 0 rest
  rest ← after b'.' rest
  let (b2, rest) = read_decimal 0 rest
  rest ← after b'.' rest
  let (b3, rest) = read_decimal 0 rest
  some (record { b0 = b0; b1 = b1; b2 = b2; b3 = b3 }, rest)

-- An address and a port, with a colon between them and nothing behind.
pub read_address : List ℕ → Option Address
read_address text = do
  (ip, rest) ← read_ip text
  rest ← after b':' rest
  let (port, rest) = read_decimal 0 rest
  if length rest == 0 then some (record { ip = ip; port = port }) else none

-- The text is the address in the dotted notation: four decimal numbers below 256 without leading
-- zeros, with dots between them, and nothing else.
abbrev pub Spells : List ℕ → Ip → Type 0
Spells text x =
    IsIp x
    × (text
        ≡ decimal x.b0
          ++ (b'.' ∷ (decimal x.b1 ++ (b'.' ∷ (decimal x.b2 ++ (b'.' ∷ decimal x.b3))))))

-- A number ends in front of a sign that is no digit.
dot_ends : (n : ℕ) (rest : List ℕ) → read_decimal n (b'.' ∷ rest) ≡ (n, b'.' ∷ rest)
unfolding read_decimal
dot_ends n rest = refl

colon_ends : (n : ℕ) (rest : List ℕ) → read_decimal n (b':' ∷ rest) ≡ (n, b':' ∷ rest)
unfolding read_decimal
colon_ends n rest = refl

text_ends : (n : ℕ) → read_decimal n [] ≡ (n, [])
unfolding read_decimal
text_ends n = refl

read_ip-dotted :
    (x : Ip) (rest : List ℕ)
    → read_decimal x.b3 rest ≡ (x.b3, rest)
    → read_ip (dotted x ++ rest) ≡ some (x, rest)
unfolding read_ip dotted
read_ip-dotted x rest h = simp (append_assoc, read-decimal, dot_ends, h) refl

read_ip-dotted_alone : (x : Ip) → read_ip (dotted x) ≡ some (x, [])
read_ip-dotted_alone x =
    ap read_ip (sym (append-nil (dotted x))) ∙ read_ip-dotted x [] (text_ends x.b3)

-- A text that is an address is read as it.
pub read_ip-Spells : (text : List ℕ) (x : Ip) → Spells text x → read_ip text ≡ some (x, [])
unfolding dotted
read_ip-Spells text x (small, e) = ap read_ip e ∙ read_ip-dotted_alone x

-- No two addresses are printed alike.
pub dotted_inj : (x y : Ip) → dotted x ≡ dotted y → x ≡ y
dotted_inj x y e =
    ap (λ o. elim o [ none ↦ x | some r ↦ r.0 ])
      (sym (read_ip-dotted_alone x) ∙ ap read_ip e ∙ read_ip-dotted_alone y)

-- The text that `Address::ToString` prints is read back as the address.
pub read_address-to_string : (a : Address) → read_address (address_to_string a) ≡ some a
unfolding read_address address_to_string
read_address-to_string a =
    simp
      (
        read_ip-dotted a.ip (b':' ∷ decimal a.port) (colon_ends a.ip.b3 (decimal a.port)),
        ap (read_decimal 0) (sym (append-nil (decimal a.port))) ∙ read-decimal a.port [],
        text_ends,
      )
      refl

short : (n : ℕ) → n < 256 → length (decimal n) ≤ 3
short n h = length-decimal 2 n (omega (arith, h))

-- The text of an address fits into 16 characters with its terminating zero.
length-dotted : (x : Ip) → IsIp x → length (dotted x) ≤ 15
unfolding dotted
length-dotted x (h0, h1, h2, h3) = omega (
  arith,
  short x.b0 h0,
  short x.b1 h1,
  short x.b2 h2,
  short x.b3 h3,
  length-append {0} (decimal x.b0)
      (b'.' ∷ (decimal x.b1 ++ (b'.' ∷ (decimal x.b2 ++ (b'.' ∷ decimal x.b3))))),
  length-append {0} (decimal x.b1) (b'.' ∷ (decimal x.b2 ++ (b'.' ∷ decimal x.b3))),
  length-append {0} (decimal x.b2) (b'.' ∷ decimal x.b3),
)

take_all {ℓ} : {A : Type ℓ} (n : ℕ) (xs : List A) → length xs ≤ n → take n xs ≡ xs
take_all zero [] h = refl
take_all zero (x ∷ xs) h = absurd (omega (arith, h))
take_all (suc n) [] h = refl
take_all (suc n) (x ∷ xs) h = ap (◌∷◌ x) (take_all n xs (omega (arith, h)))

Spells-dotted : (x : Ip) → IsIp x → Spells (snprintf 16 (dotted x)) x
unfolding dotted
Spells-dotted x h = (h, take_all 15 (dotted x) (length-dotted x h))

module _ (inet_addr : List ℕ → Option Ip)
    (documented : (text : List ℕ) (x : Ip) → Spells text x → inet_addr text ≡ some x) where
  -- What `Bind` and `ConvertToMREQ` hand to the system are the addresses that they are given: the
  -- text of an address fits into the array of 16 characters, and `inet_addr`, which
  -- reads the dotted notation without leading zeros, gives the address back.
  pub bound_addresses :
      (x y : Ip) (if_nametoindex : List ℕ → ℕ) (interface_name : List ℕ)
      → IsIp x
      → IsIp y
      → (bind_address inet_addr x ≡ some x)
        × ((convert_to_mreq inet_addr if_nametoindex x interface_name y).multiaddr ≡ some x)
        × ((convert_to_mreq inet_addr if_nametoindex x interface_name y).address ≡ some y)
  unfolding bind_address convert_to_mreq
  bound_addresses x y if_nametoindex interface_name hx hy =
      let printed = documented (snprintf 16 (dotted x)) x (Spells-dotted x hx) in
      (
        elim (Bool-cases
            (not (x.b0 == 0) || (not (x.b1 == 0) || (not (x.b2 == 0) || not (x.b3 == 0))))) [
              | inl e ↦ rw e printed
              | inr e ↦ rw e (
                  ap some (
                    Ip-ext any_ip x (ground (arith, e)) (ground (arith, e)) (ground (arith, e))
                      (ground (arith, e))))
            ],
        printed,
        documented (snprintf 16 (dotted y)) y (Spells-dotted y hy),
      )
