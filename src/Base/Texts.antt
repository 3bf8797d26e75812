-- ===== src/Base/Texts.antt =====
-- Texts that are split at a sign.
use Prim.Native.Nat.{ℕ}
use mathlib.Core.Path.{◌≡◌, refl, sym, ap, ◌∙◌}
use mathlib.Core.Logic.{◌≢◌}
use mathlib.Core.List.{List, [], ◌∷◌, ◌++◌}
use generic_target.Base.Lists.{All, length, drop, drop-append}
use generic_target.Base.Decimal.{IsDigit, decimal, read_decimal, read-decimal, decimal-IsDigit}

abbrev pub Free : ℕ → List ℕ → Type 0
Free c = All (λ x. x ≢ c)

pub cons_inj {ℓ} : {A : Type ℓ} {x y : A} {xs ys : List A} → x ∷ xs ≡ y ∷ ys → (x ≡ y) × (xs ≡ ys)
cons_inj e = (cc, cc)

pub not_split : (c : ℕ) (ys es ds : List ℕ) → Free c ds → ds ≢ ys ++ (c ∷ es)
not_split c [] es [] h e = cc
not_split c [] es (d ∷ ds) h e = h.0 (cons_inj e).0
not_split c (y ∷ ys) es [] h e = cc
not_split c (y ∷ ys) es (d ∷ ds) h e = not_split c ys es ds h.1 (cons_inj e).1

-- A text is split at the last place of a sign in one way.
pub split_inj :
    (c : ℕ) (xs ys ds es : List ℕ)
    → Free c ds
    → Free c es
    → xs ++ (c ∷ ds) ≡ ys ++ (c ∷ es)
    → (xs ≡ ys) × (ds ≡ es)
split_inj c [] [] ds es hd he e = (refl, (cons_inj e).1)
split_inj c [] (y ∷ ys) ds es hd he e = absurd (not_split c ys es ds hd (cons_inj e).1)
split_inj c (x ∷ xs) [] ds es hd he e = absurd (not_split c xs ds es he (sym (cons_inj e).1))
split_inj c (x ∷ xs) (y ∷ ys) ds es hd he e =
    let (p, q) = cons_inj e in let (r, s) = split_inj c xs ys ds es hd he q in (cc (p, r), s)

pub append_cancel : (p xs ys : List ℕ) → p ++ xs ≡ p ++ ys → xs ≡ ys
append_cancel p xs ys e = sym (drop-append p xs) ∙ ap (drop (length p)) e ∙ drop-append p ys

pub Free-digits : (c : ℕ) (ds : List ℕ) → ((d : ℕ) → IsDigit d → d ≢ c) → All IsDigit ds → Free c ds
Free-digits c [] f h = tt
Free-digits c (d ∷ ds) f (h, hs) = (f d h, Free-digits c ds f hs)

pub decimal-Free : (c n : ℕ) → ((d : ℕ) → IsDigit d → d ≢ c) → Free c (decimal n)
decimal-Free c n f = Free-digits c (decimal n) f (decimal-IsDigit n)

pub decimal_inj : (m n : ℕ) → decimal m ≡ decimal n → m ≡ n
unfolding read_decimal
decimal_inj m n e =
    ap (λ r. r.0)
      (sym (read-decimal m []) ∙ ap (λ l. read_decimal 0 (l ++ [])) e ∙ read-decimal n [])

-- What follows a text: nothing, or the sign.
abbrev pub Follows : ℕ → List ℕ → Type 0
Follows c [] = Unit
Follows c (x ∷ xs) = x ≡ c

-- A text is split at the first place of a sign in one way.
pub first_inj :
    (c : ℕ) (xs ys r s : List ℕ)
    → Free c xs
    → Free c ys
    → Follows c r
    → Follows c s
    → xs ++ r ≡ ys ++ s
    → (xs ≡ ys) × (r ≡ s)
first_inj c [] [] r s hx hy hr hs e = (refl, e)
first_inj c [] (y ∷ ys) [] s hx hy hr hs e = absurd (cc e)
first_inj c [] (y ∷ ys) (x ∷ r) s hx hy hr hs e = absurd (hy.0 (sym (cons_inj e).0 ∙ hr))
first_inj c (x ∷ xs) [] r [] hx hy hr hs e = absurd (cc e)
first_inj c (x ∷ xs) [] r (y ∷ s) hx hy hr hs e = absurd (hx.0 ((cons_inj e).0 ∙ hs))
first_inj c (x ∷ xs) (y ∷ ys) r s hx hy hr hs e =
    let (p, q) = cons_inj e in
    let (u, v) = first_inj c xs ys r s hx.1 hy.1 hr hs q in (cc (p, u), v)
