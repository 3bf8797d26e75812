-- ===== src/Services/Text/Labels.antt =====
-- Texts in which labels and values alternate.
use generic_target.Base.{
  ◌==◌, length, All, All-append, ℕ, ◌+◌, ◌≡◌, refl, sym, ap, ◌≢◌, Bool, true, false, not, ◌&&◌,
  List, [], ◌∷◌, ◌++◌, arith,
}
use generic_target.Base.Int.{ℤ, pos, negsuc}
use mathlib.Core.Path.{subst}
use generic_target.Base.Decimal.{IsDigit, decimal, decimal-IsDigit}
use generic_target.Base.Texts.{
  Free, Follows, cons_inj, first_inj, append_cancel, decimal-Free, decimal_inj,
}
use generic_target.Net.Addresses.{Ip}
use generic_target.Net.Text.{dotted}
use generic_target.Services.Text.{signed, bit, quotation_mark, labelled}

no_minus : (m : ℕ) (xs : List ℕ) → decimal m ≢ b'-' ∷ xs
no_minus m xs e =
    let h : All IsDigit (b'-' ∷ xs) = subst (All IsDigit) e (decimal-IsDigit m) in
    omega (arith, h.0.0)

pub signed_inj : (x y : ℤ) → signed x ≡ signed y → x ≡ y
unfolding signed
signed_inj (pos m) (pos n) e = ap pos (decimal_inj m n e)
signed_inj (pos m) (negsuc n) e = absurd (no_minus m (decimal (n + 1)) e)
signed_inj (negsuc m) (pos n) e = absurd (no_minus n (decimal (m + 1)) (sym e))
signed_inj (negsuc m) (negsuc n) e =
    let p : m + 1 ≡ n + 1 = decimal_inj (m + 1) (n + 1) (cons_inj e).1 in
    let q : m ≡ n = omega (arith, p) in ap negsuc q

pub bit_inj : (a b : Bool) → bit a ≡ bit b → a ≡ b
unfolding bit
bit_inj true true e = refl
bit_inj true false e = absurd (omega (arith, (cons_inj e).0))
bit_inj false true e = absurd (omega (arith, (cons_inj e).0))
bit_inj false false e = refl

-- A sign that stands in no number.
abbrev pub IsPlain : ℕ → Type 0
IsPlain c = ((d : ℕ) → IsDigit d → d ≢ c) × (b'-' ≢ c) × (b'.' ≢ c)

pub comma : IsPlain b','
comma = (λ d h e. omega (arith, h.0, h.1), λ e. omega (arith, e), λ e. omega (arith, e))

pub quote : IsPlain quotation_mark
quote = (λ d h e. omega (arith, h.0, h.1), λ e. omega (arith, e), λ e. omega (arith, e))

module _ (c : ℕ) (p : IsPlain c) where
  pub signed-Free : (x : ℤ) → Free c (signed x)
  unfolding signed
  signed-Free (pos n) = decimal-Free c n p.0
  signed-Free (negsuc n) = (p.1, decimal-Free c (n + 1) p.0)

  pub bit-Free : (b : Bool) → Free c (bit b)
  unfolding bit
  bit-Free true = (p.0 b'1' (omega arith, omega arith), tt)
  bit-Free false = (p.0 b'0' (omega arith, omega arith), tt)

  pub dotted-Free : (x : Ip) → Free c (dotted x)
  unfolding dotted
  dotted-Free x = point x.b0 _ (point x.b1 _ (point x.b2 _ (decimal-Free c x.b3 p.0)))
    where
      point : (n : ℕ) (rest : List ℕ) → Free c rest → Free c (decimal n ++ (b'.' ∷ rest))
      point n rest h =
          All-append (λ x. x ≢ c) (decimal n) (b'.' ∷ rest) (decimal-Free c n p.0) (p.2, h)

-- A sign that a label does not hold.
abbrev pub absent : ℕ → List ℕ → Bool
absent c [] = true
absent c (x ∷ xs) = not (x == c) && absent c xs

absent-Free : (c : ℕ) (xs : List ℕ) → absent c xs ≡ true → Free c xs
absent-Free c [] h = tt
absent-Free c (x ∷ xs) h = (ground arith, absent-Free c xs (ground arith))

-- A label begins with a comma.
abbrev pub Starts : List ℕ → Type 0
Starts [] = ⊥
Starts (c ∷ cs) = c ≡ b','

labelled-Follows :
    (labels values : List (List ℕ)) → All Starts labels → Follows b',' (labelled labels values)
unfolding labelled
labelled-Follows [] values h = tt
labelled-Follows (l ∷ labels) [] h = tt
labelled-Follows ([] ∷ labels) (v ∷ values) h = absurd h.0
labelled-Follows ((c ∷ l) ∷ labels) (v ∷ values) h = h.0

pub labelled-Free :
    (c : ℕ) (labels values : List (List ℕ))
    → All (λ l. absent c l ≡ true) labels
    → All (Free c) values
    → Free c (labelled labels values)
unfolding labelled
labelled-Free c [] values h k = tt
labelled-Free c (l ∷ labels) [] h k = tt
labelled-Free c (l ∷ labels) (v ∷ values) h k =
    All-append (λ x. x ≢ c) l (v ++ labelled labels values) (absent-Free c l h.0)
      (All-append (λ x. x ≢ c) v (labelled labels values) k.0
        (labelled-Free c labels values h.1 k.1))

pub labelled_inj :
    (labels vs ws : List (List ℕ))
    → All Starts labels
    → length vs ≡ length labels
    → length ws ≡ length labels
    → All (Free b',') vs
    → All (Free b',') ws
    → labelled labels vs ≡ labelled labels ws
    → vs ≡ ws
unfolding labelled
labelled_inj [] [] [] s lv lw fv fw e = refl
labelled_inj [] (v ∷ vs) ws s lv lw fv fw e = absurd (omega (arith, lv))
labelled_inj [] [] (w ∷ ws) s lv lw fv fw e = absurd (omega (arith, lw))
labelled_inj (l ∷ labels) [] ws s lv lw fv fw e = absurd (omega (arith, lv))
labelled_inj (l ∷ labels) (v ∷ vs) [] s lv lw fv fw e = absurd (omega (arith, lw))
labelled_inj (l ∷ labels) (v ∷ vs) (w ∷ ws) s lv lw fv fw e =
    let (p, q) =
      first_inj b',' v w (labelled labels vs) (labelled labels ws) fv.0 fw.0
        (labelled-Follows labels vs s.1) (labelled-Follows labels ws s.1)
        (append_cancel l (v ++ labelled labels vs) (w ++ labelled labels ws) e) in
    let r = labelled_inj labels vs ws s.1 (omega (arith, lv)) (omega (arith, lw)) fv.1 fw.1 q in
    cc (p, r)
