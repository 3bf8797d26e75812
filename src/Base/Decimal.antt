-- ===== src/Base/Decimal.antt =====
-- Decimal text, as `std::to_string`, `%u` and `{:0wd}` print a number that is not negative, and the
-- number that the digits at the front of a text spell.
use native.Mathlib.Omega.{arith}
use native.Mathlib.Nat.{pow-suc, pow-zero}
use Prim.Native.Nat.{ℕ, zero, suc, ◌+◌, ◌-◌, ◌*◌, ◌/◌, ◌%◌, ◌^◌, ◌<◌, ◌≤◌}
use mathlib.Core.Path.{◌≡◌, refl, sym, ap, ◌∙◌}
use mathlib.Core.Logic.{inl, inr}
use mathlib.Core.Bool.{Bool, true, ◌&&◌}
use mathlib.Core.List.{List, [], ◌∷◌, ◌++◌, append_assoc}
use generic_target.Base.Tests.{ltb, leb, if◌then◌else◌, Bool-cases}
use generic_target.Base.Lists.{
  All, All-append, length, length-append, take, drop, take_front, drop_front,
}

-- The digits of `n`, at most as many as the fuel.
unfoldable pub digits : ℕ → ℕ → List ℕ
digits zero n = []
digits (suc fuel) n =
    let more = digits fuel (n / 10) ++ ((b'0' + n % 10) ∷ []) in
    if ltb n 10 then (b'0' + n) ∷ [] else more

-- `n + 1` digits are enough for `n`: `read-digits`.
unfoldable pub decimal : ℕ → List ℕ
decimal n = digits (suc n) n

-- The last `w` digits of `n`, with zeros in front.
unfoldable pub last_digits : ℕ → ℕ → List ℕ
last_digits zero n = []
last_digits (suc w) n = last_digits w (n / 10) ++ ((b'0' + n % 10) ∷ [])

-- `{:0wd}`
unfoldable pub padded : ℕ → ℕ → List ℕ
padded w n = if ltb n (10 ^ w) then last_digits w n else decimal n

abbrev pub is_digit : ℕ → Bool
is_digit c = leb b'0' c && leb c b'9'

abbrev pub IsDigit : ℕ → Type 0
IsDigit c = (b'0' ≤ c) × (c ≤ b'9')

-- The number that the digits at the front spell behind `n`, and what follows them.
unfoldable pub read_decimal : ℕ → List ℕ → ℕ × List ℕ
read_decimal n [] = (n, [])
read_decimal n (c ∷ cs) = if is_digit c then read_decimal (n * 10 + (c - b'0')) cs else (n, c ∷ cs)

read_last :
    (n : ℕ) (rest : List ℕ) → read_decimal (n / 10) ((b'0' + n % 10) ∷ rest) ≡ read_decimal n rest
unfolding read_decimal
read_last n rest =
    let digit : is_digit (b'0' + n % 10) ≡ true = ground arith in
    let same : n / 10 * 10 + (b'0' + n % 10 - b'0') ≡ n = omega arith in rw (digit, same) refl

read-digits :
    (fuel n : ℕ) (rest : List ℕ)
    → n < fuel
    → read_decimal 0 (digits fuel n ++ rest) ≡ read_decimal n rest
unfolding digits
read-digits zero n rest h = elim h [ ]
read-digits (suc fuel) n rest h = elim (Bool-cases (ltb n 10)) [
  | inl e ↦
      let front : n / 10 ≡ 0 = ground arith in
      let last : n % 10 ≡ n = ground arith in
      rw e (
        ap (λ k. read_decimal 0 ((b'0' + k) ∷ rest)) (sym last)
        ∙ ap (λ k. read_decimal k ((b'0' + n % 10) ∷ rest)) (sym front)
        ∙ read_last n rest)
  | inr e ↦
      rw (e, append_assoc (digits fuel (n / 10)) ((b'0' + n % 10) ∷ []) rest)
        (read-digits fuel (n / 10) ((b'0' + n % 10) ∷ rest) (ground arith) ∙ read_last n rest)
]

-- A number is read back from its decimal text, whatever follows.
pub read-decimal :
    (n : ℕ) (rest : List ℕ) → read_decimal 0 (decimal n ++ rest) ≡ read_decimal n rest
unfolding decimal
read-decimal n rest = read-digits (suc n) n rest (omega arith)

pub digits-IsDigit : (fuel n : ℕ) → All IsDigit (digits fuel n)
unfolding digits
digits-IsDigit zero n = tt
digits-IsDigit (suc fuel) n = elim (Bool-cases (ltb n 10)) [
  | inl e ↦ rw e ((omega arith, ground arith), tt)
  | inr e ↦ rw e (
      All-append IsDigit (digits fuel (n / 10)) ((b'0' + n % 10) ∷ [])
        (digits-IsDigit fuel (n / 10)) ((omega arith, omega arith), tt))
]

pub decimal-IsDigit : (n : ℕ) → All IsDigit (decimal n)
unfolding decimal
decimal-IsDigit n = digits-IsDigit (suc n) n

last_digits-IsDigit : (w n : ℕ) → All IsDigit (last_digits w n)
unfolding last_digits
last_digits-IsDigit zero n = tt
last_digits-IsDigit (suc w) n =
    All-append IsDigit (last_digits w (n / 10)) ((b'0' + n % 10) ∷ [])
      (last_digits-IsDigit w (n / 10)) ((omega arith, omega arith), tt)

pub padded-IsDigit : (w n : ℕ) → All IsDigit (padded w n)
unfolding padded
padded-IsDigit w n = elim (Bool-cases (ltb n (10 ^ w))) [
  | inl e ↦ rw e (last_digits-IsDigit w n)
  | inr e ↦ rw e (decimal-IsDigit n)
]

pub length-last_digits : (w n : ℕ) → length (last_digits w n) ≡ w
unfolding last_digits
length-last_digits zero n = refl
length-last_digits (suc w) n = omega (
  arith,
  length-append {0} (last_digits w (n / 10)) ((b'0' + n % 10) ∷ []),
  length-last_digits w (n / 10),
)

tenth_lt : (w n : ℕ) → n < 10 ^ suc w → n / 10 < 10 ^ w
tenth_lt w n h = omega (arith, h, pow-suc 10 w)

-- A number of at most `w` digits is read back from `w` digits.
pub read-last_digits :
    (w n : ℕ) (rest : List ℕ)
    → n < 10 ^ w
    → read_decimal 0 (last_digits w n ++ rest) ≡ read_decimal n rest
unfolding last_digits
read-last_digits zero n rest h = ap (λ k. read_decimal k rest) (omega (arith, h))
read-last_digits (suc w) n rest h =
    rw (append_assoc (last_digits w (n / 10)) ((b'0' + n % 10) ∷ []) rest)
      (read-last_digits w (n / 10) ((b'0' + n % 10) ∷ rest) (tenth_lt w n h) ∙ read_last n rest)

length-digits : (fuel k n : ℕ) → n < 10 ^ suc k → length (digits fuel n) ≤ suc k
unfolding digits
length-digits zero k n h = omega arith
length-digits (suc fuel) zero n h =
    let small : ltb n 10 ≡ true = ground (arith, pow-suc 10 0, pow-zero 10) in
    rw small (omega arith)
length-digits (suc fuel) (suc k) n h = elim (Bool-cases (ltb n 10)) [
  | inl e ↦ rw e (omega arith)
  | inr e ↦ rw e (
      omega (
        arith,
        length-append {0} (digits fuel (n / 10)) ((b'0' + n % 10) ∷ []),
        length-digits fuel k (n / 10) (tenth_lt (suc k) n h),
      ))
]

-- A number below 10 ^ w has at most `w` digits.
pub length-decimal : (k n : ℕ) → n < 10 ^ suc k → length (decimal n) ≤ suc k
unfolding decimal
length-decimal k n h = length-digits (suc n) k n h

module _ (w n : ℕ) (small : n < 10 ^ w) where
  pub padded-last_digits : padded w n ≡ last_digits w n
  unfolding padded
  padded-last_digits = let e : ltb n (10 ^ w) ≡ true = ground arith in rw e refl

-- Two texts that begin with numbers of one width are equal only if the numbers and the rests are.
pub padded_inj :
    (w m n : ℕ) (xs ys : List ℕ)
    → m < 10 ^ w
    → n < 10 ^ w
    → padded w m ++ xs ≡ padded w n ++ ys
    → (m ≡ n) × (xs ≡ ys)
unfolding read_decimal
padded_inj w m n xs ys hm hn e =
    let f : last_digits w m ++ xs ≡ last_digits w n ++ ys =
      ap (λ l. l ++ xs) (sym (padded-last_digits w m hm))
      ∙ e
      ∙ ap (λ l. l ++ ys) (padded-last_digits w n hn) in
    let same : last_digits w m ≡ last_digits w n =
      sym (take_front w (last_digits w m) xs (length-last_digits w m))
      ∙ ap (take w) f
      ∙ take_front w (last_digits w n) ys (length-last_digits w n) in
    (
      ap (λ r. r.0)
          (sym (read-last_digits w m [] hm)
            ∙ ap (λ l. read_decimal 0 (l ++ [])) same
            ∙ read-last_digits w n [] hn),
      sym (drop_front w (last_digits w m) xs (length-last_digits w m))
          ∙ ap (drop w) f
          ∙ drop_front w (last_digits w n) ys (length-last_digits w n),
    )
