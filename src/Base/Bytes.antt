-- ===== src/Base/Bytes.antt =====
-- 32-bit words as four bytes, the most significant first, and zero-terminated byte strings.
use Prim.Native.Char.{code}
use Prim.Native.String.{String}
use native.Mathlib.Omega.{arith}
use Prim.Native.Nat.{ℕ, ◌+◌, ◌*◌, ◌/◌, ◌%◌, ◌^◌, ◌<◌}
use mathlib.Core.Path.{◌≡◌, refl}
use mathlib.Core.Logic.{◌≢◌, inl, inr}
use mathlib.Core.Bool.{Bool, true, false, ◌&&◌}
use mathlib.Core.Option.{Option, some, none}
use mathlib.Core.List.{List, [], ◌∷◌, ◌++◌}
use generic_target.Base.Tests.{◌==◌, if◌then◌else◌, Bool-cases}
use generic_target.Base.Lists.{All}

-- `uint8_t((x >> 24) & 0xFF)` and so on.
unfoldable pub be32 : ℕ → List ℕ
be32 x = x / 2 ^ 24 % 256 ∷ x / 2 ^ 16 % 256 ∷ x / 2 ^ 8 % 256 ∷ x % 256 ∷ []

abbrev pub word32 : ℕ → ℕ → ℕ → ℕ → ℕ
word32 a b c d = a * 2 ^ 24 + b * 2 ^ 16 + c * 2 ^ 8 + d

-- The word in the first four bytes, and the bytes behind it.
unfoldable pub read_be32 : List ℕ → Option (ℕ × List ℕ)
read_be32 (a ∷ b ∷ c ∷ d ∷ rest) = some (word32 a b c d, rest)
read_be32 _ = none

pub word32_bytes :
    (x : ℕ)
    → x < 2 ^ 32
    → word32 (x / 2 ^ 24 % 256) (x / 2 ^ 16 % 256) (x / 2 ^ 8 % 256) (x % 256) ≡ x
word32_bytes x h = omega arith

pub read_be32-be32 :
    (x : ℕ) (rest : List ℕ) → x < 2 ^ 32 → read_be32 (be32 x ++ rest) ≡ some (x, rest)
unfolding read_be32 be32
read_be32-be32 x rest h = rw (word32_bytes x h) refl

-- The bytes before the first zero, and those behind it.
unfoldable pub until_zero : List ℕ → Option (List ℕ × List ℕ)
until_zero [] = none
until_zero (b ∷ bs) =
    if b == 0
    then some ([], bs)
    else elim (until_zero bs) [ none ↦ none | some (s, rest) ↦ some (b ∷ s, rest) ]

abbrev pub IsText : List ℕ → Type 0
IsText = All (λ b. b ≢ 0)

pub until_zero-append : (s rest : List ℕ) → IsText s → until_zero (s ++ (0 ∷ rest)) ≡ some (s, rest)
unfolding until_zero
until_zero-append [] rest h = refl
until_zero-append (b ∷ s) rest h =
    let other : (b == 0) ≡ false = ground arith in rw (other, until_zero-append s rest h.1) refl

-- The characters of an ASCII text.
abbrev pub codes : String → List ℕ
codes String.[] = []
codes (String.◌∷◌ c s) = code c ∷ codes s

-- `std::string` of an array of characters: those before the first zero.
unfoldable pub c_string : List ℕ → List ℕ
c_string [] = []
c_string (b ∷ bs) = let rest : List ℕ = c_string bs in if b == 0 then [] else b ∷ rest

pub IsText-append : (xs ys : List ℕ) → IsText xs → IsText ys → IsText (xs ++ ys)
IsText-append [] ys h k = k
IsText-append (x ∷ xs) ys h k = (h.0, IsText-append xs ys h.1 k)

pub c_string-IsText : (bs : List ℕ) → IsText (c_string bs)
unfolding c_string
c_string-IsText [] = tt
c_string-IsText (b ∷ bs) = elim (Bool-cases (b == 0)) [
  | inl e ↦ rw e tt
  | inr e ↦ rw e (ground arith, c_string-IsText bs)
]

-- The last byte of a list that is not empty.
unfoldable pub last? : List ℕ → Option ℕ
last? [] = none
last? (b ∷ []) = some b
last? (b ∷ c ∷ bs) = last? (c ∷ bs)

pub last?-append : (xs : List ℕ) (a b : ℕ) → last? (xs ++ (a ∷ b ∷ [])) ≡ some b
unfolding last?
last?-append [] a b = refl
last?-append (x ∷ []) a b = refl
last?-append (x ∷ y ∷ xs) a b = last?-append (y ∷ xs) a b

abbrev pub same_bytes : List ℕ → List ℕ → Bool
same_bytes [] [] = true
same_bytes [] (y ∷ ys) = false
same_bytes (x ∷ xs) [] = false
same_bytes (x ∷ xs) (y ∷ ys) = x == y && same_bytes xs ys
