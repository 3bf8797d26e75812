-- ===== src/Drivers/Arguments.antt =====
-- core/code/GenericTarget/GT_AppArguments.cpp and library/drivers/GT_DriverApplicationArguments.cpp.
pub mod ReadBack
pub mod Step
use generic_target.Base.{
  ltb, ◌==◌, if◌then◌else◌, take, ℕ, zero, suc, ◌+◌, ◌*◌, ◌%◌, ◌^◌, List, [], ◌∷◌,
}

-- `AppArguments::Parse`: the first `argc` of the strings at `argv`.
unfoldable pub parse : ℕ → List (List ℕ) → List (List ℕ)
parse argc argv = take argc argv

-- `argBuffer`, `numCharsPerArgument` and `numArguments`; an array is a function of the index.
pub record ArgumentOutputs : Type 0 where
  pub arg_buffer : ℕ → ℕ
  pub num_chars : ℕ → ℕ
  pub num_arguments : ℕ

abbrev pub set_at : ℕ → ℕ → (ℕ → ℕ) → ℕ → ℕ
set_at i v f j = if j == i then v else f j

-- The first loop: the counts below `n` are 0.
unfoldable pub zero_counts : ℕ → (ℕ → ℕ) → ℕ → ℕ
zero_counts zero f = f
zero_counts (suc n) f = set_at n 0 (zero_counts n f)

module _ (max_chars : ℕ) where
  -- The inner loop from `n` on, over the characters that are left of argument `k`; the index is a
  -- uint32_t.
  unfoldable pub fill_characters : ℕ → ℕ → List ℕ → ArgumentOutputs → ArgumentOutputs
  fill_characters k n [] s = s
  fill_characters k n (c ∷ cs) s =
      let t : ArgumentOutputs = record s {
        arg_buffer = set_at ((k * max_chars + n) % 2 ^ 32) c s.arg_buffer;
        num_chars = set_at k (s.num_chars k + 1) s.num_chars;
      } in
      let rest : ArgumentOutputs = fill_characters k (n + 1) cs t in
      if ltb n max_chars then rest else s

module _ (max_chars max_arguments : ℕ) where
  -- The outer loop from `k` on, over the arguments that are left.
  unfoldable pub fill_arguments : ℕ → List (List ℕ) → ArgumentOutputs → ArgumentOutputs
  fill_arguments k [] s = s
  fill_arguments k (a ∷ args) s =
      let t : ArgumentOutputs = fill_characters max_chars k 0 a s in
      let rest : ArgumentOutputs =
        fill_arguments (k + 1) args (record t { num_arguments = t.num_arguments + 1 }) in
      if ltb k max_arguments then rest else s

  -- `GT_DriverApplicationArgumentsStep`
  unfoldable pub application_arguments_step : List (List ℕ) → ArgumentOutputs → ArgumentOutputs
  application_arguments_step args s =
      fill_arguments 0 args
        (record s { num_chars = zero_counts max_arguments s.num_chars; num_arguments = 0 })
