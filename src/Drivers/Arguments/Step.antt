-- ===== src/Drivers/Arguments/Step.antt =====
-- The arguments that a block reads behind its step.
use generic_target.Base.{
  ltb, ◌==◌, Bool-cases, length, take, length-take, ℕ, zero, suc, ◌+◌, ◌*◌, ◌^◌, ◌≤◌, ◌<◌, ◌≡◌,
  refl, sym, ap, ◌∙◌, ◌⊎◌, inl, inr, true, false, List, [], ◌∷◌, map, arith,
}
use mathlib.Core.Path.{subst}
use generic_target.Drivers.Arguments.{
  ArgumentOutputs, zero_counts, fill_characters, fill_arguments, application_arguments_step,
}
use generic_target.Drivers.Arguments.ReadBack.{
  read, read_arguments, fill_characters-Written, fill_characters-elsewhere,
}

place_fits : (k m c : ℕ) → k * c + c ≤ (k + suc m) * c
place_fits k m c = omega arith

read-agree : (f g : ℕ → ℕ) (i n : ℕ) → ((j : ℕ) → j < i + n → f j ≡ g j) → read f i n ≡ read g i n
read-agree f g i zero h = refl
read-agree f g i (suc n) h =
    λ x. h i (omega arith) x ∷ read-agree f g (i + 1) n (λ j l. h j (omega (arith, l))) x

zero_counts-zero : (n : ℕ) (f : ℕ → ℕ) (j : ℕ) → j < n → zero_counts n f j ≡ 0
unfolding zero_counts
zero_counts-zero zero f j l = absurd (omega (arith, l))
zero_counts-zero (suc n) f j l = elim (Bool-cases (j == n)) [
  | inl e ↦ rw e refl
  | inr e ↦ rw e (zero_counts-zero n f j (ground (arith, l, e)))
]

length-take-le : (n : ℕ) (l : List ℕ) → length (take n l) ≤ n
length-take-le n l = omega (arith, length-take n l)

module _ (max_chars max_arguments : ℕ) where
  -- The state behind the inner loop for argument `k`.
  abbrev put_argument : ℕ → List ℕ → ArgumentOutputs → ArgumentOutputs
  put_argument k a s =
      let t : ArgumentOutputs = fill_characters max_chars k 0 a s in
      record t { num_arguments = t.num_arguments + 1 }

  fill_arguments-more :
      (k : ℕ) (a : List ℕ) (args : List (List ℕ)) (s : ArgumentOutputs)
      → ltb k max_arguments ≡ true
      → fill_arguments max_chars max_arguments k (a ∷ args) s
        ≡ fill_arguments max_chars max_arguments (k + 1) args (put_argument k a s)
  unfolding fill_arguments
  fill_arguments-more k a args s e = rw e refl

  fill_arguments-full :
      (k : ℕ) (args : List (List ℕ)) (s : ArgumentOutputs)
      → ltb k max_arguments ≡ false
      → fill_arguments max_chars max_arguments k args s ≡ s
  unfolding fill_arguments
  fill_arguments-full k [] s e = refl
  fill_arguments-full k (a ∷ args) s e = rw e refl

  -- From `s` to `t` the arguments `args` were written from `k` on, and nothing behind `end`.
  abbrev Filled : ℕ → ℕ → List (List ℕ) → ArgumentOutputs → ArgumentOutputs → Type 0
  Filled end k args s t =
      (t.num_arguments ≡ s.num_arguments + length args)
      × ((j : ℕ) → j < k → t.num_chars j ≡ s.num_chars j)
      × ((j : ℕ) → (j < k * max_chars) ⊎ (end ≤ j) → t.arg_buffer j ≡ s.arg_buffer j)
      × (read_arguments max_chars k (length args) t ≡ map (take max_chars) args)

  Filled-put :
      (end k : ℕ) (a : List ℕ) (args : List (List ℕ)) (s t : ArgumentOutputs)
      → k * max_chars + max_chars ≤ 2 ^ 32
      → k * max_chars + max_chars ≤ end
      → s.num_chars k ≡ 0
      → Filled end (k + 1) args (put_argument k a s) t
      → Filled end k (a ∷ args) s t
  Filled-put end k a args s t f g z (num, counts, keeps, rest) =
      let b : ArgumentOutputs = fill_characters max_chars k 0 a s in
      let (chars, other, same, text) =
        fill_characters-Written max_chars k 0 max_chars a s f (omega arith) in
      let next_place : (k + 1) * max_chars ≡ k * max_chars + max_chars = omega arith in
      let le : length (take max_chars a) ≤ max_chars = length-take-le max_chars a in
      let count : t.num_chars k ≡ length (take max_chars a) =
        counts k (omega arith) ∙ omega (arith, chars, z) in
      let agree : read t.arg_buffer (k * max_chars + 0) (length (take max_chars a))
          ≡ read b.arg_buffer (k * max_chars + 0) (length (take max_chars a)) =
        read-agree t.arg_buffer b.arg_buffer (k * max_chars + 0) (length (take max_chars a))
          (λ j l. keeps j (inl (omega (arith, l, next_place, le)))) in
      let start : k * max_chars ≡ k * max_chars + 0 = omega arith in
      let first : read t.arg_buffer (k * max_chars) (t.num_chars k) ≡ take max_chars a =
        ap (read t.arg_buffer (k * max_chars)) count
        ∙ ap (λ i. read t.arg_buffer i (length (take max_chars a))) start
        ∙ agree
        ∙ text in
      (
        omega (arith, num, same),
        λ j l. counts j (omega (arith, l)) ∙ other j (ground (arith, l)),
        λ j h.
            keeps j (elim h [ inl l ↦ inl (omega (arith, l, next_place)) | inr l ↦ inr l ])
            ∙ fill_characters-elsewhere max_chars k 0 a s j f
                (elim h [ inl l ↦ inl (omega (arith, l)) | inr l ↦ inr (omega (arith, l, g)) ]),
        λ x. first x ∷ rest x,
      )

  fill_arguments-Filled :
      (k m : ℕ) (args : List (List ℕ)) (s : ArgumentOutputs)
      → max_arguments * max_chars ≤ 2 ^ 32
      → k + m ≡ max_arguments
      → ((j : ℕ) → k ≤ j → j < max_arguments → s.num_chars j ≡ 0)
      → Filled
          (max_arguments * max_chars)
          k
          (take m args)
          s
          (fill_arguments max_chars max_arguments k args s)
  unfolding fill_arguments
  fill_arguments-Filled k zero args s f e z =
      let full : ltb k max_arguments ≡ false = ground (arith, e) in
      subst (Filled (max_arguments * max_chars) k [] s) (sym (fill_arguments-full k args s full))
        (omega arith, λ j l. refl, λ j h. refl, refl)
  fill_arguments-Filled k (suc m) [] s f e z = (omega arith, λ j l. refl, λ j h. refl, refl)
  fill_arguments-Filled k (suc m) (a ∷ args) s f e z =
      let room : ltb k max_arguments ≡ true = ground (arith, e) in
      let fits : k * max_chars + max_chars ≤ max_arguments * max_chars =
        subst (λ n. k * max_chars + max_chars ≤ n * max_chars) e (place_fits k m max_chars) in
      let s' : ArgumentOutputs = put_argument k a s in
      let (chars, other, same, text) =
        fill_characters-Written max_chars k 0 max_chars a s (omega (arith, f, fits))
          (omega arith) in
      subst (Filled (max_arguments * max_chars) k (a ∷ take m args) s)
        (sym (fill_arguments-more k a args s room))
        (Filled-put (max_arguments * max_chars) k a (take m args) s
          (fill_arguments max_chars max_arguments (k + 1) args s') (omega (arith, f, fits)) fits
          (z k (omega arith) (omega (arith, e)))
          (fill_arguments-Filled (k + 1) m args s' f (omega (arith, e))
            (λ j l h. other j (ground (arith, l)) ∙ z j (omega (arith, l)) h)))

  -- A block whose buffer has room for `max_arguments` arguments of `max_chars` characters, and no
  -- more than a uint32_t can index, reads back its arguments: as many of them as fit, each cut off
  -- where its place ends. The step writes nothing outside the buffer.
  pub application_arguments_step-read :
      (args : List (List ℕ)) (s : ArgumentOutputs)
      → max_arguments * max_chars ≤ 2 ^ 32
      → let t : ArgumentOutputs = application_arguments_step max_chars max_arguments args s in
        (read_arguments max_chars 0 t.num_arguments t
          ≡ map (take max_chars) (take max_arguments args))
        × ((j : ℕ) → max_arguments * max_chars ≤ j → t.arg_buffer j ≡ s.arg_buffer j)
  unfolding application_arguments_step
  application_arguments_step-read args s f =
      let u : ArgumentOutputs = record s {
        num_chars = zero_counts max_arguments s.num_chars;
        num_arguments = 0;
      } in
      let (num, counts, keeps, text) =
        fill_arguments-Filled 0 max_arguments args u f (omega arith)
          (λ j l h. zero_counts-zero max_arguments s.num_chars j h) in
      let t : ArgumentOutputs = fill_arguments max_chars max_arguments 0 args u in
      let n : t.num_arguments ≡ length (take max_arguments args) = omega (arith, num) in
      (ap (λ i. read_arguments max_chars 0 i t) n ∙ text, λ j l. keeps j (inr l))
