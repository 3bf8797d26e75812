-- ===== src/Drivers/Arguments/ReadBack.antt =====
-- The characters that a block reads behind the inner loop of the step.
use generic_target.Base.{
  ltb, ◌==◌, ltb→lt, Bool-cases, length, take, ℕ, zero, suc, ◌+◌, ◌*◌, ◌%◌, ◌^◌, ◌≤◌, ◌<◌, ◌≡◌,
  refl, sym, ap, ◌∙◌, ◌⊎◌, inl, inr, true, false, List, [], ◌∷◌, arith,
}
use mathlib.Core.Path.{subst}
use generic_target.Drivers.Arguments.{ArgumentOutputs, set_at, fill_characters}

-- The `m` characters of a buffer from `i` on.
abbrev pub read : (ℕ → ℕ) → ℕ → ℕ → List ℕ
read b i zero = []
read b i (suc m) = b i ∷ read b (i + 1) m

-- The arguments from `k` on, `m` of them.
abbrev pub read_arguments : ℕ → ℕ → ℕ → ArgumentOutputs → List (List ℕ)
read_arguments max_chars k zero s = []
read_arguments max_chars k (suc m) s =
    read s.arg_buffer (k * max_chars) (s.num_chars k) ∷ read_arguments max_chars (k + 1) m s

index_fits : (i n m : ℕ) → i + m ≤ 2 ^ 32 → n < m → (i + n) % 2 ^ 32 ≡ i + n
index_fits i n m f l = omega (arith, f, l)

set_at-other : (i v : ℕ) (f : ℕ → ℕ) (j : ℕ) → (j == i) ≡ false → set_at i v f j ≡ f j
set_at-other i v f j e = rw e refl

set_at-same : (i v : ℕ) (f : ℕ → ℕ) → set_at i v f i ≡ v
set_at-same i v f = let e : (i == i) ≡ true = ground arith in rw e refl

module _ (max_chars : ℕ) where
  -- The outputs behind one round of the inner loop.
  abbrev put : ℕ → ℕ → ℕ → ArgumentOutputs → ArgumentOutputs
  put k n c s = record s {
    arg_buffer = set_at ((k * max_chars + n) % 2 ^ 32) c s.arg_buffer;
    num_chars = set_at k (s.num_chars k + 1) s.num_chars;
  }

  fill_characters-more :
      (k n c : ℕ) (cs : List ℕ) (s : ArgumentOutputs)
      → ltb n max_chars ≡ true
      → fill_characters max_chars k n (c ∷ cs) s
        ≡ fill_characters max_chars k (n + 1) cs (put k n c s)
  unfolding fill_characters
  fill_characters-more k n c cs s e = rw e refl

  fill_characters-full :
      (k n c : ℕ) (cs : List ℕ) (s : ArgumentOutputs)
      → ltb n max_chars ≡ false
      → fill_characters max_chars k n (c ∷ cs) s ≡ s
  unfolding fill_characters
  fill_characters-full k n c cs s e = rw e refl

  -- The inner loop from `n` on writes nothing outside the rest of the argument's place.
  pub fill_characters-elsewhere :
      (k n : ℕ) (cs : List ℕ) (s : ArgumentOutputs) (j : ℕ)
      → k * max_chars + max_chars ≤ 2 ^ 32
      → (j < k * max_chars + n) ⊎ (k * max_chars + max_chars ≤ j)
      → (fill_characters max_chars k n cs s).arg_buffer j ≡ s.arg_buffer j
  unfolding fill_characters
  fill_characters-elsewhere k n [] s j f h = refl
  fill_characters-elsewhere k n (c ∷ cs) s j f h = elim (Bool-cases (ltb n max_chars)) [
    | inr e ↦ ap (λ t. t.arg_buffer j) (fill_characters-full k n c cs s e)
    | inl e ↦
        let l : n < max_chars = ltb→lt n max_chars e in
        let i : (k * max_chars + n) % 2 ^ 32 ≡ k * max_chars + n =
          index_fits (k * max_chars) n max_chars f l in
        let far : (j == (k * max_chars + n) % 2 ^ 32) ≡ false = ground (arith, i, h, l) in
        ap (λ t. t.arg_buffer j) (fill_characters-more k n c cs s e)
        ∙ fill_characters-elsewhere k (n + 1) cs (put k n c s) j f (ground (arith, h))
        ∙ set_at-other ((k * max_chars + n) % 2 ^ 32) c s.arg_buffer j far
  ]

  -- From `s` to `t` the characters `cs` of argument `k` were written from `n` on.
  abbrev pub Written : ℕ → ℕ → List ℕ → ArgumentOutputs → ArgumentOutputs → Type 0
  Written k n cs s t =
      (t.num_chars k ≡ s.num_chars k + length cs)
      × ((j : ℕ) → (j == k) ≡ false → t.num_chars j ≡ s.num_chars j)
      × (t.num_arguments ≡ s.num_arguments)
      × (read t.arg_buffer (k * max_chars + n) (length cs) ≡ cs)

  Written-put :
      (k n c : ℕ) (cs : List ℕ) (s t : ArgumentOutputs)
      → (k * max_chars + n) % 2 ^ 32 ≡ k * max_chars + n
      → t.arg_buffer (k * max_chars + n) ≡ (put k n c s).arg_buffer (k * max_chars + n)
      → Written k (n + 1) cs (put k n c s) t
      → Written k n (c ∷ cs) s t
  Written-put k n c cs s t i e (num, other, args, chars) = (
    omega (arith, num, set_at-same k (s.num_chars k + 1) s.num_chars),
    λ j d. other j d ∙ set_at-other k (s.num_chars k + 1) s.num_chars j d,
    args,
    λ x. first x ∷ rest x,
  )
    where
      first : t.arg_buffer (k * max_chars + n) ≡ c
      first =
          e
          ∙ ap (λ z. set_at z c s.arg_buffer (k * max_chars + n)) i
          ∙ set_at-same (k * max_chars + n) c s.arg_buffer

      rest : read t.arg_buffer (k * max_chars + n + 1) (length cs) ≡ cs
      rest =
          let a : k * max_chars + n + 1 ≡ k * max_chars + (n + 1) = omega arith in
          ap (λ z. read t.arg_buffer z (length cs)) a ∙ chars

  -- The inner loop from `n` on, with room for `r` more characters.
  pub fill_characters-Written :
      (k n r : ℕ) (cs : List ℕ) (s : ArgumentOutputs)
      → k * max_chars + max_chars ≤ 2 ^ 32
      → n + r ≡ max_chars
      → Written k n (take r cs) s (fill_characters max_chars k n cs s)
  unfolding fill_characters
  fill_characters-Written k n zero [] s f e = (omega arith, λ j d. refl, refl, refl)
  fill_characters-Written k n (suc r) [] s f e = (omega arith, λ j d. refl, refl, refl)
  fill_characters-Written k n zero (c ∷ cs) s f e =
      let full : ltb n max_chars ≡ false = ground (arith, e) in
      subst (Written k n [] s) (sym (fill_characters-full k n c cs s full))
        (omega arith, λ j d. refl, refl, refl)
  fill_characters-Written k n (suc r) (c ∷ cs) s f e =
      let room : ltb n max_chars ≡ true = ground (arith, e) in
      let i : (k * max_chars + n) % 2 ^ 32 ≡ k * max_chars + n =
        index_fits (k * max_chars) n max_chars f (omega (arith, e)) in
      let t : ArgumentOutputs = fill_characters max_chars k (n + 1) cs (put k n c s) in
      subst (Written k n (c ∷ take r cs) s) (sym (fill_characters-more k n c cs s room)) (
        Written-put k n c (take r cs) s t i
          (fill_characters-elsewhere k (n + 1) cs (put k n c s) (k * max_chars + n) f
            (inl (omega arith)))
          (fill_characters-Written k (n + 1) r cs (put k n c s) f (omega (arith, e))))
