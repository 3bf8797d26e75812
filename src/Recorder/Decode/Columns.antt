-- ===== src/Recorder/Decode/Columns.antt =====
-- The signals that the decoder takes out of the bytes of samples, one column of the samples for each.
use generic_target.Base.{
  ◌==◌, Bool-cases, length, take, drop, length-append, All, take_front, drop_front, ℕ, suc, ◌+◌,
  ◌<◌, ◌≡◌, refl, sym, ap, ◌∙◌, inl, inr, true, false, some, List, [], ◌∷◌, ◌++◌, map, append_assoc,
  arith,
}
use generic_target.Recorder.Header.Convert.{Signal, bytes_of_type, get_size_of_signal}
use generic_target.Recorder.Decode.{Values, bytes_at, decode_signals}

abbrev pub concat : List (List ℕ) → List ℕ
concat [] = []
concat (x ∷ xs) = x ++ concat xs

abbrev pub sum : List ℕ → ℕ
sum [] = 0
sum (x ∷ xs) = x + sum xs

-- The values have these numbers of bytes.
abbrev pub Widths : List ℕ → List (List ℕ) → Type 0
Widths [] [] = Unit
Widths [] (c ∷ cs) = ⊥
Widths (w ∷ ws) [] = ⊥
Widths (w ∷ ws) (c ∷ cs) = (length c ≡ w) × Widths ws cs

abbrev pub first : List (List ℕ) → List ℕ
first [] = []
first (c ∷ cs) = c

abbrev pub others : List (List ℕ) → List (List ℕ)
others [] = []
others (c ∷ cs) = cs

-- The values of each signal, where `rows` are those of each sample.
abbrev pub columns : List Signal → List (List (List ℕ)) → List Values
columns [] rows = []
columns (g ∷ gs) rows =
    record { name = g.name; values = map first rows } ∷ columns gs (map others rows)

-- A sample of which the front has been read.
abbrev pub Row : Type 0
Row = List ℕ × List (List ℕ)

abbrev pub IsRow : ℕ → List ℕ → Row → Type 0
IsRow offset ws r = (length r.0 ≡ offset) × Widths ws r.1

abbrev pub raw : List Row → List ℕ
raw [] = []
raw (r ∷ rows) = (r.0 ++ concat r.1) ++ raw rows

abbrev advance : Row → Row
advance r = (r.0 ++ first r.1, others r.1)

pub length-concat : (ws : List ℕ) (cs : List (List ℕ)) → Widths ws cs → length (concat cs) ≡ sum ws
length-concat [] [] h = refl
length-concat [] (c ∷ cs) h = absurd h
length-concat (w ∷ ws) [] h = absurd h
length-concat (w ∷ ws) (c ∷ cs) (e, h) =
    omega (arith, length-append {0} c (concat cs), length-concat ws cs h)

bytes_at-raw :
    (stride offset w : ℕ) (ws : List ℕ) (rows : List Row)
    → offset + (w + sum ws) ≡ stride
    → All (IsRow offset (w ∷ ws)) rows
    → bytes_at stride offset w (length rows) (raw rows) ≡ some (map (λ r. first r.1) rows)
unfolding bytes_at
bytes_at-raw stride offset w ws [] e h = refl
bytes_at-raw stride offset w ws ((front, []) ∷ rows) e ((l, v), h) = absurd v
bytes_at-raw stride offset w ws ((front, c ∷ cs) ∷ rows) e ((l, (m, v)), h) =
    let row : List ℕ = front ++ (c ++ concat cs) in
    let long : length row ≡ stride = omega (
      arith,
      length-append {0} front (c ++ concat cs),
      length-append {0} c (concat cs),
      length-concat ws cs v,
      e,
    ) in
    let tail : drop stride (row ++ raw rows) ≡ raw rows = drop_front stride row (raw rows) long in
    let at : take w (drop offset (row ++ raw rows)) ≡ c =
      ap (λ l. take w (drop offset l)) (append_assoc front (c ++ concat cs) (raw rows))
      ∙ ap (take w) (drop_front offset front ((c ++ concat cs) ++ raw rows) l)
      ∙ ap (take w) (append_assoc c (concat cs) (raw rows))
      ∙ take_front w c (concat cs ++ raw rows) m in
    let fits : (length c == w) ≡ true = ground arith in
    rw (at, tail, fits, bytes_at-raw stride offset w ws rows e h) refl

raw-advance :
    (w : ℕ) (ws : List ℕ) (offset : ℕ) (rows : List Row)
    → All (IsRow offset (w ∷ ws)) rows
    → raw (map advance rows) ≡ raw rows
raw-advance w ws offset [] h = refl
raw-advance w ws offset ((front, []) ∷ rows) ((l, v), h) = absurd v
raw-advance w ws offset ((front, c ∷ cs) ∷ rows) ((l, (m, v)), h) =
    rw (append_assoc front c (concat cs), raw-advance w ws offset rows h) refl

advance-IsRow :
    (w : ℕ) (ws : List ℕ) (offset : ℕ) (rows : List Row)
    → All (IsRow offset (w ∷ ws)) rows
    → All (IsRow (offset + w) ws) (map advance rows)
advance-IsRow w ws offset [] h = tt
advance-IsRow w ws offset ((front, []) ∷ rows) ((l, v), h) = absurd v
advance-IsRow w ws offset ((front, c ∷ cs) ∷ rows) ((l, (m, v)), h) =
    ((omega (arith, length-append {0} front c), v), advance-IsRow w ws offset rows h)

pub map-map {ℓ κ μ} :
    {A : Type ℓ} {B : Type κ} {C : Type μ} (f : B → C) (g : A → B) (xs : List A)
    → map f (map g xs) ≡ map (λ x. f (g x)) xs
map-map f g [] = refl
map-map f g (x ∷ xs) = ap (◌∷◌ (f (g x))) (map-map f g xs)

pub length-map {ℓ κ} :
    {A : Type ℓ} {B : Type κ} (f : A → B) (xs : List A) → length (map f xs) ≡ length xs
length-map f [] = refl
length-map f (x ∷ xs) = ap suc (length-map f xs)

-- A type that is not known has no size.
known : (g : Signal) → 0 < get_size_of_signal g → (bytes_of_type g.data_type == 0) ≡ false
unfolding get_size_of_signal
known g h = elim (Bool-cases (bytes_of_type g.data_type == 0)) [
  | inl b ↦
      let z : bytes_of_type g.data_type ≡ 0 = ground (arith, b) in absurd (ground (arith, z, h))
  | inr b ↦ b
]

pub decode_signals-raw :
    (stride offset : ℕ) (gs : List Signal) (rows : List Row)
    → All (λ g. 0 < get_size_of_signal g) gs
    → offset + sum (map get_size_of_signal gs) ≡ stride
    → All (IsRow offset (map get_size_of_signal gs)) rows
    → decode_signals stride (length rows) (raw rows) offset gs
      ≡ some (columns gs (map (λ r. r.1) rows))
unfolding decode_signals
decode_signals-raw stride offset [] rows p e h = refl
decode_signals-raw stride offset (g ∷ gs) rows (q, p) e h =
    let w : ℕ = get_size_of_signal g in
    let ws : List ℕ = map get_size_of_signal gs in
    let sized : (get_size_of_signal g == 0) ≡ false = ground (arith, q) in
    let rest : decode_signals stride (length rows) (raw rows) (offset + w) gs
        ≡ some (columns gs (map others (map (λ r. r.1) rows))) =
      ap (λ n. decode_signals stride n (raw rows) (offset + w) gs) (sym (length-map advance rows))
      ∙ ap (λ l. decode_signals stride (length (map advance rows)) l (offset + w) gs)
          (sym (raw-advance w ws offset rows h))
      ∙ decode_signals-raw stride (offset + w) gs (map advance rows) p (omega (arith, e))
          (advance-IsRow w ws offset rows h)
      ∙ ap (λ l. some (columns gs l))
          (map-map (λ r. r.1) advance rows ∙ sym (map-map others (λ r. r.1) rows)) in
    rw
      (
        sized,
        known g q,
        bytes_at-raw stride offset w ws rows (omega (arith, e)) h,
        rest,
        map-map first (λ r. r.1) rows,
      )
      refl

-- A timestamp of eight bytes is at the front of each sample.
pub bytes_at-timestamps :
    (stride w : ℕ) (ws : List ℕ) (rows : List (List (List ℕ)))
    → w + sum ws ≡ stride
    → All (Widths (w ∷ ws)) rows
    → bytes_at stride 0 w (length rows) (raw (map (λ r. ([], r)) rows)) ≡ some (map first rows)
bytes_at-timestamps stride w ws rows e h =
    ap (λ n. bytes_at stride 0 w n (raw (map (λ r. ([], r)) rows)))
      (sym (length-map (λ r. ([], r)) rows))
    ∙ bytes_at-raw stride 0 w ws (map (λ r. ([], r)) rows) (omega (arith, e)) (unread rows h)
    ∙ ap some (map-map (λ r. first r.1) (λ r. ([], r)) rows)
  where
    unread :
        (rows : List (List (List ℕ)))
        → All (Widths (w ∷ ws)) rows
        → All (IsRow 0 (w ∷ ws)) (map (λ r. ([], r)) rows)
    unread [] h = tt
    unread (r ∷ rows) (v, h) = ((refl, v), unread rows h)
