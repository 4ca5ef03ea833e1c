-- ===== src/Series/Warming.antt =====
-- Prefixes of the indicators of series.py that are NaN up to their first full window.
use catpn.Prelude.{
  ℕ, ◌-◌, ◌≤◌, ◌<◌, true, false, ◌≡◌, refl, sym, ap, ◌∙◌, Option, none, some, List, ◌++◌, ltb,
  if◌then◌else◌, length, take, arith, Bool-cases, inl, inr,
}
use catpn.Series.{Floats, full, guarded}
use catpn.Series.Prefix.{
  le-length-take, length-take, length-take-le, length-take-le-length, take-take, take-append-short,
  take-append-long, take-map, length-map,
}

-- The values on the first bars, where there are values.
abbrev pub first : {A : Type 0} → ℕ → Option (List A) → Option (List A)
first m none = none
first m (some xs) = some (take m xs)

pub guarded-first :
    {A : Type 0} (size m : ℕ) (xs ys : List A)
    → (1 ≤ size → xs ≡ take m ys)
    → guarded size xs ≡ first m (guarded size ys)
guarded-first size m xs ys h = elim (Bool-cases (ltb size 1)) [
  | inl e ↦ rw e refl
  | inr e ↦ rw e (ap some (h (ground arith)))
]

module _ {F : Type 0} (f : Floats F) where
  pub full-take :
      {B : Type 0} (b : B) (m : ℕ) (xs : List F) → full b (take m xs) ≡ take m (full b xs)
  full-take b m xs = sym (take-map (λ _. b) m xs)

  -- NaN up to the first full window, and then values that depend on the bars so far.
  pub warm_up :
      (size m : ℕ) (xs : List F) (rest rest' : List F)
      → 1 ≤ size
      → size ≤ m
      → size ≤ length xs
      → rest' ≡ take (m - (size - 1)) rest
      → take (size - 1) (full f.nan (take m xs)) ++ rest'
        ≡ take m (take (size - 1) (full f.nan xs) ++ rest)
  warm_up size m xs rest rest' pos long enough e =
      let nans = take (size - 1) (full f.nan xs) in
      let count : length nans ≡ size - 1 =
        length-take (size - 1) (full f.nan xs)
          (omega (arith, length-map (λ _. f.nan) xs, enough, pos)) in
      let same : m - (size - 1) ≡ m - length nans = omega (arith, count) in
      ap (λ zs. zs ++ rest')
        (ap (λ zs. take (size - 1) zs) (full-take f.nan m xs)
          ∙ take-take (size - 1) m (full f.nan xs) (omega (arith, long)))
      ∙ ap (λ zs. nans ++ zs) (e ∙ ap (λ n. take n rest) same)
      ∙ sym (take-append-long m nans rest (omega (arith, count, long)))

  -- Not so many bars: NaN only.
  pub cold :
      (size m : ℕ) (xs rest : List F)
      → m < size
      → size ≤ length xs
      → full f.nan (take m xs) ≡ take m (take (size - 1) (full f.nan xs) ++ rest)
  cold size m xs rest short enough =
      let nans = take (size - 1) (full f.nan xs) in
      let count : length nans ≡ size - 1 =
        length-take (size - 1) (full f.nan xs)
          (omega (arith, length-map (λ _. f.nan) xs, enough, short)) in
      full-take f.nan m xs
      ∙ sym (
          take-append-short m nans rest (omega (arith, count, short))
          ∙ take-take m (size - 1) (full f.nan xs) (omega (arith, short)))

  -- An indicator that is NaN up to its first full window.
  abbrev pub warming : ℕ → (List F → List F) → List F → List F
  warming size rest xs =
      if ltb (length xs) size then full f.nan xs else take (size - 1) (full f.nan xs) ++ rest xs

  pub warming-take :
      (size m : ℕ) (rest : List F → List F) (xs : List F)
      → 1 ≤ size
      → (size ≤ m → size ≤ length xs → rest (take m xs) ≡ take (m - (size - 1)) (rest xs))
      → warming size rest (take m xs) ≡ take m (warming size rest xs)
  warming-take size m rest xs pos h = elim (Bool-cases (ltb (length xs) size)) [
    | inl e ↦
        let e' : ltb (length (take m xs)) size ≡ true =
          ground (arith, length-take-le-length m xs) in
        rw (e, e') (full-take f.nan m xs)
    | inr e ↦ elim (Bool-cases (ltb m size)) [
      | inl short ↦
          let e' : ltb (length (take m xs)) size ≡ true = ground (arith, length-take-le m xs) in
          rw (e, e') (cold size m xs (rest xs) (ground arith) (ground arith))
      | inr long ↦
          let e' : ltb (length (take m xs)) size ≡ false =
            ground (arith, le-length-take size m xs) in
          rw (e, e')
            (warm_up size m xs (rest xs) (rest (take m xs)) pos (ground arith) (ground arith)
              (h (ground arith) (ground arith)))
    ]
  ]
