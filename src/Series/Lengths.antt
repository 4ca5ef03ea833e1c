-- ===== src/Series/Lengths.antt =====
-- Every indicator of series.py has a value for each bar.
use catpn.Prelude.{
  ℕ, zero, suc, ◌-◌, ◌≤◌, Bool, true, ◌&&◌, ◌≡◌, refl, sym, ap, ◌∙◌, Option, none, some, List, [],
  ◌∷◌, ◌++◌, ltb, leb, ◌==◌, if◌then◌else◌, length, length-append, take, drop, arith, Bool-cases,
  inl, inr, ltb→lt,
}
use catpn.Series.{
  Floats, zip_with, full, guarded, nancumsum, window_sums, sma, smooth, seeded, ema, wilder_step,
  gains, losses, strength, rsi, windows, rolling, shift, crossed, crossover, moved, monotonic_from,
  monotonic,
}
use catpn.Series.Rolling.{rolling-warming}
use catpn.Series.Strength.{length-changes, strengths, rsi-cold, rsi-warm}
use catpn.Series.Prefix.{length-take, length-map, length-zip_with}

length-drop : {A : Type 0} (n : ℕ) (xs : List A) → length (drop n xs) ≡ length xs - n
length-drop zero xs = omega arith
length-drop (suc n) [] = omega arith
length-drop (suc n) (x ∷ xs) = length-drop n xs ∙ omega arith

-- The number of values, where there are values.
abbrev pub Sized : {A : Type 0} → ℕ → Option (List A) → Type 0
Sized n none = Unit
Sized n (some ys) = length ys ≡ n

module _ {F : Type 0} (f : Floats F) where
  length-full : (b : F) (xs : List F) → length (full b xs) ≡ length xs
  length-full b xs = length-map (λ _. b) xs

  length-warming :
      (size : ℕ) (xs rest : List F)
      → 1 ≤ size
      → (size ≤ length xs → length rest ≡ suc (length xs) - size)
      → length
          (if ltb (length xs) size then full f.nan xs else take (size - 1) (full f.nan xs) ++ rest)
        ≡ length xs
  length-warming size xs rest pos h = elim (Bool-cases (ltb (length xs) size)) [
    | inl e ↦ rw e (length-full f.nan xs)
    | inr e ↦
        let enough : size ≤ length xs = ground arith in
        rw e (
          omega (
            arith,
            length-append (take (size - 1) (full f.nan xs)) rest,
            length-take (size - 1) (full f.nan xs) (omega (arith, length-full f.nan xs, enough)),
            h enough,
            pos,
            enough,
          ))
  ]

  length-nancumsum : (total : F) (xs : List F) → length (nancumsum f total xs) ≡ length xs
  unfolding nancumsum
  length-nancumsum total [] = refl
  length-nancumsum total (x ∷ xs) =
      ap suc (length-nancumsum (if f.is_nan x then total else f.add total x) xs)

  length-smooth :
      (step : F → F → F) (previous : F) (xs : List F)
      → length (smooth f step previous xs) ≡ length xs
  unfolding smooth
  length-smooth step previous [] = refl
  length-smooth step previous (x ∷ xs) = ap suc (length-smooth step (step previous x) xs)

  length-seeded :
      (step : F → F → F) (size : ℕ) (xs : List F)
      → 1 ≤ size
      → length (seeded f step xs size) ≡ length xs
  unfolding seeded
  length-seeded step size xs pos = length-warming size xs _ pos λ enough. omega (
    arith,
    length-smooth step (f.mean (take size xs)) (drop size xs),
    length-drop size xs,
    enough,
  )

  length-zip_with-le :
      {A B C : Type 0} (g : A → B → C) (xs : List A) (ys : List B)
      → length xs ≤ length ys
      → length (zip_with g xs ys) ≡ length xs
  unfolding zip_with
  length-zip_with-le g [] ys h = refl
  length-zip_with-le g (x ∷ xs) [] h = absurd (omega arith)
  length-zip_with-le g (x ∷ xs) (y ∷ ys) h = ap suc (length-zip_with-le g xs ys (omega (arith, h)))

  length-window_sums :
      (size : ℕ) (xs : List F) → length (window_sums f size xs) ≡ suc (length xs) - size
  unfolding window_sums
  length-window_sums size xs =
      let sums = f.of_nat 0 ∷ nancumsum f (f.of_nat 0) xs in
      let count : length sums ≡ suc (length xs) = ap suc (length-nancumsum (f.of_nat 0) xs) in
      length-zip_with-le f.sub (drop size sums) sums (omega (arith, length-drop size sums))
      ∙ omega (arith, length-drop size sums, count)

  length-windows :
      (size : ℕ) (xs : List F) → 1 ≤ size → length (windows f size xs) ≡ suc (length xs) - size
  unfolding windows
  length-windows size [] pos = omega (arith, pos)
  length-windows size (x ∷ xs) pos = elim (Bool-cases (ltb (suc (length xs)) size)) [
    | inl e ↦ rw e (ground arith)
    | inr e ↦ rw e (ground (arith, length-windows size xs pos))
  ]

  guarded-Sized :
      {A : Type 0} (size n : ℕ) (ys : List A)
      → (1 ≤ size → length ys ≡ n)
      → Sized n (guarded size ys)
  guarded-Sized size n ys h = elim (Bool-cases (ltb size 1)) [
    | inl e ↦ rw e tt
    | inr e ↦ rw e (h (ground arith))
  ]

  pub sma-Sized : (size : ℕ) (xs : List F) → Sized (length xs) (sma f xs size)
  unfolding sma
  sma-Sized size xs = guarded-Sized size (length xs) _ λ pos.
      length-warming size xs _ pos
        λ enough. length-map _ (window_sums f size xs) ∙ length-window_sums size xs

  pub ema-Sized : (size : ℕ) (xs : List F) → Sized (length xs) (ema f xs size)
  unfolding ema
  ema-Sized size xs = guarded-Sized size (length xs) _ (length-seeded _ size xs)

  pub rolling-Sized :
      (reduce : List F → F) (size : ℕ) (xs : List F) → Sized (length xs) (rolling f reduce xs size)
  unfolding rolling
  rolling-Sized reduce size xs = guarded-Sized size (length xs) _ λ pos.
      ap length (rolling-warming f reduce size xs)
      ∙ length-warming size xs _ pos
          λ enough. length-map reduce (windows f size xs) ∙ length-windows size xs pos

  pub length-shift : (periods : ℕ) (xs : List F) → length (shift f xs periods) ≡ length xs
  unfolding shift
  length-shift periods xs = elim (Bool-cases (periods == 0)) [
    | inl e ↦ rw e refl
    | inr e ↦ elim (Bool-cases (ltb periods (length xs))) [
      | inl h ↦
          rw (e, h)
            (omega (
              arith,
              length-append (take periods (full f.nan xs)) (take (length xs - periods) xs),
              length-take periods (full f.nan xs) (ground (arith, length-full f.nan xs)),
              length-take (length xs - periods) xs (omega arith),
              ltb→lt periods (length xs) h,
            ))
      | inr h ↦ rw (e, h) (length-full f.nan xs)
    ]
  ]

  length-strengths :
      (size : ℕ) (xs : List F)
      → 1 ≤ size
      → 1 ≤ length xs
      → suc (length (strengths f size xs)) ≡ length xs
  unfolding strengths
  length-strengths size xs pos h =
      let step = wilder_step f size in
      let up = length-seeded step size (gains f xs) pos in
      let down = length-seeded step size (losses f xs) pos in
      let gained = length-changes f (λ c. f.maximum c (f.of_nat 0)) xs h in
      let lost = length-changes f (λ c. f.maximum (f.neg c) (f.of_nat 0)) xs h in
      omega (
        arith,
        length-zip_with (strength f) (seeded f step (gains f xs) size)
            (seeded f step (losses f xs) size) (omega (arith, up, down, gained, lost)),
        up,
        gained,
      )

  pub rsi-Sized : (size : ℕ) (xs : List F) → 1 ≤ size → Sized (length xs) (rsi f xs size)
  rsi-Sized size xs pos = elim (Bool-cases (leb (length xs) size)) [
    | inl few ↦ rw (rsi-cold f size xs few) (length-full f.nan xs)
    | inr many ↦ rw (rsi-warm f size xs pos many) (length-strengths size xs pos (ground arith))
  ]

  pub length-crossover :
      (xs ys : List F) → length xs ≡ length ys → length (crossover f xs ys) ≡ length xs
  unfolding crossover
  length-crossover xs ys h =
      let now : length (zip_with {C = F × F} (λ x y. (x, y)) xs ys) ≡ length xs =
        length-zip_with (λ x y. (x, y)) xs ys h in
      let before : length (zip_with {C = F × F} (λ x y. (x, y)) (shift f xs 1) (shift f ys 1))
          ≡ length xs =
        length-zip_with (λ x y. (x, y)) (shift f xs 1) (shift f ys 1)
          (length-shift 1 xs ∙ h ∙ sym (length-shift 1 ys))
        ∙ length-shift 1 xs in
      length-zip_with (crossed f) _ _ (now ∙ sym before) ∙ now

  length-monotonic_from :
      (n step : ℕ) (increasing : Bool) (xs : List F) (out : List Bool)
      → length out ≡ length xs
      → length (monotonic_from f n step increasing xs out) ≡ length xs
  unfolding monotonic_from
  length-monotonic_from zero step increasing xs out h = h
  length-monotonic_from (suc n) step increasing xs out h =
      let steps : length (zip_with (moved f increasing) (shift f xs step) (shift f xs (suc step)))
          ≡ length xs =
        length-zip_with (moved f increasing) (shift f xs step) (shift f xs (suc step))
          (length-shift step xs ∙ sym (length-shift (suc step) xs))
        ∙ length-shift step xs in
      length-monotonic_from n (suc step) increasing xs _
        (length-zip_with (λ o b. o && b) out _ (h ∙ sym steps) ∙ h)

  pub monotonic-Sized :
      (increasing : Bool) (size : ℕ) (xs : List F)
      → Sized (length xs) (monotonic f increasing xs size)
  unfolding monotonic
  monotonic-Sized increasing size xs =
      guarded-Sized size (length xs) _
        λ _. length-monotonic_from size 0 increasing xs (full true xs) (length-map (λ _. true) xs)
