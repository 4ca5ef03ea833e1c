-- ===== src/Series/Strength.antt =====
-- `rsi` in series.py on the first bars.
use catpn.Prelude.{
  ℕ, zero, suc, ◌-◌, ◌≤◌, ◌<◌, true, false, ◌≡◌, refl, sym, ap, ◌∙◌, some, List, [], ◌∷◌, map, ltb,
  leb, length, take, drop, arith, Bool-cases, inl, inr,
}
use catpn.Series.{
  Floats, zip_with, full, seeded, wilder_step, differences, gains, losses, strength, rsi,
}
use catpn.Series.Prefix.{
  le-length-take, length-take, length-take-le, length-take-le-length, drop-take, take-map,
  length-map, take-zip_with, zip_with-take_right,
}
use catpn.Series.Warming.{first}
use catpn.Series.Warming.{full-take}
use catpn.Series.Rolling.{seeded-take}
use catpn.Series.Moving.{pairs-take}

module _ {F : Type 0} (f : Floats F) where
  -- rsi
  pub differences-take :
      (m : ℕ) (xs : List F) → differences f (take (suc m) xs) ≡ take m (differences f xs)
  differences-take m xs =
      let e : suc m - 1 ≡ m = omega arith in
      let later = take m (drop 1 xs) in
      ap (λ ys. zip_with f.sub ys (take (suc m) xs))
        (drop-take 1 (suc m) xs ∙ ap (λ n. take n (drop 1 xs)) e)
      ∙ zip_with-take_right f.sub (suc m) later xs (omega (arith, length-take-le m (drop 1 xs)))
      ∙ sym (zip_with-take_right f.sub m later xs (length-take-le m (drop 1 xs)))
      ∙ sym (take-zip_with f.sub m (drop 1 xs) xs)

  pub changes-take :
      (g : F → F) (m : ℕ) (xs : List F)
      → map g (differences f (take (suc m) xs)) ≡ take m (map g (differences f xs))
  changes-take g m xs =
      ap (λ ys. map g ys) (differences-take m xs) ∙ sym (take-map g m (differences f xs))

  pub length-changes :
      (g : F → F) (xs : List F)
      → 1 ≤ length xs
      → suc (length (map g (differences f xs))) ≡ length xs
  unfolding zip_with
  length-changes g [] h = absurd (omega arith)
  length-changes g (x ∷ xs) h = ap suc (length-map g (differences f (x ∷ xs)) ∙ cut x xs)
    where
      cut : (y : F) (ys : List F) → length (zip_with f.sub ys (y ∷ ys)) ≡ length ys
      cut y [] = refl
      cut y (z ∷ zs) = ap suc (cut z zs)

  pub seeded-cold :
      (step : F → F → F) (size : ℕ) (xs : List F)
      → length xs < size
      → seeded f step xs size ≡ full f.nan xs
  unfolding seeded
  seeded-cold step size xs h = let e : ltb (length xs) size ≡ true = ground arith in rw e refl

  pub full-length : (b : F) (xs ys : List F) → length xs ≡ length ys → full b xs ≡ full b ys
  full-length b [] [] h = refl
  full-length b [] (y ∷ ys) h = absurd (omega (arith, h))
  full-length b (x ∷ xs) [] h = absurd (omega (arith, h))
  full-length b (x ∷ xs) (y ∷ ys) h = ap (λ zs. b ∷ zs) (full-length b xs ys (omega (arith, h)))

  pub strength-nan :
      f.is_nan f.nan ≡ true
      → (xs ys : List F) → length xs ≡ length ys
      → zip_with (strength f) (full f.nan xs) (full f.nan ys) ≡ full f.nan xs
  unfolding zip_with
  strength-nan h [] ys e = refl
  strength-nan h (x ∷ xs) [] e = absurd (omega (arith, e))
  strength-nan h (x ∷ xs) (y ∷ ys) e =
      rw h (ap (λ zs. f.nan ∷ zs) (strength-nan h xs ys (omega (arith, e))))

  unfoldable pub strengths : ℕ → List F → List F
  unfolding zip_with seeded
  strengths size xs =
      zip_with (strength f) (seeded f (wilder_step f size) (gains f xs) size)
        (seeded f (wilder_step f size) (losses f xs) size)

  pub strengths-take :
      (size k : ℕ) (xs : List F)
      → 1 ≤ size
      → strengths size (take (suc k) xs) ≡ take k (strengths size xs)
  unfolding strengths
  strengths-take size k xs pos =
      let step = wilder_step f size in
      ap
        (λ ys.
          zip_with (strength f) (seeded f step ys size)
            (seeded f step (losses f (take (suc k) xs)) size))
        (changes-take _ k xs)
      ∙ ap
          (λ ys.
            zip_with (strength f) (seeded f step (take k (gains f xs)) size)
              (seeded f step ys size))
          (changes-take _ k xs)
      ∙ ap (λ ys. zip_with (strength f) ys (seeded f step (take k (losses f xs)) size))
          (seeded-take f step size k (gains f xs) pos)
      ∙ ap (λ ys. zip_with (strength f) (take k (seeded f step (gains f xs) size)) ys)
          (seeded-take f step size k (losses f xs) pos)
      ∙ pairs-take f (strength f) k (seeded f step (gains f xs) size)
          (seeded f step (losses f xs) size)

  -- On at most so many bars there is no index yet.
  pub strengths-cold :
      (size k : ℕ) (xs : List F)
      → f.is_nan f.nan ≡ true
      → 1 ≤ size
      → k < size
      → size < length xs
      → f.nan ∷ take k (strengths size xs) ≡ full f.nan (take (suc k) xs)
  unfolding strengths
  strengths-cold size k xs h pos short enough =
      let step = wilder_step f size in
      let gained = take k (gains f xs) in
      let lost = take k (losses f xs) in
      let many : length gained ≡ k = length-take k (gains f xs) (
        omega (
          arith,
          short,
          enough,
          length-changes (λ c. f.maximum c (f.of_nat 0)) xs (omega (arith, enough)),
        )) in
      let many' : length lost ≡ k = length-take k (losses f xs) (
        omega (
          arith,
          short,
          enough,
          length-changes (λ c. f.maximum (f.neg c) (f.of_nat 0)) xs (omega (arith, enough)),
        )) in
      let all_gains =
        sym (seeded-take f step size k (gains f xs) pos)
        ∙ seeded-cold step size gained (omega (arith, many, short)) in
      let all_losses =
        sym (seeded-take f step size k (losses f xs) pos)
        ∙ seeded-cold step size lost (omega (arith, many', short)) in
      ap (λ ys. f.nan ∷ ys)
        (take-zip_with (strength f) k (seeded f step (gains f xs) size)
            (seeded f step (losses f xs) size)
          ∙ ap (λ ys. zip_with (strength f) ys (take k (seeded f step (losses f xs) size)))
              all_gains
          ∙ ap (λ ys. zip_with (strength f) (full f.nan gained) ys) all_losses
          ∙ strength-nan h gained lost (many ∙ sym many'))
      ∙ full-length f.nan (f.nan ∷ gained) (take (suc k) xs)
          (ap suc many ∙ sym (length-take (suc k) xs (omega (arith, short, enough))))

  pub rsi-cold :
      (size : ℕ) (xs : List F) → leb (length xs) size ≡ true → rsi f xs size ≡ some (full f.nan xs)
  unfolding rsi
  rsi-cold size xs e = rw e refl

  pub rsi-warm :
      (size : ℕ) (xs : List F)
      → 1 ≤ size
      → leb (length xs) size ≡ false
      → rsi f xs size ≡ some (f.nan ∷ strengths size xs)
  unfolding rsi strengths
  rsi-warm size xs pos e = let e' : ltb size 1 ≡ false = ground arith in rw (e, e') refl

  pub rsi-take :
      (size m : ℕ) (xs : List F)
      → f.is_nan f.nan ≡ true
      → 1 ≤ size
      → size < length xs
      → rsi f (take m xs) size ≡ some (take m (f.nan ∷ strengths size xs))
  rsi-take size zero xs h pos enough = rsi-cold size [] (ground arith)
  rsi-take size (suc k) xs h pos enough = elim (Bool-cases (ltb k size)) [
    | inl short ↦
        rsi-cold size (take (suc k) xs) (ground (arith, length-take-le (suc k) xs))
        ∙ ap some (sym (strengths-cold size k xs h pos (ground arith) enough))
    | inr long ↦
        rsi-warm size (take (suc k) xs) pos (ground (arith, le-length-take (suc size) (suc k) xs))
        ∙ ap (λ ys. some (f.nan ∷ ys)) (strengths-take size k xs pos)
  ]

  pub rsi-first :
      (size m : ℕ) (xs : List F)
      → f.is_nan f.nan ≡ true
      → 1 ≤ size
      → rsi f (take m xs) size ≡ first m (rsi f xs size)
  rsi-first size m xs h pos = elim (Bool-cases (leb (length xs) size)) [
    | inl few ↦
        rsi-cold size (take m xs) (ground (arith, length-take-le-length m xs))
        ∙ ap some (full-take f f.nan m xs)
        ∙ ap (λ r. first m r) (sym (rsi-cold size xs few))
    | inr many ↦
        rsi-take size m xs h pos (ground arith)
        ∙ ap (λ r. first m r) (sym (rsi-warm size xs pos many))
  ]
