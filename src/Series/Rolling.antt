-- ===== src/Series/Rolling.antt =====
-- The moving averages and the reductions of windows in series.py, on the first bars.
use catpn.Prelude.{
  ℕ, zero, suc, ◌-◌, ◌≤◌, ◌<◌, true, false, ◌≡◌, refl, sym, ap, ◌∙◌, List, [], ◌∷◌, ◌++◌,
  append-nil, map, ltb, if◌then◌else◌, length, take, drop, arith, Bool-cases, inl, inr,
}
use catpn.Series.{
  Floats, zip_with, full, nancumsum, window_sums, sma, smooth, seeded, ema, wilder, windows,
  rolling,
}
use catpn.Series.Prefix.{
  le-length-take, take-nil, length-take-le, length-take-le-length, take-all, take-take, drop-take,
  take-map, length-map, take-zip_with, zip_with-take_right,
}
use catpn.Series.Warming.{first, guarded-first}
use catpn.Series.Warming.{warming, warming-take}

module _ {F : Type 0} (f : Floats F) where
  -- sma
  pub nancumsum-take :
      (total : F) (m : ℕ) (xs : List F)
      → nancumsum f total (take m xs) ≡ take m (nancumsum f total xs)
  unfolding nancumsum
  nancumsum-take total zero xs = refl
  nancumsum-take total (suc m) [] = refl
  nancumsum-take total (suc m) (x ∷ xs) =
      let next = (if f.is_nan x then total else f.add total x) in
      ap (λ ys. next ∷ ys) (nancumsum-take next m xs)

  pub window_sums-take :
      (size m : ℕ) (xs : List F)
      → 1 ≤ size
      → window_sums f size (take m xs) ≡ take (suc m - size) (window_sums f size xs)
  unfolding window_sums
  window_sums-take size m xs pos =
      let sums = f.of_nat 0 ∷ nancumsum f (f.of_nat 0) xs in
      let cut : f.of_nat 0 ∷ nancumsum f (f.of_nat 0) (take m xs) ≡ take (suc m) sums =
        ap (λ ys. f.of_nat 0 ∷ ys) (nancumsum-take (f.of_nat 0) m xs) in
      let k = suc m - size in
      let ends = take k (drop size sums) in
      ap (λ ys. zip_with f.sub (drop size ys) ys) cut
      ∙ ap (λ ys. zip_with f.sub ys (take (suc m) sums)) (drop-take size (suc m) sums)
      ∙ zip_with-take_right f.sub (suc m) ends sums
          (omega (arith, length-take-le k (drop size sums)))
      ∙ sym (zip_with-take_right f.sub k ends sums (length-take-le k (drop size sums)))
      ∙ sym (take-zip_with f.sub k (drop size sums) sums)

  pub sma-first : (size m : ℕ) (xs : List F) → sma f (take m xs) size ≡ first m (sma f xs size)
  unfolding sma
  sma-first size m xs = guarded-first size m _ _ λ pos.
      warming-take f size m (λ ys. map (λ w. f.div w (f.of_nat size)) (window_sums f size ys)) xs
        pos
        λ long enough.
          let same : suc m - size ≡ m - (size - 1) = omega (arith, pos) in
          ap (λ ws. map (λ w. f.div w (f.of_nat size)) ws) (window_sums-take size m xs pos)
          ∙ sym (take-map (λ w. f.div w (f.of_nat size)) (suc m - size) (window_sums f size xs))
          ∙ ap (λ n. take n (map (λ w. f.div w (f.of_nat size)) (window_sums f size xs))) same

  -- ema and wilder
  pub smooth-take :
      (step : F → F → F) (previous : F) (m : ℕ) (xs : List F)
      → smooth f step previous (take m xs) ≡ take m (smooth f step previous xs)
  unfolding smooth
  smooth-take step previous zero xs = refl
  smooth-take step previous (suc m) [] = refl
  smooth-take step previous (suc m) (x ∷ xs) =
      ap (λ ys. step previous x ∷ ys) (smooth-take step (step previous x) m xs)

  pub seeded-take :
      (step : F → F → F) (size m : ℕ) (xs : List F)
      → 1 ≤ size
      → seeded f step (take m xs) size ≡ take m (seeded f step xs size)
  unfolding seeded
  seeded-take step size m xs pos =
      warming-take f size m
        (λ ys. f.mean (take size ys) ∷ smooth f step (f.mean (take size ys)) (drop size ys)) xs pos
        λ long enough.
          let start = f.mean (take size xs) in
          let begun : take size (take m xs) ≡ take size xs = take-take size m xs long in
          let left : m - (size - 1) ≡ suc (m - size) = omega (arith, pos, long) in
          rw (begun, left)
            (ap (λ ys. start ∷ ys)
              (ap (λ ys. smooth f step start ys) (drop-take size m xs)
                ∙ smooth-take step start (m - size) (drop size xs)))

  pub ema-first : (size m : ℕ) (xs : List F) → ema f (take m xs) size ≡ first m (ema f xs size)
  unfolding ema
  ema-first size m xs = guarded-first size m _ _ (seeded-take _ size m xs)

  pub wilder-first :
      (size m : ℕ) (xs : List F) → wilder f (take m xs) size ≡ first m (wilder f xs size)
  unfolding wilder
  wilder-first size m xs = guarded-first size m _ _ (seeded-take _ size m xs)

  -- stdev, highest and lowest
  pub windows-take :
      (size m : ℕ) (xs : List F)
      → 1 ≤ size
      → windows f size (take m xs) ≡ take (suc m - size) (windows f size xs)
  unfolding windows
  windows-take size zero xs pos =
      let none_left : suc zero - size ≡ 0 = omega (arith, pos) in rw none_left refl
  windows-take size (suc m) [] pos = sym (take-nil (suc (suc m) - size))
  windows-take size (suc m) (x ∷ xs) pos = elim (Bool-cases (ltb (suc m) size)) [
    | inl short ↦
        let e : ltb (suc (length (take m xs))) size ≡ true = ground (arith, length-take-le m xs) in
        let none_left : suc (suc m) - size ≡ 0 = ground arith in rw (e, none_left) refl
    | inr long ↦ elim (Bool-cases (ltb (suc (length xs)) size)) [
      | inl few ↦
          let e : ltb (suc (length (take m xs))) size ≡ true =
            ground (arith, length-take-le-length m xs) in
          rw (e, few) (sym (take-nil (suc (suc m) - size)))
      | inr enough ↦
          let e : ltb (suc (length (take m xs))) size ≡ false =
            ground (arith, le-length-take size (suc m) (x ∷ xs)) in
          let left : suc (suc m) - size ≡ suc (suc m - size) = ground arith in
          let begun : take size (x ∷ take m xs) ≡ take size (x ∷ xs) =
            take-take size (suc m) (x ∷ xs) (ground arith) in
          rw (e, enough, left, begun)
            (ap (λ ws. take size (x ∷ xs) ∷ ws) (windows-take size m xs pos))
    ]
  ]

  pub windows-nil : (size : ℕ) (xs : List F) → length xs < size → windows f size xs ≡ []
  unfolding windows
  windows-nil size [] h = refl
  windows-nil size (x ∷ xs) h =
      let e : ltb (suc (length xs)) size ≡ true = ground arith in rw e refl

  pub rolling-warming :
      (reduce : List F → F) (size : ℕ) (xs : List F)
      → take (size - 1) (full f.nan xs) ++ map reduce (windows f size xs)
        ≡ warming f size (λ ys. map reduce (windows f size ys)) xs
  rolling-warming reduce size xs = elim (Bool-cases (ltb (length xs) size)) [
    | inl e ↦
        rw (e, windows-nil size xs (ground arith))
          (append-nil (take (size - 1) (full f.nan xs))
            ∙ take-all (size - 1) (full f.nan xs) (ground (arith, length-map (λ _. f.nan) xs)))
    | inr e ↦ rw e refl
  ]

  pub rolling-first :
      (reduce : List F → F) (size m : ℕ) (xs : List F)
      → rolling f reduce (take m xs) size ≡ first m (rolling f reduce xs size)
  unfolding rolling
  rolling-first reduce size m xs = guarded-first size m _ _ λ pos.
      rolling-warming reduce size (take m xs)
      ∙ warming-take f size m (λ ys. map reduce (windows f size ys)) xs pos
          (λ long enough.
            let same : suc m - size ≡ m - (size - 1) = omega (arith, pos) in
            ap (λ ws. map reduce ws) (windows-take size m xs pos)
            ∙ sym (take-map reduce (suc m - size) (windows f size xs))
            ∙ ap (λ n. take n (map reduce (windows f size xs))) same)
      ∙ ap (λ ys. take m ys) (sym (rolling-warming reduce size xs))
