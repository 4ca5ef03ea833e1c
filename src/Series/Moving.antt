-- ===== src/Series/Moving.antt =====
-- `shift` in series.py and the signals made with it, on the first bars.
use catpn.Prelude.{
  [], ◌∷◌, ℕ, zero, suc, ◌-◌, Bool, true, false, ◌&&◌, ◌≡◌, refl, sym, ap, ◌∙◌, List, ◌++◌, ltb,
  ◌==◌, length, take, arith, Bool-cases, inl, inr,
}
use catpn.Series.{
  Floats, zip_with, full, shift, crossed, crossover, moved, monotonic_from, monotonic,
}
use catpn.Series.{previous_closes, widest, first_range, true_range, atr, wilder}
use catpn.Series.Rolling.{wilder-first}
use catpn.Series.Prefix.{
  le-length-take, length-take, length-take-le, length-take-le-length, take-all, take-take,
  take-append-short, take-append-long, length-map, take-zip_with,
}
use catpn.Series.Warming.{first, guarded-first}
use catpn.Series.Warming.{full-take}

module _ {F : Type 0} (f : Floats F) where
  -- shift
  pub shifted :
      (m periods : ℕ) (xs : List F)
      → take (length (take m xs) - periods) (take m xs)
        ≡ take (m - periods) (take (length xs - periods) xs)
  shifted m periods xs = elim (Bool-cases (ltb m (length xs))) [
    | inl part ↦
        let e : length (take m xs) ≡ m = length-take m xs (ground arith) in
        rw e (
          take-take (m - periods) m xs (omega arith)
          ∙ sym (take-take (m - periods) (length xs - periods) xs (ground arith)))
    | inr whole ↦
        let e : take m xs ≡ xs = take-all m xs (ground arith) in
        rw e (
          sym (
            take-all (m - periods) (take (length xs - periods) xs)
              (ground (arith, length-take-le (length xs - periods) xs))))
  ]

  pub shift-take :
      (m periods : ℕ) (xs : List F) → shift f (take m xs) periods ≡ take m (shift f xs periods)
  unfolding shift
  shift-take m periods xs = elim (Bool-cases (periods == 0)) [
    | inl e ↦ rw e refl
    | inr e ↦ elim (Bool-cases (ltb periods (length xs))) [
      | inr none_left ↦
          let e' : ltb periods (length (take m xs)) ≡ false =
            ground (arith, length-take-le-length m xs) in
          rw (e, e', none_left) (full-take f f.nan m xs)
      | inl some_left ↦
          let nans : length (take periods (full f.nan xs)) ≡ periods =
            length-take periods (full f.nan xs) (ground (arith, length-map (λ _. f.nan) xs)) in
          elim (Bool-cases (ltb periods m)) [
            | inr early ↦
                let e' : ltb periods (length (take m xs)) ≡ false =
                  ground (arith, length-take-le m xs) in
                rw (e, e', some_left)
                  (full-take f f.nan m xs
                    ∙ sym (
                        take-append-short m (take periods (full f.nan xs))
                          (take (length xs - periods) xs) (ground arith)
                        ∙ take-take m periods (full f.nan xs) (ground arith)))
            | inl late ↦
                let e' : ltb periods (length (take m xs)) ≡ true =
                  ground (arith, le-length-take (suc periods) m xs) in
                let same : m - periods ≡ m - length (take periods (full f.nan xs)) =
                  ap (λ n. m - n) (sym nans) in
                rw (e, e', some_left)
                  (ap (λ ys. ys ++ take (length (take m xs) - periods) (take m xs))
                      (ap (λ ys. take periods ys) (full-take f f.nan m xs)
                        ∙ take-take periods m (full f.nan xs) (ground arith))
                    ∙ ap (λ ys. take periods (full f.nan xs) ++ ys)
                        (shifted m periods xs
                          ∙ ap (λ n. take n (take (length xs - periods) xs)) same)
                    ∙ sym (
                        take-append-long m (take periods (full f.nan xs))
                          (take (length xs - periods) xs) (ground arith)))
          ]
    ]
  ]

  pub pairs-take :
      {C : Type 0} (g : F → F → C) (m : ℕ) (xs ys : List F)
      → zip_with g (take m xs) (take m ys) ≡ take m (zip_with g xs ys)
  pairs-take g m xs ys = sym (take-zip_with g m xs ys)

  pub crossover-take :
      (m : ℕ) (a b : List F) → crossover f (take m a) (take m b) ≡ take m (crossover f a b)
  unfolding crossover
  crossover-take m a b =
      rw
        (
          shift-take m 1 a,
          shift-take m 1 b,
          pairs-take {C = F × F} (λ x y. (x, y)) m a b,
          pairs-take {C = F × F} (λ x y. (x, y)) m (shift f a 1) (shift f b 1),
        )
        (sym (
          take-zip_with (crossed f) m (zip_with (λ x y. (x, y)) a b)
            (zip_with (λ x y. (x, y)) (shift f a 1) (shift f b 1))))

  pub monotonic_from-take :
      (n step m : ℕ) (increasing : Bool) (xs : List F) (out : List Bool)
      → monotonic_from f n step increasing (take m xs) (take m out)
        ≡ take m (monotonic_from f n step increasing xs out)
  unfolding monotonic_from
  monotonic_from-take zero step m increasing xs out = refl
  monotonic_from-take (suc n) step m increasing xs out =
      let steps = zip_with (moved f increasing) (shift f xs step) (shift f xs (suc step)) in
      ap (λ o. monotonic_from f n (suc step) increasing (take m xs) o)
        (ap (λ ys. zip_with (λ o b. o && b) (take m out) ys)
            (ap (λ ys. zip_with (moved f increasing) ys (shift f (take m xs) (suc step)))
                (shift-take m step xs)
              ∙ ap (λ ys. zip_with (moved f increasing) (take m (shift f xs step)) ys)
                  (shift-take m (suc step) xs)
              ∙ pairs-take (moved f increasing) m (shift f xs step) (shift f xs (suc step)))
          ∙ sym (take-zip_with (λ o b. o && b) m out steps))
      ∙ monotonic_from-take n (suc step) m increasing xs (zip_with (λ o b. o && b) out steps)

  pub monotonic-first :
      (increasing : Bool) (size m : ℕ) (xs : List F)
      → monotonic f increasing (take m xs) size ≡ first m (monotonic f increasing xs size)
  unfolding monotonic
  monotonic-first increasing size m xs = guarded-first size m _ _ λ pos.
      ap (λ o. monotonic_from f size 0 increasing (take m xs) o) (full-take f true m xs)
      ∙ monotonic_from-take size 0 m increasing xs (full true xs)

  behind-take :
      (d : F) (m : ℕ) (xs : List F)
      → take (length (take m xs)) (d ∷ take m xs) ≡ take m (take (length xs) (d ∷ xs))
  behind-take d zero xs = refl
  behind-take d (suc m) [] = refl
  behind-take d (suc m) (x ∷ xs) = ap (λ ys. d ∷ ys) (behind-take x m xs)

  previous_closes-take :
      (m : ℕ) (xs : List F) → previous_closes f (take m xs) ≡ take m (previous_closes f xs)
  unfolding previous_closes
  previous_closes-take zero xs = refl
  previous_closes-take (suc m) [] = refl
  previous_closes-take (suc m) (c ∷ cs) = ap (λ ys. c ∷ ys) (behind-take c m cs)

  first_range-take :
      (m : ℕ) (bars : List (F × F)) (out : List F)
      → first_range f (take m bars) (take m out) ≡ take m (first_range f bars out)
  unfolding first_range
  first_range-take zero bars out = refl
  first_range-take (suc m) [] out = refl
  first_range-take (suc m) ((h, l) ∷ bars) [] = refl
  first_range-take (suc m) ((h, l) ∷ bars) (x ∷ out) = refl

  true_range-take :
      (m : ℕ) (high low close : List F)
      → true_range f (take m high) (take m low) (take m close)
        ≡ take m (true_range f high low close)
  unfolding true_range
  true_range-take m high low close =
      let pair : F → F → F × F = λ h l. (h, l) in
      let bars = zip_with pair high low in
      ap (λ bs. first_range f bs (zip_with (widest f) bs (previous_closes f (take m close))))
        (pairs-take pair m high low)
      ∙ ap (λ cs. first_range f (take m bars) (zip_with (widest f) (take m bars) cs))
          (previous_closes-take m close)
      ∙ ap (λ out. first_range f (take m bars) out)
          (sym (take-zip_with (widest f) m bars (previous_closes f close)))
      ∙ first_range-take m bars (zip_with (widest f) bars (previous_closes f close))

  pub atr-first :
      (size m : ℕ) (high low close : List F)
      → atr f (take m high) (take m low) (take m close) size ≡ first m (atr f high low close size)
  unfolding atr
  atr-first size m high low close =
      ap (λ xs. wilder f xs size) (true_range-take m high low close)
      ∙ wilder-first f size m (true_range f high low close)
