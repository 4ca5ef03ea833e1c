-- ===== src/Dsl/Evaluator/Handlers.antt =====
-- The handlers of evaluator.py on all bars and on the first of them.
use catpn.Prelude.{
  ℕ, zero, suc, ◌+◌, ◌≤◌, ◌<◌, ◌≡◌, refl, sym, ap, ◌∙◌, subst, String, Bool, true, false, not, ◌&&◌,
  ◌||◌, Option, none, some, List, [], ◌∷◌, map, ltb, if◌then◌else◌, length, take, arith, Bool-cases,
  Option-cases, inl, inr, ◌⊎◌, ==_iff,
}
use catpn.Prelude as P
use catpn.Series.{
  Floats, sma, ema, rsi, stdev, highest, lowest, shift, crossover, crossunder, monotonic,
}
use catpn.Series.Warming.{first}
use catpn.Series.Rolling.{sma-first, ema-first, rolling-first}
use catpn.Series.Strength.{rsi-first}
use catpn.Series.Moving.{shift-take, crossover-take, monotonic-first}
use catpn.Series.Lengths.{
  Sized, sma-Sized, ema-Sized, rsi-Sized, rolling-Sized, length-shift, length-crossover,
  monotonic-Sized,
}
use catpn.Dsl.Evaluator.{Value}
use catpn.Dsl.Evaluator.Functions.{
  Function, or_bad_value, over_length, crossing, over_two, elementwise, lengthwise, trending,
  constant, fn_sma, fn_ema, fn_rsi, fn_highest, fn_lowest, fn_stdev, fn_shift, fn_crossover,
  fn_crossunder, fn_rising, fn_falling, fn_abs, fn_min, fn_max, run_one, run_two, run_function,
}
use catpn.Dsl.Evaluator.Alike.{
  Alike, alike, both_raise, Alike-bind, Begins, BeginsAll, Begins-length, BeginsAll-map,
  pairwise-Alike, BeginsValue, numeric-Begins, numbers-Alike,
}
use catpn.Dsl.Evaluator.Arguments.{Lengths, integer_arg-Alike, Sizes, as_series-Alike, Laws}

module _ {F : Type 0} (f : Floats F) (laws : Laws f) (n m : ℕ) (fits : m ≤ n)
    (some_bars : 1 ≤ m) where
  -- An indicator over a length has a value for each bar, and reads no later one.
  IsCausal : {A : Type 0} → (List F → ℕ → Option (List A)) → Type 0
  IsCausal indicator =
      (size : ℕ) (xs : List F)
      → 1 ≤ size
      → Sized (length xs) (indicator xs size)
        × (indicator (take m xs) size ≡ first m (indicator xs size))

  or_bad_value-Alike :
      {A : Type 0} (o : Option (List A))
      → Sized n o
      → Alike (Begins n m fits) (or_bad_value f o) (or_bad_value f (first m o))
  unfolding Begins
  or_bad_value-Alike none h = both_raise _
  or_bad_value-Alike (some xs) h = alike xs (take m xs) (h, refl)

  over_length-Alike :
      {A : Type 0} (indicator : List F → ℕ → Option (List A)) (result : List A → Value F)
      → IsCausal indicator
      → ((xs ys : List A) → Begins n m fits xs ys → BeginsValue f n m fits (result xs) (result ys))
      → (v v' w w' : Value F) → BeginsValue f n m fits v v'
      → BeginsValue f n m fits w w'
      → Alike
          (BeginsValue f n m fits)
          (over_length f indicator result v w)
          (over_length f indicator result v' w')
  unfolding over_length IsCausal Begins Lengths Sizes
  over_length-Alike indicator result causal keeps v v' w w' b c =
      Alike-bind (as_series-Alike f laws n m fits some_bars false 0 0 v v' (inl (refl, refl)) b)
        λ xs xs' p.
          Alike-bind (integer_arg-Alike f laws n m fits some_bars w w' c)
            λ k k' q. Alike-bind (indicated xs xs' k k' p q) λ ys ys' r. alike _ _ (keeps ys ys' r)
    where
      indicated :
          (xs xs' : List F) (k k' : ℕ)
          → Begins n m fits xs xs'
          → Lengths f laws n m fits some_bars k k'
          → Alike
              (Begins n m fits)
              (or_bad_value f (indicator xs k))
              (or_bad_value f (indicator xs' k'))
      indicated xs xs' k k' p q =
          rw (p.1, sym q.0, (causal k xs q.1).1)
            (or_bad_value-Alike (indicator xs k)
              (subst (λ l. Sized l (indicator xs k)) p.0 (causal k xs q.1).0))

  lengthwise-Alike :
      (indicator : List F → ℕ → Option (List F))
      → IsCausal indicator
      → (v v' w w' : Value F) → BeginsValue f n m fits v v'
      → BeginsValue f n m fits w w'
      → Alike (BeginsValue f n m fits) (lengthwise f indicator v w) (lengthwise f indicator v' w')
  unfolding BeginsValue BeginsAll
  lengthwise-Alike indicator causal = over_length-Alike indicator _ causal λ xs ys p. p

  trending-Alike :
      (increasing : Bool) (v v' w w' : Value F)
      → BeginsValue f n m fits v v'
      → BeginsValue f n m fits w w'
      → Alike (BeginsValue f n m fits) (trending f increasing v w) (trending f increasing v' w')
  unfolding BeginsValue BeginsAll IsCausal
  trending-Alike increasing =
      over_length-Alike (monotonic f increasing) _
        (λ size xs pos.
          (monotonic-Sized f increasing size xs, monotonic-first f increasing size m xs))
        λ xs ys p. p

  over_two-Alike :
      (cross : List F → List F → List Bool)
      → ((xs ys : List F) → length xs ≡ length ys → length (cross xs ys) ≡ length xs)
      → ((xs ys : List F) → cross (take m xs) (take m ys) ≡ take m (cross xs ys))
      → (s t : ℕ) (v v' w w' : Value F) → Sizes f laws n m fits some_bars s t
      → BeginsValue f n m fits v v'
      → BeginsValue f n m fits w w'
      → Alike (BeginsValue f n m fits) (over_two f cross s v w) (over_two f cross t v' w')
  unfolding over_two BeginsValue BeginsAll Begins
  over_two-Alike cross sized causal s t v v' w w' z b c =
      Alike-bind (as_series-Alike f laws n m fits some_bars true s t v v' z b) λ xs xs' p.
        Alike-bind (as_series-Alike f laws n m fits some_bars true s t w w' z c)
          λ ys ys' q. Alike-bind (crossed_alike xs xs' ys ys' p q) λ bs bs' r. alike _ _ r
    where
      crossed_alike :
          (xs xs' ys ys' : List F)
          → Begins n m fits xs xs'
          → Begins n m fits ys ys'
          → Alike (Begins n m fits) (crossing f cross xs ys) (crossing f cross xs' ys')
      crossed_alike xs xs' ys ys' p q =
          let e : P.◌==◌ (length xs) (length ys) ≡ true = ground (arith, p.0, q.0) in
          let e' : P.◌==◌ (length xs') (length ys') ≡ true =
            ground (arith, Begins-length n m fits xs xs' p, Begins-length n m fits ys ys' q) in
          rw (e, e')
            (alike _ _ (
              sized xs ys (p.0 ∙ sym q.0) ∙ p.0,
              ap (λ us. cross us ys') p.1 ∙ ap (λ us. cross (take m xs) us) q.1 ∙ causal xs ys,
            ))

  elementwise-Alike :
      (g : F → F → F) (v v' w w' : Value F)
      → BeginsValue f n m fits v v'
      → BeginsValue f n m fits w w'
      → Alike (BeginsValue f n m fits) (elementwise f g v w) (elementwise f g v' w')
  unfolding elementwise
  elementwise-Alike g v v' w w' b c = numbers-Alike f n m fits (
      pairwise-Alike n m fits _ g _ _ _ _ (numeric-Begins f n m fits v v' b)
        (numeric-Begins f n m fits w w' c))

  constant-Begins : (k : ℕ) → BeginsValue f n m fits (constant f k) (constant f k)
  unfolding BeginsValue BeginsAll
  constant-Begins k = refl

  rsi-IsCausal : IsCausal (rsi f)
  unfolding IsCausal
  rsi-IsCausal size xs pos = (rsi-Sized f size xs pos, rsi-first f size m xs laws.nan-is_nan pos)

  shift-IsCausal : IsCausal (λ xs k. some (shift f xs k))
  unfolding IsCausal
  shift-IsCausal size xs pos = (length-shift f size xs, ap some (shift-take f m size xs))

  run_one-Alike :
      (function : Function) (v v' : Value F)
      → BeginsValue f n m fits v v'
      → Alike (BeginsValue f n m fits) (run_one f function v) (run_one f function v')
  unfolding run_one BeginsValue
  run_one-Alike fn_rsi v v' b =
      lengthwise-Alike (rsi f) rsi-IsCausal v v' (constant f 14) (constant f 14) b
        (constant-Begins 14)
  run_one-Alike fn_shift v v' b =
      lengthwise-Alike (λ xs k. some (shift f xs k)) shift-IsCausal v v' (constant f 1)
        (constant f 1) b (constant-Begins 1)
  run_one-Alike fn_rising v v' b =
      trending-Alike true v v' (constant f 1) (constant f 1) b (constant-Begins 1)
  run_one-Alike fn_falling v v' b =
      trending-Alike false v v' (constant f 1) (constant f 1) b (constant-Begins 1)
  run_one-Alike fn_abs v v' b =
      alike _ _ (BeginsAll-map n m fits f.absolute _ _ (numeric-Begins f n m fits v v' b))
  run_one-Alike fn_sma v v' b = both_raise _
  run_one-Alike fn_ema v v' b = both_raise _
  run_one-Alike fn_highest v v' b = both_raise _
  run_one-Alike fn_lowest v v' b = both_raise _
  run_one-Alike fn_stdev v v' b = both_raise _
  run_one-Alike fn_crossover v v' b = both_raise _
  run_one-Alike fn_crossunder v v' b = both_raise _
  run_one-Alike fn_min v v' b = both_raise _
  run_one-Alike fn_max v v' b = both_raise _

  run_two-Alike :
      (function : Function) (s t : ℕ) (v v' w w' : Value F)
      → Sizes f laws n m fits some_bars s t
      → BeginsValue f n m fits v v'
      → BeginsValue f n m fits w w'
      → Alike (BeginsValue f n m fits) (run_two f function s v w) (run_two f function t v' w')
  unfolding run_two IsCausal crossunder
  run_two-Alike fn_sma s t v v' w w' z =
      lengthwise-Alike (sma f) (λ size xs pos. (sma-Sized f size xs, sma-first f size m xs)) v v' w
        w'
  run_two-Alike fn_ema s t v v' w w' z =
      lengthwise-Alike (ema f) (λ size xs pos. (ema-Sized f size xs, ema-first f size m xs)) v v' w
        w'
  run_two-Alike fn_rsi s t v v' w w' z = lengthwise-Alike (rsi f) rsi-IsCausal v v' w w'
  run_two-Alike fn_highest s t v v' w w' z =
      lengthwise-Alike (highest f)
        (λ size xs pos. (rolling-Sized f f.largest size xs, rolling-first f f.largest size m xs)) v
        v' w w'
  run_two-Alike fn_lowest s t v v' w w' z =
      lengthwise-Alike (lowest f)
        (λ size xs pos. (rolling-Sized f f.smallest size xs, rolling-first f f.smallest size m xs))
        v v' w w'
  run_two-Alike fn_stdev s t v v' w w' z =
      lengthwise-Alike (stdev f)
        (λ size xs pos. (rolling-Sized f f.std size xs, rolling-first f f.std size m xs)) v v' w w'
  run_two-Alike fn_shift s t v v' w w' z =
      lengthwise-Alike (λ xs k. some (shift f xs k)) shift-IsCausal v v' w w'
  run_two-Alike fn_crossover s t v v' w w' z =
      over_two-Alike (crossover f) (length-crossover f) (crossover-take f m) s t v v' w w' z
  run_two-Alike fn_crossunder s t v v' w w' z =
      over_two-Alike (crossunder f) (λ xs ys h. length-crossover f ys xs (sym h) ∙ sym h)
        (λ xs ys. crossover-take f m ys xs) s t v v' w w' z
  run_two-Alike fn_rising s t v v' w w' z = trending-Alike true v v' w w'
  run_two-Alike fn_falling s t v v' w w' z = trending-Alike false v v' w w'
  run_two-Alike fn_min s t v v' w w' z = elementwise-Alike f.minimum v v' w w'
  run_two-Alike fn_max s t v v' w w' z = elementwise-Alike f.maximum v v' w w'
  run_two-Alike fn_abs s t v v' w w' z = λ b c. both_raise _

  unfoldable pub BeginsEach : List (Value F) → List (Value F) → Type 0
  BeginsEach [] [] = Unit
  BeginsEach (v ∷ vs) (w ∷ ws) = BeginsValue f n m fits v w × BeginsEach vs ws
  BeginsEach _ _ = ⊥

  pub run_function-Alike :
      (function : Function) (s t : ℕ) (vs ws : List (Value F))
      → Sizes f laws n m fits some_bars s t
      → BeginsEach vs ws
      → Alike (BeginsValue f n m fits) (run_function f function s vs) (run_function f function t ws)
  unfolding run_function BeginsEach
  run_function-Alike function s t [] [] z b = both_raise _
  run_function-Alike function s t (v ∷ []) (w ∷ []) z b = run_one-Alike function v w b.0
  run_function-Alike function s t (v ∷ v₂ ∷ []) (w ∷ w₂ ∷ []) z b =
      run_two-Alike function s t v w v₂ w₂ z b.0 b.1.0
  run_function-Alike function s t (v ∷ v₂ ∷ v₃ ∷ vs) (w ∷ w₂ ∷ w₃ ∷ ws) z b = both_raise _
  run_function-Alike function s t [] (w ∷ ws) z b = absurd b
  run_function-Alike function s t (v ∷ vs) [] z b = absurd b
  run_function-Alike function s t (v ∷ []) (w ∷ w₂ ∷ ws) z b = absurd b.1
  run_function-Alike function s t (v ∷ v₂ ∷ vs) (w ∷ []) z b = absurd b.1
  run_function-Alike function s t (v ∷ v₂ ∷ []) (w ∷ w₂ ∷ w₃ ∷ ws) z b = absurd b.1.1
  run_function-Alike function s t (v ∷ v₂ ∷ v₃ ∷ vs) (w ∷ w₂ ∷ []) z b = absurd b.1.1
