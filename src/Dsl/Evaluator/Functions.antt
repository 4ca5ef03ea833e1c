-- ===== src/Dsl/Evaluator/Functions.antt =====
-- The functions that a rule can call, of packages/engine/quanta_engine/dsl/evaluator.py.
use catpn.Prelude.{
  ℕ, zero, suc, ◌+◌, ◌%◌, String, Bool, true, false, not, ◌&&◌, ◌||◌, Option, none, some, List, [],
  ◌∷◌, map, ltb, if◌then◌else◌, length, take,
}
use catpn.Prelude as P
use catpn.Prelude.Dict.{Dict}
use catpn.Series.{
  Floats, full, sma, ema, rsi, stdev, highest, lowest, shift, crossover, crossunder, monotonic,
}
use catpn.Dsl.Evaluator.{
  max_bars, Evaluated, Value, map_all, repeat, pairwise, series_length, not_whole, too_small,
  too_large, not_a_series, no_bars, bad_value, value, raised, array, scalar, numbers, truths, ◌>>=◌,
  numeric,
}

pub data Function : Type 0 where
  fn_sma fn_ema fn_rsi fn_highest fn_lowest fn_stdev fn_shift : Function
  fn_crossover fn_crossunder fn_rising fn_falling fn_abs fn_min fn_max : Function

-- `FUNCTIONS`: the names, then the least and the greatest number of arguments.
unfoldable pub functions_table : Dict (Function × ℕ × ℕ)
functions_table =
    ("sma", (fn_sma, 2, 2))
    ∷ ("ema", (fn_ema, 2, 2))
    ∷ ("rsi", (fn_rsi, 1, 2))
    ∷ ("highest", (fn_highest, 2, 2))
    ∷ ("lowest", (fn_lowest, 2, 2))
    ∷ ("stdev", (fn_stdev, 2, 2))
    ∷ ("shift", (fn_shift, 1, 2))
    ∷ ("crossover", (fn_crossover, 2, 2))
    ∷ ("crossunder", (fn_crossunder, 2, 2))
    ∷ ("rising", (fn_rising, 1, 2))
    ∷ ("falling", (fn_falling, 1, 2))
    ∷ ("abs", (fn_abs, 1, 1))
    ∷ ("min", (fn_min, 2, 2))
    ∷ ("max", (fn_max, 2, 2))
    ∷ []

module _ {F : Type 0} (f : Floats F) where
  -- `_integer_arg`
  unfoldable pub integer_arg : Value F → Evaluated ℕ
  unfolding numeric
  integer_arg v = elim (numeric f v) [
    | array xs ↦ raised series_length
    | scalar x ↦
        if not (f.is_integer x)
        then raised not_whole
        else if f.less x (f.of_nat 1)
        then raised too_small
        else if f.less (f.of_nat max_bars) x
        then raised too_large
        else value (f.to_nat x)
  ]

  -- `_as_series`; the size is `_SERIES_LENGTH`.
  unfoldable pub as_series : Bool → ℕ → Value F → Evaluated (List F)
  unfolding numeric
  as_series allow_constant size v = elim (numeric f v) [
    | array xs ↦ value xs
    | scalar x ↦
        if not allow_constant
        then raised not_a_series
        else if P.◌==◌ size 0
        then raised no_bars
        else value (repeat size x)
  ]

  abbrev pub or_bad_value : {A : Type 0} → Option A → Evaluated A
  or_bad_value none = raised bad_value
  or_bad_value (some a) = value a

  -- A handler that smooths a series over a length.
  unfoldable pub over_length :
      {A : Type 0}
      → (List F → ℕ → Option (List A))
      → (List A → Value F)
      → Value F
      → Value F
      → Evaluated (Value F)
  unfolding as_series integer_arg
  over_length indicator result values size = do
    xs ← as_series false 0 values
    n ← integer_arg size
    ys ← or_bad_value (indicator xs n)
    value (result ys)

  -- Of arrays of different lengths, one of a single bar has no previous bar, so nothing crosses.
  abbrev pub crossing : (List F → List F → List Bool) → List F → List F → Evaluated (List Bool)
  crossing cross xs ys =
      if P.◌==◌ (length xs) (length ys)
      then value (cross xs ys)
      else if P.◌==◌ (length xs) 1
      then value (full false ys)
      else if P.◌==◌ (length ys) 1
      then value (full false xs)
      else raised bad_value

  unfoldable pub over_two :
      (List F → List F → List Bool) → ℕ → Value F → Value F → Evaluated (Value F)
  unfolding as_series
  over_two cross size a b = do
    xs ← as_series true size a
    ys ← as_series true size b
    bs ← crossing cross xs ys
    value (truths (array bs))

  unfoldable pub elementwise : (F → F → F) → Value F → Value F → Evaluated (Value F)
  unfolding numeric pairwise
  elementwise g a b = pairwise bad_value g (numeric f a) (numeric f b) >>= λ r. value (numbers r)

  abbrev pub lengthwise : (List F → ℕ → Option (List F)) → Value F → Value F → Evaluated (Value F)
  lengthwise indicator = over_length indicator (λ ys. numbers (array ys))

  abbrev pub trending : Bool → Value F → Value F → Evaluated (Value F)
  trending increasing = over_length (monotonic f increasing) (λ bs. truths (array bs))

  abbrev pub constant : ℕ → Value F
  constant n = numbers (scalar (f.of_nat n))

  -- The handlers on one argument, the others with their defaults.
  unfoldable pub run_one : Function → Value F → Evaluated (Value F)
  unfolding over_length rsi shift monotonic numeric
  run_one fn_rsi a = lengthwise (rsi f) a (constant 14)
  run_one fn_shift a = lengthwise (λ xs n. some (shift f xs n)) a (constant 1)
  run_one fn_rising a = trending true a (constant 1)
  run_one fn_falling a = trending false a (constant 1)
  run_one fn_abs a = value (numbers (map_all f.absolute (numeric f a)))
  run_one _ a = raised bad_value

  unfoldable pub run_two : Function → ℕ → Value F → Value F → Evaluated (Value F)
  unfolding over_length over_two elementwise sma ema rsi shift crossover crossunder monotonic
  run_two fn_sma size = lengthwise (sma f)
  run_two fn_ema size = lengthwise (ema f)
  run_two fn_rsi size = lengthwise (rsi f)
  run_two fn_highest size = lengthwise (highest f)
  run_two fn_lowest size = lengthwise (lowest f)
  run_two fn_stdev size = lengthwise (stdev f)
  run_two fn_shift size = lengthwise (λ xs n. some (shift f xs n))
  run_two fn_crossover size = over_two (crossover f) size
  run_two fn_crossunder size = over_two (crossunder f) size
  run_two fn_rising size = trending true
  run_two fn_falling size = trending false
  run_two fn_min size = elementwise f.minimum
  run_two fn_max size = elementwise f.maximum
  run_two fn_abs size = λ a b. raised bad_value

  -- The handler of a function; the arguments were counted before.
  unfoldable pub run_function : Function → ℕ → List (Value F) → Evaluated (Value F)
  unfolding run_one run_two
  run_function function size (a ∷ []) = run_one function a
  run_function function size (a ∷ b ∷ []) = run_two function size a b
  run_function function size values = raised bad_value
