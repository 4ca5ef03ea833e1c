-- ===== src/Examples/Bars.antt =====
-- Concrete bars: tests of the indicators and the evaluator, and inputs for their theorems. A float
-- is a whole number or NaN.
use catpn.Prelude.{
  ℕ, ◌+◌, ◌-◌, ◌*◌, ◌/◌, ◌%◌, ◌≤◌, ◌≡◌, refl, Bool, true, false, not, Option, none, some, String,
  List, [], ◌∷◌, ltb, leb, ◌==◌, if◌then◌else◌, length, take, arith,
}
use catpn.Prelude.Dict.{find}
use catpn.Dsl.{Node, literal, identifier, call, binary, no_args, arg, both, gt}
use catpn.Series.{
  true_range, atr, Floats, sma, ema, wilder, rsi, stdev, highest, lowest, shift, crossover,
  crossunder, monotonic,
}
use catpn.Series.Warming.{first}
use catpn.Series.Causal.{indicators-first, signals-first}
use catpn.Dsl.Evaluator.{Context, value}
use catpn.Dsl.Evaluator.Eval.{evaluate, evaluate_bool, bar_count}
use catpn.Dsl.Evaluator.Arguments.{Laws}
use catpn.Dsl.Evaluator.Sandbox.{Agree, evaluate-Agree}
use catpn.Dsl.Evaluator.Shape.{evaluate_bool-length}
use catpn.Dsl.Nodes.{identifiers}
use catpn.Dsl.Evaluator.Lookahead.{first_bars, first_of, IsAligned, evaluate_bool-first_bars}

abbrev Num : Type 0
Num = Option ℕ

abbrev on_both : (ℕ → ℕ → ℕ) → Num → Num → Num
on_both g (some x) (some y) = some (g x y)
on_both g _ _ = none

abbrev test_both : (ℕ → ℕ → Bool) → Num → Num → Bool
test_both g (some x) (some y) = g x y
test_both g _ _ = false

abbrev is_none : Num → Bool
is_none none = true
is_none (some x) = false

abbrev or_zero : Num → ℕ
or_zero none = 0
or_zero (some x) = x

abbrev total : List Num → Num
total [] = some 0
total (x ∷ xs) = on_both (λ a b. a + b) x (total xs)

abbrev greatest : List Num → Num
greatest [] = some 0
greatest (x ∷ xs) = on_both (λ a b. if ltb a b then b else a) x (greatest xs)

abbrev toy : Floats Num
toy = record {
  add = on_both (λ a b. a + b);
  sub = on_both (λ a b. a - b);
  mul = on_both (λ a b. a * b);
  div = on_both (λ a b. a / b);
  modulo = on_both (λ a b. a % b);
  neg = λ x. x;
  absolute = λ x. x;
  maximum = on_both (λ a b. if ltb a b then b else a);
  minimum = on_both (λ a b. if ltb a b then a else b);
  less = test_both ltb;
  less_equal = test_both leb;
  equal = test_both (λ a b. a == b);
  nan = none;
  is_nan = is_none;
  of_nat = λ n. some n;
  is_integer = λ x. not (is_none x);
  to_nat = or_zero;
  mean = λ xs. on_both (λ a b. a / b) (total xs) (some (length xs));
  std = greatest;
  largest = greatest;
  smallest = greatest;
}

whole_from_one :
    (x : Num) → toy.is_integer x ≡ true → toy.less x (toy.of_nat 1) ≡ false → 1 ≤ toy.to_nat x
whole_from_one none h k = cc
whole_from_one (some x) h k = ground arith

toy-Laws : Laws toy
toy-Laws = record { nan-is_nan = refl; whole = whole_from_one }

abbrev closes : List Num
closes = some 3 ∷ some 5 ∷ some 4 ∷ some 8 ∷ []

abbrev highs : List Num
highs = some 4 ∷ some 6 ∷ some 5 ∷ some 9 ∷ []

abbrev lows : List Num
lows = some 2 ∷ some 3 ∷ some 3 ∷ some 6 ∷ []

ranges : true_range toy highs lows closes ≡ some 2 ∷ some 3 ∷ some 2 ∷ some 5 ∷ []
unfolding true_range
ranges = refl

abbrev bars : Context Num
bars = record { series = ("close", closes) ∷ []; params = ("level", some 4) ∷ [] }

-- close > sma(close, 2) and crossover(close, level)
abbrev breakout : Node Num
breakout =
    binary both
      (binary gt (identifier "close")
        (call "sma" (arg (identifier "close") (arg (literal (some 2)) no_args))))
      (call "crossover" (arg (identifier "close") (arg (identifier "level") no_args)))

abbrev never : ℕ → Bool
never _ = false

averages : sma toy closes 2 ≡ some (none ∷ some 4 ∷ some 4 ∷ some 6 ∷ [])
unfolding sma
averages = refl

breakouts : evaluate_bool toy never breakout bars ≡ value (false ∷ true ∷ false ∷ true ∷ [])
unfolding evaluate_bool
breakouts = refl

indicators-first_example :
    (sma toy (take 3 closes) 2 ≡ first 3 (sma toy closes 2))
    × (ema toy (take 3 closes) 2 ≡ first 3 (ema toy closes 2))
    × (wilder toy (take 3 closes) 2 ≡ first 3 (wilder toy closes 2))
    × (rsi toy (take 3 closes) 2 ≡ first 3 (rsi toy closes 2))
    × (stdev toy (take 3 closes) 2 ≡ first 3 (stdev toy closes 2))
    × (highest toy (take 3 closes) 2 ≡ first 3 (highest toy closes 2))
    × (lowest toy (take 3 closes) 2 ≡ first 3 (lowest toy closes 2))
    × (atr toy (take 3 highs) (take 3 lows) (take 3 closes) 2
        ≡ first 3 (atr toy highs lows closes 2))
    × (shift toy (take 3 closes) 2 ≡ take 3 (shift toy closes 2))
indicators-first_example = indicators-first toy 2 3 highs lows closes refl (ground arith)

signals-first_example :
    (crossover toy (take 3 closes) (take 3 closes) ≡ take 3 (crossover toy closes closes))
    × (crossunder toy (take 3 closes) (take 3 closes) ≡ take 3 (crossunder toy closes closes))
    × (monotonic toy true (take 3 closes) 1 ≡ first 3 (monotonic toy true closes 1))
signals-first_example = signals-first toy true 1 3 closes closes

bars-IsAligned : IsAligned 4 bars
unfolding IsAligned
bars-IsAligned = (refl, tt)

evaluate_bool-first_bars_example :
    evaluate_bool toy never breakout (first_bars 2 bars)
    ≡ first_of 2 (evaluate_bool toy never breakout bars)
evaluate_bool-first_bars_example =
    evaluate_bool-first_bars toy toy-Laws 4 2 (ground arith) (ground arith) never breakout bars
      (ground arith) bars-IsAligned

evaluate_bool-length_example : length (false ∷ true ∷ false ∷ true ∷ []) ≡ 4
unfolding bar_count
evaluate_bool-length_example =
    evaluate_bool-length toy toy-Laws 4 (ground arith) never breakout bars
      (false ∷ true ∷ false ∷ true ∷ []) (ground arith) refl bars-IsAligned breakouts

-- The same closes beside a series and a level that the rule does not read.
abbrev more_bars : Context Num
more_bars = record {
  series = ("close", closes) ∷ ("volume", closes) ∷ [];
  params = ("level", some 4) ∷ ("stop", some 2) ∷ [];
}

abbrev names : List String
names = "close" ∷ "close" ∷ "close" ∷ "level" ∷ []

names-breakout : identifiers breakout ≡ some names
unfolding identifiers
names-breakout = refl

bars-Agree : Agree toy never bars more_bars names
unfolding find
bars-Agree = ((refl, refl), ((refl, refl), ((refl, refl), ((refl, refl), tt))))

evaluate-Agree_example : evaluate toy never breakout bars ≡ evaluate toy never breakout more_bars
unfolding bar_count
evaluate-Agree_example =
    evaluate-Agree toy never bars more_bars breakout names names-breakout bars-Agree refl
