-- ===== src/Dsl/Evaluator.antt =====
-- packages/engine/quanta_engine/dsl/evaluator.py: `evaluate` and `evaluate_bool` over the bars of a
-- context. A numpy array is a list; a Python number and a numpy scalar are both a `scalar`. Whether
-- the clock is past the deadline at a step is the parameter `late`.
pub mod Functions
pub mod Eval
pub mod Alike
pub mod Arguments
pub mod Handlers
pub mod Lookahead
pub mod Shape
pub mod Sandbox
use text.Mathlib.Text.{◌==◌}
use catpn.Prelude.{
  ℕ, zero, suc, ◌+◌, ◌%◌, String, Bool, true, false, not, ◌&&◌, ◌||◌, Option, none, some, List, [],
  ◌∷◌, map, ltb, if◌then◌else◌, length, take,
}
use catpn.Prelude as P
use catpn.Prelude.Dict.{Dict, find}
use catpn.Dsl.{
  BinaryOp, add, sub, mul, div, rem, lt, le, gt, ge, eq, ne, both, either, UnaryOp, negate, invert,
  Node, literal, boolean, identifier, call, unary, binary, Args, no_args, arg, count_args,
}
use catpn.Series.{
  Floats, zip_with, full, sma, ema, rsi, stdev, highest, lowest, shift, crossover, crossunder,
  monotonic,
}

abbrev pub max_bars : ℕ
max_bars = 2000000

-- The `EvaluationError`s, the `LimitExceededError`s, and the ValueError of numpy that an operator
-- lets through for arrays of different lengths.
pub data Fault : Type 0 where
  too_many_bars out_of_time series_length not_whole too_small too_large not_a_series no_bars : Fault
  unknown_name unknown_function wrong_arity bad_value shape_mismatch : Fault

pub data Evaluated {ℓ} (A : Type ℓ) : Type ℓ where
  value : A → Evaluated A
  raised : Fault → Evaluated A

infixl 1 ◌>>=◌
abbrev pub ◌>>=◌ {ℓ κ} : {A : Type ℓ} {B : Type κ} → Evaluated A → (A → Evaluated B) → Evaluated B
value a >>= k = k a
raised e >>= k = raised e

-- An array over the bars, or one thing for all of them.
pub data Spread (A : Type 0) : Type 0 where
  array : List A → Spread A
  scalar : A → Spread A

pub data Value (F : Type 0) : Type 0 where
  numbers : Spread F → Value F
  truths : Spread Bool → Value F

abbrev pub map_all : {A B : Type 0} → (A → B) → Spread A → Spread B
map_all g (array xs) = array (map g xs)
map_all g (scalar x) = scalar (g x)

abbrev pub repeat : {A : Type 0} → ℕ → A → List A
repeat zero a = []
repeat (suc n) a = a ∷ repeat n a

-- An array of one element serves for any length.
abbrev pub stretch : {A : Type 0} → ℕ → List A → List A
stretch n (x ∷ []) = repeat n x
stretch n xs = xs

-- numpy's broadcasting of an operation, or the error if the lengths do not fit.
unfoldable pub pairwise :
    {A B C : Type 0} → Fault → (A → B → C) → Spread A → Spread B → Evaluated (Spread C)
unfolding zip_with
pairwise e g (scalar x) (scalar y) = value (scalar (g x y))
pairwise e g (scalar x) (array ys) = value (array (map (λ y. g x y) ys))
pairwise e g (array xs) (scalar y) = value (array (map (λ x. g x y) xs))
pairwise e g (array xs) (array ys) =
    if P.◌==◌ (length xs) (length ys)
    then value (array (zip_with g xs ys))
    else let xs' = stretch (length ys) xs in
      let ys' = stretch (length xs) ys in
      if P.◌==◌ (length xs') (length ys') then value (array (zip_with g xs' ys')) else raised e

-- `Context`
pub record Context (F : Type 0) : Type 0 where
  pub series : Dict (List F)
  pub params : Dict F

module _ {F : Type 0} (f : Floats F) where
  abbrev pub of_bool : Bool → F
  of_bool true = f.of_nat 1
  of_bool false = f.of_nat 0

  -- `_numeric`
  unfoldable pub numeric : Value F → Spread F
  numeric (numbers xs) = xs
  numeric (truths bs) = map_all of_bool bs

  abbrev pub nonzero : F → Bool
  nonzero x = not (f.equal x (f.of_nat 0))

  -- `_truthy`: in an array a NaN is false, as one number it is not.
  unfoldable pub truthy : Value F → Spread Bool
  truthy (truths bs) = bs
  truthy (numbers (array xs)) = array (map (λ x. not (f.is_nan x) && nonzero x) xs)
  truthy (numbers (scalar x)) = scalar (nonzero x)

  -- `Context.lookup`
  unfoldable pub lookup : Context F → String → Evaluated (Value F)
  unfolding find
  lookup context name = elim (find name context.series) [
    | some xs ↦ value (numbers (array xs))
    | none ↦ elim (find name context.params) [
      | some x ↦ value (numbers (scalar x))
      | none ↦ raised unknown_name
    ]
  ]

  unfoldable pub apply_unary : UnaryOp → Value F → Value F
  unfolding numeric truthy
  apply_unary negate v = numbers (map_all f.neg (numeric v))
  apply_unary invert v = truths (map_all not (truthy v))

  abbrev pub arithmetic : (F → F → F) → Value F → Value F → Evaluated (Value F)
  arithmetic g a b = pairwise shape_mismatch g (numeric a) (numeric b) >>= λ r. value (numbers r)

  abbrev pub compared : (F → F → Bool) → Value F → Value F → Evaluated (Value F)
  compared g a b = pairwise shape_mismatch g (numeric a) (numeric b) >>= λ r. value (truths r)

  abbrev pub logical : (Bool → Bool → Bool) → Value F → Value F → Evaluated (Value F)
  logical g a b = pairwise shape_mismatch g (truthy a) (truthy b) >>= λ r. value (truths r)

  -- `_eval_binary` behind its operands; no comparison with a NaN holds but `!=`.
  unfoldable pub apply_binary : BinaryOp → Value F → Value F → Evaluated (Value F)
  unfolding numeric truthy pairwise
  apply_binary both = logical (λ x y. x && y)
  apply_binary either = logical (λ x y. x || y)
  apply_binary add = arithmetic f.add
  apply_binary sub = arithmetic f.sub
  apply_binary mul = arithmetic f.mul
  apply_binary div = arithmetic f.div
  apply_binary rem = arithmetic f.modulo
  apply_binary lt = compared f.less
  apply_binary le = compared f.less_equal
  apply_binary gt = compared (λ x y. f.less y x)
  apply_binary ge = compared (λ x y. f.less_equal y x)
  apply_binary eq = compared f.equal
  apply_binary ne = compared (λ x y. not (f.equal x y))
