-- ===== src/Dsl/Evaluator/Eval.antt =====
-- `Evaluator._eval`, `evaluate` and `evaluate_bool` of
-- packages/engine/quanta_engine/dsl/evaluator.py.
use catpn.Prelude.{
  ℕ, zero, suc, ◌+◌, ◌%◌, String, Bool, true, false, not, ◌&&◌, ◌||◌, Option, none, some, List, [],
  ◌∷◌, map, ltb, if◌then◌else◌, length, take,
}
use catpn.Prelude as P
use catpn.Prelude.Dict.{find}
use catpn.Dsl.{
  Node, literal, boolean, identifier, call, unary, binary, Args, no_args, arg, count_args,
}
use catpn.Series.{Floats}
use catpn.Dsl.Evaluator.{
  max_bars, Evaluated, Value, repeat, Context, too_many_bars, out_of_time, unknown_function,
  wrong_arity, value, raised, array, scalar, numbers, truths, ◌>>=◌, truthy, lookup, apply_unary,
  apply_binary,
}
use catpn.Dsl.Evaluator.Functions.{Function, functions_table, run_function}

module _ {F : Type 0} (f : Floats F) where
  -- The function of a name, if it takes so many arguments.
  unfoldable pub find_function : String → ℕ → Evaluated Function
  unfolding functions_table find
  find_function name count = elim (find name functions_table) [
    | none ↦ raised unknown_function
    | some (function, least, greatest) ↦
        if P.leb least count && P.leb count greatest then value function else raised wrong_arity
  ]

  module _ (late : ℕ → Bool) (context : Context F) (size : ℕ) where
    -- `_check_budget`: the number of steps taken.
    unfoldable pub check_budget : ℕ → Evaluated ℕ
    check_budget steps =
        if P.◌==◌ (suc steps % 256) 0 && late (suc steps)
        then raised out_of_time
        else value (suc steps)

    -- `_eval`, with the number of steps taken.
    unfoldable mutual
      unfolding count_args check_budget lookup apply_unary apply_binary find_function run_function

      pub eval : Node F → ℕ → Evaluated (Value F × ℕ)
      eval (literal x) steps = do taken ← check_budget steps; value (numbers (scalar x), taken)
      eval (boolean b) steps = do taken ← check_budget steps; value (truths (scalar b), taken)
      eval (identifier x) steps = do
        taken ← check_budget steps
        v ← lookup f context x
        value (v, taken)
      eval (unary op n) steps = do
        taken ← check_budget steps
        operand ← eval n taken
        value (apply_unary f op operand.0, operand.1)
      eval (binary op l r) steps = do
        taken ← check_budget steps
        left ← eval l taken
        right ← eval r left.1
        v ← apply_binary f op left.0 right.0
        value (v, right.1)
      eval (call name args) steps = do
        taken ← check_budget steps
        function ← find_function name (count_args args)
        values ← eval_args args taken
        v ← run_function f function size values.0
        value (v, values.1)

      pub eval_args : Args F → ℕ → Evaluated (List (Value F) × ℕ)
      eval_args no_args steps = value ([], steps)
      eval_args (arg n args) steps = do
        one ← eval n steps
        rest ← eval_args args one.1
        value (one.0 ∷ rest.0, rest.1)

  -- The bars of the first series.
  unfoldable pub bar_count : Context F → ℕ
  bar_count context = elim context.series [ [] ↦ 0 | (name, xs) ∷ rest ↦ length xs ]

  -- `evaluate`
  unfoldable pub evaluate : (ℕ → Bool) → Node F → Context F → Evaluated (Value F)
  unfolding eval bar_count
  evaluate late node context =
      if ltb max_bars (bar_count context)
      then raised too_many_bars
      else (eval late context (bar_count context) node 0 >>= λ r. value r.0)

  -- `evaluate_bool`
  unfoldable pub evaluate_bool : (ℕ → Bool) → Node F → Context F → Evaluated (List Bool)
  unfolding evaluate truthy
  evaluate_bool late node context = do
    result ← evaluate late node context
    value (elim (truthy f result) [ array bs ↦ bs | scalar b ↦ repeat (bar_count context) b ])
