-- ===== src/Dsl/Evaluator/Shape.antt =====
-- The signal of evaluator.py has a value for each bar.
use catpn.Prelude.{ℕ, ◌≤◌, ◌≡◌, ◌∙◌, Bool, List, length, arith}
use catpn.Dsl.{Node}
use catpn.Series.{Floats}
use catpn.Dsl.Evaluator.{
  max_bars, Context, Evaluated, value, ◌>>=◌, Spread, array, scalar, Value, repeat, truthy,
}
use catpn.Dsl.Evaluator.Eval.{bar_count, evaluate_bool}
use catpn.Dsl.Evaluator.Alike.{
  Alike, alike, both_raise, Begins, BeginsAll, BeginsValue, truthy-Begins,
}
use catpn.Dsl.Evaluator.Arguments.{Laws, length-repeat}
use catpn.Dsl.Evaluator.Lookahead.{IsAligned, evaluate-Alike}

module _ {F : Type 0} (f : Floats F) (laws : Laws f) (n : ℕ) (some_bars : 1 ≤ n) where
  spread_length :
      (fits : n ≤ n) (size : ℕ) (x y : Spread Bool)
      → size ≡ n
      → BeginsAll n n fits x y
      → length (elim x [ array bs ↦ bs | scalar b ↦ repeat size b ]) ≡ n
  unfolding BeginsAll Begins
  spread_length fits size (array xs) (array ys) e b = b.0
  spread_length fits size (scalar x) (scalar y) e b = length-repeat size x ∙ e
  spread_length fits size (array xs) (scalar y) e b = absurd b
  spread_length fits size (scalar x) (array ys) e b = absurd b

  -- Where all series of a context have n bars, at least one and at most max_bars, a signal
  -- that evaluate_bool gives has n values, one for each bar.
  pub evaluate_bool-length :
      (late : ℕ → Bool) (node : Node F) (context : Context F) (signal : List Bool)
      → n ≤ max_bars
      → bar_count f context ≡ n
      → IsAligned n context
      → evaluate_bool f late node context ≡ value signal
      → length signal ≡ n
  unfolding evaluate_bool
  evaluate_bool-length late node context signal h count a =
      close _ _ (evaluate-Alike f laws n n (omega arith) some_bars late node context h a)
    where
      close :
          (r s : Evaluated (Value F))
          → Alike (BeginsValue f n n (omega arith)) r s
          → (r >>= λ v.
              value
                (elim (truthy f v) [ array bs ↦ bs | scalar b ↦ repeat (bar_count f context) b ]))
            ≡ value signal
          → length signal ≡ n
      close _ _ (alike v w p) e =
          let found =
            spread_length (omega arith) (bar_count f context) (truthy f v) (truthy f w) count
              (truthy-Begins f n n (omega arith) v w p) in
          cc
      close _ _ (both_raise x) e = cc
