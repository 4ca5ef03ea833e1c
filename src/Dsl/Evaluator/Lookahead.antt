-- ===== src/Dsl/Evaluator/Lookahead.antt =====
-- A rule sees no bar that is yet to come: evaluator.py on the first bars of a context.
use text.Mathlib.Text.{◌==◌}
use catpn.Prelude.{
  ℕ, ◌≤◌, ◌≡◌, refl, sym, ap, subst, String, Bool, false, Option, none, some, List, [], ◌∷◌, ltb,
  length, take, arith, Bool-cases, inl, inr,
}
use catpn.Prelude.Dict.{Dict, find, map_values, Entries, Entries-find}
use catpn.Dsl.{
  BinaryOp, add, sub, mul, div, rem, lt, le, gt, ge, eq, ne, both, either, UnaryOp, negate, invert,
  Node, literal, boolean, identifier, call, unary, binary, Args, no_args, arg, count_args,
}
use catpn.Series.{Floats}
use catpn.Series.Warming.{first}
use catpn.Series.Prefix.{take-nil, length-take}
use catpn.Dsl.Evaluator.{
  max_bars, Fault, Evaluated, value, raised, ◌>>=◌, Spread, array, scalar, Value, numbers, truths,
  map_all, repeat, pairwise, Context, of_bool, numeric, nonzero, truthy, lookup, apply_unary,
  apply_binary,
}
use catpn.Dsl.Evaluator.Functions.{Function, run_function}
use catpn.Dsl.Evaluator.Eval.{
  find_function, check_budget, eval, eval_args, bar_count, evaluate, evaluate_bool,
}
use catpn.Dsl.Evaluator.Alike.{
  Alike, alike, both_raise, Alike-bind, Alike-same, Begins, BeginsAll, BeginsValue, truthy-Begins,
  apply_unary-Begins, apply_binary-Alike,
}
use catpn.Dsl.Evaluator.Arguments.{Laws, take-repeat, Sizes}
use catpn.Dsl.Evaluator.Handlers.{BeginsEach, run_function-Alike}

-- Every series of the context has so many bars.
unfoldable pub IsAligned : {F : Type 0} → ℕ → Context F → Type 0
IsAligned n context = Entries (λ _ xs. length xs ≡ n) context.series

-- A context up to a bar.
unfoldable pub first_bars : {F : Type 0} → ℕ → Context F → Context F
unfolding map_values
first_bars m context = record context { series = map_values (λ xs. take m xs) context.series }

-- A signal up to a bar, or the error.
unfoldable pub first_of : ℕ → Evaluated (List Bool) → Evaluated (List Bool)
first_of m (value bs) = value (take m bs)
first_of m (raised e) = raised e

module _ {F : Type 0} (f : Floats F) (laws : Laws f) (n m : ℕ) (fits : m ≤ n)
    (some_bars : 1 ≤ m) where
  find-map_values :
      (name : String) (d : Dict (List F))
      → find name (map_values (λ xs. take m xs) d) ≡ first m (find name d)
  unfolding find map_values
  find-map_values name [] = refl
  find-map_values name ((j, xs) ∷ d) = elim (Bool-cases (j == name)) [
    | inl e ↦ rw e refl
    | inr e ↦ rw e (find-map_values name d)
  ]

  lookup-Alike :
      (context : Context F) (name : String)
      → IsAligned n context
      → Alike
          (BeginsValue f n m fits)
          (lookup f context name)
          (lookup f (first_bars m context) name)
  unfolding lookup first_bars IsAligned BeginsValue BeginsAll Begins
  lookup-Alike context name h =
      subst (λ o. Alike (BeginsValue f n m fits) (lookup f context name) (among o))
        (sym (find-map_values name context.series))
        (go (find name context.series)
          λ xs e. Entries-find (λ _ ys. length ys ≡ n) context.series h name xs e)
    where
      parameter : Option F → Evaluated (Value F)
      parameter o = elim o [
        | some x ↦ value (numbers (scalar x))
        | none ↦ raised catpn.Dsl.Evaluator.unknown_name
      ]

      among : Option (List F) → Evaluated (Value F)
      among o = elim o [
        | some xs ↦ value (numbers (array xs))
        | none ↦ parameter (find name context.params)
      ]

      parameter-Alike : (o : Option F) → Alike (BeginsValue f n m fits) (parameter o) (parameter o)
      parameter-Alike none = both_raise _
      parameter-Alike (some x) = alike _ _ refl

      go :
          (o : Option (List F))
          → ((xs : List F) → o ≡ some xs → length xs ≡ n)
          → Alike (BeginsValue f n m fits) (among o) (among (first m o))
      go none k = parameter-Alike (find name context.params)
      go (some xs) k = alike _ _ (k xs refl, refl)

  literal-Begins : (x : F) → BeginsValue f n m fits (numbers (scalar x)) (numbers (scalar x))
  unfolding BeginsValue BeginsAll
  literal-Begins x = refl

  boolean-Begins : (x : Bool) → BeginsValue f n m fits (truths (scalar x)) (truths (scalar x))
  unfolding BeginsValue BeginsAll
  boolean-Begins x = refl

  -- Two values, and as many steps.
  Stepped : {A : Type 0} → (A → A → Type 0) → A × ℕ → A × ℕ → Type 0
  Stepped R (a, i) (b, j) = R a b × (i ≡ j)

  module _ (late : ℕ → Bool) (context : Context F) (h : IsAligned n context) (s t : ℕ)
      (z : Sizes f laws n m fits some_bars s t) where
    check_budget-Alike :
        (i j : ℕ)
        → i ≡ j
        → Alike
            (λ a b. a ≡ b)
            (check_budget f late context s i)
            (check_budget f late (first_bars m context) t j)
    unfolding check_budget
    check_budget-Alike i j e =
        subst
          (λ k.
            Alike (λ a b. a ≡ b) (check_budget f late context s i)
              (check_budget f late (first_bars m context) t k))
          e (Alike-same _)

    called :
        (g g' : Function) (vs ws : List (Value F))
        → g ≡ g'
        → BeginsEach f laws n m fits some_bars vs ws
        → Alike (BeginsValue f n m fits) (run_function f g s vs) (run_function f g' t ws)
    called g g' vs ws same b =
        subst (λ o. Alike (BeginsValue f n m fits) (run_function f g s vs) (run_function f o t ws))
          same (run_function-Alike f laws n m fits some_bars g s t vs ws z b)

    mutual
      unfolding eval Stepped BeginsEach

      eval-Alike :
          (node : Node F) (i j : ℕ)
          → i ≡ j
          → Alike
              (Stepped (BeginsValue f n m fits))
              (eval f late context s node i)
              (eval f late (first_bars m context) t node j)
      eval-Alike (literal x) i j e =
          Alike-bind (check_budget-Alike i j e) λ a b p. alike _ _ (literal-Begins x, p)
      eval-Alike (boolean x) i j e =
          Alike-bind (check_budget-Alike i j e) λ a b p. alike _ _ (boolean-Begins x, p)
      eval-Alike (identifier x) i j e =
          Alike-bind (check_budget-Alike i j e)
            λ a b p. Alike-bind (lookup-Alike context x h) λ v w q. alike _ _ (q, p)
      eval-Alike (unary op node) i j e = Alike-bind (check_budget-Alike i j e) λ a b p.
          Alike-bind (eval-Alike node a b p)
            λ v w q. alike _ _ (apply_unary-Begins f n m fits op v.0 w.0 q.0, q.1)
      eval-Alike (binary op l r) i j e = Alike-bind (check_budget-Alike i j e) λ a b p.
          Alike-bind (eval-Alike l a b p) λ v v' q.
            Alike-bind (eval-Alike r v.1 v'.1 q.1) λ w w' q'.
              Alike-bind (apply_binary-Alike f n m fits op v.0 v'.0 w.0 w'.0 q.0 q'.0)
                λ u u' o. alike _ _ (o, q'.1)
      eval-Alike (call name args) i j e = Alike-bind (check_budget-Alike i j e) λ a b p.
          Alike-bind (Alike-same (find_function f name (count_args args))) λ g g' same.
            Alike-bind (eval_args-Alike args a b p)
              λ vs ws q. Alike-bind (called g g' vs.0 ws.0 same q.0) λ u u' o. alike _ _ (o, q.1)

      eval_args-Alike :
          (args : Args F) (i j : ℕ)
          → i ≡ j
          → Alike
              (Stepped (BeginsEach f laws n m fits some_bars))
              (eval_args f late context s args i)
              (eval_args f late (first_bars m context) t args j)
      eval_args-Alike no_args i j e = alike _ _ (tt, e)
      eval_args-Alike (arg node args) i j e = Alike-bind (eval-Alike node i j e) λ v w p.
          Alike-bind (eval_args-Alike args v.1 w.1 p.1) λ vs ws q. alike _ _ ((p.0, q.0), q.1)

  bar_count-Sizes :
      (context : Context F)
      → IsAligned n context
      → Sizes f laws n m fits some_bars (bar_count f context) (bar_count f (first_bars m context))
  unfolding bar_count first_bars IsAligned Sizes map_values
  bar_count-Sizes context h = go context.series h
    where
      go :
          (d : Dict (List F))
          → Entries (λ _ xs. length xs ≡ n) d
          → Sizes f laws n m fits some_bars
              (elim d [ [] ↦ 0 | (name, xs) ∷ rest ↦ length xs ])
              (elim (map_values (λ xs. take m xs) d) [ [] ↦ 0 | (name, xs) ∷ rest ↦ length xs ])
      go [] a = inl (refl, refl)
      go ((name, xs) ∷ d) a = inr (a.0, length-take m xs (omega (arith, a.0, fits)))

  Sizes-le :
      (s t : ℕ)
      → n ≤ max_bars
      → Sizes f laws n m fits some_bars s t
      → (ltb max_bars s ≡ false) × (ltb max_bars t ≡ false)
  unfolding Sizes
  Sizes-le s t h (inl z) = (ground arith, ground arith)
  Sizes-le s t h (inr z) = (ground arith, ground arith)

  pub evaluate-Alike :
      (late : ℕ → Bool) (node : Node F) (context : Context F)
      → n ≤ max_bars
      → IsAligned n context
      → Alike
          (BeginsValue f n m fits)
          (evaluate f late node context)
          (evaluate f late node (first_bars m context))
  unfolding evaluate Stepped
  evaluate-Alike late node context h a =
      let z = bar_count-Sizes context a in
      let l = Sizes-le _ _ h z in
      rw (l.0, l.1)
        (Alike-bind (eval-Alike late context a _ _ z node 0 0 refl) λ v w p. alike _ _ p.0)

  spread_over : ℕ → Spread Bool → List Bool
  spread_over size x = elim x [ array bs ↦ bs | scalar b ↦ repeat size b ]

  spread_over-take :
      (s t : ℕ) (x y : Spread Bool)
      → Sizes f laws n m fits some_bars s t
      → BeginsAll n m fits x y
      → spread_over t y ≡ take m (spread_over s x)
  unfolding spread_over Sizes BeginsAll Begins
  spread_over-take s t (array xs) (array ys) z b = b.1
  spread_over-take s t (scalar x) (scalar y) (inl z) b = rw (z.0, z.1) (sym (take-nil m))
  spread_over-take s t (scalar x) (scalar y) (inr z) b =
      rw (z.0, z.1, sym b) (sym (take-repeat m n x fits))
  spread_over-take s t (array xs) (scalar y) z b = absurd b
  spread_over-take s t (scalar x) (array ys) z b = absurd b

  -- No lookahead: where all series of a context have n bars, at most max_bars, evaluating a
  -- rule on the first m of them, at least one, with the clock read alike, gives the first m
  -- values of the signal on all bars, or the same error.
  pub evaluate_bool-first_bars :
      (late : ℕ → Bool) (node : Node F) (context : Context F)
      → n ≤ max_bars
      → IsAligned n context
      → evaluate_bool f late node (first_bars m context)
        ≡ first_of m (evaluate_bool f late node context)
  unfolding evaluate_bool first_of spread_over
  evaluate_bool-first_bars late node context h a = close _ _ (evaluate-Alike late node context h a)
    where
      close :
          (r s : Evaluated (Value F))
          → Alike (BeginsValue f n m fits) r s
          → (s >>= λ v. value (spread_over (bar_count f (first_bars m context)) (truthy f v)))
            ≡ first_of m (r >>= λ v. value (spread_over (bar_count f context) (truthy f v)))
      close _ _ (alike v w p) = ap value (
          spread_over-take _ _ (truthy f v) (truthy f w) (bar_count-Sizes context a)
            (truthy-Begins f n m fits v w p))
      close _ _ (both_raise e) = refl
