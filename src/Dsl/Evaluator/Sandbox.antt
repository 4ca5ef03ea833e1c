-- ===== src/Dsl/Evaluator/Sandbox.antt =====
-- What a rule can read: evaluator.py looks up the names that `identifiers` lists, and no others.
use catpn.Prelude.{
  ℕ, ◌≡◌, refl, sym, ap, ◌∙◌, subst, String, Bool, Option, none, some, List, [], ◌∷◌, ◌++◌, All,
  ltb, if◌then◌else◌,
}
use catpn.Dsl.{
  Node, literal, boolean, identifier, call, unary, binary, Args, no_args, arg, count_args,
}
use catpn.Dsl.Nodes.{identifier_name, identifiers}
use catpn.Dsl.Nodes.Walk.{collected, collected_args, identifiers-collected}
use catpn.Series.{Floats}
use catpn.Prelude.Dict.{find}
use catpn.Dsl.Evaluator.{
  array, scalar, numbers, unknown_name, Context, Evaluated, value, raised, ◌>>=◌, lookup, Value,
  apply_unary, apply_binary, too_many_bars, max_bars,
}
use catpn.Dsl.Evaluator.Eval.{eval, eval_args, bar_count, evaluate, check_budget, find_function}
use catpn.Dsl.Evaluator.Functions.{run_function}

bind-cong {ℓ κ} :
    {A : Type ℓ} {B : Type κ} (r s : Evaluated A) (g h : A → Evaluated B)
    → r ≡ s
    → ((a : A) → g a ≡ h a)
    → (r >>= g) ≡ (s >>= h)
bind-cong (value a) s g h e k = k a ∙ ap (λ x. x >>= h) e
bind-cong (raised x) s g h e k = ap (λ y. y >>= h) e

All-left : {A : Type 0} (P : A → Type 0) (xs ys : List A) → All P (xs ++ ys) → All P xs
All-left P [] ys h = tt
All-left P (x ∷ xs) ys h = (h.0, All-left P xs ys h.1)

All-right : {A : Type 0} (P : A → Type 0) (xs ys : List A) → All P (xs ++ ys) → All P ys
All-right P [] ys h = h
All-right P (x ∷ xs) ys h = All-right P xs ys h.1

module _ {F : Type 0} (f : Floats F) (late : ℕ → Bool) (c d : Context F) where
  abbrev pub Answered : String → Type 0
  Answered x = (find x c.series ≡ find x d.series) × (find x c.params ≡ find x d.params)

  lookup-Answered : (x : String) → Answered x → lookup f c x ≡ lookup f d x
  unfolding lookup
  lookup-Answered x h =
      ap (λ o. among o (find x c.params)) h.0 ∙ ap (λ p. among (find x d.series) p) h.1
    where
      among : Option (List F) → Option F → Evaluated (Value F)
      among o p = elim o [
        | some xs ↦ value (numbers (array xs))
        | none ↦ elim p [ some y ↦ value (numbers (scalar y)) | none ↦ raised unknown_name ]
      ]

  -- The two contexts hold the same under these names.
  abbrev pub Agree : List String → Type 0
  Agree names = All Answered names

  module _ (size : ℕ) where
    after :
        {A : Type 0} (steps : ℕ) (g h : ℕ → Evaluated A)
        → ((taken : ℕ) → g taken ≡ h taken)
        → (check_budget f late c size steps >>= g) ≡ (check_budget f late d size steps >>= h)
    unfolding check_budget
    after steps g h k =
        bind-cong (check_budget f late c size steps) (check_budget f late c size steps) g h refl k

    mutual
      unfolding eval collected

      eval-Agree :
          (node : Node F) (steps : ℕ)
          → Agree (collected identifier_name node)
          → eval f late c size node steps ≡ eval f late d size node steps
      eval-Agree (literal x) steps h = refl
      eval-Agree (boolean x) steps h = refl
      eval-Agree (identifier x) steps h =
          after steps _ _ λ taken. ap (λ r. r >>= λ v. value (v, taken)) (lookup-Answered x h.0)
      eval-Agree (unary op n) steps h =
          after steps _ _
            λ taken. ap (λ r. r >>= λ v. value (apply_unary f op v.0, v.1)) (eval-Agree n taken h)
      eval-Agree (binary op l r) steps h = after steps _ _ λ taken.
          bind-cong _ _ _ _
            (eval-Agree l taken
              (All-left Answered (collected identifier_name l) (collected identifier_name r) h))
            λ v.
              ap (λ x. x >>= λ w. apply_binary f op v.0 w.0 >>= λ u. value (u, w.1))
                (eval-Agree r v.1 (
                  All-right Answered (collected identifier_name l) (collected identifier_name r) h))
      eval-Agree (call name args) steps h = after steps _ _ λ taken.
          bind-cong (find_function f name (count_args args))
            (find_function f name (count_args args)) _ _ refl
            λ function.
              ap (λ x. x >>= λ vs. run_function f function size vs.0 >>= λ v. value (v, vs.1))
                (eval_args-Agree args taken h)

      eval_args-Agree :
          (args : Args F) (steps : ℕ)
          → Agree (collected_args identifier_name args)
          → eval_args f late c size args steps ≡ eval_args f late d size args steps
      eval_args-Agree no_args steps h = refl
      eval_args-Agree (arg n args) steps h =
          bind-cong _ _ _ _
            (eval-Agree n steps (
              All-left Answered (collected identifier_name n) (collected_args identifier_name args)
                h))
            λ v.
              ap (λ r. r >>= λ vs. value (v.0 ∷ vs.0, vs.1))
                (eval_args-Agree args v.1 (
                  All-right Answered (collected identifier_name n)
                    (collected_args identifier_name args) h))

  evaluated : ℕ → Evaluated (Value F × ℕ) → Evaluated (Value F)
  evaluated size r = if ltb max_bars size then raised too_many_bars else (r >>= λ v. value v.0)

  evaluate-evaluated :
      (node : Node F) (context : Context F)
      → evaluate f late node context
        ≡ evaluated (bar_count f context) (eval f late context (bar_count f context) node 0)
  unfolding evaluate evaluated
  evaluate-evaluated node context = refl

  -- A rule reads only what identifiers lists of it: two contexts that hold the same series and
  -- parameters under these names, and have the same bar count, evaluate the rule to the same
  -- value or error.
  pub evaluate-Agree :
      (node : Node F) (names : List String)
      → identifiers node ≡ some names
      → Agree names
      → bar_count f c ≡ bar_count f d
      → evaluate f late node c ≡ evaluate f late node d
  evaluate-Agree node names e h count =
      let listed : some names ≡ some (collected identifier_name node) =
        sym e ∙ (identifiers-collected node).0 in
      let same : names ≡ collected identifier_name node = cc in
      evaluate-evaluated node c
      ∙ ap (λ n. evaluated n (eval f late c n node 0)) count
      ∙ ap (λ r. evaluated (bar_count f d) r)
          (eval-Agree (bar_count f d) node 0 (subst (λ xs. Agree xs) same h))
      ∙ sym (evaluate-evaluated node d)
