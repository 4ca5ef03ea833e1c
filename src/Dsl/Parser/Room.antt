-- ===== src/Dsl/Parser/Room.antt =====
-- How much room on the stack of the host keeps the parser of
-- packages/engine/quanta_engine/dsl/parser.py from a `RecursionError`.
use text.Mathlib.Text.{◌==◌}
use catpn.Prelude.{
  ℕ, zero, suc, ◌+◌, ◌*◌, ◌≤◌, ◌<◌, ◌≢◌, String, Bool, true, false, Option, List, arith, ltb,
  length, if◌then◌else◌, Bool-cases, Option-cases, inl, inr,
}
use catpn.Dsl.{
  ParseError, Complaint, Parsed, ok, failed, out_of_fuel, recursion_error, Token, TokenType, number,
  ident, keyword, operator, lparen, rparen, comma, eof, Node, both, either, negate, invert, binary,
  close_expected, open_expected,
}
use catpn.Dsl.Parser.{
  Nesting, enter, called, State, Parser, bind, is_eof, current, current_in, after_first, advance,
  max_depth, max_nodes, max_call_args, count_node, expect, is_word, is_minus, is_lparen, is_rparen,
  is_comma, comparison_op, additive_op, multiplicative_op, no_chain, check_count,
}
use catpn.Dsl.Parser.Grammar.{
  deeper, number_node, or_expr, or_loop, and_expr, and_loop, not_expr, comparison, comparison_tail,
  additive, additive_loop, multiplicative, multiplicative_loop, unary_expr, primary, primary_inner,
  name_or_call, call_args, more_args, finish, parse_tokens,
}

-- The run ends in no `RecursionError`.
pub data Fits {ℓ} {A : Type ℓ} : Parsed A → Type ℓ where
  fits_ok : (a : A) → Fits (ok a)
  fits_failed : (e : ParseError) → Fits (failed e)
  fits_fuel : Fits out_of_fuel

Fits-bind {ℓ κ} :
    {A : Type ℓ} {B : Type κ} {r : Parsed (A × State)} {f : A → Parser B}
    → Fits r
    → ((a : A) (s : State) → Fits (f a s))
    → Fits (bind r f)
Fits-bind (fits_ok (a, s)) k = k a s
Fits-bind (fits_failed e) k = fits_failed e
Fits-bind fits_fuel k = fits_fuel

Fits-if {ℓ} : {A : Type ℓ} (b : Bool) {x y : Parsed A} → Fits x → Fits y → Fits (if b then x else y)
Fits-if true h k = h
Fits-if false h k = k

Fits-enter {ℓ} :
    {A : Type ℓ} (depth room n : ℕ) {body : Nesting → Parsed A}
    → n < room
    → ((inner : Nesting) → n ≤ inner.room → Fits (body inner))
    → Fits (enter depth room body)
Fits-enter depth zero n h k = absurd (omega arith)
Fits-enter depth (suc r) n h k = k (record { depth = depth; room = r }) (omega arith)

Fits-called {ℓ} :
    {A : Type ℓ} (level : Nesting) (n : ℕ) {body : Nesting → Parsed A}
    → n < level.room
    → ((inner : Nesting) → n ≤ inner.room → Fits (body inner))
    → Fits (called level body)
Fits-called level n h k = Fits-enter level.depth level.room n h k

Fits-count_node : (s : State) → Fits (count_node s)
unfolding count_node
Fits-count_node s = Fits-if (ltb max_nodes (suc s.nodes)) (fits_failed _) (fits_ok _)

Fits-expect :
    (test : TokenType → Bool) (complaint : Complaint) (s : State) → Fits (expect test complaint s)
unfolding expect advance
Fits-expect test complaint s = Fits-if (test (current s).kind) (fits_ok _) (fits_failed _)

Fits-check_count : (count : ℕ) (name : Token) (s : State) → Fits (check_count count name s)
unfolding check_count
Fits-check_count count name s = Fits-if (ltb max_call_args count) (fits_failed _) (fits_ok _)

module _ {F : Type 0} (float_of : String → Option F) where
  Fits-no_chain : (n : Node F) (s : State) → Fits (no_chain n s)
  unfolding no_chain
  Fits-no_chain n s = elim (Option-cases (comparison_op (current s))) [
    | inl e ↦ rw (e, no_chain) (fits_ok _)
    | inr (op, e) ↦ rw (e, no_chain) (fits_failed _)
  ]

  Fits-number_node : (t : Token) (s : State) → Fits (number_node float_of t s)
  unfolding number_node
  Fits-number_node t s = elim (Option-cases (float_of t.value)) [
    | inl e ↦ rw (e, number_node) (fits_failed _)
    | inr (x, e) ↦ rw (e, number_node) (fits_ok _)
  ]

  mutual
    unfolding or_expr advance

    pub or_expr-Fits :
        (f : ℕ) (level : Nesting) (s : State)
        → 2 * f ≤ level.room
        → Fits (or_expr float_of f level s)
    or_expr-Fits zero level s h = fits_fuel
    or_expr-Fits (suc f) level s h = Fits-called level (2 * f + 1) (omega arith) λ inner h'.
        Fits-bind (and_expr-Fits f inner s (omega arith))
          λ n s₁. or_loop-Fits f inner n s₁ (omega arith)

    or_loop-Fits :
        (f : ℕ) (level : Nesting) (left : Node F) (s : State)
        → 2 * f ≤ level.room
        → Fits (or_loop float_of f level left s)
    or_loop-Fits zero level left s h = fits_fuel
    or_loop-Fits (suc f) level left s h =
        Fits-if (is_word "or" (current s))
          (Fits-bind (Fits-count_node (record s { tokens = after_first s.tokens })) λ u s₁.
            Fits-bind (and_expr-Fits f level s₁ (omega arith))
              λ right s₂. or_loop-Fits f level (binary either left right) s₂ (omega arith))
          (fits_ok _)

    and_expr-Fits :
        (f : ℕ) (level : Nesting) (s : State)
        → 2 * f ≤ level.room
        → Fits (and_expr float_of f level s)
    and_expr-Fits zero level s h = fits_fuel
    and_expr-Fits (suc f) level s h = Fits-called level (2 * f + 1) (omega arith) λ inner h'.
        Fits-bind (not_expr-Fits f inner s (omega arith))
          λ n s₁. and_loop-Fits f inner n s₁ (omega arith)

    and_loop-Fits :
        (f : ℕ) (level : Nesting) (left : Node F) (s : State)
        → 2 * f ≤ level.room
        → Fits (and_loop float_of f level left s)
    and_loop-Fits zero level left s h = fits_fuel
    and_loop-Fits (suc f) level left s h =
        Fits-if (is_word "and" (current s))
          (Fits-bind (Fits-count_node (record s { tokens = after_first s.tokens })) λ u s₁.
            Fits-bind (not_expr-Fits f level s₁ (omega arith))
              λ right s₂. and_loop-Fits f level (binary both left right) s₂ (omega arith))
          (fits_ok _)

    not_expr-Fits :
        (f : ℕ) (level : Nesting) (s : State)
        → 2 * f ≤ level.room
        → Fits (not_expr float_of f level s)
    not_expr-Fits zero level s h = fits_fuel
    not_expr-Fits (suc f) level s h = Fits-called level (2 * f + 1) (omega arith) λ inner h'.
        Fits-if (is_word "not" (current s))
          (Fits-bind (Fits-count_node (record s { tokens = after_first s.tokens }))
            λ u s₁. Fits-bind (not_expr-Fits f inner s₁ (omega arith)) λ n s₂. fits_ok _)
          (comparison-Fits f inner s (omega arith))

    comparison-Fits :
        (f : ℕ) (level : Nesting) (s : State)
        → 2 * f ≤ level.room
        → Fits (comparison float_of f level s)
    comparison-Fits zero level s h = fits_fuel
    comparison-Fits (suc f) level s h = Fits-called level (2 * f + 1) (omega arith) λ inner h'.
        Fits-bind (additive-Fits f inner s (omega arith))
          λ n s₁. comparison_tail-Fits f inner n s₁ (omega arith)

    comparison_tail-Fits :
        (f : ℕ) (level : Nesting) (left : Node F) (s : State)
        → 2 * f ≤ level.room
        → Fits (comparison_tail float_of f level left s)
    comparison_tail-Fits zero level left s h = fits_fuel
    comparison_tail-Fits (suc f) level left s h = elim (Option-cases (comparison_op (current s))) [
      | inl e ↦ rw (e, comparison_tail) (fits_ok _)
      | inr (op, e) ↦
          rw (e, comparison_tail)
            (Fits-bind (Fits-count_node (record s { tokens = after_first s.tokens })) λ u s₁.
              Fits-bind (additive-Fits f level s₁ (omega arith))
                λ right s₂. Fits-no_chain (binary op left right) s₂)
    ]

    additive-Fits :
        (f : ℕ) (level : Nesting) (s : State)
        → 2 * f ≤ level.room
        → Fits (additive float_of f level s)
    additive-Fits zero level s h = fits_fuel
    additive-Fits (suc f) level s h = Fits-called level (2 * f + 1) (omega arith) λ inner h'.
        Fits-bind (multiplicative-Fits f inner s (omega arith))
          λ n s₁. additive_loop-Fits f inner n s₁ (omega arith)

    additive_loop-Fits :
        (f : ℕ) (level : Nesting) (left : Node F) (s : State)
        → 2 * f ≤ level.room
        → Fits (additive_loop float_of f level left s)
    additive_loop-Fits zero level left s h = fits_fuel
    additive_loop-Fits (suc f) level left s h = elim (Option-cases (additive_op (current s))) [
      | inl e ↦ rw (e, additive_loop) (fits_ok _)
      | inr (op, e) ↦
          rw (e, additive_loop)
            (Fits-bind (Fits-count_node (record s { tokens = after_first s.tokens })) λ u s₁.
              Fits-bind (multiplicative-Fits f level s₁ (omega arith))
                λ right s₂. additive_loop-Fits f level (binary op left right) s₂ (omega arith))
    ]

    multiplicative-Fits :
        (f : ℕ) (level : Nesting) (s : State)
        → 2 * f ≤ level.room
        → Fits (multiplicative float_of f level s)
    multiplicative-Fits zero level s h = fits_fuel
    multiplicative-Fits (suc f) level s h = Fits-called level (2 * f + 1) (omega arith) λ inner h'.
        Fits-bind (unary_expr-Fits f inner s (omega arith))
          λ n s₁. multiplicative_loop-Fits f inner n s₁ (omega arith)

    multiplicative_loop-Fits :
        (f : ℕ) (level : Nesting) (left : Node F) (s : State)
        → 2 * f ≤ level.room
        → Fits (multiplicative_loop float_of f level left s)
    multiplicative_loop-Fits zero level left s h = fits_fuel
    multiplicative_loop-Fits (suc f) level left s h =
        elim (Option-cases (multiplicative_op (current s))) [
          | inl e ↦ rw (e, multiplicative_loop) (fits_ok _)
          | inr (op, e) ↦
              rw (e, multiplicative_loop)
                (Fits-bind (Fits-count_node (record s { tokens = after_first s.tokens })) λ u s₁.
                  Fits-bind (unary_expr-Fits f level s₁ (omega arith)) λ right s₂.
                    multiplicative_loop-Fits f level (binary op left right) s₂ (omega arith))
        ]

    unary_expr-Fits :
        (f : ℕ) (level : Nesting) (s : State)
        → 2 * f ≤ level.room
        → Fits (unary_expr float_of f level s)
    unary_expr-Fits zero level s h = fits_fuel
    unary_expr-Fits (suc f) level s h = Fits-called level (2 * f + 1) (omega arith) λ inner h'.
        Fits-if (is_minus (current s))
          (Fits-bind (Fits-count_node (record s { tokens = after_first s.tokens }))
            λ u s₁. Fits-bind (unary_expr-Fits f inner s₁ (omega arith)) λ n s₂. fits_ok _)
          (primary-Fits f inner s (omega arith))

    primary-Fits :
        (f : ℕ) (level : Nesting) (s : State)
        → 2 * f ≤ level.room
        → Fits (primary float_of f level s)
    primary-Fits zero level s h = fits_fuel
    primary-Fits (suc f) level s h = Fits-called level (2 * f + 1) (omega arith) λ inner h'.
        Fits-if (ltb max_depth (suc inner.depth))
          (fits_failed (record { complaint = catpn.Dsl.too_deep; position = catpn.Prelude.none }))
          (Fits-called inner (2 * f) (omega arith) λ within h''.
            Fits-bind (Fits-count_node s) λ u s₁.
              primary_inner-Fits f (deeper float_of within) (current s).kind (current s) s₁
                (omega arith))

    primary_inner-Fits :
        (f : ℕ) (level : Nesting) (kind : TokenType) (t : Token) (s : State)
        → 2 * f ≤ level.room
        → Fits (primary_inner float_of f level kind t s)
    primary_inner-Fits zero level kind t s h = fits_fuel
    primary_inner-Fits (suc f) level number t s h =
        Fits-number_node t (record s { tokens = after_first s.tokens })
    primary_inner-Fits (suc f) level keyword t s h =
        Fits-if (t.value == "true") (fits_ok _)
          (Fits-if (t.value == "false") (fits_ok _) (fits_failed _))
    primary_inner-Fits (suc f) level ident t s h =
        name_or_call-Fits f level t (record s { tokens = after_first s.tokens }) (omega arith)
    primary_inner-Fits (suc f) level lparen t s h =
        Fits-bind (or_expr-Fits f level (record s { tokens = after_first s.tokens }) (omega arith))
          λ n s₁. Fits-bind (Fits-expect is_rparen close_expected s₁) λ u s₂. fits_ok _
    primary_inner-Fits (suc f) level eof t s h = fits_failed _
    primary_inner-Fits (suc f) level rparen t s h = fits_failed _
    primary_inner-Fits (suc f) level comma t s h = fits_failed _
    primary_inner-Fits (suc f) level operator t s h = fits_failed _

    name_or_call-Fits :
        (f : ℕ) (level : Nesting) (name : Token) (s : State)
        → 2 * f ≤ level.room
        → Fits (name_or_call float_of f level name s)
    name_or_call-Fits zero level name s h = fits_fuel
    name_or_call-Fits (suc f) level name s h =
        Fits-if (is_lparen (current s).kind)
          (Fits-called level (2 * f + 1) (omega arith) λ inner h'.
            Fits-bind (Fits-expect is_lparen open_expected s) λ u s₁.
              Fits-bind (call_args-Fits f inner name s₁ (omega arith))
                λ args s₂. Fits-bind (Fits-expect is_rparen close_expected s₂) λ v s₃. fits_ok _)
          (fits_ok _)

    call_args-Fits :
        (f : ℕ) (level : Nesting) (name : Token) (s : State)
        → 2 * f ≤ level.room
        → Fits (call_args float_of f level name s)
    call_args-Fits zero level name s h = fits_fuel
    call_args-Fits (suc f) level name s h = Fits-if (is_rparen (current s).kind) (fits_ok _) (
        Fits-bind (or_expr-Fits f level s (omega arith))
          λ n s₁. Fits-bind (more_args-Fits f level name 1 s₁ (omega arith)) λ args s₂. fits_ok _)

    more_args-Fits :
        (f : ℕ) (level : Nesting) (name : Token) (count : ℕ) (s : State)
        → 2 * f ≤ level.room
        → Fits (more_args float_of f level name count s)
    more_args-Fits zero level name count s h = fits_fuel
    more_args-Fits (suc f) level name count s h =
        Fits-if (is_comma (current s).kind)
          (Fits-bind
            (or_expr-Fits f level (record s { tokens = after_first s.tokens }) (omega arith))
            λ n s₁. Fits-bind (Fits-check_count (suc count) name s₁) λ u s₂.
              Fits-bind (more_args-Fits f level name (suc count) s₂ (omega arith))
                λ args s₃. fits_ok _)
          (fits_ok _)

  finish-Fits : (n : Node F) (s : State) → Fits (finish float_of n s)
  unfolding finish
  finish-Fits n s = Fits-if (is_eof (current s).kind) (fits_ok n) (fits_failed _)

  parse_tokens-Fits :
      (room : ℕ) (ts : List Token)
      → 40 * length ts + 40 ≤ room
      → Fits (parse_tokens float_of room ts)
  unfolding parse_tokens
  parse_tokens-Fits room ts h = Fits-if (is_eof (current_in ts).kind) (fits_failed _) (
      finishes _ (
        or_expr-Fits (20 * length ts + 20) (record { depth = 0; room = room })
          (record { tokens = ts; nodes = 0 }) (omega arith)))
    where
      finishes :
          (r : Parsed (Node F × State))
          → Fits r
          → Fits (elim r as (λ _. Parsed (Node F)) [
            | ok (node, s) ↦ finish float_of node s
            | failed e ↦ failed e
            | recursion_error ↦ recursion_error
            | out_of_fuel ↦ out_of_fuel
          ])
      finishes _ (fits_ok (n, s)) = finish-Fits n s
      finishes _ (fits_failed e) = fits_failed e
      finishes _ fits_fuel = fits_fuel

  Fits-ne-recursion_error : {A : Type 0} (r : Parsed A) → Fits r → r ≢ recursion_error
  Fits-ne-recursion_error _ (fits_ok a) e = cc
  Fits-ne-recursion_error _ (fits_failed x) e = cc
  Fits-ne-recursion_error _ fits_fuel e = cc

  pub parse_tokens-ne-recursion_error :
      (room : ℕ) (ts : List Token)
      → 40 * length ts + 40 ≤ room
      → parse_tokens float_of room ts ≢ recursion_error
  parse_tokens-ne-recursion_error room ts h =
      Fits-ne-recursion_error (parse_tokens float_of room ts) (parse_tokens-Fits room ts h)
