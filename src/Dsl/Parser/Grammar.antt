-- ===== src/Dsl/Parser/Grammar.antt =====
-- The grammar's methods of packages/engine/quanta_engine/dsl/parser.py. A method is called at a
-- `Nesting`; one that is called where the stack of the host has no room left raises `RecursionError`,
-- and the few frames of the helpers that look at tokens are counted apart. `float` of the host is the parameter `float_of`. Each
-- call of a method costs a unit of fuel.
use text.Mathlib.Text.{◌==◌}
use catpn.Prelude.{
  ℕ, zero, suc, ◌+◌, ◌*◌, String, true, false, Option, none, some, List, ltb, if◌then◌else◌, length,
}
use catpn.Dsl.{
  empty_expression, trailing_input, too_deep, not_a_number, keyword_at_start, ends_early,
  unexpected_token, open_expected, close_expected, Parsed, ok, failed, recursion_error, out_of_fuel,
  TokenType, number, ident, keyword, operator, lparen, rparen, comma, eof, Token, both, either,
  negate, invert, Node, literal, boolean, identifier, call, unary, binary, Args, no_args, arg,
}
use catpn.Dsl.Parser.{
  max_depth, Nesting, called, State, Parser, ◌>>=◌, ◌>>◌, pure, run, fail, count_node, is_eof,
  current_in, current, advance, is_lparen, is_rparen, is_comma, is_word, is_minus, expect,
  comparison_op, additive_op, multiplicative_op, no_chain, check_count,
}

module _ {F : Type 0} (float_of : String → Option F) where
  unfoldable pub number_node : Token → Parser (Node F)
  number_node t s = elim (float_of t.value) [
    | none ↦ fail not_a_number (some t.position) s
    | some x ↦ ok (literal x, s)
  ]

  abbrev pub deeper : Nesting → Nesting
  deeper level = record level { depth = suc level.depth }

  unfoldable mutual
    unfolding advance count_node expect comparison_op additive_op multiplicative_op no_chain
        check_count number_node

    pub or_expr : ℕ → Nesting → Parser (Node F)
    or_expr zero level s = out_of_fuel
    or_expr (suc f) level s =
        called level λ inner. run s do left ← and_expr f inner; or_loop f inner left

    pub or_loop : ℕ → Nesting → Node F → Parser (Node F)
    or_loop zero level left s = out_of_fuel
    or_loop (suc f) level left s =
        let more = run s do
          advance
          count_node
          right ← and_expr f level
          or_loop f level (binary either left right)
        in if is_word "or" (current s) then more else ok (left, s)

    pub and_expr : ℕ → Nesting → Parser (Node F)
    and_expr zero level s = out_of_fuel
    and_expr (suc f) level s =
        called level λ inner. run s do left ← not_expr f inner; and_loop f inner left

    pub and_loop : ℕ → Nesting → Node F → Parser (Node F)
    and_loop zero level left s = out_of_fuel
    and_loop (suc f) level left s =
        let more = run s do
          advance
          count_node
          right ← not_expr f level
          and_loop f level (binary both left right)
        in if is_word "and" (current s) then more else ok (left, s)

    pub not_expr : ℕ → Nesting → Parser (Node F)
    not_expr zero level s = out_of_fuel
    not_expr (suc f) level s = called level λ inner.
        let inverted =
          (run s do advance; count_node; n ← not_expr f inner; pure (unary invert n)) in
        let plain = comparison f inner s in if is_word "not" (current s) then inverted else plain

    pub comparison : ℕ → Nesting → Parser (Node F)
    comparison zero level s = out_of_fuel
    comparison (suc f) level s =
        called level λ inner. run s do left ← additive f inner; comparison_tail f inner left

    pub comparison_tail : ℕ → Nesting → Node F → Parser (Node F)
    comparison_tail zero level left s = out_of_fuel
    comparison_tail (suc f) level left s = elim (comparison_op (current s)) [
      | none ↦ ok (left, s)
      | some op ↦
          run s do advance; count_node; right ← additive f level; no_chain (binary op left right)
    ]

    pub additive : ℕ → Nesting → Parser (Node F)
    additive zero level s = out_of_fuel
    additive (suc f) level s =
        called level λ inner. run s do left ← multiplicative f inner; additive_loop f inner left

    pub additive_loop : ℕ → Nesting → Node F → Parser (Node F)
    additive_loop zero level left s = out_of_fuel
    additive_loop (suc f) level left s = elim (additive_op (current s)) [
      | none ↦ ok (left, s)
      | some op ↦ run s do
        advance
        count_node
        right ← multiplicative f level
        additive_loop f level (binary op left right)
    ]

    pub multiplicative : ℕ → Nesting → Parser (Node F)
    multiplicative zero level s = out_of_fuel
    multiplicative (suc f) level s =
        called level λ inner. run s do left ← unary_expr f inner; multiplicative_loop f inner left

    pub multiplicative_loop : ℕ → Nesting → Node F → Parser (Node F)
    multiplicative_loop zero level left s = out_of_fuel
    multiplicative_loop (suc f) level left s = elim (multiplicative_op (current s)) [
      | none ↦ ok (left, s)
      | some op ↦ run s do
        advance
        count_node
        right ← unary_expr f level
        multiplicative_loop f level (binary op left right)
    ]

    pub unary_expr : ℕ → Nesting → Parser (Node F)
    unary_expr zero level s = out_of_fuel
    unary_expr (suc f) level s = called level λ inner.
        let negated =
          (run s do advance; count_node; n ← unary_expr f inner; pure (unary negate n)) in
        let plain = primary f inner s in if is_minus (current s) then negated else plain

    pub primary : ℕ → Nesting → Parser (Node F)
    primary zero level s = out_of_fuel
    primary (suc f) level s = called level λ inner.
        let result = called inner λ within.
          (run s do count_node; primary_inner f (deeper within) (current s).kind (current s)) in
        if ltb max_depth (suc inner.depth) then fail too_deep none s else result

    -- `_primary_inner` behind `_count_node`, by the type of the current token.
    pub primary_inner : ℕ → Nesting → TokenType → Token → Parser (Node F)
    primary_inner zero level kind t s = out_of_fuel
    primary_inner (suc f) level number t s = run s do advance; number_node t
    primary_inner (suc f) level keyword t s =
        if t.value == "true"
        then (run s do advance; pure (boolean true))
        else if t.value == "false"
        then (run s do advance; pure (boolean false))
        else fail keyword_at_start (some t.position) s
    primary_inner (suc f) level ident t s = run s do advance; name_or_call f level t
    primary_inner (suc f) level lparen t s =
        run s do advance; node ← or_expr f level; expect is_rparen close_expected; pure node
    primary_inner (suc f) level eof t s = fail ends_early (some t.position) s
    primary_inner (suc f) level rparen t s = fail unexpected_token (some t.position) s
    primary_inner (suc f) level comma t s = fail unexpected_token (some t.position) s
    primary_inner (suc f) level operator t s = fail unexpected_token (some t.position) s

    -- An identifier, or `_call`.
    pub name_or_call : ℕ → Nesting → Token → Parser (Node F)
    name_or_call zero level name s = out_of_fuel
    name_or_call (suc f) level name s =
        let applied = called level λ inner.
          (run s do
            expect is_lparen open_expected
            args ← call_args f inner name
            expect is_rparen close_expected
            pure (call name.value args)) in
        if is_lparen (current s).kind then applied else ok (identifier name.value, s)

    pub call_args : ℕ → Nesting → Token → Parser (Args F)
    call_args zero level name s = out_of_fuel
    call_args (suc f) level name s =
        let some_args =
          run s do first ← or_expr f level; rest ← more_args f level name 1; pure (arg first rest)
        in if is_rparen (current s).kind then ok (no_args, s) else some_args

    -- The loop over the arguments behind the first; `count` of them are read.
    pub more_args : ℕ → Nesting → Token → ℕ → Parser (Args F)
    more_args zero level name count s = out_of_fuel
    more_args (suc f) level name count s =
        let more = run s do
          advance
          next ← or_expr f level
          check_count (suc count) name
          rest ← more_args f level name (suc count)
          pure (arg next rest)
        in if is_comma (current s).kind then more else ok (no_args, s)

  unfoldable pub finish : Node F → State → Parsed (Node F)
  finish node s =
      if is_eof (current s).kind
      then ok node
      else failed (record { complaint = trailing_input; position = some (current s).position })

  -- `Parser.parse`, with fuel for every token, on a stack that has so much room.
  unfoldable pub parse_tokens : ℕ → List Token → Parsed (Node F)
  unfolding finish or_expr
  parse_tokens room tokens =
      if is_eof (current_in tokens).kind
      then failed (record { complaint = empty_expression; position = none })
      else elim (or_expr (20 * length tokens + 20) (record { depth = 0; room = room })
          (record { tokens = tokens; nodes = 0 })) [
            | ok (node, s) ↦ finish node s
            | failed e ↦ failed e
            | recursion_error ↦ recursion_error
            | out_of_fuel ↦ out_of_fuel
          ]
