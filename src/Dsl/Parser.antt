-- ===== src/Dsl/Parser.antt =====
-- packages/engine/quanta_engine/dsl/parser.py: the parser's state, its token helpers and the tests of
-- its levels. The token at the index is the head of the list that
-- is left; `tokenize` ends its list with the one EOF token, which `advance` never passes.
pub mod Grammar
pub mod Derivation
pub mod Ensures
pub mod Reads
pub mod Room
pub mod Tokens
pub mod Sound
pub mod Correct
use text.Mathlib.Text.{◌==◌}
use catpn.Prelude.{
  ℕ, zero, suc, ◌+◌, ◌*◌, String, Bool, true, false, not, Option, none, some, List, [], ◌∷◌, ltb,
  if◌then◌else◌, ◌&&◌, length,
}
use catpn.Dsl.{
  Complaint, empty_expression, trailing_input, too_complex, chained_comparison, too_deep,
  not_a_number, keyword_at_start, ends_early, unexpected_token, too_many_arguments, open_expected,
  close_expected, ParseError, Parsed, ok, failed, recursion_error, out_of_fuel, TokenType, number,
  ident, keyword, operator, lparen, rparen, comma, eof, Token, BinaryOp, add, sub, mul, div, rem,
  lt, le, gt, ge, eq, ne, both, either, UnaryOp, negate, invert, Node, literal, boolean, identifier,
  call, unary, binary, Args, no_args, arg,
}

abbrev pub max_nodes : ℕ
max_nodes = 2000

abbrev pub max_call_args : ℕ
max_call_args = 8

abbrev pub max_depth : ℕ
max_depth = 64

-- The tokens that are left, and the nodes counted.
pub record State : Type 0 where
  pub tokens : List Token
  pub nodes : ℕ

-- Where a call of a method stands: the depth that `_primary` counts up and down again, and for how
-- many more calls of methods inside one another the stack of the host has room.
pub record Nesting : Type 0 where
  pub depth : ℕ
  pub room : ℕ

abbrev pub Parser {ℓ} : Type ℓ → Type ℓ
Parser A = State → Parsed (A × State)

module _ {ℓ κ} {A : Type ℓ} {B : Type κ} where
  abbrev pub bind : Parsed (A × State) → (A → Parser B) → Parsed (B × State)
  bind (ok (a, s)) f = f a s
  bind (failed e) f = failed e
  bind recursion_error f = recursion_error
  bind out_of_fuel f = out_of_fuel

  infixl 1 ◌>>=◌ ◌>>◌
  abbrev pub ◌>>=◌ : Parser A → (A → Parser B) → Parser B
  p >>= f = λ s. bind (p s) f

  abbrev pub ◌>>◌ : Parser A → Parser B → Parser B
  p >> q = p >>= λ _. q

abbrev pub pure {ℓ} : {A : Type ℓ} → A → Parser A
pure a s = ok (a, s)

abbrev pub run {ℓ} : {A : Type ℓ} → State → Parser A → Parsed (A × State)
run s p = p s

abbrev pub fail {ℓ} : {A : Type ℓ} → Complaint → Option ℕ → Parser A
fail complaint position s = failed (record { complaint = complaint; position = position })

abbrev pub enter {ℓ} : {A : Type ℓ} → ℕ → ℕ → (Nesting → Parsed A) → Parsed A
enter depth zero body = recursion_error
enter depth (suc r) body = body (record { depth = depth; room = r })

-- The body of a method, one call further up the stack.
abbrev pub called {ℓ} : {A : Type ℓ} → Nesting → (Nesting → Parsed A) → Parsed A
called level body = enter level.depth level.room body

-- `_count_node`
unfoldable pub count_node : Parser (Unit {0})
count_node s =
    if ltb max_nodes (suc s.nodes)
    then fail too_complex none s
    else ok (tt, record s { nodes = suc s.nodes })

abbrev pub is_eof : TokenType → Bool
is_eof eof = true
is_eof _ = false

-- `_current`
abbrev pub current_in : List Token → Token
current_in [] = record { kind = eof; value = ""; position = 0 }
current_in (t ∷ ts) = t

abbrev pub current : State → Token
current s = current_in s.tokens

abbrev pub after_first : List Token → List Token
after_first [] = []
after_first (t ∷ ts) = if is_eof t.kind then t ∷ ts else ts

-- `_advance`
unfoldable pub advance : Parser (Unit {0})
advance s = ok (tt, record s { tokens = after_first s.tokens })

abbrev pub is_keyword : TokenType → Bool
is_keyword keyword = true
is_keyword _ = false

abbrev pub is_lparen : TokenType → Bool
is_lparen lparen = true
is_lparen _ = false

abbrev pub is_rparen : TokenType → Bool
is_rparen rparen = true
is_rparen _ = false

abbrev pub is_comma : TokenType → Bool
is_comma comma = true
is_comma _ = false

abbrev pub is_operator : TokenType → Bool
is_operator operator = true
is_operator _ = false

-- `_matches` of a keyword
abbrev pub is_word : String → Token → Bool
is_word word t = is_keyword t.kind && t.value == word

-- `_expect` of a parenthesis
unfoldable pub expect : (TokenType → Bool) → Complaint → Parser (Unit {0})
unfolding advance
expect test complaint s =
    if test (current s).kind then advance s else fail complaint (some (current s).position) s

-- The operator of a token, where it is one of the level's.
unfoldable pub comparison_op : Token → Option BinaryOp
comparison_op t =
    if not (is_operator t.kind)
    then none
    else if t.value == "<"
    then some lt
    else if t.value == "<="
    then some le
    else if t.value == ">"
    then some gt
    else if t.value == ">="
    then some ge
    else if t.value == "=="
    then some eq
    else if t.value == "!="
    then some ne
    else none

unfoldable pub additive_op : Token → Option BinaryOp
additive_op t =
    if not (is_operator t.kind)
    then none
    else if t.value == "+"
    then some add
    else if t.value == "-"
    then some sub
    else none

unfoldable pub multiplicative_op : Token → Option BinaryOp
multiplicative_op t =
    if not (is_operator t.kind)
    then none
    else if t.value == "*"
    then some mul
    else if t.value == "/"
    then some div
    else if t.value == "%"
    then some rem
    else none

abbrev pub is_minus : Token → Bool
is_minus t = is_operator t.kind && t.value == "-"

-- A name has at most eight arguments.
unfoldable pub check_count : ℕ → Token → Parser (Unit {0})
check_count count name s =
    if ltb max_call_args count then fail too_many_arguments (some name.position) s else ok (tt, s)

module _ {F : Type 0} where
  -- What follows a comparison must not be another.
  unfoldable pub no_chain : Node F → Parser (Node F)
  unfolding comparison_op
  no_chain node s = elim (comparison_op (current s)) [
    | none ↦ ok (node, s)
    | some op ↦ fail chained_comparison (some (current s).position) s
  ]
