-- ===== src/Dsl/Parser/Derivation.antt =====
-- The grammar in the docstring of packages/engine/quanta_engine/dsl/parser.py, as a relation between
-- a level, a tree and the tokens that it is written with. Loops of the docstring group to the left.
use catpn.Prelude.{String, ◌≡◌, true, false, Option, some, List, [], ◌∷◌, ◌++◌}
use catpn.Dsl.{
  number, ident, lparen, rparen, comma, Token, both, either, negate, invert, Node, literal, boolean,
  identifier, call, unary, binary, BinaryOp, Args, no_args, arg,
}
use catpn.Dsl.Parser.{is_word, is_minus, comparison_op, additive_op, multiplicative_op}

pub data Level : Type 0 where
  or_level and_level not_level comparison_level : Level
  additive_level multiplicative_level unary_level primary_level : Level

mutual
  pub data Derives {F : Type 0} (float_of : String → Option F)
      : Level → Node F → List Token → Type 0 where
    or_one :
        (n : Node F) (xs : List Token)
        → Derives float_of and_level n xs
        → Derives float_of or_level n xs
    or_more :
        (l r : Node F) (xs ys : List Token) (t : Token)
        → is_word "or" t ≡ true
        → Derives float_of or_level l xs
        → Derives float_of and_level r ys
        → Derives float_of or_level (binary either l r) (xs ++ t ∷ ys)
    and_one :
        (n : Node F) (xs : List Token)
        → Derives float_of not_level n xs
        → Derives float_of and_level n xs
    and_more :
        (l r : Node F) (xs ys : List Token) (t : Token)
        → is_word "and" t ≡ true
        → Derives float_of and_level l xs
        → Derives float_of not_level r ys
        → Derives float_of and_level (binary both l r) (xs ++ t ∷ ys)
    not_one :
        (n : Node F) (xs : List Token)
        → Derives float_of comparison_level n xs
        → Derives float_of not_level n xs
    not_more :
        (n : Node F) (xs : List Token) (t : Token)
        → is_word "not" t ≡ true
        → Derives float_of not_level n xs
        → Derives float_of not_level (unary invert n) (t ∷ xs)
    comparison_one :
        (n : Node F) (xs : List Token)
        → Derives float_of additive_level n xs
        → Derives float_of comparison_level n xs
    comparison_two :
        (op : BinaryOp) (l r : Node F) (xs ys : List Token) (t : Token)
        → comparison_op t ≡ some op
        → Derives float_of additive_level l xs
        → Derives float_of additive_level r ys
        → Derives float_of comparison_level (binary op l r) (xs ++ t ∷ ys)
    additive_one :
        (n : Node F) (xs : List Token)
        → Derives float_of multiplicative_level n xs
        → Derives float_of additive_level n xs
    additive_more :
        (op : BinaryOp) (l r : Node F) (xs ys : List Token) (t : Token)
        → additive_op t ≡ some op
        → Derives float_of additive_level l xs
        → Derives float_of multiplicative_level r ys
        → Derives float_of additive_level (binary op l r) (xs ++ t ∷ ys)
    multiplicative_one :
        (n : Node F) (xs : List Token)
        → Derives float_of unary_level n xs
        → Derives float_of multiplicative_level n xs
    multiplicative_more :
        (op : BinaryOp) (l r : Node F) (xs ys : List Token) (t : Token)
        → multiplicative_op t ≡ some op
        → Derives float_of multiplicative_level l xs
        → Derives float_of unary_level r ys
        → Derives float_of multiplicative_level (binary op l r) (xs ++ t ∷ ys)
    unary_one :
        (n : Node F) (xs : List Token)
        → Derives float_of primary_level n xs
        → Derives float_of unary_level n xs
    unary_more :
        (n : Node F) (xs : List Token) (t : Token)
        → is_minus t ≡ true
        → Derives float_of unary_level n xs
        → Derives float_of unary_level (unary negate n) (t ∷ xs)
    a_number :
        (x : F) (t : Token)
        → t.kind ≡ number
        → float_of t.value ≡ some x
        → Derives float_of primary_level (literal x) (t ∷ [])
    a_truth :
        (t : Token)
        → is_word "true" t ≡ true
        → Derives float_of primary_level (boolean true) (t ∷ [])
    a_falsity :
        (t : Token)
        → is_word "false" t ≡ true
        → Derives float_of primary_level (boolean false) (t ∷ [])
    a_name :
        (t : Token) → t.kind ≡ ident → Derives float_of primary_level (identifier t.value) (t ∷ [])
    a_group :
        (n : Node F) (xs : List Token) (t u : Token)
        → t.kind ≡ lparen
        → u.kind ≡ rparen
        → Derives float_of or_level n xs
        → Derives float_of primary_level n (t ∷ (xs ++ u ∷ []))
    a_call :
        (args : Args F) (xs : List Token) (name t u : Token)
        → name.kind ≡ ident
        → t.kind ≡ lparen
        → u.kind ≡ rparen
        → DerivesArgs float_of args xs
        → Derives float_of primary_level (call name.value args) (name ∷ t ∷ (xs ++ u ∷ []))

  pub data DerivesArgs {F : Type 0} (float_of : String → Option F)
      : Args F → List Token → Type 0 where
    nothing : DerivesArgs float_of no_args []
    first :
        (n : Node F) (args : Args F) (xs ys : List Token)
        → Derives float_of or_level n xs
        → DerivesMore float_of args ys
        → DerivesArgs float_of (arg n args) (xs ++ ys)

  pub data DerivesMore {F : Type 0} (float_of : String → Option F)
      : Args F → List Token → Type 0 where
    no_more : DerivesMore float_of no_args []
    next :
        (n : Node F) (args : Args F) (xs ys : List Token) (t : Token)
        → t.kind ≡ comma
        → Derives float_of or_level n xs
        → DerivesMore float_of args ys
        → DerivesMore float_of (arg n args) (t ∷ (xs ++ ys))
