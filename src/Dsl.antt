-- ===== src/Dsl.antt =====
-- The rule language of packages/engine/quanta_engine/dsl: errors.py, the tokens of lexer.py, and
-- the nodes of nodes.py. A number's value is of the parameter type `F`, the floats of the host.
pub mod Nodes
pub mod Lexer
pub mod Parser
pub mod Source
pub mod Evaluator
use catpn.Prelude.{ℕ, ◌+◌, String, Bool, true, false, Option, none, some, List, [], ◌∷◌}

-- The messages of the `ParseError`s, in the order of the source.
pub data Complaint : Type 0 where
  too_long two_points letter_after_number single_equals attribute_access unexpected_character :
      Complaint
  empty_expression trailing_input too_complex chained_comparison too_deep : Complaint
  not_a_number keyword_at_start ends_early unexpected_token too_many_arguments : Complaint
  open_expected close_expected : Complaint

-- `ParseError`: what is wrong, and where.
pub record ParseError : Type 0 where
  pub complaint : Complaint
  pub position : Option ℕ

-- How a run ends: with a value, with a `ParseError`, or with the `RecursionError` of the host, where
-- its stack has no room for another call. `out_of_fuel` has no counterpart in the program.
pub data Parsed {ℓ} (A : Type ℓ) : Type ℓ where
  ok : A → Parsed A
  failed : ParseError → Parsed A
  recursion_error out_of_fuel : Parsed A

pub data TokenType : Type 0 where
  number ident keyword operator lparen rparen comma eof : TokenType

pub record Token : Type 0 where
  pub kind : TokenType
  pub value : String
  pub position : ℕ

pub data BinaryOp : Type 0 where
  add sub mul div rem lt le gt ge eq ne both either : BinaryOp

pub data UnaryOp : Type 0 where
  negate invert : UnaryOp

-- The arguments of a call stand in the block, as a list of nodes.
mutual
  pub data Node (F : Type 0) : Type 0 where
    literal : F → Node F
    boolean : Bool → Node F
    identifier : String → Node F
    call : String → Args F → Node F
    unary : UnaryOp → Node F → Node F
    binary : BinaryOp → Node F → Node F → Node F

  pub data Args (F : Type 0) : Type 0 where
    no_args : Args F
    arg : Node F → Args F → Args F

abbrev pub op_text : BinaryOp → String
op_text add = "+"
op_text sub = "-"
op_text mul = "*"
op_text div = "/"
op_text rem = "%"
op_text lt = "<"
op_text le = "<="
op_text gt = ">"
op_text ge = ">="
op_text eq = "=="
op_text ne = "!="
op_text both = "and"
op_text either = "or"

-- Tree measures: the nodes, the calls on a path, and the arguments of a call.
unfoldable mutual
  pub size : {F : Type 0} → Node F → ℕ
  size (literal x) = 1
  size (boolean b) = 1
  size (identifier x) = 1
  size (call name args) = 1 + size_args args
  size (unary op n) = 1 + size n
  size (binary op l r) = 1 + (size l + size r)

  pub size_args : {F : Type 0} → Args F → ℕ
  size_args no_args = 0
  size_args (arg n args) = size n + size_args args

unfoldable pub count_args : {F : Type 0} → Args F → ℕ
count_args no_args = 0
count_args (arg n args) = 1 + count_args args
