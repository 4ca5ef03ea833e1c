-- ===== src/Examples/Rules.antt =====
-- Concrete rules: tests of the lexer, the parser and the walk, and inputs for their theorems. The
-- characters are those of ASCII, and a number's value is its text.
use Prim.Native.Char.{Char, code}
use catpn.Prelude.{
  ◌≡◌, ◌<◌, ◌+◌, ◌*◌, ◌⊎◌, length, refl, String, Bool, true, false, Option, some, List, [], ◌∷◌,
  ◌||◌, ◌&&◌, leb,
}
use catpn.Dsl.{
  attribute_access, chained_comparison, ParseError, Parsed, ok, failed, recursion_error, Token,
  number, ident, operator, eof, Node, literal, identifier, call, unary, binary, no_args, arg, add,
  mul, gt, both, negate, invert,
}
use catpn.Dsl.Lexer.{Classes, tokenize}
use catpn.Dsl.Nodes.{walk, identifiers, functions, node_count}
use catpn.Dsl.Nodes.Names.{is_listed, reads, calls, identifiers-reads}
use catpn.Dsl.Nodes.Walk.{preorder, walk-preorder, node_count-size}
use catpn.Dsl.Source.{parse, Located, tokenize-Located, Means, parse-ends, parse-Means}

abbrev digit : Char → Bool
digit c = leb b'0' (code c) && leb (code c) b'9'

abbrev letter : Char → Bool
letter c = leb b'a' (code c) && leb (code c) b'z' || leb b'A' (code c) && leb (code c) b'Z'

abbrev ascii : Classes
ascii = record {
  is_digit = digit;
  is_alpha = letter;
  is_alnum = λ c. letter c || digit c;
  alpha-alnum = λ c h. rw h refl;
}

abbrev as_text : String → Option String
as_text x = some x

abbrev rule : Node String
rule =
    binary both (unary invert (binary gt (identifier "close") (literal "1.5")))
      (call "rising" (arg (identifier "close") (arg (literal "3") no_args)))

parse-rule : parse ascii as_text 900 "not close > 1.5 and rising(close, 3)  # up" ≡ ok rule
unfolding parse
parse-rule = refl

sums :
    parse ascii as_text 900 "a+b*-c"
    ≡ ok (binary add (identifier "a") (binary mul (identifier "b") (unary negate (identifier "c"))))
unfolding parse
sums = refl

chain :
    parse ascii as_text 900 "a < b < c"
    ≡ failed (record { complaint = chained_comparison; position = some 6 })
unfolding parse
chain = refl

sum_tokens :
    tokenize ascii "a+1"
    ≡ ok (
        (record { kind = ident; value = "a"; position = 0 })
        ∷ (record { kind = operator; value = "+"; position = 1 })
        ∷ (record { kind = number; value = "1"; position = 2 })
        ∷ (record { kind = eof; value = ""; position = 3 })
        ∷ [])
unfolding tokenize
sum_tokens = refl

node_count-rule : node_count rule ≡ some 8
unfolding node_count
node_count-rule = refl

-- A chain that is longer than the stack of the host has room for.
negations : parse ascii as_text 11 "---1" ≡ recursion_error
unfolding parse
negations = refl

parse-ends_example :
    ((n : Node String) × (parse ascii as_text 900 "not close > 1.5 and rising(close, 3)" ≡ ok n))
    ⊎ (((e : ParseError) × (parse ascii as_text 900 "not close > 1.5 and rising(close, 3)"
            ≡ failed e))
        ⊎ ((tokens : List Token) × (tokenize ascii "not close > 1.5 and rising(close, 3)"
              ≡ ok tokens)
            × (parse ascii as_text 900 "not close > 1.5 and rising(close, 3)" ≡ recursion_error)
            × (900 < 40 * length tokens + 40)))
parse-ends_example = parse-ends ascii as_text 900 "not close > 1.5 and rising(close, 3)"

parse-Means_example : Means ascii as_text "not close > 1.5 and rising(close, 3)  # up" rule
parse-Means_example =
    parse-Means ascii as_text 900 "not close > 1.5 and rising(close, 3)  # up" rule parse-rule

attribute :
    tokenize ascii "close.shape"
    ≡ failed (record { complaint = attribute_access; position = some 5 })
unfolding tokenize
attribute = refl

tokenize-Located_example :
    Located "close.shape" (record { complaint = attribute_access; position = some 5 })
tokenize-Located_example =
    tokenize-Located ascii "close.shape"
      (record { complaint = attribute_access; position = some 5 }) attribute

walk-preorder_example : walk rule ≡ some (preorder rule)
walk-preorder_example = walk-preorder rule

node_count-size_example : node_count rule ≡ some (catpn.Dsl.size rule)
node_count-size_example = node_count-size rule

identifiers-reads_example :
    ((names : List String) × (identifiers rule ≡ some names)
      × (is_listed "rising" names ≡ reads "rising" rule))
    × ((names : List String) × (functions rule ≡ some names)
        × (is_listed "rising" names ≡ calls "rising" rule))
identifiers-reads_example = identifiers-reads rule "rising"

rising-called : (reads "rising" rule ≡ false) × (calls "rising" rule ≡ true)
unfolding reads calls
rising-called = (refl, refl)
