-- ===== src/Dsl/Lexer.antt =====
-- packages/engine/quanta_engine/dsl/lexer.py: `tokenize`. A text is its list of characters, and the
-- index of the loop is counted beside the characters that are left. `isdigit`, `isalpha` and
-- `isalnum` of the host's strings are the fields of `Classes`.
pub mod Covers
use Prim.Native.Char.{Char, code}
use Prim.Native.String as S
use text.Mathlib.Text as T
use catpn.Prelude.{
  ℕ, zero, suc, ◌+◌, ◌≡◌, String, Bool, true, false, Option, none, some, List, [], ◌∷◌, ltb,
  if◌then◌else◌, ◌&&◌, ◌||◌, not, ◌==◌, length,
}
use catpn.Dsl.{
  Complaint, too_long, two_points, letter_after_number, single_equals, attribute_access,
  unexpected_character, ParseError, Parsed, ok, failed, recursion_error, out_of_fuel, TokenType,
  number, ident, keyword, operator, lparen, rparen, comma, eof, Token,
}

abbrev pub max_expression_length : ℕ
max_expression_length = 4000

-- The classes of characters, of which `str` documents that letters are alphanumeric.
pub record Classes : Type 0 where
  pub is_digit : Char → Bool
  pub is_alpha : Char → Bool
  pub is_alnum : Char → Bool
  pub alpha-alnum : (c : Char) → is_alpha c ≡ true → is_alnum c ≡ true

abbrev pub Text : Type 0
Text = List Char

unfoldable pub characters : String → Text
characters S.[] = []
characters (S.◌∷◌ c s) = c ∷ characters s

unfoldable pub string_of : Text → String
string_of [] = S.[]
string_of (c ∷ cs) = S.◌∷◌ c (string_of cs)

-- `KEYWORDS`
unfoldable pub is_reserved : String → Bool
is_reserved w =
    T.◌==◌ w "and" || T.◌==◌ w "or" || T.◌==◌ w "not" || T.◌==◌ w "true" || T.◌==◌ w "false"

-- `OPERATORS`
abbrev pub operators : List String
operators = "<=" ∷ ">=" ∷ "==" ∷ "!=" ∷ "<" ∷ ">" ∷ "+" ∷ "-" ∷ "*" ∷ "/" ∷ "%" ∷ []

abbrev pub is_blank : Char → Bool
is_blank c = code c == b' ' || code c == b'\t' || code c == b'\n' || code c == b'\r'

abbrev pub is_newline : Char → Bool
is_newline c = code c == b'\n'

abbrev pub is_underscore : Char → Bool
is_underscore c = code c == b'_'

abbrev pub is_point : Char → Bool
is_point c = code c == b'.'

-- The characters in front of the first one that fails the test, and those from it on.
unfoldable pub span : (Char → Bool) → Text → Text × Text
span test [] = ([], [])
span test (c ∷ cs) =
    let rest = span test cs in if test c then (c ∷ rest.0, rest.1) else ([], c ∷ cs)

abbrev pub after_prefix : String → Text → Option Text
after_prefix S.[] cs = some cs
after_prefix (S.◌∷◌ o os) [] = none
after_prefix (S.◌∷◌ o os) (c ∷ cs) =
    let rest = after_prefix os cs in if code o == code c then rest else none

-- The first operator that the text starts with, and what follows it.
unfoldable pub first_operator : List String → Text → Option (String × Text)
first_operator [] cs = none
first_operator (op ∷ ops) cs =
    let later = first_operator ops cs in
    elim (after_prefix op cs) [ some rest ↦ some (op, rest) | none ↦ later ]

-- How the loop over a number ends: at what follows it, or at a second point.
pub data NumberRead : Type 0 where
  digits : Text → Text → NumberRead
  second_point : ℕ → NumberRead

-- What one turn of the loop does: it passes characters, or it appends a token and passes its
-- characters, or it raises, so many characters further on.
pub data Turn : Type 0 where
  skipped : Text → Text → Turn
  made : TokenType → Text → Text → Turn
  stuck : Complaint → ℕ → Turn

-- A character in front of what a loop over a number reads.
abbrev pub in_number : Char → NumberRead → NumberRead
in_number c (digits cs rest) = digits (c ∷ cs) rest
in_number c (second_point n) = second_point (suc n)

abbrev pub on_tokens : (List Token → List Token) → Parsed (List Token) → Parsed (List Token)
on_tokens emitted (ok ts) = ok (emitted ts)
on_tokens emitted (failed e) = failed e
on_tokens emitted recursion_error = recursion_error
on_tokens emitted out_of_fuel = out_of_fuel

module _ (k : Classes) where
  abbrev pub starts_digit : Text → Bool
  starts_digit [] = false
  starts_digit (c ∷ cs) = k.is_digit c

  abbrev pub starts_letter : Text → Bool
  starts_letter [] = false
  starts_letter (c ∷ cs) = k.is_alpha c || is_underscore c

  abbrev pub in_word : Char → Bool
  in_word c = k.is_alnum c || is_underscore c

  -- The loop over a number; the flag is `seen_dot`.
  unfoldable pub read_number : Bool → Text → NumberRead
  read_number seen [] = digits [] []
  read_number seen (c ∷ cs) =
      let behind_digit = in_number c (read_number seen cs) in
      let behind_point = in_number c (read_number true cs) in
      if is_point c
      then (if seen then second_point 0 else behind_point)
      else if k.is_digit c
      then behind_digit
      else digits [] (c ∷ cs)

  unfoldable pub end_number : NumberRead → Turn
  end_number (second_point n) = stuck two_points n
  end_number (digits cs rest) =
      if starts_letter rest then stuck letter_after_number (length cs) else made number cs rest

  unfoldable pub read_word : Text → Turn
  unfolding span is_reserved string_of
  read_word cs =
      let split = span in_word cs in
      made (if is_reserved (string_of split.0) then keyword else ident) split.0 split.1

  unfoldable pub read_operator : Char → Text → Turn
  unfolding first_operator characters
  read_operator c cs = elim (first_operator operators (c ∷ cs)) [
    | some (op, rest) ↦ made operator (characters op) rest
    | none ↦
        if code c == b'='
        then stuck single_equals 0
        else if is_point c
        then stuck attribute_access 0
        else stuck unexpected_character 0
  ]

  -- One turn of the loop, at a character.
  unfoldable pub turn : Char → Text → Turn
  unfolding span read_number end_number read_word read_operator
  turn c cs =
      if is_blank c
      then skipped (c ∷ []) cs
      else if code c == b'#'
      then (let split = span (λ d. not (is_newline d)) (c ∷ cs) in skipped split.0 split.1)
      else if code c == b'('
      then made lparen (characters "(") cs
      else if code c == b')'
      then made rparen (characters ")") cs
      else if code c == b','
      then made comma (characters ",") cs
      else if k.is_digit c || is_point c && starts_digit cs
      then end_number (read_number false (c ∷ cs))
      else if k.is_alpha c || is_underscore c
      then read_word (c ∷ cs)
      else read_operator c cs

  -- The loop, from an index on.
  unfoldable pub lex : ℕ → ℕ → Text → Parsed (List Token)
  unfolding turn string_of
  lex zero index cs = out_of_fuel
  lex (suc f) index [] = ok (record { kind = eof; value = ""; position = index } ∷ [])
  lex (suc f) index (c ∷ cs) = elim (turn c cs) [
    | skipped seen rest ↦ lex f (index + length seen) rest
    | made kind seen rest ↦
        on_tokens (λ ts. record { kind = kind; value = string_of seen; position = index } ∷ ts)
          (lex f (index + length seen) rest)
    | stuck complaint n ↦ failed (record { complaint = complaint; position = some (index + n) })
  ]

  -- `tokenize`, with fuel for every character.
  unfoldable pub tokenize : String → Parsed (List Token)
  unfolding lex characters
  tokenize source =
      let cs = characters source in
      if ltb max_expression_length (length cs)
      then failed (record { complaint = too_long; position = none })
      else lex (suc (length cs)) 0 cs
