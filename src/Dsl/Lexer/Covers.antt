-- ===== src/Dsl/Lexer/Covers.antt =====
-- What the tokens of lexer.py are of its source: every character belongs to one token or to a gap.
pub mod Pieces
pub mod Sound
use Prim.Native.Char.{Char, code}
use mathlib.Core.List.{Memᴰ}
use catpn.Prelude.{
  ℕ, zero, suc, ◌+◌, ◌≤◌, ◌<◌, ◌≡◌, refl, sym, ap, ◌∙◌, subst, String, Bool, true, false, Option,
  none, some, List, [], ◌∷◌, ◌++◌, ltb, if◌then◌else◌, ◌&&◌, ◌||◌, not, ◌==◌, length, arith,
  if_intro, all_of, length-append, Bool-cases,
}
use catpn.Dsl.{
  ParseError, Parsed, ok, failed, TokenType, number, ident, keyword, operator, lparen, rparen,
  comma, eof, Token,
}
use catpn.Dsl.Lexer.{
  Classes, Text, characters, string_of, is_reserved, operators, is_blank, is_newline, is_underscore,
  is_point, span, NumberRead, digits, second_point, Turn, skipped, made, stuck, starts_letter,
  in_word, read_number, end_number, read_word, read_operator, turn, lex, first_operator,
  after_prefix, starts_digit,
}

abbrev pub heads : (Char → Bool) → Text → Bool
heads test [] = false
heads test (c ∷ cs) = test c

-- A gap: a blank, or a comment up to the end of its line.
pub data Gap : Text → Text → Type 0 where
  blank : (c : Char) (rest : Text) → is_blank c ≡ true → Gap (c ∷ []) rest
  remark :
      (c : Char) (cs rest : Text)
      → (code c == b'#') ≡ true
      → all_of (λ d. not (is_newline d)) cs ≡ true
      → heads (λ d. not (is_newline d)) rest ≡ false
      → Gap (c ∷ cs) rest

module _ (k : Classes) where
  -- Digits with at most one point; the flag is whether one was met.
  abbrev pub is_decimal : Bool → Text → Bool
  is_decimal seen [] = true
  is_decimal seen (c ∷ cs) =
      if is_point c then not seen && is_decimal true cs else k.is_digit c && is_decimal seen cs

  -- The text of a token, and what follows it.
  pub data Shape : TokenType → Text → Text → Type 0 where
    opening : (rest : Text) → Shape lparen (characters "(") rest
    closing : (rest : Text) → Shape rparen (characters ")") rest
    separator : (rest : Text) → Shape comma (characters ",") rest
    decimal :
        (cs rest : Text)
        → is_decimal false cs ≡ true
        → heads k.is_digit rest ≡ false
        → starts_letter k rest ≡ false
        → Shape number cs rest
    word :
        (cs rest : Text)
        → starts_letter k cs ≡ true
        → all_of (in_word k) cs ≡ true
        → heads (in_word k) rest ≡ false
        → Shape (if is_reserved (string_of cs) then keyword else ident) cs rest
    symbol : (op : String) (rest : Text) → Memᴰ op operators → Shape operator (characters op) rest

  -- The tokens of a text that begins at an index of the source.
  pub data Covers : ℕ → Text → List Token → Type 0 where
    end_of_text : (i : ℕ) → Covers i [] (record { kind = eof; value = ""; position = i } ∷ [])
    gap :
        (i : ℕ) (seen rest cs : Text) (ts : List Token)
        → seen ++ rest ≡ cs
        → Gap seen rest
        → Covers (i + length seen) rest ts
        → Covers i cs ts
    token :
        (i : ℕ) (kind : TokenType) (seen rest cs : Text) (ts : List Token)
        → seen ++ rest ≡ cs
        → Shape kind seen rest
        → Covers (i + length seen) rest ts
        → Covers i cs (record { kind = kind; value = string_of seen; position = i } ∷ ts)

  -- What a turn makes of the text that is left.
  pub data Turned (cs : Text) : Turn → Type 0 where
    skips :
        (seen rest : Text)
        → seen ++ rest ≡ cs
        → 0 < length seen
        → Gap seen rest
        → Turned cs (skipped seen rest)
    makes :
        (kind : TokenType) (seen rest : Text)
        → seen ++ rest ≡ cs
        → 0 < length seen
        → Shape kind seen rest
        → Turned cs (made kind seen rest)
    sticks : (e : catpn.Dsl.Complaint) (n : ℕ) → n < length cs → Turned cs (stuck e n)
