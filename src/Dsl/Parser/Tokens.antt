-- ===== src/Dsl/Parser/Tokens.antt =====
-- The tests of packages/engine/quanta_engine/dsl/parser.py on the current token.
use text.Mathlib.Text.{◌==◌}
use catpn.Prelude.{◌≡◌, refl, String, true, false, some, arith}
use catpn.Dsl.{Token, TokenType, keyword, lparen, rparen, comma, BinaryOp}
use catpn.Dsl.Parser.{
  is_eof, is_word, is_minus, is_lparen, is_rparen, is_comma, comparison_op, additive_op,
  multiplicative_op,
}

pub word-ne-eof : (w : String) (t : Token) → is_word w t ≡ true → is_eof t.kind ≡ false
word-ne-eof w t h = ground arith

pub minus-ne-eof : (t : Token) → is_minus t ≡ true → is_eof t.kind ≡ false
minus-ne-eof t h = ground arith

pub comparison_op-ne-eof :
    (t : Token) (op : BinaryOp) → comparison_op t ≡ some op → is_eof t.kind ≡ false
unfolding comparison_op
comparison_op-ne-eof t op h = ground arith

pub additive_op-ne-eof :
    (t : Token) (op : BinaryOp) → additive_op t ≡ some op → is_eof t.kind ≡ false
unfolding additive_op
additive_op-ne-eof t op h = ground arith

pub multiplicative_op-ne-eof :
    (t : Token) (op : BinaryOp) → multiplicative_op t ≡ some op → is_eof t.kind ≡ false
unfolding multiplicative_op
multiplicative_op-ne-eof t op h = ground arith

pub rparen-is : (k : TokenType) → is_rparen k ≡ true → k ≡ rparen
rparen-is rparen h = refl
rparen-is _ h = cc

pub lparen-is : (k : TokenType) → is_lparen k ≡ true → k ≡ lparen
lparen-is lparen h = refl
lparen-is _ h = cc

pub comma-ne-eof : (k : TokenType) → is_comma k ≡ true → is_eof k ≡ false
comma-ne-eof k h = ground arith

pub word-is :
    (w : String) (t : Token) → t.kind ≡ keyword → (t.value == w) ≡ true → is_word w t ≡ true
word-is w t k e = rw (k, e) refl

pub comma-is : (k : TokenType) → is_comma k ≡ true → k ≡ comma
comma-is comma h = refl
comma-is _ h = cc
