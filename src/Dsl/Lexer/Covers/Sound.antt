-- ===== src/Dsl/Lexer/Covers/Sound.antt =====
-- The loop of lexer.py covers its source.
use Prim.Native.Char.{Char, code}
use catpn.Prelude.{
  ℕ, zero, suc, ◌+◌, ◌<◌, ◌≡◌, refl, sym, ap, ◌∙◌, subst, String, Bool, true, false, Option, none,
  some, List, [], ◌∷◌, ◌++◌, if◌then◌else◌, ◌&&◌, ◌||◌, not, ◌==◌, length, arith, if_intro,
  length-append,
}
use catpn.Dsl.{
  Complaint, single_equals, attribute_access, unexpected_character, ParseError, Parsed, ok, failed,
  recursion_error, out_of_fuel, TokenType, number, operator, lparen, rparen, comma, Token,
}
use catpn.Dsl.Lexer.{
  Classes, Text, characters, string_of, operators, is_blank, is_newline, is_underscore, is_point,
  span, NumberRead, digits, second_point, in_number, Turn, skipped, made, stuck, starts_letter,
  in_word, read_number, end_number, read_word, read_operator, turn, lex, first_operator,
  starts_digit, on_tokens,
}
use catpn.Dsl.Lexer.Covers.{
  heads, blank, remark, is_decimal, Shape, opening, closing, separator, decimal, word, symbol,
  Covers, end_of_text, gap, token, Turned, skips, makes, sticks,
}
use catpn.Dsl.Lexer.Covers.Pieces.{
  same_code, span-append, span-all_of, span-heads, span-cons, Found, first_operator-Found, nonempty,
  nonempty-length, Memᴰ-nonempty,
}

module _ (k : Classes) where
  -- What a loop over a number has read.
  data NumberOf (seen : Bool) (cs : Text) : NumberRead → Type 0 where
    read :
        (ds rest : Text)
        → ds ++ rest ≡ cs
        → is_decimal k seen ds ≡ true
        → heads k.is_digit rest ≡ false
        → heads is_point rest ≡ false
        → NumberOf seen cs (digits ds rest)
    pointed : (n : ℕ) → n < length cs → NumberOf seen cs (second_point n)

  read_number-NumberOf : (seen : Bool) (cs : Text) → NumberOf seen cs (read_number k seen cs)
  unfolding read_number
  read_number-NumberOf seen [] = read [] [] refl refl refl refl
  read_number-NumberOf seen (c ∷ cs) =
      if_intro (NumberOf seen (c ∷ cs)) (is_point c)
        (λ p.
          if_intro (NumberOf seen (c ∷ cs)) seen (λ s. pointed 0 (omega arith))
            (λ s.
              behind true (read_number k true cs) (λ ds d. rw (p, s) d)
                (read_number-NumberOf true cs)))
        (λ p.
          if_intro (NumberOf seen (c ∷ cs)) (k.is_digit c)
            (λ d.
              behind seen (read_number k seen cs) (λ ds e. rw (p, d) e)
                (read_number-NumberOf seen cs))
            (λ d. read [] (c ∷ cs) refl refl d p))
    where
      behind :
          (after : Bool) (r : NumberRead)
          → ((ds : Text) → is_decimal k after ds ≡ true → is_decimal k seen (c ∷ ds) ≡ true)
          → NumberOf after cs r
          → NumberOf seen (c ∷ cs) (in_number c r)
      behind after _ f (read ds rest e d h p) =
          read (c ∷ ds) rest (ap (λ xs. c ∷ xs) e) (f ds d) h p
      behind after _ f (pointed n h) = pointed (suc n) (omega (arith, h))

  letter-length : (cs : Text) → starts_letter k cs ≡ true → 0 < length cs
  letter-length [] h = cc
  letter-length (c ∷ cs) h = omega arith

  part-shorter : (ds rest cs : Text) → ds ++ rest ≡ cs → 0 < length rest → length ds < length cs
  part-shorter ds rest cs e h = omega (arith, ap length e, length-append ds rest)

  -- The first character of a number is one of its own.
  number-length :
      (c : Char) (cs ds rest : Text)
      → (k.is_digit c || is_point c && starts_digit k cs) ≡ true
      → ds ++ rest ≡ c ∷ cs
      → heads k.is_digit rest ≡ false
      → heads is_point rest ≡ false
      → 0 < length ds
  number-length c cs [] rest w e h p =
      let no_digit = ap (heads k.is_digit) (sym e) ∙ h in
      let no_point = ap (heads is_point) (sym e) ∙ p in ground arith
  number-length c cs (d ∷ ds) rest w e h p = omega arith

  end_number-Turned :
      (c : Char) (cs : Text) (r : NumberRead)
      → (k.is_digit c || is_point c && starts_digit k cs) ≡ true
      → NumberOf false (c ∷ cs) r
      → Turned k (c ∷ cs) (end_number k r)
  unfolding end_number
  end_number-Turned c cs _ w (pointed n h) = sticks _ n h
  end_number-Turned c cs _ w (read ds rest e d h p) =
      if_intro (Turned k (c ∷ cs)) (starts_letter k rest)
        (λ l. sticks _ (length ds) (part-shorter ds rest (c ∷ cs) e (letter-length rest l)))
        (λ l. makes number ds rest e (number-length c cs ds rest w e h p) (decimal ds rest d h l))

  read_word-Turned :
      (c : Char) (cs : Text)
      → (k.is_alpha c || is_underscore c) ≡ true
      → Turned k (c ∷ cs) (read_word k (c ∷ cs))
  unfolding read_word
  read_word-Turned c cs w =
      let e = span-cons (in_word k) c cs (ground (arith, k.alpha-alnum c)) in
      makes _ (span (in_word k) (c ∷ cs)).0 (span (in_word k) (c ∷ cs)).1
        (span-append (in_word k) (c ∷ cs)) (rw e (omega arith))
        (word (span (in_word k) (c ∷ cs)).0 (span (in_word k) (c ∷ cs)).1
          (ap (λ z. starts_letter k z.0) e ∙ w) (span-all_of (in_word k) (c ∷ cs))
          (span-heads (in_word k) (c ∷ cs)))

  read_operator-Turned : (c : Char) (cs : Text) → Turned k (c ∷ cs) (read_operator k c cs)
  unfolding read_operator Found nonempty
  read_operator-Turned c cs =
      close (first_operator operators (c ∷ cs)) (first_operator-Found operators (c ∷ cs))
    where
      complain :
          (b b' : Bool) (x y z : Complaint)
          → Turned k (c ∷ cs) (if b then stuck x 0 else if b' then stuck y 0 else stuck z 0)
      complain b b' x y z =
          if_intro (Turned k (c ∷ cs)) b (λ h. sticks x 0 (omega arith))
            λ h.
              if_intro (Turned k (c ∷ cs)) b' (λ i. sticks y 0 (omega arith))
                (λ i. sticks z 0 (omega arith))

      close :
          (o : Option (String × Text))
          → Found operators (c ∷ cs) o
          → Turned k (c ∷ cs) (elim o [
            | some (op, rest) ↦ made operator (characters op) rest
            | none ↦
                if code c == b'='
                then stuck single_equals 0
                else if is_point c
                then stuck attribute_access 0
                else stuck unexpected_character 0
          ])
      close none f =
          complain (code c == b'=') (is_point c) single_equals attribute_access unexpected_character
      close (some (op, rest)) f =
          makes operator (characters op) rest f.1
            (nonempty-length op (Memᴰ-nonempty op operators f.0 refl)) (symbol op rest f.0)

  remark-Turned :
      (c : Char) (cs : Text)
      → (code c == b'#') ≡ true
      → Turned k
          (c ∷ cs)
          (let split = span (λ d. not (is_newline d)) (c ∷ cs) in skipped split.0 split.1)
  remark-Turned c cs h =
      let e = span-cons (λ d. not (is_newline d)) c cs (ground arith) in
      let test : Char → Bool = λ d. not (is_newline d) in
      rw e (
        skips (c ∷ (span test cs).0) (span test cs).1 (ap (λ ds. c ∷ ds) (span-append test cs))
          (omega arith)
          (remark c (span test cs).0 (span test cs).1 h (span-all_of test cs) (span-heads test cs)))

  one-Turned :
      (c d : Char) (cs : Text) (kind : TokenType)
      → (code c == code d) ≡ true
      → Shape k kind (d ∷ []) cs
      → Turned k (c ∷ cs) (made kind (d ∷ []) cs)
  one-Turned c d cs kind h p =
      makes kind (d ∷ []) cs (ap (λ x. x ∷ cs) (sym (same_code c d h))) (omega arith) p

  turn-Turned : (c : Char) (cs : Text) → Turned k (c ∷ cs) (turn k c cs)
  unfolding turn characters
  turn-Turned c cs =
      if_intro (Turned k (c ∷ cs)) (is_blank c)
        (λ h. skips (c ∷ []) cs refl (omega arith) (blank c cs h))
        λ _. if_intro (Turned k (c ∷ cs)) (code c == b'#') (remark-Turned c cs) λ _.
          if_intro (Turned k (c ∷ cs)) (code c == b'(')
            (λ h. one-Turned c "(" cs lparen h (opening cs))
            λ _.
              if_intro (Turned k (c ∷ cs)) (code c == b')')
                (λ h. one-Turned c ")" cs rparen h (closing cs))
                λ _.
                  if_intro (Turned k (c ∷ cs)) (code c == b',')
                    (λ h. one-Turned c "," cs comma h (separator cs))
                    λ _.
                      if_intro (Turned k (c ∷ cs)) (k.is_digit c || is_point c && starts_digit k cs)
                        (λ h.
                          end_number-Turned c cs (read_number k false (c ∷ cs)) h
                            (read_number-NumberOf false (c ∷ cs)))
                        λ _.
                          if_intro (Turned k (c ∷ cs)) (k.is_alpha c || is_underscore c)
                            (read_word-Turned c cs) (λ _. read_operator-Turned c cs)

  -- How a run of the loop ends, from an index on.
  pub data Lexed (i : ℕ) (cs : Text) : Parsed (List Token) → Type 0 where
    scanned : (ts : List Token) → Covers k i cs ts → Lexed i cs (ok ts)
    pointed_at :
        (e : ParseError) (n : ℕ) → e.position ≡ some (i + n) → n < length cs → Lexed i cs (failed e)

  on_tokens-id : (r : Parsed (List Token)) → on_tokens (λ ts. ts) r ≡ r
  on_tokens-id (ok ts) = refl
  on_tokens-id (failed e) = refl
  on_tokens-id recursion_error = refl
  on_tokens-id out_of_fuel = refl

  further :
      (i : ℕ) (seen rest cs : Text) (r : Parsed (List Token)) (emitted : List Token → List Token)
      → seen ++ rest ≡ cs
      → ((ts : List Token) → Covers k (i + length seen) rest ts → Covers k i cs (emitted ts))
      → Lexed (i + length seen) rest r
      → Lexed i cs (on_tokens emitted r)
  further i seen rest cs _ emitted e f (scanned ts c) = scanned (emitted ts) (f ts c)
  further i seen rest cs _ emitted e f (pointed_at err n p h) =
      pointed_at err (length seen + n) (p ∙ ap some (omega arith))
        (omega (arith, h, ap length e, length-append seen rest))

  pub lex-Lexed : (f i : ℕ) (cs : Text) → length cs < f → Lexed i cs (lex k f i cs)
  unfolding lex
  lex-Lexed zero i cs h = absurd (omega arith)
  lex-Lexed (suc f) i [] h = scanned _ (end_of_text i)
  lex-Lexed (suc f) i (c ∷ cs) h =
      close (turn k c cs) (turn-Turned c cs) (λ seen rest. lex-Lexed f (i + length seen) rest)
    where
      close :
          (t : Turn)
          → Turned k (c ∷ cs) t
          → ((seen rest : Text)
              → length rest < f
              → Lexed (i + length seen) rest (lex k f (i + length seen) rest))
          → Lexed i (c ∷ cs) (elim t [
            | skipped seen rest ↦ lex k f (i + length seen) rest
            | made kind seen rest ↦
                on_tokens
                  (λ ts. record { kind = kind; value = string_of seen; position = i } ∷ ts)
                  (lex k f (i + length seen) rest)
            | stuck complaint n ↦ failed (record { complaint = complaint; position = some (i + n) })
          ])
      close _ (skips seen rest e p g) again =
          subst (λ r. Lexed i (c ∷ cs) r) (on_tokens-id (lex k f (i + length seen) rest))
            (further i seen rest (c ∷ cs) (lex k f (i + length seen) rest) (λ ts. ts) e
              (λ ts. gap i seen rest (c ∷ cs) ts e g)
              (again seen rest (omega (arith, h, p, ap length e, length-append seen rest))))
      close _ (makes kind seen rest e p g) again =
          further i seen rest (c ∷ cs) (lex k f (i + length seen) rest)
            (λ ts. record { kind = kind; value = string_of seen; position = i } ∷ ts) e
            (λ ts. token i kind seen rest (c ∷ cs) ts e g)
            (again seen rest (omega (arith, h, p, ap length e, length-append seen rest)))
      close _ (sticks complaint n p) again = pointed_at _ n refl p
