-- ===== src/Dsl/Source.antt =====
-- `parse` of packages/engine/quanta_engine/dsl/parser.py: the lexer, then the parser.
use catpn.Prelude.{
  ℕ, suc, ◌≤◌, ◌<◌, ◌≡◌, ◌+◌, ◌*◌, refl, ap, ◌∙◌, subst, String, Option, none, some, List, arith,
  length, ltb, leb, leb→le, Bool-cases, inl, inr, ◌⊎◌, if_intro,
}
use catpn.Dsl.{too_long, ParseError, Parsed, ok, failed, recursion_error, out_of_fuel, Token, Node}
use catpn.Dsl.Lexer.{Classes, max_expression_length, characters, lex, tokenize}
use catpn.Dsl.Lexer.Covers.{Covers}
use catpn.Dsl.Lexer.Covers.Sound.{Lexed, scanned, pointed_at, lex-Lexed}
use catpn.Dsl.Parser.Grammar.{parse_tokens}
use catpn.Dsl.Parser.Room.{parse_tokens-ne-recursion_error}
use catpn.Dsl.Parser.Correct.{Accepts, parse_tokens-total, parse_tokens-Accepts}

module _ {F : Type 0} (k : Classes) (float_of : String → Option F) where
  -- `parse`, where the stack of the host has room for so many calls inside one another.
  unfoldable pub parse : ℕ → String → Parsed (Node F)
  unfolding tokenize parse_tokens
  parse room source = elim (tokenize k source) [
    | ok tokens ↦ parse_tokens float_of room tokens
    | failed e ↦ failed e
    | recursion_error ↦ recursion_error
    | out_of_fuel ↦ out_of_fuel
  ]

room_or_not : (a b : ℕ) → (a ≤ b) ⊎ (b < a)
room_or_not a b = elim (Bool-cases (leb a b)) [
  | inl h ↦ inl (leb→le a b h)
  | inr h ↦ inr (ground arith)
]

-- Where an error of the lexer points: nowhere, if the source is over its limit, or into the source.
pub Located : String → ParseError → Type 0
Located source e =
    ((max_expression_length < length (characters source))
      × (e.position ≡ none)
      × (e.complaint ≡ too_long))
    ⊎ ((length (characters source) ≤ max_expression_length)
        × ((n : ℕ) × (e.position ≡ some n) × (n < length (characters source))))

module _ (k : Classes) where
  data Tokenized (source : String) : Parsed (List Token) → Type 0 where
    split : (ts : List Token) → Covers k 0 (characters source) ts → Tokenized source (ok ts)
    located : (e : ParseError) → Located source e → Tokenized source (failed e)

  tokenize-Tokenized : (source : String) → Tokenized source (tokenize k source)
  unfolding tokenize Located
  tokenize-Tokenized source =
      if_intro (Tokenized source) (ltb max_expression_length (length (characters source)))
        (λ h. located _ (inl (ground arith, refl, refl)))
        (λ h.
          close (ground arith) (lex k (suc (length (characters source))) 0 (characters source))
            (lex-Lexed k (suc (length (characters source))) 0 (characters source) (omega arith)))
    where
      close :
          (length (characters source) ≤ max_expression_length)
          → (r : Parsed (List Token)) → Lexed k 0 (characters source) r
          → Tokenized source r
      close m _ (scanned ts c) = split ts c
      close m _ (pointed_at e n p h) = located e (inr (m, (n, p ∙ ap some (omega arith), h)))

  Tokenized-Located :
      (source : String) (e : ParseError) (r : Parsed (List Token))
      → Tokenized source r
      → r ≡ failed e
      → Located source e
  Tokenized-Located source e _ (split us c) h = cc
  Tokenized-Located source e _ (located x l) h = subst (λ y. Located source y) (cc) l

  -- An error of tokenize is that the source is over the limit, with no position, and only
  -- then; or it carries the index of a character of the source.
  pub tokenize-Located :
      (source : String) (e : ParseError) → tokenize k source ≡ failed e → Located source e
  tokenize-Located source e =
      Tokenized-Located source e (tokenize k source) (tokenize-Tokenized source)

module _ {F : Type 0} (k : Classes) (float_of : String → Option F) where
  -- The text is cut into tokens, and the tokens are written for the tree.
  pub record Means (source : String) (n : Node F) : Type 0 where
    pub tokens : List Token
    pub cut : Covers k 0 (characters source) tokens
    pub accepted : Accepts float_of tokens n

  -- Every call of parse ends: with a tree, with a ParseError, or, only after a source that the
  -- lexer accepts and only where the stack of the host has room for fewer calls of the
  -- parser's methods inside one another than forty for each token and forty more, with a
  -- RecursionError.
  pub parse-ends :
      (room : ℕ) (source : String)
      → ((n : Node F) × (parse k float_of room source ≡ ok n))
        ⊎ (((e : ParseError) × (parse k float_of room source ≡ failed e))
            ⊎ ((tokens : List Token) × (tokenize k source ≡ ok tokens)
                × (parse k float_of room source ≡ recursion_error)
                × (room < 40 * length tokens + 40)))
  unfolding parse
  parse-ends room source = go (tokenize k source) (tokenize-Tokenized k source) refl
    where
      run : Parsed (List Token) → Parsed (Node F)
      run r = elim r [
        | ok tokens ↦ parse_tokens float_of room tokens
        | failed e ↦ failed e
        | recursion_error ↦ recursion_error
        | out_of_fuel ↦ out_of_fuel
      ]

      ended :
          (ts : List Token) (p : Parsed (Node F))
          → parse_tokens float_of room ts ≡ p
          → ((n : Node F) × (p ≡ ok n))
            ⊎ (((e : ParseError) × (p ≡ failed e))
                ⊎ ((p ≡ recursion_error) × (room < 40 * length ts + 40)))
      ended ts (ok n) e = inl (n, refl)
      ended ts (failed x) e = inr (inl (x, refl))
      ended ts recursion_error e = elim (room_or_not (40 * length ts + 40) room) [
        | inl enough ↦ absurd (parse_tokens-ne-recursion_error float_of room ts enough e)
        | inr little ↦ inr (inr (refl, little))
      ]
      ended ts out_of_fuel e = absurd (parse_tokens-total float_of room ts e)

      go :
          (r : Parsed (List Token))
          → Tokenized k source r
          → tokenize k source ≡ r
          → ((n : Node F) × (run r ≡ ok n))
            ⊎ (((e : ParseError) × (run r ≡ failed e))
                ⊎ ((tokens : List Token) × (tokenize k source ≡ ok tokens)
                    × (run r ≡ recursion_error)
                    × (room < 40 * length tokens + 40)))
      go _ (split ts c) h = elim (ended ts (parse_tokens float_of room ts) refl) [
        | inl found ↦ inl found
        | inr (inl refused) ↦ inr (inl refused)
        | inr (inr (over, little)) ↦ inr (inr (ts, h, over, little))
      ]
      go _ (located e l) h = inr (inl (e, refl))

  -- If parse accepts a source as a tree, then the source is cut into tokens and gaps without
  -- leaving out a character, each token standing at its index, these tokens up to the end of
  -- the list derive the tree by the grammar of the parser's docstring, and the tree has at
  -- most max_nodes nodes.
  pub parse-Means :
      (room : ℕ) (source : String) (n : Node F)
      → parse k float_of room source ≡ ok n
      → Means source n
  unfolding parse
  parse-Means room source n = go (tokenize k source) (tokenize-Tokenized k source)
    where
      go :
          (r : Parsed (List Token))
          → Tokenized k source r
          → (elim r [
            | ok tokens ↦ parse_tokens float_of room tokens
            | failed e ↦ failed e
            | recursion_error ↦ recursion_error
            | out_of_fuel ↦ out_of_fuel
          ])
            ≡ ok n
          → Means source n
      go _ (split ts c) h = record {
        tokens = ts;
        cut = c;
        accepted = parse_tokens-Accepts float_of room ts n h;
      }
      go _ (located e l) h = cc
