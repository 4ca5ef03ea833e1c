-- ===== src/Dsl/Parser/Correct.antt =====
-- `Parser.parse` of packages/engine/quanta_engine/dsl/parser.py: that it ends, and what it accepts.
use catpn.Prelude.{
  ℕ, ◌+◌, ◌*◌, ◌≤◌, ◌≡◌, ◌≢◌, ap, subst, String, true, Option, List, ◌++◌, arith, length,
  Bool-cases, inl, inr,
}
use catpn.Dsl.{Parsed, ok, failed, recursion_error, out_of_fuel, Token, TokenType, Node, size}
use catpn.Dsl.Parser.{State, is_eof, current, current_in, max_nodes}
use catpn.Dsl.Parser.Derivation.{or_level, Derives}
use catpn.Dsl.Parser.Ensures.{Ensures, holds, rejected, overflowed}
use catpn.Dsl.Parser.Reads.{Reads}
use catpn.Dsl.Parser.Sound.{or_expr-Ensures}
use catpn.Dsl.Parser.Grammar.{finish, parse_tokens}

module _ {F : Type 0} (float_of : String → Option F) where
  -- The tokens in front of the end of the list are written for the tree by the grammar.
  pub record Accepts (ts : List Token) (n : Node F) : Type 0 where
    pub consumed : List Token
    pub rest : List Token
    pub split : ts ≡ consumed ++ rest
    pub ended : is_eof (current_in rest).kind ≡ true
    pub derived : Derives float_of or_level n consumed
    pub small : size n ≤ max_nodes

  data Ends (ts : List Token) : Parsed (Node F) → Type 0 where
    accepted : (n : Node F) → Accepts ts n → Ends ts (ok n)
    refused : (e : catpn.Dsl.ParseError) → Ends ts (failed e)
    overrun : Ends ts recursion_error

  finish-Ends :
      (ts : List Token) (n : Node F) (s : State)
      → Reads float_of or_level (record { tokens = ts; nodes = 0 }) n s
      → Ends ts (finish float_of n s)
  unfolding finish
  finish-Ends ts n s r = elim (Bool-cases (is_eof (current s).kind)) [
    | inl e ↦
        rw (e, finish)
          (accepted n (record {
            consumed = r.consumed;
            rest = s.tokens;
            split = r.split;
            ended = e;
            derived = r.derived;
            small = omega (arith, r.counted, r.within);
          }))
    | inr e ↦ rw (e, finish) (refused _)
  ]

  parse_tokens-Ends : (room : ℕ) (ts : List Token) → Ends ts (parse_tokens float_of room ts)
  unfolding parse_tokens
  parse_tokens-Ends room ts = elim (Bool-cases (is_eof (current_in ts).kind)) [
    | inl e ↦ rw (e, parse_tokens) (refused _)
    | inr e ↦
        rw (e, parse_tokens)
          (close _ (
            or_expr-Ensures float_of (20 * length ts + 20) (record { depth = 0; room = room })
              (record { tokens = ts; nodes = 0 }) (omega arith)))
  ]
    where
      close :
          (r : Parsed (Node F × State))
          → Ensures (Reads float_of or_level (record { tokens = ts; nodes = 0 })) r
          → Ends ts (elim r [
            | ok (node, s) ↦ finish float_of node s
            | failed e ↦ failed e
            | recursion_error ↦ recursion_error
            | out_of_fuel ↦ out_of_fuel
          ])
      close _ (holds n s r) = finish-Ends ts n s r
      close _ (rejected e) = refused e
      close _ overflowed = overrun

  Ends-ne-fuel : (ts : List Token) (r : Parsed (Node F)) → Ends ts r → r ≢ out_of_fuel
  Ends-ne-fuel ts r (accepted n a) e = cc
  Ends-ne-fuel ts r (refused x) e = cc
  Ends-ne-fuel ts r overrun e = cc

  Ends-Accepts :
      (ts : List Token) (n : Node F) (r : Parsed (Node F)) → Ends ts r → r ≡ ok n → Accepts ts n
  Ends-Accepts ts n r (accepted m a) e = subst (λ k. Accepts ts k) (ap (node_or m) e) a
    where
      node_or : Node F → Parsed (Node F) → Node F
      node_or d (ok k) = k
      node_or d _ = d
  Ends-Accepts ts n r (refused x) e = cc
  Ends-Accepts ts n r overrun e = cc

  pub parse_tokens-total :
      (room : ℕ) (ts : List Token) → parse_tokens float_of room ts ≢ out_of_fuel
  parse_tokens-total room ts =
      Ends-ne-fuel ts (parse_tokens float_of room ts) (parse_tokens-Ends room ts)

  pub parse_tokens-Accepts :
      (room : ℕ) (ts : List Token) (n : Node F)
      → parse_tokens float_of room ts ≡ ok n
      → Accepts ts n
  parse_tokens-Accepts room ts n =
      Ends-Accepts ts n (parse_tokens float_of room ts) (parse_tokens-Ends room ts)
