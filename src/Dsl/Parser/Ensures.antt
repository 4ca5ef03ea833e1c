-- ===== src/Dsl/Parser/Ensures.antt =====
-- What a run of the parser leaves: a postcondition for results, and what a method has read.
use catpn.Prelude.{
  ℕ, zero, suc, ◌≤◌, ◌≡◌, refl, sym, ap, ◌∙◌, Bool, true, false, List, [], ◌∷◌, arith, ltb,
  if◌then◌else◌, length,
}
use catpn.Dsl.{
  ParseError, Complaint, Parsed, ok, failed, recursion_error, Token, TokenType, ident, lparen,
  rparen, comma, eof, BinaryOp, UnaryOp, Node, binary, unary, call, size, Args, no_args, arg,
  size_args,
}
use catpn.Dsl.Parser.{
  Nesting, enter, called, State, Parser, bind, is_eof, current, after_first, count_node, advance,
  expect, fail, max_nodes, is_lparen, is_rparen,
}

-- The run kept within its fuel, and its result, if there is one, satisfies the postcondition.
pub data Ensures {ℓ κ} {A : Type ℓ} (P : A → State → Type κ)
    : Parsed (A × State) → Type (ℓ ⊔ κ) where
  holds : (a : A) (s : State) → P a s → Ensures P (ok (a, s))
  rejected : (e : ParseError) → Ensures P (failed e)
  overflowed : Ensures P recursion_error

pub Ensures-bind {ℓ κ ℓ' κ'} :
    {A : Type ℓ} {P : A → State → Type κ} {B : Type ℓ'} {Q : B → State → Type κ'}
    {r : Parsed (A × State)} {f : A → Parser B}
    → Ensures P r
    → ((a : A) (s : State) → P a s → Ensures Q (f a s))
    → Ensures Q (bind r f)
Ensures-bind (holds a s h) k = k a s h
Ensures-bind (rejected e) k = rejected e
Ensures-bind overflowed k = overflowed

Ensures-enter {ℓ κ} :
    {A : Type ℓ} {P : A → State → Type κ} (depth room : ℕ) {body : Nesting → Parsed (A × State)}
    → ((inner : Nesting) → Ensures P (body inner))
    → Ensures P (enter depth room body)
Ensures-enter depth zero k = overflowed
Ensures-enter depth (suc r) k = k (record { depth = depth; room = r })

pub Ensures-called {ℓ κ} :
    {A : Type ℓ} {P : A → State → Type κ} (level : Nesting) {body : Nesting → Parsed (A × State)}
    → ((inner : Nesting) → Ensures P (body inner))
    → Ensures P (called level body)
Ensures-called level k = Ensures-enter level.depth level.room k

pub Ensures-if {ℓ κ} :
    {A : Type ℓ} {P : A → State → Type κ} (b : Bool) {x y : Parsed (A × State)}
    → (b ≡ true → Ensures P x)
    → (b ≡ false → Ensures P y)
    → Ensures P (if b then x else y)
Ensures-if true hx hy = hx refl
Ensures-if false hx hy = hy refl

pub Ensures-imp {ℓ κ κ'} :
    {A : Type ℓ} {P : A → State → Type κ} {Q : A → State → Type κ'} {r : Parsed (A × State)}
    → Ensures P r
    → ((a : A) (s : State) → P a s → Q a s)
    → Ensures Q r
Ensures-imp (holds a s h) k = holds a s (k a s h)
Ensures-imp (rejected e) k = rejected e
Ensures-imp overflowed k = overflowed

-- The head of the list is the current token.
pub at_token :
    (s : State) → is_eof (current s).kind ≡ false → s.tokens ≡ current s ∷ after_first s.tokens
at_token s h = go s.tokens h
  where
    go :
        (ts : List Token)
        → is_eof (catpn.Dsl.Parser.current_in ts).kind ≡ false
        → ts ≡ catpn.Dsl.Parser.current_in ts ∷ after_first ts
    go [] h = cc
    go (t ∷ ts) h = rw h refl

-- The state after a token was passed and a node was counted.
pub record Counted (s s' : State) : Type 0 where
  pub passed : s.tokens ≡ current s ∷ s'.tokens
  pub grown : s'.nodes ≡ suc s.nodes
  pub limited : s'.nodes ≤ max_nodes

abbrev pub Tallied : State → Unit {0} → State → Type 0
Tallied s u s' = (s'.tokens ≡ s.tokens) × (s'.nodes ≡ suc s.nodes) × (s'.nodes ≤ max_nodes)

pub count_node-Ensures : (s : State) → Ensures (Tallied s) (count_node s)
unfolding count_node
count_node-Ensures s =
    Ensures-if (ltb max_nodes (suc s.nodes)) (λ h. rejected _)
      (λ h. holds _ _ (refl, refl, ground arith))

-- A token that was expected and passed.
pub record Passed (test : TokenType → Bool) (s : State) (u : Unit {0}) (s' : State) : Type 0 where
  pub fits : test (current s).kind ≡ true
  pub gone : s.tokens ≡ current s ∷ s'.tokens
  pub same_nodes : s'.nodes ≡ s.nodes

pub expect-Ensures :
    (test : TokenType → Bool) (complaint : Complaint) (s : State)
    → (test eof ≡ false)
    → Ensures (Passed test s) (expect test complaint s)
unfolding expect
expect-Ensures test complaint s h =
    Ensures-if (test (current s).kind)
      (λ w.
        holds _ _
          (record { fits = w; gone = at_token s (not_eof (current s).kind w); same_nodes = refl }))
      (λ w. rejected _)
  where
    not_eof : (k : TokenType) → test k ≡ true → is_eof k ≡ false
    not_eof eof w = cc
    not_eof _ w = refl

-- After `count_node` and `advance` at a token.
pub entering :
    (s s' : State) (u : Unit {0})
    → is_eof (current s).kind ≡ false
    → Tallied s u s'
    → Counted s (record s' { tokens = after_first s'.tokens })
entering s s' u h t = record {
  passed = at_token s h ∙ ap (λ ts. current s ∷ after_first ts) (sym t.0);
  grown = t.1;
  limited = t.2;
}

-- After `advance` and `count_node` at a token.
pub passing :
    (s s' : State) (u : Unit {0})
    → is_eof (current s).kind ≡ false
    → Tallied (record s { tokens = after_first s.tokens }) u s'
    → Counted s s'
passing s s' u h t = record {
  passed = at_token s h ∙ ap (λ ts. current s ∷ ts) (sym t.0);
  grown = t.1;
  limited = t.2;
}

pub Counted-shorter : (s s' : State) → Counted s s' → length s.tokens ≡ suc (length s'.tokens)
Counted-shorter s s' c = ap length c.passed
