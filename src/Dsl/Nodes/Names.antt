-- ===== src/Dsl/Nodes/Names.antt =====
-- What `identifiers` and `functions` of packages/engine/quanta_engine/dsl/nodes.py list, as sets of
-- names: the order in which a set is met is not the program's.
use text.Mathlib.Text.{◌==◌}
use catpn.Prelude.{◌≡◌, refl, ◌∙◌, ap, String, Bool, true, false, some, List, [], ◌∷◌, ◌++◌, ◌||◌}
use catpn.Dsl.{Node, literal, boolean, identifier, call, unary, binary, Args, no_args, arg}
use catpn.Dsl.Nodes.{identifier_name, call_name, identifiers, functions}
use catpn.Dsl.Nodes.Walk.{collected, collected_args, identifiers-collected}

-- x in names
abbrev pub is_listed : String → List String → Bool
is_listed x [] = false
is_listed x (y ∷ ys) = y == x || is_listed x ys

or_assoc : (a b c : Bool) → (a || (b || c)) ≡ ((a || b) || c)
or_assoc true b c = refl
or_assoc false b c = refl

or_false : (b : Bool) → (b || false) ≡ b
or_false true = refl
or_false false = refl

is_listed-append :
    (x : String) (xs ys : List String) → is_listed x (xs ++ ys) ≡ (is_listed x xs || is_listed x ys)
is_listed-append x [] ys = refl
is_listed-append x (y ∷ xs) ys =
    ap (λ b. y == x || b) (is_listed-append x xs ys)
    ∙ or_assoc (y == x) (is_listed x xs) (is_listed x ys)

module _ {F : Type 0} where
  -- Whether a name stands in a tree as an identifier.
  unfoldable mutual
    pub reads : String → Node F → Bool
    reads x (literal n) = false
    reads x (boolean b) = false
    reads x (identifier y) = y == x
    reads x (call name args) = some_reads x args
    reads x (unary op n) = reads x n
    reads x (binary op l r) = reads x l || reads x r

    pub some_reads : String → Args F → Bool
    some_reads x no_args = false
    some_reads x (arg n args) = reads x n || some_reads x args

  -- Whether a name stands in a tree as that of a call.
  unfoldable mutual
    pub calls : String → Node F → Bool
    calls x (literal n) = false
    calls x (boolean b) = false
    calls x (identifier y) = false
    calls x (call name args) = name == x || some_calls x args
    calls x (unary op n) = calls x n
    calls x (binary op l r) = calls x l || calls x r

    pub some_calls : String → Args F → Bool
    some_calls x no_args = false
    some_calls x (arg n args) = calls x n || some_calls x args

  mutual
    unfolding collected reads

    collected-reads :
        (x : String) (n : Node F) → is_listed x (collected identifier_name n) ≡ reads x n
    collected-reads x (literal n) = refl
    collected-reads x (boolean b) = refl
    collected-reads x (identifier y) = or_false (y == x)
    collected-reads x (call name args) = collected_args-reads x args
    collected-reads x (unary op n) = collected-reads x n
    collected-reads x (binary op l r) =
        is_listed-append x (collected identifier_name l) (collected identifier_name r)
        ∙ ap (λ b. b || is_listed x (collected identifier_name r)) (collected-reads x l)
        ∙ ap (λ b. reads x l || b) (collected-reads x r)

    collected_args-reads :
        (x : String) (args : Args F)
        → is_listed x (collected_args identifier_name args) ≡ some_reads x args
    collected_args-reads x no_args = refl
    collected_args-reads x (arg n args) =
        is_listed-append x (collected identifier_name n) (collected_args identifier_name args)
        ∙ ap (λ b. b || is_listed x (collected_args identifier_name args)) (collected-reads x n)
        ∙ ap (λ b. reads x n || b) (collected_args-reads x args)

  mutual
    unfolding collected calls

    collected-calls : (x : String) (n : Node F) → is_listed x (collected call_name n) ≡ calls x n
    collected-calls x (literal n) = refl
    collected-calls x (boolean b) = refl
    collected-calls x (identifier y) = refl
    collected-calls x (call name args) = ap (λ b. name == x || b) (collected_args-calls x args)
    collected-calls x (unary op n) = collected-calls x n
    collected-calls x (binary op l r) =
        is_listed-append x (collected call_name l) (collected call_name r)
        ∙ ap (λ b. b || is_listed x (collected call_name r)) (collected-calls x l)
        ∙ ap (λ b. calls x l || b) (collected-calls x r)

    collected_args-calls :
        (x : String) (args : Args F)
        → is_listed x (collected_args call_name args) ≡ some_calls x args
    collected_args-calls x no_args = refl
    collected_args-calls x (arg n args) =
        is_listed-append x (collected call_name n) (collected_args call_name args)
        ∙ ap (λ b. b || is_listed x (collected_args call_name args)) (collected-calls x n)
        ∙ ap (λ b. calls x n || b) (collected_args-calls x args)

  -- For every tree identifiers and functions come to a set each; a name is in the one exactly
  -- if it stands somewhere in the tree as an identifier, and in the other exactly if it stands
  -- somewhere in the tree as the name of a call.
  pub identifiers-reads :
      (n : Node F) (x : String)
      → ((names : List String) × (identifiers n ≡ some names) × (is_listed x names ≡ reads x n))
        × ((names : List String) × (functions n ≡ some names) × (is_listed x names ≡ calls x n))
  identifiers-reads n x = (
    (collected identifier_name n, (identifiers-collected n).0, collected-reads x n),
    (collected call_name n, (identifiers-collected n).1, collected-calls x n),
  )
