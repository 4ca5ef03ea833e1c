-- ===== src/Dsl/Nodes.antt =====
-- packages/engine/quanta_engine/dsl/nodes.py: `walk` and what is read off it. The end of the
-- program's stack is the head of the list here.
pub mod Names
pub mod Walk
use catpn.Prelude.{ℕ, zero, suc, ◌+◌, String, Option, none, some, List, [], ◌∷◌, ◌++◌, length}
use mathlib.Core.List.{reverse}
use catpn.Dsl.{Node, literal, boolean, identifier, call, unary, binary, Args, no_args, arg, size}

abbrev pub add_name : Option String → List String → List String
add_name none xs = xs
add_name (some x) xs = x ∷ xs

module _ {F : Type 0} where
  abbrev pub arg_list : Args F → List (Node F)
  arg_list no_args = []
  arg_list (arg n args) = n ∷ arg_list args

  -- `stack.extend`
  unfoldable pub extend : List (Node F) → List (Node F) → List (Node F)
  extend stack [] = stack
  extend stack (n ∷ ns) = extend (n ∷ stack) ns

  -- What the loop leaves on the stack behind a node.
  unfoldable pub push_children : Node F → List (Node F) → List (Node F)
  unfolding extend
  push_children (call name args) stack = extend stack (reverse (arg_list args))
  push_children (unary op n) stack = n ∷ stack
  push_children (binary op l r) stack = l ∷ r ∷ stack
  push_children _ stack = stack

  -- The loop of `walk`; none if the fuel is out.
  unfoldable pub walk_loop : ℕ → List (Node F) → List (Node F) → Option (List (Node F))
  unfolding push_children
  walk_loop zero stack found = none
  walk_loop (suc f) [] found = some found
  walk_loop (suc f) (n ∷ stack) found = walk_loop f (push_children n stack) (found ++ n ∷ [])

  -- `walk`, with fuel for every node.
  unfoldable pub walk : Node F → Option (List (Node F))
  unfolding walk_loop size
  walk node = walk_loop (suc (size node)) (node ∷ []) []

  abbrev pub identifier_name : Node F → Option String
  identifier_name (identifier x) = some x
  identifier_name _ = none

  abbrev pub call_name : Node F → Option String
  call_name (call name args) = some name
  call_name _ = none

  -- The comprehension of `identifiers` and `functions`.
  abbrev pub collect : (Node F → Option String) → List (Node F) → List String
  collect pick [] = []
  collect pick (n ∷ ns) = add_name (pick n) (collect pick ns)

  -- `identifiers`; the set is the members of the list.
  unfoldable pub identifiers : Node F → Option (List String)
  unfolding walk
  identifiers node = elim (walk node) [ none ↦ none | some ns ↦ some (collect identifier_name ns) ]

  -- `functions`
  unfoldable pub functions : Node F → Option (List String)
  unfolding walk
  functions node = elim (walk node) [ none ↦ none | some ns ↦ some (collect call_name ns) ]

  unfoldable pub node_count : Node F → Option ℕ
  unfolding walk
  node_count node = elim (walk node) [ none ↦ none | some ns ↦ some (length ns) ]
