-- ===== src/Dsl/Nodes/Walk.antt =====
-- The loop of `walk` in nodes.py against the recursion that it avoids.
use mathlib.Core.List.{reverse, reverse-cons, reverse-reverse}
use catpn.Prelude.{
  ℕ, zero, suc, ◌+◌, ◌<◌, ◌≡◌, refl, sym, ap, ◌∙◌, String, Option, some, Option-cases, inl, inr,
  List, [], ◌∷◌, ◌++◌, length, length-append, append_assoc, append-nil, arith,
}
use catpn.Dsl.{
  Node, literal, boolean, identifier, call, unary, binary, Args, no_args, arg, size, size_args,
}
use catpn.Dsl.Nodes.{
  arg_list, extend, push_children, walk_loop, walk, add_name, collect, identifier_name, call_name,
  identifiers, functions, node_count,
}

module _ {F : Type 0} where
  -- A node, then its children from the left, by recursion.
  unfoldable mutual
    pub preorder : Node F → List (Node F)
    preorder (literal x) = literal x ∷ []
    preorder (boolean b) = boolean b ∷ []
    preorder (identifier x) = identifier x ∷ []
    preorder (call name args) = call name args ∷ preorder_args args
    preorder (unary op n) = unary op n ∷ preorder n
    preorder (binary op l r) = binary op l r ∷ (preorder l ++ preorder r)

    pub preorder_args : Args F → List (Node F)
    preorder_args no_args = []
    preorder_args (arg n args) = preorder n ++ preorder_args args

  preorder_all : List (Node F) → List (Node F)
  unfolding preorder
  preorder_all [] = []
  preorder_all (n ∷ ns) = preorder n ++ preorder_all ns

  total : List (Node F) → ℕ
  unfolding size
  total [] = 0
  total (n ∷ ns) = size n + total ns

  extend-append : (xs stack : List (Node F)) → extend stack xs ≡ reverse xs ++ stack
  unfolding extend
  extend-append [] stack = refl
  extend-append (x ∷ xs) stack =
      extend-append xs (x ∷ stack)
      ∙ sym (append_assoc (reverse xs) (x ∷ []) stack)
      ∙ ap (λ ns. ns ++ stack) (sym (reverse-cons x xs))

  extend-reverse : (xs stack : List (Node F)) → extend stack (reverse xs) ≡ xs ++ stack
  unfolding extend
  extend-reverse xs stack =
      extend-append (reverse xs) stack ∙ ap (λ ns. ns ++ stack) (reverse-reverse xs)

  preorder_all-append :
      (args : Args F) (stack : List (Node F))
      → preorder_all (arg_list args ++ stack) ≡ preorder_args args ++ preorder_all stack
  unfolding preorder_all preorder
  preorder_all-append no_args stack = refl
  preorder_all-append (arg n args) stack =
      ap (λ ns. preorder n ++ ns) (preorder_all-append args stack)
      ∙ sym (append_assoc (preorder n) (preorder_args args) (preorder_all stack))

  total-append :
      (args : Args F) (stack : List (Node F))
      → total (arg_list args ++ stack) ≡ size_args args + total stack
  unfolding total size
  total-append no_args stack = omega arith
  total-append (arg n args) stack = omega (arith, total-append args stack)

  push_children-preorder :
      (n : Node F) (stack : List (Node F))
      → n ∷ preorder_all (push_children n stack) ≡ preorder n ++ preorder_all stack
  unfolding push_children preorder_all preorder
  push_children-preorder (literal x) stack = refl
  push_children-preorder (boolean x) stack = refl
  push_children-preorder (identifier x) stack = refl
  push_children-preorder (call name args) stack =
      ap (λ ns. call name args ∷ preorder_all ns) (extend-reverse (arg_list args) stack)
      ∙ ap (λ ns. call name args ∷ ns) (preorder_all-append args stack)
  push_children-preorder (unary op n) stack = refl
  push_children-preorder (binary op l r) stack =
      ap (λ ns. binary op l r ∷ ns)
        (sym (append_assoc (preorder l) (preorder r) (preorder_all stack)))

  push_children-total :
      (n : Node F) (stack : List (Node F))
      → suc (total (push_children n stack)) ≡ size n + total stack
  unfolding push_children total size
  push_children-total (literal x) stack = omega arith
  push_children-total (boolean x) stack = omega arith
  push_children-total (identifier x) stack = omega arith
  push_children-total (call name args) stack =
      omega (arith, ap total (extend-reverse (arg_list args) stack), total-append args stack)
  push_children-total (unary op n) stack = omega arith
  push_children-total (binary op l r) stack = omega arith

  walk_loop-preorder :
      (f : ℕ) (stack found : List (Node F))
      → total stack < f
      → walk_loop f stack found ≡ some (found ++ preorder_all stack)
  unfolding walk_loop preorder_all total
  walk_loop-preorder zero stack found h = absurd (omega arith)
  walk_loop-preorder (suc f) [] found h = ap some (sym (append-nil found))
  walk_loop-preorder (suc f) (n ∷ stack) found h =
      walk_loop-preorder f (push_children n stack) (found ++ n ∷ [])
        (omega (arith, h, push_children-total n stack))
      ∙ ap some (
          append_assoc found (n ∷ []) (preorder_all (push_children n stack))
          ∙ ap (λ ns. found ++ ns) (push_children-preorder n stack))

  -- The loop of walk over its stack ends, and lists the nodes as the recursion does that puts
  -- a node in front of its children from left to right.
  pub walk-preorder : (n : Node F) → walk n ≡ some (preorder n)
  unfolding walk total preorder_all
  walk-preorder n =
      walk_loop-preorder (suc (size n)) (n ∷ []) [] (omega arith)
      ∙ ap some (append-nil (preorder n))

  mutual
    unfolding preorder size

    length-preorder : (n : Node F) → length (preorder n) ≡ size n
    length-preorder (literal x) = refl
    length-preorder (boolean x) = refl
    length-preorder (identifier x) = refl
    length-preorder (call name args) = ap suc (length-preorder_args args) ∙ omega arith
    length-preorder (unary op n) = omega (arith, length-preorder n)
    length-preorder (binary op l r) =
        omega (arith, length-append (preorder l) (preorder r), length-preorder l, length-preorder r)

    length-preorder_args : (args : Args F) → length (preorder_args args) ≡ size_args args
    length-preorder_args no_args = refl
    length-preorder_args (arg n args) = omega (
      arith,
      length-append (preorder n) (preorder_args args),
      length-preorder n,
      length-preorder_args args,
    )

  -- x
  pub node_count-size : (n : Node F) → node_count n ≡ some (size n)
  unfolding node_count
  node_count-size n = rw (walk-preorder n, node_count) (ap some (length-preorder n))

  -- The names that a node's own constructor gives, in the order of the tree.
  unfoldable mutual
    pub collected : (Node F → Option String) → Node F → List String
    collected pick (call name args) = add_name (pick (call name args)) (collected_args pick args)
    collected pick (unary op n) = add_name (pick (unary op n)) (collected pick n)
    collected pick (binary op l r) =
        add_name (pick (binary op l r)) (collected pick l ++ collected pick r)
    collected pick (literal x) = add_name (pick (literal x)) []
    collected pick (boolean b) = add_name (pick (boolean b)) []
    collected pick (identifier x) = add_name (pick (identifier x)) []

    pub collected_args : (Node F → Option String) → Args F → List String
    collected_args pick no_args = []
    collected_args pick (arg n args) = collected pick n ++ collected_args pick args

  collect-append :
      (pick : Node F → Option String) (ms ns : List (Node F))
      → collect pick (ms ++ ns) ≡ collect pick ms ++ collect pick ns
  collect-append pick [] ns = refl
  collect-append pick (m ∷ ms) ns = elim (Option-cases (pick m)) [
    | inl e ↦ rw e (collect-append pick ms ns)
    | inr (x, e) ↦ rw e (ap (λ ys. x ∷ ys) (collect-append pick ms ns))
  ]

  mutual
    unfolding preorder collected

    collect-preorder :
        (pick : Node F → Option String) (n : Node F) → collect pick (preorder n) ≡ collected pick n
    collect-preorder pick (literal x) = refl
    collect-preorder pick (boolean x) = refl
    collect-preorder pick (identifier x) = refl
    collect-preorder pick (call name args) =
        ap (add_name (pick (call name args))) (collect-preorder_args pick args)
    collect-preorder pick (unary op n) = ap (add_name (pick (unary op n))) (collect-preorder pick n)
    collect-preorder pick (binary op l r) = ap (add_name (pick (binary op l r))) (
        collect-append pick (preorder l) (preorder r)
        ∙ ap (λ ns. ns ++ collect pick (preorder r)) (collect-preorder pick l)
        ∙ ap (λ ns. collected pick l ++ ns) (collect-preorder pick r))

    collect-preorder_args :
        (pick : Node F → Option String) (args : Args F)
        → collect pick (preorder_args args) ≡ collected_args pick args
    collect-preorder_args pick no_args = refl
    collect-preorder_args pick (arg n args) =
        collect-append pick (preorder n) (preorder_args args)
        ∙ ap (λ ns. ns ++ collect pick (preorder_args args)) (collect-preorder pick n)
        ∙ ap (λ ns. collected pick n ++ ns) (collect-preorder_args pick args)

  -- What identifiers and functions list of a tree are the names of its identifiers and of its
  -- calls, in the order of the source text.
  pub identifiers-collected :
      (n : Node F)
      → (identifiers n ≡ some (collected identifier_name n))
        × (functions n ≡ some (collected call_name n))
  unfolding identifiers functions
  identifiers-collected n = (
    rw (walk-preorder n, identifiers) (ap some (collect-preorder identifier_name n)),
    rw (walk-preorder n, functions) (ap some (collect-preorder call_name n)),
  )
