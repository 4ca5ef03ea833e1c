-- ===== src/Dsl/Parser/Reads.antt =====
-- What a method of packages/engine/quanta_engine/dsl/parser.py has read when it returns, and how the
-- readings of its parts make up its own.
use catpn.Prelude.{
  ◌+◌, ◌≤◌, ◌<◌, ◌≡◌, refl, sym, ap, ◌∙◌, String, Option, List, [], ◌∷◌, ◌++◌, arith, length,
  append_assoc,
}
use catpn.Dsl.{
  Token, ident, lparen, rparen, comma, BinaryOp, UnaryOp, Node, binary, unary, call, size, Args,
  no_args, arg, size_args,
}
use catpn.Dsl.Parser.{State, current, max_nodes, is_lparen, is_rparen}
use catpn.Dsl.Parser.Derivation.{
  Level, or_level, primary_level, Derives, a_group, a_call, DerivesArgs, DerivesMore,
}
use catpn.Dsl.Parser.Ensures.{Counted, Counted-shorter, Passed}

module _ {F : Type 0} (float_of : String → Option F) where
  -- A tree was read at a level, and counted.
  pub record Reads (level : Level) (s : State) (n : Node F) (s' : State) : Type 0 where
    pub consumed : List Token
    pub split : s.tokens ≡ consumed ++ s'.tokens
    pub derived : Derives float_of level n consumed
    pub shorter : length s'.tokens < length s.tokens
    pub counted : s.nodes + size n ≤ s'.nodes
    pub within : s'.nodes ≤ max_nodes

  pub Reads-imp :
      (from to : Level) (s s' : State) (n : Node F)
      → ((xs : List Token) → Derives float_of from n xs → Derives float_of to n xs)
      → Reads from s n s'
      → Reads to s n s'
  Reads-imp from to s s' n f r = record {
    consumed = r.consumed;
    split = r.split;
    derived = f r.consumed r.derived;
    shorter = r.shorter;
    counted = r.counted;
    within = r.within;
  }

  -- An operator between two trees.
  pub Reads-binary :
      (left right whole : Level) (op : BinaryOp) (s s₁ s₂ s₃ : State) (l r : Node F)
      → ((xs ys : List Token)
          → Derives float_of left l xs
          → Derives float_of right r ys
          → Derives float_of whole (binary op l r) (xs ++ current s₁ ∷ ys))
      → Reads left s l s₁
      → Counted s₁ s₂
      → Reads right s₂ r s₃
      → Reads whole s (binary op l r) s₃
  unfolding size
  Reads-binary left right whole op s s₁ s₂ s₃ l r make a c b = record {
    consumed = a.consumed ++ current s₁ ∷ b.consumed;
    split =
        a.split
        ∙ ap (λ ts. a.consumed ++ ts) (c.passed ∙ ap (λ ts. current s₁ ∷ ts) b.split)
        ∙ sym (append_assoc a.consumed (current s₁ ∷ b.consumed) s₃.tokens);
    derived = make a.consumed b.consumed a.derived b.derived;
    shorter = omega (arith, a.shorter, b.shorter, ap length c.passed);
    counted = omega (arith, a.counted, b.counted, c.grown);
    within = b.within;
  }

  -- An operator before a tree.
  pub Reads-unary :
      (level : Level) (op : UnaryOp) (s s₁ s₂ : State) (n : Node F)
      → ((xs : List Token)
          → Derives float_of level n xs
          → Derives float_of level (unary op n) (current s ∷ xs))
      → Counted s s₁
      → Reads level s₁ n s₂
      → Reads level s (unary op n) s₂
  unfolding size
  Reads-unary level op s s₁ s₂ n make c r = record {
    consumed = current s ∷ r.consumed;
    split = c.passed ∙ ap (λ ts. current s ∷ ts) r.split;
    derived = make r.consumed r.derived;
    shorter = omega (arith, r.shorter, Counted-shorter s s₁ c);
    counted = omega (arith, r.counted, c.grown);
    within = r.within;
  }

  -- A tree of one token.
  pub Reads-leaf :
      (s s₁ : State) (n : Node F)
      → size n ≡ 1
      → Derives float_of primary_level n (current s ∷ [])
      → Counted s s₁
      → Reads primary_level s n s₁
  Reads-leaf s s₁ n one made c = record {
    consumed = current s ∷ [];
    split = c.passed;
    derived = made;
    shorter = omega (arith, Counted-shorter s s₁ c);
    counted = omega (arith, one, c.grown);
    within = c.limited;
  }

  -- A tree in parentheses.
  pub Reads-group :
      (s s₁ s₂ s₃ : State) (n : Node F) (u : Unit {0})
      → (current s).kind ≡ lparen
      → (current s₂).kind ≡ rparen
      → Counted s s₁
      → Reads or_level s₁ n s₂
      → Passed is_rparen s₂ u s₃
      → Reads primary_level s n s₃
  Reads-group s s₁ s₂ s₃ n u opening closing c r p = record {
    consumed = current s ∷ (r.consumed ++ current s₂ ∷ []);
    split =
        c.passed
        ∙ ap (λ ts. current s ∷ ts)
            (r.split
              ∙ ap (λ ts. r.consumed ++ ts) p.gone
              ∙ sym (append_assoc r.consumed (current s₂ ∷ []) s₃.tokens));
    derived = a_group n r.consumed (current s) (current s₂) opening closing r.derived;
    shorter = omega (arith, r.shorter, Counted-shorter s s₁ c, ap length p.gone);
    counted = omega (arith, r.counted, c.grown, p.same_nodes);
    within = omega (arith, r.within, p.same_nodes);
  }

  -- Arguments, in one of the two relations on them.
  pub record ReadsArgs (R : Args F → List Token → Type 0) (s : State) (args : Args F) (s' : State)
      : Type 0 where
    pub consumed : List Token
    pub split : s.tokens ≡ consumed ++ s'.tokens
    pub derived : R args consumed
    pub no_longer : length s'.tokens ≤ length s.tokens
    pub counted : s.nodes + size_args args ≤ s'.nodes
    pub within : s'.nodes ≤ max_nodes

  pub ReadsArgs-none :
      (R : Args F → List Token → Type 0) (s : State)
      → R no_args []
      → s.nodes ≤ max_nodes
      → ReadsArgs R s no_args s
  unfolding size_args
  ReadsArgs-none R s made h = record {
    consumed = [];
    split = refl;
    derived = made;
    no_longer = omega arith;
    counted = omega arith;
    within = h;
  }

  pub ReadsArgs-arg :
      (R : Args F → List Token → Type 0) (s s₁ s₂ : State) (n : Node F) (args : Args F)
      → ((xs ys : List Token)
          → Derives float_of or_level n xs
          → DerivesMore float_of args ys
          → R (arg n args) (xs ++ ys))
      → Reads or_level s n s₁
      → ReadsArgs (DerivesMore float_of) s₁ args s₂
      → ReadsArgs R s (arg n args) s₂
  unfolding size_args
  ReadsArgs-arg R s s₁ s₂ n args make r rs = record {
    consumed = r.consumed ++ rs.consumed;
    split =
        r.split
        ∙ ap (λ ts. r.consumed ++ ts) rs.split
        ∙ sym (append_assoc r.consumed rs.consumed s₂.tokens);
    derived = make r.consumed rs.consumed r.derived rs.derived;
    no_longer = omega (arith, r.shorter, rs.no_longer);
    counted = omega (arith, r.counted, rs.counted);
    within = rs.within;
  }

  pub ReadsArgs-comma :
      (s s₀ s₂ : State) (n : Node F) (args : Args F)
      → (current s).kind ≡ comma
      → s.tokens ≡ current s ∷ s₀.tokens
      → s₀.nodes ≡ s.nodes
      → ReadsArgs (λ more xs. DerivesMore float_of more (current s ∷ xs)) s₀ args s₂
      → ReadsArgs (DerivesMore float_of) s args s₂
  ReadsArgs-comma s s₀ s₂ n args is gone same r = record {
    consumed = current s ∷ r.consumed;
    split = gone ∙ ap (λ ts. current s ∷ ts) r.split;
    derived = r.derived;
    no_longer = omega (arith, r.no_longer, ap length gone);
    counted = omega (arith, r.counted, same);
    within = r.within;
  }

  -- A call, from its name on.
  pub Reads-call :
      (s s₁ s₂ s₃ s₄ : State) (args : Args F) (u w : Unit {0})
      → (current s).kind ≡ ident
      → (current s₁).kind ≡ lparen
      → (current s₃).kind ≡ rparen
      → Counted s s₁
      → Passed is_lparen s₁ u s₂
      → ReadsArgs (DerivesArgs float_of) s₂ args s₃
      → Passed is_rparen s₃ w s₄
      → Reads primary_level s (call (current s).value args) s₄
  unfolding size
  Reads-call s s₁ s₂ s₃ s₄ args u w name opening closing c p r q = record {
    consumed = current s ∷ current s₁ ∷ (r.consumed ++ current s₃ ∷ []);
    split =
        c.passed
        ∙ ap (λ ts. current s ∷ ts)
            (p.gone
              ∙ ap (λ ts. current s₁ ∷ ts)
                  (r.split
                    ∙ ap (λ ts. r.consumed ++ ts) q.gone
                    ∙ sym (append_assoc r.consumed (current s₃ ∷ []) s₄.tokens)));
    derived =
        a_call args r.consumed (current s) (current s₁) (current s₃) name opening closing r.derived;
    shorter =
        omega (arith, r.no_longer, Counted-shorter s s₁ c, ap length p.gone, ap length q.gone);
    counted = omega (arith, r.counted, c.grown, p.same_nodes, q.same_nodes);
    within = omega (arith, r.within, q.same_nodes);
  }
