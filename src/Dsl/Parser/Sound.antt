-- ===== src/Dsl/Parser/Sound.antt =====
-- The parser of packages/engine/quanta_engine/dsl/parser.py against its grammar.
use text.Mathlib.Text.{◌==◌}
use catpn.Prelude.{
  ℕ, zero, suc, ◌+◌, ◌*◌, ◌≤◌, ◌<◌, ◌≡◌, refl, ap, String, true, false, Option, none, some, ◌∷◌,
  arith, ltb, length, Bool-cases, Option-cases, inl, inr,
}
use catpn.Dsl.{
  too_deep, close_expected, open_expected, Token, TokenType, number, ident, keyword, operator,
  lparen, rparen, comma, eof, Node, both, either, negate, invert, literal, boolean, identifier,
  call, unary, binary, size, no_args, arg,
}
use catpn.Dsl.Parser.{
  Nesting, State, Parser, bind, current, after_first, advance, max_nodes, max_depth, is_word,
  is_minus, is_lparen, is_rparen, is_comma, comparison_op, additive_op, multiplicative_op, no_chain,
  check_count, max_call_args,
}
use catpn.Dsl.Parser.Derivation.{
  or_level, and_level, not_level, comparison_level, additive_level, multiplicative_level,
  unary_level, primary_level, or_one, or_more, and_one, and_more, not_one, not_more, comparison_one,
  comparison_two, additive_one, additive_more, multiplicative_one, multiplicative_more, unary_one,
  unary_more, a_number, a_truth, a_falsity, a_name, DerivesArgs, nothing, first, DerivesMore,
  no_more, next,
}
use catpn.Dsl.Parser.Ensures.{
  Ensures, holds, rejected, Ensures-bind, Ensures-called, Ensures-if, Ensures-imp, at_token,
  Counted, Tallied, count_node-Ensures, passing, entering, Counted-shorter, expect-Ensures,
}
use catpn.Dsl.Parser.Reads.{
  Reads, Reads-imp, Reads-binary, Reads-unary, Reads-leaf, Reads-group, Reads-call, ReadsArgs,
  ReadsArgs-none, ReadsArgs-arg, ReadsArgs-comma,
}
use catpn.Dsl.Parser.Grammar.{
  deeper, number_node, or_expr, or_loop, and_expr, and_loop, not_expr, comparison, comparison_tail,
  additive, additive_loop, multiplicative, multiplicative_loop, unary_expr, primary, primary_inner,
  name_or_call, call_args, more_args,
}
use catpn.Dsl.Parser.Tokens.{
  word-ne-eof, minus-ne-eof, comparison_op-ne-eof, additive_op-ne-eof, multiplicative_op-ne-eof,
  rparen-is, lparen-is, comma-ne-eof, word-is, comma-is,
}

module _ {F : Type 0} (float_of : String → Option F) where
  no_chain-Ensures :
      (P : Node F → State → Type 0) (n : Node F) (s : State) → P n s → Ensures P (no_chain n s)
  unfolding no_chain
  no_chain-Ensures P n s h = elim (Option-cases (comparison_op (current s))) [
    | inl e ↦ rw (e, no_chain) (holds n s h)
    | inr (op, e) ↦ rw (e, no_chain) (rejected _)
  ]

  number_node-Ensures :
      (P : Node F → State → Type 0) (t : Token) (s : State)
      → ((x : F) → float_of t.value ≡ some x → P (literal x) s)
      → Ensures P (number_node float_of t s)
  unfolding number_node
  number_node-Ensures P t s k = elim (Option-cases (float_of t.value)) [
    | inl e ↦ rw (e, number_node) (rejected _)
    | inr (x, e) ↦ rw (e, number_node) (holds (literal x) s (k x e))
  ]

  check_count-Ensures :
      {A : Type 0} (P : A → State → Type 0) (count : ℕ) (name : Token) (s : State)
      (k : Unit {0} → Parser A)
      → Ensures P (k tt s)
      → Ensures P (bind (check_count count name s) k)
  unfolding check_count
  check_count-Ensures P count name s k h = elim (Bool-cases (ltb max_call_args count)) [
    | inl e ↦ rw (e, check_count) (rejected _)
    | inr e ↦ rw (e, check_count) h
  ]

  mutual
    unfolding or_expr advance size

    pub or_expr-Ensures :
        (f : ℕ) (level : Nesting) (s : State)
        → 20 * length s.tokens + 9 < f
        → Ensures (Reads float_of or_level s) (or_expr float_of f level s)
    or_expr-Ensures zero level s h = absurd (omega arith)
    or_expr-Ensures (suc f) level s h = Ensures-called level λ inner.
        Ensures-bind (and_expr-Ensures f inner s (omega arith)) λ n s₁ r.
          or_loop-Ensures f inner s s₁ n (Reads-imp float_of and_level or_level s s₁ n (or_one n) r)
            (omega (arith, r.shorter))

    or_loop-Ensures :
        (f : ℕ) (level : Nesting) (s₀ s : State) (left : Node F)
        → Reads float_of or_level s₀ left s
        → 20 * length s.tokens + 1 < f
        → Ensures (Reads float_of or_level s₀) (or_loop float_of f level left s)
    or_loop-Ensures zero level s₀ s left r h = absurd (omega arith)
    or_loop-Ensures (suc f) level s₀ s left r h =
        Ensures-if (is_word "or" (current s))
          (λ w.
            Ensures-bind (count_node-Ensures (record s { tokens = after_first s.tokens })) λ u s₁ t.
              let c = passing s s₁ u (word-ne-eof "or" (current s) w) t in
              Ensures-bind (and_expr-Ensures f level s₁ (omega (arith, Counted-shorter s s₁ c)))
                λ right s₂ q.
                  or_loop-Ensures f level s₀ s₂ (binary either left right)
                    (Reads-binary float_of or_level and_level or_level either s₀ s s₁ s₂ left right
                      (λ xs ys. or_more left right xs ys (current s) w) r c q)
                    (omega (arith, Counted-shorter s s₁ c, q.shorter)))
          (λ w. holds left s r)

    and_expr-Ensures :
        (f : ℕ) (level : Nesting) (s : State)
        → 20 * length s.tokens + 8 < f
        → Ensures (Reads float_of and_level s) (and_expr float_of f level s)
    and_expr-Ensures zero level s h = absurd (omega arith)
    and_expr-Ensures (suc f) level s h = Ensures-called level λ inner.
        Ensures-bind (not_expr-Ensures f inner s (omega arith)) λ n s₁ r.
          and_loop-Ensures f inner s s₁ n
            (Reads-imp float_of not_level and_level s s₁ n (and_one n) r) (omega (arith, r.shorter))

    and_loop-Ensures :
        (f : ℕ) (level : Nesting) (s₀ s : State) (left : Node F)
        → Reads float_of and_level s₀ left s
        → 20 * length s.tokens + 1 < f
        → Ensures (Reads float_of and_level s₀) (and_loop float_of f level left s)
    and_loop-Ensures zero level s₀ s left r h = absurd (omega arith)
    and_loop-Ensures (suc f) level s₀ s left r h =
        Ensures-if (is_word "and" (current s))
          (λ w.
            Ensures-bind (count_node-Ensures (record s { tokens = after_first s.tokens })) λ u s₁ t.
              let c = passing s s₁ u (word-ne-eof "and" (current s) w) t in
              Ensures-bind (not_expr-Ensures f level s₁ (omega (arith, Counted-shorter s s₁ c)))
                λ right s₂ q.
                  and_loop-Ensures f level s₀ s₂ (binary both left right)
                    (Reads-binary float_of and_level not_level and_level both s₀ s s₁ s₂ left right
                      (λ xs ys. and_more left right xs ys (current s) w) r c q)
                    (omega (arith, Counted-shorter s s₁ c, q.shorter)))
          (λ w. holds left s r)

    not_expr-Ensures :
        (f : ℕ) (level : Nesting) (s : State)
        → 20 * length s.tokens + 7 < f
        → Ensures (Reads float_of not_level s) (not_expr float_of f level s)
    not_expr-Ensures zero level s h = absurd (omega arith)
    not_expr-Ensures (suc f) level s h = Ensures-called level λ inner.
        Ensures-if (is_word "not" (current s))
          (λ w.
            Ensures-bind (count_node-Ensures (record s { tokens = after_first s.tokens })) λ u s₁ t.
              let c = passing s s₁ u (word-ne-eof "not" (current s) w) t in
              Ensures-bind (not_expr-Ensures f inner s₁ (omega (arith, Counted-shorter s s₁ c)))
                λ n s₂ q. holds (unary invert n) s₂ (
                  Reads-unary float_of not_level invert s s₁ s₂ n
                    (λ xs. not_more n xs (current s) w) c q))
          (λ w.
            Ensures-imp (comparison-Ensures f inner s (omega arith))
              λ n s₁ r. Reads-imp float_of comparison_level not_level s s₁ n (not_one n) r)

    comparison-Ensures :
        (f : ℕ) (level : Nesting) (s : State)
        → 20 * length s.tokens + 6 < f
        → Ensures (Reads float_of comparison_level s) (comparison float_of f level s)
    comparison-Ensures zero level s h = absurd (omega arith)
    comparison-Ensures (suc f) level s h = Ensures-called level λ inner.
        Ensures-bind (additive-Ensures f inner s (omega arith)) λ n s₁ r.
          comparison_tail-Ensures f inner s s₁ n
            (Reads-imp float_of additive_level comparison_level s s₁ n (comparison_one n) r) r
            (omega (arith, r.shorter))

    comparison_tail-Ensures :
        (f : ℕ) (level : Nesting) (s₀ s : State) (left : Node F)
        → Reads float_of comparison_level s₀ left s
        → Reads float_of additive_level s₀ left s
        → 20 * length s.tokens + 1 < f
        → Ensures (Reads float_of comparison_level s₀) (comparison_tail float_of f level left s)
    comparison_tail-Ensures zero level s₀ s left r r' h = absurd (omega arith)
    comparison_tail-Ensures (suc f) level s₀ s left r r' h =
        elim (Option-cases (comparison_op (current s))) [
          | inl e ↦ rw (e, comparison_tail) (holds left s r)
          | inr (op, e) ↦
              rw (e, comparison_tail)
                (Ensures-bind (count_node-Ensures (record s { tokens = after_first s.tokens }))
                  λ u s₁ t.
                    let c = passing s s₁ u (comparison_op-ne-eof (current s) op e) t in
                    Ensures-bind
                      (additive-Ensures f level s₁ (omega (arith, Counted-shorter s s₁ c)))
                      λ right s₂ q.
                        no_chain-Ensures (Reads float_of comparison_level s₀) (binary op left right)
                          s₂
                          (Reads-binary float_of additive_level additive_level comparison_level op
                            s₀ s s₁ s₂ left right
                            (λ xs ys. comparison_two op left right xs ys (current s) e) r' c q))
        ]

    additive-Ensures :
        (f : ℕ) (level : Nesting) (s : State)
        → 20 * length s.tokens + 5 < f
        → Ensures (Reads float_of additive_level s) (additive float_of f level s)
    additive-Ensures zero level s h = absurd (omega arith)
    additive-Ensures (suc f) level s h = Ensures-called level λ inner.
        Ensures-bind (multiplicative-Ensures f inner s (omega arith)) λ n s₁ r.
          additive_loop-Ensures f inner s s₁ n
            (Reads-imp float_of multiplicative_level additive_level s s₁ n (additive_one n) r)
            (omega (arith, r.shorter))

    additive_loop-Ensures :
        (f : ℕ) (level : Nesting) (s₀ s : State) (left : Node F)
        → Reads float_of additive_level s₀ left s
        → 20 * length s.tokens + 1 < f
        → Ensures (Reads float_of additive_level s₀) (additive_loop float_of f level left s)
    additive_loop-Ensures zero level s₀ s left r h = absurd (omega arith)
    additive_loop-Ensures (suc f) level s₀ s left r h =
        elim (Option-cases (additive_op (current s))) [
          | inl e ↦ rw (e, additive_loop) (holds left s r)
          | inr (op, e) ↦
              rw (e, additive_loop)
                (Ensures-bind (count_node-Ensures (record s { tokens = after_first s.tokens }))
                  λ u s₁ t.
                    let c = passing s s₁ u (additive_op-ne-eof (current s) op e) t in
                    Ensures-bind
                      (multiplicative-Ensures f level s₁ (omega (arith, Counted-shorter s s₁ c)))
                      λ right s₂ q.
                        additive_loop-Ensures f level s₀ s₂ (binary op left right)
                          (Reads-binary float_of additive_level multiplicative_level additive_level
                            op s₀ s s₁ s₂ left right
                            (λ xs ys. additive_more op left right xs ys (current s) e) r c q)
                          (omega (arith, Counted-shorter s s₁ c, q.shorter)))
        ]

    multiplicative-Ensures :
        (f : ℕ) (level : Nesting) (s : State)
        → 20 * length s.tokens + 4 < f
        → Ensures (Reads float_of multiplicative_level s) (multiplicative float_of f level s)
    multiplicative-Ensures zero level s h = absurd (omega arith)
    multiplicative-Ensures (suc f) level s h = Ensures-called level λ inner.
        Ensures-bind (unary_expr-Ensures f inner s (omega arith)) λ n s₁ r.
          multiplicative_loop-Ensures f inner s s₁ n
            (Reads-imp float_of unary_level multiplicative_level s s₁ n (multiplicative_one n) r)
            (omega (arith, r.shorter))

    multiplicative_loop-Ensures :
        (f : ℕ) (level : Nesting) (s₀ s : State) (left : Node F)
        → Reads float_of multiplicative_level s₀ left s
        → 20 * length s.tokens + 1 < f
        → Ensures
            (Reads float_of multiplicative_level s₀)
            (multiplicative_loop float_of f level left s)
    multiplicative_loop-Ensures zero level s₀ s left r h = absurd (omega arith)
    multiplicative_loop-Ensures (suc f) level s₀ s left r h =
        elim (Option-cases (multiplicative_op (current s))) [
          | inl e ↦ rw (e, multiplicative_loop) (holds left s r)
          | inr (op, e) ↦
              rw (e, multiplicative_loop)
                (Ensures-bind (count_node-Ensures (record s { tokens = after_first s.tokens }))
                  λ u s₁ t.
                    let c = passing s s₁ u (multiplicative_op-ne-eof (current s) op e) t in
                    Ensures-bind
                      (unary_expr-Ensures f level s₁ (omega (arith, Counted-shorter s s₁ c)))
                      λ right s₂ q.
                        multiplicative_loop-Ensures f level s₀ s₂ (binary op left right)
                          (Reads-binary float_of multiplicative_level unary_level
                            multiplicative_level op s₀ s s₁ s₂ left right
                            (λ xs ys. multiplicative_more op left right xs ys (current s) e) r c q)
                          (omega (arith, Counted-shorter s s₁ c, q.shorter)))
        ]

    unary_expr-Ensures :
        (f : ℕ) (level : Nesting) (s : State)
        → 20 * length s.tokens + 3 < f
        → Ensures (Reads float_of unary_level s) (unary_expr float_of f level s)
    unary_expr-Ensures zero level s h = absurd (omega arith)
    unary_expr-Ensures (suc f) level s h = Ensures-called level λ inner.
        Ensures-if (is_minus (current s))
          (λ w.
            Ensures-bind (count_node-Ensures (record s { tokens = after_first s.tokens })) λ u s₁ t.
              let c = passing s s₁ u (minus-ne-eof (current s) w) t in
              Ensures-bind (unary_expr-Ensures f inner s₁ (omega (arith, Counted-shorter s s₁ c)))
                λ n s₂ q. holds (unary negate n) s₂ (
                  Reads-unary float_of unary_level negate s s₁ s₂ n
                    (λ xs. unary_more n xs (current s) w) c q))
          (λ w.
            Ensures-imp (primary-Ensures f inner s (omega arith))
              λ n s₁ r. Reads-imp float_of primary_level unary_level s s₁ n (unary_one n) r)

    primary-Ensures :
        (f : ℕ) (level : Nesting) (s : State)
        → 20 * length s.tokens + 2 < f
        → Ensures (Reads float_of primary_level s) (primary float_of f level s)
    primary-Ensures zero level s h = absurd (omega arith)
    primary-Ensures (suc f) level s h = Ensures-called level λ inner.
        Ensures-if (ltb max_depth (suc inner.depth))
          (λ w. rejected (record { complaint = too_deep; position = none }))
          λ w. Ensures-called inner λ within. Ensures-bind (count_node-Ensures s) λ u s₁ t.
            primary_inner-Ensures f (deeper float_of within) (current s).kind s s₁ u refl t
              (omega (arith, ap length t.0))

    primary_inner-Ensures :
        (f : ℕ) (level : Nesting) (kind : TokenType) (s₀ s : State) (u : Unit {0})
        → (current s₀).kind ≡ kind
        → Tallied s₀ u s
        → 20 * length s.tokens + 1 < f
        → Ensures
            (Reads float_of primary_level s₀)
            (primary_inner float_of f level kind (current s₀) s)
    primary_inner-Ensures zero level kind s₀ s u k t h = absurd (omega arith)
    primary_inner-Ensures (suc f) level number s₀ s u k t h =
        let c = entering s₀ s u (rw k refl) t in
        number_node-Ensures (Reads float_of primary_level s₀) (current s₀)
          (record s { tokens = after_first s.tokens })
          λ x e.
            Reads-leaf float_of s₀ (record s { tokens = after_first s.tokens }) (literal x) refl
              (a_number x (current s₀) k e) c
    primary_inner-Ensures (suc f) level keyword s₀ s u k t h =
        let s₁ = record s { tokens = after_first s.tokens } in
        let c = entering s₀ s u (rw k refl) t in
        Ensures-if ((current s₀).value == "true")
          (λ w. holds (boolean true) s₁ (
            Reads-leaf float_of s₀ s₁ (boolean true) refl
              (a_truth (current s₀) (word-is "true" (current s₀) k w)) c))
          (λ _.
            Ensures-if ((current s₀).value == "false")
              (λ w. holds (boolean false) s₁ (
                Reads-leaf float_of s₀ s₁ (boolean false) refl
                  (a_falsity (current s₀) (word-is "false" (current s₀) k w)) c))
              (λ _. rejected _))
    primary_inner-Ensures (suc f) level ident s₀ s u k t h =
        let c = entering s₀ s u (rw k refl) t in
        name_or_call-Ensures f level s₀ (record s { tokens = after_first s.tokens }) k c
          (omega (
            arith,
            Counted-shorter s₀ (record s { tokens = after_first s.tokens }) c,
            ap length t.0,
          ))
    primary_inner-Ensures (suc f) level lparen s₀ s u k t h =
        let s₁ = record s { tokens = after_first s.tokens } in
        let c = entering s₀ s u (rw k refl) t in
        Ensures-bind
          (or_expr-Ensures f level s₁ (omega (arith, Counted-shorter s₀ s₁ c, ap length t.0)))
          λ n s₂ r. Ensures-bind (expect-Ensures is_rparen close_expected s₂ refl) λ w s₃ p.
            holds n s₃
              (Reads-group float_of s₀ s₁ s₂ s₃ n w k (rparen-is (current s₂).kind p.fits) c r p)
    primary_inner-Ensures (suc f) level eof s₀ s u k t h = rejected _
    primary_inner-Ensures (suc f) level rparen s₀ s u k t h = rejected _
    primary_inner-Ensures (suc f) level comma s₀ s u k t h = rejected _
    primary_inner-Ensures (suc f) level operator s₀ s u k t h = rejected _

    name_or_call-Ensures :
        (f : ℕ) (level : Nesting) (s₀ s : State)
        → (current s₀).kind ≡ ident
        → Counted s₀ s
        → 20 * length s.tokens + 1 < f
        → Ensures (Reads float_of primary_level s₀) (name_or_call float_of f level (current s₀) s)
    name_or_call-Ensures zero level s₀ s k c h = absurd (omega arith)
    name_or_call-Ensures (suc f) level s₀ s k c h =
        Ensures-if (is_lparen (current s).kind)
          (λ w. Ensures-called level λ inner.
            Ensures-bind (expect-Ensures is_lparen open_expected s refl) λ u s₁ p.
              Ensures-bind
                (call_args-Ensures f inner (current s₀) s₁ (omega (arith, c.limited, p.same_nodes))
                  (omega (arith, ap length p.gone)))
                λ args s₂ r.
                  Ensures-bind (expect-Ensures is_rparen close_expected s₂ refl) λ v s₃ q.
                    holds (call (current s₀).value args) s₃ (
                      Reads-call float_of s₀ s s₁ s₂ s₃ args u v k
                        (lparen-is (current s).kind p.fits) (rparen-is (current s₂).kind q.fits) c p
                        r q))
          (λ w. holds (identifier (current s₀).value) s (
            Reads-leaf float_of s₀ s (identifier (current s₀).value) refl (a_name (current s₀) k)
              c))

    call_args-Ensures :
        (f : ℕ) (level : Nesting) (name : Token) (s : State)
        → s.nodes ≤ max_nodes
        → 20 * length s.tokens + 10 < f
        → Ensures (ReadsArgs float_of (DerivesArgs float_of) s) (call_args float_of f level name s)
    call_args-Ensures zero level name s m h = absurd (omega arith)
    call_args-Ensures (suc f) level name s m h =
        Ensures-if (is_rparen (current s).kind)
          (λ w. holds no_args s (ReadsArgs-none float_of (DerivesArgs float_of) s nothing m))
          (λ w. Ensures-bind (or_expr-Ensures f level s (omega arith)) λ n s₁ r.
            Ensures-bind (more_args-Ensures f level name 1 s₁ r.within (omega (arith, r.shorter)))
              λ args s₂ rs.
                holds (arg n args) s₂ (
                  ReadsArgs-arg float_of (DerivesArgs float_of) s s₁ s₂ n args (first n args) r rs))

    more_args-Ensures :
        (f : ℕ) (level : Nesting) (name : Token) (count : ℕ) (s : State)
        → s.nodes ≤ max_nodes
        → 20 * length s.tokens + 1 < f
        → Ensures
            (ReadsArgs float_of (DerivesMore float_of) s)
            (more_args float_of f level name count s)
    more_args-Ensures zero level name count s m h = absurd (omega arith)
    more_args-Ensures (suc f) level name count s m h =
        Ensures-if (is_comma (current s).kind)
          (λ w.
            let s₁ = record s { tokens = after_first s.tokens } in
            let gone = at_token s (comma-ne-eof (current s).kind w) in
            Ensures-bind (or_expr-Ensures f level s₁ (omega (arith, ap length gone))) λ n s₂ r.
              check_count-Ensures (ReadsArgs float_of (DerivesMore float_of) s) (suc count) name s₂
                _
                (Ensures-bind
                  (more_args-Ensures f level name (suc count) s₂ r.within
                    (omega (arith, r.shorter, ap length gone)))
                  λ args s₃ rs. holds (arg n args) s₃ (
                    ReadsArgs-comma float_of s s₁ s₃ n (arg n args) (comma-is (current s).kind w)
                      gone refl
                      (ReadsArgs-arg float_of
                        (λ more xs. DerivesMore float_of more (current s ∷ xs)) s₁ s₂ s₃ n args
                        (λ xs ys. next n args xs ys (current s) (comma-is (current s).kind w)) r
                        rs))))
          (λ w. holds no_args s (ReadsArgs-none float_of (DerivesMore float_of) s no_more m))
