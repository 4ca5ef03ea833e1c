-- ===== src/Execution/Reconcile/Agreement.antt =====
-- What `reconcile` of apps/api/quanta/services/execution.py reports, symbol by symbol.
use text.Mathlib.Text.{◌==◌}
use text.Mathlib.TextEquality.{eq_iff}
use catpn.Prelude.{
  ◌≡◌, ◌↔◌, refl, sym, ◌∙◌, subst, String, if◌then◌else◌, true, false, Option, none, some, List, [],
  ◌∷◌, ◌++◌, arith, any_of, Bool-cases, inl, inr,
}
use catpn.Prelude.Decimal.{Decimal, nought, same}
use catpn.Prelude.Dict.{
  Dict, find, put, find-put, Unique, Entries, Unique-put, Entries-find, find-Entries,
}
use catpn.Trading.{OrderSide, buy, sell, Order, Position}
use catpn.Execution.Reconcile.{
  Difference, signed_qty, is_material, should_halt, actual_from, compare_held, held_differences,
  compare_claimed, claimed_differences, differences_of, report_of,
}

append-eq-nil : {A : Type 0} (xs ys : List A) → (xs ++ ys ≡ []) ↔ ((xs ≡ []) × (ys ≡ []))
append-eq-nil [] ys = (λ h. (refl, h), λ h. h.1)
append-eq-nil (x ∷ xs) ys = (λ h. cc, λ h. cc)

module _ {D : Type 0} ⦃d : Decimal D⦄ where
  -- The first of the venue's positions in a symbol.
  abbrev pub position_in : String → List (Position D) → Option (Position D)
  position_in k [] = none
  position_in k (p ∷ ps) = if p.symbol == k then some p else position_in k ps

  -- No symbol twice, as in one-way mode.
  abbrev pub OneEach : List (Position D) → Type 0
  OneEach [] = Unit
  OneEach (p ∷ ps) = (position_in p.symbol ps ≡ none) × OneEach ps

  -- The quantity of our records is that of a position: positive for a long, negative for a short.
  abbrev Claims : D → OrderSide → D → Type 0
  Claims wanted buy qty = same wanted qty ≡ true
  Claims wanted sell qty = same wanted (d.neg qty) ≡ true

  -- What is expected of a symbol and the position that the venue shows in it agree.
  abbrev pub Agrees : Option D → Option (Position D) → Type 0
  Agrees none none = Unit
  Agrees none (some p) = ⊥
  Agrees (some wanted) none = same wanted nought ≡ true
  Agrees (some wanted) (some p) = Claims wanted p.side p.qty

  -- The same, against a signed quantity.
  abbrev Matches : Option D → Option D → Type 0
  Matches none none = Unit
  Matches none (some held) = ⊥
  Matches (some wanted) none = same wanted nought ≡ true
  Matches (some wanted) (some held) = same wanted held ≡ true

  -- Both sides know the symbol, or neither has a position in it.
  abbrev pub Known : Option D → Option D → Type 0
  Known none none = Unit
  Known none (some held) = ⊥
  Known (some wanted) none = same wanted nought ≡ true
  Known (some wanted) (some held) = Unit

  Unique-actual_from :
      (held : Dict D) (ps : List (Position D)) → Unique held → Unique (actual_from held ps)
  unfolding actual_from
  Unique-actual_from held [] u = u
  Unique-actual_from held (p ∷ ps) u =
      Unique-actual_from (put p.symbol (signed_qty p) held) ps (Unique-put p.symbol _ held u)

  -- A property of difference lists that is judged piece by piece.
  module _ (Q : List (Difference D) → Type 0) (nil : Q [])
      (append : (xs ys : List (Difference D)) → Q (xs ++ ys) ↔ (Q xs × Q ys)) where
    held-pointwise :
        (expected actual : Dict D)
        → Q (held_differences expected actual)
          ↔ Entries (λ k v. Q (compare_held k v (find k expected))) actual
    unfolding held_differences
    held-pointwise expected [] = (λ h. tt, λ h. nil)
    held-pointwise expected ((k, v) ∷ rest) =
        let here = append (compare_held k v (find k expected)) (held_differences expected rest) in
        let there = held-pointwise expected rest in
        (λ h. ((here.0 h).0, there.0 (here.0 h).1), λ h. here.1 (h.0, there.1 h.1))

    claimed-pointwise :
        (actual expected : Dict D)
        → Q (claimed_differences actual expected)
          ↔ Entries (λ k v. Q (compare_claimed k v (find k actual))) expected
    unfolding claimed_differences
    claimed-pointwise actual [] = (λ h. tt, λ h. nil)
    claimed-pointwise actual ((k, v) ∷ rest) =
        let here = append (compare_claimed k v (find k actual)) (claimed_differences actual rest) in
        let there = claimed-pointwise actual rest in
        (λ h. ((here.0 h).0, there.0 (here.0 h).1), λ h. here.1 (h.0, there.1 h.1))

    -- What the comparison of one symbol gives, on both sides.
    abbrev At : String → Option D → Option D → Type 0
    At k wanted held =
        ((v : D) → held ≡ some v → Q (compare_held k v wanted))
        × ((v : D) → wanted ≡ some v → Q (compare_claimed k v held))

    differences-pointwise :
        (R : Option D → Option D → Type 0)
        → ((k : String) (wanted held : Option D) → At k wanted held ↔ R wanted held)
        → (expected : Dict D) (ps : List (Position D)) → Unique expected
        → Q (differences_of expected (actual_from [] ps))
          ↔ ((k : String) → R (find k expected) (find k (actual_from [] ps)))
    unfolding differences_of
    differences-pointwise R single expected ps u =
        let actual = actual_from [] ps in
        let unique = Unique-actual_from [] ps tt in
        let held = held-pointwise expected actual in
        let claimed = claimed-pointwise actual expected in
        let both =
          append (held_differences expected actual) (claimed_differences actual expected) in
        (
          λ h k. (single k (find k expected) (find k actual)).0 (
            Entries-find _ actual (held.0 (both.0 h).0) k,
            Entries-find _ expected (claimed.0 (both.0 h).1) k,
          ),
          λ h. both.1 (
            held.1 (find-Entries _ actual unique (λ k. ((single k _ _).1 (h k)).0)),
            claimed.1 (find-Entries _ expected u (λ k. ((single k _ _).1 (h k)).1)),
          ),
        )

  Matches-iff :
      (k : String) (wanted held : Option D)
      → At (λ xs. xs ≡ []) refl append-eq-nil k wanted held ↔ Matches wanted held
  unfolding compare_held compare_claimed
  Matches-iff k none none = (λ h. tt, λ h. (λ v e. cc, λ v e. cc))
  Matches-iff k none (some u) = (λ h. ground (arith, h.0 u refl), λ h. absurd h)
  Matches-iff k (some w) none =
      (λ h. ground (arith, h.1 w refl), λ h. (λ v e. cc, λ v e. ground arith))
  Matches-iff k (some w) (some u) =
      (λ h. ground (arith, h.0 u refl), λ h. (λ v e. ground arith, λ v e. refl))

  -- The entry of a symbol, where some entries were written before.
  abbrev entry_of : Option (Position D) → Option D → Option D
  entry_of none earlier = earlier
  entry_of (some p) earlier = some (signed_qty p)

  find-actual_from :
      (k : String) (held : Dict D) (ps : List (Position D))
      → OneEach ps
      → find k (actual_from held ps) ≡ entry_of (position_in k ps) (find k held)
  unfolding actual_from
  find-actual_from k held [] one = refl
  find-actual_from k held (p ∷ ps) one =
      let rest = find-actual_from k (put p.symbol (signed_qty p) held) ps one.1 in
      let written = find-put p.symbol k (signed_qty p) held in
      elim (Bool-cases (p.symbol == k)) [
        | inl here ↦
            let last : position_in k ps ≡ none =
              subst (λ j. position_in j ps ≡ none) ((eq_iff p.symbol k).0 here) one.0 in
            rw here (rest ∙ rw (last, written, here) refl)
        | inr other ↦ rw other (rest ∙ rw (written, other) refl)
      ]

  Agrees-Matches :
      (wanted : Option D) (p : Option (Position D))
      → Matches wanted (entry_of p none) ↔ Agrees wanted p
  Agrees-Matches none none = (λ h. h, λ h. h)
  Agrees-Matches none (some p) = (λ h. h, λ h. h)
  Agrees-Matches (some w) none = (λ h. h, λ h. h)
  Agrees-Matches (some w) (some p) = by_side p.side refl
    where
      by_side :
          (side : OrderSide)
          → p.side ≡ side
          → Matches (some w) (some (signed_qty p)) ↔ Agrees (some w) (some p)
      by_side buy e = rw e (λ h. h, λ h. h)
      by_side sell e = rw e (λ h. h, λ h. h)

  -- For expectations with no symbol twice, and a venue that shows no symbol twice: the report
  -- of a reconciliation lists no difference exactly if every symbol's expected quantity is
  -- that of the position shown, negative for a short, where a symbol without a position may be
  -- expected as zero, and a position that nothing is expected of is a difference.
  pub differences_of-eq-nil_iff :
      (expected : Dict D) (ps : List (Position D)) (orders : List (Order D))
      → Unique expected
      → OneEach ps
      → ((report_of (some expected) ps orders).differences ≡ [])
        ↔ ((k : String) → Agrees (find k expected) (position_in k ps))
  unfolding report_of find
  differences_of-eq-nil_iff expected ps orders u one =
      let pointwise =
        differences-pointwise (λ xs. xs ≡ []) refl append-eq-nil Matches Matches-iff expected ps
          u in
      let entry = λ (k : String). find-actual_from k [] ps one in
      (
        λ h k.
            (Agrees-Matches (find k expected) (position_in k ps)).0
              (subst (λ a. Matches (find k expected) a) (entry k) (pointwise.0 h k)),
        λ h. pointwise.1 (λ k.
            subst (λ a. Matches (find k expected) a) (sym (entry k))
              ((Agrees-Matches (find k expected) (position_in k ps)).1 (h k))),
      )

  abbrev Calm : List (Difference D) → Type 0
  Calm xs = any_of is_material xs ≡ false

  Calm-append : (xs ys : List (Difference D)) → Calm (xs ++ ys) ↔ (Calm xs × Calm ys)
  Calm-append [] ys = (λ h. (refl, h), λ h. h.1)
  Calm-append (x ∷ xs) ys =
      let rest = Calm-append xs ys in
      elim (Bool-cases (is_material x)) [ inl e ↦ rw e (λ h. cc, λ h. cc) | inr e ↦ rw e rest ]

  Known-iff :
      (k : String) (wanted held : Option D)
      → At Calm refl Calm-append k wanted held ↔ Known wanted held
  unfolding compare_held compare_claimed
  Known-iff k none none = (λ h. tt, λ h. (λ v e. cc, λ v e. cc))
  Known-iff k none (some u) = (λ h. ground (arith, h.0 u refl), λ h. absurd h)
  Known-iff k (some w) none =
      (λ h. ground (arith, h.1 w refl), λ h. (λ v e. cc, λ v e. ground arith))
  Known-iff k (some w) (some u) = (λ h. tt, λ h. (λ v e. ground arith, λ v e. refl))

  -- For expectations with no symbol twice, the report of a reconciliation asks for no halt
  -- exactly if, for every symbol, the venue and our records both know a position, or the venue
  -- has none and we expect none or zero.
  pub should_halt_iff :
      (expected : Dict D) (ps : List (Position D)) (orders : List (Order D))
      → Unique expected
      → (should_halt (report_of (some expected) ps orders) ≡ false)
        ↔ ((k : String) → Known (find k expected) (find k (actual_from [] ps)))
  unfolding should_halt report_of
  should_halt_iff expected ps orders u =
      differences-pointwise Calm refl Calm-append Known Known-iff expected ps u
