-- ===== src/Sim/Positions/Reducing.antt =====
-- Reduce-only requests in `_apply` of apps/api/quanta/exchanges/sim/trading.py, against a position
-- that is there.
use text.Mathlib.Text.{◌==◌}
use text.Mathlib.TextEquality.{eq_iff}
use catpn.Prelude.{
  ℕ, ◌≡◌, ◌⊎◌, refl, subst, String, Bool, true, false, not, Option, none, some, arith, Bool-cases,
  inl, inr, ◌&&◌,
}
use catpn.Prelude.Decimal.{Decimal, ◌≺◌, dec_min}
use catpn.Prelude.Dict.{find, put, delete, find-put, find-delete}
use catpn.Trading.{MarginMode, same_side, OrderRequest, Position}
use catpn.Sim.{SimAccount}
use catpn.Sim.Positions.{shrink, apply, margin_for}

and_not-true : (b : Bool) → (b && not true) ≡ false
and_not-true b = ground arith

and_false : (b : Bool) → (b && false) ≡ false
and_false b = ground arith

module _ {D : Type 0} ⦃d : Decimal D⦄ where
  -- What a reducing fill may leave under a key: what was there, nothing, or, at the position's own
  -- key, a position of the same side with the filled part taken off.
  abbrev pub Reduced : OrderRequest D → Option (Position D) → Option (Position D) → Type 0
  Reduced r none none = Unit
  Reduced r none (some q) = ⊥
  Reduced r (some p) none = Unit
  Reduced r (some p) (some q) =
      (q ≡ p) ⊎ ((q.side ≡ p.side) × (q.qty ≡ d.sub p.qty (dec_min p.qty r.qty)))

  Reduced-refl : (r : OrderRequest D) (p : Option (Position D)) → Reduced r p p
  Reduced-refl r none = tt
  Reduced-refl r (some p) = inl refl

  -- A reduce-only fill writes the rest of the position back, or deletes it.
  shrink-positions :
      (a : SimAccount D) (key : String) (r : OrderRequest D) (price : D) (leverage : ℕ)
      (m : MarginMode) (existing : Position D)
      → r.reduce_only ≡ true
      → let after = (shrink a key r price leverage m existing).positions in
        let left = d.sub existing.qty (dec_min existing.qty r.qty) in
        let smaller : Position D = record existing {
          qty = left;
          margin = some (margin_for left existing.entry_price leverage);
        } in
        (after ≡ put key smaller a.positions) ⊎ (after ≡ delete key a.positions)
  unfolding shrink
  shrink-positions a key r price leverage m existing only =
      elim (Bool-cases (dec_min existing.qty r.qty ≺ existing.qty)) [
        | inl e ↦ inl (simp e)
        | inr e ↦ inr (simp (e, only, and_not-true))
      ]

  Reduced-put :
      (a : SimAccount D) (key k : String) (r : OrderRequest D) (p q : Position D)
      → find key a.positions ≡ some p
      → q.side ≡ p.side
      → q.qty ≡ d.sub p.qty (dec_min p.qty r.qty)
      → Reduced r (find k a.positions) (find k (put key q a.positions))
  Reduced-put a key k r p q there side qty =
      rw (find-put key k q a.positions) (elim (Bool-cases (key == k)) [
        | inl e ↦
            rw (e, subst (λ j. find j a.positions ≡ some p) ((eq_iff key k).0 e) there)
              (inr (side, qty))
        | inr e ↦ rw e (Reduced-refl r (find k a.positions))
      ])

  Reduced-none : (r : OrderRequest D) (p : Option (Position D)) → Reduced r p none
  Reduced-none r none = tt
  Reduced-none r (some p) = tt

  Reduced-delete :
      (a : SimAccount D) (key k : String) (r : OrderRequest D)
      → Reduced r (find k a.positions) (find k (delete key a.positions))
  Reduced-delete a key k r = rw (find-delete key k a.positions) (elim (Bool-cases (key == k)) [
    | inl e ↦ rw e (Reduced-none r (find k a.positions))
    | inr e ↦ rw e (Reduced-refl r (find k a.positions))
  ])

  shrink-Reduced :
      (a : SimAccount D) (key : String) (r : OrderRequest D) (price : D) (leverage : ℕ)
      (m : MarginMode) (p : Position D)
      → r.reduce_only ≡ true
      → find key a.positions ≡ some p
      → (k : String)
      → Reduced r (find k a.positions) (find k (shrink a key r price leverage m p).positions)
  shrink-Reduced a key r price leverage m p only there k =
      elim (shrink-positions a key r price leverage m p only) [
        | inl e ↦ rw e (Reduced-put a key k r p _ there refl refl)
        | inr e ↦ rw e (Reduced-delete a key k r)
      ]

  -- Applying a closing, reduce-only request at a key that holds a position leaves, under every
  -- key, what was there, nothing, or at its own side the position with at most its own
  -- quantity taken off; a key that held nothing holds nothing.
  pub apply-Reduced :
      (a : SimAccount D) (key : String) (r : OrderRequest D) (price : D) (leverage : ℕ)
      (m : MarginMode) (p : Position D)
      → r.reduce_only ≡ true
      → find key a.positions ≡ some p
      → (k : String)
      → Reduced r (find k a.positions) (find k (apply a key r price leverage m true).positions)
  unfolding apply
  apply-Reduced a key r price leverage m p only there k =
      rw (there, apply)
        (rw (and_false (same_side p.side r.side))
          (shrink-Reduced a key r price leverage m p only there k))
