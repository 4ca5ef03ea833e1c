-- ===== src/Execution/Reconcile.antt =====
-- `reconcile`, `check_position_mode` and `conflicting_symbol` of
-- apps/api/quanta/services/execution.py.
pub mod Agreement
use text.Mathlib.Text.{◌==◌}
use catpn.Prelude.{
  ℕ, String, Bool, true, false, not, Option, none, some, List, [], ◌∷◌, ◌++◌, if◌then◌else◌, any_of,
  ◌&&◌,
}
use catpn.Prelude.Decimal.{Decimal, nought, same}
use catpn.Prelude.Dict.{Dict, find, put}
use catpn.Trading.{
  is_buy, PositionMode, is_hedge, same_mode, Order, Position, Reply, ok, refused, crashed,
  TradingError, TradingAdapter,
}
use catpn.Execution.{BotContext}

pub data Kind : Type 0 where
  untracked_position size_differs missing_position : Kind

pub record Difference (D : Type 0) : Type 0 where
  pub symbol : String
  pub kind : Kind
  pub expected : D
  pub actual : D

abbrev pub is_material : {D : Type 0} → Difference D → Bool
is_material r = elim r.kind [ size_differs ↦ false | _ ↦ true ]

pub record ReconcileReport (D : Type 0) : Type 0 where
  pub positions : List (Position D)
  pub open_orders : List (Order D)
  pub differences : List (Difference D)

unfoldable pub should_halt : {D : Type 0} → ReconcileReport D → Bool
should_halt r = any_of is_material r.differences

-- `reconcile` catches nothing: a refusal of the venue leaves it as it came.
pub data Read {ℓ} (A : Type ℓ) : Type ℓ where
  got : A → Read A
  not_got : TradingError → Read A
  lost : Read A

abbrev pub reading : {A B : Type 0} → Reply A → (A → Read B) → Read B
reading (ok a) f = f a
reading (refused e) f = not_got e
reading crashed f = lost

module _ {D : Type 0} ⦃d : Decimal D⦄ where
  -- p.qty if p.side is OrderSide.BUY else -p.qty
  abbrev pub signed_qty : Position D → D
  signed_qty p = if is_buy p.side then p.qty else d.neg p.qty

  -- {p.symbol: … for p in positions}: a later position of a symbol replaces an earlier one.
  unfoldable pub actual_from : Dict D → List (Position D) → Dict D
  actual_from held [] = held
  actual_from held (p ∷ ps) = actual_from (put p.symbol (signed_qty p) held) ps

  -- One symbol that the venue holds, against what is expected of it.
  unfoldable pub compare_held : String → D → Option D → List (Difference D)
  compare_held symbol held none =
      record { symbol = symbol; kind = untracked_position; expected = nought; actual = held } ∷ []
  compare_held symbol held (some wanted) =
      if same wanted held
      then []
      else record { symbol = symbol; kind = size_differs; expected = wanted; actual = held } ∷ []

  unfoldable pub held_differences : Dict D → Dict D → List (Difference D)
  held_differences expected [] = []
  held_differences expected ((symbol, held) ∷ rest) =
      compare_held symbol held (find symbol expected) ++ held_differences expected rest

  -- One symbol that our records claim, against what the venue holds.
  unfoldable pub compare_claimed : String → D → Option D → List (Difference D)
  compare_claimed symbol claimed none =
      if same claimed nought
      then []
      else record { symbol = symbol; kind = missing_position; expected = claimed; actual = nought }
        ∷ []
  compare_claimed symbol claimed (some held) = []

  unfoldable pub claimed_differences : Dict D → Dict D → List (Difference D)
  claimed_differences actual [] = []
  claimed_differences actual ((symbol, claimed) ∷ rest) =
      compare_claimed symbol claimed (find symbol actual) ++ claimed_differences actual rest

  unfoldable pub differences_of : Dict D → Dict D → List (Difference D)
  differences_of expected actual =
      held_differences expected actual ++ claimed_differences actual expected

  -- The report, from what was read.
  unfoldable pub report_of :
      Option (Dict D) → List (Position D) → List (Order D) → ReconcileReport D
  unfolding actual_from
  report_of none positions open_orders = record {
    positions = positions;
    open_orders = open_orders;
    differences = [];
  }
  report_of (some expected) positions open_orders = record {
    positions = positions;
    open_orders = open_orders;
    differences = differences_of expected (actual_from [] positions);
  }

  unfoldable pub reconcile :
      {V : Type 0}
      → TradingAdapter D V
      → BotContext
      → Option (Dict D)
      → V
      → Read (ReconcileReport D) × V
  unfolding report_of
  reconcile venue context expected v =
      let (held, v₁) = venue.positions context.credentials (some context.symbol) v in
      let (resting, v₂) = venue.open_orders context.credentials (some context.symbol) v₁ in
      elim held [
        | ok positions ↦
            (reading resting (λ open_orders. got (report_of expected positions open_orders)), v₂)
        | refused e ↦ (not_got e, v₁)
        | crashed ↦ (lost, v₁)
      ]

  -- `check_position_mode`: whether there is a reason to refuse.
  unfoldable pub check_position_mode :
      {V : Type 0} → TradingAdapter D V → BotContext → V → Read Bool × V
  check_position_mode venue context v =
      let (answer, v') = venue.position_mode context.credentials v in
      (reading answer (λ mode. got (not (same_mode mode context.position_mode))), v')

-- `conflicting_symbol`: whether there is a reason to refuse.
unfoldable pub conflicting_symbol : BotContext → List String → Bool
conflicting_symbol context others =
    if is_hedge context.position_mode then false else any_of (λ x. x == context.symbol) others
