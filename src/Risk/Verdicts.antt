-- ===== src/Risk/Verdicts.antt =====
-- The verdicts of apps/api/quanta/services/risk.py: when `check_order` allows, refuses and halts,
-- and the figures that it shows.
use catpn.Prelude.{
  ℕ, ◌≤◌, ◌<◌, ◌≡◌, refl, ◌↔◌, ◌⊎◌, ◌≢◌, ◌∙◌, sym, Bool-cases, ltb, leb, inl, inr, ◌&&◌, leb→le,
  Bool, true, false, Option, some, List, arith, length,
}
use catpn.Prelude.Decimal.{
  Decimal, IsOrdered, KeepsSign, RoundsInOrder, ◌≼◌, ◌≺◌, nought, dec_max, dec_min,
}
use catpn.Trading.{OrderRequest, Position}
use catpn.Risk.{
  RiskCode, fine, position_too_large, daily_loss, max_drawdown, leverage_too_high, rate_limited,
  RiskLimits, RiskVerdict, RiskState, Time, trim_orders, observe, orders_in_last_minute, allow,
  refuse, limits_valid, drawdown_percent, judge_equity, check_equity, held_notional, judge_order,
  check_order, largest_allowed_qty, daily_loss_used, drawdown_used,
}

-- The breaches that stop the bot.
abbrev pub is_damage : RiskCode → Bool
is_damage daily_loss = true
is_damage max_drawdown = true
is_damage leverage_too_high = true
is_damage _ = false

-- The figure that a refusal shows reaches the limit that it shows beside it.
abbrev pub Crossed : {D : Type 0} ⦃d : Decimal D⦄ → Option D → Option D → Type 0
Crossed (some seen) (some bound) = bound ≼ seen ≡ true
Crossed _ _ = ⊥

-- A verdict that holds together: it allows exactly if it names no breach, it halts exactly if the
-- breach is one of damage, and a refusal shows a figure that has reached its limit.
pub record IsCoherent (D : Type 0) ⦃d : Decimal D⦄ (v : RiskVerdict D) : Type 0 where
  pub allowed_iff : (v.allowed ≡ true) ↔ (v.code ≡ fine)
  pub halt_iff : (v.halt ≡ true) ↔ (is_damage v.code ≡ true)
  pub crossed : v.allowed ≡ false → Crossed v.observed v.limit

-- What a limit allows of the state that `observe` leaves.
abbrev pub Within :
    {D : Type 0} ⦃d : Decimal D⦄
    → RiskLimits D
    → OrderRequest D
    → D
    → D
    → List (Position D)
    → ℕ
    → Time
    → RiskState D
    → Type 0
Within ⦃d⦄ l r price equity ps leverage m s =
    (l.max_daily_loss ≼ d.sub s.day_start_equity equity ≡ false)
    × ((s.peak_equity ≼ nought ≡ true)
        ⊎ (l.max_drawdown_percent ≼ drawdown_percent s.peak_equity equity ≡ false))
    × (leverage ≤ l.max_leverage)
    × (length (trim_orders m s.recent_orders) < l.max_orders_per_minute)
    × (d.add (held_notional ps) (d.mul r.qty price) ≼ l.max_position_notional ≡ true)

module _ {D : Type 0} ⦃d : Decimal D⦄ where
  allow-IsCoherent : IsCoherent D allow
  allow-IsCoherent = record {
    allowed_iff = (λ h. refl, λ h. refl);
    halt_iff = (λ h. cc, λ h. cc);
    crossed = λ h. cc;
  }

  refuse-IsCoherent :
      (c : RiskCode) (stop : Bool) (seen bound : D)
      → c ≢ fine
      → stop ≡ is_damage c
      → bound ≼ seen ≡ true
      → IsCoherent D (refuse c stop seen bound)
  refuse-IsCoherent c stop seen bound ne e h = record {
    allowed_iff = (λ p. cc, λ p. absurd (ne p));
    halt_iff = (λ p. sym e ∙ p, λ p. e ∙ p);
    crossed = λ p. h;
  }

module _ {D : Type 0} ⦃d : Decimal D⦄ (l : RiskLimits D) (r : OrderRequest D) (price equity : D)
    (ps : List (Position D)) (leverage : ℕ) (m : Time) (s : RiskState D) where
  -- An order that is not reduce-only is allowed exactly if, with the equity observed, the
  -- daily loss, the drawdown, the leverage, the order rate and the position size all have room
  -- for it under the limits.
  pub check_order-allowed_iff :
      r.reduce_only ≡ false
      → ((check_order l r price equity ps leverage m s).0.allowed ≡ true)
        ↔ Within l r price equity ps leverage m (observe equity m s)
  unfolding check_order check_equity judge_equity judge_order orders_in_last_minute
  check_order-allowed_iff opens = (λ h. ground arith, λ h. ground arith)

module _ {D : Type 0} ⦃d : Decimal D⦄ (o : IsOrdered D) (l : RiskLimits D) where
  and_right : (a b : Bool) → (a && b) ≡ true → b ≡ true
  and_right a b h = ground arith

  le_of_lt : (x y : D) → x ≺ y ≡ true → x ≼ y ≡ true
  le_of_lt x y h = ground (arith, o.order_total x y)

  judge_equity-IsCoherent : (equity : D) (s : RiskState D) → IsCoherent D (judge_equity l equity s)
  unfolding judge_equity
  judge_equity-IsCoherent equity s =
      elim (Bool-cases (l.max_daily_loss ≼ d.sub s.day_start_equity equity)) [
        | inl h ↦ rw h (refuse-IsCoherent daily_loss true _ _ (λ p. cc) refl h)
        | inr n ↦
            rw n
              (elim (Bool-cases (
                nought ≺ s.peak_equity
                && l.max_drawdown_percent ≼ drawdown_percent s.peak_equity equity)) [
                  | inl h ↦
                      rw h
                        (refuse-IsCoherent max_drawdown true _ _ (λ p. cc) refl (and_right _ _ h))
                  | inr n' ↦ rw n' allow-IsCoherent
                ])
      ]

  judge_order-IsCoherent :
      (r : OrderRequest D) (price : D) (ps : List (Position D)) (leverage : ℕ) (m : Time)
      (s : RiskState D)
      → IsCoherent D (judge_order l r price ps leverage m s).0
  unfolding judge_order
  judge_order-IsCoherent r price ps leverage m s = elim (Bool-cases (ltb l.max_leverage leverage)) [
    | inl h ↦ rw h (
        refuse-IsCoherent leverage_too_high true _ _ (λ p. cc) refl
          (o.order_nat l.max_leverage leverage (ground arith)))
    | inr n ↦ rw n (elim (Bool-cases (leb l.max_orders_per_minute (orders_in_last_minute m s).0)) [
      | inl h ↦ rw h (
          refuse-IsCoherent rate_limited false _ _ (λ p. cc) refl
            (o.order_nat l.max_orders_per_minute _ (leb→le _ _ h)))
      | inr n' ↦
          rw n'
            (elim (Bool-cases
              (l.max_position_notional ≺ d.add (held_notional ps) (d.mul r.qty price))) [
                | inl h ↦
                    rw h (
                      refuse-IsCoherent position_too_large false _ _ (λ p. cc) refl
                        (le_of_lt _ _ h))
                | inr n'' ↦ rw n'' allow-IsCoherent
              ])
    ])
  ]

  -- With decimals in a total order, every verdict of check_order is coherent: allowed exactly
  -- with the code OK, halting exactly on a damage limit or too much leverage, and when refused
  -- it carries an observed figure that has met its limit.
  pub check_order-IsCoherent :
      (r : OrderRequest D) (price equity : D) (ps : List (Position D)) (leverage : ℕ) (m : Time)
      (s : RiskState D)
      → IsCoherent D (check_order l r price equity ps leverage m s).0
  unfolding check_order check_equity
  check_order-IsCoherent r price equity ps leverage m s =
      let seen = observe equity m s in
      elim (Bool-cases r.reduce_only) [
        | inl h ↦ simp h allow-IsCoherent
        | inr n ↦ simp n (elim (Bool-cases (judge_equity l equity seen).allowed) [
          | inl h ↦ simp h (judge_order-IsCoherent r price ps leverage m seen)
          | inr n' ↦ simp n' (judge_equity-IsCoherent equity seen)
        ])
      ]

  module _ (signs : KeepsSign D) where
    abbrev used : D → D → D
    used x y = dec_min (d.of_nat 100) (d.mul (d.div (dec_max nought x) y) (d.of_nat 100))

    used_bounds :
        (x y : D)
        → y ≼ nought ≡ false
        → (nought ≼ used x y ≡ true) × (used x y ≼ d.of_nat 100 ≡ true)
    used_bounds x y h =
        let top = dec_max nought x in
        let top_nonneg : nought ≼ top ≡ true =
          ground (arith, o.order_refl nought, o.order_total nought x) in
        let share =
          signs.mul_nonneg (d.div top y) (d.of_nat 100) (signs.div_nonneg top y top_nonneg h)
            (o.order_nat 0 100 (omega arith)) in
        let all = d.mul (d.div top y) (d.of_nat 100) in
        (
          ground (arith, share, o.order_nat 0 100 (omega arith)),
          ground (arith, o.order_refl (d.of_nat 100), o.order_total (d.of_nat 100) all),
        )

    -- With decimals in a total order that keep signs in products and quotients, under valid
    -- limits the used shares of the two damage limits lie between 0 and 100 percent.
    pub budgets_bounds :
        limits_valid l ≡ true
        → (s : RiskState D) (equity : D)
        → (nought ≼ daily_loss_used l s equity ≡ true)
          × (daily_loss_used l s equity ≼ d.of_nat 100 ≡ true)
          × (nought ≼ drawdown_used l s equity ≡ true)
          × (drawdown_used l s equity ≼ d.of_nat 100 ≡ true)
    unfolding daily_loss_used drawdown_used limits_valid
    budgets_bounds valid s equity =
        let daily = used_bounds (d.sub s.day_start_equity equity) l.max_daily_loss (ground arith) in
        let drop =
          used_bounds (drawdown_percent s.peak_equity equity) l.max_drawdown_percent
            (ground arith) in
        (
          daily.0,
          daily.1,
          ground (arith, drop.0, o.order_refl nought),
          ground (arith, drop.1, o.order_nat 0 100 (omega arith)),
        )

  -- With decimals in a total order whose differences and quotients round in order: the
  -- quantity offered under the position limit is never negative, it does not rise as the
  -- notional held rises, and it is zero unless the notional held is below the limit.
  pub largest_allowed_qty-falls :
      RoundsInOrder D
      → (price : D) (ps qs : List (Position D)) → held_notional ps ≼ held_notional qs ≡ true
      → (nought ≼ largest_allowed_qty l price qs ≡ true)
        × (largest_allowed_qty l price qs ≼ largest_allowed_qty l price ps ≡ true)
        × ((held_notional ps ≺ l.max_position_notional ≡ true)
            ⊎ (largest_allowed_qty l price ps ≡ nought))
  unfolding largest_allowed_qty
  largest_allowed_qty-falls rounds price ps qs h = elim (Bool-cases (price ≼ nought)) [
    | inl free ↦ rw free (o.order_refl nought, o.order_refl nought, inr refl)
    | inr paid ↦
        let room = d.sub l.max_position_notional (held_notional ps) in
        let less = d.sub l.max_position_notional (held_notional qs) in
        let narrower = rounds.sub_falls l.max_position_notional _ _ h in
        let fewer = rounds.div_rises less room price narrower paid in
        rw paid (
          ground (arith, o.order_refl nought, o.order_total nought (d.div less price)),
          ground (
            arith,
            fewer,
            o.order_refl nought,
            o.order_total nought (d.div room price),
            o.order_trans (d.div less price) (d.div room price) nought,
          ),
          elim (Bool-cases (l.max_position_notional ≼ held_notional ps)) [
            | inr left ↦ inl (rw left refl)
            | inl full ↦
                let nothing = rounds.sub_nonpos l.max_position_notional _ full in
                let none_left = rounds.div_nonpos room price nothing paid in inr (rw none_left refl)
          ],
        )
  ]
