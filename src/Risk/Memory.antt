-- ===== src/Risk/Memory.antt =====
-- What a guard remembers of the equity (apps/api/quanta/services/risk.py, `observe`): the start of
-- the day and the peak, over any sequence of observations.
use catpn.Prelude.{◌≤◌, ◌≡◌, refl, ◌∙◌, true, List, [], ◌∷◌, arith, All, All-imp}
use catpn.Prelude.Decimal.{Decimal, IsOrdered, ◌≼◌}
use catpn.Risk.{RiskState, Time, day_start, observe}

module _ {D : Type 0} ⦃d : Decimal D⦄ where
  -- The observations in the order in which they are made.
  pub observe_all : List (D × Time) → RiskState D → RiskState D
  observe_all [] s = s
  observe_all ((equity, moment) ∷ es) s = observe_all es (observe equity moment s)

  observe-same_day :
      (equity : D) (moment : Time) (s : RiskState D)
      → day_start moment ≤ s.day_started_at
      → ((observe equity moment s).day_start_equity ≡ s.day_start_equity)
        × ((observe equity moment s).day_started_at ≡ s.day_started_at)
  unfolding observe
  observe-same_day equity moment s h = ground arith

  -- Until the next UTC day begins, no sequence of observations moves the equity that the daily
  -- loss is measured from, nor the start of the day.
  pub day_start_equity_kept :
      (es : List (D × Time)) (s : RiskState D)
      → All (λ e. day_start e.1 ≤ s.day_started_at) es
      → ((observe_all es s).day_start_equity ≡ s.day_start_equity)
        × ((observe_all es s).day_started_at ≡ s.day_started_at)
  unfolding observe_all
  day_start_equity_kept [] s h = (refl, refl)
  day_start_equity_kept ((equity, moment) ∷ es) s h =
      let same = observe-same_day equity moment s h.0 in
      let rest =
        day_start_equity_kept es (observe equity moment s)
          (All-imp (λ e. day_start e.1 ≤ s.day_started_at) _ es (λ e p. rw same.1 p) h.1) in
      (rest.0 ∙ same.0, rest.1 ∙ same.1)

  module _ (o : IsOrdered D) where
    observe-peak :
        (equity : D) (moment : Time) (s : RiskState D)
        → (s.peak_equity ≼ (observe equity moment s).peak_equity ≡ true)
          × (equity ≼ (observe equity moment s).peak_equity ≡ true)
    unfolding observe
    observe-peak equity moment s =
        ground (
          arith,
          o.order_refl s.peak_equity,
          o.order_refl equity,
          o.order_total s.peak_equity equity,
        )

    -- With decimals in a total order, over any sequence of observations the peak never
    -- falls, and no equity that was observed lies above the peak at the end.
    pub peak_equity_bound :
        (es : List (D × Time)) (s : RiskState D)
        → (s.peak_equity ≼ (observe_all es s).peak_equity ≡ true)
          × All (λ e. e.0 ≼ (observe_all es s).peak_equity ≡ true) es
    unfolding observe_all
    peak_equity_bound [] s = (o.order_refl s.peak_equity, tt)
    peak_equity_bound ((equity, moment) ∷ es) s =
        let here = observe-peak equity moment s in
        let rest = peak_equity_bound es (observe equity moment s) in
        (o.order_trans _ _ _ here.0 rest.0, (o.order_trans _ _ _ here.1 rest.0, rest.1))
