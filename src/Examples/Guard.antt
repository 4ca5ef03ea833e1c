-- ===== src/Examples/Guard.antt =====
-- Examples for apps/api/quanta/services/risk.py.
use catpn.Prelude.{
  ◌≡◌, refl, ◌≤◌, ◌↔◌, ◌⊎◌, true, false, [], ◌∷◌, ◌++◌, All, count_if, keep_if, arith,
}
use catpn.Prelude.Int.{ℤ, pos, whole, whole-IsOrdered, whole-KeepsSign, whole-RoundsInOrder}
use catpn.Prelude.Decimal.{dec_sum_from, ◌≼◌, ◌≺◌, nought}
use catpn.Trading.{buy, notional}
use catpn.Risk.{
  Time, observe, check_equity, judge_equity, day_start, drawdown_percent, judge_order,
  orders_in_last_minute, held_notional, limits_valid, check_order, record_order, daily_loss_used,
  drawdown_used, largest_allowed_qty, trim_orders,
}
use catpn.Risk.Window.{in_window, booted, sent, trim_orders-eq-keep_if, orders_per_minute_bound}
use catpn.Risk.Verdicts.{
  Within, IsCoherent, check_order-allowed_iff, check_order-IsCoherent, budgets_bounds,
  largest_allowed_qty-falls,
}
use catpn.Risk.Memory.{observe_all, day_start_equity_kept, peak_equity_bound}
use catpn.Examples.{limits, memory, request, held}

check_order-allowed_iff_example :
    ((check_order limits
        (request false buy)
        (pos 10)
        (pos 500)
        (held ∷ [])
        2
        1_000
        memory).0.allowed
      ≡ true)
    ↔ Within limits
        (request false buy)
        (pos 10)
        (pos 500)
        (held ∷ [])
        2
        1_000
        (observe (pos 500) 1_000 memory)
check_order-allowed_iff_example =
    check_order-allowed_iff limits (request false buy) (pos 10) (pos 500) (held ∷ []) 2 1_000 memory
      refl

orders_per_minute_bound_example : count_if (in_window 3_000) (([] ++ 2_000 ∷ []) ++ 3_000 ∷ []) ≤ 3
unfolding check_order check_equity judge_equity observe record_order day_start drawdown_percent
    judge_order orders_in_last_minute trim_orders held_notional dec_sum_from
orders_per_minute_bound_example =
    orders_per_minute_bound limits (request false buy) (pos 10) (pos 500) [] 2 3_000
      (sent 2_000 (booted memory 1_000 refl) (omega arith)) (omega arith) refl refl

check_order-IsCoherent_example :
    IsCoherent ℤ (check_order limits (request false buy) (pos 900) (pos 300) [] 2 1_000 memory).0
check_order-IsCoherent_example =
    check_order-IsCoherent whole-IsOrdered limits (request false buy) (pos 900) (pos 300) [] 2 1_000
      memory

day_start_equity_kept_example :
    ((observe_all ((pos 450, 5) ∷ (pos 700, 9) ∷ []) memory).day_start_equity ≡ pos 500)
    × ((observe_all ((pos 450, 5) ∷ (pos 700, 9) ∷ []) memory).day_started_at ≡ 0)
unfolding day_start
day_start_equity_kept_example =
    day_start_equity_kept ((pos 450, 5) ∷ (pos 700, 9) ∷ []) memory (omega arith, (omega arith, tt))

peak_equity_bound_example :
    (pos 500 ≼ (observe_all ((pos 450, 5) ∷ (pos 700, 9) ∷ []) memory).peak_equity ≡ true)
    × All
        (λ (e : ℤ × Time).
          e.0 ≼ (observe_all ((pos 450, 5) ∷ (pos 700, 9) ∷ []) memory).peak_equity ≡ true)
        ((pos 450, 5) ∷ (pos 700, 9) ∷ [])
peak_equity_bound_example =
    peak_equity_bound whole-IsOrdered ((pos 450, 5) ∷ (pos 700, 9) ∷ []) memory

trim_orders-eq-keep_if_example :
    trim_orders 60_001_000 (1_000 ∷ 2_000 ∷ [])
    ≡ keep_if (in_window 60_001_000) (1_000 ∷ 2_000 ∷ [])
trim_orders-eq-keep_if_example =
    trim_orders-eq-keep_if 60_001_000 (1_000 ∷ 2_000 ∷ []) ((omega arith, tt), (tt, tt))

budgets_bounds_example :
    (nought ≼ daily_loss_used limits memory (pos 460) ≡ true)
    × (daily_loss_used limits memory (pos 460) ≼ pos 100 ≡ true)
    × (nought ≼ drawdown_used limits memory (pos 460) ≡ true)
    × (drawdown_used limits memory (pos 460) ≼ pos 100 ≡ true)
unfolding limits_valid
budgets_bounds_example = budgets_bounds whole-IsOrdered limits whole-KeepsSign refl memory (pos 460)

largest_allowed_qty-falls_example :
    (nought ≼ largest_allowed_qty limits (pos 3) (held ∷ held ∷ []) ≡ true)
    × (largest_allowed_qty limits (pos 3) (held ∷ held ∷ [])
          ≼ largest_allowed_qty limits (pos 3) (held ∷ [])
        ≡ true)
    × ((held_notional (held ∷ []) ≺ limits.max_position_notional ≡ true)
        ⊎ (largest_allowed_qty limits (pos 3) (held ∷ []) ≡ nought))
unfolding held_notional dec_sum_from notional
largest_allowed_qty-falls_example =
    largest_allowed_qty-falls whole-IsOrdered limits whole-RoundsInOrder (pos 3) (held ∷ [])
      (held ∷ held ∷ []) refl
