-- ===== src/Examples/Ordering.antt =====
-- Examples for apps/api/quanta/services/execution.py, on the simulated venue.
use text.Mathlib.Text.{◌==◌}
use catpn.Prelude.{
  ℕ, All, subst, ◌≡◌, ◌≢◌, ◌↔◌, Bool-cases, inl, inr, ◌⊎◌, refl, String, true, false, none, some,
  [], ◌∷◌, arith,
}
use catpn.Prelude.Int.{ℤ, pos, whole}
use catpn.Prelude.Dict.{find}
use catpn.Trading.{buy, sell, market, filled, Order, Position, post_init}
use catpn.Sim.Venue.{sim_adapter, sim_adapter-IsIdempotent}
use catpn.Sim.Venue.Killed.{Narrowed, IsIndexed, held_at, sim_adapter-Serves, kill_opens_nothing}
use catpn.Execution.{entry, exit, blocked}
use catpn.Execution.Ids.{
  bar, client_id_for, decimal, decimal_in, purpose_value, seed, codes, seed-injective,
}
use catpn.Execution.Placing.{id_of, submit, settle, trade_side_of, returned, place, request_of}
use catpn.Execution.Placing.Retry.{
  answer, result, judged, outcome_in, order_in, exit_reaches_venue, place_touches_venue_once,
  place_again,
}
use catpn.Execution.Kill.{KillReport, kill}
use catpn.Execution.Kill.Safety.{Done, kill_reports_and_reduces}
use catpn.Execution.Reconcile.{report_of, should_halt, actual_from}
use catpn.Execution.Reconcile.Agreement.{
  Agrees, position_in, Known, differences_of-eq-nil_iff, should_halt_iff,
}
use catpn.Prelude.Decimal.{dec_sum_from}
use catpn.Prelude.Dict.{put, values}
use catpn.Risk.{
  check_order, check_equity, judge_equity, observe, day_start, drawdown_percent, judge_order,
  orders_in_last_minute, trim_orders, held_notional, record_order, roll_day,
}
use catpn.Trading.{notional, is_ip_restricted, allows_ip}
use catpn.Sim.{SimAccount, account_of, position_key, order_name, last_digits, width_of}
use catpn.Sim.Orders.{
  place_order, place_in, place_new, replayed, committed, execute, place_limit, fill, record_with,
  order_of, keep_order, apply_request, target_key,
}
use catpn.Sim.Positions.{apply, opened, grow, shrink, pnl, available, used_margin}
use catpn.Examples.{digest, clock, limits, context, signal, memory, venue, account, held, resting}

abbrev bought : Order ℤ
bought = record {
  order_id = "sim-00000002";
  client_id = "qabc";
  symbol = "BTC";
  side = buy;
  order_type = market;
  status = filled;
  qty = pos 3;
  filled_qty = pos 3;
  price = none;
  average_price = some (pos 10);
  fee = none;
  trade_side = none;
  reduce_only = false;
  created_at = none;
  updated_at = none;
  reject_reason = none;
}

place_again_example :
    let after =
      (result digest sim_adapter limits context (signal false buy entry) memory venue).2 in
    let again = result digest sim_adapter limits context (signal false buy entry) memory after in
    (again.2 ≡ after) × ((order_in again.0 ≡ none) ⊎ (order_in again.0 ≡ some bought))
unfolding place post_init request_of id_of client_id_for submit check_order check_equity
    judge_equity observe day_start drawdown_percent judge_order orders_in_last_minute trim_orders
    held_notional dec_sum_from decimal decimal_in purpose_value seed settle trade_side_of
    record_order roll_day notional place_order account_of is_ip_restricted allows_ip place_in
    place_new replayed committed execute place_limit fill record_with order_of keep_order
    apply_request target_key apply opened grow shrink pnl position_key order_name last_digits
    width_of available used_margin find put values
place_again_example =
    place_again digest sim_adapter sim_adapter-IsIdempotent context limits limits
      (signal false buy entry) (signal false buy entry) memory memory venue bought refl refl refl
      refl

exit_reaches_venue_example :
    ((result digest sim_adapter limits context (signal true sell exit) memory venue).2
      ≡ (answer digest sim_adapter limits context (signal true sell exit) memory venue).1)
    × (outcome_in (result digest sim_adapter limits context (signal true sell exit) memory venue).0
        ≢ some blocked)
unfolding post_init request_of id_of client_id_for
exit_reaches_venue_example =
    exit_reaches_venue digest sim_adapter limits context (signal true sell exit) memory venue refl
      refl

place_touches_venue_once_example :
    let run = result digest sim_adapter limits context (signal false buy entry) memory venue in
    ((run.2 ≡ venue) × (order_in run.0 ≡ none))
    ⊎ (((judged digest sim_adapter limits context (signal false buy entry) memory venue).0.allowed
          ≡ true)
        × (run.2
            ≡ (answer digest sim_adapter limits context (signal false buy entry) memory venue).1)
        × (outcome_in run.0 ≢ some blocked))
place_touches_venue_once_example =
    place_touches_venue_once digest sim_adapter limits context (signal false buy entry) memory venue

abbrev bar_time : ℕ
bar_time = 60

abbrev attempt : ℕ
attempt = 0

seed-injective_example :
    (codes "bot" ≡ codes "bot") × (bar_time ≡ bar_time) × (entry ≡ entry) × (attempt ≡ attempt)
seed-injective_example =
    seed-injective "bot" "bot" bar_time bar_time entry entry attempt attempt plain plain refl
  where
    plain : All (λ c. c ≢ bar) (codes "bot")
    plain = (λ h. omega arith, (λ h. omega arith, (λ h. omega arith, tt)))

-- The one client id that the example account knows belongs to its resting order.
account-IsIndexed : IsIndexed account
unfolding find
account-IsIndexed id oid e = elim (Bool-cases ("old" == id)) [
  | inl same ↦
      let is_oid : "sim-00000001" ≡ oid = ground (arith, e, same) in
      (resting, subst (λ o. find o account.orders ≡ some resting) is_oid refl)
  | inr other ↦ ground (arith, e, other)
]

venue-IsIndexed :
    (api_key : String) (a : SimAccount ℤ) → find api_key venue.accounts ≡ some a → IsIndexed a
unfolding find
venue-IsIndexed api_key a h id oid e = elim (Bool-cases ("key" == api_key)) [
  | inl same ↦
      let is_a : account ≡ a = ground (arith, h, same) in
      subst IsIndexed is_a account-IsIndexed id oid e
  | inr other ↦ ground (arith, h, other)
]

pub venue-Narrowed : Narrowed venue venue
venue-Narrowed = record { indexed = venue-IsIndexed; opens_nothing = λ key k e. e }

-- The position as the venue shows it, and the report of closing it.
abbrev shown : Position ℤ
shown = record held { mark_price = some (pos 10); unrealised_pnl = some (pos 0) }

abbrev closed_one : KillReport ℤ
closed_one = record { orders_cancelled = 1; positions_closed = 1; failures = [] }

kill_reports_and_reduces_example :
    Done digest clock sim_adapter
      (Narrowed venue)
      (sim_adapter-Serves venue)
      (kill digest clock sim_adapter (context ∷ context ∷ []) venue)
kill_reports_and_reduces_example =
    kill_reports_and_reduces digest clock sim_adapter (Narrowed venue) (sim_adapter-Serves venue)
      (context ∷ context ∷ []) venue venue-Narrowed

kill_opens_nothing_example :
    let after = kill digest clock sim_adapter (context ∷ []) venue in
    ((r : KillReport ℤ) × (after.0 ≡ returned r)) × (held_at after.1 "key" "ETH" ≡ none)
unfolding find
kill_opens_nothing_example =
    kill_opens_nothing digest clock (context ∷ []) venue venue-IsIndexed "key" "ETH" refl

differences_of-eq-nil_iff_example :
    ((report_of (some (("BTC", pos 3) ∷ [])) (held ∷ []) (resting ∷ [])).differences ≡ [])
    ↔ ((k : String) → Agrees (find k (("BTC", pos 3) ∷ [])) (position_in k (held ∷ [])))
unfolding find
differences_of-eq-nil_iff_example =
    differences_of-eq-nil_iff (("BTC", pos 3) ∷ []) (held ∷ []) (resting ∷ []) (refl, tt) (refl, tt)

should_halt_iff_example :
    (should_halt (report_of (some (("BTC", pos 3) ∷ [])) (held ∷ []) (resting ∷ [])) ≡ false)
    ↔ ((k : String) → Known (find k (("BTC", pos 3) ∷ [])) (find k (actual_from [] (held ∷ []))))
unfolding find
should_halt_iff_example =
    should_halt_iff (("BTC", pos 3) ∷ []) (held ∷ []) (resting ∷ []) (refl, tt)
