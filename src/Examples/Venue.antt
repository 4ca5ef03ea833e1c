-- ===== src/Examples/Venue.antt =====
-- Examples for apps/api/quanta/exchanges/sim/trading.py.
use catpn.Prelude.{◌≡◌, refl, String, none, some, [], length, true, false}
use catpn.Prelude.Decimal.{dec_sum_from}
use catpn.Prelude.Int.{ℤ, pos, whole}
use catpn.Prelude.Dict.{find, put, values}
use catpn.Trading.{
  buy, sell, isolated, Order, ok, market, filled, is_ip_restricted, allows_ip, post_init, limit,
  fresh, OrderRequest, is_open, is_final,
}
use catpn.Sim.{SimAccount, account_of, position_key, order_name, last_digits, width_of}
use catpn.Sim.Access.{Admits}
use catpn.Sim.Positions.{apply, opened, grow, shrink, pnl, available, used_margin}
use catpn.Sim.Positions.Reducing.{Reduced, apply-Reduced}
use catpn.Sim.Orders.{
  place_order, place_in, place_new, replayed, committed, execute, place_limit, fill, record_with,
  order_of, keep_order, apply_request, target_key,
}
use catpn.Sim.Orders.Contract.{place_order_replays}
use catpn.Sim.Cancel.{cancel_all, open_orders}
use catpn.Sim.Cancel.Counts.{open_on, after_cancel, cancel_all_closes}
use catpn.Sim.Market.{fill_crossed_limits, cross_one, is_crossed, fill_resting, resting_request}
use catpn.Sim.Market.Crossing.{after_move, move_fills_crossed}
use catpn.Execution.{duplicate}
use catpn.Execution.Placing.{resolve}
use catpn.Execution.Placing.Retry.{outcome_in}
use catpn.Sim.Venue.{sim_adapter}
use catpn.Sim.Venue.Resolved.{place_then_resolve}
use catpn.Examples.{context, digest, account, credentials, request, venue, held}

abbrev bought : Order ℤ
bought = record {
  order_id = "sim-00000002";
  client_id = "new";
  symbol = "BTC";
  side = buy;
  order_type = market;
  status = filled;
  qty = pos 2;
  filled_qty = pos 2;
  price = none;
  average_price = some (pos 10);
  fee = none;
  trade_side = none;
  reduce_only = false;
  created_at = none;
  updated_at = none;
  reject_reason = none;
}

place_order_replays_example :
    place_order credentials
      (request true sell)
      (place_order credentials (request false buy) venue).1
    ≡ (ok bought, (place_order credentials (request false buy) venue).1)
unfolding place_order account_of is_ip_restricted allows_ip place_in place_new replayed committed
    execute place_limit fill record_with order_of keep_order apply_request target_key apply opened
    grow shrink pnl position_key order_name last_digits width_of available used_margin find put
    values dec_sum_from
place_order_replays_example =
    place_order_replays credentials (request false buy) (request true sell) venue bought refl refl

apply-Reduced_example :
    Reduced
      (request true sell)
      (find "BTC" account.positions)
      (find "BTC" (apply account "BTC" (request true sell) (pos 12) 2 isolated true).positions)
unfolding find
apply-Reduced_example =
    apply-Reduced account "BTC" (request true sell) (pos 12) 2 isolated held refl refl "BTC"

cancel_all_closes_example :
    let after = (cancel_all credentials (some "BTC") venue).1 in
    ((cancel_all credentials (some "BTC") venue).0
      ≡ ok (length (open_on (some "BTC") account.orders)))
    × ((open_orders credentials (some "BTC") after).0 ≡ ok [])
    × ((account' : SimAccount ℤ) × Admits after credentials account'
        × ((id : String)
            → find id account'.orders ≡ after_cancel (some "BTC") (find id account.orders)))
unfolding account_of find is_ip_restricted allows_ip
cancel_all_closes_example = cancel_all_closes credentials (some "BTC") venue account refl

move_fills_crossed_example :
    find "sim-00000001" (fill_crossed_limits "BTC" (pos 4) account.orders account).1.orders
    ≡ after_move "BTC" (pos 4) (find "sim-00000001" account.orders)
unfolding find fill_crossed_limits cross_one is_crossed fill_resting resting_request post_init
move_fills_crossed_example = move_fills_crossed "BTC" (pos 4) account (refl, tt) refl "sim-00000001"

-- A limit order below the market, and what the venue answers to it.
abbrev patient : OrderRequest ℤ
patient = record (request false buy) { order_type = limit; price = some (pos 5) }

abbrev waiting : Order ℤ
waiting = record bought {
  order_type = limit;
  status = fresh;
  filled_qty = pos 0;
  price = some (pos 5);
  average_price = none;
}

place_then_resolve_example :
    outcome_in
      (resolve digest sim_adapter context "new" (place_order context.credentials patient venue).1).0
    ≡ some duplicate
unfolding place_order account_of is_ip_restricted allows_ip place_in place_new replayed committed
    is_open is_final find record_with order_name
place_then_resolve_example =
    place_then_resolve digest context patient venue waiting refl refl refl refl
