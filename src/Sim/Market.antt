-- ===== src/Sim/Market.antt =====
-- The moving market of apps/api/quanta/exchanges/sim/trading.py: `set_price` and
-- `_fill_crossed_limits`.
pub mod Crossing
use text.Mathlib.Text.{◌==◌}
use catpn.Prelude.{
  String, Bool, true, false, not, Option, none, some, List, [], ◌∷◌, if◌then◌else◌, ◌&&◌,
}
use catpn.Prelude.Decimal.{Decimal}
use catpn.Prelude.Dict.{Dict, put}
use catpn.Trading.{
  limit, market, gtc, mark_price, OrderStatus, fresh, filled, OrderRequest, RequestError, Order,
  post_init,
}
use catpn.Sim.{SimAccount, SimVenue}
use catpn.Sim.Orders.{crosses_at, apply_request}

abbrev pub is_fresh : OrderStatus → Bool
is_fresh fresh = true
is_fresh _ = false

module _ {D : Type 0} ⦃d : Decimal D⦄ where
  -- The request that a resting order is filled as.
  unfoldable pub resting_request : Order D → D → OrderRequest D
  resting_request order wanted = record {
    symbol = order.symbol;
    side = order.side;
    order_type = limit;
    qty = order.qty;
    client_id = order.client_id;
    price = some wanted;
    trade_side = order.trade_side;
    time_in_force = gtc;
    reduce_only = order.reduce_only;
    position_id = none;
    tp_price = none;
    tp_stop_type = mark_price;
    tp_order_type = market;
    tp_order_price = none;
    sl_price = none;
    sl_stop_type = mark_price;
    sl_order_type = market;
    sl_order_price = none;
  }

  abbrev pub crosses_limit : Order D → D → Option D → Bool
  crosses_limit order price none = false
  crosses_limit order price (some wanted) = crosses_at order.side wanted price

  -- The tests in front of a fill.
  unfoldable pub is_crossed : String → D → Order D → Bool
  is_crossed symbol price order =
      is_fresh order.status && order.symbol == symbol && crosses_limit order price order.price

  unfoldable pub filled_order : Order D → Order D
  filled_order order = record order {
    status = filled;
    filled_qty = order.qty;
    average_price = order.price;
  }

  -- A crossed order at its own price; building the request may raise a `ValueError`.
  unfoldable pub fill_resting :
      String → Order D → SimAccount D → Option D → Option RequestError × SimAccount D
  fill_resting id order account none = (none, account)
  fill_resting id order account (some wanted) =
      let request = resting_request order wanted in
      let applied = apply_request account request wanted in
      elim (post_init request) [
        | some e ↦ (some e, account)
        | none ↦ (none, record applied { orders = put id (filled_order order) applied.orders })
      ]

  -- One turn of the loop.
  unfoldable pub cross_one :
      String → D → String → Order D → SimAccount D → Option RequestError × SimAccount D
  cross_one symbol price id order account =
      if is_crossed symbol price order
      then fill_resting id order account order.price
      else (none, account)

  -- `_fill_crossed_limits`, over the orders that the account had when it began.
  unfoldable pub fill_crossed_limits :
      String → D → Dict (Order D) → SimAccount D → Option RequestError × SimAccount D
  fill_crossed_limits symbol price [] account = (none, account)
  fill_crossed_limits symbol price ((id, order) ∷ rest) account =
      let (raised, after) = cross_one symbol price id order account in
      let others = fill_crossed_limits symbol price rest after in
      elim raised [ some e ↦ (some e, after) | none ↦ others ]

  -- The accounts in their order, up to one that raises.
  unfoldable pub fill_accounts :
      String → D → Dict (SimAccount D) → Option RequestError × Dict (SimAccount D)
  fill_accounts symbol price [] = (none, [])
  fill_accounts symbol price ((key, account) ∷ rest) =
      let (raised, after) = fill_crossed_limits symbol price account.orders account in
      let (later, others) = fill_accounts symbol price rest in
      elim raised [ some e ↦ (some e, (key, after) ∷ rest) | none ↦ (later, (key, after) ∷ others) ]

  -- `set_price`
  unfoldable pub set_price : String → D → SimVenue D → Option RequestError × SimVenue D
  set_price symbol price venue =
      let (raised, accounts) = fill_accounts symbol price venue.accounts in
      (raised, record venue { prices = put symbol price venue.prices; accounts = accounts })
