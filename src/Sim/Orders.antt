-- ===== src/Sim/Orders.antt =====
-- Orders of apps/api/quanta/exchanges/sim/trading.py: `_record`, `_fill` and `place_order`.
pub mod Course
pub mod Contract
use catpn.Prelude.{
  ℕ, suc, ◌+◌, String, Bool, true, false, not, Option, none, some, List, if◌then◌else◌, ◌&&◌, ◌||◌,
}
use catpn.Prelude.Decimal.{Decimal, ◌≼◌, ◌≺◌, nought}
use catpn.Prelude.Dict.{Dict, find, put}
use catpn.Trading.{
  OrderSide, buy, sell, opposite, is_buy, is_close, OrderType, is_limit, TimeInForce, ioc, fok,
  is_post_only, OrderStatus, filled, cancelled, rejected, fresh, is_hedge, isolated, Credentials,
  KeyPermissions, OrderRequest, Order, Position, TradingError, Reply, ok, refused, crashed,
}
use catpn.Sim.{SimAccount, SimVenue, error, position_key, order_name, account_of, store_account}
use catpn.Sim.Positions.{get_or, apply, available, margin_for}

abbrev pub unfilled_reason : TimeInForce → String
unfilled_reason ioc = "IOC could not fill"
unfilled_reason _ = "FOK could not fill"

abbrev pub is_immediate : TimeInForce → Bool
is_immediate ioc = true
is_immediate fok = true
is_immediate _ = false

module _ {D : Type 0} ⦃d : Decimal D⦄ where
  -- The order that `_record` makes of a request.
  unfoldable pub order_of :
      String → OrderRequest D → OrderStatus → D → Option D → Option String → Order D
  order_of id request status filled_qty average reason = record {
    order_id = id;
    client_id = request.client_id;
    symbol = request.symbol;
    side = request.side;
    order_type = request.order_type;
    status = status;
    qty = request.qty;
    filled_qty = filled_qty;
    price = request.price;
    average_price = average;
    fee = none;
    trade_side = request.trade_side;
    reduce_only = request.reduce_only;
    created_at = none;
    updated_at = none;
    reject_reason = reason;
  }

  -- `_record`: the order goes into the account under its id and into the idempotency index.
  unfoldable pub keep_order : Order D → SimAccount D → SimAccount D
  keep_order order account = record account {
    orders = put order.order_id order account.orders;
    by_client_id = put order.client_id order.order_id account.by_client_id;
  }

  unfoldable pub record_with :
      String
      → OrderRequest D
      → OrderStatus
      → D
      → Option D
      → Option String
      → SimAccount D
      → Order D × SimAccount D
  unfolding order_of keep_order
  record_with id request status filled_qty average reason account =
      let order = order_of id request status filled_qty average reason in
      (order, keep_order order account)

  -- Closing in hedge mode acts on the opposite book.
  unfoldable pub target_key : SimAccount D → OrderRequest D → String
  target_key account request =
      if is_hedge account.position_mode && is_close request.trade_side
      then position_key request.symbol (opposite request.side) account.position_mode
      else position_key request.symbol request.side account.position_mode

  abbrev pub is_closing : OrderRequest D → Bool
  is_closing request = request.reduce_only || is_close request.trade_side

  abbrev pub is_missing : Option (Position D) → Bool
  is_missing none = true
  is_missing (some p) = false

  -- The account after `_apply` at the order's key.
  unfoldable pub apply_request : SimAccount D → OrderRequest D → D → SimAccount D
  apply_request account request price =
      apply account (target_key account request) request price
        (get_or (find request.symbol account.leverage) 1)
        (get_or (find request.symbol account.margin_mode) isolated) (is_closing request)

  -- An exit with no position to act on, and an opening order beyond the available margin.
  abbrev pub nothing_to_reduce : SimAccount D → OrderRequest D → Bool
  nothing_to_reduce account request =
      is_closing request && is_missing (find (target_key account request) account.positions)

  abbrev pub lacks_margin : SimAccount D → OrderRequest D → D → Bool
  lacks_margin account request price =
      let leverage = get_or (find request.symbol account.leverage) 1 in
      not (is_closing request) && available account ≺ margin_for request.qty price leverage

  -- `_fill`
  unfoldable pub fill : String → SimAccount D → OrderRequest D → D → Order D × SimAccount D
  fill id account request price =
      if nothing_to_reduce account request
      then record_with id request rejected nought none (some "nothing to reduce") account
      else if lacks_margin account request price
      then record_with id request rejected nought none (some "insufficient margin") account
      else record_with id request filled request.qty (some price) none
          (apply_request account request price)

  -- Whether a limit at `wanted` crosses the market at `price`.
  abbrev pub crosses_at : OrderSide → D → D → Bool
  crosses_at buy wanted price = price ≼ wanted
  crosses_at sell wanted price = wanted ≼ price

  -- A LIMIT request, with its price, against the market's. One without a price fails the assertion.
  unfoldable pub place_limit :
      String → SimAccount D → OrderRequest D → D → Option D → Option (Order D × SimAccount D)
  place_limit id account request price none = none
  place_limit id account request price (some wanted) = some (
      if is_post_only request.time_in_force && crosses_at request.side wanted price
      then record_with id request rejected nought none (some "POST_ONLY would have taken liquidity")
          account
      else if not (crosses_at request.side wanted price)
      then if is_immediate request.time_in_force
        then record_with id request cancelled nought none
            (some (unfilled_reason request.time_in_force)) account
        else record_with id request fresh nought none none account
      else fill id account request wanted)

  -- A new order at the market's price.
  unfoldable pub execute :
      String → SimAccount D → OrderRequest D → D → Option (Order D × SimAccount D)
  unfolding place_limit
  execute id account request price =
      if is_limit request.order_type
      then place_limit id account request price request.price
      else some (fill id account request price)

  -- The order of a client id that was seen; a missing order would be a `KeyError`.
  unfoldable pub replayed : Option (Order D) → Reply (Order D)
  replayed none = crashed
  replayed (some order) = ok order

  -- What the venue becomes: an id is taken from the counter with each order recorded.
  unfoldable pub committed :
      Credentials → SimVenue D → Option (Order D × SimAccount D) → Reply (Order D) × SimVenue D
  committed c venue none = (crashed, venue)
  committed c venue (some (order, account)) =
      (ok order, store_account c account (record venue { next_id = suc venue.next_id }))

  -- A request whose client id was not seen.
  unfoldable pub place_new :
      Credentials → OrderRequest D → SimAccount D → SimVenue D → Reply (Order D) × SimVenue D
  unfolding execute committed
  place_new c request account venue = elim (find request.symbol venue.prices) [
    | none ↦ (refused (error "no price" "unknown_symbol"), venue)
    | some price ↦ committed c venue (execute (order_name venue.next_id) account request price)
  ]

  unfoldable pub place_in :
      Credentials → OrderRequest D → SimAccount D → SimVenue D → Reply (Order D) × SimVenue D
  unfolding place_new replayed
  place_in c request account venue =
      if not account.permissions.can_trade
      then (refused (error "this key cannot trade" "not_permitted"), venue)
      else elim (find request.client_id account.by_client_id) [
        | some id ↦ (replayed (find id account.orders), venue)
        | none ↦ place_new c request account venue
      ]

  -- `place_order`
  unfoldable pub place_order :
      Credentials → OrderRequest D → SimVenue D → Reply (Order D) × SimVenue D
  unfolding place_in
  place_order c request venue = elim (account_of venue c) [
    | refused e ↦ (refused e, venue)
    | crashed ↦ (crashed, venue)
    | ok account ↦ place_in c request account venue
  ]
