-- ===== src/Trading.antt =====
-- apps/api/quanta/exchanges/trading.py: the values that cross the boundary to a venue. The `raw`
-- payloads, which nothing reads, are left out.
use catpn.Prelude.{ℕ, String, Bool, true, false, not, Option, none, some, List, []}
use catpn.Prelude.{if◌then◌else◌, ◌&&◌, any_of}
use catpn.Prelude.Decimal.{Decimal, ◌≼◌, nought}
use text.Mathlib.Text.{◌==◌}

pub data OrderSide : Type 0 where
  buy sell : OrderSide

pub opposite : OrderSide → OrderSide
opposite buy = sell
opposite sell = buy

abbrev pub is_buy : OrderSide → Bool
is_buy buy = true
is_buy sell = false

abbrev pub same_side : OrderSide → OrderSide → Bool
same_side buy buy = true
same_side sell sell = true
same_side _ _ = false

pub data TradeSide : Type 0 where
  opens closes : TradeSide

abbrev pub is_close : Option TradeSide → Bool
is_close (some closes) = true
is_close _ = false

pub data OrderType : Type 0 where
  limit market : OrderType

abbrev pub is_limit : OrderType → Bool
is_limit limit = true
is_limit market = false

pub data TimeInForce : Type 0 where
  ioc fok gtc post_only : TimeInForce

abbrev pub is_post_only : TimeInForce → Bool
is_post_only post_only = true
is_post_only _ = false

pub data StopType : Type 0 where
  mark_price last_price : StopType

pub data OrderStatus : Type 0 where
  fresh partially_filled filled cancelled rejected expired : OrderStatus

unfoldable pub is_final : OrderStatus → Bool
is_final filled = true
is_final cancelled = true
is_final rejected = true
is_final expired = true
is_final _ = false

unfoldable pub is_open : OrderStatus → Bool
unfolding is_final
is_open s = not (is_final s)

pub data PositionMode : Type 0 where
  one_way hedge : PositionMode

abbrev pub is_hedge : PositionMode → Bool
is_hedge hedge = true
is_hedge one_way = false

abbrev pub same_mode : PositionMode → PositionMode → Bool
same_mode one_way one_way = true
same_mode hedge hedge = true
same_mode _ _ = false

pub data MarginMode : Type 0 where
  isolated cross : MarginMode

pub record Credentials : Type 0 where
  pub api_key : String
  pub api_secret : String
  pub passphrase : Option String

pub record KeyPermissions : Type 0 where
  pub can_read : Bool
  pub can_trade : Bool
  pub can_withdraw : Bool
  pub ip_whitelist : List String

unfoldable pub is_ip_restricted : KeyPermissions → Bool
is_ip_restricted p = elim p.ip_whitelist [ [] ↦ false | _ ↦ true ]

unfoldable pub allows_ip : KeyPermissions → String → Bool
allows_ip p ip = any_of (λ x. x == ip) p.ip_whitelist

pub record OrderRequest (D : Type 0) : Type 0 where
  pub symbol : String
  pub side : OrderSide
  pub order_type : OrderType
  pub qty : D
  pub client_id : String
  pub price : Option D
  pub trade_side : Option TradeSide
  pub time_in_force : TimeInForce
  pub reduce_only : Bool
  pub position_id : Option String
  pub tp_price : Option D
  pub tp_stop_type : StopType
  pub tp_order_type : OrderType
  pub tp_order_price : Option D
  pub sl_price : Option D
  pub sl_stop_type : StopType
  pub sl_order_type : OrderType
  pub sl_order_price : Option D

-- The messages of the `ValueError`s that building a request may raise.
pub data RequestError : Type 0 where
  qty_not_positive client_id_missing limit_without_price post_only_market : RequestError

pub record Order (D : Type 0) : Type 0 where
  pub order_id : String
  pub client_id : String
  pub symbol : String
  pub side : OrderSide
  pub order_type : OrderType
  pub status : OrderStatus
  pub qty : D
  pub filled_qty : D
  pub price : Option D
  pub average_price : Option D
  pub fee : Option D
  pub trade_side : Option TradeSide
  pub reduce_only : Bool
  pub created_at : Option ℕ
  pub updated_at : Option ℕ
  pub reject_reason : Option String

pub record Position (D : Type 0) : Type 0 where
  pub symbol : String
  pub side : OrderSide
  pub qty : D
  pub entry_price : D
  pub leverage : ℕ
  pub margin_mode : MarginMode
  pub position_id : Option String
  pub mark_price : Option D
  pub liquidation_price : Option D
  pub unrealised_pnl : Option D
  pub realised_pnl : Option D
  pub margin : Option D

pub record Balance (D : Type 0) : Type 0 where
  pub currency : String
  pub equity : D
  pub available : D
  pub used_margin : D
  pub unrealised_pnl : D

module _ {D : Type 0} ⦃d : Decimal D⦄ where
  abbrev price_missing : Option D → Bool
  price_missing none = true
  price_missing (some p) = false

  -- `OrderRequest.__post_init__`: the first complaint about a request, in the order of the tests.
  unfoldable pub post_init : OrderRequest D → Option RequestError
  post_init r =
      if r.qty ≼ nought
      then some qty_not_positive
      else if r.client_id == ""
      then some client_id_missing
      else if is_limit r.order_type && price_missing r.price
      then some limit_without_price
      else if not (is_limit r.order_type) && is_post_only r.time_in_force
      then some post_only_market
      else none

  unfoldable pub notional : Position D → D
  notional p = d.mul p.qty (elim p.mark_price [ none ↦ p.entry_price | some m ↦ m ])

  unfoldable pub remaining_qty : Order D → D
  remaining_qty o = d.sub o.qty o.filled_qty

-- `TradingError`: the message, and whether the caller may send the request again.
pub record TradingError : Type 0 where
  pub message : String
  pub code : Option String
  pub retryable : Bool

-- How a call of a venue ends: a value, a `TradingError`, or another exception, which nothing in
-- the program catches.
pub data Reply {ℓ} (A : Type ℓ) : Type ℓ where
  ok : A → Reply A
  refused : TradingError → Reply A
  crashed : Reply A

-- The `TradingAdapter` protocol, over the state `V` of the venue. The program's own operations
-- call these; the simulated venue implements them.
pub record TradingAdapter (D V : Type 0) : Type 0 where
  pub position_mode : Credentials → V → Reply PositionMode × V
  pub balances : Credentials → V → Reply (List (Balance D)) × V
  pub positions : Credentials → Option String → V → Reply (List (Position D)) × V
  pub open_orders : Credentials → Option String → V → Reply (List (Order D)) × V
  pub place_order : Credentials → OrderRequest D → V → Reply (Order D) × V
  pub cancel_all : Credentials → Option String → V → Reply ℕ × V
