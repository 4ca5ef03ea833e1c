-- ===== src/Execution.antt =====
-- apps/api/quanta/services/execution.py: placing, resolving and reconciling a bot's orders, and
-- the kill switch. The venue is any `TradingAdapter`, with its state passed along; a guard is its
-- limits and its state. Log lines are left out.
pub mod Ids
pub mod Placing
pub mod Reconcile
pub mod Kill
use Prim.Native.Char.{Char}
use text.Mathlib.Text.{◌==◌}
use catpn.Prelude.{
  ℕ, zero, suc, ◌+◌, ◌/◌, ◌%◌, String, Bool, true, false, not, Option, none, some, List, [], ◌∷◌,
  ◌++◌, ltb, if◌then◌else◌, any_of, ◌&&◌,
}
use catpn.Prelude.Decimal.{Decimal, ◌≼◌, ◌≺◌, nought, same}
use catpn.Prelude.Dict.{Dict, find, put}
use catpn.Trading.{
  OrderSide, opposite, is_buy, TradeSide, opens, closes, OrderType, market, TimeInForce, gtc,
  StopType, mark_price, OrderStatus, PositionMode, hedge, is_hedge, same_mode, MarginMode,
  Credentials, OrderRequest, RequestError, Order, Position, post_init, TradingError, Reply,
  TradingAdapter,
}
use catpn.Risk.{RiskLimits, RiskVerdict, RiskState, Time, record_order, check_order}

pub data Purpose : Type 0 where
  entry exit add reduce flatten : Purpose

pub data Outcome : Type 0 where
  placed duplicate blocked rejected uncertain failed : Outcome

pub record BotContext : Type 0 where
  pub bot_id : String
  pub symbol : String
  pub leverage : ℕ
  pub margin_mode : MarginMode
  pub position_mode : PositionMode
  pub credentials : Credentials

pub record ExecutionResult (D : Type 0) : Type 0 where
  pub outcome : Outcome
  pub client_id : String
  pub order : Option (Order D)
  pub verdict : Option (RiskVerdict D)
  pub error : Option String

unfoldable pub is_live : {D : Type 0} → ExecutionResult D → Bool
is_live r = elim r.outcome [ placed ↦ true | duplicate ↦ true | _ ↦ false ]
