-- ===== src/Execution/Placing.antt =====
-- `place` and `resolve` of apps/api/quanta/services/execution.py.
pub mod Retry
use text.Mathlib.Text.{◌==◌}
use catpn.Prelude.{
  ℕ, ◌≡◌, refl, String, Bool, true, false, Option, none, some, List, [], ◌∷◌, if◌then◌else◌,
}
use catpn.Prelude.Decimal.{Decimal}
use catpn.Trading.{
  OrderSide, TradeSide, opens, closes, OrderType, gtc, market, mark_price, OrderStatus, is_hedge,
  Credentials, OrderRequest, RequestError, Order, Position, post_init, Reply, ok, refused, crashed,
  TradingAdapter,
}
use catpn.Risk.{RiskLimits, RiskState, Time, record_order, check_order}
use catpn.Execution.{
  Purpose, Outcome, placed, duplicate, blocked, rejected, uncertain, failed, BotContext,
  ExecutionResult,
}
use catpn.Execution.Ids.{client_id_for}

-- How a call of the service ends: it returns, or an exception leaves it.
pub data Ended {ℓ} (A : Type ℓ) : Type ℓ where
  returned : A → Ended A
  value_error : RequestError → Ended A
  died : Ended A

-- The ends of a call, with the equation.
pub data Course {ℓ} {A : Type ℓ} (x : Ended A) : Type ℓ where
  returns : (a : A) → x ≡ returned a → Course x
  raises : (e : RequestError) → x ≡ value_error e → Course x
  dies : x ≡ died → Course x

pub course_of {ℓ} : {A : Type ℓ} (x : Ended A) → Course x
course_of (returned a) = returns a refl
course_of (value_error e) = raises e refl
course_of died = dies refl

-- The keyword arguments of `place`, but for the guard.
pub record Signal (D : Type 0) : Type 0 where
  pub side : OrderSide
  pub qty : D
  pub purpose : Purpose
  pub bar_time : ℕ
  pub price : D
  pub equity : D
  pub positions : List (Position D)
  pub reduce_only : Bool
  pub order_type : OrderType
  pub limit_price : Option D
  pub stop_loss : Option D
  pub take_profit : Option D
  pub attempt : ℕ
  pub moment : Time

-- Hedge mode needs this field; one-way mode must not send it.
unfoldable pub trade_side_of : BotContext → Bool → Option TradeSide
trade_side_of context reduce_only =
    if is_hedge context.position_mode then some (if reduce_only then closes else opens) else none

abbrev pub is_rejected : OrderStatus → Bool
is_rejected OrderStatus.rejected = true
is_rejected _ = false

module _ {D V : Type 0} ⦃d : Decimal D⦄ (digest : List ℕ → String)
    (venue : TradingAdapter D V) where
  unfoldable pub id_of : BotContext → Signal D → String
  id_of context signal =
      client_id_for digest context.bot_id signal.bar_time signal.purpose signal.attempt

  -- The request that `place` builds.
  unfoldable pub request_of : BotContext → Signal D → OrderRequest D
  unfolding trade_side_of
  request_of context signal = record {
    symbol = context.symbol;
    side = signal.side;
    order_type = signal.order_type;
    qty = signal.qty;
    client_id = id_of context signal;
    price = signal.limit_price;
    trade_side = trade_side_of context signal.reduce_only;
    time_in_force = gtc;
    reduce_only = signal.reduce_only;
    position_id = none;
    tp_price = signal.take_profit;
    tp_stop_type = mark_price;
    tp_order_type = market;
    tp_order_price = none;
    sl_price = signal.stop_loss;
    sl_stop_type = mark_price;
    sl_order_type = market;
    sl_order_price = none;
  }

  -- What is made of the venue's answer. The window counts an order that was answered.
  unfoldable pub settle :
      String → Time → Reply (Order D) → RiskState D → Ended (ExecutionResult D) × RiskState D
  settle client_id moment (ok order) s = (
    returned (record {
      outcome = if is_rejected order.status then rejected else placed;
      client_id = client_id;
      order = some order;
      verdict = none;
      error = if is_rejected order.status then order.reject_reason else none;
    }),
    record_order moment s,
  )
  settle client_id moment (refused exc) s = (
    returned (record {
      outcome = if exc.retryable then failed else uncertain;
      client_id = client_id;
      order = none;
      verdict = none;
      error = some exc.message;
    }),
    s,
  )
  settle client_id moment crashed s = (died, s)

  -- The call from the risk check on, for a request that was built.
  unfoldable pub submit :
      RiskLimits D
      → BotContext
      → Signal D
      → RiskState D
      → V
      → Ended (ExecutionResult D) × RiskState D × V
  submit limits context signal s v =
      let request = request_of context signal in
      let client_id = id_of context signal in
      let (verdict, checked) =
        check_order limits request signal.price signal.equity signal.positions context.leverage
          signal.moment s in
      let (reply, v') = venue.place_order context.credentials request v in
      let (ended, recorded) = settle client_id signal.moment reply checked in
      if verdict.allowed then (ended, recorded, v') else (
        returned (record {
          outcome = blocked;
          client_id = client_id;
          order = none;
          verdict = some verdict;
          error = none;
        }),
        checked,
        v,
      )

  -- `place`: the guard's state and the venue come back beside the result.
  unfoldable pub place :
      RiskLimits D
      → BotContext
      → Signal D
      → RiskState D
      → V
      → Ended (ExecutionResult D) × RiskState D × V
  place limits context signal s v = elim (post_init (request_of context signal)) [
    | some e ↦ (value_error e, s, v)
    | none ↦ submit limits context signal s v
  ]

  -- for order in open_orders: if order.client_id == client_id: return order
  unfoldable pub order_with_id : String → List (Order D) → Option (Order D)
  order_with_id client_id [] = none
  order_with_id client_id (o ∷ os) =
      if o.client_id == client_id then some o else order_with_id client_id os

  unfoldable pub resolve_from : String → Reply (List (Order D)) → Ended (ExecutionResult D)
  unfolding order_with_id
  resolve_from client_id (ok open_orders) =
      let found = order_with_id client_id open_orders in
      returned (record {
        outcome = elim found [ some o ↦ duplicate | none ↦ uncertain ];
        client_id = client_id;
        order = found;
        verdict = none;
        error = none;
      })
  resolve_from client_id (refused exc) = returned (record {
    outcome = uncertain;
    client_id = client_id;
    order = none;
    verdict = none;
    error = some exc.message;
  })
  resolve_from client_id crashed = died

  unfoldable pub resolve : BotContext → String → V → Ended (ExecutionResult D) × V
  unfolding resolve_from
  resolve context client_id v =
      let (reply, v') = venue.open_orders context.credentials (some context.symbol) v in
      (resolve_from client_id reply, v')
