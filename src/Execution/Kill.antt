-- ===== src/Execution/Kill.antt =====
-- The kill switch of apps/api/quanta/services/execution.py: `kill` and `_kill_one`. The clock is
-- read before each closing order; `clock i` is the second that the i-th reading of a context gives.
pub mod Accounts
pub mod Safety
use catpn.Prelude.{
  ℕ, ◌+◌, suc, String, Bool, true, false, Option, none, some, List, [], ◌∷◌, ◌++◌, if◌then◌else◌,
}
use catpn.Prelude.Decimal.{Decimal, ◌≼◌, nought}
use catpn.Trading.{
  opposite, closes, market, gtc, mark_price, is_hedge, OrderRequest, Order, Position, post_init,
  Reply, ok, refused, crashed, TradingAdapter,
}
use catpn.Execution.{flatten, BotContext}
use catpn.Execution.Ids.{client_id_for}
use catpn.Execution.Placing.{Ended, returned, value_error, died}

-- The lines of `failures`, by what they say: the symbol, the quantity and the venue's message.
pub data Failure (D : Type 0) : Type 0 where
  not_cancelled : String → String → Failure D
  not_read : String → String → Failure D
  not_closed : String → D → String → Failure D

pub record KillReport (D : Type 0) : Type 0 where
  pub orders_cancelled : ℕ
  pub positions_closed : ℕ
  pub failures : List (Failure D)

abbrev pub empty_report : {D : Type 0} → KillReport D
empty_report = record { orders_cancelled = 0; positions_closed = 0; failures = [] }

abbrev pub fail_with : {D : Type 0} → Failure D → KillReport D → KillReport D
fail_with f report = record report { failures = report.failures ++ f ∷ [] }

module _ {D V : Type 0} ⦃d : Decimal D⦄ (digest : List ℕ → String) (clock : ℕ → ℕ)
    (venue : TradingAdapter D V) where
  unfoldable pub closing_request : BotContext → ℕ → Position D → OrderRequest D
  closing_request context index position = record {
    symbol = position.symbol;
    side = opposite position.side;
    order_type = market;
    qty = position.qty;
    client_id = client_id_for digest context.bot_id (clock index) flatten index;
    price = none;
    trade_side = if is_hedge context.position_mode then some closes else none;
    time_in_force = gtc;
    reduce_only = true;
    position_id = none;
    tp_price = none;
    tp_stop_type = mark_price;
    tp_order_type = market;
    tp_order_price = none;
    sl_price = none;
    sl_stop_type = mark_price;
    sl_order_type = market;
    sl_order_price = none;
  }

  -- What the answer to a closing order puts into the report.
  unfoldable pub note_closing : Position D → Reply (Order D) → KillReport D → Ended (KillReport D)
  note_closing position (ok order) report =
      returned (record report { positions_closed = report.positions_closed + 1 })
  note_closing position (refused exc) report =
      returned (fail_with (not_closed position.symbol position.qty exc.message) report)
  note_closing position crashed report = died

  -- One position: building the request may raise, and then sending it may.
  unfoldable pub close_one :
      BotContext → ℕ → Position D → KillReport D → V → Ended (KillReport D) × V
  close_one context index position report v =
      let request = closing_request context index position in
      let (reply, v') = venue.place_order context.credentials request v in
      elim (post_init request) [
        | some e ↦ (value_error e, v)
        | none ↦ (note_closing position reply report, v')
      ]

  -- for index, position in enumerate(positions)
  unfoldable pub close_positions :
      BotContext → ℕ → List (Position D) → KillReport D → V → Ended (KillReport D) × V
  close_positions context index [] report v = (returned report, v)
  close_positions context index (position ∷ rest) report v = elim (position.qty ≼ nought) [
    | true ↦ close_positions context (suc index) rest report v
    | false ↦ elim (close_one context index position report v).0 [
      | returned report' ↦
          close_positions context (suc index) rest report'
            (close_one context index position report v).1
      | value_error e ↦ (value_error e, (close_one context index position report v).1)
      | died ↦ (died, (close_one context index position report v).1)
    ]
  ]

  unfoldable pub flatten_from :
      BotContext → Reply (List (Position D)) → KillReport D → V → Ended (KillReport D) × V
  flatten_from context (ok positions) report v = close_positions context 0 positions report v
  flatten_from context (refused exc) report v =
      (returned (fail_with (not_read context.symbol exc.message) report), v)
  flatten_from context crashed report v = (died, v)

  -- The second half of `_kill_one`: read the positions, and close them.
  unfoldable pub flatten_account : BotContext → KillReport D → V → Ended (KillReport D) × V
  unfolding flatten_from
  flatten_account context report v =
      let (reply, v') = venue.positions context.credentials (some context.symbol) v in
      flatten_from context reply report v'

  unfoldable pub kill_from : BotContext → Reply ℕ → KillReport D → V → Ended (KillReport D) × V
  kill_from context (ok count) report v =
      flatten_account context (record report { orders_cancelled = report.orders_cancelled + count })
        v
  kill_from context (refused exc) report v =
      flatten_account context (fail_with (not_cancelled context.symbol exc.message) report) v
  kill_from context crashed report v = (died, v)

  -- `_kill_one`
  unfoldable pub kill_one : BotContext → KillReport D → V → Ended (KillReport D) × V
  unfolding kill_from
  kill_one context report v =
      let (reply, v') = venue.cancel_all context.credentials (some context.symbol) v in
      kill_from context reply report v'

  unfoldable pub kill_all : List BotContext → KillReport D → V → Ended (KillReport D) × V
  kill_all [] report v = (returned report, v)
  kill_all (context ∷ contexts) report v = elim (kill_one context report v).0 [
    | returned report' ↦ kill_all contexts report' (kill_one context report v).1
    | value_error e ↦ (value_error e, (kill_one context report v).1)
    | died ↦ (died, (kill_one context report v).1)
  ]

  -- `kill`
  unfoldable pub kill : List BotContext → V → Ended (KillReport D) × V
  unfolding kill_all
  kill contexts v = kill_all contexts empty_report v
