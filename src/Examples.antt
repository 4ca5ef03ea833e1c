-- ===== src/Examples.antt =====
-- The inputs of the examples: one bot on the simulated venue, in whole units.
pub mod Guard
pub mod Ordering
pub mod Venue
pub mod Desk
pub mod Rules
pub mod Bars
pub mod Pace
use catpn.Prelude.{ℕ, String, Bool, true, false, Option, none, some, List, [], ◌∷◌}
use catpn.Prelude.Int.{ℤ, pos, negsuc, whole}
use catpn.Prelude.Dict.{Dict}
use catpn.Trading.{
  OrderSide, buy, sell, market, gtc, mark_price, OrderStatus, fresh, filled, one_way, isolated,
  Credentials, KeyPermissions, OrderRequest, Order, Position, limit,
}
use catpn.Risk.{RiskLimits, RiskState, Time, starting_at}
use catpn.Execution.{BotContext, Purpose, entry, exit}
use catpn.Execution.Placing.{Signal}
use catpn.Sim.{SimAccount, SimVenue}

abbrev pub limits : RiskLimits ℤ
limits = record {
  max_position_notional = pos 1000;
  max_daily_loss = pos 100;
  max_drawdown_percent = pos 20;
  max_leverage = 5;
  max_orders_per_minute = 3;
}

abbrev pub credentials : Credentials
credentials = record { api_key = "key"; api_secret = "secret"; passphrase = none }

abbrev pub context : BotContext
context = record {
  bot_id = "bot";
  symbol = "BTC";
  leverage = 2;
  margin_mode = isolated;
  position_mode = one_way;
  credentials = credentials;
}

abbrev pub held : Position ℤ
held = record {
  symbol = "BTC";
  side = buy;
  qty = pos 3;
  entry_price = pos 10;
  leverage = 2;
  margin_mode = isolated;
  position_id = some "BTC";
  mark_price = some (pos 10);
  liquidation_price = none;
  unrealised_pnl = none;
  realised_pnl = none;
  margin = some (pos 15);
}

abbrev pub resting : Order ℤ
resting = record {
  order_id = "sim-00000001";
  client_id = "old";
  symbol = "BTC";
  side = buy;
  order_type = limit;
  status = fresh;
  qty = pos 2;
  filled_qty = pos 0;
  price = some (pos 5);
  average_price = none;
  fee = none;
  trade_side = none;
  reduce_only = false;
  created_at = none;
  updated_at = none;
  reject_reason = none;
}

abbrev pub account : SimAccount ℤ
account = record {
  permissions = record {
    can_read = true;
    can_trade = true;
    can_withdraw = false;
    ip_whitelist = "10.0.0.1" ∷ [];
  };
  secret = "secret";
  equity = pos 500;
  currency = "USDT";
  position_mode = one_way;
  leverage = ("BTC", 2) ∷ [];
  margin_mode = [];
  positions = ("BTC", held) ∷ [];
  orders = ("sim-00000001", resting) ∷ [];
  by_client_id = ("old", "sim-00000001") ∷ [];
  realised_pnl = pos 0;
}

abbrev pub venue : SimVenue ℤ
venue = record {
  accounts = ("key", account) ∷ [];
  prices = ("BTC", pos 10) ∷ [];
  server_ip = "10.0.0.1";
  next_id = 2;
}

abbrev pub digest : List ℕ → String
digest codes = "abc"

abbrev pub clock : ℕ → ℕ
clock index = 60

-- A market order of a bot, to open or to close.
abbrev pub signal : Bool → OrderSide → Purpose → Signal ℤ
signal reduce_only side purpose = record {
  side = side;
  qty = pos 3;
  purpose = purpose;
  bar_time = 60;
  price = pos 10;
  equity = pos 500;
  positions = [];
  reduce_only = reduce_only;
  order_type = market;
  limit_price = none;
  stop_loss = none;
  take_profit = none;
  attempt = 0;
  moment = 1_000;
}

abbrev pub memory : RiskState ℤ
memory = record {
  day_start_equity = pos 500;
  peak_equity = pos 500;
  day_started_at = 0;
  recent_orders = [];
}

abbrev pub request : Bool → OrderSide → OrderRequest ℤ
request reduce_only side = record {
  symbol = "BTC";
  side = side;
  order_type = market;
  qty = pos 2;
  client_id = "new";
  price = none;
  trade_side = none;
  time_in_force = gtc;
  reduce_only = reduce_only;
  position_id = none;
  tp_price = none;
  tp_stop_type = mark_price;
  tp_order_type = market;
  tp_order_price = none;
  sl_price = none;
  sl_stop_type = mark_price;
  sl_order_type = market;
  sl_order_price = none;
}
