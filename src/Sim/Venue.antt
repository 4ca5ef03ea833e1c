-- ===== src/Sim/Venue.antt =====
-- The simulated venue as the `TradingAdapter` that the execution service is given, and the kill
-- switch (apps/api/quanta/services/execution.py) run against it.
pub mod Killed
pub mod Resolved
use catpn.Prelude.{◌≡◌, String, Bool, true, Option, none, some}
use catpn.Prelude.Decimal.{Decimal}
use catpn.Prelude.Dict.{find}
use catpn.Trading.{OrderRequest, Order, Position, TradingAdapter}
use catpn.Sim.{SimAccount, SimVenue}
use catpn.Sim.Orders.{place_order}
use catpn.Sim.Orders.Contract.{place_order_replays}
use catpn.Sim.Cancel.{cancel_all, open_orders, position_mode, positions, balances}
use catpn.Execution.Placing.Retry.{IsIdempotent}

module _ {D : Type 0} ⦃d : Decimal D⦄ where
  abbrev pub sim_adapter : TradingAdapter D (SimVenue D)
  sim_adapter = record {
    position_mode = position_mode;
    balances = balances;
    positions = positions;
    open_orders = open_orders;
    place_order = place_order;
    cancel_all = cancel_all;
  }

  -- The simulated venue keeps the contract that makes a repeated signal harmless.
  pub sim_adapter-IsIdempotent : IsIdempotent D (SimVenue D) sim_adapter
  sim_adapter-IsIdempotent = record {
    replay = λ c r r' v o e same. place_order_replays c r r' v o e same;
  }
