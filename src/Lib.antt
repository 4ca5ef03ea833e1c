-- ===== src/Lib.antt =====
-- A model of the live trading core of the repository and of the rule language that its strategies
-- are written in, with the theorems that make them safe.
--
-- The program runs trading bots. A bot's signal goes through the execution service, which asks the
-- risk guard for a verdict and sends the order to a venue; the venue is an adapter, and the
-- repository's simulated venue is the one that the program tests itself against.
--
-- Parts:
--   Prelude    tests, lists, dictionaries, decimals and integers that the parts share
--   Trading    apps/api/quanta/exchanges/trading.py: the data of orders and positions, the check
--              that `OrderRequest` makes of itself, and `TradingAdapter` as a record of operations
--              over the venue's state
--   Risk       apps/api/quanta/services/risk.py: `RiskLimits`, `RiskState`, `check_equity`,
--              `check_order`, `largest_allowed_qty` and `budgets`; a method that changes its
--              object returns the new state
--   Execution  apps/api/quanta/services/execution.py: `client_id_for` (Ids), `place` and `resolve`
--              (Placing), `reconcile`, `check_position_mode` and `conflicting_symbol` (Reconcile),
--              `kill` (Kill), for any `TradingAdapter`
--   Sim        apps/api/quanta/exchanges/sim/trading.py: the simulated venue, which fills the
--              `TradingAdapter` record (Sim.Venue)
--   Bots       apps/api/quanta/services/bot_service.py with the rows of
--              apps/api/quanta/models/bot.py, and the handlers `arm_bot`, `stop_bot`, `clear_halt`,
--              `update_bot`, `delete_bot` (Bots.Routes) and `kill_switch` (Bots.KillSwitch) of
--              apps/api/quanta/api/routes/bots.py;
--              a request takes the tables and gives them back beside its answer, and one request
--              is served at a time
--   Dsl        packages/engine/quanta_engine/dsl: the rule language, with `tokenize` (Dsl.Lexer),
--              the class `Parser` (Dsl.Parser), `parse` (Dsl.Source), and `walk`, `identifiers`,
--              `functions` and `node_count` (Dsl.Nodes), `evaluate` and `evaluate_bool`
--              (Dsl.Evaluator.Eval), which call the indicators through the handlers of
--              Dsl.Evaluator.Functions
--   Series     packages/engine/quanta_engine/series.py: the indicators over the bars of a market
--   Throttle   apps/api/quanta/exchanges/throttle.py: the token bucket `AsyncRateLimiter`, over
--              the floats of the host (`FloatOps`, and `KeepsOrder` for what rounding keeps)
--   Examples   concrete inputs at which the theorems apply
--
-- Choices. A Python `Decimal` is a parameter: the record `Decimal` names its operations, and the
-- proofs that need laws of it take `IsOrdered`, `KeepsSign` or `RoundsInOrder`, which whole
-- numbers satisfy (Prelude.Int). A moment is a count of microseconds since the epoch; where the
-- source reads the clock, the moment is an argument. The digest behind client ids is a parameter.
-- A call of a venue ends in a value, a `TradingError`, or another exception (`Reply`), and the
-- state of the venue is passed along. Dictionaries are association lists in insertion order. Loops
-- run over lists by structural recursion or take fuel: writing a number in decimal takes the
-- number plus one, the lexer one unit for each character and one more, the parser twenty for each
-- token and twenty more (a token is reached through eight levels of the grammar), `walk` one for
-- each node and one more.
--
-- The parser's methods call each other, and Python bounds how deep: `parse` takes the room, the
-- number of calls of methods inside one another that the stack still has space for, and a method
-- called with no room left ends in `recursion_error`. The frames of the helpers that look at
-- tokens, at most three above a method, are not counted one by one: the room is what is left
-- beside them. The evaluator is modelled on a stack with room for the tree that it is given.
--
-- Floats are the parameter `Floats`: numpy's operations on one number and its reductions of a
-- window. An array is a list; whether the clock is past the deadline of a rule at a step is the
-- parameter `late`. The classes of characters (`Classes`) and `float` of a text are parameters too.
--
-- What a row gives back of a figure written to it is the parameter `stored`; whether a second
-- factor is right and what a sealed key opens to are parameters too.
--
-- Not modelled: the recursion limit of Python in the evaluator, the texts of trees and tokens,
-- `macd_lines` and `bollinger`, log lines, the audit log, the wording of most messages, raw
-- payloads of the venue, creating bots and keys, requests served at the same time, and all parts
-- of the repository outside the files named above.
pub mod Bots
pub mod Dsl
pub mod Examples
pub mod Execution
pub mod Prelude
pub mod Risk
pub mod Series
pub mod Sim
pub mod Throttle
pub mod Trading
