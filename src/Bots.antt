-- ===== src/Bots.antt =====
-- apps/api/quanta/services/bot_service.py: bots as rows, what a restart rebuilds of their risk
-- memory, halting, and the checks before a bot may be armed. The rows are those of
-- apps/api/quanta/models/bot.py, with the columns that the program reads here; a figure goes into
-- a row as a float of a few places, which is the parameter `stored`. Labels and details of a check
-- are left out but for its key.
pub mod Routes
pub mod Memory
pub mod Arming
pub mod Exclusive
pub mod Factor
pub mod KillSwitch
use text.Mathlib.Text.{◌==◌}
use catpn.Prelude.{
  ℕ, zero, suc, String, Bool, true, false, not, Option, none, some, List, [], ◌∷◌, ◌++◌, leb,
  all_of, any_of, keep_if, if◌then◌else◌, ◌&&◌, ◌||◌,
}
use catpn.Prelude.Decimal.{Decimal, ◌≼◌, nought}
use catpn.Prelude.Dict.{Dict, values}
use catpn.Trading.{PositionMode, is_hedge, same_mode, MarginMode, Credentials}
use catpn.Risk.{Time, RiskLimits, RiskState, limits_valid}
use catpn.Execution.{BotContext}

pub data BotState : Type 0 where
  stopped armed running halted : BotState

-- state in ("armed", "running")
abbrev pub is_active : BotState → Bool
is_active armed = true
is_active running = true
is_active _ = false

abbrev pub is_halted : BotState → Bool
is_halted halted = true
is_halted _ = false

pub record Bot (D : Type 0) : Type 0 where
  pub id : String
  pub user_id : String
  pub setup_id : String
  pub exchange_key_id : String
  pub name : String
  pub state : BotState
  pub halt_reason : Option String
  pub halt_detail : Option String
  pub halted_at : Option Time
  pub symbol : String
  pub interval : String
  pub leverage : ℕ
  pub margin_mode : MarginMode
  pub position_mode : PositionMode
  pub limits : RiskLimits D
  pub day_start_equity : Option D
  pub peak_equity : Option D
  pub day_started_at : Option Time
  pub equity : Option D
  pub armed_at : Option Time

pub record ExchangeKey : Type 0 where
  pub key_id : String
  pub can_trade : Bool
  pub ip_whitelist : List String

pub record Setup : Type 0 where
  pub setup_owner : String
  pub use_in_bot : Bool

pub record User : Type 0 where
  pub user_key : String
  pub totp_enabled : Bool

-- The first characters of a text, as in detail[:400].
unfoldable pub first_chars : ℕ → String → String
first_chars zero s = ""
first_chars (suc n) String.[] = ""
first_chars (suc n) (String.◌∷◌ c s) = String.◌∷◌ c (first_chars n s)

-- The checks: paper, key_trade, key_ip, totp, symbol, mode, leverage and limits.
pub data Check : Type 0 where
  paper_passed key_can_trade key_pinned second_factor_on symbol_free mode_agrees leverage_within
        limits_fit :
      Check

abbrev pub or_else {ℓ} : {A : Type ℓ} → Option A → A → A
or_else none x = x
or_else (some y) x = y

module _ {D : Type 0} where
  -- `halt`
  unfoldable pub halt : String → String → Time → Bot D → Bot D
  halt reason detail now bot = record bot {
    state = halted;
    halt_reason = some reason;
    halt_detail = some (first_chars 400 detail);
    halted_at = some now;
  }

  -- `clear_halt`
  unfoldable pub clear_halt : Bot D → Bot D
  clear_halt bot = record bot {
    state = stopped;
    halt_reason = none;
    halt_detail = none;
    halted_at = none;
  }

  -- `context_of`
  unfoldable pub context_of : Bot D → Credentials → BotContext
  context_of bot credentials = record {
    bot_id = bot.id;
    symbol = bot.symbol;
    leverage = bot.leverage;
    margin_mode = bot.margin_mode;
    position_mode = bot.position_mode;
    credentials = credentials;
  }

  -- The row of another bot that trades the symbol on the key.
  unfoldable pub competes : Bot D → Bot D → Bool
  competes bot other =
      other.user_id == bot.user_id
      && other.exchange_key_id == bot.exchange_key_id
      && other.symbol == bot.symbol
      && not (other.id == bot.id)
      && is_active other.state

  abbrev pub no_one : List (Bot D) → Bool
  no_one [] = true
  no_one (b ∷ bs) = false

  abbrev pub mode_matches : Option PositionMode → Bot D → Bool
  mode_matches none bot = false
  mode_matches (some mode) bot = same_mode mode bot.position_mode

module _ {D : Type 0} ⦃d : Decimal D⦄ where
  -- `limits_of`: none where `RiskLimits.__post_init__` raises a `ValueError`.
  unfoldable pub limits_of : Bot D → Option (RiskLimits D)
  limits_of bot = if limits_valid bot.limits then some bot.limits else none

  -- `guard_for`: the limits and the state of the guard, from the row.
  unfoldable pub guard_for : Time → Bot D → Option (RiskLimits D × RiskState D)
  guard_for now bot =
      let equity = or_else bot.equity nought in
      let state : RiskState D = record {
        day_start_equity = or_else bot.day_start_equity equity;
        peak_equity = or_else bot.peak_equity equity;
        day_started_at = or_else bot.day_started_at now;
        recent_orders = [];
      } in
      elim (limits_of bot) [ none ↦ none | some limits ↦ some (limits, state) ]

  -- `remember_state`
  unfoldable pub remember_state : (D → D) → RiskState D → D → Bot D → Bot D
  remember_state stored s equity bot = record bot {
    equity = some (stored equity);
    day_start_equity = some (stored s.day_start_equity);
    peak_equity = some (stored s.peak_equity);
    day_started_at = some s.day_started_at;
  }

  abbrev pub loss_fits : Option D → Bot D → Bool
  loss_fits none bot = false
  loss_fits (some equity) bot = bot.limits.max_daily_loss ≼ equity

  -- `preflight`: each check with its result; `bots` are the rows of the table.
  unfoldable pub preflight :
      List (Bot D)
      → Bot D
      → User
      → ExchangeKey
      → Setup
      → String
      → Option PositionMode
      → Option D
      → List (Check × Bool)
  preflight bots bot user key setup server_ip account_mode account_equity =
      (paper_passed, setup.use_in_bot)
      ∷ (key_can_trade, key.can_trade)
      ∷ (key_pinned, not (server_ip == "") && any_of (λ ip. ip == server_ip) key.ip_whitelist)
      ∷ (second_factor_on, user.totp_enabled)
      ∷ (symbol_free, is_hedge bot.position_mode || no_one (keep_if (competes bot) bots))
      ∷ (mode_agrees, mode_matches account_mode bot)
      ∷ (leverage_within, leb bot.leverage bot.limits.max_leverage)
      ∷ (limits_fit, loss_fits account_equity bot)
      ∷ []

-- `Preflight.ready`
unfoldable pub ready : List (Check × Bool) → Bool
ready checks = all_of (λ c. c.1) checks
