-- ===== src/Bots/Routes.antt =====
-- The handlers of apps/api/quanta/api/routes/bots.py that change a bot. A handler that raises
-- commits nothing. Whether a second factor is right is the parameter `verified`; opening a sealed
-- key is the parameter `opened`. The audit log and the time of a key's last use are left out.
use text.Mathlib.Text.{◌==◌}
use catpn.Prelude.{
  ℕ, String, Bool, not, Option, none, some, List, [], ◌∷◌, if◌then◌else◌, ◌||◌, ltb,
}
use catpn.Prelude.Decimal.{Decimal, ◌≺◌, nought}
use catpn.Prelude.Dict.{Dict, find, put, delete, values}
use catpn.Trading.{PositionMode, Credentials, Balance, ok, refused, crashed, TradingAdapter}
use catpn.Risk.{Time, RiskLimits, observe}
use catpn.Bots.{
  Bot, stopped, armed, is_active, is_halted, ExchangeKey, Setup, User, clear_halt, guard_for,
  remember_state, preflight, ready,
}

-- How a request ends: with a result, with a status of HTTP, or by another exception.
pub data Answer {ℓ} (A : Type ℓ) : Type ℓ where
  done : A → Answer A
  denied : ℕ → Answer A
  broke : Answer A

pub record Desk (D : Type 0) : Type 0 where
  pub bots : Dict (Bot D)
  pub keys : Dict ExchangeKey
  pub setups : Dict Setup

-- `_require_2fa`: the status that it raises, where it does.
unfoldable pub require_2fa : (User → String → Bool) → User → Option String → Option ℕ
require_2fa verified user none = if user.totp_enabled then some 401 else some 403
require_2fa verified user (some code) =
    if not user.totp_enabled
    then some 403
    else if code == "" || not (verified user code)
    then some 401
    else none

module _ {D : Type 0} where
  unfoldable pub owned_bot : User → String → Desk D → Option (Bot D)
  owned_bot user id desk = elim (find id desk.bots) [
    | none ↦ none
    | some bot ↦ if bot.user_id == user.user_key then some bot else none
  ]

  abbrev pub with_bot : String → Bot D → Desk D → Desk D
  with_bot id bot desk = record desk { bots = put id bot desk.bots }

  -- `delete_bot`
  unfoldable pub delete_bot : User → String → Desk D → Answer (Unit {0}) × Desk D
  delete_bot user id desk = elim (owned_bot user id desk) [
    | none ↦ (denied 404, desk)
    | some bot ↦
        if is_active bot.state
        then (denied 409, desk)
        else (done tt, record desk { bots = delete id desk.bots })
  ]

  -- `stop_bot`
  unfoldable pub stop_bot : User → String → Desk D → Answer (Unit {0}) × Desk D
  stop_bot user id desk = elim (owned_bot user id desk) [
    | none ↦ (denied 404, desk)
    | some bot ↦ (done tt, with_bot id (record bot { state = stopped; armed_at = none }) desk)
  ]

  -- the route `clear_halt`
  unfoldable pub acknowledge_halt : User → String → Desk D → Answer (Unit {0}) × Desk D
  acknowledge_halt user id desk = elim (owned_bot user id desk) [
    | none ↦ (denied 404, desk)
    | some bot ↦
        if is_halted bot.state
        then (done tt, with_bot id (clear_halt bot) desk)
        else (denied 409, desk)
  ]

module _ {D : Type 0} ⦃d : Decimal D⦄ (stored : D → D) (verified : User → String → Bool) where
  -- `BotUpdate`
  pub record BotUpdate : Type 0 where
    pub new_name : Option String
    pub new_leverage : Option ℕ
    pub new_limits : Option (RiskLimits D)
    pub code : Option String

  -- A limit is raised.
  unfoldable pub loosened : RiskLimits D → RiskLimits D → Bool
  loosened old new =
      old.max_position_notional ≺ new.max_position_notional
      || old.max_daily_loss ≺ new.max_daily_loss
      || old.max_drawdown_percent ≺ new.max_drawdown_percent
      || ltb old.max_leverage new.max_leverage
      || ltb old.max_orders_per_minute new.max_orders_per_minute

  abbrev pub stored_limits : RiskLimits D → RiskLimits D
  stored_limits new = record new {
    max_position_notional = stored new.max_position_notional;
    max_daily_loss = stored new.max_daily_loss;
    max_drawdown_percent = stored new.max_drawdown_percent;
  }

  -- The limits of an update, where the second factor that they need is given.
  unfoldable pub update_limits :
      User → Option String → Option (RiskLimits D) → Bot D → Answer (Bot D)
  update_limits user code none bot = done bot
  update_limits user code (some new) bot =
      let changed = record bot { limits = stored_limits new } in
      if loosened bot.limits new
      then elim (require_2fa verified user code) [ none ↦ done changed | some s ↦ denied s ]
      else done changed

  unfoldable pub update_leverage : User → Option String → Option ℕ → Bot D → Answer (Bot D)
  update_leverage user code none bot = done bot
  update_leverage user code (some new) bot =
      let changed = record bot { leverage = new } in
      if ltb bot.leverage new
      then elim (require_2fa verified user code) [ none ↦ done changed | some s ↦ denied s ]
      else done changed

  unfoldable pub update_name : Option String → Bot D → Bot D
  update_name none bot = bot
  update_name (some name) bot = record bot { name = name }

  -- The changes of `update_bot` to the row.
  unfoldable pub updated : User → BotUpdate → Bot D → Answer (Bot D)
  updated user payload bot = elim (update_limits user payload.code payload.new_limits bot) [
    | denied s ↦ denied s
    | broke ↦ broke
    | done limited ↦ elim (update_leverage user payload.code payload.new_leverage limited) [
      | denied s ↦ denied s
      | broke ↦ broke
      | done geared ↦ done (update_name payload.new_name geared)
    ]
  ]

  -- `update_bot`
  unfoldable pub update_bot : User → String → BotUpdate → Desk D → Answer (Unit {0}) × Desk D
  update_bot user id payload desk = elim (owned_bot user id desk) [
    | none ↦ (denied 404, desk)
    | some bot ↦
        if is_active bot.state then (denied 409, desk) else elim (updated user payload bot) [
          | denied s ↦ (denied s, desk)
          | broke ↦ (broke, desk)
          | done row ↦ (done tt, with_bot id row desk)
        ]
  ]

  -- The row that arming writes; none where the guard cannot be built.
  unfoldable pub armed_row : Time → Option D → Bot D → Option (Bot D)
  armed_row now none bot = some (record bot { state = armed; armed_at = some now })
  armed_row now (some equity) bot =
      let row = record bot { state = armed; armed_at = some now } in
      elim (guard_for now row) [
        | none ↦ none
        | some guard ↦ some (remember_state stored (observe equity now guard.1) equity row)
      ]

  -- `arm_bot` once the venue was asked.
  unfoldable pub arm_checked :
      User
      → String
      → Time
      → String
      → Bot D
      → ExchangeKey
      → Setup
      → Option PositionMode
      → Option D
      → Desk D
      → Answer (Unit {0}) × Desk D
  arm_checked user ip now id bot key setup mode equity desk =
      if ready (preflight (values desk.bots) bot user key setup ip mode equity)
      then elim (armed_row now equity bot) [
        | none ↦ (broke, desk)
        | some row ↦ (done tt, with_bot id row desk)
      ]
      else (denied 409, desk)

  module _ {V : Type 0} (venue : TradingAdapter D V)
      (opened : ExchangeKey → Option Credentials) where
    abbrev pub first_equity : List (Balance D) → D
    first_equity [] = nought
    first_equity (b ∷ bs) = b.equity

    -- `_account_snapshot`
    unfoldable pub account_snapshot : ExchangeKey → V → Answer (Option PositionMode × Option D) × V
    account_snapshot key v = elim (opened key) [
      | none ↦ (done (none, none), v)
      | some credentials ↦
          let (asked, v₁) = venue.position_mode credentials v in
          let (shown, v₂) = venue.balances credentials v₁ in
          elim asked [
            | refused e ↦ (done (none, none), v₁)
            | crashed ↦ (broke, v₁)
            | ok mode ↦ elim shown [
              | refused e ↦ (done (none, none), v₂)
              | crashed ↦ (broke, v₂)
              | ok balances ↦ (done (some mode, some (first_equity balances)), v₂)
            ]
          ]
    ]

    -- `arm_bot` for a bot with its key and setup.
    unfoldable pub arm_with :
        User
        → String
        → Time
        → String
        → Bot D
        → ExchangeKey
        → Setup
        → Desk D
        → V
        → (Answer (Unit {0}) × Desk D) × V
    arm_with user ip now id bot key setup desk v =
        let (snapshot, v') = account_snapshot key v in
        elim snapshot [
          | done seen ↦ (arm_checked user ip now id bot key setup seen.0 seen.1 desk, v')
          | denied s ↦ ((denied s, desk), v')
          | broke ↦ ((broke, desk), v')
        ]

    -- `arm_bot`
    unfoldable pub arm_bot :
        User
        → Option String
        → String
        → Time
        → String
        → Desk D
        → V
        → (Answer (Unit {0}) × Desk D) × V
    arm_bot user code ip now id desk v = elim (owned_bot user id desk) [
      | none ↦ ((denied 404, desk), v)
      | some bot ↦ elim (require_2fa verified user code) [
        | some s ↦ ((denied s, desk), v)
        | none ↦
            if is_halted bot.state
            then ((denied 409, desk), v)
            else elim (find bot.exchange_key_id desk.keys) [
              | none ↦ ((denied 404, desk), v)
              | some key ↦ elim (find bot.setup_id desk.setups) [
                | none ↦ ((denied 404, desk), v)
                | some setup ↦ arm_with user ip now id bot key setup desk v
              ]
            ]
      ]
    ]
