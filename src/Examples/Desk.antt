-- ===== src/Examples/Desk.antt =====
-- Examples for apps/api/quanta/api/routes/bots.py and apps/api/quanta/services/bot_service.py.
use text.Mathlib.Text.{◌==◌}
use text.Mathlib.TextEquality.{eq_iff}
use catpn.Prelude.{
  ◌≡◌, ◌≤◌, ◌⊎◌, refl, sym, ◌∙◌, ap, subst, inl, inr, String, Bool, true, false, Option, none, some,
  [], ◌∷◌, any_of, keep_if, Bool-cases, arith,
}
use catpn.Prelude.Int.{ℤ, pos, whole}
use catpn.Prelude.Dict.{find, values, put}
use catpn.Trading.{one_way, isolated, is_hedge, Credentials, is_ip_restricted, allows_ip}
use catpn.Risk.{RiskLimits, RiskState, limits_valid, check_equity, day_start, observe, roll_day}
use catpn.Prelude.Decimal.{dec_sum_from}
use catpn.Sim.Positions.{balance_of, available, pnl, unrealised, used_margin}
use catpn.Sim.{account_of}
use catpn.Sim.Cancel.{position_mode, balances}
use catpn.Sim.Venue.{sim_adapter}
use catpn.Bots.{
  Bot, stopped, is_halted, ExchangeKey, Setup, User, competes, limits_of, guard_for, remember_state,
  preflight, ready,
}
use catpn.Bots.Routes.{
  Desk, BotUpdate, owned_bot, require_2fa, arm_bot, arm_with, arm_checked, armed_row,
  account_snapshot, update_bot,
}
use catpn.Bots.Memory.{guard_for-keeps_damage}
use catpn.Bots.Arming.{arm_bot_requires}
use catpn.Bots.Exclusive.{IsExclusive, shares}
use catpn.Bots.Exclusive.Requests.{arms, no_more, and_then, Requests-IsExclusive}
use catpn.Bots.Factor.{update_needs_factor}
use catpn.Bots.Routes.{done}
use catpn.Bots.KillSwitch.{KillAnswer, kill_switch, halted_row, kill_switch_halts}
use catpn.Sim.Venue.Killed.{Narrowed, sim_adapter-Serves}
use catpn.Examples.Ordering.{venue-Narrowed}
use catpn.Examples.{digest, clock, limits, memory, venue, credentials}

abbrev idle : Bot ℤ
idle = record {
  id = "bot";
  user_id = "user";
  setup_id = "setup";
  exchange_key_id = "api";
  name = "first";
  state = stopped;
  halt_reason = none;
  halt_detail = none;
  halted_at = none;
  symbol = "BTC";
  interval = "1h";
  leverage = 2;
  margin_mode = isolated;
  position_mode = one_way;
  limits = limits;
  day_start_equity = none;
  peak_equity = none;
  day_started_at = none;
  equity = none;
  armed_at = none;
}

abbrev api : ExchangeKey
api = record { key_id = "api"; can_trade = true; ip_whitelist = "10.0.0.1" ∷ [] }

abbrev setup : Setup
setup = record { setup_owner = "user"; use_in_bot = true }

abbrev desk : Desk ℤ
desk = record {
  bots = ("bot", idle) ∷ [];
  keys = ("api", api) ∷ [];
  setups = ("setup", setup) ∷ [];
}

abbrev user : User
user = record { user_key = "user"; totp_enabled = true }

abbrev stored : ℤ → ℤ
stored x = x

abbrev verified : User → String → Bool
verified u code = code == "123456"

abbrev opened : ExchangeKey → Option Credentials
opened key = some credentials

guard_for-keeps_damage_example :
    (guard : RiskLimits ℤ × RiskState ℤ) × (guard_for 90
        (remember_state stored memory (pos 480) idle)
      ≡ some guard)
    × ((check_equity guard.0 (pos 300) 120 guard.1).0
        ≡ (check_equity limits (pos 300) 120 memory).0)
unfolding limits_valid
guard_for-keeps_damage_example =
    guard_for-keeps_damage stored memory (pos 480) idle 90 refl refl refl (pos 300) 120

arm_bot_requires_example :
    (bot : Bot ℤ) × (key : ExchangeKey) × (setup : Setup) × (find "bot" desk.bots ≡ some bot)
    × (bot.user_id ≡ "user")
    × (require_2fa verified user (some "123456") ≡ none)
    × (is_halted bot.state ≡ false)
    × (find bot.exchange_key_id desk.keys ≡ some key)
    × (find bot.setup_id desk.setups ≡ some setup)
    × (setup.use_in_bot ≡ true)
    × (key.can_trade ≡ true)
    × (any_of (λ x. x == "10.0.0.1") key.ip_whitelist ≡ true)
    × (bot.leverage ≤ bot.limits.max_leverage)
    × ((is_hedge bot.position_mode ≡ true) ⊎ (keep_if (competes bot) (values desk.bots) ≡ []))
unfolding arm_bot owned_bot find require_2fa arm_with account_snapshot position_mode account_of
    is_ip_restricted allows_ip balances arm_checked ready preflight values competes balance_of
    dec_sum_from armed_row guard_for limits_of limits_valid remember_state put day_start observe
    roll_day available pnl unrealised used_margin
arm_bot_requires_example =
    arm_bot_requires stored verified sim_adapter opened user (some "123456") "10.0.0.1" 90 "bot"
      desk venue refl

abbrev raised : BotUpdate stored verified
raised = record { new_name = none; new_leverage = some 4; new_limits = none; code = none }

update_needs_factor_example :
    (require_2fa verified user none ≡ none)
    ⊎ ((update_bot stored verified user "bot" raised desk).1 ≡ desk)
unfolding owned_bot find
update_needs_factor_example =
    update_needs_factor stored verified user "bot" raised desk idle refl refl

idle-shares : (b : Bot ℤ) → shares idle b ≡ false
idle-shares b = elim (Bool-cases (is_hedge b.position_mode)) [
  | inl h ↦ rw h refl
  | inr h ↦ rw h refl
]

-- One row shares no book.
desk-IsExclusive : IsExclusive desk.bots
unfolding find
desk-IsExclusive = record {
  keyed = λ k b e. elim (Bool-cases ("bot" == k)) [
    | inl s ↦
        let is_b : idle ≡ b = ground (arith, e, s) in
        ap (λ r. r.id) (sym is_b) ∙ (eq_iff "bot" k).0 s
    | inr s ↦ ground (arith, e, s)
  ];
  apart = λ j k a b e f. elim (Bool-cases ("bot" == j)) [
    | inl s ↦
        let is_a : idle ≡ a = ground (arith, e, s) in
        subst (λ r. shares r b ≡ false) is_a (idle-shares b)
    | inr s ↦ ground (arith, e, s)
  ];
}

Requests-IsExclusive_example :
    IsExclusive
      (arm_bot stored verified sim_adapter opened user
        (some "123456")
        "10.0.0.1"
        90
        "bot"
        desk
        venue).0.1.bots
Requests-IsExclusive_example =
    Requests-IsExclusive stored verified sim_adapter opened
      (and_then (arms user (some "123456") "10.0.0.1" 90 "bot" desk venue) (no_more _))
      desk-IsExclusive

kill_switch_halts_example :
    let run =
      kill_switch digest clock sim_adapter verified opened user
        (some "123456")
        true
        90
        desk
        venue in
    ((answer : KillAnswer ℤ) × (run.0.0 ≡ done answer))
    × ((id : String) → find id run.0.1.bots ≡ halted_row user 90 (find id desk.bots))
    × Narrowed venue run.1
unfolding require_2fa
kill_switch_halts_example =
    kill_switch_halts digest clock sim_adapter verified opened (Narrowed venue)
      (sim_adapter-Serves venue) user (some "123456") 90 desk venue refl venue-Narrowed
