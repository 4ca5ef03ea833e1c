-- ===== src/Bots/Arming.antt =====
-- What it takes to arm a bot: `arm_bot` of apps/api/quanta/api/routes/bots.py and `preflight` of
-- apps/api/quanta/services/bot_service.py.
use text.Mathlib.Text.{◌==◌}
use text.Mathlib.TextEquality.{eq_iff}
use catpn.Prelude.{
  ℕ, ◌≡◌, ◌≢◌, ◌≤◌, refl, ◌∙◌, sym, ap, ◌⊎◌, inl, inr, String, Bool, true, false, Option, none,
  some, [], arith, Bool-cases, Option-cases, any_of, keep_if,
}
use catpn.Prelude.Decimal.{Decimal}
use catpn.Prelude.Dict.{find, values}
use catpn.Trading.{PositionMode, is_hedge, Credentials, TradingAdapter}
use catpn.Risk.{Time}
use catpn.Bots.{Bot, is_halted, ExchangeKey, Setup, User, preflight, ready, competes}
use catpn.Bots.Routes.{
  Answer, done, denied, broke, Desk, require_2fa, owned_bot, with_bot, armed_row, arm_checked,
  account_snapshot, arm_with, arm_bot,
}

module _ {D V : Type 0} ⦃d : Decimal D⦄ (stored : D → D) (verified : User → String → Bool)
    (venue : TradingAdapter D V) (opened : ExchangeKey → Option Credentials) (user : User)
    (code : Option String) (ip : String) (now : Time) (id : String) (desk : Desk D) (v : V) where
  abbrev request : (Answer (Unit {0}) × Desk D) × V
  request = arm_bot stored verified venue opened user code ip now id desk v

  -- The two ways of the request: turned down with the tables as they are, or the row is armed.
  pub data Arming : Type 0 where
    turned_down : request.0.1 ≡ desk → request.0.0 ≢ done tt → Arming
    went :
        (bot : Bot D) (key : ExchangeKey) (setup : Setup) (mode : Option PositionMode)
        (equity : Option D) (row : Bot D)
        → owned_bot user id desk ≡ some bot
        → require_2fa verified user code ≡ none
        → is_halted bot.state ≡ false
        → find bot.exchange_key_id desk.keys ≡ some key
        → find bot.setup_id desk.setups ≡ some setup
        → ready (preflight (values desk.bots) bot user key setup ip mode equity) ≡ true
        → armed_row stored verified now equity bot ≡ some row
        → request.0 ≡ (done tt, with_bot id row desk)
        → Arming

  down : (s : ℕ) → request.0 ≡ (denied s, desk) → Arming
  down s w =
      turned_down (ap (λ t. t.1) w)
        (λ h. let clash : denied s ≡ done tt = ap (λ t. t.0) (sym w) ∙ h in cc)

  down_broke : request.0 ≡ (broke, desk) → Arming
  down_broke w =
      turned_down (ap (λ t. t.1) w)
        (λ h. let clash : broke ≡ done tt = ap (λ t. t.0) (sym w) ∙ h in cc)

  arming_with :
      (bot : Bot D) (key : ExchangeKey) (setup : Setup)
      → owned_bot user id desk ≡ some bot
      → require_2fa verified user code ≡ none
      → is_halted bot.state ≡ false
      → find bot.exchange_key_id desk.keys ≡ some key
      → find bot.setup_id desk.setups ≡ some setup
      → request ≡ arm_with stored verified venue opened user ip now id bot key setup desk v
      → Arming
  unfolding arm_with arm_checked
  arming_with bot key setup e₁ e₂ e₃ e₄ e₅ w =
      go (account_snapshot stored verified venue opened key v) refl
    where
      go :
          (x : Answer (Option PositionMode × Option D) × V)
          → account_snapshot stored verified venue opened key v ≡ x
          → Arming
      go (denied s, v') e = down s (ap (λ t. t.0) w ∙ rw (e, arm_with))
      go (broke, v') e = down_broke (ap (λ t. t.0) w ∙ rw (e, arm_with))
      go (done (mode, equity), v') e =
          elim (Bool-cases
            (ready (preflight (values desk.bots) bot user key setup ip mode equity))) [
              | inl fit ↦ elim (Option-cases (armed_row stored verified now equity bot)) [
                | inl e₆ ↦ down_broke (ap (λ t. t.0) w ∙ rw (e, arm_with, fit, arm_checked, e₆))
                | inr (row, e₆) ↦
                    let whole : request.0 ≡ (done tt, with_bot id row desk) =
                      ap (λ t. t.0) w ∙ rw (e, arm_with, fit, arm_checked, e₆) in
                    went bot key setup mode equity row e₁ e₂ e₃ e₄ e₅ fit e₆ whole
              ]
              | inr unfit ↦ down 409 (ap (λ t. t.0) w ∙ rw (e, arm_with, unfit, arm_checked))
            ]

  pub arming : Arming
  unfolding arm_bot
  arming = elim (Option-cases (owned_bot user id desk)) [
    | inl e₁ ↦ down 404 (rw (e₁, arm_bot))
    | inr (bot, e₁) ↦ elim (Option-cases (require_2fa verified user code)) [
      | inr (s, e₂) ↦ down s (rw (e₁, arm_bot, e₂))
      | inl e₂ ↦ elim (Bool-cases (is_halted bot.state)) [
        | inl e₃ ↦ down 409 (rw (e₁, arm_bot, e₂, e₃))
        | inr e₃ ↦ elim (Option-cases (find bot.exchange_key_id desk.keys)) [
          | inl e₄ ↦ down 404 (rw (e₁, arm_bot, e₂, e₃, e₄))
          | inr (key, e₄) ↦ elim (Option-cases (find bot.setup_id desk.setups)) [
            | inl e₅ ↦ down 404 (rw (e₁, arm_bot, e₂, e₃, e₄, e₅))
            | inr (setup, e₅) ↦
                arming_with bot key setup e₁ e₂ e₃ e₄ e₅ (rw (e₁, arm_bot, e₂, e₃, e₄, e₅))
          ]
        ]
      ]
    ]
  ]

  -- If a bot was armed, the second factor was on and right, the bot is the user's and had not
  -- halted, its setup was promoted, its key can trade and is pinned to the server's address,
  -- its leverage is within its limit, and no other active bot of the user trades the symbol on
  -- the key unless the bot is in hedge mode.
  pub arm_bot_requires :
      request.0.0 ≡ done tt
      → (bot : Bot D) × (key : ExchangeKey) × (setup : Setup) × (find id desk.bots ≡ some bot)
        × (bot.user_id ≡ user.user_key)
        × (require_2fa verified user code ≡ none)
        × (is_halted bot.state ≡ false)
        × (find bot.exchange_key_id desk.keys ≡ some key)
        × (find bot.setup_id desk.setups ≡ some setup)
        × (setup.use_in_bot ≡ true)
        × (key.can_trade ≡ true)
        × (any_of (λ x. x == ip) key.ip_whitelist ≡ true)
        × (bot.leverage ≤ bot.limits.max_leverage)
        × ((is_hedge bot.position_mode ≡ true) ⊎ (keep_if (competes bot) (values desk.bots) ≡ []))
  unfolding ready preflight owned_bot
  arm_bot_requires h = elim arming [
    | turned_down same undone ↦ absurd (undone h)
    | went bot key setup mode equity row mine second halted_not keyed promoted fit e w ↦ (
      bot,
      key,
      setup,
      ground arith,
      ground (arith, eq_iff bot.user_id user.user_key),
      second,
      halted_not,
      keyed,
      promoted,
      ground arith,
      ground arith,
      ground arith,
      ground arith,
      ground arith,
    )
  ]
