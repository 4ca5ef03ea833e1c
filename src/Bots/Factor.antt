-- ===== src/Bots/Factor.antt =====
-- When a change of a bot needs the second factor: `update_bot` of
-- apps/api/quanta/api/routes/bots.py.
use catpn.Prelude.{
  ℕ, ◌≡◌, refl, inl, inr, ◌⊎◌, String, Bool, true, false, Option, none, some, arith, Bool-cases,
  ltb, ◌||◌,
}
use catpn.Prelude.Decimal.{Decimal}
use catpn.Risk.{RiskLimits}
use catpn.Bots.{Bot, is_active, User}
use catpn.Bots.Routes.{
  Answer, done, denied, broke, Desk, BotUpdate, owned_bot, require_2fa, loosened, update_bot,
  updated, update_limits, update_leverage,
}

module _ {D : Type 0} ⦃d : Decimal D⦄ (stored : D → D) (verified : User → String → Bool) where
  -- The update raises a limit or the leverage.
  abbrev limits_raised : Option (RiskLimits D) → Bot D → Bool
  limits_raised none bot = false
  limits_raised (some new) bot = loosened stored verified bot.limits new

  abbrev leverage_raised : Option ℕ → Bot D → Bool
  leverage_raised none bot = false
  leverage_raised (some new) bot = ltb bot.leverage new

  abbrev pub raises : BotUpdate stored verified → Bot D → Bool
  raises payload bot =
      limits_raised payload.new_limits bot || leverage_raised payload.new_leverage bot

  limits_factor :
      (user : User) (code : Option String) (new : Option (RiskLimits D)) (bot row : Bot D)
      → update_limits stored verified user code new bot ≡ done row
      → limits_raised new bot ≡ true
      → require_2fa verified user code ≡ none
  unfolding update_limits
  limits_factor user code none bot row e h = cc
  limits_factor user code (some new) bot row e h = ground arith

  limits_leverage :
      (user : User) (code : Option String) (new : Option (RiskLimits D)) (bot row : Bot D)
      → update_limits stored verified user code new bot ≡ done row
      → row.leverage ≡ bot.leverage
  unfolding update_limits
  limits_leverage user code none bot row e = ground arith
  limits_leverage user code (some new) bot row e = ground arith

  leverage_factor :
      (user : User) (code : Option String) (new : Option ℕ) (bot row limited : Bot D)
      → limited.leverage ≡ bot.leverage
      → update_leverage stored verified user code new limited ≡ done row
      → leverage_raised new bot ≡ true
      → require_2fa verified user code ≡ none
  unfolding update_leverage
  leverage_factor user code none bot row limited s e h = cc
  leverage_factor user code (some new) bot row limited s e h = ground arith

  updated_factor :
      (user : User) (payload : BotUpdate stored verified) (bot row : Bot D)
      → updated stored verified user payload bot ≡ done row
      → raises payload bot ≡ true
      → require_2fa verified user payload.code ≡ none
  unfolding updated
  updated_factor user payload bot row e h =
      first (update_limits stored verified user payload.code payload.new_limits bot) refl
    where
      second :
          (limited : Bot D)
          → update_limits stored verified user payload.code payload.new_limits bot ≡ done limited
          → (y : Answer (Bot D))
          → update_leverage stored verified user payload.code payload.new_leverage limited ≡ y
          → require_2fa verified user payload.code ≡ none
      second limited e₁ (denied s) e₂ =
          let clash : denied s ≡ done row = rw (e₁, updated, e₂) at e in cc
      second limited e₁ broke e₂ = let clash : broke ≡ done row = rw (e₁, updated, e₂) at e in cc
      second limited e₁ (done geared) e₂ =
          elim (Bool-cases (limits_raised payload.new_limits bot)) [
            | inl l ↦ limits_factor user payload.code payload.new_limits bot limited e₁ l
            | inr l ↦
                leverage_factor user payload.code payload.new_leverage bot geared limited
                  (limits_leverage user payload.code payload.new_limits bot limited e₁) e₂
                  (rw l at h)
          ]

      first :
          (y : Answer (Bot D))
          → update_limits stored verified user payload.code payload.new_limits bot ≡ y
          → require_2fa verified user payload.code ≡ none
      first (denied s) e₁ = let clash : denied s ≡ done row = rw (e₁, updated) at e in cc
      first broke e₁ = let clash : broke ≡ done row = rw (e₁, updated) at e in cc
      first (done limited) e₁ =
          second limited e₁
            (update_leverage stored verified user payload.code payload.new_leverage limited) refl

  -- A request to update a bot of the user that raises a limit or the leverage either came with
  -- a right second factor on an account that has one, or leaves the tables as they are.
  pub update_needs_factor :
      (user : User) (id : String) (payload : BotUpdate stored verified) (desk : Desk D)
      (bot : Bot D)
      → owned_bot user id desk ≡ some bot
      → raises payload bot ≡ true
      → (require_2fa verified user payload.code ≡ none)
        ⊎ ((update_bot stored verified user id payload desk).1 ≡ desk)
  unfolding update_bot
  update_needs_factor user id payload desk bot e h = elim (Bool-cases (is_active bot.state)) [
    | inl a ↦ inr (rw (e, update_bot, a))
    | inr a ↦ go a (updated stored verified user payload bot) refl
  ]
    where
      go :
          is_active bot.state ≡ false
          → (y : Answer (Bot D)) → updated stored verified user payload bot ≡ y
          → (require_2fa verified user payload.code ≡ none)
            ⊎ ((update_bot stored verified user id payload desk).1 ≡ desk)
      go a (denied s) f = inr (rw (e, update_bot, a, f))
      go a broke f = inr (rw (e, update_bot, a, f))
      go a (done row) f = inl (updated_factor user payload bot row f h)
