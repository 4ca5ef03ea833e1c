-- ===== src/Bots/Exclusive/Requests.antt =====
-- Any sequence of requests to the handlers of apps/api/quanta/api/routes/bots.py that arm, stop,
-- clear, change and delete bots.
use catpn.Prelude.{
  ℕ, ◌≡◌, refl, ◌∙◌, subst, inl, inr, String, Bool, false, Option, none, some, arith, Bool-cases,
  Option-cases,
}
use catpn.Prelude.Decimal.{Decimal}
use catpn.Trading.{Credentials, TradingAdapter}
use catpn.Risk.{Time, RiskLimits}
use catpn.Bots.{Bot, is_active, is_halted, ExchangeKey, User, stopped, clear_halt}
use catpn.Bots.Routes.{
  Answer, done, denied, broke, Desk, BotUpdate, owned_bot, stored_limits, delete_bot, stop_bot,
  acknowledge_halt, update_bot, updated, update_limits, update_leverage, update_name, arm_bot,
}
use catpn.Bots.Exclusive.{
  IsExclusive, Calms, calm-IsExclusive, delete-IsExclusive, owned, arm-IsExclusive,
}

module _ {D V : Type 0} ⦃d : Decimal D⦄ (stored : D → D) (verified : User → String → Bool)
    (venue : TradingAdapter D V) (opened : ExchangeKey → Option Credentials) where
  -- What one request makes of the tables; the venue may be in any state.
  pub data Served : Desk D → Desk D → Type 0 where
    arms :
        (user : User) (code : Option String) (ip : String) (now : Time) (id : String)
        (desk : Desk D) (v : V)
        → Served desk (arm_bot stored verified venue opened user code ip now id desk v).0.1
    stops : (user : User) (id : String) (desk : Desk D) → Served desk (stop_bot user id desk).1
    clears :
        (user : User) (id : String) (desk : Desk D) → Served desk (acknowledge_halt user id desk).1
    updates :
        (user : User) (id : String) (payload : BotUpdate stored verified) (desk : Desk D)
        → Served desk (update_bot stored verified user id payload desk).1
    deletes : (user : User) (id : String) (desk : Desk D) → Served desk (delete_bot user id desk).1

  pub data Requests : Desk D → Desk D → Type 0 where
    no_more : (desk : Desk D) → Requests desk desk
    and_then :
        {before between after : Desk D}
        → Served before between
        → Requests between after
        → Requests before after

  Calms-refl : (bot : Bot D) → Calms bot bot
  Calms-refl bot = record {
    same_id = refl;
    same_user = refl;
    same_key = refl;
    same_symbol = refl;
    same_mode = refl;
    calmer = λ h. h;
  }

  Calms-trans : (a b c : Bot D) → Calms a b → Calms b c → Calms a c
  Calms-trans a b c p q = record {
    same_id = q.same_id ∙ p.same_id;
    same_user = q.same_user ∙ p.same_user;
    same_key = q.same_key ∙ p.same_key;
    same_symbol = q.same_symbol ∙ p.same_symbol;
    same_mode = q.same_mode ∙ p.same_mode;
    calmer = λ h. q.calmer (p.calmer h);
  }

  done_inj : {x y : Bot D} → done x ≡ done y → x ≡ y
  done_inj e = cc

  limits-Calms :
      (user : User) (code : Option String) (new : Option (RiskLimits D)) (bot row : Bot D)
      → update_limits stored verified user code new bot ≡ done row
      → Calms bot row
  unfolding update_limits
  limits-Calms user code none bot row e = subst (Calms bot) (done_inj e) (Calms-refl bot)
  limits-Calms user code (some new) bot row e =
      let same : record bot { limits = stored_limits stored verified new } ≡ row = ground arith in
      subst (Calms bot) same (record {
        same_id = refl;
        same_user = refl;
        same_key = refl;
        same_symbol = refl;
        same_mode = refl;
        calmer = λ h. h;
      })

  leverage-Calms :
      (user : User) (code : Option String) (new : Option ℕ) (bot row : Bot D)
      → update_leverage stored verified user code new bot ≡ done row
      → Calms bot row
  unfolding update_leverage
  leverage-Calms user code none bot row e = subst (Calms bot) (done_inj e) (Calms-refl bot)
  leverage-Calms user code (some new) bot row e =
      let same : record bot { leverage = new } ≡ row = ground arith in
      subst (Calms bot) same (record {
        same_id = refl;
        same_user = refl;
        same_key = refl;
        same_symbol = refl;
        same_mode = refl;
        calmer = λ h. h;
      })

  name-Calms : (new : Option String) (bot : Bot D) → Calms bot (update_name stored verified new bot)
  unfolding update_name
  name-Calms none bot = Calms-refl bot
  name-Calms (some new) bot = record {
    same_id = refl;
    same_user = refl;
    same_key = refl;
    same_symbol = refl;
    same_mode = refl;
    calmer = λ h. h;
  }

  updated-Calms :
      (user : User) (payload : BotUpdate stored verified) (bot row : Bot D)
      → updated stored verified user payload bot ≡ done row
      → Calms bot row
  unfolding updated
  updated-Calms user payload bot row e =
      first (update_limits stored verified user payload.code payload.new_limits bot) refl
    where
      second :
          (limited : Bot D)
          → Calms bot limited
          → update_limits stored verified user payload.code payload.new_limits bot ≡ done limited
          → (y : Answer (Bot D))
          → update_leverage stored verified user payload.code payload.new_leverage limited ≡ y
          → Calms bot row
      second limited c e₁ (denied s) e₂ =
          let clash : denied s ≡ done row = rw (e₁, updated, e₂) at e in cc
      second limited c e₁ broke e₂ = let clash : broke ≡ done row = rw (e₁, updated, e₂) at e in cc
      second limited c e₁ (done geared) e₂ =
          let is_row : update_name stored verified payload.new_name geared ≡ row =
            done_inj (rw (e₁, updated, e₂) at e) in
          subst (Calms bot) is_row (
            Calms-trans bot geared (update_name stored verified payload.new_name geared)
              (Calms-trans bot limited geared c
                (leverage-Calms user payload.code payload.new_leverage limited geared e₂))
              (name-Calms payload.new_name geared))

      first :
          (y : Answer (Bot D))
          → update_limits stored verified user payload.code payload.new_limits bot ≡ y
          → Calms bot row
      first (denied s) e₁ = let clash : denied s ≡ done row = rw (e₁, updated) at e in cc
      first broke e₁ = let clash : broke ≡ done row = rw (e₁, updated) at e in cc
      first (done limited) e₁ =
          second limited (limits-Calms user payload.code payload.new_limits bot limited e₁) e₁
            (update_leverage stored verified user payload.code payload.new_leverage limited) refl

  stop-IsExclusive :
      (user : User) (id : String) (desk : Desk D)
      → IsExclusive desk.bots
      → IsExclusive (stop_bot user id desk).1.bots
  unfolding stop_bot
  stop-IsExclusive user id desk x = elim (Option-cases (owned_bot user id desk)) [
    | inl e ↦ rw (e, stop_bot) x
    | inr (bot, e) ↦
        rw (e, stop_bot)
          (calm-IsExclusive desk.bots id bot (record bot { state = stopped; armed_at = none }) x
            (owned stored verified user id desk bot e)
            (record {
              same_id = refl;
              same_user = refl;
              same_key = refl;
              same_symbol = refl;
              same_mode = refl;
              calmer = λ h. refl;
            }))
  ]

  clear-IsExclusive :
      (user : User) (id : String) (desk : Desk D)
      → IsExclusive desk.bots
      → IsExclusive (acknowledge_halt user id desk).1.bots
  unfolding acknowledge_halt clear_halt
  clear-IsExclusive user id desk x = elim (Option-cases (owned_bot user id desk)) [
    | inl e ↦ rw (e, acknowledge_halt) x
    | inr (bot, e) ↦ elim (Bool-cases (is_halted bot.state)) [
      | inr h ↦ rw (e, acknowledge_halt, h) x
      | inl h ↦
          rw (e, acknowledge_halt, h)
            (calm-IsExclusive desk.bots id bot (clear_halt bot) x
              (owned stored verified user id desk bot e)
              (record {
                same_id = refl;
                same_user = refl;
                same_key = refl;
                same_symbol = refl;
                same_mode = refl;
                calmer = λ h. refl;
              }))
    ]
  ]

  delete_bot-IsExclusive :
      (user : User) (id : String) (desk : Desk D)
      → IsExclusive desk.bots
      → IsExclusive (delete_bot user id desk).1.bots
  unfolding delete_bot
  delete_bot-IsExclusive user id desk x = elim (Option-cases (owned_bot user id desk)) [
    | inl e ↦ rw (e, delete_bot) x
    | inr (bot, e) ↦ elim (Bool-cases (is_active bot.state)) [
      | inl h ↦ rw (e, delete_bot, h) x
      | inr h ↦ rw (e, delete_bot, h) (delete-IsExclusive desk.bots id x)
    ]
  ]

  update-IsExclusive :
      (user : User) (id : String) (payload : BotUpdate stored verified) (desk : Desk D)
      → IsExclusive desk.bots
      → IsExclusive (update_bot stored verified user id payload desk).1.bots
  unfolding update_bot
  update-IsExclusive user id payload desk x = elim (Option-cases (owned_bot user id desk)) [
    | inl e ↦ rw (e, update_bot) x
    | inr (bot, e) ↦ elim (Bool-cases (is_active bot.state)) [
      | inl h ↦ rw (e, update_bot, h) x
      | inr h ↦ go bot e h (updated stored verified user payload bot) refl
    ]
  ]
    where
      go :
          (bot : Bot D)
          → owned_bot user id desk ≡ some bot
          → is_active bot.state ≡ false
          → (y : Answer (Bot D)) → updated stored verified user payload bot ≡ y
          → IsExclusive (update_bot stored verified user id payload desk).1.bots
      go bot e h (denied s) f = rw (e, update_bot, h, f) x
      go bot e h broke f = rw (e, update_bot, h, f) x
      go bot e h (done row) f =
          rw (e, update_bot, h, f)
            (calm-IsExclusive desk.bots id bot row x (owned stored verified user id desk bot e)
              (updated-Calms user payload bot row f))

  Served-IsExclusive :
      {desk after : Desk D} → Served desk after → IsExclusive desk.bots → IsExclusive after.bots
  Served-IsExclusive (arms user code ip now id desk v) x =
      arm-IsExclusive stored verified venue opened user code ip now id desk v x
  Served-IsExclusive (stops user id desk) x = stop-IsExclusive user id desk x
  Served-IsExclusive (clears user id desk) x = clear-IsExclusive user id desk x
  Served-IsExclusive (updates user id payload desk) x = update-IsExclusive user id payload desk x
  Served-IsExclusive (deletes user id desk) x = delete_bot-IsExclusive user id desk x

  -- Over any sequence of requests to arm, stop, clear, change and delete bots, whatever the
  -- venue answers: if every row stands under its id and no two active bots outside hedge mode
  -- trade one symbol on one key of one user, this is so afterwards.
  pub Requests-IsExclusive :
      {before after : Desk D}
      → Requests before after
      → IsExclusive before.bots
      → IsExclusive after.bots
  Requests-IsExclusive (no_more desk) x = x
  Requests-IsExclusive (and_then one more) x = Requests-IsExclusive more (Served-IsExclusive one x)
