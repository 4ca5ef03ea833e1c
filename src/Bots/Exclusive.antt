-- ===== src/Bots/Exclusive.antt =====
-- One book per symbol and key: what the handlers of apps/api/quanta/api/routes/bots.py keep of
-- `competes` (the query of `preflight`, apps/api/quanta/services/bot_service.py).
pub mod Requests
use text.Mathlib.Text.{◌==◌}
use text.Mathlib.TextEquality.{eq_iff}
use catpn.Prelude.{
  ℕ, ◌≡◌, ◌≢◌, refl, ◌∙◌, ◌⊎◌, sym, ap, subst, inl, inr, String, Bool, true, false, not, Option,
  none, some, List, [], ◌∷◌, arith, Bool-cases, Option-cases, keep_if, ◌&&◌, ◌||◌, if◌then◌else◌,
}
use catpn.Prelude.Decimal.{Decimal}
use catpn.Prelude.Dict.{Dict, find, put, delete, values, find-put, find-delete}
use catpn.Trading.{PositionMode, is_hedge, Credentials, TradingAdapter}
use catpn.Risk.{Time}
use catpn.Bots.{
  Bot, is_active, ExchangeKey, Setup, User, preflight, ready, competes, no_one, remember_state,
  clear_halt,
}
use catpn.Bots.Routes.{
  done, Desk, BotUpdate, owned_bot, with_bot, armed_row, delete_bot, stop_bot, acknowledge_halt,
  update_bot, updated, update_limits, update_leverage, update_name, arm_bot, require_2fa,
}
use catpn.Bots.Arming.{Arming, turned_down, went, arming}

module _ {D : Type 0} ⦃d : Decimal D⦄ where
  -- Two rows that would share one position book.
  abbrev pub shares : Bot D → Bot D → Bool
  shares a b =
      not (is_hedge a.position_mode)
      && not (is_hedge b.position_mode)
      && is_active a.state
      && competes a b

  -- Every row stands under its id, and no two active bots share a book.
  pub record IsExclusive (bots : Dict (Bot D)) : Type 0 where
    pub keyed : (k : String) (b : Bot D) → find k bots ≡ some b → b.id ≡ k
    pub apart :
        (j k : String) (a b : Bot D)
        → find j bots ≡ some a
        → find k bots ≡ some b
        → shares a b ≡ false

  -- A row with the identity of another that is active only if the other is.
  pub record Calms (old new : Bot D) : Type 0 where
    pub same_id : new.id ≡ old.id
    pub same_user : new.user_id ≡ old.user_id
    pub same_key : new.exchange_key_id ≡ old.exchange_key_id
    pub same_symbol : new.symbol ≡ old.symbol
    pub same_mode : new.position_mode ≡ old.position_mode
    pub calmer : is_active old.state ≡ false → is_active new.state ≡ false

  some_inj : {x y : Bot D} → some x ≡ some y → x ≡ y
  some_inj e = cc

  shares-sym : (a b : Bot D) → shares a b ≡ false → shares b a ≡ false
  unfolding competes
  shares-sym a b h = ground (
    arith,
    eq_iff a.user_id b.user_id,
    eq_iff b.user_id a.user_id,
    eq_iff a.exchange_key_id b.exchange_key_id,
    eq_iff b.exchange_key_id a.exchange_key_id,
    eq_iff a.symbol b.symbol,
    eq_iff b.symbol a.symbol,
    eq_iff a.id b.id,
    eq_iff b.id a.id,
  )

  shares_self : (a : Bot D) → shares a a ≡ false
  unfolding competes
  shares_self a = ground (arith, eq_iff a.id a.id)

  -- Writing a row that shares no book with any other.
  put-IsExclusive :
      (bots : Dict (Bot D)) (id : String) (new : Bot D)
      → IsExclusive bots
      → new.id ≡ id
      → ((k : String) (b : Bot D) → find k bots ≡ some b → b.id ≢ id → shares new b ≡ false)
      → IsExclusive (put id new bots)
  put-IsExclusive bots id new x named alone = record {
    keyed = λ k b e. elim (Bool-cases (id == k)) [
      | inl s ↦
          let is_b : new ≡ b = some_inj (rw s at (sym (find-put id k new bots) ∙ e)) in
          ap (λ r. r.id) (sym is_b) ∙ named ∙ (eq_iff id k).0 s
      | inr s ↦ x.keyed k b (rw s at (sym (find-put id k new bots) ∙ e))
    ];
    apart = λ j k a b e f. two j k a b e f;
  }
    where
      other :
          (k : String) (b : Bot D)
          → find k (put id new bots) ≡ some b
          → (b ≡ new) ⊎ ((find k bots ≡ some b) × (b.id ≢ id))
      other k b e = elim (Bool-cases (id == k)) [
        | inl s ↦ inl (sym (some_inj (rw s at (sym (find-put id k new bots) ∙ e))))
        | inr s ↦
            let old : find k bots ≡ some b = rw s at (sym (find-put id k new bots) ∙ e) in
            inr (old, λ same. ground (arith, eq_iff id k, x.keyed k b old, same))
      ]

      two :
          (j k : String) (a b : Bot D)
          → find j (put id new bots) ≡ some a
          → find k (put id new bots) ≡ some b
          → shares a b ≡ false
      two j k a b e f = elim (other j a e) [
        | inl p ↦ elim (other k b f) [
          | inl q ↦
              subst (λ r. shares r b ≡ false) (sym p)
                (subst (λ r. shares new r ≡ false) (sym q) (shares_self new))
          | inr q ↦ subst (λ r. shares r b ≡ false) (sym p) (alone k b q.0 q.1)
        ]
        | inr p ↦ elim (other k b f) [
          | inl q ↦ subst (λ r. shares a r ≡ false) (sym q) (shares-sym new a (alone j a p.0 p.1))
          | inr q ↦ x.apart j k a b p.0 q.0
        ]
      ]

  calm_alone : (old new b : Bot D) → Calms old new → shares old b ≡ false → shares new b ≡ false
  unfolding competes
  calm_alone old new b c h =
      ground (arith, c.same_id, c.same_user, c.same_key, c.same_symbol, c.same_mode, c.calmer)

  -- Writing back a row that is no more active than the one that was there.
  pub calm-IsExclusive :
      (bots : Dict (Bot D)) (id : String) (old new : Bot D)
      → IsExclusive bots
      → find id bots ≡ some old
      → Calms old new
      → IsExclusive (put id new bots)
  calm-IsExclusive bots id old new x there c =
      put-IsExclusive bots id new x (c.same_id ∙ x.keyed id old there)
        (λ k b e other. calm_alone old new b c (x.apart id k old b there e))

  pub delete-IsExclusive :
      (bots : Dict (Bot D)) (id : String) → IsExclusive bots → IsExclusive (delete id bots)
  delete-IsExclusive bots id x = record {
    keyed = λ k b e. x.keyed k b (kept k b e);
    apart = λ j k a b e f. x.apart j k a b (kept j a e) (kept k b f);
  }
    where
      kept : (k : String) (b : Bot D) → find k (delete id bots) ≡ some b → find k bots ≡ some b
      kept k b e = ground (arith, find-delete id k bots)

  -- No row that the query leaves out competes.
  not_listed :
      (bot b : Bot D) (k : String) (bots : Dict (Bot D))
      → no_one (keep_if (competes bot) (values bots)) ≡ true
      → find k bots ≡ some b
      → competes bot b ≡ false
  unfolding find values
  not_listed bot b k [] h e = cc
  not_listed bot b k ((j, c) ∷ bots) h e = elim (Bool-cases (competes bot c)) [
    | inl rival ↦ ground (arith, rival, h)
    | inr none_here ↦
        let rest : no_one (keep_if (competes bot) (values bots)) ≡ true = rw none_here at h in
        elim (Bool-cases (j == k)) [
          | inl s ↦
              let is_b : c ≡ b = some_inj (rw s at e) in
              subst (λ r. competes bot r ≡ false) is_b none_here
          | inr s ↦ not_listed bot b k bots rest (rw s at e)
        ]
  ]

  module _ (stored : D → D) (verified : User → String → Bool) where
    armed-alone :
        (now : Time) (equity : Option D) (bot row b : Bot D)
        → armed_row stored verified now equity bot ≡ some row
        → (is_hedge bot.position_mode || not (competes bot b)) ≡ true
        → shares row b ≡ false
    unfolding armed_row remember_state competes
    armed-alone now none bot row b r h = ground arith
    armed-alone now (some e) bot row b r h = ground arith

    armed-id :
        (now : Time) (equity : Option D) (bot row : Bot D)
        → armed_row stored verified now equity bot ≡ some row
        → row.id ≡ bot.id
    unfolding armed_row remember_state
    armed-id now none bot row r = ground arith
    armed-id now (some e) bot row r = ground arith

    pub owned :
        (user : User) (id : String) (desk : Desk D) (bot : Bot D)
        → owned_bot user id desk ≡ some bot
        → find id desk.bots ≡ some bot
    unfolding owned_bot
    owned user id desk bot e = ground arith

    symbol_is_free :
        (user : User) (key : ExchangeKey) (setup : Setup) (ip : String) (mode : Option PositionMode)
        (equity : Option D) (bot : Bot D) (bots : List (Bot D))
        → ready (preflight bots bot user key setup ip mode equity) ≡ true
        → (is_hedge bot.position_mode || no_one (keep_if (competes bot) bots)) ≡ true
    unfolding ready preflight
    symbol_is_free user key setup ip mode equity bot bots h = ground arith

    pub arm-IsExclusive :
        {V : Type 0} (venue : TradingAdapter D V) (opened : ExchangeKey → Option Credentials)
        (user : User) (code : Option String) (ip : String) (now : Time) (id : String)
        (desk : Desk D) (v : V)
        → IsExclusive desk.bots
        → IsExclusive (arm_bot stored verified venue opened user code ip now id desk v).0.1.bots
    arm-IsExclusive venue opened user code ip now id desk v x =
        elim (arming stored verified venue opened user code ip now id desk v) [
          | turned_down same undone ↦ rw same x
          | went bot key setup mode equity row mine second running keyed promoted fit e₆ w ↦
              let there = owned user id desk bot mine in
              let free = symbol_is_free user key setup ip mode equity bot (values desk.bots) fit in
              rw w (
                put-IsExclusive desk.bots id row x
                  (armed-id now equity bot row e₆ ∙ x.keyed id bot there)
                  (λ k b e other.
                    armed-alone now equity bot row b e₆
                      (elim (Bool-cases (is_hedge bot.position_mode)) [
                        | inl h ↦ rw h refl
                        | inr h ↦
                            let apart = not_listed bot b k desk.bots (rw h at free) e in
                            rw (h, apart) refl
                      ])))
        ]
