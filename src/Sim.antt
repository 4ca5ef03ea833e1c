-- ===== src/Sim.antt =====
-- apps/api/quanta/exchanges/sim/trading.py: the simulated venue, its accounts and the checks in
-- front of every call. The message of a `TradingError` is kept as the source writes it where it is
-- a constant, and by its code.
pub mod Access
pub mod Positions
pub mod Orders
pub mod Cancel
pub mod Venue
pub mod Market
use Prim.Native.String.{◌++◌ as text_append}
use text.Mathlib.Text.{◌==◌}
use catpn.Prelude.{
  ℕ, zero, suc, ◌+◌, ◌/◌, ◌%◌, ◌^◌, String, Bool, true, false, not, Option, none, some, List, [],
  ◌∷◌, ltb, if◌then◌else◌, ◌&&◌,
}
use catpn.Prelude.Decimal.{Decimal, nought}
use catpn.Prelude.Dict.{Dict, find, put}
use catpn.Trading.{
  OrderSide, buy, sell, PositionMode, one_way, hedge, MarginMode, Credentials, KeyPermissions,
  is_ip_restricted, allows_ip, Order, Position, TradingError, Reply, ok, refused, crashed,
}

pub record SimAccount (D : Type 0) : Type 0 where
  pub permissions : KeyPermissions
  pub secret : String
  pub equity : D
  pub currency : String
  pub position_mode : PositionMode
  pub leverage : Dict ℕ
  pub margin_mode : Dict MarginMode
  pub positions : Dict (Position D)
  pub orders : Dict (Order D)
  pub by_client_id : Dict String
  pub realised_pnl : D

-- `SimulatedTradingAdapter`: `next_id` is the count that `_ids` gives next.
pub record SimVenue (D : Type 0) : Type 0 where
  pub accounts : Dict (SimAccount D)
  pub prices : Dict D
  pub server_ip : String
  pub next_id : ℕ

abbrev pub error : String → String → TradingError
error message code = record { message = message; code = some code; retryable = false }

abbrev side_value : OrderSide → String
side_value buy = "BUY"
side_value sell = "SELL"

-- `_position_key`
unfoldable pub position_key : String → OrderSide → PositionMode → String
position_key symbol side one_way = symbol
position_key symbol side hedge = text_append symbol (text_append ":" (side_value side))

abbrev digit_text : ℕ → String
digit_text n = elim n [
  | zero ↦ "0"
  | suc zero ↦ "1"
  | suc (suc zero) ↦ "2"
  | suc (suc (suc zero)) ↦ "3"
  | suc (suc (suc (suc zero))) ↦ "4"
  | suc (suc (suc (suc (suc zero)))) ↦ "5"
  | suc (suc (suc (suc (suc (suc zero))))) ↦ "6"
  | suc (suc (suc (suc (suc (suc (suc zero)))))) ↦ "7"
  | suc (suc (suc (suc (suc (suc (suc (suc zero))))))) ↦ "8"
  | _ ↦ "9"
]

-- The last `width` digits of a number.
unfoldable pub last_digits : ℕ → ℕ → String
last_digits zero n = ""
last_digits (suc width) n = text_append (last_digits width (n / 10)) (digit_text (n % 10))

unfoldable pub width_of : ℕ → ℕ → ℕ
width_of zero n = 0
width_of (suc fuel) n = let rest = width_of fuel (n / 10) in if ltb n 10 then 1 else suc rest

-- `_next_id`: f"sim-{n:08d}", eight digits or as many as the number has.
unfoldable pub order_name : ℕ → String
unfolding last_digits width_of
order_name n = text_append "sim-" (last_digits (if ltb n (10 ^ 8) then 8 else width_of (suc n) n) n)

-- `_account`: the account behind the credentials, as the venue lets them in.
unfoldable pub account_of : {D : Type 0} → SimVenue D → Credentials → Reply (SimAccount D)
account_of venue c = elim (find c.api_key venue.accounts) [
  | none ↦ refused (error "unknown api key" "invalid_key")
  | some account ↦
      if not (account.secret == c.api_secret)
      then refused (error "bad signature" "invalid_key")
      else if is_ip_restricted account.permissions
          && not (allows_ip account.permissions venue.server_ip)
      then refused (error "request from a non-whitelisted IP" "ip_not_whitelisted")
      else ok account
]

-- `key_permissions`: not behind `_account`.
unfoldable pub key_permissions : {D : Type 0} → SimVenue D → Credentials → Reply KeyPermissions
key_permissions venue c = elim (find c.api_key venue.accounts) [
  | none ↦ refused (error "unknown api key" "invalid_key")
  | some account ↦
      if account.secret == c.api_secret
      then ok account.permissions
      else refused (error "unknown api key" "invalid_key")
]

-- The account is an object that the venue holds: a change of it is a write under its key.
abbrev pub store_account : {D : Type 0} → Credentials → SimAccount D → SimVenue D → SimVenue D
store_account c account venue = record venue { accounts = put c.api_key account venue.accounts }

-- `set_leverage`
unfoldable pub set_leverage :
    {D : Type 0}
    → Credentials
    → String
    → ℕ
    → MarginMode
    → SimVenue D
    → Reply (Unit {0}) × SimVenue D
unfolding account_of
set_leverage c symbol leverage margin_mode venue = elim (account_of venue c) [
  | refused e ↦ (refused e, venue)
  | crashed ↦ (crashed, venue)
  | ok account ↦
      if ltb leverage 1
      then (refused (error "leverage must be at least 1" "bad_leverage"), venue)
      else (
        ok tt,
        store_account c
            (record account {
              leverage = put symbol leverage account.leverage;
              margin_mode = put symbol margin_mode account.margin_mode;
            })
            venue,
      )
]
