-- ===== src/Sim/Access.antt =====
-- `_account` of apps/api/quanta/exchanges/sim/trading.py, after an account was written back.
use catpn.Prelude.{ℕ, ◌≡◌, ◌≢◌, some, arith}
use catpn.Prelude.Dict.{find, find-put_self}
use catpn.Trading.{Credentials, ok, crashed}
use catpn.Sim.{SimAccount, SimVenue, account_of, store_account}

module _ {D : Type 0} where
  -- The venue lets the credentials in, to this account.
  abbrev pub Admits : SimVenue D → Credentials → SimAccount D → Type 0
  Admits venue c account = account_of venue c ≡ ok account

  pub find-of-Admits :
      (venue : SimVenue D) (c : Credentials) (a : SimAccount D)
      → Admits venue c a
      → find c.api_key venue.accounts ≡ some a
  unfolding account_of
  find-of-Admits venue c a h = ground arith

  -- An account that is written back with its secret and its permissions is let in again.
  pub Admits-store :
      (venue : SimVenue D) (c : Credentials) (a a' : SimAccount D)
      → Admits venue c a
      → a'.permissions ≡ a.permissions
      → a'.secret ≡ a.secret
      → Admits (store_account c a' venue) c a'
  unfolding account_of
  Admits-store venue c a a' h p s =
      ground (arith, find-of-Admits venue c a h, find-put_self c.api_key a' venue.accounts)

  pub account_of-ne-crashed : (venue : SimVenue D) (c : Credentials) → account_of venue c ≢ crashed
  unfolding account_of
  account_of-ne-crashed venue c h = ground arith

  -- The counter of ids has no say in it.
  pub Admits-numbered :
      (venue : SimVenue D) (c : Credentials) (a : SimAccount D) (n : ℕ)
      → Admits venue c a
      → Admits (record venue { next_id = n }) c a
  unfolding account_of
  Admits-numbered venue c a n h = h
