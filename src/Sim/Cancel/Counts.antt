-- ===== src/Sim/Cancel/Counts.antt =====
-- What `cancel_all` of apps/api/quanta/exchanges/sim/trading.py leaves open, and what it counts.
use catpn.Prelude.{
  ◌≡◌, refl, sym, ap, ◌∙◌, subst, String, Option, none, some, List, [], ◌∷◌, arith, length, keep_if,
  ◌&&◌, if◌then◌else◌,
}
use catpn.Prelude.Dict.{Dict, find, values}
use catpn.Trading.{is_final, is_open, Order, ok, Credentials}
use catpn.Sim.{SimAccount, SimVenue, store_account}
use catpn.Sim.Access.{Admits, Admits-store}
use catpn.Sim.Cancel.{on_symbol, is_cancellable, cancel, cancel_orders, cancel_all, open_orders}

module _ {D : Type 0} where
  -- The open orders of a symbol, as `open_orders` lists them.
  abbrev pub open_on : Option String → Dict (Order D) → List (Order D)
  open_on symbol orders =
      keep_if (λ o. is_open o.status && on_symbol symbol o.symbol) (values orders)

  open_on-cancel_orders :
      (symbol : Option String) (orders : Dict (Order D))
      → open_on symbol (cancel_orders symbol orders).1 ≡ []
  unfolding cancel_orders is_cancellable is_open is_final values
  open_on-cancel_orders symbol [] = refl
  open_on-cancel_orders symbol ((id, o) ∷ rest) = ground (arith, open_on-cancel_orders symbol rest)

  count-cancel_orders :
      (symbol : Option String) (orders : Dict (Order D))
      → (cancel_orders symbol orders).0 ≡ length (open_on symbol orders)
  unfolding cancel_orders is_cancellable is_open is_final values
  count-cancel_orders symbol [] = refl
  count-cancel_orders symbol ((id, o) ∷ rest) = ground (arith, count-cancel_orders symbol rest)

  -- What a cancellation makes of the order under an id.
  abbrev pub after_cancel : Option String → Option (Order D) → Option (Order D)
  after_cancel symbol none = none
  after_cancel symbol (some o) = some (if is_cancellable symbol o then cancel o else o)

  pub find-cancel_orders :
      (symbol : Option String) (orders : Dict (Order D)) (id : String)
      → find id (cancel_orders symbol orders).1 ≡ after_cancel symbol (find id orders)
  unfolding cancel_orders find
  find-cancel_orders symbol [] id = refl
  find-cancel_orders symbol ((j, o) ∷ rest) id = ground (arith, find-cancel_orders symbol rest id)

  cancel_all_moves :
      (c : Credentials) (symbol : Option String) (venue : SimVenue D) (account : SimAccount D)
      → Admits venue c account
      → cancel_all c symbol venue ≡ (
        ok (cancel_orders symbol account.orders).0,
        store_account c (record account { orders = (cancel_orders symbol account.orders).1 }) venue,
      )
  unfolding cancel_all
  cancel_all_moves c symbol venue account h = rw (h, cancel_all)

  listed :
      (c : Credentials) (symbol : Option String) (venue : SimVenue D) (account : SimAccount D)
      → Admits venue c account
      → (open_orders c symbol venue).0 ≡ ok (open_on symbol account.orders)
  unfolding open_orders
  listed c symbol venue account h = rw (h, open_orders)

  -- On an account that the venue lets in, cancel_all answers with the number of open orders of
  -- the symbol and keeps letting the credentials in; afterwards none of these orders is open,
  -- and under every id stands the order that was there, cancelled exactly if it was open and
  -- on the symbol.
  pub cancel_all_closes :
      (c : Credentials) (symbol : Option String) (venue : SimVenue D) (account : SimAccount D)
      → Admits venue c account
      → let after = (cancel_all c symbol venue).1 in
        ((cancel_all c symbol venue).0 ≡ ok (length (open_on symbol account.orders)))
        × ((open_orders c symbol after).0 ≡ ok [])
        × ((account' : SimAccount D) × Admits after c account'
            × ((id : String)
                → find id account'.orders ≡ after_cancel symbol (find id account.orders)))
  cancel_all_closes c symbol venue account h =
      let account' : SimAccount D = record account {
        orders = (cancel_orders symbol account.orders).1;
      } in
      let moved = cancel_all_moves c symbol venue account h in
      let again = Admits-store venue c account account' h refl refl in
      (
        ap (λ t. t.0) moved ∙ ap ok (count-cancel_orders symbol account.orders),
        ap (λ v. (open_orders c symbol v).0) (ap (λ t. t.1) moved)
            ∙ listed c symbol (store_account c account' venue) account' again
            ∙ ap ok (open_on-cancel_orders symbol account.orders),
        (
          account',
          subst (λ v. Admits v c account') (sym (ap (λ t. t.1) moved)) again,
          find-cancel_orders symbol account.orders,
        ),
      )
