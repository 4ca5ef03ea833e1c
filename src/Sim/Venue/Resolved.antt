-- ===== src/Sim/Venue/Resolved.antt =====
-- `resolve` of apps/api/quanta/services/execution.py on the simulated venue, after an order was
-- placed there.
use text.Mathlib.Text.{◌==◌}
use text.Mathlib.TextEquality.{eq_iff}
use catpn.Prelude.{
  ℕ, suc, ◌≡◌, ◌≢◌, refl, ◌∙◌, ap, inl, inr, String, true, Option, none, some, List, [], ◌∷◌, arith,
  Bool-cases, Option-cases, keep_if, ◌&&◌,
}
use catpn.Prelude.Decimal.{Decimal}
use catpn.Prelude.Dict.{Dict, find, values}
use catpn.Trading.{Credentials, OrderRequest, Order, ok, is_open}
use catpn.Sim.{SimAccount, SimVenue}
use catpn.Sim.Access.{Admits, Admits-store, Admits-numbered}
use catpn.Sim.Orders.{place_order}
use catpn.Sim.Orders.Course.{turned_away, dangling, priceless, again, anew, placed}
use catpn.Sim.Orders.Contract.{Recorded-of-Executed}
use catpn.Sim.Cancel.{on_symbol, open_orders}
use catpn.Sim.Venue.{sim_adapter}
use catpn.Execution.{duplicate, BotContext}
use catpn.Execution.Placing.{order_with_id, resolve_from, resolve}
use catpn.Execution.Placing.Retry.{outcome_in}

module _ {D : Type 0} ⦃d : Decimal D⦄ where
  -- The order of an answer stands in the account afterwards.
  record Stands (c : Credentials) (venue : SimVenue D) (o : Order D) : Type 0 where
    account : SimAccount D
    id : String
    admitted : Admits venue c account
    there : find id account.orders ≡ some o

  place_order-Stands :
      (c : Credentials) (r : OrderRequest D) (venue : SimVenue D) (o : Order D)
      → (place_order c r venue).0 ≡ ok o
      → Stands c (place_order c r venue).1 o
  place_order-Stands c r venue o e = elim (placed c r venue) [
    | turned_away x w ↦ cc
    | dangling a id h seen lost w ↦ cc
    | priceless l p w ↦ cc
    | again a id o' h trades seen there w ↦
        let is_o : o' ≡ o = cc in
        rw w (record { account = a; id = id; admitted = h; there = there ∙ ap some is_o })
    | anew a x h trades unseen made w ↦
        let is_o : x.0 ≡ o = cc in
        let k = Recorded-of-Executed made in
        rw w (record {
          account = x.1;
          id = x.0.order_id;
          admitted =
              Admits-store (record venue { next_id = suc venue.next_id }) c a x.1
                (Admits-numbered venue c a (suc venue.next_id) h) k.permissions_kept k.secret_kept;
          there = k.stored ∙ ap some is_o;
        })
  ]

  -- A search over the open orders of a symbol ends at an order.
  order_with_id-open :
      (digest : List ℕ → String) (symbol client_id id : String) (o : Order D)
      (orders : Dict (Order D))
      → find id orders ≡ some o
      → is_open o.status ≡ true
      → (o.symbol == symbol) ≡ true
      → (o.client_id == client_id) ≡ true
      → order_with_id digest sim_adapter client_id
          (keep_if (λ x. is_open x.status && on_symbol (some symbol) x.symbol) (values orders))
        ≢ none
  unfolding find values order_with_id
  order_with_id-open digest symbol client_id id o [] there rests s k h = cc
  order_with_id-open digest symbol client_id id o ((j, p) ∷ orders) there rests s k h =
      elim (Bool-cases (j == id)) [
        | inl here ↦ let is_o : p ≡ o = ground (arith, here, there) in ground (arith, is_o)
        | inr later ↦
            let rest =
              order_with_id-open digest symbol client_id id o orders (rw later at there) rests s
                k in
            ground (arith, rest)
      ]

  resolve_found :
      (digest : List ℕ → String) (client_id : String) (orders : List (Order D))
      → order_with_id digest sim_adapter client_id orders ≢ none
      → outcome_in (resolve_from digest sim_adapter client_id (ok orders)) ≡ some duplicate
  unfolding resolve_from
  resolve_found digest client_id orders h =
      elim (Option-cases (order_with_id digest sim_adapter client_id orders)) [
        | inl e ↦ absurd (h e)
        | inr (o, e) ↦ rw e refl
      ]

  listed :
      (c : Credentials) (symbol : Option String) (venue : SimVenue D) (a : SimAccount D)
      → Admits venue c a
      → (open_orders c symbol venue).0
        ≡ ok (keep_if (λ x. is_open x.status && on_symbol symbol x.symbol) (values a.orders))
  unfolding open_orders
  listed c symbol venue a h = rw (h, open_orders)

  -- On the simulated venue: if place_order answered a request with an order that is still
  -- open, on the symbol of the context and with the client id of the request, then resolving
  -- this client id afterwards reports the outcome DUPLICATE, so an order that rests is never
  -- left uncertain.
  pub place_then_resolve :
      (digest : List ℕ → String) (context : BotContext) (r : OrderRequest D) (venue : SimVenue D)
      (o : Order D)
      → (place_order context.credentials r venue).0 ≡ ok o
      → is_open o.status ≡ true
      → o.symbol ≡ context.symbol
      → o.client_id ≡ r.client_id
      → outcome_in
          (resolve digest sim_adapter context r.client_id
            (place_order context.credentials r venue).1).0
        ≡ some duplicate
  unfolding resolve
  place_then_resolve digest context r venue o e rests on_it by_it =
      let after = (place_order context.credentials r venue).1 in
      let s = place_order-Stands context.credentials r venue o e in
      let shown = listed context.credentials (some context.symbol) after s.account s.admitted in
      let open_there =
        keep_if (λ x. is_open x.status && on_symbol (some context.symbol) x.symbol)
          (values s.account.orders) in
      ap (λ reply. outcome_in (resolve_from digest sim_adapter r.client_id reply)) shown
      ∙ resolve_found digest r.client_id open_there (
          order_with_id-open digest context.symbol r.client_id s.id o s.account.orders s.there rests
            ((eq_iff o.symbol context.symbol).1 on_it) ((eq_iff o.client_id r.client_id).1 by_it))
