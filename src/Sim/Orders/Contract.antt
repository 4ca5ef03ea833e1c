-- ===== src/Sim/Orders/Contract.antt =====
-- Replaying an order: `place_order` of apps/api/quanta/exchanges/sim/trading.py, called again with
-- a client id that has an order.
use catpn.Prelude.{suc, ◌≡◌, refl, ◌∙◌, ap, String, true, Option, none, some, arith}
use catpn.Prelude.Decimal.{Decimal}
use catpn.Prelude.Dict.{find, find-put_self}
use catpn.Trading.{Credentials, OrderRequest, OrderStatus, filled, Order, ok}
use catpn.Sim.{SimAccount, SimVenue, store_account}
use catpn.Sim.Access.{Admits, Admits-store, Admits-numbered}
use catpn.Sim.Positions.{apply, grow, shrink}
use catpn.Sim.Orders.Course.{
  Executed, kept, traded, turned_away, dangling, priceless, again, anew, placed,
}
use catpn.Sim.Orders.{record_with, apply_request, place_order}

module _ {D : Type 0} ⦃d : Decimal D⦄ where
  -- Where an order and the account that recorded it stand to the account before.
  pub record Recorded (a : SimAccount D) (r : OrderRequest D) (x : Order D × SimAccount D)
      : Type 0 where
    pub permissions_kept : x.1.permissions ≡ a.permissions
    pub secret_kept : x.1.secret ≡ a.secret
    pub indexed : find r.client_id x.1.by_client_id ≡ some x.0.order_id
    pub stored : find x.0.order_id x.1.orders ≡ some x.0

  record_with-Recorded :
      (id : String) (r : OrderRequest D) (status : OrderStatus) (qty : D) (average : Option D)
      (reason : Option String) (a b : SimAccount D)
      → b.permissions ≡ a.permissions
      → b.secret ≡ a.secret
      → Recorded a r (record_with id r status qty average reason b)
  unfolding record_with
  record_with-Recorded id r status qty average reason a b p s = record {
    permissions_kept = p;
    secret_kept = s;
    indexed = find-put_self r.client_id id b.by_client_id;
    stored = find-put_self id _ b.orders;
  }

  apply_request-keeps :
      (a : SimAccount D) (r : OrderRequest D) (price : D)
      → ((apply_request a r price).permissions ≡ a.permissions)
        × ((apply_request a r price).secret ≡ a.secret)
  unfolding apply_request apply grow shrink
  apply_request-keeps a r price = ground arith

  pub Recorded-of-Executed :
      {id : String} {a : SimAccount D} {r : OrderRequest D} {x : Order D × SimAccount D}
      → Executed id a r x
      → Recorded a r x
  Recorded-of-Executed {id} {a} {r} (kept status qty average reason) =
      record_with-Recorded id r status qty average reason a a refl refl
  Recorded-of-Executed {id} {a} {r} (traded price there) =
      let same = apply_request-keeps a r price in
      record_with-Recorded id r filled r.qty (some price) none a _ same.0 same.1

  -- A client id that is in the index, at a venue that lets the account in.
  replay :
      (c : Credentials) (r : OrderRequest D) (venue : SimVenue D) (a : SimAccount D) (id : String)
      (o : Order D)
      → Admits venue c a
      → a.permissions.can_trade ≡ true
      → find r.client_id a.by_client_id ≡ some id
      → find id a.orders ≡ some o
      → place_order c r venue ≡ (ok o, venue)
  unfolding place_order
  replay c r venue a id o h trades seen there = rw (h, place_order) (simp (trades, seen, there))

  -- Once place_order of the simulated venue has answered a request with an order, any request
  -- of the same credentials with the same client id is answered with that same order and
  -- leaves the venue as it is.
  pub place_order_replays :
      (c : Credentials) (r r' : OrderRequest D) (venue : SimVenue D) (o : Order D)
      → (place_order c r venue).0 ≡ ok o
      → r'.client_id ≡ r.client_id
      → place_order c r' (place_order c r venue).1 ≡ (ok o, (place_order c r venue).1)
  place_order_replays c r r' venue o e same = elim (placed c r venue) [
    | turned_away x w ↦ cc
    | dangling a id h seen lost w ↦ cc
    | priceless l p w ↦ cc
    | again a id o' h trades seen there w ↦
        let is_o : o' ≡ o = cc in
        let seen' : find r'.client_id a.by_client_id ≡ some id = rw same seen in
        rw w (replay c r' venue a id o h trades seen' (there ∙ ap some is_o))
    | anew a x h trades unseen made w ↦
        let is_o : x.0 ≡ o = cc in
        let k = Recorded-of-Executed made in
        let venue' : SimVenue D =
          store_account c x.1 (record venue { next_id = suc venue.next_id }) in
        rw w (
          replay c r' venue' x.1 x.0.order_id o
            (Admits-store (record venue { next_id = suc venue.next_id }) c a x.1
              (Admits-numbered venue c a (suc venue.next_id) h) k.permissions_kept k.secret_kept)
            (ap (λ p. p.can_trade) k.permissions_kept ∙ trades) (rw same k.indexed)
            (k.stored ∙ ap some is_o))
  ]
