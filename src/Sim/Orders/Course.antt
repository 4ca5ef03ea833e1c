-- ===== src/Sim/Orders/Course.antt =====
-- The ways that `place_order` of apps/api/quanta/exchanges/sim/trading.py takes.
use catpn.Prelude.{
  suc, ◌≡◌, refl, ◌∙◌, ap, subst, String, true, false, not, Option, none, some, arith, Bool-cases,
  Option-cases, inl, inr, if_intro, OnSome, ◌&&◌,
}
use catpn.Prelude.Decimal.{Decimal}
use catpn.Prelude.Dict.{find}
use catpn.Trading.{
  Credentials, OrderRequest, OrderStatus, filled, is_limit, is_post_only, Order, TradingError,
  Reply, ok, refused, crashed,
}
use catpn.Sim.{SimAccount, SimVenue, error, order_name, account_of, store_account}
use catpn.Sim.Access.{Admits, account_of-ne-crashed}
use catpn.Sim.Orders.{
  record_with, nothing_to_reduce, lacks_margin, crosses_at, is_immediate, place_limit,
  apply_request, fill, execute, committed, place_new, place_in, place_order,
}

module _ {D : Type 0} ⦃d : Decimal D⦄ where
  -- How `execute` comes to an order: it records one beside an account that it leaves alone, or it
  -- trades, which an exit does only against a position that is there.
  pub data Executed (id : String) (a : SimAccount D) (r : OrderRequest D)
      : Order D × SimAccount D → Type 0 where
    kept :
        (status : OrderStatus) (qty : D) (average : Option D) (reason : Option String)
        → Executed id a r (record_with id r status qty average reason a)
    traded :
        (price : D)
        → nothing_to_reduce a r ≡ false
        → Executed id a r
            (record_with id r filled r.qty (some price) none (apply_request a r price))

  fill-Executed :
      (id : String) (a : SimAccount D) (r : OrderRequest D) (price : D)
      → Executed id a r (fill id a r price)
  unfolding fill
  fill-Executed id a r price =
      if_intro (Executed id a r) (nothing_to_reduce a r) (λ _. kept _ _ _ _)
        λ there.
          if_intro (Executed id a r) (lacks_margin a r price) (λ _. kept _ _ _ _)
            (λ _. traded price there)

  place_limit-Executed :
      (id : String) (a : SimAccount D) (r : OrderRequest D) (price : D) (wanted : Option D)
      → OnSome (Executed id a r) (place_limit id a r price wanted)
  unfolding place_limit
  place_limit-Executed id a r price none = tt
  place_limit-Executed id a r price (some wanted) =
      if_intro (Executed id a r) (is_post_only r.time_in_force && crosses_at r.side wanted price)
        (λ _. kept _ _ _ _)
        λ _.
          if_intro (Executed id a r) (not (crosses_at r.side wanted price))
            (λ _.
              if_intro (Executed id a r) (is_immediate r.time_in_force) (λ _. kept _ _ _ _)
                (λ _. kept _ _ _ _))
            (λ _. fill-Executed id a r wanted)

  pub execute-Executed :
      (id : String) (a : SimAccount D) (r : OrderRequest D) (price : D)
      → OnSome (Executed id a r) (execute id a r price)
  unfolding execute
  execute-Executed id a r price =
      if_intro (OnSome (Executed id a r)) (is_limit r.order_type)
        (λ _. place_limit-Executed id a r price r.price) (λ _. fill-Executed id a r price)

  -- The ways that a call of `place_order` takes.
  pub data Placed (c : Credentials) (r : OrderRequest D) (venue : SimVenue D) : Type 0 where
    turned_away : (e : TradingError) → place_order c r venue ≡ (refused e, venue) → Placed c r venue
    dangling :
        (a : SimAccount D) (id : String)
        → Admits venue c a
        → find r.client_id a.by_client_id ≡ some id
        → find id a.orders ≡ none
        → place_order c r venue ≡ (crashed, venue)
        → Placed c r venue
    priceless :
        is_limit r.order_type ≡ true
        → r.price ≡ none
        → place_order c r venue ≡ (crashed, venue)
        → Placed c r venue
    again :
        (a : SimAccount D) (id : String) (o : Order D)
        → Admits venue c a
        → a.permissions.can_trade ≡ true
        → find r.client_id a.by_client_id ≡ some id
        → find id a.orders ≡ some o
        → place_order c r venue ≡ (ok o, venue)
        → Placed c r venue
    anew :
        (a : SimAccount D) (x : Order D × SimAccount D)
        → Admits venue c a
        → a.permissions.can_trade ≡ true
        → find r.client_id a.by_client_id ≡ none
        → Executed (order_name venue.next_id) a r x
        → place_order c r venue
          ≡ (ok x.0, store_account c x.1 (record venue { next_id = suc venue.next_id }))
        → Placed c r venue

  -- No order comes only of a LIMIT request without a price.
  execute-eq-none :
      (id : String) (a : SimAccount D) (r : OrderRequest D) (price : D)
      → execute id a r price ≡ none
      → (is_limit r.order_type ≡ true) × (r.price ≡ none)
  unfolding execute place_limit
  execute-eq-none id a r price e = ground arith

  place_new-course :
      (c : Credentials) (r : OrderRequest D) (a : SimAccount D) (venue : SimVenue D)
      → Admits venue c a
      → a.permissions.can_trade ≡ true
      → find r.client_id a.by_client_id ≡ none
      → place_order c r venue ≡ place_new c r a venue
      → Placed c r venue
  unfolding place_new
  place_new-course c r a venue h trades unseen e =
      elim (Option-cases (find r.symbol venue.prices)) [
        | inl unpriced ↦
            turned_away (error "no price" "unknown_symbol") (e ∙ rw (unpriced, place_new))
        | inr (price, priced) ↦
            let id = order_name venue.next_id in
            let tried : place_order c r venue ≡ committed c venue (execute id a r price) =
              e ∙ rw (priced, place_new) in
            elim (Option-cases (execute id a r price)) [
              | inl nothing ↦
                  let cause = execute-eq-none id a r price nothing in
                  priceless cause.0 cause.1 (tried ∙ ap (committed c venue) nothing)
              | inr (x, made) ↦
                  anew a x h trades unseen
                    (subst (OnSome (Executed id a r)) made (execute-Executed id a r price))
                    (tried ∙ ap (committed c venue) made)
            ]
      ]

  place_in-course :
      (c : Credentials) (r : OrderRequest D) (a : SimAccount D) (venue : SimVenue D)
      → Admits venue c a
      → place_order c r venue ≡ place_in c r a venue
      → Placed c r venue
  unfolding place_in
  place_in-course c r a venue h e = elim (Bool-cases a.permissions.can_trade) [
    | inr barred ↦ turned_away (error "this key cannot trade" "not_permitted") (e ∙ simp barred)
    | inl trades ↦ elim (Option-cases (find r.client_id a.by_client_id)) [
      | inl unseen ↦ place_new-course c r a venue h trades unseen (e ∙ simp (trades, unseen))
      | inr (id, seen) ↦ elim (Option-cases (find id a.orders)) [
        | inl lost ↦ dangling a id h seen lost (e ∙ simp (trades, seen, lost))
        | inr (o, there) ↦ again a id o h trades seen there (e ∙ simp (trades, seen, there))
      ]
    ]
  ]

  pub placed : (c : Credentials) (r : OrderRequest D) (venue : SimVenue D) → Placed c r venue
  unfolding place_order
  placed c r venue = go (account_of venue c) refl
    where
      go : (x : Reply (SimAccount D)) → account_of venue c ≡ x → Placed c r venue
      go (ok a) h = place_in-course c r a venue h (rw (h, place_order))
      go (refused x) h = turned_away x (rw (h, place_order))
      go crashed h = absurd (account_of-ne-crashed venue c h)
