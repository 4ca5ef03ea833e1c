-- ===== src/Sim/Market/Crossing.antt =====
-- What `_fill_crossed_limits` of apps/api/quanta/exchanges/sim/trading.py makes of the orders of
-- an account.
use text.Mathlib.Text.{◌==◌}
use text.Mathlib.TextEquality.{eq_iff}
use catpn.Prelude.{
  ◌≡◌, refl, ◌∙◌, ap, subst, inl, inr, String, true, Option, none, some, [], ◌∷◌, arith,
  if◌then◌else◌, ◌&&◌, Bool-cases, Option-cases,
}
use catpn.Prelude.Decimal.{Decimal}
use catpn.Prelude.Dict.{Dict, find, put, find-put, Unique}
use catpn.Trading.{Order, filled, OrderRequest, RequestError, post_init}
use catpn.Sim.{SimAccount}
use catpn.Sim.Positions.{apply, grow, shrink}
use catpn.Sim.Orders.{apply_request}
use catpn.Sim.Market.{
  is_fresh, is_crossed, filled_order, fill_resting, cross_one, fill_crossed_limits, resting_request,
  crosses_limit,
}

module _ {D : Type 0} ⦃d : Decimal D⦄ where
  apply_request-orders :
      (a : SimAccount D) (r : OrderRequest D) (price : D)
      → (apply_request a r price).orders ≡ a.orders
  unfolding apply_request apply grow shrink
  apply_request-orders a r price = ground arith

  -- What the move makes of the order under an id, where the loop still has `pending` ahead.
  abbrev pub settled : String → D → Option (Order D) → Option (Order D) → Option (Order D)
  settled symbol price none kept = kept
  settled symbol price (some o) kept =
      if is_crossed symbol price o then some (filled_order o) else kept

  fill_at :
      (id : String) (price : D) (o : Order D) (a : SimAccount D) (w : Option D)
      → crosses_limit o price w ≡ true
      → (fill_resting id o a w).0 ≡ none
      → (fill_resting id o a w).1.orders ≡ put id (filled_order o) a.orders
  unfolding fill_resting
  fill_at id price o a none crossed h = cc
  fill_at id price o a (some wanted) crossed h =
      elim (Option-cases (post_init (resting_request o wanted))) [
        | inl e ↦
            rw (e, fill_resting)
              (ap (put id (filled_order o))
                (apply_request-orders a (resting_request o wanted) wanted))
        | inr (x, e) ↦ let clash : some x ≡ none = rw (e, fill_resting) at h in cc
      ]

  limit_crossed :
      (symbol : String) (price : D) (o : Order D)
      → is_crossed symbol price o ≡ true
      → crosses_limit o price o.price ≡ true
  unfolding is_crossed
  limit_crossed symbol price o h = ground arith

  -- One turn, where the loop comes to its end.
  cross_one-orders :
      (symbol : String) (price : D) (j : String) (o : Order D) (a : SimAccount D)
      → (cross_one symbol price j o a).0 ≡ none
      → (cross_one symbol price j o a).1.orders
        ≡ (if is_crossed symbol price o then put j (filled_order o) a.orders else a.orders)
  unfolding cross_one
  cross_one-orders symbol price j o a h = elim (Bool-cases (is_crossed symbol price o)) [
    | inl crossed ↦
        rw (crossed, cross_one)
          (fill_at j price o a o.price (limit_crossed symbol price o crossed)
            (rw (crossed, cross_one) at h))
    | inr quiet ↦ rw (quiet, cross_one) refl
  ]

  settled_step :
      (symbol : String) (price : D) (j id : String) (o : Order D) (rest orders : Dict (Order D))
      → find j rest ≡ none
      → settled symbol price
          (find id rest)
          (find id (if is_crossed symbol price o then put j (filled_order o) orders else orders))
        ≡ settled symbol price (if j == id then some o else find id rest) (find id orders)
  settled_step symbol price j id o rest orders fresh = elim (Bool-cases (j == id)) [
    | inl s ↦
        let gone : find id rest ≡ none =
          subst (λ i. find i rest ≡ none) ((eq_iff j id).0 s) fresh in
        elim (Bool-cases (is_crossed symbol price o)) [
          | inl crossed ↦ rw (s, gone, crossed) (find-put j id (filled_order o) orders ∙ rw s refl)
          | inr quiet ↦ rw (s, gone, quiet) refl
        ]
    | inr s ↦ elim (Bool-cases (is_crossed symbol price o)) [
      | inl crossed ↦
          let same : find id (put j (filled_order o) orders) ≡ find id orders =
            find-put j id (filled_order o) orders ∙ rw s refl in
          rw (s, crossed, same) refl
      | inr quiet ↦ rw (s, quiet) refl
    ]
  ]

  -- The loop over `pending`, with the orders that the account has when it comes there.
  fill_crossed_limits-orders :
      (symbol : String) (price : D) (pending : Dict (Order D)) (a : SimAccount D) (id : String)
      → Unique pending
      → (fill_crossed_limits symbol price pending a).0 ≡ none
      → find id (fill_crossed_limits symbol price pending a).1.orders
        ≡ settled symbol price (find id pending) (find id a.orders)
  unfolding fill_crossed_limits find
  fill_crossed_limits-orders symbol price [] a id u h = refl
  fill_crossed_limits-orders symbol price ((j, o) ∷ rest) a id u h =
      turn (cross_one symbol price j o a).0 refl
        (fill_crossed_limits-orders symbol price rest (cross_one symbol price j o a).1 id u.1)
    where
      turn :
          (raised : Option RequestError)
          → (cross_one symbol price j o a).0 ≡ raised
          → ((fill_crossed_limits symbol price rest (cross_one symbol price j o a).1).0 ≡ none
              → find id
                  (fill_crossed_limits symbol price rest (cross_one symbol price j o a).1).1.orders
                ≡ settled symbol price
                    (find id rest)
                    (find id (cross_one symbol price j o a).1.orders))
          → find id (fill_crossed_limits symbol price ((j, o) ∷ rest) a).1.orders
            ≡ settled symbol price (find id ((j, o) ∷ rest)) (find id a.orders)
      turn (some e) made later =
          let clash : some e ≡ none = rw (made, fill_crossed_limits) at h in cc
      turn none made later =
          rw (made, fill_crossed_limits)
            (later (rw (made, fill_crossed_limits) at h)
              ∙ ap (λ orders. settled symbol price (find id rest) (find id orders))
                  (cross_one-orders symbol price j o a made)
              ∙ settled_step symbol price j id o rest a.orders u.0)

  -- What the move makes of an order that stands under an id before it, field by field: an order
  -- that was new, on the symbol and reached by the price is filled over its whole quantity, and its
  -- average price is its own limit.
  abbrev pub after_move : String → D → Option (Order D) → Option (Order D)
  after_move symbol price none = none
  after_move symbol price (some o) = some (
      if is_fresh o.status && o.symbol == symbol && crosses_limit o price o.price
      then record {
        order_id = o.order_id;
        client_id = o.client_id;
        symbol = o.symbol;
        side = o.side;
        order_type = o.order_type;
        status = filled;
        qty = o.qty;
        filled_qty = o.qty;
        price = o.price;
        average_price = o.price;
        fee = o.fee;
        trade_side = o.trade_side;
        reduce_only = o.reduce_only;
        created_at = o.created_at;
        updated_at = o.updated_at;
        reject_reason = o.reject_reason;
      }
      else o)

  settled_itself :
      (symbol : String) (price : D) (o : Order D)
      → settled symbol price (some o) (some o) ≡ after_move symbol price (some o)
  unfolding is_crossed filled_order
  settled_itself symbol price o = ground arith

  -- When the market of a symbol moves and no request fails to build: under every id of an
  -- account whose orders have no id twice stands the order that was there; if it was new, on
  -- the symbol and crossed by the move, its status is filled, its filled quantity is its
  -- quantity and its average price its own price, all else of it as before; otherwise it is as
  -- it was.
  pub move_fills_crossed :
      (symbol : String) (price : D) (a : SimAccount D)
      → Unique a.orders
      → (fill_crossed_limits symbol price a.orders a).0 ≡ none
      → (id : String)
      → find id (fill_crossed_limits symbol price a.orders a).1.orders
        ≡ after_move symbol price (find id a.orders)
  move_fills_crossed symbol price a u h id =
      fill_crossed_limits-orders symbol price a.orders a id u h ∙ same (find id a.orders)
    where
      same : (o : Option (Order D)) → settled symbol price o o ≡ after_move symbol price o
      same none = refl
      same (some o) = settled_itself symbol price o
