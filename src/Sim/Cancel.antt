-- ===== src/Sim/Cancel.antt =====
-- `cancel_all`, `cancel_order`, `open_orders` and `positions` of
-- apps/api/quanta/exchanges/sim/trading.py.
pub mod Counts
use text.Mathlib.Text.{◌==◌}
use catpn.Prelude.{
  ℕ, suc, String, Bool, true, false, not, Option, none, some, List, [], ◌∷◌, map, if◌then◌else◌,
  ◌&&◌, ◌||◌, keep_if, count_if,
}
use catpn.Prelude.Decimal.{Decimal}
use catpn.Prelude.Dict.{Dict, find, put, values, map_values}
use catpn.Trading.{
  cancelled, is_final, is_open, PositionMode, Credentials, Order, Position, Balance, TradingError,
  Reply, ok, refused, crashed,
}
use catpn.Sim.{SimAccount, SimVenue, error, account_of, store_account}
use catpn.Sim.Positions.{marked, balance_of}

-- symbol is None or x == symbol
abbrev pub on_symbol : Option String → String → Bool
on_symbol none x = true
on_symbol (some symbol) x = x == symbol

module _ {D : Type 0} where
  -- The orders that `cancel_all` cancels.
  unfoldable pub is_cancellable : Option String → Order D → Bool
  is_cancellable symbol order = not (is_final order.status) && on_symbol symbol order.symbol

  abbrev pub cancel : Order D → Order D
  cancel order = record order { status = cancelled }

  -- The loop of `cancel_all` over the orders of an account, with its count.
  unfoldable pub cancel_orders : Option String → Dict (Order D) → ℕ × Dict (Order D)
  cancel_orders symbol [] = (0, [])
  cancel_orders symbol ((id, order) ∷ rest) =
      let (count, rest') = cancel_orders symbol rest in
      if is_cancellable symbol order
      then (suc count, (id, cancel order) ∷ rest')
      else (count, (id, order) ∷ rest')

  unfoldable pub cancel_all : Credentials → Option String → SimVenue D → Reply ℕ × SimVenue D
  unfolding cancel_orders
  cancel_all c symbol venue = elim (account_of venue c) [
    | refused e ↦ (refused e, venue)
    | crashed ↦ (crashed, venue)
    | ok account ↦ (
      ok (cancel_orders symbol account.orders).0,
      store_account c (record account { orders = (cancel_orders symbol account.orders).1 }) venue,
    )
  ]

  -- One order, found by its id: a final one comes back as it is.
  unfoldable pub cancel_found :
      Credentials → Option String → SimAccount D → SimVenue D → Reply (Order D) × SimVenue D
  cancel_found c none account venue = (refused (error "no such order" "unknown_order"), venue)
  cancel_found c (some id) account venue = elim (find id account.orders) [
    | none ↦ (refused (error "no such order" "unknown_order"), venue)
    | some order ↦ if is_final order.status then (ok order, venue) else (
      ok (cancel order),
      store_account c (record account { orders = put id (cancel order) account.orders }) venue,
    )
  ]

  -- `cancel_order`: a client id, where one is given, takes the place of the order id.
  unfoldable pub cancel_order :
      Credentials → Option String → Option String → SimVenue D → Reply (Order D) × SimVenue D
  unfolding cancel_found
  cancel_order c client_id order_id venue = elim (account_of venue c) [
    | refused e ↦ (refused e, venue)
    | crashed ↦ (crashed, venue)
    | ok account ↦
        cancel_found c (elim client_id [ none ↦ order_id | some id ↦ find id account.by_client_id ])
          account venue
  ]

  unfoldable pub open_orders :
      Credentials → Option String → SimVenue D → Reply (List (Order D)) × SimVenue D
  open_orders c symbol venue = (
    elim (account_of venue c) [
      | refused e ↦ refused e
      | crashed ↦ crashed
      | ok account ↦
          ok (keep_if (λ o. is_open o.status && on_symbol symbol o.symbol) (values account.orders))
    ],
    venue,
  )

  unfoldable pub position_mode : Credentials → SimVenue D → Reply PositionMode × SimVenue D
  position_mode c venue = (
    elim (account_of venue c) [
      | refused e ↦ refused e
      | crashed ↦ crashed
      | ok account ↦ ok account.position_mode
    ],
    venue,
  )

module _ {D : Type 0} ⦃d : Decimal D⦄ where
  unfoldable pub positions :
      Credentials → Option String → SimVenue D → Reply (List (Position D)) × SimVenue D
  positions c symbol venue = (
    elim (account_of venue c) [
      | refused e ↦ refused e
      | crashed ↦ crashed
      | ok account ↦
          ok (
            keep_if (λ p. on_symbol symbol p.symbol)
              (map (marked venue) (values account.positions)))
    ],
    venue,
  )

  unfoldable pub balances : Credentials → SimVenue D → Reply (List (Balance D)) × SimVenue D
  balances c venue = (
    elim (account_of venue c) [
      | refused e ↦ refused e
      | crashed ↦ crashed
      | ok account ↦ ok (balance_of venue account ∷ [])
    ],
    venue,
  )
