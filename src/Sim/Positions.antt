-- ===== src/Sim/Positions.antt =====
-- Fills and positions of apps/api/quanta/exchanges/sim/trading.py: `_apply`, `_pnl`, `_available`,
-- `balances` and `positions`.
pub mod Reducing
use catpn.Prelude.{
  ℕ, String, Bool, true, false, not, Option, none, some, List, map, if◌then◌else◌, ◌&&◌,
}
use catpn.Prelude.Decimal.{Decimal, ◌≺◌, nought, dec_min, dec_sum_from}
use catpn.Prelude.Dict.{Dict, find, put, delete, values}
use catpn.Trading.{OrderSide, is_buy, same_side, MarginMode, OrderRequest, Position, Balance}
use catpn.Sim.{SimAccount, SimVenue, position_key}

abbrev pub get_or {ℓ} : {A : Type ℓ} → Option A → A → A
get_or none d = d
get_or (some a) d = a

module _ {D : Type 0} ⦃d : Decimal D⦄ where
  unfoldable pub pnl : OrderSide → D → D → D → D
  pnl side entry exit_price qty =
      d.mul (d.mul (d.sub exit_price entry) qty)
        (if is_buy side then d.of_nat 1 else d.neg (d.of_nat 1))

  -- The margin behind a quantity at a price.
  abbrev pub margin_for : D → D → ℕ → D
  margin_for qty price leverage = d.div (d.mul qty price) (d.of_nat leverage)

  -- A position that is opened by a request, at its key.
  unfoldable pub opened : String → OrderRequest D → D → D → ℕ → MarginMode → Position D
  opened key request qty price leverage margin_mode = record {
    symbol = request.symbol;
    side = request.side;
    qty = qty;
    entry_price = price;
    leverage = leverage;
    margin_mode = margin_mode;
    position_id = some key;
    mark_price = some price;
    liquidation_price = none;
    unrealised_pnl = none;
    realised_pnl = none;
    margin = some (margin_for qty price leverage);
  }

  -- Adding to a position in its own direction.
  unfoldable pub grow : SimAccount D → String → OrderRequest D → D → ℕ → Position D → SimAccount D
  grow account key request price leverage existing =
      let total = d.add existing.qty request.qty in
      let entry =
        d.div (d.add (d.mul existing.entry_price existing.qty) (d.mul price request.qty)) total in
      record account {
        positions =
            put key
              (record existing {
                qty = total;
                entry_price = entry;
                margin = some (margin_for total entry leverage);
              })
              account.positions;
      }

  -- Reducing, closing or flipping a position.
  unfoldable pub shrink :
      SimAccount D → String → OrderRequest D → D → ℕ → MarginMode → Position D → SimAccount D
  unfolding opened
  shrink account key request price leverage margin_mode existing =
      let closed = dec_min existing.qty request.qty in
      let gain = pnl existing.side existing.entry_price price closed in
      let paid = record account {
        realised_pnl = d.add account.realised_pnl gain;
        equity = d.add account.equity gain;
      } in
      let remainder = d.sub request.qty closed in
      let left = d.sub existing.qty closed in
      let flipped = position_key request.symbol request.side account.position_mode in
      if closed ≺ existing.qty
      then record paid {
        positions =
            put key
              (record existing {
                qty = left;
                margin = some (margin_for left existing.entry_price leverage);
              })
              account.positions;
      }
      else if nought ≺ remainder && not request.reduce_only
      then record paid {
        positions =
            put flipped (opened flipped request remainder price leverage margin_mode)
              (delete key account.positions);
      }
      else record paid { positions = delete key account.positions }

  -- `_apply`
  unfoldable pub apply :
      SimAccount D → String → OrderRequest D → D → ℕ → MarginMode → Bool → SimAccount D
  unfolding opened
  apply account key request price leverage margin_mode closing = elim (find key account.positions) [
    | none ↦ record account {
      positions =
          put key (opened key request request.qty price leverage margin_mode) account.positions;
    }
    | some existing ↦
        if same_side existing.side request.side && not closing
        then grow account key request price leverage existing
        else shrink account key request price leverage margin_mode existing
  ]

  -- `_unrealised`, `_marked`
  unfoldable pub unrealised : SimVenue D → Position D → D
  unfolding pnl
  unrealised venue p =
      pnl p.side p.entry_price (get_or (find p.symbol venue.prices) p.entry_price) p.qty

  unfoldable pub marked : SimVenue D → Position D → Position D
  marked venue p = record p {
    mark_price = some (get_or (find p.symbol venue.prices) p.entry_price);
    unrealised_pnl = some (unrealised venue p);
  }

  -- The margin in use.
  unfoldable pub used_margin : SimAccount D → D
  used_margin account =
      dec_sum_from nought (map (λ p. get_or p.margin nought) (values account.positions))

  -- `_available`
  unfoldable pub available : SimAccount D → D
  unfolding used_margin
  available account = d.sub account.equity (used_margin account)

  unfoldable pub balance_of : SimVenue D → SimAccount D → Balance D
  unfolding available
  balance_of venue account =
      let floating = dec_sum_from nought (map (unrealised venue) (values account.positions)) in
      record {
        currency = account.currency;
        equity = d.add account.equity floating;
        available = available account;
        used_margin = used_margin account;
        unrealised_pnl = floating;
      }
