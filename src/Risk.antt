-- ===== src/Risk.antt =====
-- apps/api/quanta/services/risk.py: the limits of a live bot.
-- A moment is a count of microseconds since the epoch, in UTC. Where the source writes
-- `at or datetime.now(UTC)`, the moment that this gives is an argument; one call reads one moment.
-- The text of a verdict's message is left out: it is made of `observed` and `limit`.
pub mod Window
pub mod Verdicts
pub mod Memory
use catpn.Prelude.{
  ℕ, ◌+◌, ◌-◌, ◌%◌, Bool, true, false, not, Option, none, some, List, [], ◌∷◌, ◌++◌, ltb, leb,
  if◌then◌else◌, length, map, ◌&&◌,
}
use catpn.Prelude.Decimal.{Decimal, ◌≼◌, ◌≺◌, nought, dec_max, dec_min, dec_sum_from}
use catpn.Trading.{OrderRequest, Position, notional}

pub data RiskCode : Type 0 where
  fine position_too_large daily_loss max_drawdown leverage_too_high rate_limited : RiskCode

pub record RiskLimits (D : Type 0) : Type 0 where
  pub max_position_notional : D
  pub max_daily_loss : D
  pub max_drawdown_percent : D
  pub max_leverage : ℕ
  pub max_orders_per_minute : ℕ

pub record RiskVerdict (D : Type 0) : Type 0 where
  pub allowed : Bool
  pub code : RiskCode
  pub halt : Bool
  pub observed : Option D
  pub limit : Option D

abbrev pub Time : Type 0
Time = ℕ

-- Microseconds in a day, and in the minute of the rate window.
abbrev pub day_length : ℕ
day_length = 86_400_000_000

abbrev pub minute_length : ℕ
minute_length = 60_000_000

unfoldable pub day_start : Time → Time
day_start at = at - at % day_length

-- The timestamps of recent orders stand oldest first.
pub record RiskState (D : Type 0) : Type 0 where
  pub day_start_equity : D
  pub peak_equity : D
  pub day_started_at : Time
  pub recent_orders : List Time

-- `_trim`: drop from the old end what is a minute old or older.
unfoldable pub trim_orders : Time → List Time → List Time
trim_orders moment [] = []
trim_orders moment (t ∷ ts) = elim (leb (t + minute_length) moment) [
  | true ↦ trim_orders moment ts
  | false ↦ t ∷ ts
]

module _ {D : Type 0} ⦃d : Decimal D⦄ where
  -- `RiskLimits.__post_init__`: whether it raises no `ValueError`.
  unfoldable pub limits_valid : RiskLimits D → Bool
  limits_valid l =
      not (l.max_position_notional ≼ nought)
      && not (l.max_daily_loss ≼ nought)
      && (nought ≺ l.max_drawdown_percent && l.max_drawdown_percent ≼ d.of_nat 100)
      && leb 1 l.max_leverage
      && leb 1 l.max_orders_per_minute

  abbrev pub allow : RiskVerdict D
  allow = record { allowed = true; code = fine; halt = false; observed = none; limit = none }

  abbrev pub refuse : RiskCode → Bool → D → D → RiskVerdict D
  refuse c stop seen bound = record {
    allowed = false;
    code = c;
    halt = stop;
    observed = some seen;
    limit = some bound;
  }

  unfoldable pub starting_at : D → Time → RiskState D
  unfolding day_start
  starting_at equity moment = record {
    day_start_equity = equity;
    peak_equity = equity;
    day_started_at = day_start moment;
    recent_orders = [];
  }

  -- `observe`: roll the day at the boundary, then raise the peak.
  unfoldable pub roll_day : D → Time → RiskState D → RiskState D
  roll_day equity moment s =
      if ltb s.day_started_at (day_start moment)
      then record s { day_started_at = day_start moment; day_start_equity = equity }
      else s

  unfoldable pub observe : D → Time → RiskState D → RiskState D
  unfolding roll_day
  observe equity moment s =
      let rolled = roll_day equity moment s in
      if rolled.peak_equity ≺ equity then record rolled { peak_equity = equity } else rolled

  unfoldable pub record_order : Time → RiskState D → RiskState D
  record_order moment s = record s {
    recent_orders = trim_orders moment (s.recent_orders ++ moment ∷ []);
  }

  -- The call trims the window, so it returns the state too.
  unfoldable pub orders_in_last_minute : Time → RiskState D → ℕ × RiskState D
  orders_in_last_minute moment s =
      let left = trim_orders moment s.recent_orders in
      (length left, record s { recent_orders = left })

  unfoldable pub drawdown_percent : D → D → D
  drawdown_percent peak equity = d.mul (d.div (d.sub peak equity) peak) (d.of_nat 100)

  -- The body of `check_equity` after `observe`.
  unfoldable pub judge_equity : RiskLimits D → D → RiskState D → RiskVerdict D
  judge_equity l equity s =
      let lost = d.sub s.day_start_equity equity in
      let drop = drawdown_percent s.peak_equity equity in
      if l.max_daily_loss ≼ lost
      then refuse daily_loss true lost l.max_daily_loss
      else if nought ≺ s.peak_equity && l.max_drawdown_percent ≼ drop
      then refuse max_drawdown true drop l.max_drawdown_percent
      else allow

  unfoldable pub check_equity : RiskLimits D → D → Time → RiskState D → RiskVerdict D × RiskState D
  check_equity l equity moment s =
      let seen = observe equity moment s in (judge_equity l equity seen, seen)

  unfoldable pub held_notional : List (Position D) → D
  held_notional positions = dec_sum_from nought (map notional positions)

  -- The three tests of `check_order` behind the damage limits.
  unfoldable pub judge_order :
      RiskLimits D
      → OrderRequest D
      → D
      → List (Position D)
      → ℕ
      → Time
      → RiskState D
      → RiskVerdict D × RiskState D
  judge_order l request price positions leverage moment s =
      let (rate, trimmed) = orders_in_last_minute moment s in
      let after = d.add (held_notional positions) (d.mul request.qty price) in
      if ltb l.max_leverage leverage
      then (refuse leverage_too_high true (d.of_nat leverage) (d.of_nat l.max_leverage), s)
      else if leb l.max_orders_per_minute rate
      then (refuse rate_limited false (d.of_nat rate) (d.of_nat l.max_orders_per_minute), trimmed)
      else if l.max_position_notional ≺ after
      then (refuse position_too_large false after l.max_position_notional, trimmed)
      else (allow, trimmed)

  unfoldable pub check_order :
      RiskLimits D
      → OrderRequest D
      → D
      → D
      → List (Position D)
      → ℕ
      → Time
      → RiskState D
      → RiskVerdict D × RiskState D
  check_order l request price equity positions leverage moment s =
      let (damage, seen) = check_equity l equity moment s in
      if request.reduce_only
      then (allow, s)
      else if damage.allowed
      then judge_order l request price positions leverage moment seen
      else (damage, seen)

  unfoldable pub largest_allowed_qty : RiskLimits D → D → List (Position D) → D
  largest_allowed_qty l price positions =
      if price ≼ nought
      then nought
      else dec_max nought (d.div (d.sub l.max_position_notional (held_notional positions)) price)

  -- `budgets`: the used share of the daily loss, and of the drawdown, in percent.
  unfoldable pub daily_loss_used : RiskLimits D → RiskState D → D → D
  daily_loss_used l s equity = dec_min (d.of_nat 100) (
      d.mul (d.div (dec_max nought (d.sub s.day_start_equity equity)) l.max_daily_loss)
        (d.of_nat 100))

  unfoldable pub drawdown_used : RiskLimits D → RiskState D → D → D
  drawdown_used l s equity =
      if nought ≺ s.peak_equity
      then dec_min (d.of_nat 100) (
          d.mul
            (d.div (dec_max nought (drawdown_percent s.peak_equity equity)) l.max_drawdown_percent)
            (d.of_nat 100))
      else nought
