-- ===== src/Bots/Memory.antt =====
-- What a bot's row keeps of the guard's memory over a restart: `guard_for` and `remember_state` of
-- apps/api/quanta/services/bot_service.py, with the damage limits of
-- apps/api/quanta/services/risk.py.
use catpn.Prelude.{◌≡◌, refl, true, some, [], arith}
use catpn.Prelude.Decimal.{Decimal, nought}
use catpn.Risk.{
  Time, RiskLimits, RiskState, limits_valid, roll_day, observe, judge_equity, check_equity,
}
use catpn.Bots.{Bot, or_else, limits_of, guard_for, remember_state}

module _ {D : Type 0} ⦃d : Decimal D⦄ where
  -- The damage limits read three figures of the memory, and not the window of orders.
  check_equity-figures :
      (l : RiskLimits D) (seen : D) (moment : Time) (s t : RiskState D)
      → s.day_start_equity ≡ t.day_start_equity
      → s.peak_equity ≡ t.peak_equity
      → s.day_started_at ≡ t.day_started_at
      → (check_equity l seen moment s).0 ≡ (check_equity l seen moment t).0
  unfolding check_equity judge_equity observe roll_day
  check_equity-figures l seen moment s t day peak started = ground arith

  -- The guard of a row with valid limits.
  guard_for-valid :
      (now : Time) (bot : Bot D)
      → limits_valid bot.limits ≡ true
      → guard_for now bot
        ≡ some (
          bot.limits,
          record {
            day_start_equity = or_else bot.day_start_equity (or_else bot.equity nought);
            peak_equity = or_else bot.peak_equity (or_else bot.equity nought);
            day_started_at = or_else bot.day_started_at now;
            recent_orders = [];
          },
        )
  unfolding guard_for limits_of
  guard_for-valid now bot valid = rw (valid, guard_for) refl

  -- A restart does not reset the damage limits: for valid limits, if the row gives back the
  -- equity of the day's start and the peak as they were written, the guard rebuilt from the
  -- row that a memory was written to can be built, and judges any later equity at any moment
  -- as a guard with the bot's limits and this memory does.
  pub guard_for-keeps_damage :
      (stored : D → D) (s : RiskState D) (equity : D) (bot : Bot D) (now : Time)
      → limits_valid bot.limits ≡ true
      → stored s.day_start_equity ≡ s.day_start_equity
      → stored s.peak_equity ≡ s.peak_equity
      → (seen : D) (moment : Time)
      → (guard : RiskLimits D × RiskState D) × (guard_for now (remember_state stored s equity bot)
          ≡ some guard)
        × ((check_equity guard.0 seen moment guard.1).0 ≡ (check_equity bot.limits seen moment s).0)
  unfolding remember_state
  guard_for-keeps_damage stored s equity bot now valid day peak seen moment =
      let row = remember_state stored s equity bot in
      (
        _,
        guard_for-valid now row valid,
        check_equity-figures bot.limits seen moment _ s day peak refl,
      )
