-- ===== src/Series/Causal.antt =====
-- No indicator of series.py reads a bar that is yet to come: the values on the first bars are those
-- of the first bars alone.
use catpn.Prelude.{ℕ, ◌≤◌, Bool, true, ◌≡◌, List, take}
use catpn.Series.{
  Floats, sma, ema, wilder, rsi, stdev, highest, lowest, shift, crossover, crossunder, monotonic,
}
use catpn.Series.{atr}
use catpn.Series.Moving.{atr-first}
use catpn.Series.Warming.{first}
use catpn.Series.Rolling.{sma-first, ema-first, wilder-first, rolling-first}
use catpn.Series.Moving.{shift-take, crossover-take, monotonic-first}
use catpn.Series.Strength.{rsi-first}

module _ {F : Type 0} (f : Floats F) where
  -- For a window of at least one bar, and NaN counted as one, the values of sma, ema, wilder,
  -- rsi, stdev, highest, lowest, atr and shift on the first m bars alone are the first m of
  -- those on all bars, the warm-up of NaNs included.
  pub indicators-first :
      (size m : ℕ) (high low xs : List F)
      → f.is_nan f.nan ≡ true
      → 1 ≤ size
      → (sma f (take m xs) size ≡ first m (sma f xs size))
        × (ema f (take m xs) size ≡ first m (ema f xs size))
        × (wilder f (take m xs) size ≡ first m (wilder f xs size))
        × (rsi f (take m xs) size ≡ first m (rsi f xs size))
        × (stdev f (take m xs) size ≡ first m (stdev f xs size))
        × (highest f (take m xs) size ≡ first m (highest f xs size))
        × (lowest f (take m xs) size ≡ first m (lowest f xs size))
        × (atr f (take m high) (take m low) (take m xs) size ≡ first m (atr f high low xs size))
        × (shift f (take m xs) size ≡ take m (shift f xs size))
  indicators-first size m high low xs h pos = (
    sma-first f size m xs,
    ema-first f size m xs,
    wilder-first f size m xs,
    rsi-first f size m xs h pos,
    rolling-first f f.std size m xs,
    rolling-first f f.largest size m xs,
    rolling-first f f.smallest size m xs,
    atr-first f size m high low xs,
    shift-take f m size xs,
  )

  -- The signals of crossover, crossunder, rising and falling on the first m bars alone are the
  -- first m of those on all bars.
  pub signals-first :
      (increasing : Bool) (size m : ℕ) (xs ys : List F)
      → (crossover f (take m xs) (take m ys) ≡ take m (crossover f xs ys))
        × (crossunder f (take m xs) (take m ys) ≡ take m (crossunder f xs ys))
        × (monotonic f increasing (take m xs) size ≡ first m (monotonic f increasing xs size))
  unfolding crossunder
  signals-first increasing size m xs ys =
      (crossover-take f m xs ys, crossover-take f m ys xs, monotonic-first f increasing size m xs)
