-- ===== src/Series.antt =====
-- packages/engine/quanta_engine/series.py: the indicators over the bars of a market, oldest first.
-- numpy's operations on single float64 numbers, and its reductions of a window to one, are the
-- fields of `Floats`. A function that raises a ValueError gives none.
pub mod Prefix
pub mod Warming
pub mod Rolling
pub mod Moving
pub mod Strength
pub mod Causal
pub mod Lengths
use catpn.Prelude.{
  ℕ, zero, suc, ◌+◌, ◌-◌, Bool, true, false, not, ◌&&◌, ◌||◌, ◌≡◌, Option, none, some, List, [],
  ◌∷◌, ◌++◌, map, ltb, leb, ◌==◌, if◌then◌else◌, length, take, drop,
}

pub record Floats (F : Type 0) : Type 0 where
  pub add : F → F → F
  pub sub : F → F → F
  pub mul : F → F → F
  pub div : F → F → F
  pub modulo : F → F → F
  pub neg : F → F
  pub absolute : F → F
  pub maximum : F → F → F
  pub minimum : F → F → F
  pub less : F → F → Bool
  pub less_equal : F → F → Bool
  pub equal : F → F → Bool
  pub nan : F
  pub is_nan : F → Bool
  pub of_nat : ℕ → F
  pub is_integer : F → Bool
  pub to_nat : F → ℕ
  pub mean : List F → F
  pub std : List F → F
  pub largest : List F → F
  pub smallest : List F → F

-- An operation on two arrays, place by place.
unfoldable pub zip_with : {A B C : Type 0} → (A → B → C) → List A → List B → List C
zip_with f [] ys = []
zip_with f (x ∷ xs) [] = []
zip_with f (x ∷ xs) (y ∷ ys) = f x y ∷ zip_with f xs ys

-- `np.full` of an array's shape
abbrev pub full : {A B : Type 0} → B → List A → List B
full b xs = map (λ _. b) xs

abbrev pub guarded : {A : Type 0} → ℕ → A → Option A
guarded length a = if ltb length 1 then none else some a

module _ {F : Type 0} (f : Floats F) where
  -- `np.nancumsum`
  unfoldable pub nancumsum : F → List F → List F
  nancumsum total [] = []
  nancumsum total (x ∷ xs) =
      let next = (if f.is_nan x then total else f.add total x) in next ∷ nancumsum next xs

  -- The differences of cumulative sums; the second array is cut to the first.
  unfoldable pub window_sums : ℕ → List F → List F
  unfolding nancumsum zip_with
  window_sums size xs =
      let cumulative = f.of_nat 0 ∷ nancumsum (f.of_nat 0) xs in
      zip_with f.sub (drop size cumulative) cumulative

  unfoldable pub sma : List F → ℕ → Option (List F)
  unfolding window_sums
  sma xs size = guarded size (
      if ltb (length xs) size
      then full f.nan xs
      else take (size - 1) (full f.nan xs)
        ++ map (λ w. f.div w (f.of_nat size)) (window_sums size xs))

  -- The loops of `ema` and `wilder` behind their seeds.
  unfoldable pub smooth : (F → F → F) → F → List F → List F
  smooth step previous [] = []
  smooth step previous (x ∷ xs) = let next = step previous x in next ∷ smooth step next xs

  -- NaN up to the first full window, its mean, and the loop from there on.
  unfoldable pub seeded : (F → F → F) → List F → ℕ → List F
  unfolding smooth
  seeded step xs size =
      if ltb (length xs) size
      then full f.nan xs
      else take (size - 1) (full f.nan xs)
        ++ f.mean (take size xs) ∷ smooth step (f.mean (take size xs)) (drop size xs)

  unfoldable pub ema : List F → ℕ → Option (List F)
  unfolding seeded
  ema xs size =
      let k = f.div (f.of_nat 2) (f.add (f.of_nat size) (f.of_nat 1)) in
      guarded size
        (seeded (λ previous x. f.add (f.mul x k) (f.mul previous (f.sub (f.of_nat 1) k))) xs size)

  abbrev pub wilder_step : ℕ → F → F → F
  wilder_step size previous x =
      f.div (f.add (f.mul previous (f.of_nat (size - 1))) x) (f.of_nat size)

  unfoldable pub wilder : List F → ℕ → Option (List F)
  unfolding seeded
  wilder xs size = guarded size (seeded (wilder_step size) xs size)

  abbrev pub differences : List F → List F
  differences xs = zip_with f.sub (drop 1 xs) xs

  abbrev pub gains : List F → List F
  gains xs = map (λ c. f.maximum c (f.of_nat 0)) (differences xs)

  abbrev pub losses : List F → List F
  losses xs = map (λ c. f.maximum (f.neg c) (f.of_nat 0)) (differences xs)

  -- The index of one bar; a window with no losses is 100.
  abbrev pub strength : F → F → F
  strength gain loss =
      if f.is_nan gain
      then f.nan
      else if f.equal loss (f.of_nat 0)
      then f.of_nat 100
      else f.sub (f.of_nat 100) (f.div (f.of_nat 100) (f.add (f.of_nat 1) (f.div gain loss)))

  unfoldable pub rsi : List F → ℕ → Option (List F)
  unfolding seeded zip_with
  rsi xs size =
      if leb (length xs) size
      then some (full f.nan xs)
      else guarded size (
          f.nan
          ∷ zip_with strength (seeded (wilder_step size) (gains xs) size)
              (seeded (wilder_step size) (losses xs) size))

  -- The windows of so many bars that the array has, oldest first.
  unfoldable pub windows : ℕ → List F → List (List F)
  windows size [] = []
  windows size (x ∷ xs) =
      let later = windows size xs in
      if ltb (length (x ∷ xs)) size then [] else take size (x ∷ xs) ∷ later

  -- NaN up to the first full window, then a reduction of each.
  unfoldable pub rolling : (List F → F) → List F → ℕ → Option (List F)
  unfolding windows
  rolling reduce xs size =
      guarded size (take (size - 1) (full f.nan xs) ++ map reduce (windows size xs))

  abbrev pub stdev : List F → ℕ → Option (List F)
  stdev = rolling f.std

  abbrev pub highest : List F → ℕ → Option (List F)
  highest = rolling f.largest

  abbrev pub lowest : List F → ℕ → Option (List F)
  lowest = rolling f.smallest

  -- `previous_close`: the first close, then the closes up to the last but one.
  unfoldable pub previous_closes : List F → List F
  previous_closes [] = []
  previous_closes (c ∷ cs) = take (length (c ∷ cs)) (c ∷ c ∷ cs)

  -- The true range of a bar that has a previous close.
  abbrev pub widest : F × F → F → F
  widest (high, low) previous =
      f.maximum (f.sub high low)
        (f.maximum (f.absolute (f.sub high previous)) (f.absolute (f.sub low previous)))

  -- `out[0] = high[0] - low[0]`
  unfoldable pub first_range : List (F × F) → List F → List F
  first_range ((high, low) ∷ bars) (x ∷ out) = f.sub high low ∷ out
  first_range _ out = out

  -- For arrays of one length, as the columns of a market are.
  unfoldable pub true_range : List F → List F → List F → List F
  unfolding previous_closes first_range zip_with
  true_range high low close =
      let bars = zip_with (λ h l. (h, l)) high low in
      first_range bars (zip_with widest bars (previous_closes close))

  unfoldable pub atr : List F → List F → List F → ℕ → Option (List F)
  unfolding true_range wilder
  atr high low close size = wilder (true_range high low close) size

  unfoldable pub shift : List F → ℕ → List F
  shift xs periods =
      if periods == 0
      then xs
      else if ltb periods (length xs)
      then take periods (full f.nan xs) ++ take (length xs - periods) xs
      else full f.nan xs

  -- The crossing on one bar, from this bar's numbers and the previous ones.
  abbrev pub crossed : F × F → F × F → Bool
  crossed (a, b) (previous_a, previous_b) =
      (f.less_equal previous_a previous_b && f.less b a)
      && not (f.is_nan a || f.is_nan b || f.is_nan previous_a || f.is_nan previous_b)

  unfoldable pub crossover : List F → List F → List Bool
  unfolding zip_with shift
  crossover a b =
      zip_with crossed (zip_with (λ x y. (x, y)) a b)
        (zip_with (λ x y. (x, y)) (shift a 1) (shift b 1))

  unfoldable pub crossunder : List F → List F → List Bool
  unfolding crossover
  crossunder a b = crossover b a

  abbrev pub moved : Bool → F → F → Bool
  moved increasing later earlier =
      (if increasing then f.less earlier later else f.less later earlier)
      && not (f.is_nan later)
      && not (f.is_nan earlier)

  -- The loop over the steps from one on.
  unfoldable pub monotonic_from : ℕ → ℕ → Bool → List F → List Bool → List Bool
  unfolding zip_with shift
  monotonic_from zero step increasing xs out = out
  monotonic_from (suc n) step increasing xs out = monotonic_from n (suc step) increasing xs (
      zip_with (λ o m. o && m) out
        (zip_with (moved increasing) (shift xs step) (shift xs (suc step))))

  unfoldable pub monotonic : Bool → List F → ℕ → Option (List Bool)
  unfolding monotonic_from
  monotonic increasing xs size = guarded size (monotonic_from size 0 increasing xs (full true xs))
