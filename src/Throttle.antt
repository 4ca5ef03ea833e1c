-- ===== src/Throttle.antt =====
-- apps/api/quanta/exchanges/throttle.py: the token bucket `AsyncRateLimiter`. Tokens and clock
-- readings are floats, of the parameter type `F` with the host's operations on it, so nothing is
-- said of exact arithmetic. The lock makes an attempt one step, and a caller that sleeps attempts
-- again at a later reading of the clock. The number of tokens asked for is a natural.
pub mod Bounds
use catpn.Prelude.{ℕ, ◌+◌, Bool, List, [], ◌∷◌, ltb, if◌then◌else◌}

-- The host's floats, and `float` of an int.
pub record FloatOps (F : Type 0) : Type 0 where
  pub less : F → F → Bool
  pub less_equal : F → F → Bool
  pub add : F → F → F
  pub sub : F → F → F
  pub mul : F → F → F
  pub div : F → F → F
  pub of_nat : ℕ → F

-- `AsyncRateLimiter`
pub record Bucket (F : Type 0) : Type 0 where
  pub rate : ℕ
  pub period : F
  pub capacity : ℕ
  pub tokens : F
  pub updated : F

-- What an attempt comes to: the tokens are spent, or there is a time to sleep.
pub data Attempt (F : Type 0) : Type 0 where
  granted : Attempt F
  sleeps : F → Attempt F

-- How `acquire` stands after some attempts: it raised, it still waits, or it returned.
pub data Acquired (F : Type 0) : Type 0 where
  impossible waiting : Acquired F
  acquired : F → Acquired F

-- One turn of a caller under the lock.
pub record Turn (F : Type 0) : Type 0 where
  pub moment : F
  pub wanted : ℕ

module _ {F : Type 0} (f : FloatOps F) where
  -- `__init__`, with the burst given
  unfoldable pub full_bucket : ℕ → F → ℕ → F → Bucket F
  full_bucket rate period burst now = record {
    rate = rate;
    period = period;
    capacity = burst;
    tokens = f.of_nat burst;
    updated = now;
  }

  -- min(x, y): the first argument unless the second is smaller
  abbrev pub least : F → F → F
  least x y = if f.less y x then y else x

  abbrev pub earned : F → Bucket F → F
  earned elapsed b = f.add b.tokens (f.mul elapsed (f.div (f.of_nat b.rate) b.period))

  -- `_refill`
  unfoldable pub refill : F → Bucket F → Bucket F
  refill now b =
      let elapsed = f.sub now b.updated in
      if f.less_equal elapsed (f.of_nat 0)
      then b
      else record b { tokens = least (f.of_nat b.capacity) (earned elapsed b); updated = now }

  abbrev pub spend : ℕ → Bucket F → Bucket F
  spend n b = record b { tokens = f.sub b.tokens (f.of_nat n) }

  -- The sleep of a caller that finds too few tokens.
  unfoldable pub wait : ℕ → Bucket F → F
  wait n b =
      let deficit = f.sub (f.of_nat n) b.tokens in f.div (f.mul deficit b.period) (f.of_nat b.rate)

  -- The body of the loop of `acquire`, under the lock.
  unfoldable pub attempt : F → ℕ → Bucket F → Attempt F × Bucket F
  attempt now n b =
      let r = refill now b in
      if f.less_equal (f.of_nat n) r.tokens then (granted, spend n r) else (sleeps (wait n r), r)

  -- The loop, at the readings of the clock at which the caller holds the lock.
  unfoldable pub acquire_at : ℕ → List F → Bucket F → Acquired F × Bucket F
  acquire_at n [] b = (waiting, b)
  acquire_at n (now ∷ later) b =
      let one = attempt now n b in
      let rest = acquire_at n later one.1 in
      elim one.0 [ granted ↦ (acquired now, one.1) | sleeps w ↦ rest ]

  -- `acquire`
  unfoldable pub acquire : ℕ → List F → Bucket F → Acquired F × Bucket F
  acquire n moments b = if ltb b.capacity n then (impossible, b) else acquire_at n moments b

  abbrev pub spent : Attempt F → ℕ → ℕ
  spent granted n = n
  spent (sleeps w) n = 0

  -- The turns of all callers in the order of the lock: the tokens spent, and the bucket.
  unfoldable pub serve : List (Turn F) → Bucket F → ℕ × Bucket F
  serve [] b = (0, b)
  serve (t ∷ ts) b =
      let (outcome, after) = attempt t.moment t.wanted b in
      let (others, left) = serve ts after in (spent outcome t.wanted + others, left)
