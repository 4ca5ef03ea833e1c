-- ===== src/Throttle/Bounds.antt =====
-- What the bucket of apps/api/quanta/exchanges/throttle.py holds, over any turns of its callers.
use mathlib.Core.Path.{subst₂}
use catpn.Prelude.{
  ℕ, ◌+◌, ◌≤◌, ◌≡◌, refl, sym, ◌∙◌, subst, ◌⊎◌, Bool, true, false, List, [], ◌∷◌, arith, Bool-cases,
  inl, inr, All,
}
use catpn.Throttle.{
  FloatOps, Bucket, granted, full_bucket, least, earned, refill, spend, attempt, spent, Turn, serve,
}

-- 2 ** 53, up to which every natural is a float.
abbrev pub exact_up_to : ℕ
exact_up_to = 9_007_199_254_740_992

-- What IEEE floats keep of the order of numbers. Each line holds of them with rounding, and with
-- infinities and NaNs, which compare with nothing; `finite` is `math.isfinite`, and `number` is that
-- a value is not NaN. A natural is one that `float` takes without an overflow. That a difference of
-- a float up to 2 ** 53 and a natural below it is exact is what `sub_exact` rests on.
pub record KeepsOrder {F : Type 0} (f : FloatOps F) : Type 0 where
  pub finite : F → Bool
  pub number : F → Bool
  pub nat_finite : (n : ℕ) → finite (f.of_nat n) ≡ true
  pub nat_nonneg : (n : ℕ) → f.less_equal (f.of_nat 0) (f.of_nat n) ≡ true
  pub finite_refl : (x : F) → finite x ≡ true → f.less_equal x x ≡ true
  pub order_trans :
      (x y z : F) → f.less_equal x y ≡ true → f.less_equal y z ≡ true → f.less_equal x z ≡ true
  pub less_le : (x y : F) → f.less x y ≡ true → f.less_equal x y ≡ true
  pub nat_number : (n : ℕ) → number (f.of_nat n) ≡ true
  pub not_le :
      (x y : F) → number x ≡ true → number y ≡ true → f.less_equal x y ≡ false → f.less y x ≡ true
  pub sub_number : (x y : F) → finite x ≡ true → finite y ≡ true → number (f.sub x y) ≡ true
  pub sub_positive : (x y : F) → f.less (f.of_nat 0) (f.sub x y) ≡ true → f.less_equal y x ≡ true
  pub sub_nonneg :
      (x y : F)
      → finite y ≡ true
      → f.less_equal y x ≡ true
      → f.less_equal (f.of_nat 0) (f.sub x y) ≡ true
  pub sub_below :
      (x y z : F)
      → finite y ≡ true
      → f.less_equal (f.of_nat 0) y ≡ true
      → f.less_equal x z ≡ true
      → f.less_equal (f.sub x y) z ≡ true
  pub sub_exact :
      (x : F) (n m capacity : ℕ)
      → capacity ≤ exact_up_to
      → f.less_equal x (f.of_nat capacity) ≡ true
      → f.less_equal (f.of_nat n) x ≡ true
      → f.less_equal (f.of_nat m) (f.sub x (f.of_nat n)) ≡ true
      → f.less_equal (f.of_nat (n + m)) x ≡ true
  pub add_nonneg :
      (x y : F)
      → f.less_equal (f.of_nat 0) x ≡ true
      → f.less_equal (f.of_nat 0) y ≡ true
      → f.less_equal (f.of_nat 0) (f.add x y) ≡ true
  pub mul_nonneg :
      (x y : F)
      → f.less (f.of_nat 0) x ≡ true
      → f.less (f.of_nat 0) y ≡ true
      → f.less_equal (f.of_nat 0) (f.mul x y) ≡ true

module _ {F : Type 0} (f : FloatOps F) (laws : KeepsOrder f) where
  -- The bucket is neither overdrawn nor overfull, and was filled at a finite reading of the clock.
  pub record IsFilled (b : Bucket F) : Type 0 where
    pub nonneg : f.less_equal (f.of_nat 0) b.tokens ≡ true
    pub capped : f.less_equal b.tokens (f.of_nat b.capacity) ≡ true
    pub dated : laws.finite b.updated ≡ true

  -- The rate over the period is positive.
  abbrev pub IsPaced : Bucket F → Type 0
  IsPaced b = f.less (f.of_nat 0) (f.div (f.of_nat b.rate) b.period) ≡ true

  -- What a step makes of a bucket: its bounds hold, its settings stay, its clock does not go back.
  pub record Kept (b b' : Bucket F) : Type 0 where
    pub filled : IsFilled b'
    pub same_rate : b'.rate ≡ b.rate
    pub same_period : b'.period ≡ b.period
    pub same_capacity : b'.capacity ≡ b.capacity
    pub onward : f.less_equal b.updated b'.updated ≡ true

  least_below : (x y : F) → laws.finite x ≡ true → f.less_equal (least f x y) x ≡ true
  least_below x y h = elim (Bool-cases (f.less y x)) [
    | inl e ↦ rw e (laws.less_le y x e)
    | inr e ↦ rw e (laws.finite_refl x h)
  ]

  least_nonneg :
      (x y : F)
      → f.less_equal (f.of_nat 0) x ≡ true
      → f.less_equal (f.of_nat 0) y ≡ true
      → f.less_equal (f.of_nat 0) (least f x y) ≡ true
  least_nonneg x y h k = elim (Bool-cases (f.less y x)) [ inl e ↦ rw e k | inr e ↦ rw e h ]

  Kept-refl : (b : Bucket F) → IsFilled b → Kept b b
  Kept-refl b h = record {
    filled = h;
    same_rate = refl;
    same_period = refl;
    same_capacity = refl;
    onward = laws.finite_refl b.updated h.dated;
  }

  Kept-trans : (a b c : Bucket F) → Kept a b → Kept b c → Kept a c
  Kept-trans a b c h k = record {
    filled = k.filled;
    same_rate = k.same_rate ∙ h.same_rate;
    same_period = k.same_period ∙ h.same_period;
    same_capacity = k.same_capacity ∙ h.same_capacity;
    onward = laws.order_trans a.updated b.updated c.updated h.onward k.onward;
  }

  refill-Kept :
      (now : F) (b : Bucket F)
      → laws.finite now ≡ true
      → IsPaced b
      → IsFilled b
      → Kept b (refill f now b)
  unfolding refill
  refill-Kept now b moment paced h =
      let elapsed = f.sub now b.updated in
      elim (Bool-cases (f.less_equal elapsed (f.of_nat 0))) [
        | inl e ↦ rw (e, refill) (Kept-refl b h)
        | inr e ↦
            let later : f.less (f.of_nat 0) elapsed ≡ true =
              laws.not_le elapsed (f.of_nat 0) (laws.sub_number now b.updated moment h.dated)
                (laws.nat_number 0) e in
            let income = laws.mul_nonneg elapsed _ later paced in
            let whole = laws.add_nonneg b.tokens _ h.nonneg income in
            let top = laws.nat_finite b.capacity in
            rw (e, refill)
              (record {
                filled = record {
                  nonneg =
                      least_nonneg (f.of_nat b.capacity) (earned f elapsed b)
                        (laws.nat_nonneg b.capacity) whole;
                  capped = least_below (f.of_nat b.capacity) (earned f elapsed b) top;
                  dated = moment;
                };
                same_rate = refl;
                same_period = refl;
                same_capacity = refl;
                onward = laws.sub_positive now b.updated later;
              })
      ]

  spend-Kept :
      (n : ℕ) (b : Bucket F)
      → f.less_equal (f.of_nat n) b.tokens ≡ true
      → IsFilled b
      → Kept b (spend f n b)
  spend-Kept n b enough h = record {
    filled = record {
      nonneg = laws.sub_nonneg b.tokens (f.of_nat n) (laws.nat_finite n) enough;
      capped =
          laws.sub_below b.tokens (f.of_nat n) (f.of_nat b.capacity) (laws.nat_finite n)
            (laws.nat_nonneg n) h.capped;
      dated = h.dated;
    };
    same_rate = refl;
    same_period = refl;
    same_capacity = refl;
    onward = laws.finite_refl b.updated h.dated;
  }

  attempt-Kept :
      (now : F) (n : ℕ) (b : Bucket F)
      → laws.finite now ≡ true
      → IsPaced b
      → IsFilled b
      → Kept b (attempt f now n b).1
  unfolding attempt
  attempt-Kept now n b moment paced h =
      let r = refill f now b in
      let k = refill-Kept now b moment paced h in
      elim (Bool-cases (f.less_equal (f.of_nat n) r.tokens)) [
        | inl e ↦ rw (e, attempt) (Kept-trans b r (spend f n r) k (spend-Kept n r e k.filled))
        | inr e ↦ rw (e, attempt) k
      ]

  serve-Kept :
      (ts : List (Turn F)) (b : Bucket F)
      → All (λ t. laws.finite t.moment ≡ true) ts
      → IsPaced b
      → IsFilled b
      → Kept b (serve f ts b).1
  unfolding serve
  serve-Kept [] b moments paced h = Kept-refl b h
  serve-Kept (t ∷ ts) b moments paced h =
      let one = (attempt f t.moment t.wanted b).1 in
      let k = attempt-Kept t.moment t.wanted b moments.0 paced h in
      let paced_on : IsPaced one =
        subst₂ (λ n q. f.less (f.of_nat 0) (f.div (f.of_nat n) q) ≡ true) (sym k.same_rate)
          (sym k.same_period) paced in
      Kept-trans b one _ k (serve-Kept ts one moments.1 paced_on k.filled)

  full_bucket-IsFilled :
      (rate : ℕ) (period : F) (burst : ℕ) (start : F)
      → laws.finite start ≡ true
      → IsFilled (full_bucket f rate period burst start)
  unfolding full_bucket
  full_bucket-IsFilled rate period burst start h = record {
    nonneg = laws.nat_nonneg burst;
    capped = laws.finite_refl (f.of_nat burst) (laws.nat_finite burst);
    dated = h;
  }

  serve_full :
      (rate : ℕ) (period : F) (burst : ℕ) (start : F) (ts : List (Turn F))
      → laws.finite start ≡ true
      → f.less (f.of_nat 0) (f.div (f.of_nat rate) period) ≡ true
      → All (λ t. laws.finite t.moment ≡ true) ts
      → Kept
          (full_bucket f rate period burst start)
          (serve f ts (full_bucket f rate period burst start)).1
  unfolding full_bucket
  serve_full rate period burst start ts h paced moments =
      serve-Kept ts (full_bucket f rate period burst start) moments paced
        (full_bucket-IsFilled rate period burst start h)

  -- Over floats whose operations keep the order of numbers as IEEE floats do, rounding
  -- included: whatever callers take turns, at finite readings of the clock, at a bucket that
  -- was full at a finite start and whose rate over the period is positive, its tokens are
  -- never negative and never more than its burst, and its time does not go back.
  pub serve_keeps_bounds :
      (rate : ℕ) (period : F) (burst : ℕ) (start : F) (ts : List (Turn F))
      → laws.finite start ≡ true
      → f.less (f.of_nat 0) (f.div (f.of_nat rate) period) ≡ true
      → All (λ t. laws.finite t.moment ≡ true) ts
      → let left = (serve f ts (full_bucket f rate period burst start)).1 in
        (f.less_equal (f.of_nat 0) left.tokens ≡ true)
        × (f.less_equal left.tokens (f.of_nat burst) ≡ true)
        × (f.less_equal start left.updated ≡ true)
  unfolding full_bucket
  serve_keeps_bounds rate period burst start ts h paced moments =
      let k = serve_full rate period burst start ts h paced moments in
      let left = (serve f ts (full_bucket f rate period burst start)).1 in
      (
        k.filled.nonneg,
        subst (λ n. f.less_equal left.tokens (f.of_nat n) ≡ true) k.same_capacity k.filled.capped,
        k.onward,
      )

  -- The clock shows no later moment than the one at which the bucket was filled.
  abbrev pub IsAt : F → Turn F → Type 0
  IsAt updated t = f.less_equal (f.sub t.moment updated) (f.of_nat 0) ≡ true

  refill-still :
      (now : F) (b : Bucket F)
      → f.less_equal (f.sub now b.updated) (f.of_nat 0) ≡ true
      → refill f now b ≡ b
  unfolding refill
  refill-still now b h = rw (h, refill) refl

  attempt-still :
      (now : F) (n : ℕ) (b : Bucket F)
      → f.less_equal (f.sub now b.updated) (f.of_nat 0) ≡ true
      → ((attempt f now n b ≡ (granted, spend f n b)) × (f.less_equal (f.of_nat n) b.tokens ≡ true))
        ⊎ ((spent f (attempt f now n b).0 n ≡ 0) × ((attempt f now n b).1 ≡ b))
  unfolding attempt
  attempt-still now n b h =
      let same = refill-still now b h in
      elim (Bool-cases (f.less_equal (f.of_nat n) b.tokens)) [
        | inl e ↦ inl (rw (same, attempt, e) refl, e)
        | inr e ↦ inr (rw (same, attempt, e) (refl, refl))
      ]

  serve-still :
      (ts : List (Turn F)) (b : Bucket F)
      → b.capacity ≤ exact_up_to
      → IsFilled b
      → All (IsAt b.updated) ts
      → f.less_equal (f.of_nat (serve f ts b).0) b.tokens ≡ true
  unfolding serve
  serve-still [] b small h still = h.nonneg
  serve-still (t ∷ ts) b small h still = elim (attempt-still t.moment t.wanted b still.0) [
    | inl (gave, enough) ↦
        let left = spend f t.wanted b in
        let k = spend-Kept t.wanted b enough h in
        let rest = serve-still ts left small k.filled still.1 in
        rw gave (
          laws.sub_exact b.tokens t.wanted (serve f ts left).0 b.capacity small h.capped enough
            rest)
    | inr (nothing, same) ↦
        let rest = serve-still ts b small h still.1 in
        rw (nothing, same)
          (subst (λ n. f.less_equal (f.of_nat n) b.tokens ≡ true) {x = (serve f ts b).0}
            (omega arith) rest)
  ]

  -- Over the same floats, for a burst of at most 2 ** 53 and after any such turns: further
  -- callers that take their turns before the clock has moved past the last filling of the
  -- bucket are together granted no more than the tokens it holds, and no more than its burst.
  pub serve_bursts :
      (rate : ℕ) (period : F) (burst : ℕ) (start : F) (ts now : List (Turn F))
      → burst ≤ exact_up_to
      → laws.finite start ≡ true
      → f.less (f.of_nat 0) (f.div (f.of_nat rate) period) ≡ true
      → All (λ t. laws.finite t.moment ≡ true) ts
      → let before = (serve f ts (full_bucket f rate period burst start)).1 in
        All (IsAt before.updated) now
        → (f.less_equal (f.of_nat (serve f now before).0) before.tokens ≡ true)
          × (f.less_equal (f.of_nat (serve f now before).0) (f.of_nat burst) ≡ true)
  unfolding full_bucket
  serve_bursts rate period burst start ts now small h paced moments still =
      let k = serve_full rate period burst start ts h paced moments in
      let before = (serve f ts (full_bucket f rate period burst start)).1 in
      let held : before.capacity ≤ exact_up_to =
        subst (λ n. n ≤ exact_up_to) (sym k.same_capacity) small in
      let within = serve-still now before held k.filled still in
      let bounds = serve_keeps_bounds rate period burst start ts h paced moments in
      (within, laws.order_trans _ before.tokens (f.of_nat burst) within bounds.1)
