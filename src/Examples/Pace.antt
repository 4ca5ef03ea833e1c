-- ===== src/Examples/Pace.antt =====
-- Concrete calls against the token bucket of apps/api/quanta/exchanges/throttle.py, with whole
-- numbers for the floats: two tokens for each unit of time, and a burst of two.
use catpn.Prelude.{ℕ, ◌≡◌, refl, true, not, List, [], ◌∷◌, arith}
use catpn.Prelude.Int.{ℤ, pos, leb_ℤ, whole, whole-KeepsSign}
use catpn.Throttle.{
  FloatOps, Turn, full_bucket, serve, attempt, refill, acquire, acquire_at, impossible, acquired,
}
use catpn.Throttle.Bounds.{KeepsOrder, serve_keeps_bounds, serve_bursts}

abbrev toy : FloatOps ℤ
toy = record {
  less = λ x y. not (leb_ℤ y x);
  less_equal = leb_ℤ;
  add = whole.add;
  sub = whole.sub;
  mul = whole.mul;
  div = whole.div;
  of_nat = pos;
}

toy-KeepsOrder : KeepsOrder toy
toy-KeepsOrder = record {
  finite = λ x. true;
  number = λ x. true;
  nat_finite = λ n. refl;
  nat_nonneg = λ n. ground arith;
  finite_refl = λ x h. ground arith;
  order_trans = λ x y z h k. ground arith;
  less_le = λ x y h. ground arith;
  nat_number = λ n. refl;
  not_le = λ x y h k e. ground arith;
  sub_number = λ x y h k. refl;
  sub_positive = λ x y h. ground arith;
  sub_nonneg = λ x y h k. ground arith;
  sub_below = λ x y z h k l. ground arith;
  sub_exact = λ x n m c q h k l. ground arith;
  add_nonneg = λ x y h k. ground arith;
  mul_nonneg = λ x y h k. whole-KeepsSign.mul_nonneg x y (ground arith) (ground arith);
}

abbrev at : ℕ → Turn ℤ
at t = record { moment = pos t; wanted = 1 }

abbrev calls : List (Turn ℤ)
calls = at 0 ∷ at 0 ∷ at 0 ∷ at 5 ∷ []

abbrev at_once : List (Turn ℤ)
at_once = at 5 ∷ at 5 ∷ at 5 ∷ []

-- Of four calls, the third finds the bucket empty.
served : (serve toy calls (full_bucket toy 2 (pos 1) 2 (pos 0))).0 ≡ 3
unfolding serve attempt refill full_bucket
served = refl

too_many : (acquire toy 3 [] (full_bucket toy 2 (pos 1) 2 (pos 0))).0 ≡ impossible
unfolding acquire full_bucket
too_many = refl

slept : (acquire toy 2 (pos 0 ∷ []) (full_bucket toy 2 (pos 1) 2 (pos 0))).0 ≡ acquired (pos 0)
unfolding acquire acquire_at attempt refill full_bucket
slept = refl

serve_keeps_bounds_example :
    let left = (serve toy calls (full_bucket toy 2 (pos 1) 2 (pos 0))).1 in
    (leb_ℤ (pos 0) left.tokens ≡ true)
    × (leb_ℤ left.tokens (pos 2) ≡ true)
    × (leb_ℤ (pos 0) left.updated ≡ true)
unfolding toy-KeepsOrder
serve_keeps_bounds_example =
    serve_keeps_bounds toy toy-KeepsOrder 2 (pos 1) 2 (pos 0) calls refl refl
      (refl, (refl, (refl, (refl, tt))))

serve_bursts_example :
    let before = (serve toy calls (full_bucket toy 2 (pos 1) 2 (pos 0))).1 in
    (leb_ℤ (pos (serve toy at_once before).0) before.tokens ≡ true)
    × (leb_ℤ (pos (serve toy at_once before).0) (pos 2) ≡ true)
unfolding serve attempt refill full_bucket toy-KeepsOrder
serve_bursts_example =
    serve_bursts toy toy-KeepsOrder 2 (pos 1) 2 (pos 0) calls at_once (omega arith) refl refl
      (refl, (refl, (refl, (refl, tt)))) (refl, (refl, (refl, tt)))
