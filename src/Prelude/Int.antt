-- ===== src/Prelude/Int.antt =====
-- Signed integers over the native numbers, under the library's names. They are the concrete
-- decimals (whole units) of the examples.
use Prim.Native.Nat.{ℕ, zero, suc, ◌+◌, ◌-◌, ◌*◌, ◌/◌, ◌≤◌}
use native.Mathlib.Nat.{le-div_iff_mul-le, div-mul-le_self, zero-div}
use mathlib.Core.Path.{◌≡◌}
use mathlib.Core.Logic.{◌⊎◌}
use mathlib.Core.Bool.{Bool, true, false}
use native.Mathlib.Omega.{arith}
use catpn.Prelude.Tests.{leb, if◌then◌else◌}
use catpn.Prelude.Decimal.{Decimal, IsOrdered, KeepsSign, RoundsInOrder}

-- `negsuc n` is -(n + 1).
pub data ℤ : Type 0 where
  pos : ℕ → ℤ
  negsuc : ℕ → ℤ

abbrev pub pos_part : ℤ → ℕ
pos_part (pos n) = n
pos_part (negsuc n) = 0

abbrev pub neg_part : ℤ → ℕ
neg_part (pos n) = 0
neg_part (negsuc n) = suc n

-- a - b, as an integer.
abbrev pub sub_ℕ : ℕ → ℕ → ℤ
sub_ℕ a b = if leb b a then pos (a - b) else negsuc (b - a - 1)

abbrev pub leb_ℤ : ℤ → ℤ → Bool
leb_ℤ a b = leb (pos_part a + neg_part b) (pos_part b + neg_part a)

abbrev div_ℤ : ℤ → ℤ → ℤ
div_ℤ (pos a) (pos b) = pos (a / b)
div_ℤ (pos a) (negsuc b) = sub_ℕ 0 (a / suc b)
div_ℤ (negsuc a) (pos b) = sub_ℕ 0 (suc a / b)
div_ℤ (negsuc a) (negsuc b) = pos (suc a / suc b)

instance abbrev pub whole : Decimal ℤ
whole = record {
  leb = leb_ℤ;
  add = λ a b. sub_ℕ (pos_part a + pos_part b) (neg_part a + neg_part b);
  sub = λ a b. sub_ℕ (pos_part a + neg_part b) (neg_part a + pos_part b);
  mul = λ a b.
      sub_ℕ (pos_part a * pos_part b + neg_part a * neg_part b)
        (pos_part a * neg_part b + neg_part a * pos_part b);
  div = div_ℤ;
  neg = λ a. sub_ℕ (neg_part a) (pos_part a);
  of_nat = pos;
}

leb_ℤ-refl : (x : ℤ) → leb_ℤ x x ≡ true
leb_ℤ-refl x = ground arith

leb_ℤ-trans : (x y z : ℤ) → leb_ℤ x y ≡ true → leb_ℤ y z ≡ true → leb_ℤ x z ≡ true
leb_ℤ-trans x y z p q = ground arith

leb_ℤ-total : (x y : ℤ) → (leb_ℤ x y ≡ true) ⊎ (leb_ℤ y x ≡ true)
leb_ℤ-total x y = ground arith

pub whole-IsOrdered : IsOrdered ℤ
whole-IsOrdered = record {
  order_refl = leb_ℤ-refl;
  order_trans = leb_ℤ-trans;
  order_total = leb_ℤ-total;
  order_nat = λ a b h. ground arith;
}

pub whole-KeepsSign : KeepsSign ℤ
whole-KeepsSign = record {
  mul_nonneg = λ x y p q. mul_ℤ-nonneg x y p q;
  div_nonneg = λ x y p q. div_ℤ-nonneg x y p q;
}
  where
    mul_ℤ-nonneg :
        (x y : ℤ)
        → leb_ℤ (pos 0) x ≡ true
        → leb_ℤ (pos 0) y ≡ true
        → leb_ℤ (pos 0) (whole.mul x y) ≡ true
    mul_ℤ-nonneg (pos a) (pos b) p q = ground arith
    mul_ℤ-nonneg (pos a) (negsuc b) p q = ground arith
    mul_ℤ-nonneg (negsuc a) y p q = ground arith

    div_ℤ-nonneg :
        (x y : ℤ)
        → leb_ℤ (pos 0) x ≡ true
        → leb_ℤ y (pos 0) ≡ false
        → leb_ℤ (pos 0) (div_ℤ x y) ≡ true
    div_ℤ-nonneg (pos a) (pos b) p q = ground arith
    div_ℤ-nonneg (pos a) (negsuc b) p q = ground arith
    div_ℤ-nonneg (negsuc a) y p q = ground arith

div_mono : (a b k : ℕ) → a ≤ b → a / suc k ≤ b / suc k
div_mono a b k h = (le-div_iff_mul-le (omega arith)).1 (omega (arith, div-mul-le_self a (suc k)))

pub whole-RoundsInOrder : RoundsInOrder ℤ
whole-RoundsInOrder = record {
  sub_falls = λ x y z h. ground arith;
  sub_nonpos = λ x y h. ground arith;
  div_rises = λ x y z h q. div_ℤ-rises x y z h q;
  div_nonpos = λ x z h q. div_ℤ-nonpos x z h q;
}
  where
    div_ℤ-rises :
        (x y z : ℤ)
        → leb_ℤ x y ≡ true
        → leb_ℤ z (pos 0) ≡ false
        → leb_ℤ (div_ℤ x z) (div_ℤ y z) ≡ true
    div_ℤ-rises x y (negsuc c) h q = ground arith
    div_ℤ-rises x y (pos zero) h q = ground arith
    div_ℤ-rises (pos a) (pos b) (pos (suc c)) h q = ground (arith, div_mono a b c)
    div_ℤ-rises (pos a) (negsuc b) (pos (suc c)) h q = ground arith
    div_ℤ-rises (negsuc a) (pos b) (pos (suc c)) h q = ground arith
    div_ℤ-rises (negsuc a) (negsuc b) (pos (suc c)) h q = ground (arith, div_mono (suc b) (suc a) c)

    div_ℤ-nonpos :
        (x z : ℤ)
        → leb_ℤ x (pos 0) ≡ true
        → leb_ℤ z (pos 0) ≡ false
        → leb_ℤ (div_ℤ x z) (pos 0) ≡ true
    div_ℤ-nonpos x (negsuc c) h q = ground arith
    div_ℤ-nonpos x (pos zero) h q = ground arith
    div_ℤ-nonpos (pos zero) (pos (suc c)) h q = ground (arith, div_mono 0 0 c, zero-div (suc c))
    div_ℤ-nonpos (pos (suc a)) (pos (suc c)) h q = ground arith
    div_ℤ-nonpos (negsuc a) (pos (suc c)) h q = ground arith
