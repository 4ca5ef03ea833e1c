-- ===== src/Prelude/Decimal.antt =====
-- Python's `decimal.Decimal`, as far as the program uses it: an order test and the rounded
-- arithmetic of the context. The operations belong to the standard library, so they are a
-- parameter; a proof that needs a law of them names it.
use Prim.Native.Nat.{ℕ, ◌≤◌}
use mathlib.Core.Path.{◌≡◌}
use mathlib.Core.Logic.{◌⊎◌}
use mathlib.Core.Bool.{Bool, true, false, not, ◌&&◌}
use mathlib.Core.List.{List, [], ◌∷◌}
use catpn.Prelude.Tests.{if◌then◌else◌}

-- `leb x y` is `x <= y`; no operation of the program compares a NaN.
pub record Decimal (D : Type 0) : Type 0 where
  pub leb : D → D → Bool
  pub add : D → D → D
  pub sub : D → D → D
  pub mul : D → D → D
  pub div : D → D → D
  pub neg : D → D
  -- Decimal(n) for a Python int that is not negative
  pub of_nat : ℕ → D

module _ {D : Type 0} ⦃d : Decimal D⦄ where
  infix 50 ◌≼◌
  -- x <= y
  abbrev pub ◌≼◌ : D → D → Bool
  x ≼ y = d.leb x y

  infix 50 ◌≺◌
  -- x < y
  abbrev pub ◌≺◌ : D → D → Bool
  x ≺ y = not (d.leb y x)

  -- x == y, which compares values: Decimal("1.0") == Decimal("1")
  abbrev pub same : D → D → Bool
  same x y = d.leb x y && d.leb y x

  abbrev pub nought : D
  nought = d.of_nat 0

  -- max(x, y): the first argument unless the second is greater
  abbrev pub dec_max : D → D → D
  dec_max x y = if x ≺ y then y else x

  -- min(x, y): the first argument unless the second is smaller
  abbrev pub dec_min : D → D → D
  dec_min x y = if y ≺ x then y else x

  -- sum(xs, Decimal(0))
  unfoldable pub dec_sum_from : D → List D → D
  dec_sum_from acc [] = acc
  dec_sum_from acc (x ∷ xs) = dec_sum_from (d.add acc x) xs

-- The comparison of decimals that are not NaN is a total order on values, and `Decimal(n)` keeps
-- the order of ints.
pub record IsOrdered (D : Type 0) ⦃d : Decimal D⦄ : Type 0 where
  pub order_refl : (x : D) → d.leb x x ≡ true
  pub order_trans : (x y z : D) → d.leb x y ≡ true → d.leb y z ≡ true → d.leb x z ≡ true
  pub order_total : (x y : D) → (d.leb x y ≡ true) ⊎ (d.leb y x ≡ true)
  pub order_nat : (a b : ℕ) → a ≤ b → d.leb (d.of_nat a) (d.of_nat b) ≡ true

-- The sign of a product and of a quotient, which rounding keeps.
pub record KeepsSign (D : Type 0) ⦃d : Decimal D⦄ : Type 0 where
  pub mul_nonneg :
      (x y : D)
      → d.leb (d.of_nat 0) x ≡ true
      → d.leb (d.of_nat 0) y ≡ true
      → d.leb (d.of_nat 0) (d.mul x y) ≡ true
  pub div_nonneg :
      (x y : D)
      → d.leb (d.of_nat 0) x ≡ true
      → d.leb y (d.of_nat 0) ≡ false
      → d.leb (d.of_nat 0) (d.div x y) ≡ true

-- What rounding leaves of the order under a difference and a quotient: a difference falls as more is
-- taken away, a quotient by a positive rises with what is divided, and neither crosses zero.
pub record RoundsInOrder (D : Type 0) ⦃d : Decimal D⦄ : Type 0 where
  pub sub_falls : (x y z : D) → d.leb y z ≡ true → d.leb (d.sub x z) (d.sub x y) ≡ true
  pub sub_nonpos : (x y : D) → d.leb x y ≡ true → d.leb (d.sub x y) (d.of_nat 0) ≡ true
  pub div_rises :
      (x y z : D)
      → d.leb x y ≡ true
      → d.leb z (d.of_nat 0) ≡ false
      → d.leb (d.div x z) (d.div y z) ≡ true
  pub div_nonpos :
      (x z : D)
      → d.leb x (d.of_nat 0) ≡ true
      → d.leb z (d.of_nat 0) ≡ false
      → d.leb (d.div x z) (d.of_nat 0) ≡ true
