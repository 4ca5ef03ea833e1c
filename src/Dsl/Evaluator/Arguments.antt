-- ===== src/Dsl/Evaluator/Arguments.antt =====
-- The arguments of a handler of evaluator.py, a series or a length, on all bars and on the first ones.
use catpn.Prelude.{
  ℕ, zero, suc, ◌+◌, ◌≤◌, ◌<◌, ◌≡◌, refl, sym, ap, ◌∙◌, subst, String, Bool, true, false, not, ◌&&◌,
  ◌||◌, Option, none, some, List, [], ◌∷◌, map, ltb, if◌then◌else◌, length, take, arith, Bool-cases,
  Option-cases, inl, inr, ◌⊎◌, ==_iff,
}
use catpn.Prelude as P
use catpn.Dsl.{
  BinaryOp, add, sub, mul, div, rem, lt, le, gt, ge, eq, ne, both, either, UnaryOp, negate, invert,
  Node, literal, boolean, identifier, call, unary, binary, Args, no_args, arg, count_args,
}
use catpn.Series.{Floats}
use catpn.Dsl.Evaluator.{
  max_bars, Fault, Evaluated, value, raised, ◌>>=◌, Spread, array, scalar, Value, numbers, truths,
  map_all, repeat, pairwise, Context, of_bool, numeric, nonzero, truthy, lookup, apply_unary,
  apply_binary,
}
use catpn.Dsl.Evaluator.Functions.{integer_arg, as_series}
use catpn.Dsl.Evaluator.Alike.{
  Alike, alike, both_raise, Begins, BeginsAll, BeginsValue, numeric-Begins,
}

-- What is assumed of the host's numbers: NaN is one, and a whole number from one on is one as an int.
pub record Laws {F : Type 0} (f : Floats F) : Type 0 where
  pub nan-is_nan : f.is_nan f.nan ≡ true
  pub whole : (x : F) → f.is_integer x ≡ true → f.less x (f.of_nat 1) ≡ false → 1 ≤ f.to_nat x

pub take-repeat : {A : Type 0} (m n : ℕ) (a : A) → m ≤ n → take m (repeat n a) ≡ repeat m a
take-repeat zero n a h = refl
take-repeat (suc m) zero a h = absurd (omega arith)
take-repeat (suc m) (suc n) a h = ap (λ xs. a ∷ xs) (take-repeat m n a (omega (arith, h)))

pub length-repeat : {A : Type 0} (n : ℕ) (a : A) → length (repeat n a) ≡ n
length-repeat zero a = refl
length-repeat (suc n) a = ap suc (length-repeat n a)

module _ {F : Type 0} (f : Floats F) (laws : Laws f) (n m : ℕ) (fits : m ≤ n)
    (some_bars : 1 ≤ m) where
  unfoldable pub Lengths : ℕ → ℕ → Type 0
  Lengths a b = (a ≡ b) × (1 ≤ a)

  pub integer_arg-Alike :
      (v w : Value F)
      → BeginsValue f n m fits v w
      → Alike Lengths (integer_arg f v) (integer_arg f w)
  unfolding integer_arg Lengths BeginsAll
  integer_arg-Alike v w b = go (numeric f v) (numeric f w) (numeric-Begins f n m fits v w b)
    where
      checked : F → Evaluated ℕ
      checked x =
          if not (f.is_integer x)
          then raised catpn.Dsl.Evaluator.not_whole
          else if f.less x (f.of_nat 1)
          then raised catpn.Dsl.Evaluator.too_small
          else if f.less (f.of_nat max_bars) x
          then raised catpn.Dsl.Evaluator.too_large
          else value (f.to_nat x)

      checked-Alike : (x : F) → Alike Lengths (checked x) (checked x)
      checked-Alike x = elim (Bool-cases (f.is_integer x)) [
        | inr e ↦ rw e (both_raise _)
        | inl e ↦ elim (Bool-cases (f.less x (f.of_nat 1))) [
          | inl l ↦ rw (e, l) (both_raise _)
          | inr l ↦ elim (Bool-cases (f.less (f.of_nat max_bars) x)) [
            | inl g ↦ rw (e, l, g) (both_raise _)
            | inr g ↦ rw (e, l, g) (alike _ _ (refl, laws.whole x e l))
          ]
        ]
      ]

      go :
          (x y : Spread F)
          → BeginsAll n m fits x y
          → Alike Lengths
              (elim x [
                | array xs ↦ raised catpn.Dsl.Evaluator.series_length
                | scalar z ↦ checked z
              ])
              (elim y [
                | array xs ↦ raised catpn.Dsl.Evaluator.series_length
                | scalar z ↦ checked z
              ])
      go (array xs) (array ys) c = both_raise _
      go (scalar x) (scalar y) c =
          subst (λ z. Alike Lengths (checked x) (checked z)) c (checked-Alike x)
      go (array xs) (scalar y) c = absurd c
      go (scalar x) (array ys) c = absurd c

  -- The two sizes: no bars at all, or all of them and the first ones.
  unfoldable pub Sizes : ℕ → ℕ → Type 0
  Sizes s t = ((s ≡ 0) × (t ≡ 0)) ⊎ ((s ≡ n) × (t ≡ m))

  broadcast-Alike :
      (s t : ℕ) (x : F)
      → Sizes s t
      → Alike
          (Begins n m fits)
          (if P.◌==◌ s 0 then raised catpn.Dsl.Evaluator.no_bars else value (repeat s x))
          (if P.◌==◌ t 0 then raised catpn.Dsl.Evaluator.no_bars else value (repeat t x))
  unfolding Sizes Begins
  broadcast-Alike s t x (inl h) = rw (h.0, h.1) (both_raise _)
  broadcast-Alike s t x (inr h) =
      let e : P.◌==◌ n 0 ≡ false = ground arith in
      let e' : P.◌==◌ m 0 ≡ false = ground arith in
      rw (h.0, h.1, e, e') (alike _ _ (length-repeat n x, sym (take-repeat m n x fits)))

  pub as_series-Alike :
      (allow : Bool) (s t : ℕ) (v w : Value F)
      → Sizes s t
      → BeginsValue f n m fits v w
      → Alike (Begins n m fits) (as_series f allow s v) (as_series f allow t w)
  unfolding as_series BeginsAll
  as_series-Alike allow s t v w z b =
      go (numeric f v) (numeric f w) (numeric-Begins f n m fits v w b)
    where
      filled : ℕ → F → Evaluated (List F)
      filled size x =
          if not allow
          then raised catpn.Dsl.Evaluator.not_a_series
          else if P.◌==◌ size 0
          then raised catpn.Dsl.Evaluator.no_bars
          else value (repeat size x)

      filled-Alike : (x : F) → Alike (Begins n m fits) (filled s x) (filled t x)
      filled-Alike x = elim (Bool-cases allow) [
        | inr e ↦ rw e (both_raise _)
        | inl e ↦ rw e (broadcast-Alike s t x z)
      ]

      go :
          (x y : Spread F)
          → BeginsAll n m fits x y
          → Alike
              (Begins n m fits)
              (elim x [ array xs ↦ value xs | scalar u ↦ filled s u ])
              (elim y [ array xs ↦ value xs | scalar u ↦ filled t u ])
      go (array xs) (array ys) c = alike xs ys c
      go (scalar x) (scalar y) c =
          subst (λ u. Alike (Begins n m fits) (filled s x) (filled t u)) c (filled-Alike x)
      go (array xs) (scalar y) c = absurd c
      go (scalar x) (array ys) c = absurd c
