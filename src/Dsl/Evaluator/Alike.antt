-- ===== src/Dsl/Evaluator/Alike.antt =====
-- Two runs of evaluator.py side by side: one on all bars, one on the first of them. Its operators
-- keep the values of the second beginnings of the first's.
use catpn.Prelude.{
  ℕ, zero, suc, ◌+◌, ◌≤◌, ◌<◌, ◌≡◌, refl, sym, ap, ◌∙◌, subst, String, Bool, true, false, not, ◌&&◌,
  ◌||◌, Option, none, some, List, [], ◌∷◌, map, ltb, if◌then◌else◌, length, take, arith, Bool-cases,
  Option-cases, inl, inr, ◌⊎◌, ==_iff,
}
use catpn.Prelude as P
use catpn.Dsl.{
  BinaryOp, add, sub, mul, div, rem, lt, le, gt, ge, eq, ne, both, either, UnaryOp, negate, invert,
  Node, literal, boolean, identifier, call, unary, binary, Args, no_args, arg, count_args,
}
use catpn.Series.{Floats, zip_with}
use catpn.Series.Prefix.{length-take, length-map, length-zip_with, take-map, take-zip_with}
use catpn.Dsl.Evaluator.{
  max_bars, Fault, Evaluated, value, raised, ◌>>=◌, Spread, array, scalar, Value, numbers, truths,
  map_all, repeat, pairwise, Context, of_bool, numeric, nonzero, truthy, lookup, apply_unary,
  apply_binary,
}

-- Two runs that end in related values, or in the same error.
pub data Alike {ℓ κ} {A : Type ℓ} (R : A → A → Type κ)
    : Evaluated A → Evaluated A → Type (ℓ ⊔ κ) where
  alike : (a b : A) → R a b → Alike R (value a) (value b)
  both_raise : (e : Fault) → Alike R (raised e) (raised e)

pub Alike-bind {ℓ κ ℓ' κ'} :
    {A : Type ℓ} {R : A → A → Type κ} {B : Type ℓ'} {S : B → B → Type κ'} {r s : Evaluated A}
    {g h : A → Evaluated B}
    → Alike R r s
    → ((a b : A) → R a b → Alike S (g a) (h b))
    → Alike S (r >>= g) (s >>= h)
Alike-bind (alike a b p) k = k a b p
Alike-bind (both_raise e) k = both_raise e

-- The same on both runs.
pub Alike-same {ℓ} : {A : Type ℓ} (r : Evaluated A) → Alike (λ a b. a ≡ b) r r
Alike-same (value a) = alike a a refl
Alike-same (raised e) = both_raise e

module _ (n m : ℕ) (fits : m ≤ n) where
  -- All bars, and the first ones of them.
  unfoldable pub Begins : {A : Type 0} → List A → List A → Type 0
  Begins xs ys = (length xs ≡ n) × (ys ≡ take m xs)

  unfoldable pub BeginsAll : {A : Type 0} → Spread A → Spread A → Type 0
  unfolding Begins
  BeginsAll (array xs) (array ys) = Begins xs ys
  BeginsAll (scalar x) (scalar y) = x ≡ y
  BeginsAll _ _ = ⊥

  pub Begins-length : {A : Type 0} (xs ys : List A) → Begins xs ys → length ys ≡ m
  unfolding Begins
  Begins-length xs ys b = ap length b.1 ∙ length-take m xs (omega (arith, b.0, fits))

  pub Begins-map :
      {A B : Type 0} (g : A → B) (xs ys : List A) → Begins xs ys → Begins (map g xs) (map g ys)
  unfolding Begins
  Begins-map g xs ys b = (length-map g xs ∙ b.0, ap (λ zs. map g zs) b.1 ∙ sym (take-map g m xs))

  pub Begins-zip_with :
      {A B C : Type 0} (g : A → B → C) (xs xs' : List A) (ys ys' : List B)
      → Begins xs xs'
      → Begins ys ys'
      → Begins (zip_with g xs ys) (zip_with g xs' ys')
  unfolding Begins
  Begins-zip_with g xs xs' ys ys' b c = (
    length-zip_with g xs ys (b.0 ∙ sym c.0) ∙ b.0,
    ap (λ zs. zip_with g zs ys') b.1
        ∙ ap (λ zs. zip_with g (take m xs) zs) c.1
        ∙ sym (take-zip_with g m xs ys),
  )

  pub BeginsAll-map :
      {A B : Type 0} (g : A → B) (x y : Spread A)
      → BeginsAll x y
      → BeginsAll (map_all g x) (map_all g y)
  unfolding BeginsAll
  BeginsAll-map g (array xs) (array ys) b = Begins-map g xs ys b
  BeginsAll-map g (scalar x) (scalar y) b = ap g b
  BeginsAll-map g (array xs) (scalar y) b = absurd b
  BeginsAll-map g (scalar x) (array ys) b = absurd b

  pub pairwise-Alike :
      {A B C : Type 0} (e : Fault) (g : A → B → C) (x x' : Spread A) (y y' : Spread B)
      → BeginsAll x x'
      → BeginsAll y y'
      → Alike BeginsAll (pairwise e g x y) (pairwise e g x' y')
  unfolding BeginsAll pairwise Begins
  pairwise-Alike e g (scalar x) (scalar x') (scalar y) (scalar y') b c =
      alike _ _ (ap (λ z. g z y) b ∙ ap (λ z. g x' z) c)
  pairwise-Alike e g (scalar x) (scalar x') (array ys) (array ys') b c = alike _ _ (
      subst (λ z. Begins (map (λ y. g x y) ys) (map (λ y. g z y) ys')) b
        (Begins-map (λ y. g x y) ys ys' c))
  pairwise-Alike e g (array xs) (array xs') (scalar y) (scalar y') b c = alike _ _ (
      subst (λ z. Begins (map (λ x. g x y) xs) (map (λ x. g x z) xs')) c
        (Begins-map (λ x. g x y) xs xs' b))
  pairwise-Alike e g (array xs) (array xs') (array ys) (array ys') b c =
      let e : P.◌==◌ (length xs) (length ys) ≡ true = ground (arith, b.0, c.0) in
      let e' : P.◌==◌ (length xs') (length ys') ≡ true =
        ground (arith, Begins-length xs xs' b, Begins-length ys ys' c) in
      rw (e, e') (alike _ _ (Begins-zip_with g xs xs' ys ys' b c))
  pairwise-Alike e g (array xs) (scalar x') y y' b c = absurd b
  pairwise-Alike e g (scalar x) (array xs') y y' b c = absurd b
  pairwise-Alike e g (scalar x) (scalar x') (array ys) (scalar y') b c = absurd c
  pairwise-Alike e g (scalar x) (scalar x') (scalar y) (array ys') b c = absurd c
  pairwise-Alike e g (array xs) (array xs') (array ys) (scalar y') b c = absurd c
  pairwise-Alike e g (array xs) (array xs') (scalar y) (array ys') b c = absurd c

module _ {F : Type 0} (f : Floats F) (n m : ℕ) (fits : m ≤ n) where
  unfoldable pub BeginsValue : Value F → Value F → Type 0
  BeginsValue (numbers x) (numbers y) = BeginsAll n m fits x y
  BeginsValue (truths x) (truths y) = BeginsAll n m fits x y
  BeginsValue _ _ = ⊥

  pub numeric-Begins :
      (v w : Value F) → BeginsValue v w → BeginsAll n m fits (numeric f v) (numeric f w)
  unfolding numeric BeginsValue
  numeric-Begins (numbers x) (numbers y) b = b
  numeric-Begins (truths x) (truths y) b = BeginsAll-map n m fits (of_bool f) x y b
  numeric-Begins (numbers x) (truths y) b = absurd b
  numeric-Begins (truths x) (numbers y) b = absurd b

  pub truthy-Begins :
      (v w : Value F) → BeginsValue v w → BeginsAll n m fits (truthy f v) (truthy f w)
  unfolding truthy BeginsValue BeginsAll
  truthy-Begins (numbers (array xs)) (numbers (array ys)) b = Begins-map n m fits _ xs ys b
  truthy-Begins (numbers (scalar x)) (numbers (scalar y)) b = ap (nonzero f) b
  truthy-Begins (numbers (array xs)) (numbers (scalar y)) b = absurd b
  truthy-Begins (numbers (scalar x)) (numbers (array ys)) b = absurd b
  truthy-Begins (truths x) (truths y) b = b
  truthy-Begins (numbers x) (truths y) b = absurd b
  truthy-Begins (truths x) (numbers y) b = absurd b

  pub apply_unary-Begins :
      (op : UnaryOp) (v w : Value F)
      → BeginsValue v w
      → BeginsValue (apply_unary f op v) (apply_unary f op w)
  unfolding apply_unary BeginsValue
  apply_unary-Begins negate v w b = BeginsAll-map n m fits f.neg _ _ (numeric-Begins v w b)
  apply_unary-Begins invert v w b = BeginsAll-map n m fits not _ _ (truthy-Begins v w b)

  pub numbers-Alike :
      {r s : Evaluated (Spread F)}
      → Alike (BeginsAll n m fits) r s
      → Alike BeginsValue (r >>= λ x. value (numbers x)) (s >>= λ x. value (numbers x))
  unfolding BeginsValue
  numbers-Alike h = Alike-bind h λ a b p. alike _ _ p

  truths-Alike :
      {r s : Evaluated (Spread Bool)}
      → Alike (BeginsAll n m fits) r s
      → Alike BeginsValue (r >>= λ x. value (truths x)) (s >>= λ x. value (truths x))
  unfolding BeginsValue
  truths-Alike h = Alike-bind h λ a b p. alike _ _ p

  pub apply_binary-Alike :
      (op : BinaryOp) (v v' w w' : Value F)
      → BeginsValue v v'
      → BeginsValue w w'
      → Alike BeginsValue (apply_binary f op v w) (apply_binary f op v' w')
  unfolding apply_binary
  apply_binary-Alike op v v' w w' b c = go op
    where
      arithmetical :
          (g : F → F → F)
          → Alike BeginsValue
              (catpn.Dsl.Evaluator.arithmetic f g v w)
              (catpn.Dsl.Evaluator.arithmetic f g v' w')
      arithmetical g =
          numbers-Alike
            (pairwise-Alike n m fits _ g _ _ _ _ (numeric-Begins v v' b) (numeric-Begins w w' c))

      comparing :
          (g : F → F → Bool)
          → Alike BeginsValue
              (catpn.Dsl.Evaluator.compared f g v w)
              (catpn.Dsl.Evaluator.compared f g v' w')
      comparing g =
          truths-Alike
            (pairwise-Alike n m fits _ g _ _ _ _ (numeric-Begins v v' b) (numeric-Begins w w' c))

      logic :
          (g : Bool → Bool → Bool)
          → Alike BeginsValue
              (catpn.Dsl.Evaluator.logical f g v w)
              (catpn.Dsl.Evaluator.logical f g v' w')
      logic g =
          truths-Alike
            (pairwise-Alike n m fits _ g _ _ _ _ (truthy-Begins v v' b) (truthy-Begins w w' c))

      go : (o : BinaryOp) → Alike BeginsValue (apply_binary f o v w) (apply_binary f o v' w')
      go both = logic _
      go either = logic _
      go add = arithmetical _
      go sub = arithmetical _
      go mul = arithmetical _
      go div = arithmetical _
      go rem = arithmetical _
      go lt = comparing _
      go le = comparing _
      go gt = comparing _
      go ge = comparing _
      go eq = comparing _
      go ne = comparing _
