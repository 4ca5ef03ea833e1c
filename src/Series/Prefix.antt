-- ===== src/Series/Prefix.antt =====
-- Prefixes of the arrays that series.py builds.
use catpn.Prelude.{
  ℕ, zero, suc, ◌-◌, ◌≤◌, ◌≡◌, refl, sym, ap, ◌∙◌, List, [], ◌∷◌, ◌++◌, map, length, take, drop,
  arith,
}
use catpn.Series.{zip_with}

module _ {A : Type 0} where
  pub take-nil : (m : ℕ) → take {A = A} m [] ≡ []
  take-nil zero = refl
  take-nil (suc m) = refl

  pub drop-nil : (m : ℕ) → drop {A = A} m [] ≡ []
  drop-nil zero = refl
  drop-nil (suc m) = refl

  pub length-take-le : (m : ℕ) (xs : List A) → length (take m xs) ≤ m
  length-take-le zero xs = omega arith
  length-take-le (suc m) [] = omega arith
  length-take-le (suc m) (x ∷ xs) = omega (arith, length-take-le m xs)

  pub length-take-le-length : (m : ℕ) (xs : List A) → length (take m xs) ≤ length xs
  length-take-le-length zero xs = omega arith
  length-take-le-length (suc m) [] = omega arith
  length-take-le-length (suc m) (x ∷ xs) = omega (arith, length-take-le-length m xs)

  pub length-take : (m : ℕ) (xs : List A) → m ≤ length xs → length (take m xs) ≡ m
  length-take zero xs h = refl
  length-take (suc m) [] h = absurd (omega arith)
  length-take (suc m) (x ∷ xs) h = ap suc (length-take m xs (omega (arith, h)))

  pub le-length-take : (n m : ℕ) (xs : List A) → n ≤ m → n ≤ length xs → n ≤ length (take m xs)
  le-length-take n zero xs h k = h
  le-length-take n (suc m) [] h k = k
  le-length-take zero (suc m) (x ∷ xs) h k = omega arith
  le-length-take (suc n) (suc m) (x ∷ xs) h k =
      omega (arith, le-length-take n m xs (omega (arith, h)) (omega (arith, k)))

  pub take-all : (m : ℕ) (xs : List A) → length xs ≤ m → take m xs ≡ xs
  take-all m [] h = take-nil m
  take-all zero (x ∷ xs) h = absurd (omega arith)
  take-all (suc m) (x ∷ xs) h = ap (λ ys. x ∷ ys) (take-all m xs (omega (arith, h)))

  -- A prefix of a prefix that is no shorter.
  pub take-take : (k m : ℕ) (xs : List A) → k ≤ m → take k (take m xs) ≡ take k xs
  take-take zero m xs h = refl
  take-take (suc k) zero xs h = absurd (omega arith)
  take-take (suc k) (suc m) [] h = refl
  take-take (suc k) (suc m) (x ∷ xs) h = ap (λ ys. x ∷ ys) (take-take k m xs (omega (arith, h)))

  pub drop-take : (k m : ℕ) (xs : List A) → drop k (take m xs) ≡ take (m - k) (drop k xs)
  drop-take zero m xs = ap (λ n. take n xs) (omega arith)
  drop-take (suc k) zero xs =
      let e : 0 ≡ 0 - suc k = omega arith in ap (λ n. take n (drop (suc k) xs)) e
  drop-take (suc k) (suc m) [] = sym (take-nil (suc m - suc k))
  drop-take (suc k) (suc m) (x ∷ xs) =
      let e : m - k ≡ suc m - suc k = omega arith in
      drop-take k m xs ∙ ap (λ n. take n (drop k xs)) e

  pub take-append-short : (m : ℕ) (xs ys : List A) → m ≤ length xs → take m (xs ++ ys) ≡ take m xs
  take-append-short zero xs ys h = refl
  take-append-short (suc m) [] ys h = absurd (omega arith)
  take-append-short (suc m) (x ∷ xs) ys h =
      ap (λ zs. x ∷ zs) (take-append-short m xs ys (omega (arith, h)))

  pub take-append-long :
      (m : ℕ) (xs ys : List A) → length xs ≤ m → take m (xs ++ ys) ≡ xs ++ take (m - length xs) ys
  take-append-long m [] ys h = ap (λ n. take n ys) (omega arith)
  take-append-long zero (x ∷ xs) ys h = absurd (omega arith)
  take-append-long (suc m) (x ∷ xs) ys h =
      let e : m - length xs ≡ suc m - suc (length xs) = omega arith in
      ap (λ zs. x ∷ zs) (take-append-long m xs ys (omega (arith, h)) ∙ ap (λ n. xs ++ take n ys) e)

module _ {A B : Type 0} where
  pub take-map : (f : A → B) (m : ℕ) (xs : List A) → take m (map f xs) ≡ map f (take m xs)
  take-map f zero xs = refl
  take-map f (suc m) [] = refl
  take-map f (suc m) (x ∷ xs) = ap (λ ys. f x ∷ ys) (take-map f m xs)

  pub length-map : (f : A → B) (xs : List A) → length (map f xs) ≡ length xs
  length-map f [] = refl
  length-map f (x ∷ xs) = ap suc (length-map f xs)

  pub take-zip_with :
      {C : Type 0} (f : A → B → C) (m : ℕ) (xs : List A) (ys : List B)
      → take m (zip_with f xs ys) ≡ zip_with f (take m xs) (take m ys)
  unfolding zip_with
  take-zip_with f zero xs ys = refl
  take-zip_with f (suc m) [] ys = refl
  take-zip_with f (suc m) (x ∷ xs) [] = refl
  take-zip_with f (suc m) (x ∷ xs) (y ∷ ys) = ap (λ zs. f x y ∷ zs) (take-zip_with f m xs ys)

  -- Of the longer array only so much is read as the shorter has.
  pub zip_with-take_right :
      {C : Type 0} (f : A → B → C) (m : ℕ) (xs : List A) (ys : List B)
      → length xs ≤ m
      → zip_with f xs (take m ys) ≡ zip_with f xs ys
  unfolding zip_with
  zip_with-take_right f m [] ys h = refl
  zip_with-take_right f zero (x ∷ xs) ys h = absurd (omega arith)
  zip_with-take_right f (suc m) (x ∷ xs) [] h = refl
  zip_with-take_right f (suc m) (x ∷ xs) (y ∷ ys) h =
      ap (λ zs. f x y ∷ zs) (zip_with-take_right f m xs ys (omega (arith, h)))

  pub length-zip_with :
      {C : Type 0} (f : A → B → C) (xs : List A) (ys : List B)
      → length xs ≡ length ys
      → length (zip_with f xs ys) ≡ length xs
  unfolding zip_with
  length-zip_with f [] ys h = refl
  length-zip_with f (x ∷ xs) [] h = absurd (omega (arith, h))
  length-zip_with f (x ∷ xs) (y ∷ ys) h = ap suc (length-zip_with f xs ys (omega (arith, h)))
