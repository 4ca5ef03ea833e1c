-- ===== src/Execution/Ids.antt =====
-- `client_id_for` of apps/api/quanta/services/execution.py. The seed is text, as code points; the
-- digest of the standard library (blake2b, in base32) is the parameter `digest`.
use Prim.Native.Char.{Char, code}
use text.Mathlib.TextLemmas.{cons≢nil}
use text.Mathlib.Text.{◌==◌}
use text.Mathlib.TextEquality.{eq_iff}
use catpn.Prelude.{
  ℕ, zero, suc, ◌+◌, ◌/◌, ◌%◌, ◌<◌, ◌≡◌, ◌≢◌, refl, String, false, List, [], ◌∷◌, ◌++◌, ltb,
  Bool-cases, inl, inr, ◌*◌, ◌-◌, All-append, if◌then◌else◌, arith, All, ap, sym, ◌∙◌,
}
use catpn.Execution.{Purpose, entry, exit, add, reduce, flatten}

-- The code points of a text.
abbrev pub codes : String → List ℕ
codes String.[] = []
codes (String.◌∷◌ c s) = code c ∷ codes s

abbrev digit : ℕ → ℕ
digit n = b'0' + n % 10

-- str(n) for an int that is not negative; the fuel bounds the number of digits.
unfoldable pub decimal_in : ℕ → ℕ → List ℕ
decimal_in zero n = []
decimal_in (suc f) n =
    let rest = decimal_in f (n / 10) in if ltb n 10 then digit n ∷ [] else rest ++ digit n ∷ []

unfoldable pub decimal : ℕ → List ℕ
unfolding decimal_in
decimal n = decimal_in (suc n) n

unfoldable pub purpose_value : Purpose → List ℕ
purpose_value entry = codes "entry"
purpose_value exit = codes "exit"
purpose_value add = codes "add"
purpose_value reduce = codes "reduce"
purpose_value flatten = codes "flatten"

abbrev pub bar : ℕ
bar = b'|'

-- f"{bot_id}|{bar_time}|{purpose.value}|{attempt}"
unfoldable pub seed : String → ℕ → Purpose → ℕ → List ℕ
unfolding decimal purpose_value
seed bot_id bar_time purpose attempt =
    codes bot_id
    ++ bar ∷ (decimal bar_time ++ bar ∷ (purpose_value purpose ++ bar ∷ decimal attempt))

unfoldable pub client_id_for : (List ℕ → String) → String → ℕ → Purpose → ℕ → String
unfolding seed
client_id_for digest bot_id bar_time purpose attempt =
    let q : Char = "q" in String.◌∷◌ q (digest (seed bot_id bar_time purpose attempt))

-- An id is never empty, so no order is refused for want of one.
pub client_id_for-ne-empty :
    (digest : List ℕ → String) (bot_id : String) (bar_time : ℕ) (purpose : Purpose) (attempt : ℕ)
    → (client_id_for digest bot_id bar_time purpose attempt == "") ≡ false
unfolding client_id_for
client_id_for-ne-empty digest bot_id bar_time purpose attempt =
    elim (Bool-cases (client_id_for digest bot_id bar_time purpose attempt == "")) [
      | inl e ↦ absurd (cons≢nil ((eq_iff _ "").0 e))
      | inr n ↦ n
    ]

-- A text without the separator.
abbrev pub Plain : List ℕ → Type 0
Plain = All (λ c. c ≢ bar)

decimal_in-Plain : (f n : ℕ) → Plain (decimal_in f n)
unfolding decimal_in
decimal_in-Plain zero n = tt
decimal_in-Plain (suc f) n =
    let here : digit n ≢ bar = omega arith in
    elim (Bool-cases (ltb n 10)) [
      | inl e ↦ rw e (here, tt)
      | inr e ↦ rw e (
          All-append _ (decimal_in f (n / 10)) (digit n ∷ []) (decimal_in-Plain f (n / 10))
            (here, tt))
    ]

purpose_value-Plain : (p : Purpose) → Plain (purpose_value p)
unfolding purpose_value
purpose_value-Plain entry = omega arith
purpose_value-Plain _ = omega arith

-- int(text)
read : ℕ → List ℕ → ℕ
read acc [] = acc
read acc (c ∷ cs) = read (acc * 10 + (c - b'0')) cs

read-snoc : (acc c : ℕ) (xs : List ℕ) → read acc (xs ++ c ∷ []) ≡ read acc xs * 10 + (c - b'0')
unfolding read
read-snoc acc c [] = refl
read-snoc acc c (x ∷ xs) = read-snoc (acc * 10 + (x - b'0')) c xs

read-decimal_in : (f n : ℕ) → n < f → read 0 (decimal_in f n) ≡ n
unfolding decimal_in read
read-decimal_in zero n h = absurd (omega arith)
read-decimal_in (suc f) n h = elim (Bool-cases (ltb n 10)) [
  | inl e ↦ rw e (ground arith)
  | inr e ↦
      rw e
        (read-snoc 0 (digit n) (decimal_in f (n / 10)) ∙ ground (arith, read-decimal_in f (n / 10)))
]

decimal-injective : (n m : ℕ) → decimal n ≡ decimal m → n ≡ m
unfolding decimal
decimal-injective n m e =
    sym (read-decimal_in (suc n) n (omega arith))
    ∙ ap (read 0) e
    ∙ read-decimal_in (suc m) m (omega arith)

purpose_value-injective : (p q : Purpose) → purpose_value p ≡ purpose_value q → p ≡ q
unfolding purpose_value
purpose_value-injective p q e = ground arith

-- The text before a separator is determined by the whole.
split_at_bar :
    (xs ys us vs : List ℕ)
    → Plain xs
    → Plain ys
    → xs ++ bar ∷ us ≡ ys ++ bar ∷ vs
    → (xs ≡ ys) × (us ≡ vs)
split_at_bar [] [] us vs hx hy e = (refl, cc)
split_at_bar [] (y ∷ ys) us vs hx hy e = absurd (hy.0 (ground arith))
split_at_bar (x ∷ xs) [] us vs hx hy e = absurd (hx.0 (ground arith))
split_at_bar (x ∷ xs) (y ∷ ys) us vs hx hy e =
    let rest = split_at_bar xs ys us vs hx.1 hy.1 (ground arith) in (ground (arith, rest.0), rest.1)

-- For bot ids without the separator, the text that a client id is the digest of determines the
-- bot id, the bar time, the purpose and the attempt.
pub seed-injective :
    (id id' : String) (t t' : ℕ) (p p' : Purpose) (n n' : ℕ)
    → Plain (codes id)
    → Plain (codes id')
    → seed id t p n ≡ seed id' t' p' n'
    → (codes id ≡ codes id') × (t ≡ t') × (p ≡ p') × (n ≡ n')
unfolding seed
seed-injective id id' t t' p p' n n' h h' e =
    let first = split_at_bar _ _ _ _ h h' e in
    let second = split_at_bar (decimal t) (decimal t') _ _ (plain t) (plain t') first.1 in
    let third = split_at_bar _ _ _ _ (purpose_value-Plain p) (purpose_value-Plain p') second.1 in
    (
      first.0,
      decimal-injective t t' second.0,
      purpose_value-injective p p' third.0,
      decimal-injective n n' third.1,
    )
  where
    plain : (k : ℕ) → Plain (decimal k)
    plain k = decimal_in-Plain (suc k) k
