-- ===== src/Dsl/Lexer/Covers/Pieces.antt =====
-- The pieces that the loop of lexer.py cuts off its source: spans and operators.
use Prim.Native.Char.{Char, code}
use Prim.Native.String as S
use text.Mathlib.TextEquality.{Char-path}
use mathlib.Core.List.{Memᴰ}
use catpn.Prelude.{
  ◌<◌, ◌≡◌, refl, ap, ◌∙◌, String, Bool, true, false, Option, none, some, List, [], ◌∷◌, ◌++◌,
  if◌then◌else◌, ◌==◌, length, arith, Bool-cases, Option-cases, inl, inr, all_of,
}
use catpn.Dsl.Lexer.{Text, characters, span, first_operator, after_prefix}
use catpn.Dsl.Lexer.Covers.{heads}

pub same_code : (c d : Char) → (code c == code d) ≡ true → c ≡ d
same_code c d h = Char-path c d (ground arith)

pub span-append : (test : Char → Bool) (cs : Text) → (span test cs).0 ++ (span test cs).1 ≡ cs
unfolding span
span-append test [] = refl
span-append test (c ∷ cs) = elim (Bool-cases (test c)) [
  | inl e ↦ rw (e, span) (ap (λ ds. c ∷ ds) (span-append test cs))
  | inr e ↦ rw (e, span) refl
]

pub span-all_of : (test : Char → Bool) (cs : Text) → all_of test (span test cs).0 ≡ true
unfolding span
span-all_of test [] = refl
span-all_of test (c ∷ cs) = elim (Bool-cases (test c)) [
  | inl e ↦ rw (e, span) (simp (e, span-all_of test cs))
  | inr e ↦ rw (e, span) refl
]

pub span-heads : (test : Char → Bool) (cs : Text) → heads test (span test cs).1 ≡ false
unfolding span
span-heads test [] = refl
span-heads test (c ∷ cs) = elim (Bool-cases (test c)) [
  | inl e ↦ rw (e, span) (span-heads test cs)
  | inr e ↦ rw (e, span) e
]

-- What the span of a text is, where its first character passes the test.
pub span-cons :
    (test : Char → Bool) (c : Char) (cs : Text)
    → test c ≡ true
    → span test (c ∷ cs) ≡ (c ∷ (span test cs).0, (span test cs).1)
unfolding span
span-cons test c cs h = rw (h, span) refl

pub if_some :
    {A : Type 0} (b : Bool) (o : Option A) (a : A)
    → (if b then o else none) ≡ some a
    → (b ≡ true) × (o ≡ some a)
if_some true o a h = (refl, h)
if_some false o a h = cc

pub after_prefix-append :
    (op : String) (cs rest : Text) → after_prefix op cs ≡ some rest → characters op ++ rest ≡ cs
unfolding characters
after_prefix-append S.[] cs rest h = ground arith
after_prefix-append (S.◌∷◌ o os) [] rest h = cc
after_prefix-append (S.◌∷◌ o os) (c ∷ cs) rest h =
    let both = if_some (code o == code c) (after_prefix os cs) rest h in
    ap (λ d. d ∷ (characters os ++ rest)) (same_code o c both.0)
    ∙ ap (λ ds. c ∷ ds) (after_prefix-append os cs rest both.1)

-- An operator that was found is one of the list, and it starts the text.
unfoldable pub Found : List String → Text → Option (String × Text) → Type 0
Found ops cs none = Unit
Found ops cs (some (op, rest)) = Memᴰ op ops × (characters op ++ rest ≡ cs)

pub Found-later :
    (op : String) (ops : List String) (cs : Text) (o : Option (String × Text))
    → Found ops cs o
    → Found (op ∷ ops) cs o
unfolding Found
Found-later op ops cs none h = tt
Found-later op ops cs (some (o, rest)) h = (Memᴰ.tail h.0, h.1)

pub first_operator-Found : (ops : List String) (cs : Text) → Found ops cs (first_operator ops cs)
unfolding first_operator Found
first_operator-Found [] cs = tt
first_operator-Found (op ∷ ops) cs = elim (Option-cases (after_prefix op cs)) [
  | inl e ↦
      rw (e, first_operator)
        (Found-later op ops cs (first_operator ops cs) (first_operator-Found ops cs))
  | inr (rest, e) ↦ rw (e, first_operator) (Memᴰ.head refl, after_prefix-append op cs rest e)
]

unfoldable pub nonempty : String → Bool
nonempty S.[] = false
nonempty (S.◌∷◌ o os) = true

pub nonempty-length : (op : String) → nonempty op ≡ true → 0 < length (characters op)
unfolding characters nonempty
nonempty-length S.[] h = cc
nonempty-length (S.◌∷◌ o os) h = omega arith

pub Memᴰ-nonempty :
    (op : String) (ops : List String)
    → Memᴰ op ops
    → all_of nonempty ops ≡ true
    → nonempty op ≡ true
unfolding nonempty
Memᴰ-nonempty op [] m h = elim m [ ]
Memᴰ-nonempty op (x ∷ xs) (Memᴰ.head e) h = ap nonempty e ∙ ground arith
Memᴰ-nonempty op (x ∷ xs) (Memᴰ.tail m) h = Memᴰ-nonempty op xs m (ground arith)
