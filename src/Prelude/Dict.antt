-- ===== src/Prelude/Dict.antt =====
-- Python's `dict` with text keys: an association list in insertion order. A write to a key that
-- is there keeps its place, a write to a new key goes to the end.
use Prim.Native.String.{String}
use text.Mathlib.Text.{◌==◌}
use text.Mathlib.TextEquality.{eq_iff}
use mathlib.Core.Path.{◌≡◌, refl, subst, subst₂}
use mathlib.Core.Logic.{inl, inr}
use mathlib.Core.Option.{Option, none, some}
use mathlib.Core.List.{List, [], ◌∷◌}
use native.Mathlib.Omega.{arith}
use catpn.Prelude.Tests.{if◌then◌else◌, Bool-cases}

abbrev pub Dict {ℓ} : Type ℓ → Type ℓ
Dict V = List (String × V)

module _ {ℓ} {V : Type ℓ} where
  -- d.get(k)
  unfoldable pub find : String → Dict V → Option V
  find k [] = none
  find k ((j, v) ∷ m) = if j == k then some v else find k m

  -- d[k] = v
  unfoldable pub put : String → V → Dict V → Dict V
  put k v [] = (k, v) ∷ []
  put k v ((j, w) ∷ m) = if j == k then (j, v) ∷ m else (j, w) ∷ put k v m

  -- d.pop(k, None)
  unfoldable pub delete : String → Dict V → Dict V
  delete k [] = []
  delete k ((j, w) ∷ m) = if j == k then delete k m else (j, w) ∷ delete k m

  -- d.values()
  unfoldable pub values : Dict V → List V
  values [] = []
  values ((j, w) ∷ m) = w ∷ values m

  -- [...] for loops that replace each value in place
  unfoldable pub map_values : (V → V) → Dict V → Dict V
  map_values f [] = []
  map_values f ((j, w) ∷ m) = (j, f w) ∷ map_values f m

  pub find-put :
      (k j : String) (v : V) (m : Dict V)
      → find j (put k v m) ≡ (if k == j then some v else find j m)
  unfolding find put
  find-put k j v [] = refl
  find-put k j v ((i, w) ∷ m) = ground (arith, eq_iff k j, eq_iff i k, eq_iff i j, find-put k j v m)

  pub find-delete :
      (k j : String) (m : Dict V) → find j (delete k m) ≡ (if k == j then none else find j m)
  unfolding find delete
  find-delete k j [] = ground arith
  find-delete k j ((i, w) ∷ m) =
      ground (arith, eq_iff k j, eq_iff i k, eq_iff i j, find-delete k j m)

  pub find-put_self : (k : String) (v : V) (m : Dict V) → find k (put k v m) ≡ some v
  find-put_self k v m = ground (arith, find-put k k v m, eq_iff k k)

-- No key twice, as in every dict.
abbrev pub Unique {ℓ} : {V : Type ℓ} → Dict V → Type ℓ
Unique [] = Unit
Unique ((k, v) ∷ m) = (find k m ≡ none) × Unique m

-- What holds of every entry.
abbrev pub Entries {ℓ κ} : {V : Type ℓ} → (String → V → Type κ) → Dict V → Type κ
Entries P [] = Unit
Entries P ((k, v) ∷ m) = P k v × Entries P m

module _ {ℓ} {V : Type ℓ} where
  pub Unique-put : (k : String) (v : V) (m : Dict V) → Unique m → Unique (put k v m)
  unfolding put find
  Unique-put k v [] u = (refl, tt)
  Unique-put k v ((j, w) ∷ m) u =
      ground (arith, eq_iff j k, eq_iff k j, find-put k j v m, Unique-put k v m u.1)

  pub Entries-find {κ} :
      (P : String → V → Type κ) (m : Dict V)
      → Entries P m
      → (k : String) (v : V) → find k m ≡ some v
      → P k v
  unfolding find
  Entries-find P [] h k v e = cc
  Entries-find P ((j, w) ∷ m) h k v e = elim (Bool-cases (j == k)) [
    | inl same ↦
        let found : some w ≡ some v = rw same at e in
        let same_value : w ≡ v = cc in subst₂ P ((eq_iff j k).0 same) same_value h.0
    | inr other ↦ Entries-find P m h.1 k v (rw other at e)
  ]

  later :
      (j k : String) (w v : V) (m : Dict V)
      → find j m ≡ none
      → find k m ≡ some v
      → find k ((j, w) ∷ m) ≡ some v
  unfolding find
  later j k w v m fresh e = elim (Bool-cases (j == k)) [
    | inl same ↦
        let clash : find k m ≡ none = subst (λ i. find i m ≡ none) ((eq_iff j k).0 same) fresh in cc
    | inr other ↦ rw other e
  ]

  pub find-Entries {κ} :
      (P : String → V → Type κ) (m : Dict V)
      → Unique m
      → ((k : String) (v : V) → find k m ≡ some v → P k v)
      → Entries P m
  unfolding find
  find-Entries P [] u h = tt
  find-Entries P ((j, w) ∷ m) u h = (
    h j w (ground (arith, eq_iff j j)),
    find-Entries P m u.1 (λ k v e. h k v (later j k w v m u.0 e)),
  )
