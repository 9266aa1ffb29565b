-- ===== src/Base/Dicts.antt =====
-- A `Map` with text keys, as its entries in insertion order.
use mathlib.Core.Path.{◌≡◌, refl, ap, subst, ◌∙◌}
use mathlib.Core.Logic.{◌⊎◌, inl, inr, ◌≢◌}
use mathlib.Core.List.{List, [], ◌∷◌}
use mathlib.Core.Option.{Option, none, some}
use native.Mathlib.Omega.{arith}
use zvpn.Base.Tests.{Bool-cases, if◌then◌else◌}
use zvpn.Base.Texts.{Text, ◌===◌, ===_iff, ===_refl}

module _ {ℓ} {V : Type ℓ} where
  unfoldable pub get : Text → List (Text × V) → Option V
  get k [] = none
  get k ((j, v) ∷ m) = if j === k then some v else get k m

  unfoldable pub put : Text → V → List (Text × V) → List (Text × V)
  put k v [] = (k, v) ∷ []
  put k v ((j, w) ∷ m) = if j === k then (k, v) ∷ m else (j, w) ∷ put k v m

  unfoldable pub delete : Text → List (Text × V) → List (Text × V)
  delete k [] = []
  delete k ((j, w) ∷ m) = if j === k then delete k m else (j, w) ∷ delete k m

  pub get-put :
      (k j : Text) (v : V) (m : List (Text × V))
      → get j (put k v m) ≡ (if k === j then some v else get j m)
  unfolding get put
  get-put k j v [] = refl
  get-put k j v ((i, w) ∷ m) =
      ground (arith, ===_iff k j, ===_iff i k, ===_iff i j, get-put k j v m)

  pub get-delete :
      (k j : Text) (m : List (Text × V)) → get j (delete k m) ≡ (if k === j then none else get j m)
  unfolding get delete
  get-delete k j [] = ground arith
  get-delete k j ((i, w) ∷ m) =
      ground (arith, ===_iff k j, ===_iff i k, ===_iff i j, get-delete k j m)

  -- No key stands twice.
  abbrev pub Distinct : List (Text × V) → Type ℓ
  Distinct [] = Unit
  Distinct ((k, v) ∷ m) = (get k m ≡ none) × Distinct m

  pub put-Distinct : (k : Text) (v : V) (m : List (Text × V)) → Distinct m → Distinct (put k v m)
  unfolding get put
  put-Distinct k v [] d = (refl, tt)
  put-Distinct k v ((j, w) ∷ m) d = elim (Bool-cases (j === k)) [
    | inl e ↦ rw e (rw (← (===_iff j k).0 e) d.0, d.1)
    | inr e ↦
        rw e (get-put k j v m ∙ ground (arith, ===_iff j k, ===_iff k j), put-Distinct k v m d.1)
  ]

  pub get-put_self : (k : Text) (v : V) (m : List (Text × V)) → get k (put k v m) ≡ some v
  get-put_self k v m = get-put k k v m ∙ rw (===_refl k)

  pub get-put_ne : (k j : Text) (v : V) (m : List (Text × V)) → k ≢ j → get j (put k v m) ≡ get j m
  get-put_ne k j v m ne = get-put k j v m ∙ ground (arith, ===_iff k j)

  pub get-delete_self : (k : Text) (m : List (Text × V)) → get k (delete k m) ≡ none
  get-delete_self k m = get-delete k k m ∙ rw (===_refl k)

  pub get-delete_ne : (k j : Text) (m : List (Text × V)) → k ≢ j → get j (delete k m) ≡ get j m
  get-delete_ne k j m ne = get-delete k j m ∙ ground (arith, ===_iff k j)

  -- A table with one row written: the row is the new one, or one of the old under another key.
  pub put_cases :
      (k j : Text) (v w : V) (m : List (Text × V))
      → get j (put k v m) ≡ some w
      → ((k ≡ j) × (v ≡ w)) ⊎ ((k ≢ j) × (get j m ≡ some w))
  put_cases k j v w m e = elim (Bool-cases (k === j)) [
    | inl same ↦ inl ((===_iff k j).0 same, ground (arith, get-put k j v m))
    | inr other ↦ inr (λ s. ground (arith, ===_iff k j), ground (arith, get-put k j v m))
  ]

  -- The entries of the first put into the second, in order: `{ ...second, ...first }`.
  unfoldable pub put_all : List (Text × V) → List (Text × V) → List (Text × V)
  put_all [] m = m
  put_all ((k, v) ∷ entries) m = put_all entries (put k v m)

  abbrev pub or_else : Option V → Option V → Option V
  or_else none b = b
  or_else (some a) b = some a

  -- A key that is put has its value, and every other is as it was.
  pub get-put_all :
      (entries : List (Text × V))
      → Distinct entries
      → (c : Text) (m : List (Text × V))
      → get c (put_all entries m) ≡ or_else (get c entries) (get c m)
  unfolding put_all get
  get-put_all [] d c m = refl
  get-put_all ((k, v) ∷ entries) d c m =
      get-put_all entries d.1 c (put k v m)
      ∙ ap (or_else (get c entries)) (get-put k c v m)
      ∙ (elim (Bool-cases (k === c)) [
        | inl e ↦
            let gone : get c entries ≡ none =
              subst (λ x. get x entries ≡ none) ((===_iff k c).0 e) d.0 in
            rw (e, gone) refl
        | inr e ↦ rw e refl
      ])
