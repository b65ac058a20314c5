-- ===== src/Dict.antt =====
-- Go maps with string keys, as association lists. The order of the entries stands for the order in
-- which Go happens to range over the map.
use cronbat.Prelude.{
  ◌≡◌, refl, ap, Option, none, some, Bool, true, false, List, [], ◌∷◌, arith, if◌then◌else◌,
}
use cronbat.Text.{Text, text_eq}
use cronbat.Text.Laws.{text_eq_iff, text_eq_refl}

abbrev pub Dict {ℓ} : Type ℓ → Type ℓ
Dict V = List (Text × V)

module _ {ℓ} {V : Type ℓ} where
  -- m[k], with `none` for a missing key
  unfoldable pub lookup : Text → Dict V → Option V
  lookup k [] = none
  lookup k ((j, v) ∷ m) = if text_eq j k then some v else lookup k m

  -- m[k] = v
  unfoldable pub insert : Text → V → Dict V → Dict V
  insert k v [] = (k, v) ∷ []
  insert k v ((j, w) ∷ m) = if text_eq j k then (j, v) ∷ m else (j, w) ∷ insert k v m

  -- delete(m, k)
  unfoldable pub remove : Text → Dict V → Dict V
  remove k [] = []
  remove k ((j, v) ∷ m) = let rest = remove k m in if text_eq j k then rest else (j, v) ∷ rest

  -- _, ok := m[k]
  abbrev pub is_some : Option V → Bool
  is_some none = false
  is_some (some v) = true

  pub lookup-insert :
      (k j : Text) (v : V) (m : Dict V)
      → lookup j (insert k v m) ≡ (if text_eq k j then some v else lookup j m)
  unfolding lookup insert
  lookup-insert k j v [] = refl
  lookup-insert k j v ((i, w) ∷ m) =
      ground (arith, text_eq_iff i k, text_eq_iff k j, text_eq_iff i j, lookup-insert k j v m)

  pub lookup-remove :
      (k j : Text) (m : Dict V) → lookup j (remove k m) ≡ (if text_eq k j then none else lookup j m)
  unfolding lookup remove
  lookup-remove k j [] = ground arith
  lookup-remove k j ((i, w) ∷ m) =
      ground (arith, text_eq_iff i k, text_eq_iff k j, text_eq_iff i j, lookup-remove k j m)

  pub lookup-insert_self : (k : Text) (v : V) (m : Dict V) → lookup k (insert k v m) ≡ some v
  lookup-insert_self k v m = ground (arith, lookup-insert k k v m, text_eq_refl k)

  pub lookup-remove_self : (k : Text) (m : Dict V) → lookup k (remove k m) ≡ none
  lookup-remove_self k m = ground (arith, lookup-remove k k m, text_eq_refl k)

  -- Two maps with the same entries.
  abbrev pub Same : Dict V → Dict V → Type ℓ
  Same m n = (k : Text) → lookup k m ≡ lookup k n

  -- Writing back what a key holds changes nothing.
  pub insert_back :
      (k : Text) (v w : V) (m : Dict V) → lookup k m ≡ some v → Same (insert k v (insert k w m)) m
  insert_back k v w m h j = ground (
    arith,
    lookup-insert k j v (insert k w m),
    lookup-insert k j w m,
    text_eq_iff k j,
    ap (λ i. lookup i m) {x = k} {y = j},
  )
