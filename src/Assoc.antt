-- ===== src/Assoc.antt =====
-- A Go map with string keys, as a list of entries with distinct keys in the order in which `range`
-- visits them: lookup, `m[k] = v`, and `delete(m, k)`.
use coredns_updater_plugin.Base.{
  ◌≡◌, refl, Option, none, some, List, [], ◌∷◌, arith, Bool-cases, if◌then◌else◌, inl, inr, All,
}
use coredns_updater_plugin.Text.{Text, str_eq}
use coredns_updater_plugin.Text.Fold.{str_eq_iff, str_eq→eq}

abbrev pub Assoc {ℓ} : Type ℓ → Type ℓ
Assoc V = List (Text × V)

module _ {ℓ} {V : Type ℓ} where
  unfoldable pub lookup : Text → Assoc V → Option V
  lookup k [] = none
  lookup k ((j, v) ∷ m) = if str_eq j k then some v else lookup k m

  unfoldable pub insert : Text → V → Assoc V → Assoc V
  insert k v [] = (k, v) ∷ []
  insert k v ((j, w) ∷ m) = if str_eq j k then (k, v) ∷ m else (j, w) ∷ insert k v m

  unfoldable pub remove : Text → Assoc V → Assoc V
  remove k [] = []
  remove k ((j, w) ∷ m) = let rest = remove k m in if str_eq j k then rest else (j, w) ∷ rest

  pub lookup-insert :
      (k j : Text) (v : V) (m : Assoc V)
      → lookup j (insert k v m) ≡ (if str_eq k j then some v else lookup j m)
  unfolding lookup insert
  lookup-insert k j v [] = refl
  lookup-insert k j v ((i, w) ∷ m) =
      ground (arith, str_eq_iff k j, str_eq_iff i k, str_eq_iff i j, lookup-insert k j v m)

  pub lookup-remove :
      (k j : Text) (m : Assoc V) → lookup j (remove k m) ≡ (if str_eq k j then none else lookup j m)
  unfolding lookup remove
  lookup-remove k j [] = ground arith
  lookup-remove k j ((i, w) ∷ m) =
      ground (arith, str_eq_iff k j, str_eq_iff i k, str_eq_iff i j, lookup-remove k j m)

  pub remove-All {κ} :
      (P : Text × V → Type κ) (k : Text) (m : Assoc V) → All P m → All P (remove k m)
  unfolding remove
  remove-All P k [] h = tt
  remove-All P k ((j, w) ∷ m) (p, h) = elim (Bool-cases (str_eq j k)) [
    | inl e ↦ rw e (remove-All P k m h)
    | inr e ↦ rw e (p, remove-All P k m h)
  ]

  pub insert-All {κ} :
      (P : Text × V → Type κ) (k : Text) (v : V) (m : Assoc V)
      → All P m
      → P (k, v)
      → All P (insert k v m)
  unfolding insert
  insert-All P k v [] h p = (p, tt)
  insert-All P k v ((j, w) ∷ m) (q, h) p = elim (Bool-cases (str_eq j k)) [
    | inl e ↦ rw e (p, h)
    | inr e ↦ rw e (q, insert-All P k v m h p)
  ]

  -- What holds of every entry holds of the one that is found.
  pub lookup-All {κ} :
      (P : Text × V → Type κ) (k : Text) (v : V) (m : Assoc V)
      → All P m
      → lookup k m ≡ some v
      → P (k, v)
  unfolding lookup
  lookup-All P k v [] h e = cc
  lookup-All P k v ((j, w) ∷ m) (p, h) e = elim (Bool-cases (str_eq j k)) [
    | inl same ↦ (let ew : w ≡ v = ground arith in rw (← str_eq→eq j k same, ← ew) p)
    | inr other ↦ lookup-All P k v m h (ground arith)
  ]

  -- The key stands at no entry.
  abbrev pub IsFresh : Text → Assoc V → Type ℓ
  IsFresh k m = lookup k m ≡ none

  -- No key stands at two entries.
  abbrev pub HasDistinctKeys : Assoc V → Type ℓ
  HasDistinctKeys [] = Unit
  HasDistinctKeys ((k, v) ∷ m) = IsFresh k m × HasDistinctKeys m

  pub insert-HasDistinctKeys :
      (k : Text) (v : V) (m : Assoc V) → HasDistinctKeys m → HasDistinctKeys (insert k v m)
  unfolding insert lookup
  insert-HasDistinctKeys k v [] h = (refl, tt)
  insert-HasDistinctKeys k v ((j, w) ∷ m) (fresh, h) = elim (Bool-cases (str_eq j k)) [
    | inl e ↦ rw e (rw (← str_eq→eq j k e) fresh, h)
    | inr e ↦ rw e (
      ground (arith, lookup-insert k j v m, str_eq_iff k j, str_eq_iff j k),
      insert-HasDistinctKeys k v m h,
    )
  ]

  pub remove-HasDistinctKeys :
      (k : Text) (m : Assoc V) → HasDistinctKeys m → HasDistinctKeys (remove k m)
  unfolding remove
  remove-HasDistinctKeys k [] h = tt
  remove-HasDistinctKeys k ((j, w) ∷ m) (fresh, h) = elim (Bool-cases (str_eq j k)) [
    | inl e ↦ rw e (remove-HasDistinctKeys k m h)
    | inr e ↦ rw e (ground (arith, lookup-remove k j m), remove-HasDistinctKeys k m h)
  ]
