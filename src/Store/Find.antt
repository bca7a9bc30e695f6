-- ===== src/Store/Find.antt =====
-- The records of one name as a map from the identity of a record, its type up to case and its
-- value, to the record: what the loops of the mutations do to it.

use coredns_updater_plugin.Base.{
  ℕ, ◌≡◌, refl, true, ◌&&◌, Option, none, some, List, [], ◌∷◌, ◌++◌, arith, if◌then◌else◌, set,
  Bool-cases, Option-cases, inl, inr,
}
use coredns_updater_plugin.Text.{Text, Unicode, str_eq, equal_fold}
use coredns_updater_plugin.Text.Fold.{str_eq_iff, equal_fold_sym, equal_fold_left}
use coredns_updater_plugin.Record.{Record}
use coredns_updater_plugin.Store.{matches, index_of, without, without_type}

module _ ⦃u : Unicode⦄ where
  -- The first record with the identity.
  unfoldable pub first : Text → Text → List Record → Option Record
  first qtype value [] = none
  first qtype value (r ∷ recs) = if matches qtype value r then some r else first qtype value recs

  -- `recs[idx] = r` where a match was found, and `append(recs, r)` where none was.
  unfoldable pub upsert_in : Record → List Record → List Record
  upsert_in r recs = elim (index_of r.type r.value recs) [
    | some idx ↦ set recs idx r
    | none ↦ recs ++ r ∷ []
  ]

  -- Two records of one identity match the same queries.
  matches-eq :
      (t v : Text) (r e : Record) → matches r.type r.value e ≡ true → matches t v e ≡ matches t v r
  unfolding matches
  matches-eq t v r e h = ground (arith, equal_fold_left e.type r.type t, str_eq_iff e.value r.value)

  -- Two records that match one query have one identity.
  matches_join :
      (t v : Text) (r e : Record)
      → matches t v e ≡ true
      → matches t v r ≡ true
      → matches r.type r.value e ≡ true
  unfolding matches
  matches_join t v r e h k = ground (
    arith,
    equal_fold_left e.type t r.type,
    equal_fold_sym r.type t,
    str_eq_iff e.value v,
    str_eq_iff r.value v,
    str_eq_iff e.value r.value,
  )

  pub upsert_in-cons :
      (r e : Record) (recs : List Record)
      → upsert_in r (e ∷ recs)
        ≡ (if matches r.type r.value e then r ∷ recs else e ∷ upsert_in r recs)
  unfolding upsert_in index_of
  upsert_in-cons r e recs = elim (Bool-cases (matches r.type r.value e)) [
    | inl h ↦ rw (h, upsert_in, index_of) refl
    | inr h ↦ elim (Option-cases (index_of r.type r.value recs)) [
      | inl o ↦ rw (h, upsert_in, index_of, o)
      | inr (i, o) ↦ rw (h, upsert_in, index_of, o)
    ]
  ]

  pub first-upsert_in :
      (t v : Text) (r : Record) (recs : List Record)
      → first t v (upsert_in r recs) ≡ (if matches t v r then some r else first t v recs)
  unfolding first
  first-upsert_in t v r [] = unfold upsert_in index_of in refl
  first-upsert_in t v r (e ∷ recs) = ground (
    arith,
    upsert_in-cons r e recs,
    matches-eq t v r e,
    matches_join t v r e,
    first-upsert_in t v r recs,
  )

  pub first-without :
      (t v qtype value : Text) (recs : List Record)
      → first t v (without qtype value recs)
        ≡ (if equal_fold t qtype && str_eq v value then none else first t v recs)
  unfolding first without matches
  first-without t v qtype value [] = ground arith
  first-without t v qtype value (e ∷ recs) = ground (
    arith,
    first-without t v qtype value recs,
    equal_fold_left e.type t qtype,
    equal_fold_left e.type qtype t,
    equal_fold_sym t qtype,
    str_eq_iff e.value v,
    str_eq_iff e.value value,
    str_eq_iff v value,
  )

  pub first-without_type :
      (t v qtype : Text) (recs : List Record)
      → first t v (without_type qtype recs) ≡ (if equal_fold t qtype then none else first t v recs)
  unfolding first without_type matches
  first-without_type t v qtype [] = ground arith
  first-without_type t v qtype (e ∷ recs) = ground (
    arith,
    first-without_type t v qtype recs,
    equal_fold_left e.type t qtype,
    equal_fold_left e.type qtype t,
    equal_fold_sym t qtype,
  )

  -- The index is found exactly where the identity has a record.
  pub first-index_of-none :
      (t v : Text) (recs : List Record) → index_of t v recs ≡ none → first t v recs ≡ none
  unfolding first index_of
  first-index_of-none t v [] h = refl
  first-index_of-none t v (e ∷ recs) h = elim (Option-cases (index_of t v recs)) [
    | inl o ↦ ground (arith, first-index_of-none t v recs o)
    | inr (i, o) ↦ ground arith
  ]

  pub first-index_of-some :
      (t v : Text) (i : ℕ) (recs : List Record)
      → index_of t v recs ≡ some i
      → (e : Record) × (first t v recs ≡ some e)
  unfolding first index_of
  first-index_of-some t v i [] h = cc
  first-index_of-some t v i (e ∷ recs) h = elim (Bool-cases (matches t v e)) [
    | inl hit ↦ (e, rw hit)
    | inr miss ↦ elim (Option-cases (index_of t v recs)) [
      | inl o ↦ ground arith
      | inr (j, o) ↦ let (found, p) = first-index_of-some t v j recs o in (found, rw miss p)
    ]
  ]
