-- ===== src/Store/Invariant.antt =====
-- The shape of the map of records, and that every mutation keeps it.
use coredns_updater_plugin.Base.{
  ◌≡◌, refl, ◌≢◌, Bool, true, false, none, List, [], ◌∷◌, arith, Bool-cases, Option-cases, ◌⊎◌, inl,
  inr, All, not, ◌==◌, if◌then◌else◌, Result,
}
use coredns_updater_plugin.Text.{Text, Unicode, to_lower, equal_fold}
use coredns_updater_plugin.Text.Fold.{str_eq_iff, equal_fold_sym, equal_fold_left}
use coredns_updater_plugin.Assoc.{
  Assoc, lookup, insert, remove, remove-All, insert-All, lookup-All, HasDistinctKeys,
  insert-HasDistinctKeys, remove-HasDistinctKeys,
}
use coredns_updater_plugin.Record.{Record}
use coredns_updater_plugin.Policy.{policy_sync}
use coredns_updater_plugin.Store.{
  Store, StoreError, Snapshot, bucket, commit, matches, index_of, without, without_type,
  put_or_delete, apply_upsert, apply_delete, apply_delete_by_type, apply_delete_all,
}
use coredns_updater_plugin.Store.Find.{
  first, upsert_in, upsert_in-cons, first-upsert_in, first-without, first-without_type,
}
use coredns_updater_plugin.Store.Mutation.{
  Mutation, upsert, delete, delete_by_type, delete_all, apply,
}
use coredns_updater_plugin.Store.Refine.{rewritten, key_of}

module _ ⦃u : Unicode⦄ where
  -- No two records of the list have one identity.
  abbrev pub IsUnique : List Record → Type 0
  IsUnique [] = Unit
  IsUnique (r ∷ recs) = (first r.type r.value recs ≡ none) × IsUnique recs

  -- A bucket is not empty, its records belong under its key, and their identities differ.
  pub record IsBucket (key : Text) (recs : List Record) : Type 0 where
    pub filled : recs ≢ []
    pub filed : All (λ r. to_lower r.name ≡ key) recs
    pub unique : IsUnique recs

  pub record IsWellFormed (m : Assoc (List Record)) : Type 0 where
    pub keys : HasDistinctKeys m
    pub buckets : All (λ e. IsBucket e.0 e.1) m

  -- What may stand in a bucket after a rewrite, which can leave it empty.
  record IsContent (key : Text) (recs : List Record) : Type 0 where
    filed : All (λ r. to_lower r.name ≡ key) recs
    unique : IsUnique recs

  bucket-IsContent :
      (key : Text) (m : Assoc (List Record)) → IsWellFormed m → IsContent key (bucket key m)
  unfolding bucket
  bucket-IsContent key m w = elim (Option-cases (lookup key m)) [
    | inl missing ↦ rw missing (record { filed = tt; unique = tt })
    | inr (recs, found) ↦
        let b = lookup-All (λ e. IsBucket e.0 e.1) key recs m w.buckets found in
        rw found (record { filed = b.filed; unique = b.unique })
  ]

  module _ {κ} (P : Record → Type κ) where
    upsert_in-All : (r : Record) (recs : List Record) → P r → All P recs → All P (upsert_in r recs)
    upsert_in-All r [] p h = unfold upsert_in index_of in (p, tt)
    upsert_in-All r (e ∷ recs) p (q, h) = elim (Bool-cases (matches r.type r.value e)) [
      | inl same ↦ rw (upsert_in-cons, same) (p, h)
      | inr other ↦ rw (upsert_in-cons, other) (q, upsert_in-All r recs p h)
    ]

    without-All : (t v : Text) (recs : List Record) → All P recs → All P (without t v recs)
    unfolding without
    without-All t v [] h = tt
    without-All t v (e ∷ recs) (q, h) = elim (Bool-cases (matches t v e)) [
      | inl same ↦ rw same (without-All t v recs h)
      | inr other ↦ rw other (q, without-All t v recs h)
    ]

    without_type-All : (t : Text) (recs : List Record) → All P recs → All P (without_type t recs)
    unfolding without_type
    without_type-All t [] h = tt
    without_type-All t (e ∷ recs) (q, h) = elim (Bool-cases (equal_fold e.type t)) [
      | inl same ↦ rw same (without_type-All t recs h)
      | inr other ↦ rw other (q, without_type-All t recs h)
    ]

  -- Records of one identity find the same records.
  first_same :
      (r e : Record) (recs : List Record)
      → matches r.type r.value e ≡ true
      → first r.type r.value recs ≡ first e.type e.value recs
  unfolding first matches
  first_same r e [] h = refl
  first_same r e (x ∷ recs) h = ground (
    arith,
    first_same r e recs h,
    equal_fold_left e.type r.type x.type,
    equal_fold_left x.type r.type e.type,
    equal_fold_left x.type e.type r.type,
    equal_fold_sym e.type r.type,
    str_eq_iff e.value r.value,
  )

  matches_sym : (r e : Record) → matches e.type e.value r ≡ true → matches r.type r.value e ≡ true
  unfolding matches
  matches_sym r e h =
      ground (
        arith,
        equal_fold_sym r.type e.type,
        str_eq_iff r.value e.value,
        str_eq_iff e.value r.value,
      )

  upsert_in-IsUnique :
      (r : Record) (recs : List Record) → IsUnique recs → IsUnique (upsert_in r recs)
  upsert_in-IsUnique r [] h = unfold upsert_in index_of first in (refl, tt)
  upsert_in-IsUnique r (e ∷ recs) (fresh, h) = elim (Bool-cases (matches r.type r.value e)) [
    | inl same ↦ rw (upsert_in-cons, same) (ground (arith, first_same r e recs same), h)
    | inr other ↦
        rw (upsert_in-cons, other)
          (
            ground (arith, first-upsert_in e.type e.value r recs, matches_sym r e),
            upsert_in-IsUnique r recs h,
          )
  ]

  without-IsUnique : (t v : Text) (recs : List Record) → IsUnique recs → IsUnique (without t v recs)
  unfolding without
  without-IsUnique t v [] h = tt
  without-IsUnique t v (e ∷ recs) (fresh, h) = elim (Bool-cases (matches t v e)) [
    | inl same ↦ rw same (without-IsUnique t v recs h)
    | inr other ↦
        rw other
          (ground (arith, first-without e.type e.value t v recs), without-IsUnique t v recs h)
  ]

  without_type-IsUnique :
      (t : Text) (recs : List Record) → IsUnique recs → IsUnique (without_type t recs)
  unfolding without_type
  without_type-IsUnique t [] h = tt
  without_type-IsUnique t (e ∷ recs) (fresh, h) = elim (Bool-cases (equal_fold e.type t)) [
    | inl same ↦ rw same (without_type-IsUnique t recs h)
    | inr other ↦
        rw other
          (ground (arith, first-without_type e.type e.value t recs), without_type-IsUnique t recs h)
  ]

  rewritten-IsContent :
      (m : Mutation) (recs : List Record)
      → IsContent (key_of m) recs
      → IsContent (key_of m) (rewritten m recs)
  rewritten-IsContent (upsert r) recs c = record {
    filed = upsert_in-All (λ x. to_lower x.name ≡ to_lower r.name) r recs refl c.filed;
    unique = upsert_in-IsUnique r recs c.unique;
  }
  rewritten-IsContent (delete name t v) recs c = record {
    filed = without-All (λ x. to_lower x.name ≡ to_lower name) t v recs c.filed;
    unique = without-IsUnique t v recs c.unique;
  }
  rewritten-IsContent (delete_by_type name t) recs c = record {
    filed = without_type-All (λ x. to_lower x.name ≡ to_lower name) t recs c.filed;
    unique = without_type-IsUnique t recs c.unique;
  }
  rewritten-IsContent (delete_all name) recs c = record { filed = tt; unique = tt }

  insert-IsWellFormed :
      (key : Text) (recs : List Record) (m : Assoc (List Record))
      → recs ≢ []
      → IsContent key recs
      → IsWellFormed m
      → IsWellFormed (insert key recs m)
  insert-IsWellFormed key recs m filled c w = record {
    keys = insert-HasDistinctKeys key recs m w.keys;
    buckets =
        insert-All (λ e. IsBucket e.0 e.1) key recs m w.buckets
          (record { filled = filled; filed = c.filed; unique = c.unique });
  }

  remove-IsWellFormed :
      (key : Text) (m : Assoc (List Record)) → IsWellFormed m → IsWellFormed (remove key m)
  remove-IsWellFormed key m w = record {
    keys = remove-HasDistinctKeys key m w.keys;
    buckets = remove-All (λ e. IsBucket e.0 e.1) key m w.buckets;
  }

  put_or_delete-IsWellFormed :
      (key : Text) (recs : List Record) (m : Assoc (List Record))
      → IsContent key recs
      → IsWellFormed m
      → IsWellFormed (put_or_delete key recs m)
  unfolding put_or_delete
  put_or_delete-IsWellFormed key [] m c w = remove-IsWellFormed key m w
  put_or_delete-IsWellFormed key (r ∷ recs) m c w =
      insert-IsWellFormed key (r ∷ recs) m (λ e. cc) c w

  upsert_in-ne-nil : (r : Record) (recs : List Record) → upsert_in r recs ≢ []
  upsert_in-ne-nil r [] = unfold upsert_in index_of in λ e. cc
  upsert_in-ne-nil r (e ∷ recs) = λ h. ground (arith, upsert_in-cons r e recs)

  upsert-IsWellFormed :
      (r : Record) (m : Assoc (List Record))
      → IsWellFormed m
      → IsWellFormed (insert (to_lower r.name) (upsert_in r (bucket (to_lower r.name) m)) m)
  upsert-IsWellFormed r m w =
      let key = to_lower r.name in
      let recs = bucket key m in
      insert-IsWellFormed key (upsert_in r recs) m (upsert_in-ne-nil r recs)
        (rewritten-IsContent (upsert r) recs (bucket-IsContent key m w)) w

  -- Where an upsert leaves the state: as it was, or with the record in its bucket.
  upsert-records :
      (r : Record) (s : Store)
      → ((apply_upsert r s).1.records ≡ s.records)
        ⊎ ((apply_upsert r s).1.records
            ≡ insert (to_lower r.name) (upsert_in r (bucket (to_lower r.name) s.records)) s.records)
  unfolding apply_upsert commit upsert_in
  upsert-records r s = ground arith

  -- Where a deletion leaves the state: as it was, or with one bucket rewritten.
  deletion-IsWellFormed :
      (allowed : Bool) (m : Assoc (List Record)) (s : Store) (e : Result StoreError Snapshot)
      → IsWellFormed m
      → IsWellFormed s.records
      → IsWellFormed (if not allowed then (e, s) else commit m s).1.records
  unfolding commit
  deletion-IsWellFormed true m s e wm ws = wm
  deletion-IsWellFormed false m s e wm ws = ws

  -- Every mutation, whether it succeeds or fails, keeps the map of records well formed: distinct
  -- keys, no empty bucket, every record under its name in lower case, and no two records of one
  -- identity.
  pub apply-IsWellFormed :
      (m : Mutation) (s : Store) → IsWellFormed s.records → IsWellFormed (apply m s).1.records
  unfolding apply apply_upsert apply_delete apply_delete_by_type apply_delete_all
  apply-IsWellFormed (upsert r) s w = elim (upsert-records r s) [
    | inl kept ↦ rw kept w
    | inr stored ↦ rw stored (upsert-IsWellFormed r s.records w)
  ]
  apply-IsWellFormed (delete name t v) s w =
      let key = to_lower name in
      let recs = bucket key s.records in
      deletion-IsWellFormed (s.sync_policy == policy_sync) _ s _
        (put_or_delete-IsWellFormed key (without t v recs) s.records
          (rewritten-IsContent (delete name t v) recs (bucket-IsContent key s.records w)) w)
        w
  apply-IsWellFormed (delete_by_type name t) s w =
      let key = to_lower name in
      let recs = bucket key s.records in
      deletion-IsWellFormed (s.sync_policy == policy_sync) _ s _
        (put_or_delete-IsWellFormed key (without_type t recs) s.records
          (rewritten-IsContent (delete_by_type name t) recs (bucket-IsContent key s.records w)) w)
        w
  apply-IsWellFormed (delete_all name) s w =
      deletion-IsWellFormed (s.sync_policy == policy_sync) _ s _
        (remove-IsWellFormed (to_lower name) s.records w) w
