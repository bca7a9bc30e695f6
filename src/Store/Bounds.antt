-- ===== src/Store/Bounds.antt =====
-- The number of records and the limit.
use coredns_updater_plugin.Base.{
  ◌+◌, ◌≤◌, ◌<◌, ◌≡◌, ◌≢◌, refl, Bool, true, false, List, [], ◌∷◌, ◌++◌, arith, set, length,
  length-append, length-set, Bool-cases, Option-cases, inl, inr, not, ◌==◌, if◌then◌else◌, Result,
}
use coredns_updater_plugin.Text.{Text, Unicode, str_eq, to_lower}
use coredns_updater_plugin.Assoc.{Assoc, lookup, insert, remove}
use coredns_updater_plugin.Record.{Record}
use coredns_updater_plugin.Policy.{policy_sync}
use coredns_updater_plugin.Store.{
  Store, StoreError, Snapshot, bucket, commit, count, index_of, without, without_type,
  put_or_delete, apply_upsert, apply_delete, apply_delete_by_type, apply_delete_all,
}
use coredns_updater_plugin.Store.Mutation.{
  Mutation, upsert, delete, delete_by_type, delete_all, apply,
}

count-insert :
    (key : Text) (recs : List Record) (m : Assoc (List Record))
    → count (insert key recs m) + length (bucket key m) ≡ count m + length recs
unfolding count insert bucket lookup
count-insert key recs [] = omega arith
count-insert key recs ((k, old) ∷ m) = elim (Bool-cases (str_eq k key)) [
  | inl e ↦ rw e (omega arith)
  | inr e ↦ rw e (omega (arith, count-insert key recs m))
]

count-remove :
    (key : Text) (m : Assoc (List Record)) → count (remove key m) + length (bucket key m) ≤ count m
unfolding count remove bucket lookup
count-remove key [] = omega arith
count-remove key ((k, old) ∷ m) = elim (Bool-cases (str_eq k key)) [
  | inl e ↦ rw e (omega (arith, count-remove key m))
  | inr e ↦ rw e (omega (arith, count-remove key m))
]

module _ ⦃u : Unicode⦄ where
  length-without : (t v : Text) (recs : List Record) → length (without t v recs) ≤ length recs
  unfolding without
  length-without t v [] = omega arith
  length-without t v (e ∷ recs) = ground (arith, length-without t v recs)

  length-without_type : (t : Text) (recs : List Record) → length (without_type t recs) ≤ length recs
  unfolding without_type
  length-without_type t [] = omega arith
  length-without_type t (e ∷ recs) = ground (arith, length-without_type t recs)

  count-put_or_delete :
      (key : Text) (recs : List Record) (m : Assoc (List Record))
      → length recs ≤ length (bucket key m)
      → count (put_or_delete key recs m) ≤ count m
  unfolding put_or_delete
  count-put_or_delete key [] m h = omega (arith, count-remove key m)
  count-put_or_delete key (r ∷ recs) m h = omega (arith, count-insert key (r ∷ recs) m)

  -- An upsert adds one record at most, and none where the limit is reached.
  count-upsert :
      (r : Record) (s : Store)
      → 0 < s.max_records
      → count s.records ≤ s.max_records
      → count (apply_upsert r s).1.records ≤ s.max_records
  unfolding apply_upsert commit
  count-upsert r s on h =
      let key = to_lower r.name in
      let recs = bucket key s.records in
      elim (Option-cases (index_of r.type r.value recs)) [
        | inl o ↦
            ground
              (arith, count-insert key (recs ++ r ∷ []) s.records, length-append {0} recs (r ∷ []))
        | inr (i, o) ↦
            ground (arith, count-insert key (set recs i r) s.records, length-set {0} recs i r)
      ]

  count-deletion :
      (allowed : Bool) (m : Assoc (List Record)) (s : Store) (e : Result StoreError Snapshot)
      → count m ≤ count s.records
      → count (if not allowed then (e, s) else commit m s).1.records ≤ count s.records
  unfolding commit
  count-deletion true m s e h = h
  count-deletion false m s e h = omega arith

  -- A deletion, by whichever of the three methods, never adds a record.
  count-removal :
      (m : Mutation) (s : Store)
      → ((r : Record) → m ≢ upsert r)
      → count (apply m s).1.records ≤ count s.records
  unfolding apply apply_delete apply_delete_by_type apply_delete_all
  count-removal (upsert r) s h = absurd (h r refl)
  count-removal (delete name t v) s h =
      let key = to_lower name in
      let recs = bucket key s.records in
      count-deletion (s.sync_policy == policy_sync) _ s _
        (count-put_or_delete key (without t v recs) s.records (length-without t v recs))
  count-removal (delete_by_type name t) s h =
      let key = to_lower name in
      let recs = bucket key s.records in
      count-deletion (s.sync_policy == policy_sync) _ s _
        (count-put_or_delete key (without_type t recs) s.records (length-without_type t recs))
  count-removal (delete_all name) s h =
      count-deletion (s.sync_policy == policy_sync) _ s _
        (omega (arith, count-remove (to_lower name) s.records))

  -- With a limit set, a store that is within it stays within it under every mutation.
  pub count-apply :
      (m : Mutation) (s : Store)
      → 0 < s.max_records
      → count s.records ≤ s.max_records
      → count (apply m s).1.records ≤ s.max_records
  count-apply (upsert r) s on h = unfold apply in count-upsert r s on h
  count-apply (delete name t v) s on h =
      omega (arith, count-removal (delete name t v) s (λ r e. cc))
  count-apply (delete_by_type name t) s on h =
      omega (arith, count-removal (delete_by_type name t) s (λ r e. cc))
  count-apply (delete_all name) s on h =
      omega (arith, count-removal (delete_all name) s (λ r e. cc))
