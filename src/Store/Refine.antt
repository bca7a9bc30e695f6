-- ===== src/Store/Refine.antt =====
-- The buckets implement a map from identities to records.
use coredns_updater_plugin.Base.{
  ◌≡◌, true, false, List, [], ◌∷◌, ◌++◌, arith, if◌then◌else◌, set, ok, Bool-cases, Option-cases,
  inl, inr,
}
use coredns_updater_plugin.Text.{Text, Unicode, str_eq, to_lower}
use coredns_updater_plugin.Text.Fold.{str_eq→eq}
use coredns_updater_plugin.Assoc.{Assoc, insert, remove, lookup-insert, lookup-remove}
use coredns_updater_plugin.Record.{Record}
use coredns_updater_plugin.Store.{
  Store, Snapshot, bucket, commit, get_all, index_of, without, without_type, put_or_delete,
  apply_upsert, apply_delete, apply_delete_by_type, apply_delete_all,
}
use coredns_updater_plugin.Store.Find.{
  first, upsert_in, first-upsert_in, first-without, first-without_type,
}
use coredns_updater_plugin.Store.Mutation.{
  Mutation, upsert, delete, delete_by_type, delete_all, apply, view, touches, written,
}

pub bucket-insert :
    (k j : Text) (recs : List Record) (m : Assoc (List Record))
    → bucket j (insert k recs m) ≡ (if str_eq k j then recs else bucket j m)
unfolding bucket
bucket-insert k j recs m = ground (arith, lookup-insert k j recs m)

pub bucket-remove :
    (k j : Text) (m : Assoc (List Record))
    → bucket j (remove k m) ≡ (if str_eq k j then [] else bucket j m)
unfolding bucket
bucket-remove k j m = ground (arith, lookup-remove k j m)

pub bucket-put_or_delete :
    ⦃u : Unicode⦄ (k j : Text) (recs : List Record) (m : Assoc (List Record))
    → bucket j (put_or_delete k recs m) ≡ (if str_eq k j then recs else bucket j m)
unfolding put_or_delete
bucket-put_or_delete k j [] m = bucket-remove k j m
bucket-put_or_delete k j (r ∷ recs) m = bucket-insert k j (r ∷ recs) m

module _ ⦃u : Unicode⦄ where
  -- What a mutation leaves in the bucket of its name.
  abbrev pub rewritten : Mutation → List Record → List Record
  rewritten (upsert r) recs = upsert_in r recs
  rewritten (delete name qtype value) recs = without qtype value recs
  rewritten (delete_by_type name qtype) recs = without_type qtype recs
  rewritten (delete_all name) recs = []

  abbrev pub key_of : Mutation → Text
  key_of (upsert r) = to_lower r.name
  key_of (delete name qtype value) = to_lower name
  key_of (delete_by_type name qtype) = to_lower name
  key_of (delete_all name) = to_lower name

  -- A mutation that succeeds rewrites one bucket.
  pub bucket-apply :
      (m : Mutation) (s s' : Store) (snap : Snapshot) (j : Text)
      → apply m s ≡ (ok snap, s')
      → bucket j s'.records ≡ (
          if str_eq (key_of m) j
          then rewritten m (bucket (key_of m) s.records)
          else bucket j s.records)
  unfolding apply apply_upsert apply_delete apply_delete_by_type apply_delete_all commit upsert_in
  bucket-apply (upsert r) s s' snap j h =
      let recs = bucket (to_lower r.name) s.records in
      elim (Option-cases (index_of r.type r.value recs)) [
        | inl o ↦ ground (arith, bucket-insert (to_lower r.name) j (recs ++ r ∷ []) s.records)
        | inr (i, o) ↦ ground (arith, bucket-insert (to_lower r.name) j (set recs i r) s.records)
      ]
  bucket-apply (delete name qtype value) s s' snap j h =
      let key = to_lower name in
      ground
        (arith, bucket-put_or_delete key j (without qtype value (bucket key s.records)) s.records)
  bucket-apply (delete_by_type name qtype) s s' snap j h =
      let key = to_lower name in
      ground
        (arith, bucket-put_or_delete key j (without_type qtype (bucket key s.records)) s.records)
  bucket-apply (delete_all name) s s' snap j h =
      ground (arith, bucket-remove (to_lower name) j s.records)

  first-rewritten :
      (m : Mutation) (n t v : Text) (recs : List Record)
      → str_eq (key_of m) (to_lower n) ≡ true
      → first t v (rewritten m recs) ≡ (if touches m n t v then written m else first t v recs)
  first-rewritten (upsert r) n t v recs h = ground (arith, first-upsert_in t v r recs)
  first-rewritten (delete name qtype value) n t v recs h =
      ground (arith, first-without t v qtype value recs)
  first-rewritten (delete_by_type name qtype) n t v recs h =
      ground (arith, first-without_type t v qtype recs)
  first-rewritten (delete_all name) n t v recs h = unfold first in ground arith

  touches-eq-false :
      (m : Mutation) (n t v : Text)
      → str_eq (key_of m) (to_lower n) ≡ false
      → touches m n t v ≡ false
  touches-eq-false (upsert r) n t v h = rw h
  touches-eq-false (delete name qtype value) n t v h = rw h
  touches-eq-false (delete_by_type name qtype) n t v h = rw h
  touches-eq-false (delete_all name) n t v h = h

  -- A mutation that succeeds writes exactly the identities that it is about: the record of an
  -- upsert, nothing for a deletion. All other identities keep their record.
  pub view-apply :
      (m : Mutation) (s s' : Store) (snap : Snapshot) (n t v : Text)
      → apply m s ≡ (ok snap, s')
      → view s' n t v ≡ (if touches m n t v then written m else view s n t v)
  unfolding view get_all
  view-apply m s s' snap n t v h = elim (Bool-cases (str_eq (key_of m) (to_lower n))) [
    | inl same ↦ ground (
      arith,
      bucket-apply m s s' snap (to_lower n) h,
      str_eq→eq (key_of m) (to_lower n) same,
      first-rewritten m n t v (bucket (key_of m) s.records) same,
    )
    | inr other ↦
        ground (arith, bucket-apply m s s' snap (to_lower n) h, touches-eq-false m n t v other)
  ]
