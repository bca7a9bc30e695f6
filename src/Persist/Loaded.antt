-- ===== src/Persist/Loaded.antt =====
-- What a file must be like to give a well-formed store.
use coredns_updater_plugin.Base.{
  ◌≡◌, ◌≢◌, refl, sym, subst, true, none, List, [], ◌∷◌, ◌++◌, Bool-cases, Option-cases, inl, inr,
  All, All-append, ◌↔◌,
}
use coredns_updater_plugin.Text.{Text, Unicode, str_eq, to_lower}
use coredns_updater_plugin.Text.Fold.{str_eq_iff, str_eq→eq}
use coredns_updater_plugin.Assoc.{
  Assoc, lookup, insert, insert-All, lookup-All, HasDistinctKeys, insert-HasDistinctKeys,
}
use coredns_updater_plugin.Record.{Record}
use coredns_updater_plugin.Store.{bucket}
use coredns_updater_plugin.Store.Invariant.{IsUnique, IsBucket, IsWellFormed}
use coredns_updater_plugin.Persist.{group}
use coredns_updater_plugin.Persist.Grouping.{of_key, bucket-group}

module _ ⦃u : Unicode⦄ where
  -- A bucket that may have two records of one identity.
  abbrev IsFiled : Text × List Record → Type 0
  IsFiled e = (e.1 ≢ []) × All (λ r. to_lower r.name ≡ e.0) e.1

  snoc_filled : (xs : List Record) (r : Record) → (xs ++ r ∷ []) ≢ []
  snoc_filled [] r e = cc
  snoc_filled (x ∷ xs) r e = cc

  filed_bucket :
      (key : Text) (m : Assoc (List Record))
      → All IsFiled m
      → All (λ r. to_lower r.name ≡ key) (bucket key m)
  unfolding bucket
  filed_bucket key m h = elim (Option-cases (lookup key m)) [
    | inl missing ↦ rw missing tt
    | inr (recs, found) ↦ rw found (lookup-All IsFiled key recs m h found).1
  ]

  group-IsFiled :
      (recs : List Record) (m : Assoc (List Record))
      → HasDistinctKeys m
      → All IsFiled m
      → HasDistinctKeys (group recs m) × All IsFiled (group recs m)
  unfolding group
  group-IsFiled [] m keys h = (keys, h)
  group-IsFiled (r ∷ recs) m keys h =
      let key = to_lower r.name in
      let recs' = bucket key m ++ r ∷ [] in
      group-IsFiled recs (insert key recs' m) (insert-HasDistinctKeys key recs' m keys) (
        insert-All IsFiled key recs' m h (
          snoc_filled (bucket key m) r,
          All-append (λ x. to_lower x.name ≡ key) (bucket key m) (r ∷ []) (filed_bucket key m h)
              (refl, tt),
        ))

  -- With distinct keys every bucket is the one that is looked up.
  entries-IsBucket :
      (m : Assoc (List Record))
      → HasDistinctKeys m
      → All IsFiled m
      → ((key : Text) → IsUnique (bucket key m))
      → All (λ e. IsBucket e.0 e.1) m
  unfolding bucket lookup
  entries-IsBucket [] keys h unique = tt
  entries-IsBucket ((k, recs) ∷ m) (fresh, keys) ((filled, filed), h) unique =
      let own : str_eq k k ≡ true = (str_eq_iff k k).1 refl in
      let here : IsUnique recs = rw own at (unique k) in
      let rest : (key : Text) → IsUnique (bucket key m) = λ key. elim (Bool-cases (str_eq k key)) [
        | inl same ↦
            (let absent : lookup key m ≡ none = rw (str_eq→eq k key same) at fresh in rw absent tt)
        | inr other ↦ rw other at (unique key)
      ] in
      (record { filled = filled; filed = filed; unique = here }, entries-IsBucket m keys h rest)

  bucket-IsUnique :
      (key : Text) (m : Assoc (List Record)) → IsWellFormed m → IsUnique (bucket key m)
  unfolding bucket
  bucket-IsUnique key m w = elim (Option-cases (lookup key m)) [
    | inl missing ↦ rw missing tt
    | inr (recs, found) ↦
        rw found (lookup-All (λ e. IsBucket e.0 e.1) key recs m w.buckets found).unique
  ]

  -- Loading the records of a file gives a well-formed store exactly if no two of its records with
  -- one name, up to case, have one type, up to case, and one value.
  pub group-IsWellFormed_iff :
      (recs : List Record)
      → IsWellFormed (group recs []) ↔ ((key : Text) → IsUnique (of_key key recs))
  unfolding bucket lookup
  group-IsWellFormed_iff recs = (
    λ w key. subst IsUnique (loaded key) (bucket-IsUnique key (group recs []) w),
    λ unique.
        let (keys, filed) = group-IsFiled recs [] tt tt in
        record {
          keys = keys;
          buckets =
              entries-IsBucket (group recs []) keys filed
                (λ key. subst IsUnique (sym (loaded key)) (unique key));
        },
  )
    where
      loaded : (key : Text) → bucket key (group recs []) ≡ of_key key recs
      loaded key = bucket-group key recs []
