-- ===== src/Persist/Grouping.antt =====
-- Loading files the records of a list under their names; of the records of a store it makes the
-- same buckets again.
use coredns_updater_plugin.Base.{
  ◌≡◌, refl, sym, ◌∙◌, false, none, List, [], ◌∷◌, ◌++◌, arith, Bool-cases, inl, inr, All,
  if◌then◌else◌,
}
use mathlib.Core.List.{append_assoc, append-nil}
use coredns_updater_plugin.Text.{Text, Unicode, str_eq, to_lower}
use coredns_updater_plugin.Text.Fold.{str_eq_iff, str_eq→eq}
use coredns_updater_plugin.Assoc.{Assoc, lookup, insert}
use coredns_updater_plugin.Record.{Record}
use coredns_updater_plugin.Store.{bucket, collect}
use coredns_updater_plugin.Store.Refine.{bucket-insert}
use coredns_updater_plugin.Store.Invariant.{IsWellFormed}
use coredns_updater_plugin.Persist.{group}

module _ ⦃u : Unicode⦄ where
  -- The records of one name, in their order.
  abbrev pub of_key : Text → List Record → List Record
  of_key key [] = []
  of_key key (r ∷ recs) =
      if str_eq (to_lower r.name) key then r ∷ of_key key recs else of_key key recs

  of_key-append :
      (key : Text) (xs ys : List Record) → of_key key (xs ++ ys) ≡ of_key key xs ++ of_key key ys
  of_key-append key [] ys = refl
  of_key-append key (x ∷ xs) ys = ground (arith, of_key-append key xs ys)

  -- What is loaded for a name are the records of that name, in the order of the file.
  pub bucket-group :
      (key : Text) (recs : List Record) (m : Assoc (List Record))
      → bucket key (group recs m) ≡ bucket key m ++ of_key key recs
  unfolding group
  bucket-group key [] m = sym (append-nil (bucket key m))
  bucket-group key (r ∷ recs) m =
      let k = to_lower r.name in
      elim (Bool-cases (str_eq k key)) [
        | inl same ↦
            rw
              (
                bucket-group key recs (insert k (bucket k m ++ r ∷ []) m),
                bucket-insert,
                same,
                str_eq→eq k key same,
              )
              (append_assoc (bucket key m) (r ∷ []) (of_key key recs))
        | inr other ↦
            rw (bucket-group key recs (insert k (bucket k m ++ r ∷ []) m), bucket-insert, other)
      ]

  of_key_same :
      (key : Text) (recs : List Record)
      → All (λ r. to_lower r.name ≡ key) recs
      → of_key key recs ≡ recs
  of_key_same key [] h = refl
  of_key_same key (r ∷ recs) (p, h) =
      ground (arith, of_key_same key recs h, str_eq_iff (to_lower r.name) key)

  of_key_other :
      (key k : Text) (recs : List Record)
      → str_eq k key ≡ false
      → All (λ r. to_lower r.name ≡ k) recs
      → of_key key recs ≡ []
  of_key_other key k [] ne h = refl
  of_key_other key k (r ∷ recs) ne (p, h) = ground (arith, of_key_other key k recs ne h)

  -- The records of a well-formed store, in whatever order the buckets are visited, hold those of
  -- each name in the order of its bucket.
  of_key-collect :
      (key : Text) (m : Assoc (List Record))
      → IsWellFormed m
      → of_key key (collect m) ≡ bucket key m
  unfolding collect bucket lookup
  of_key-collect key [] w = refl
  of_key-collect key ((k, recs) ∷ m) w =
      let (b, bs) = w.buckets in
      let (fresh, keys) = w.keys in
      let rest = of_key-collect key m (record { keys = keys; buckets = bs }) in
      elim (Bool-cases (str_eq k key)) [
        | inl same ↦
            let e = str_eq→eq k key same in
            let here : of_key key recs ≡ recs = of_key_same key recs (rw e at b.filed) in
            let absent : lookup key m ≡ none = rw e at fresh in
            rw (of_key-append key recs (collect m), here, rest, same, absent) (append-nil recs)
        | inr other ↦
            rw (of_key-append key recs (collect m), of_key_other key k recs other b.filed, other)
              rest
      ]

  -- Grouping the records of a well-formed store gives every name its records again.
  pub bucket-group-collect :
      (key : Text) (m : Assoc (List Record))
      → IsWellFormed m
      → bucket key (group (collect m) []) ≡ bucket key m
  bucket-group-collect key m w =
      bucket-group key (collect m) [] ∙ unfold bucket lookup in of_key-collect key m w
