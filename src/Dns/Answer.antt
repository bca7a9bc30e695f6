-- ===== src/Dns/Answer.antt =====
-- A record that was validated and stored is served.
use coredns_updater_plugin.Base.{
  ℕ, ◌≡◌, ◌≢◌, refl, sym, subst, ◌⊎◌, inl, inr, true, none, some, List, [], ◌∷◌, arith, ok,
  Bool-cases, ap, Option-cases,
}
use coredns_updater_plugin.Text.{is_empty, Text, Unicode, equal_fold, to_lower}
use coredns_updater_plugin.Text.Fold.{equal_fold_refl, str_eq_iff}
use coredns_updater_plugin.Record.{Record, Dns, Rr, to_rr, validate}
use coredns_updater_plugin.Record.Convert.{KnowsTypes, IsResource, to_rr-validate}
use coredns_updater_plugin.Store.{
  Store, Snapshot, matches, bucket, get_all, of_type, index_of, apply_upsert,
}
use coredns_updater_plugin.Store.Find.{upsert_in, upsert_in-cons}
use coredns_updater_plugin.Store.Mutation.{upsert, apply}
use coredns_updater_plugin.Store.Refine.{bucket-apply}
use coredns_updater_plugin.Dns.{
  Server, Msg, rcode_success, records_to_rr, filter_by_type, serve_dns, write_answer,
}

module _ {A : Type 0} where
  abbrev pub IsAmong : A → List A → Type 0
  IsAmong a [] = ⊥
  IsAmong a (x ∷ xs) = (x ≡ a) ⊎ IsAmong a xs

  IsAmong-cons : (a : A) (xs : List A) → IsAmong a xs → (x : A) × (ys : List A) × (xs ≡ x ∷ ys)
  IsAmong-cons a [] h = absurd h
  IsAmong-cons a (x ∷ xs) h = (x, xs, refl)

module _ ⦃u : Unicode⦄ where
  IsAmong-upsert_in : (r : Record) (recs : List Record) → IsAmong r (upsert_in r recs)
  IsAmong-upsert_in r [] = unfold upsert_in index_of in inl refl
  IsAmong-upsert_in r (e ∷ recs) = elim (Bool-cases (matches r.type r.value e)) [
    | inl same ↦ rw (upsert_in-cons r e recs, same) (inl refl)
    | inr other ↦ rw (upsert_in-cons r e recs, other) (inr (IsAmong-upsert_in r recs))
  ]

  IsAmong-of_type :
      (t : Text) (r : Record) (recs : List Record)
      → equal_fold r.type t ≡ true
      → IsAmong r recs
      → IsAmong r (of_type t recs)
  unfolding of_type
  IsAmong-of_type t r [] same h = h
  IsAmong-of_type t r (x ∷ recs) same (inl e) = rw (e, same) (inl refl)
  IsAmong-of_type t r (x ∷ recs) same (inr h) =
      let rest = IsAmong-of_type t r recs same h in
      elim (Bool-cases (equal_fold x.type t)) [ inl k ↦ rw k (inr rest) | inr k ↦ rw k rest ]

  IsAmong-records_to_rr :
      (dns : Dns) (r : Record) (rr : Rr) (recs : List Record)
      → to_rr dns r ≡ some rr
      → IsAmong r recs
      → IsAmong rr (records_to_rr dns recs)
  unfolding records_to_rr
  IsAmong-records_to_rr dns r rr [] e h = h
  IsAmong-records_to_rr dns r rr (x ∷ recs) e (inl same) =
      let first : records_to_rr dns (x ∷ recs) ≡ rr ∷ records_to_rr dns recs =
        ground (arith, ap (to_rr dns) same) in
      subst (IsAmong rr) (sym first) (inl refl)
  IsAmong-records_to_rr dns r rr (x ∷ recs) e (inr h) =
      let rest = IsAmong-records_to_rr dns r rr recs e h in
      elim (Option-cases (to_rr dns x)) [
        | inl o ↦
            let skipped : records_to_rr dns (x ∷ recs) ≡ records_to_rr dns recs = ground arith in
            subst (IsAmong rr) (sym skipped) rest
        | inr (y, o) ↦
            let kept : records_to_rr dns (x ∷ recs) ≡ y ∷ records_to_rr dns recs = ground arith in
            subst (IsAmong rr) (sym kept) (inr rest)
      ]

  pub get_all-upsert :
      (r : Record) (s s' : Store) (snap : Snapshot)
      → apply_upsert r s ≡ (ok snap, s')
      → IsAmong r (get_all r.name s')
  unfolding get_all
  get_all-upsert r s s' snap h =
      let key = to_lower r.name in
      let e : bucket key s'.records ≡ upsert_in r (bucket key s.records) =
        ground
          (arith, bucket-apply (upsert r) s s' snap key (unfold apply in h), str_eq_iff key key) in
      subst (IsAmong r) (sym e) (IsAmong-upsert_in r (bucket key s.records))

  -- A validated record that the store has is in the answer to a query for its name and type.
  pub serve_dns-stored :
      (dns : Dns) (sv : Server) (r r' : Record) (s : Store) (later : ℕ → Store)
      → validate dns r ≡ (r', none)
      → KnowsTypes dns
      → dns.type_to_string (dns.string_to_type r'.type) ≡ r'.type
      → IsAmong r' (get_all r'.name s)
      → sv.zone_of r'.name ≢ []
      → (rr : Rr) × (msg : Msg) × (to_rr dns r' ≡ some rr)
        × IsResource dns r' rr
        × ((serve_dns dns sv s later r'.name (dns.string_to_type r'.type)).sent ≡ some msg)
        × (msg.rcode ≡ rcode_success)
        × IsAmong rr msg.answer
  unfolding serve_dns write_answer filter_by_type is_empty
  serve_dns-stored dns sv r r' s later valid known named stored zone =
      let (rr, converts, resource) = to_rr-validate dns r r' valid known in
      let qtype = dns.string_to_type r'.type in
      let all = get_all r'.name s in
      let found : IsAmong r' (of_type (dns.type_to_string qtype) all) =
        IsAmong-of_type (dns.type_to_string qtype) r' all (rw named (equal_fold_refl r'.type))
          stored in
      let (x, xs, some_all) = IsAmong-cons r' all stored in
      let (y, ys, some_found) = IsAmong-cons r' _ found in
      (
        rr,
        record {
          rcode = rcode_success;
          authoritative = true;
          answer = records_to_rr dns (of_type (dns.type_to_string qtype) all);
          ns = [];
        },
        converts,
        resource,
        ground arith,
        refl,
        IsAmong-records_to_rr dns r' rr _ converts found,
      )

  -- A record passes the validation and is then stored without an error. In the store that is left,
  -- a query for its name and its type, if a zone matches the name, sends a message without an error
  -- whose answers have the resource record of the validated record among them. The type table
  -- knows the supported types, and gives the number of the record's type its name.
  pub serve_dns-upsert :
      (dns : Dns) (sv : Server) (r r' : Record) (s s' : Store) (later : ℕ → Store) (snap : Snapshot)
      → validate dns r ≡ (r', none)
      → KnowsTypes dns
      → dns.type_to_string (dns.string_to_type r'.type) ≡ r'.type
      → apply_upsert r' s ≡ (ok snap, s')
      → sv.zone_of r'.name ≢ []
      → (rr : Rr) × (msg : Msg) × (to_rr dns r' ≡ some rr)
        × IsResource dns r' rr
        × ((serve_dns dns sv s' later r'.name (dns.string_to_type r'.type)).sent ≡ some msg)
        × (msg.rcode ≡ rcode_success)
        × IsAmong rr msg.answer
  serve_dns-upsert dns sv r r' s s' later snap valid known named done zone =
      serve_dns-stored dns sv r r' s' later valid known named (get_all-upsert r' s s' snap done)
        zone
