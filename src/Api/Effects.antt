-- ===== src/Api/Effects.antt =====
-- What a client may rely on after a response.
use coredns_updater_plugin.Base.{
  ◌≡◌, ◌<◌, refl, sym, ◌∙◌, subst, ap, inl, inr, Option, none, some, List, [], ◌∷◌, arith, ok, err,
  Bool-cases, ◌||◌,
}
use coredns_updater_plugin.Text.{Text, Unicode, is_empty, to_lower, to_upper}
use coredns_updater_plugin.Text.Fold.{str_eq_iff}
use coredns_updater_plugin.Record.{Record, Dns, Invalid, validate}
use coredns_updater_plugin.Store.{
  Store, Snapshot, Outcome, is_policy_denied, bucket, get, get_all, of_type, without_type,
}
use coredns_updater_plugin.Store.Mutation.{Mutation, upsert, delete_by_type, apply}
use coredns_updater_plugin.Store.Refine.{bucket-apply}
use coredns_updater_plugin.Persist.{Json, Os, State, Status, persist_snapshot, finish}
use coredns_updater_plugin.Dns.Answer.{IsAmong, get_all-upsert}
use coredns_updater_plugin.Api.{
  Response, record_body, status_created, status_no_content, mutate_and_persist, then_write, respond,
  handle_create, handle_delete_by_type, store_valid, store_record, bad_request, no_body,
}

module _ ⦃u : Unicode⦄ (json : Json) where
  -- Writing the file leaves the records alone.
  pub records-persist_snapshot :
      (os : Os) (snap : Snapshot) (w : State)
      → (persist_snapshot json os snap w).1.store.records ≡ w.store.records
  unfolding persist_snapshot finish
  records-persist_snapshot os snap w = ground arith

  then_write-ok :
      (os : Os) (w w' : State) (o : Outcome)
      → then_write json os w o ≡ (ok tt, w')
      → (snap : Snapshot) × (s' : Store) × (o ≡ (ok snap, s')) × (w'.store.records ≡ s'.records)
  unfolding then_write
  then_write-ok os w w' (err e, s) h = cc
  then_write-ok os w w' (ok snap, s) h =
      let kept = records-persist_snapshot os snap (record w { store = s }) in
      (snap, s, refl, sym (ap (λ (x : Status × State). x.1.store.records) h) ∙ kept)

  -- A method that returns no error has done its mutation.
  pub mutate_and_persist-ok :
      (os : Os) (m : Mutation) (w w' : State)
      → mutate_and_persist json os m w ≡ (ok tt, w')
      → (snap : Snapshot) × (s' : Store) × (apply m w.store ≡ (ok snap, s'))
        × (w'.store.records ≡ s'.records)
  unfolding mutate_and_persist
  mutate_and_persist-ok os m w w' h = then_write-ok os w w' (apply m w.store) h

  -- A status that no error has is that of the success.
  pub respond-success :
      (success resp : Response) (o : Status × State) (w' : State)
      → respond success o ≡ (resp, w')
      → resp.status < 400
      → (o ≡ (ok tt, w')) × (resp ≡ success)
  unfolding respond is_policy_denied
  respond-success success resp (ok done, w) w' h low = (ground arith, ground arith)
  respond-success success resp (err e, w) w' h low = absurd (ground arith)

  of_type-without_type : (t : Text) (recs : List Record) → of_type t (without_type t recs) ≡ []
  unfolding of_type without_type
  of_type-without_type t [] = refl
  of_type-without_type t (r ∷ recs) = ground (arith, of_type-without_type t recs)

  store_valid-created :
      (dns : Dns) (os : Os) (v : Record × Option Invalid) (w w' : State) (resp : Response)
      → store_valid json dns status_created os v w ≡ (resp, w')
      → resp.status ≡ status_created
      → (r' : Record) × (v ≡ (r', none))
        × (resp.body ≡ record_body r')
        × IsAmong r' (get_all r'.name w'.store)
  unfolding store_valid
  store_valid-created dns os (r, some e) w w' resp h created = absurd (ground arith)
  store_valid-created dns os (r, none) w w' resp h created =
      let (done, same) = respond-success _ resp _ w' h (omega arith) in
      let (snap, s', applied, kept) = mutate_and_persist-ok os (upsert r) w w' done in
      (
        r,
        refl,
        ap (λ (x : Response). x.body) same,
        unfold get_all in
            subst (λ m. IsAmong r (bucket (to_lower r.name) m)) (sym kept)
              (get_all-upsert r w.store s' snap (unfold apply in applied)),
      )

  -- After `POST` has answered 201, the body of the response is the validated record, and it is
  -- among the records that the store has for its name.
  pub created_is_stored :
      (dns : Dns) (os : Os) (body : Option Record) (w w' : State) (resp : Response)
      → handle_create json dns os body w ≡ (resp, w')
      → resp.status ≡ status_created
      → (r r' : Record) × (body ≡ some r)
        × (validate dns r ≡ (r', none))
        × (resp.body ≡ record_body r')
        × IsAmong r' (get_all r'.name w'.store)
  unfolding handle_create store_record bad_request
  created_is_stored dns os none w w' resp h created = absurd (ground arith)
  created_is_stored dns os (some r) w w' resp h created =
      let (r', valid, sent, stored) =
        store_valid-created dns os (validate dns r) w w' resp h created in
      (r, r', refl, valid, sent, stored)

  -- After the deletion of the records of a name and a type has answered 204, the store has no
  -- record for them.
  pub deleted_is_gone :
      (os : Os) (name type : Text) (w w' : State) (resp : Response)
      → handle_delete_by_type json os name type w ≡ (resp, w')
      → resp.status ≡ status_no_content
      → get name (to_upper type) w'.store ≡ []
  unfolding handle_delete_by_type get
  deleted_is_gone os name type w w' resp h gone =
      elim (Bool-cases (is_empty name || is_empty (to_upper type))) [
        | inl missing ↦ absurd (unfold bad_request in ground arith)
        | inr given ↦
            let key = to_lower name in
            let success : Response = record { status = status_no_content; body = no_body } in
            let deletion = delete_by_type name (to_upper type) in
            let answered : respond success (mutate_and_persist json os deletion w) ≡ (resp, w') =
              ground arith in
            let (done, same) = respond-success success resp _ w' answered (omega arith) in
            let (snap, s', applied, kept) = mutate_and_persist-ok os deletion w w' done in
            ground (
              arith,
              ap (bucket key) kept,
              bucket-apply deletion w.store s' snap key applied,
              str_eq_iff key key,
              of_type-without_type (to_upper type) (bucket key w.store.records),
            )
      ]
