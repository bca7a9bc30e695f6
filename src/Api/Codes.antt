-- ===== src/Api/Codes.antt =====
-- The codes of the two servers: which mutations are forbidden, and that a record gets the same
-- treatment from both.
use coredns_updater_plugin.Base.{
  ℕ, ◌≡◌, ◌<◌, ◌↔◌, refl, ◌⊎◌, inl, inr, true, false, none, some, arith, ok, err, Result,
  if◌then◌else◌,
}
use coredns_updater_plugin.Text.{Unicode}
use coredns_updater_plugin.Record.{Record, Dns, validate}
use coredns_updater_plugin.Store.{StoreError, Snapshot, is_policy_denied, collect, next_generation}
use coredns_updater_plugin.Store.Mutation.{Mutation, upsert, permits, action}
use coredns_updater_plugin.Store.Outcomes.{denied, full, done, apply-Verdict}
use coredns_updater_plugin.Persist.{Json, Os, State, Status, persist_snapshot, write_file}
use coredns_updater_plugin.Proto.{PbRecord, proto_to_record}
use coredns_updater_plugin.Api.{
  status_created, status_bad_request, status_forbidden, status_internal_server_error,
  mutate_and_persist, then_write, respond, handle_create, store_valid, store_record, store_failed,
}
use coredns_updater_plugin.Api.Grpc.{
  GrpcError, invalid_argument, permission_denied, internal, grpc_upsert,
}

-- The HTTP status with the meaning of a gRPC result.
abbrev pub status_of : Result GrpcError PbRecord → ℕ
status_of (ok r) = status_created
status_of (err (invalid_argument a)) = status_bad_request
status_of (err (permission_denied e)) = status_forbidden
status_of (err (internal e)) = status_internal_server_error

module _ ⦃u : Unicode⦄ (json : Json) where
  -- The policy has no part in the writing of the file.
  persist_snapshot-err :
      (os : Os) (snap : Snapshot) (w w' : State) (e : StoreError)
      → persist_snapshot json os snap w ≡ (err e, w')
      → is_policy_denied e ≡ false
  unfolding persist_snapshot write_file is_policy_denied
  persist_snapshot-err os snap w w' e h = ground arith

  -- A method returns an error of the policy exactly where the policy does not permit its action.
  mutate_and_persist-denied :
      (os : Os) (m : Mutation) (w w' : State) (e : StoreError)
      → w.store.sync_policy < 4
      → mutate_and_persist json os m w ≡ (err e, w')
      → is_policy_denied e
        ≡ (if permits w.store.sync_policy (action m w.store) then false else true)
  unfolding mutate_and_persist then_write
  mutate_and_persist-denied os m w w' e p h = elim (apply-Verdict m w.store p) [
    | denied e' barred is o ↦ ground arith
    | full may c on le o ↦ unfold is_policy_denied in ground arith
    | done s' may room kept o ↦
        let snap : Snapshot = (collect s'.records, next_generation w.store.generation) in
        let run : persist_snapshot json os snap (record w { store = s' }) ≡ (err e, w') =
          ground arith in
        ground (arith, persist_snapshot-err os snap (record w { store = s' }) w' e run)
  ]

  mutate_and_persist-permitted :
      (os : Os) (m : Mutation) (w w' : State)
      → w.store.sync_policy < 4
      → mutate_and_persist json os m w ≡ (ok tt, w')
      → permits w.store.sync_policy (action m w.store) ≡ true
  unfolding mutate_and_persist then_write
  mutate_and_persist-permitted os m w w' p h = elim (apply-Verdict m w.store p) [
    | denied e barred is o ↦ absurd (ground arith)
    | full may c on le o ↦ may
    | done s' may room kept o ↦ may
  ]

  Status-cases :
      (o : Status × State)
      → ((w' : State) × (o ≡ (ok tt, w'))) ⊎ ((e : StoreError) × (w' : State) × (o ≡ (err e, w')))
  Status-cases (ok d, w') = inl (w', refl)
  Status-cases (err e, w') = inr (e, w', refl)

  -- For each of the four policies, a `POST` of a record that is valid is answered with 403 exactly
  -- if the policy does not permit the action of storing it, a creation or an update.
  pub handle_create_iff :
      (dns : Dns) (os : Os) (r r' : Record) (w : State)
      → w.store.sync_policy < 4
      → validate dns r ≡ (r', none)
      → ((handle_create json dns os (some r) w).0.status ≡ status_forbidden)
        ↔ (permits w.store.sync_policy (action (upsert r') w.store) ≡ false)
  unfolding handle_create store_record store_valid respond store_failed
  handle_create_iff dns os r r' w p valid =
      elim (Status-cases (mutate_and_persist json os (upsert r') w)) [
        | inl (w', stored) ↦
            let may = mutate_and_persist-permitted os (upsert r') w w' p stored in
            (λ h. ground arith, λ h. ground arith)
        | inr (e, w', failed) ↦
            let judged = mutate_and_persist-denied os (upsert r') w w' e p failed in
            (λ h. ground arith, λ h. ground arith)
      ]

  -- A message that converts to a record has the same effect through gRPC as the record has through
  -- REST: the store, the file and the gauge are left the same, and the codes correspond, created to
  -- OK, 400 to InvalidArgument, 403 to PermissionDenied and 500 to Internal.
  pub grpc_upsert-handle_create :
      (dns : Dns) (os : Os) (p : PbRecord) (r : Record) (w : State)
      → proto_to_record p ≡ ok r
      → ((grpc_upsert json dns os (some p) w).1 ≡ (handle_create json dns os (some r) w).1)
        × (status_of (grpc_upsert json dns os (some p) w).0
            ≡ (handle_create json dns os (some r) w).0.status)
  unfolding grpc_upsert handle_create
  grpc_upsert-handle_create dns os p r w h = (ground arith, ground arith)
