-- ===== src/Api/Grpc/Touched.antt =====
-- The methods of the gRPC service do at most one mutation, as the handlers of REST do.
use coredns_updater_plugin.Base.{◌≡◌, refl, Option, none, some, ok, err, inl, inr, Result-cases}
use coredns_updater_plugin.Text.{Text, Unicode}
use coredns_updater_plugin.Record.{Record, Dns, Invalid, validate}
use coredns_updater_plugin.Store.Mutation.{Mutation, upsert}
use coredns_updater_plugin.Persist.{Json, Os, State, Status}
use coredns_updater_plugin.Proto.{PbRecord, proto_to_record}
use coredns_updater_plugin.Api.{mutate_and_persist}
use coredns_updater_plugin.Api.Touched.{Touched, untouched, mutated, Touched-if}
use coredns_updater_plugin.Api.Grpc.{respond, upsert_valid, grpc_upsert, grpc_delete}

module _ ⦃u : Unicode⦄ (json : Json) (os : Os) where
  respond-state : {A : Type 0} (a : A) (o : Status × State) → (respond a o).1 ≡ o.1
  unfolding respond
  respond-state a (ok done, w) = refl
  respond-state a (err e, w) = refl

  respond-Touched :
      {A : Type 0} (a : A) (m : Mutation) (w : State)
      → Touched json os w (respond a (mutate_and_persist json os m w)).1
  respond-Touched a m w = rw (respond-state a (mutate_and_persist json os m w)) (mutated m)

  upsert_valid-Touched :
      (v : Record × Option Invalid) (w : State) → Touched json os w (upsert_valid json os v w).1
  unfolding upsert_valid
  upsert_valid-Touched (r, some e) w = untouched
  upsert_valid-Touched (r, none) w = respond-Touched _ (upsert r) w

  pub grpc_upsert-Touched :
      (dns : Dns) (p : Option PbRecord) (w : State)
      → Touched json os w (grpc_upsert json dns os p w).1
  unfolding grpc_upsert
  grpc_upsert-Touched dns none w = untouched
  grpc_upsert-Touched dns (some p) w = elim (Result-cases (proto_to_record p)) [
    | inl (e, bad) ↦ rw (grpc_upsert, bad) untouched
    | inr (r, good) ↦ rw (grpc_upsert, good) (upsert_valid-Touched (validate dns r) w)
  ]

  pub grpc_delete-Touched :
      (name type value : Text) (w : State)
      → Touched json os w (grpc_delete json os name type value w).1
  unfolding grpc_delete
  grpc_delete-Touched name type value w = search (Touched-if, respond-Touched, untouched)
