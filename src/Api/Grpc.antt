-- ===== src/Api/Grpc.antt =====
-- grpc_server.go: the handlers of the gRPC service, over the same methods of the store.
pub mod Touched
pub mod Effects
use coredns_updater_plugin.Base.{
  ◌&&◌, Option, none, some, List, map, if◌then◌else◌, Result, ok, err,
}
use coredns_updater_plugin.Text.{Text, Unicode, is_empty}
use coredns_updater_plugin.Record.{Record, Dns, Invalid, validate}
use coredns_updater_plugin.Store.{Store, StoreError, is_policy_denied, get_all, list}
use coredns_updater_plugin.Store.Mutation.{upsert, delete, delete_all}
use coredns_updater_plugin.Persist.{Json, Os, State, Status}
use coredns_updater_plugin.Proto.{PbRecord, TooLarge, record_to_proto, proto_to_record}
use coredns_updater_plugin.Api.{mutate_and_persist}

-- What an `InvalidArgument` is about.
pub data Argument : Type 0 where
  record_required name_required : Argument
  invalid_field : TooLarge → Argument
  validation_failed : Invalid → Argument

pub data GrpcError : Type 0 where
  invalid_argument : Argument → GrpcError
  permission_denied internal : StoreError → GrpcError

code_of : StoreError → GrpcError
unfolding is_policy_denied
code_of e = if is_policy_denied e then permission_denied e else internal e

respond : {A : Type 0} → A → Status × State → Result GrpcError A × State
unfolding code_of
respond success (ok done, w) = (ok success, w)
respond success (err e, w) = (err (code_of e), w)

module _ ⦃u : Unicode⦄ where
  unfoldable pub grpc_list : Text → Store → List PbRecord
  unfolding list record_to_proto
  grpc_list name s = map record_to_proto (if is_empty name then list s else get_all name s)

  module _ (json : Json) where
    upsert_valid : Os → Record × Option Invalid → State → Result GrpcError PbRecord × State
    unfolding respond record_to_proto
    upsert_valid os (r, some e) w = (err (invalid_argument (validation_failed e)), w)
    upsert_valid os (r, none) w =
        respond (record_to_proto r) (mutate_and_persist json os (upsert r) w)

    unfoldable pub grpc_upsert :
        Dns → Os → Option PbRecord → State → Result GrpcError PbRecord × State
    unfolding upsert_valid
    grpc_upsert dns os none w = (err (invalid_argument record_required), w)
    grpc_upsert dns os (some p) w = elim (proto_to_record p) [
      | err e ↦ (err (invalid_argument (invalid_field e)), w)
      | ok r ↦ upsert_valid os (validate dns r) w
    ]

    unfoldable pub grpc_delete :
        Os → Text → Text → Text → State → Result GrpcError (Unit {0}) × State
    unfolding respond
    grpc_delete os name type value w =
        if is_empty name
        then (err (invalid_argument name_required), w)
        else if is_empty type && is_empty value
        then respond tt (mutate_and_persist json os (delete_all name) w)
        else respond tt (mutate_and_persist json os (delete name type value) w)
