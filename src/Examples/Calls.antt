-- ===== src/Examples/Calls.antt =====
-- Calls of the two management servers.
use coredns_updater_plugin.Assoc.{lookup, insert, remove}
use coredns_updater_plugin.Net.{parse_ip, to4}
use coredns_updater_plugin.Base.{
  ◌||◌, ◌&&◌, if◌then◌else◌, true, ok, ◌≡◌, refl, ◌↔◌, false, none, some, [], ◌∷◌, arith,
}
use coredns_updater_plugin.Text.{
  Text, lit, equal_fold, to_upper, is_empty, has_suffix, contains, is_member, str_eq, to_lower,
}
use coredns_updater_plugin.Record.{Record, validate, validate_value}
use coredns_updater_plugin.Store.{
  get, get_all, put_or_delete, without_type, apply_delete, apply_delete_by_type, commit,
  apply_upsert, index_of, bucket, count, collect, next_generation,
}
use coredns_updater_plugin.Store.Mutation.{upsert, permits, action, apply, view}
use coredns_updater_plugin.Policy.{policy_update_only}
use coredns_updater_plugin.Persist.{
  new_store, with_max_records, with_sync_policy, State, persist_snapshot, write_file, finish,
  is_stale, record_gauge, stat,
}
use coredns_updater_plugin.Proto.{record_to_proto, proto_to_record}
use coredns_updater_plugin.Dns.Answer.{IsAmong}
use coredns_updater_plugin.Api.{
  Response, record_body, no_body, handle_create, handle_delete_by_type, status_forbidden,
  mutate_and_persist,
}
use coredns_updater_plugin.Api.Effects.{deleted_is_gone}
use coredns_updater_plugin.Api.Durable.{created_survives}
use coredns_updater_plugin.Store.Find.{first}
use coredns_updater_plugin.Api.Removed.{deleted_stays_gone}
use coredns_updater_plugin.Store.Invariant.{IsWellFormed}
use coredns_updater_plugin.Api.Codes.{status_of, handle_create_iff, grpc_upsert-handle_create}
use coredns_updater_plugin.Api.Grpc.{grpc_upsert, grpc_delete}
use coredns_updater_plugin.Api.Grpc.Effects.{view-grpc_delete}
use coredns_updater_plugin.Examples.Coding.{coding-ReadsBack}
use coredns_updater_plugin.Examples.{ascii, types, coding, smooth, web, fresh}

abbrev pub sent : Record
sent = record web { type = lit "a"; ttl = 0 }

abbrev pub normal : Record
normal = record web { ttl = 3600 }

pub valid : validate types sent ≡ (normal, none)
unfolding validate is_empty has_suffix contains to_upper is_member validate_value parse_ip to4
valid = refl

abbrev pub begin : State
begin = record { store = fresh; disk = []; gauge = [] }

abbrev created : Response
created = record { status = 201; body = record_body normal }

abbrev filled : State
filled = record begin {
  store = record fresh { records = (lit "web.example.", normal ∷ []) ∷ []; generation = 1 };
}

deleted_is_gone_example :
    get
      (lit "WEB.example.")
      (to_upper (lit "a"))
      (handle_delete_by_type coding smooth (lit "WEB.example.") (lit "a") filled).1.store
    ≡ []
unfolding handle_delete_by_type is_empty to_upper mutate_and_persist apply apply_delete_by_type
    commit persist_snapshot write_file
deleted_is_gone_example =
    deleted_is_gone coding smooth (lit "WEB.example.") (lit "a") filled
      (handle_delete_by_type coding smooth (lit "WEB.example.") (lit "a") filled).1
      (record { status = 204; body = no_body }) refl refl

abbrev update_only : State
update_only = record begin { store = record fresh { sync_policy = policy_update_only } }

handle_create_iff_example :
    ((handle_create coding types smooth (some sent) update_only).0.status ≡ status_forbidden)
    ↔ (permits policy_update_only (action (upsert normal) update_only.store) ≡ false)
handle_create_iff_example =
    handle_create_iff coding types smooth sent normal update_only (omega arith) valid

grpc_upsert-handle_create_example :
    ((grpc_upsert coding types smooth (some (record_to_proto sent)) begin).1
      ≡ (handle_create coding types smooth (some sent) begin).1)
    × (status_of (grpc_upsert coding types smooth (some (record_to_proto sent)) begin).0
        ≡ (handle_create coding types smooth (some sent) begin).0.status)
unfolding record_to_proto proto_to_record
grpc_upsert-handle_create_example =
    grpc_upsert-handle_create coding types smooth (record_to_proto sent) sent begin refl

created_survives_example :
    (again : State) × (new_store coding
        (lit "/f")
        0
        (with_max_records 5 ∷ with_sync_policy 1 ∷ [])
        true
        smooth
        (handle_create coding types smooth (some sent) begin).1.disk
        []
      ≡ ok again)
    × (again.store.ready ≡ true)
    × IsAmong normal (get_all (lit "Web.example.") again.store)
unfolding handle_create validate is_empty has_suffix contains to_upper is_member validate_value
    parse_ip to4 mutate_and_persist apply apply_upsert index_of bucket lookup count commit insert
    remove finish is_stale persist_snapshot record_gauge stat write_file collect next_generation
    str_eq to_lower
created_survives_example =
    created_survives coding types smooth smooth sent normal begin
      (handle_create coding types smooth (some sent) begin).1 created 0 5 1 valid refl refl
      (record { keys = tt; buckets = tt }) (omega arith) (omega arith) (refl, refl)
      (coding-ReadsBack (normal ∷ []))

filled-IsWellFormed : IsWellFormed filled.store.records
unfolding str_eq lookup to_lower equal_fold first
filled-IsWellFormed = record {
  keys = (refl, tt);
  buckets = (record { filled = λ e. cc; filed = (refl, tt); unique = (refl, tt) }, tt);
}

abbrev emptied : State
emptied = (handle_delete_by_type coding smooth (lit "WEB.example.") (lit "a") filled).1

deleted_stays_gone_example :
    (again : State) × (new_store coding
        (lit "/f")
        0
        (with_max_records 5 ∷ with_sync_policy 1 ∷ [])
        true
        smooth
        emptied.disk
        []
      ≡ ok again)
    × (again.store.ready ≡ true)
    × ((n t : Text)
        → get n t again.store ≡ (
            if str_eq (lit "web.example.") (to_lower n) && equal_fold t (lit "A")
            then []
            else get n t filled.store))
unfolding handle_delete_by_type is_empty to_upper to_lower mutate_and_persist apply
    apply_delete_by_type commit persist_snapshot write_file str_eq lookup collect put_or_delete
    without_type bucket equal_fold remove
deleted_stays_gone_example =
    deleted_stays_gone coding smooth smooth (lit "WEB.example.") (lit "a") filled emptied
      (record { status = 204; body = no_body }) 0 5 1 refl refl filled-IsWellFormed (omega arith)
      (omega arith) (refl, refl) (coding-ReadsBack [])

-- The name and the type are written in other cases than those of the record.
view-grpc_delete_example :
    (is_empty (lit "WEB.example.") ≡ false)
    × ((n t v : Text)
        → view
            (grpc_delete coding smooth
              (lit "WEB.example.")
              (lit "a")
              (lit "192.0.2.1")
              filled).1.store
            n
            t
            v
          ≡ (if str_eq (to_lower (lit "WEB.example.")) (to_lower n)
                && (is_empty (lit "a") && is_empty (lit "192.0.2.1")
                    || equal_fold t (lit "a") && str_eq v (lit "192.0.2.1"))
              then none
              else view filled.store n t v))
unfolding grpc_delete is_empty mutate_and_persist apply apply_delete persist_snapshot write_file
    commit
view-grpc_delete_example =
    view-grpc_delete coding smooth (lit "WEB.example.") (lit "a") (lit "192.0.2.1") filled
      (grpc_delete coding smooth (lit "WEB.example.") (lit "a") (lit "192.0.2.1") filled).1 refl
