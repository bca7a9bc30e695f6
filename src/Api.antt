-- ===== src/Api.antt =====
-- The methods of the store that mutate it and write the file (store.go), and the REST handlers over
-- them (api.go). A request is served without another one in between: how the methods interleave is
-- in Sync. Decoding a request's body, which is limited to a mebibyte, is a parameter: `none` is an
-- error. A response is its status code and its body; the routes give the path values.
pub mod Touched
pub mod Effects
pub mod Codes
pub mod Durable
pub mod Removed
pub mod Serve
pub mod Grpc
use coredns_updater_plugin.Base.{ℕ, Option, none, some, List, ◌||◌, if◌then◌else◌, Result, ok, err}
use coredns_updater_plugin.Text.{Text, Unicode, is_empty, to_upper}
use coredns_updater_plugin.Record.{Record, Dns, Invalid, validate}
use coredns_updater_plugin.Store.{Store, StoreError, Outcome, is_policy_denied, get_all, list}
use coredns_updater_plugin.Store.Mutation.{Mutation, upsert, delete_by_type, delete_all, apply}
use coredns_updater_plugin.Persist.{Json, Os, State, Status, persist_snapshot}

abbrev pub status_ok : ℕ
status_ok = 200

abbrev pub status_created : ℕ
status_created = 201

abbrev pub status_no_content : ℕ
status_no_content = 204

abbrev pub status_bad_request : ℕ
status_bad_request = 400

abbrev pub status_forbidden : ℕ
status_forbidden = 403

abbrev pub status_internal_server_error : ℕ
status_internal_server_error = 500

pub data Problem : Type 0 where
  invalid_json name_required name_and_type_required : Problem
  invalid_record : Invalid → Problem
  store_error : StoreError → Problem

pub data Body : Type 0 where
  no_body : Body
  records_body : List Record → Body
  record_body : Record → Body
  error_body : Problem → Body

pub record Response : Type 0 where
  pub status : ℕ
  pub body : Body

bad_request : Problem → Response
bad_request p = record { status = status_bad_request; body = error_body p }

-- The answer to an error of the store.
store_failed : StoreError → Response
unfolding is_policy_denied
store_failed e = record {
  status = if is_policy_denied e then status_forbidden else status_internal_server_error;
  body = error_body (store_error e);
}

-- A success with its response, or the answer to the error.
pub respond : Response → Status × State → Response × State
unfolding store_failed
respond success (ok done, w) = (success, w)
respond success (err e, w) = (store_failed e, w)

module _ ⦃u : Unicode⦄ where
  unfoldable pub handle_list : Text → Store → Response
  unfolding list
  handle_list name s = record {
    status = status_ok;
    body = records_body (if is_empty name then list s else get_all name s);
  }

  unfoldable pub handle_get_by_name : Text → Store → Response
  unfolding bad_request
  handle_get_by_name name s =
      if is_empty name
      then bad_request name_required
      else record { status = status_ok; body = records_body (get_all name s) }

  module _ (json : Json) where
    then_write : Os → State → Outcome → Status × State
    then_write os w (err e, s) = (err e, record w { store = s })
    then_write os w (ok snap, s) = persist_snapshot json os snap (record w { store = s })

    -- `Upsert`, `Delete`, `DeleteByType` and `DeleteAll`
    unfoldable pub mutate_and_persist : Os → Mutation → State → Status × State
    unfolding then_write
    mutate_and_persist os m w = then_write os w (apply m w.store)

    module _ (dns : Dns) where
      store_valid : ℕ → Os → Record × Option Invalid → State → Response × State
      unfolding bad_request respond
      store_valid status os (r, some e) w = (bad_request (invalid_record e), w)
      store_valid status os (r, none) w =
          respond (record { status = status; body = record_body r })
            (mutate_and_persist os (upsert r) w)

      -- The handlers that store a record differ only in the status of a success.
      store_record : ℕ → Os → Option Record → State → Response × State
      unfolding store_valid
      store_record status os none w = (bad_request invalid_json, w)
      store_record status os (some r) w = store_valid status os (validate dns r) w

      unfoldable pub handle_create : Os → Option Record → State → Response × State
      unfolding store_record
      handle_create = store_record status_created

      unfoldable pub handle_update : Os → Option Record → State → Response × State
      unfolding store_record
      handle_update = store_record status_ok

    unfoldable pub handle_delete_all : Os → Text → State → Response × State
    unfolding bad_request respond
    handle_delete_all os name w =
        if is_empty name
        then (bad_request name_required, w)
        else respond (record { status = status_no_content; body = no_body })
            (mutate_and_persist os (delete_all name) w)

    unfoldable pub handle_delete_by_type : Os → Text → Text → State → Response × State
    unfolding bad_request respond
    handle_delete_by_type os name type w =
        let qtype = to_upper type in
        if is_empty name || is_empty qtype
        then (bad_request name_and_type_required, w)
        else respond (record { status = status_no_content; body = no_body })
            (mutate_and_persist os (delete_by_type name qtype) w)
