-- ===== src/Api/Removed.antt =====
-- handleDeleteByType (api.go) with its writing, and NewStore on the file afterwards.
use coredns_updater_plugin.Base.{
  ℕ, ◌≡◌, ◌≤◌, ◌<◌, ◌+◌, ◌^◌, sym, ◌∙◌, subst, ap, true, List, [], ◌∷◌, arith, ok, inl, inr,
  Bool-cases, ◌||◌, ◌&&◌, if◌then◌else◌,
}
use coredns_updater_plugin.Text.{Text, Unicode, is_empty, to_lower, to_upper, str_eq, equal_fold}
use coredns_updater_plugin.Text.Fold.{str_eq→eq, equal_fold_sym, equal_fold_trans}
use coredns_updater_plugin.Record.{Record}
use coredns_updater_plugin.Store.{
  Store, Snapshot, collect, get, get_all, of_type, without_type, bucket,
}
use coredns_updater_plugin.Store.Mutation.{delete_by_type, apply}
use coredns_updater_plugin.Store.Refine.{bucket-apply}
use coredns_updater_plugin.Store.Invariant.{IsWellFormed}
use coredns_updater_plugin.Persist.{
  Json, Os, State, Status, persist_snapshot, new_store, with_max_records, with_sync_policy,
}
use coredns_updater_plugin.Persist.Atomic.{IsFreshTemp}
use coredns_updater_plugin.Persist.Restart.{ReadsBack, restart-get_all}
use coredns_updater_plugin.Api.{
  Response, status_no_content, no_body, bad_request, respond, mutate_and_persist,
  handle_delete_by_type,
}
use coredns_updater_plugin.Api.Effects.{records-persist_snapshot, respond-success}
use coredns_updater_plugin.Api.Durable.{mutate_and_persist-run}

module _ ⦃u : Unicode⦄ where
  -- A loop takes the records of one type away, another looks for those of a type.
  of_type-without_type_if :
      (t qtype : Text) (recs : List Record)
      → of_type t (without_type qtype recs) ≡ (if equal_fold t qtype then [] else of_type t recs)
  unfolding of_type without_type
  of_type-without_type_if t qtype [] = ground arith
  of_type-without_type_if t qtype (r ∷ recs) = ground (
    arith,
    of_type-without_type_if t qtype recs,
    equal_fold_sym r.type t,
    equal_fold_sym t qtype,
    equal_fold_trans r.type t qtype,
    equal_fold_trans t r.type qtype,
    equal_fold_trans r.type qtype t,
  )

  -- What is looked up after a deletion that succeeded.
  get-delete_by_type :
      (name qtype : Text) (s s' : Store) (snap : Snapshot)
      → apply (delete_by_type name qtype) s ≡ (ok snap, s')
      → (n t : Text)
      → get n t s'
        ≡ (if str_eq (to_lower name) (to_lower n) && equal_fold t qtype then [] else get n t s)
  unfolding get
  get-delete_by_type name qtype s s' snap h n t =
      let at = bucket-apply (delete_by_type name qtype) s s' snap (to_lower n) h in
      elim (Bool-cases (str_eq (to_lower name) (to_lower n))) [
        | inl same ↦ ground (
          arith,
          at,
          str_eq→eq (to_lower name) (to_lower n) same,
          of_type-without_type_if t qtype (bucket (to_lower name) s.records),
        )
        | inr other ↦ ground (arith, at)
      ]

  module _ (json : Json) where
    -- A deletion that is answered with 204 had a name and a type, and was written.
    handle_delete_by_type-ok :
        (os : Os) (name type : Text) (w w' : State) (resp : Response)
        → handle_delete_by_type json os name type w ≡ (resp, w')
        → resp.status ≡ status_no_content
        → (snap : Snapshot) × (s' : Store) × (apply (delete_by_type name (to_upper type)) w.store
            ≡ (ok snap, s'))
          × (persist_snapshot json os snap (record w { store = s' }) ≡ (ok tt, w'))
    unfolding handle_delete_by_type
    handle_delete_by_type-ok os name type w w' resp h gone =
        elim (Bool-cases (is_empty name || is_empty (to_upper type))) [
          | inl missing ↦ absurd (unfold bad_request in ground arith)
          | inr given ↦
              let success : Response = record { status = status_no_content; body = no_body } in
              let deletion = delete_by_type name (to_upper type) in
              let answered : respond success (mutate_and_persist json os deletion w) ≡ (resp, w') =
                ground arith in
              let (done, same) = respond-success json success resp _ w' answered (omega arith) in
              mutate_and_persist-run json os deletion w w' done
        ]

    -- A `DELETE` of a name and a type is answered with 204. The store was well formed, its
    -- generation has not wrapped, the temporary file had a new name, and the coding of the records
    -- reads back. Then opening the file again, with whatever options, gives a store that is ready
    -- and in which `Get` finds nothing under that name and type, in any case of their letters, and
    -- under every other name or type what it found before the deletion, in the same order.
    pub deleted_stays_gone :
        (os os' : Os) (name type : Text) (w w' : State) (resp : Response) (reload limit policy : ℕ)
        → handle_delete_by_type json os name type w ≡ (resp, w')
        → resp.status ≡ status_no_content
        → IsWellFormed w.store.records
        → w.store.persisted ≤ w.store.generation
        → w.store.generation + 1 < 2 ^ 64
        → IsFreshTemp os w.store.file_path w.disk
        → ReadsBack json (collect w'.store.records)
        → (again : State) × (new_store json w.store.file_path reload
              (with_max_records limit ∷ with_sync_policy policy ∷ [])
              true
              os'
              w'.disk
              w.gauge
            ≡ ok again)
          × (again.store.ready ≡ true)
          × ((n t : Text)
              → get n t again.store ≡ (
                  if str_eq (to_lower name) (to_lower n) && equal_fold t (to_upper type)
                  then []
                  else get n t w.store))
    deleted_stays_gone os os' name type w w' resp reload limit policy h gone wf le small fresh
          back =
        let (snap, s', applied, run) = handle_delete_by_type-ok os name type w w' resp h gone in
        let deletion = delete_by_type name (to_upper type) in
        let kept =
          sym (ap (λ (x : Status × State). x.1.store.records) run)
          ∙ records-persist_snapshot json os snap (record w { store = s' }) in
        let (again, opened, ready, held) =
          restart-get_all json deletion w.store s' snap os w.disk w.gauge w' reload limit policy os'
            wf le small applied fresh run (subst (λ m. ReadsBack json (collect m)) kept back) in
        (
          again,
          opened,
          ready,
          λ n t.
              unfold get get_all in
              ap (of_type t) (held n)
              ∙ get-delete_by_type name (to_upper type) w.store s' snap applied n t,
        )
