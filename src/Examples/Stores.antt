-- ===== src/Examples/Stores.antt =====
-- The store's mutations and their limit on small stores.
use coredns_updater_plugin.Assoc.{lookup, insert, remove}
use coredns_updater_plugin.Base.{◌≡◌, ◌≤◌, refl, none, [], ◌∷◌, arith, err}
use coredns_updater_plugin.Text.{lit, str_eq, to_lower, equal_fold}
use coredns_updater_plugin.Store.{
  Store, create_denied, update_denied, limit_reached, count, collect, get_all, bucket, apply_upsert,
  index_of, matches, commit, apply_delete_by_type, put_or_delete, without_type,
}
use coredns_updater_plugin.Store.Mutation.{upsert, delete_by_type, apply, view}
use coredns_updater_plugin.Store.Refine.{view-apply}
use coredns_updater_plugin.Store.Outcomes.{Verdict, apply-Verdict}
use coredns_updater_plugin.Store.Invariant.{IsWellFormed, apply-IsWellFormed}
use coredns_updater_plugin.Store.Bounds.{count-apply}
use coredns_updater_plugin.Policy.{policy_create_only, policy_update_only}
use coredns_updater_plugin.Examples.{ascii, web, alias, host, fresh}

abbrev one : Store
one = record fresh { records = (lit "web.example.", web ∷ []) ∷ []; generation = 1 }

-- Another value is another record of the name; the same value, in whatever case name and type are
-- written, replaces the record.
upserts :
    (get_all
        (lit "WEB.example.")
        (apply (upsert (host (lit "web.example.") (lit "A") (lit "::1"))) one).1
      ≡ web ∷ host (lit "web.example.") (lit "A") (lit "::1") ∷ [])
    × (get_all
          (lit "web.example.")
          (apply (upsert (host (lit "wEB.example.") (lit "a") web.value)) one).1
        ≡ host (lit "wEB.example.") (lit "a") web.value ∷ [])
unfolding apply get_all bucket lookup apply_upsert index_of str_eq to_lower matches equal_fold count
    commit insert
upserts = (refl, refl)

refusals :
    (apply (upsert web) (record one { sync_policy = policy_create_only })
      ≡ (err (update_denied web.name web.type), record one { sync_policy = policy_create_only }))
    × (apply (upsert alias) (record one { sync_policy = policy_update_only }) ≡ (
      err (create_denied alias.name alias.type),
      record one { sync_policy = policy_update_only },
    ))
    × (apply (upsert alias) (record one { max_records = 1 })
        ≡ (err (limit_reached 1), record one { max_records = 1 }))
unfolding apply apply_upsert index_of bucket lookup str_eq to_lower matches equal_fold count
refusals = (refl, refl, refl)

view-apply_example :
    view (record one { records = []; generation = 2 }) (lit "WEB.example.") (lit "a") web.value
    ≡ none
unfolding apply apply_delete_by_type commit collect put_or_delete without_type bucket lookup str_eq
    to_lower equal_fold remove
view-apply_example =
    view-apply (delete_by_type (lit "web.EXAMPLE.") (lit "a")) one
      (record one { records = []; generation = 2 }) ([], 2) (lit "WEB.example.") (lit "a") web.value
      refl

apply-Verdict_example :
    Verdict
      (upsert alias)
      (record one { max_records = 1 })
      (apply (upsert alias) (record one { max_records = 1 }))
apply-Verdict_example = apply-Verdict (upsert alias) (record one { max_records = 1 }) (omega arith)

apply-IsWellFormed_example : IsWellFormed (apply (upsert web) fresh).1.records
apply-IsWellFormed_example =
    apply-IsWellFormed (upsert web) fresh (record { keys = tt; buckets = tt })

count-apply_example : count (apply (upsert alias) one).1.records ≤ 3
unfolding count
count-apply_example = count-apply (upsert alias) one (omega arith) (omega arith)
