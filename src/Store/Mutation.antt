-- ===== src/Store/Mutation.antt =====
-- The four mutations as one type, with what each promises: which records it touches, what stands
-- in their place, and what the sync policy must permit.
use coredns_updater_plugin.Base.{ℕ, Bool, ◌&&◌, ◌||◌, Option, none, some, ◌==◌}
use coredns_updater_plugin.Text.{Text, Unicode, str_eq, to_lower, equal_fold}
use coredns_updater_plugin.Record.{Record}
use coredns_updater_plugin.Policy.{
  policy_sync, policy_create_only, policy_update_only, policy_upsert_only,
}
use coredns_updater_plugin.Store.{
  Store, Outcome, get_all, matches, apply_upsert, apply_delete, apply_delete_by_type,
  apply_delete_all,
}
use coredns_updater_plugin.Store.Find.{first}

pub data Mutation : Type 0 where
  upsert : Record → Mutation
  delete : Text → Text → Text → Mutation
  delete_by_type : Text → Text → Mutation
  delete_all : Text → Mutation

pub data Action : Type 0 where
  create update removal : Action

-- The table of the documentation: what each policy permits.
abbrev pub permits : ℕ → Action → Bool
permits policy create =
    policy == policy_sync || policy == policy_create_only || policy == policy_upsert_only
permits policy update =
    policy == policy_sync || policy == policy_update_only || policy == policy_upsert_only
permits policy removal = policy == policy_sync

module _ ⦃u : Unicode⦄ where
  unfoldable pub apply : Mutation → Store → Outcome
  apply (upsert r) = apply_upsert r
  apply (delete name qtype value) = apply_delete name qtype value
  apply (delete_by_type name qtype) = apply_delete_by_type name qtype
  apply (delete_all name) = apply_delete_all name

  -- The store as a map from identities, a name, a type and a value, to records.
  unfoldable pub view : Store → Text → Text → Text → Option Record
  view s name qtype value = first qtype value (get_all name s)

  -- Whether a mutation is about an identity.
  abbrev pub touches : Mutation → Text → Text → Text → Bool
  touches (upsert r) n t v = str_eq (to_lower r.name) (to_lower n) && matches t v r
  touches (delete name qtype value) n t v =
      str_eq (to_lower name) (to_lower n) && (equal_fold t qtype && str_eq v value)
  touches (delete_by_type name qtype) n t v =
      str_eq (to_lower name) (to_lower n) && equal_fold t qtype
  touches (delete_all name) n t v = str_eq (to_lower name) (to_lower n)

  -- What stands at the identities that it is about afterwards.
  abbrev pub written : Mutation → Option Record
  written (upsert r) = some r
  written _ = none

  -- The record at the identity of `r` decides between creating and updating.
  abbrev pub action : Mutation → Store → Action
  action (upsert r) s = elim (view s r.name r.type r.value) [ none ↦ create | some e ↦ update ]
  action _ s = removal
