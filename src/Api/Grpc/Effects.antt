-- ===== src/Api/Grpc/Effects.antt =====
-- What a client of the gRPC service may rely on after a deletion.
use coredns_updater_plugin.Base.{
  ◌≡◌, inl, inr, false, none, arith, ok, err, Bool-cases, ◌||◌, ◌&&◌, if◌then◌else◌,
}
use coredns_updater_plugin.Text.{Text, Unicode, is_empty, to_lower, str_eq, equal_fold}
use coredns_updater_plugin.Store.{get_all}
use coredns_updater_plugin.Store.Mutation.{Mutation, delete, delete_all, view, touches, written}
use coredns_updater_plugin.Store.Refine.{view-apply}
use coredns_updater_plugin.Persist.{Json, Os, State, Status}
use coredns_updater_plugin.Api.{mutate_and_persist}
use coredns_updater_plugin.Api.Effects.{mutate_and_persist-ok}
use coredns_updater_plugin.Api.Grpc.{respond, grpc_delete}

module _ ⦃u : Unicode⦄ (json : Json) where
  respond-ok :
      {A : Type 0} (success a : A) (o : Status × State) (w' : State)
      → respond success o ≡ (ok a, w')
      → o ≡ (ok tt, w')
  unfolding respond
  respond-ok success a (ok done, w) w' h = ground arith
  respond-ok success a (err e, w) w' h = cc

  -- A request of the service that mutated the store and answered OK.
  view-respond :
      (os : Os) (m : Mutation) (w w' : State)
      → respond tt (mutate_and_persist json os m w) ≡ (ok tt, w')
      → (n t v : Text)
      → view w'.store n t v ≡ (if touches m n t v then written m else view w.store n t v)
  unfolding view get_all
  view-respond os m w w' h n t v =
      let done = respond-ok tt tt (mutate_and_persist json os m w) w' h in
      let (snap, s', applied, kept) = mutate_and_persist-ok json os m w w' done in
      rw kept (view-apply m w.store s' snap n t v applied)

  -- After a gRPC Delete that is answered OK, the request had a name, and the store has no record
  -- any more under that name, in any case of its letters, if the request has neither a type nor a
  -- value, and none of that name, type and value otherwise. Every other identity has the record that
  -- it had.
  pub view-grpc_delete :
      (os : Os) (name type value : Text) (w w' : State)
      → grpc_delete json os name type value w ≡ (ok tt, w')
      → (is_empty name ≡ false)
        × ((n t v : Text)
            → view w'.store n t v ≡ (
                if str_eq (to_lower name) (to_lower n)
                  && (is_empty type && is_empty value || equal_fold t type && str_eq v value)
                then none
                else view w.store n t v))
  unfolding grpc_delete
  view-grpc_delete os name type value w w' h = elim (Bool-cases (is_empty name)) [
    | inl missing ↦ absurd (ground arith)
    | inr given ↦ (
      given,
      elim (Bool-cases (is_empty type && is_empty value)) [
        | inl whole ↦ λ n t v.
            let e = view-respond os (delete_all name) w w' (ground arith) n t v in ground (arith, e)
        | inr one ↦ λ n t v.
            let e = view-respond os (delete name type value) w w' (ground arith) n t v in
            ground (arith, e)
      ],
    )
  ]
