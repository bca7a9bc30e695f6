-- ===== src/Api/Touched.antt =====
-- What a handler can do to the state: nothing, or one mutation with the writing of its snapshot.
use coredns_updater_plugin.Base.{
  ℕ, ◌≡◌, refl, inl, inr, Bool, Option, none, some, ok, err, Bool-cases, if◌then◌else◌,
}
use coredns_updater_plugin.Text.{Text, Unicode}
use coredns_updater_plugin.Record.{Record, Dns, Invalid, validate}
use coredns_updater_plugin.Store.Mutation.{Mutation, upsert}
use coredns_updater_plugin.Persist.{Json, Os, State, Status}
use coredns_updater_plugin.Api.{
  Response, respond, mutate_and_persist, store_valid, store_record, handle_create, handle_update,
  handle_delete_all, handle_delete_by_type,
}

module _ ⦃u : Unicode⦄ (json : Json) (os : Os) where
  pub data Touched (w : State) : State → Type 0 where
    untouched : Touched w w
    mutated : (m : Mutation) → Touched w (mutate_and_persist json os m w).1

  pub Touched-if :
      {A : Type 0} (w : State) (b : Bool) (x y : A × State)
      → Touched w x.1
      → Touched w y.1
      → Touched w (if b then x else y).1
  Touched-if w b x y hx hy = elim (Bool-cases b) [ inl t ↦ rw t hx | inr f ↦ rw f hy ]

  respond-state : (success : Response) (o : Status × State) → (respond success o).1 ≡ o.1
  unfolding respond
  respond-state success (ok done, w) = refl
  respond-state success (err e, w) = refl

  respond-Touched :
      (success : Response) (m : Mutation) (w : State)
      → Touched w (respond success (mutate_and_persist json os m w)).1
  respond-Touched success m w =
      rw (respond-state success (mutate_and_persist json os m w)) (mutated m)

  store_valid-Touched :
      (dns : Dns) (status : ℕ) (v : Record × Option Invalid) (w : State)
      → Touched w (store_valid json dns status os v w).1
  unfolding store_valid
  store_valid-Touched dns status (r, some e) w = untouched
  store_valid-Touched dns status (r, none) w = respond-Touched _ (upsert r) w

  store_record-Touched :
      (dns : Dns) (status : ℕ) (body : Option Record) (w : State)
      → Touched w (store_record json dns status os body w).1
  unfolding store_record
  store_record-Touched dns status none w = untouched
  store_record-Touched dns status (some r) w = store_valid-Touched dns status (validate dns r) w

  pub handle_create-Touched :
      (dns : Dns) (body : Option Record) (w : State)
      → Touched w (handle_create json dns os body w).1
  unfolding handle_create
  handle_create-Touched dns body w = store_record-Touched dns _ body w

  pub handle_update-Touched :
      (dns : Dns) (body : Option Record) (w : State)
      → Touched w (handle_update json dns os body w).1
  unfolding handle_update
  handle_update-Touched dns body w = store_record-Touched dns _ body w

  pub handle_delete_all-Touched :
      (name : Text) (w : State) → Touched w (handle_delete_all json os name w).1
  unfolding handle_delete_all
  handle_delete_all-Touched name w = Touched-if w _ _ _ untouched (respond-Touched _ _ w)

  pub handle_delete_by_type-Touched :
      (name type : Text) (w : State) → Touched w (handle_delete_by_type json os name type w).1
  unfolding handle_delete_by_type
  handle_delete_by_type-Touched name type w = Touched-if w _ _ _ untouched (respond-Touched _ _ w)
