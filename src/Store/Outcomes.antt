-- ===== src/Store/Outcomes.antt =====
-- When a mutation is denied by the policy, when it is refused at the limit, and what it does to the
-- rest of the state.
use coredns_updater_plugin.Base.{
  ℕ, ◌≤◌, ◌<◌, ◌≡◌, refl, ◌⊎◌, inl, inr, true, false, none, some, arith, ok, err, Option-cases,
  Bool-cases, List, [], ◌∷◌, ◌++◌, set, ltb, leb, ◌==◌, ◌&&◌, not, if◌then◌else◌,
}
use coredns_updater_plugin.Text.{Unicode, to_lower}
use coredns_updater_plugin.Record.{Record}
use coredns_updater_plugin.Assoc.{Assoc, insert}
use coredns_updater_plugin.Policy.{policy_sync, policy_create_only, policy_update_only}
use coredns_updater_plugin.Store.{
  Store, Snapshot, Outcome, StoreError, limit_reached, update_denied, create_denied, delete_denied,
  is_policy_denied, bucket, count, collect, commit, next_generation, get_all, index_of,
  apply_upsert, apply_delete, apply_delete_by_type, apply_delete_all,
}
use coredns_updater_plugin.Store.Find.{first, first-index_of-none, first-index_of-some}
use coredns_updater_plugin.Store.Mutation.{
  Mutation, upsert, delete, delete_by_type, delete_all, create, removal, permits, apply, view,
  action,
}

module _ ⦃u : Unicode⦄ where
  -- The three outcomes of a mutation, each with the condition that leads to it. The conditions
  -- exclude one another.
  pub data Verdict (m : Mutation) (s : Store) (o : Outcome) : Type 0 where
    denied :
        (e : StoreError)
        → permits s.sync_policy (action m s) ≡ false
        → is_policy_denied e ≡ true
        → o ≡ (err e, s)
        → Verdict m s o
    full :
        permits s.sync_policy (action m s) ≡ true
        → action m s ≡ create
        → 0 < s.max_records
        → s.max_records ≤ count s.records
        → o ≡ (err (limit_reached s.max_records), s)
        → Verdict m s o
    done :
        (s' : Store)
        → permits s.sync_policy (action m s) ≡ true
        → (action m s ≡ create → (s.max_records ≡ 0) ⊎ (count s.records < s.max_records))
        → s' ≡ record s { records = s'.records; generation = next_generation s.generation }
        → o ≡ (ok (collect s'.records, next_generation s.generation), s')
        → Verdict m s o

  -- The record that is there already is replaced.
  update-Verdict :
      (r e : Record) (s : Store) (i : ℕ)
      → s.sync_policy < 4
      → index_of r.type r.value (get_all r.name s) ≡ some i
      → first r.type r.value (get_all r.name s) ≡ some e
      → Verdict (upsert r) s (apply_upsert r s)
  unfolding apply_upsert commit view get_all
  update-Verdict r e s i p o f = elim (Bool-cases (s.sync_policy == policy_create_only)) [
    | inl no_update ↦
        denied (update_denied r.name r.type) (ground arith) (unfold is_policy_denied in refl)
          (ground arith)
    | inr may ↦
        let key = to_lower r.name in
        let recs = bucket key s.records in
        done (commit (insert key (set recs i r) s.records) s).1 (ground arith) (λ c. ground arith)
          refl (ground arith)
  ]

  create-Verdict :
      (r : Record) (s : Store)
      → s.sync_policy < 4
      → index_of r.type r.value (get_all r.name s) ≡ none
      → first r.type r.value (get_all r.name s) ≡ none
      → Verdict (upsert r) s (apply_upsert r s)
  unfolding apply_upsert commit view get_all
  create-Verdict r s p o f = elim (Bool-cases (s.sync_policy == policy_update_only)) [
    | inl no_create ↦
        denied (create_denied r.name r.type) (ground arith) (unfold is_policy_denied in refl)
          (ground arith)
    | inr may ↦ elim (Bool-cases (ltb 0 s.max_records && leb s.max_records (count s.records))) [
      | inl at_limit ↦
          full (ground arith) (ground arith) (ground arith) (ground arith) (ground arith)
      | inr room ↦
          let key = to_lower r.name in
          let recs = bucket key s.records in
          done (commit (insert key (recs ++ r ∷ []) s.records) s).1 (ground arith)
            (λ c. ground arith) refl (ground arith)
    ]
  ]

  upsert-Verdict :
      (r : Record) (s : Store) → s.sync_policy < 4 → Verdict (upsert r) s (apply_upsert r s)
  upsert-Verdict r s p =
      let recs = get_all r.name s in
      elim (Option-cases (index_of r.type r.value recs)) [
        | inl o ↦ create-Verdict r s p o (first-index_of-none r.type r.value recs o)
        | inr (i, o) ↦
            let (e, f) = first-index_of-some r.type r.value i recs o in update-Verdict r e s i p o f
      ]

  -- A deletion that the policy permits ends in a commit; one that it does not is denied.
  removal-Verdict :
      (m : Mutation) (s : Store) (records : Assoc (List Record)) (o : Outcome)
      → action m s ≡ removal
      → o
        ≡ (if not (s.sync_policy == policy_sync) then (err delete_denied, s) else commit records s)
      → Verdict m s o
  unfolding commit
  removal-Verdict m s records o a e = elim (Bool-cases (s.sync_policy == policy_sync)) [
    | inl may ↦ done (commit records s).1 (ground arith) (λ c. ground arith) refl (ground arith)
    | inr no_removal ↦
        denied delete_denied (ground arith) (unfold is_policy_denied in refl) (ground arith)
  ]

  -- For each of the four policies, a mutation is denied exactly when the table does not permit its
  -- action; a creation is refused exactly when it is permitted, a limit is set and the store has
  -- reached it; in both cases the store stays as it was. Otherwise the mutation succeeds: it changes
  -- only the records, counts the generation, and hands out all records with that generation.
  pub apply-Verdict : (m : Mutation) (s : Store) → s.sync_policy < 4 → Verdict m s (apply m s)
  unfolding apply apply_delete apply_delete_by_type apply_delete_all
  apply-Verdict (upsert r) s p = upsert-Verdict r s p
  apply-Verdict (delete name qtype value) s p =
      removal-Verdict (delete name qtype value) s _ _ refl refl
  apply-Verdict (delete_by_type name qtype) s p =
      removal-Verdict (delete_by_type name qtype) s _ _ refl refl
  apply-Verdict (delete_all name) s p = removal-Verdict (delete_all name) s _ _ refl refl

  -- What a mutation that succeeds hands out, and what it leaves alone, whatever the policy.
  pub record IsCommit (s s' : Store) (snap : Snapshot) : Type 0 where
    pub taken : snap ≡ (collect s'.records, s'.generation)
    pub counted : s'.generation ≡ next_generation s.generation
    pub kept : s' ≡ record s { records = s'.records; generation = s'.generation }

  pub apply-IsCommit :
      (m : Mutation) (s s' : Store) (snap : Snapshot)
      → apply m s ≡ (ok snap, s')
      → IsCommit s s' snap
  unfolding apply apply_upsert apply_delete apply_delete_by_type apply_delete_all commit
  apply-IsCommit (upsert r) s s' snap h = ground arith
  apply-IsCommit (delete name t v) s s' snap h = ground arith
  apply-IsCommit (delete_by_type name t) s s' snap h = ground arith
  apply-IsCommit (delete_all name) s s' snap h = ground arith

  -- A mutation that fails leaves the store as it was.
  pub apply-err : (m : Mutation) (s s' : Store) (e : StoreError) → apply m s ≡ (err e, s') → s' ≡ s
  unfolding apply apply_upsert apply_delete apply_delete_by_type apply_delete_all commit
  apply-err (upsert r) s s' e h = ground arith
  apply-err (delete name t v) s s' e h = ground arith
  apply-err (delete_by_type name t) s s' e h = ground arith
  apply-err (delete_all name) s s' e h = ground arith
