-- ===== src/Store.antt =====
-- store.go: the store in memory. A method that holds the lock `mu` from start to end is a function
-- from the state to its result and the state after it; writing the file is in Persist.antt.
-- `maxRecords` and `reload` are signed in the source and only tested for being positive: a negative
-- one acts as 0.
pub mod Find
pub mod Mutation
pub mod Refine
pub mod Outcomes
pub mod Invariant
pub mod Bounds
use coredns_updater_plugin.Base.{
  ℕ, zero, suc, ◌+◌, ◌%◌, ◌^◌, Bool, true, false, not, ◌&&◌, Option, none, some, List, [], ◌∷◌,
  ◌++◌, ltb, leb, ◌==◌, if◌then◌else◌, length, set, Result, ok, err,
}
use mathlib.Core.Option
use coredns_updater_plugin.Text.{Text, Unicode, str_eq, to_lower, equal_fold}
use coredns_updater_plugin.Assoc.{Assoc, lookup, insert, remove}
use coredns_updater_plugin.Record.{Record}
use coredns_updater_plugin.Policy.{policy_sync, policy_create_only, policy_update_only}

pub record Store : Type 0 where
  pub records : Assoc (List Record)
  pub file_path : Text
  pub reload : ℕ
  pub last_mod : ℕ
  pub stopped : Bool
  pub ready : Bool
  pub max_records : ℕ
  pub sync_policy : ℕ
  pub generation : ℕ
  pub persisted : ℕ

-- The errors of the package's methods, by their messages.
pub data StoreError : Type 0 where
  update_denied create_denied : Text → Text → StoreError
  delete_denied : StoreError
  limit_reached : ℕ → StoreError
  marshalling creating_temp writing_temp closing_temp renaming_temp : StoreError
  reading parsing : StoreError

-- `errors.Is(err, ErrPolicyDenied)`
unfoldable pub is_policy_denied : StoreError → Bool
is_policy_denied (update_denied _ _) = true
is_policy_denied (create_denied _ _) = true
is_policy_denied delete_denied = true
is_policy_denied _ = false

-- The copy of all records with the generation at which it was taken.
abbrev pub Snapshot : Type 0
Snapshot = List Record × ℕ

abbrev pub Outcome : Type 0
Outcome = Result StoreError Snapshot × Store

-- `s.records[key]`: nil where the key is missing.
unfoldable pub bucket : Text → Assoc (List Record) → List Record
bucket key m = Option.get_or (lookup key m) []

-- `countLocked`
unfoldable pub count : Assoc (List Record) → ℕ
count [] = 0
count ((key, recs) ∷ m) = length recs + count m

-- `collectLocked`
unfoldable pub collect : Assoc (List Record) → List Record
collect [] = []
collect ((key, recs) ∷ m) = recs ++ collect m

-- `s.generation++` on a `uint64`
unfoldable pub next_generation : ℕ → ℕ
next_generation g = (g + 1) % 2 ^ 64

-- What each mutation does last: store the buckets, count the generation, take the snapshot.
unfoldable pub commit : Assoc (List Record) → Store → Outcome
unfolding next_generation
commit m s =
    let s' : Store = record s { records = m; generation = next_generation s.generation } in
    (ok (collect s'.records, s'.generation), s')

module _ ⦃u : Unicode⦄ where
  -- `strings.EqualFold(existing.Type, r.Type) && existing.Value == r.Value`
  unfoldable pub matches : Text → Text → Record → Bool
  matches qtype value existing = equal_fold existing.type qtype && str_eq existing.value value

  -- The index of the first record that matches; `none` is -1.
  unfoldable pub index_of : Text → Text → List Record → Option ℕ
  index_of qtype value [] = none
  index_of qtype value (existing ∷ recs) =
      if matches qtype value existing then some 0 else Option.map suc (index_of qtype value recs)

  -- The records without those that match: the loop of `applyDelete`.
  pub without : Text → Text → List Record → List Record
  without qtype value [] = []
  without qtype value (r ∷ recs) =
      let rest = without qtype value recs in if matches qtype value r then rest else r ∷ rest

  -- The records of other types: the loop of `applyDeleteByType`.
  unfoldable pub without_type : Text → List Record → List Record
  without_type qtype [] = []
  without_type qtype (r ∷ recs) =
      let rest = without_type qtype recs in if not (equal_fold r.type qtype) then r ∷ rest else rest

  -- The loop of `Get`.
  unfoldable pub of_type : Text → List Record → List Record
  of_type qtype [] = []
  of_type qtype (r ∷ recs) =
      let rest = of_type qtype recs in if equal_fold r.type qtype then r ∷ rest else rest

  unfoldable pub get : Text → Text → Store → List Record
  get name qtype s = of_type qtype (bucket (to_lower name) s.records)

  unfoldable pub get_all : Text → Store → List Record
  get_all name s = bucket (to_lower name) s.records

  unfoldable pub apply_upsert : Record → Store → Outcome
  apply_upsert r s =
      let key = to_lower r.name in
      let recs = bucket key s.records in
      elim (index_of r.type r.value recs) [
        | some idx ↦
            if s.sync_policy == policy_create_only
            then (err (update_denied r.name r.type), s)
            else commit (insert key (set recs idx r) s.records) s
        | none ↦
            if s.sync_policy == policy_update_only
            then (err (create_denied r.name r.type), s)
            else if ltb 0 s.max_records && leb s.max_records (count s.records)
            then (err (limit_reached s.max_records), s)
            else commit (insert key (recs ++ r ∷ []) s.records) s
      ]

  -- `delete(s.records, key)` if nothing is left, or the bucket that is left.
  unfoldable pub put_or_delete : Text → List Record → Assoc (List Record) → Assoc (List Record)
  put_or_delete key [] m = remove key m
  put_or_delete key (r ∷ recs) m = insert key (r ∷ recs) m

  unfoldable pub apply_delete : Text → Text → Text → Store → Outcome
  apply_delete name qtype value s =
      if not (s.sync_policy == policy_sync)
      then (err delete_denied, s)
      else (let key = to_lower name in
          commit (put_or_delete key (without qtype value (bucket key s.records)) s.records) s)

  unfoldable pub apply_delete_by_type : Text → Text → Store → Outcome
  apply_delete_by_type name qtype s =
      if not (s.sync_policy == policy_sync)
      then (err delete_denied, s)
      else (let key = to_lower name in
          commit (put_or_delete key (without_type qtype (bucket key s.records)) s.records) s)

  pub apply_delete_all : Text → Store → Outcome
  apply_delete_all name s =
      if not (s.sync_policy == policy_sync)
      then (err delete_denied, s)
      else commit (remove (to_lower name) s.records) s

-- `List`
unfoldable pub list : Store → List Record
list s = collect s.records

-- `Store.Stop`, which closes a channel once.
unfoldable pub stop_store : Store → Store
stop_store s = record s { stopped = true }
