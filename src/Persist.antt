-- ===== src/Persist.antt =====
-- store.go: writing the file, loading it, and checking it for outside changes. The disk maps paths
-- to files; what the operating system answers to the calls of one run is an argument. The coding of
-- records as JSON, which `encoding/json` derives from the struct tags, is the interface `Json`.
pub mod Atomic
pub mod Grouping
pub mod Order
pub mod Loaded
pub mod Restart
use coredns_updater_plugin.Base.{
  ℕ, ◌+◌, ◌≤◌, Bool, true, false, not, ◌&&◌, Option, none, some, List, [], ◌∷◌, ◌++◌, ltb, leb,
  if◌then◌else◌, take, Result, ok, err,
}
use mathlib.Core.Option
use coredns_updater_plugin.Text.{Text, Unicode, to_lower}
use coredns_updater_plugin.Assoc.{Assoc, lookup, insert, remove}
use coredns_updater_plugin.Record.{Record}
use coredns_updater_plugin.Policy.{policy_sync}
use coredns_updater_plugin.Store.{
  Store, StoreError, marshalling, creating_temp, writing_temp, closing_temp, renaming_temp, reading,
  parsing, Snapshot, bucket,
}

-- `json.MarshalIndent(storeFile{Records: rs}, …)` and `json.Unmarshal`; `none` is an error.
pub record Json : Type 0 where
  pub encode : List Record → Option Text
  pub decode : Text → Option (List Record)

pub record File : Type 0 where
  pub content : Text
  pub mtime : ℕ

abbrev pub Disk : Type 0
Disk = Assoc File

-- A method that returns only an error.
abbrev pub Status : Type 0
Status = Result StoreError (Unit {0})

-- The answers of the operating system to the calls of one `persistSnapshot`.
pub record Os : Type 0 where
  pub temp : Option Text
  pub written : ℕ
  pub write_ok : Bool
  pub close_ok : Bool
  pub rename_ok : Bool
  pub remove_ok : Bool
  pub stat_ok : Bool
  pub now : ℕ

-- The gauge `store_records`: a number for each record type.
abbrev pub Gauge : Type 0
Gauge = Assoc ℕ

-- `counts[r.Type]++`
bump : Text → Gauge → Gauge
bump t g = insert t (Option.get_or (lookup t g) 0 + 1) g

count_types : List Record → Gauge → Gauge
unfolding bump
count_types [] g = g
count_types (r ∷ recs) g = count_types recs (bump r.type g)

-- `updateRecordGaugeLocked`: the gauge is reset and set to the counts.
unfoldable pub record_gauge : Assoc (List Record) → Gauge → Gauge
unfolding count_types
record_gauge [] g = g
record_gauge ((key, recs) ∷ m) g = record_gauge m (count_types recs g)

-- `os.Remove(tmpName)`, whose error is dropped.
clean_up : Os → Text → Disk → Disk
clean_up os tmp disk = if os.remove_ok then remove tmp disk else disk

-- From the creation of the temporary file to the renaming.
unfoldable pub write_file : Os → Text → Text → Disk → Status × Disk
unfolding clean_up
write_file os path raw disk = elim os.temp [
  | none ↦ (err creating_temp, disk)
  | some tmp ↦
      if not os.write_ok
      then (
        err writing_temp,
        clean_up os tmp
            (insert tmp (record { content = take os.written raw; mtime = os.now }) disk),
      )
      else (let disk' : Disk = insert tmp (record { content = raw; mtime = os.now }) disk in
          if not os.close_ok
          then (err closing_temp, clean_up os tmp disk')
          else if not os.rename_ok
          then (err renaming_temp, clean_up os tmp disk')
          else (ok tt, insert path (record { content = raw; mtime = os.now }) (remove tmp disk')))
]

-- `os.Stat(s.filePath)` where the call succeeds and the file is there.
unfoldable pub stat : Bool → Text → Disk → Option ℕ
stat stat_ok path disk =
    if stat_ok then Option.map (λ (f : File). f.mtime) (lookup path disk) else none

-- The part of `persistSnapshot` under `mu`, but for the gauge.
unfoldable pub finish : Bool → ℕ → Disk → Store → Store
unfolding stat
finish stat_ok gen disk s = record s {
  last_mod = Option.get_or (stat stat_ok s.file_path disk) s.last_mod;
  persisted = gen;
}

-- Whether a newer snapshot was already written.
unfoldable pub is_stale : ℕ → Store → Bool
is_stale gen s = ltb 0 gen && leb gen s.persisted

-- What a run of `persistSnapshot` works on.
pub record State : Type 0 where
  pub store : Store
  pub disk : Disk
  pub gauge : Gauge

module _ (json : Json) where
  written_state : Os → ℕ → State → Status × Disk → Status × State
  written_state os gen w (err e, disk) = (err e, record w { disk = disk })
  written_state os gen w (ok done, disk) = (
    ok tt,
    record {
      store = finish os.stat_ok gen disk w.store;
      disk = disk;
      gauge = record_gauge w.store.records [];
    },
  )

  unfoldable pub persist_snapshot : Os → Snapshot → State → Status × State
  unfolding written_state finish is_stale
  persist_snapshot os (all, gen) w =
      if is_stale gen w.store then (ok tt, w) else (elim (json.encode all) [
        | none ↦ (err marshalling, w)
        | some raw ↦ written_state os gen w (write_file os w.store.file_path raw w.disk)
      ])

abbrev pub StoreOption : Type 0
StoreOption = Store → Store

unfoldable pub with_max_records : ℕ → StoreOption
with_max_records n s = record s { max_records = n }

unfoldable pub with_sync_policy : ℕ → StoreOption
with_sync_policy p s = record s { sync_policy = p }

unfoldable pub with_options : List StoreOption → Store → Store
with_options [] s = s
with_options (opt ∷ opts) s = with_options opts (opt s)

abbrev blank : Text → ℕ → Store
blank path reload = record {
  records = [];
  file_path = path;
  reload = reload;
  last_mod = 0;
  stopped = false;
  ready = false;
  max_records = 0;
  sync_policy = policy_sync;
  generation = 0;
  persisted = 0;
}

module _ ⦃u : Unicode⦄ where
  -- The loop of `loadFromBytes`.
  unfoldable pub group : List Record → Assoc (List Record) → Assoc (List Record)
  group [] m = m
  group (r ∷ recs) m =
      let key = to_lower r.name in group recs (insert key (bucket key m ++ r ∷ []) m)

  module _ (json : Json) where
    unfoldable pub load_from_bytes : Bool → Disk → Text → Store → Status × Store
    unfolding stat
    load_from_bytes stat_ok disk raw s = elim (json.decode raw) [
      | none ↦ (err parsing, s)
      | some recs ↦ (
        ok tt,
        record s {
          records = group recs [];
          last_mod = Option.get_or (stat stat_ok s.file_path disk) s.last_mod;
        },
      )
    ]

    with_store : State → Status × Store → Status × State
    with_store w (res, s) = (res, record w { store = s })

    -- A file that is missing is created, and one that cannot be read is an error.
    unfoldable pub load_or_create : Bool → Os → State → Status × State
    unfolding with_store
    load_or_create read_ok os w = elim (lookup w.store.file_path w.disk) [
      | none ↦
          persist_snapshot json os ([], 0) (record w { store = record w.store { records = [] } })
      | some f ↦
          if read_ok
          then with_store w (load_from_bytes os.stat_ok w.disk f.content w.store)
          else (err reading, w)
    ]

    set_ready : Status × State → Result StoreError State
    set_ready (err e, w) = err e
    set_ready (ok done, w) = ok (record w { store = record w.store { ready = true } })

    -- `NewStore`, on a disk and with the gauge of the process.
    unfoldable pub new_store :
        Text → ℕ → List StoreOption → Bool → Os → Disk → Gauge → Result StoreError State
    unfolding set_ready with_options
    new_store path reload opts read_ok os disk gauge = set_ready (
        load_or_create read_ok os
          (record { store = with_options opts (blank path reload); disk = disk; gauge = gauge }))
