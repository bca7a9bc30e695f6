-- ===== src/Persist/Atomic.antt =====
-- Writing the file is all or nothing, whatever call of the operating system fails.

use coredns_updater_plugin.Base.{
  ℕ, ◌≤◌, ◌<◌, ◌≡◌, refl, inl, inr, true, false, none, some, List, [], arith, if◌then◌else◌, take,
  ok, err, Bool-cases, Option-cases,
}
use coredns_updater_plugin.Text.{Text, str_eq}
use coredns_updater_plugin.Text.Fold.{str_eq_iff}
use coredns_updater_plugin.Assoc.{lookup, insert, remove, lookup-insert, lookup-remove}
use coredns_updater_plugin.Record.{Record}
use coredns_updater_plugin.Store.{
  StoreError, creating_temp, writing_temp, closing_temp, renaming_temp, marshalling,
}
use coredns_updater_plugin.Persist.{
  Json, File, Disk, Os, State, Status, write_file, finish, is_stale, persist_snapshot, record_gauge,
  stat, clean_up,
}

-- `os.CreateTemp` makes a file of a new name, which is not that of the store's file.
abbrev pub IsFreshTemp : Os → Text → Disk → Type 0
IsFreshTemp os path disk = elim os.temp [
  | none ↦ Unit
  | some tmp ↦ (lookup tmp disk ≡ none) × (str_eq tmp path ≡ false)
]

module _ (os : Os) (path : Text) (raw : Text) (disk : Disk) where
  -- What stands on the disk after `write_file`.
  record Failed (disk' : Disk) : Type 0 where
    path_kept : lookup path disk' ≡ lookup path disk
    all_kept : os.remove_ok ≡ true → (j : Text) → lookup j disk' ≡ lookup j disk

  record Stored (disk' : Disk) : Type 0 where
    at_path : lookup path disk' ≡ some (record { content = raw; mtime = os.now })
    others_kept : (j : Text) → str_eq path j ≡ false → lookup j disk' ≡ lookup j disk

  -- Removing the temporary file, if that succeeds, takes back its creation.
  clean_up-Failed :
      (tmp : Text) (f : File)
      → lookup tmp disk ≡ none
      → str_eq tmp path ≡ false
      → Failed (clean_up os tmp (insert tmp f disk))
  unfolding clean_up
  clean_up-Failed tmp f fresh other = record {
    path_kept =
        ground (arith, lookup-insert tmp path f disk, lookup-remove tmp path (insert tmp f disk));
    all_kept = λ may j. ground (
      arith,
      lookup-insert tmp j f disk,
      lookup-remove tmp j (insert tmp f disk),
      str_eq_iff tmp j,
    );
  }

  rename-Stored :
      (tmp : Text) (f : File)
      → lookup tmp disk ≡ none
      → str_eq tmp path ≡ false
      → Stored
          (insert path (record { content = raw; mtime = os.now }) (remove tmp (insert tmp f disk)))
  rename-Stored tmp f fresh other =
      let g : File = record { content = raw; mtime = os.now } in
      let rest = remove tmp (insert tmp f disk) in
      record {
        at_path = ground (arith, lookup-insert path path g rest, str_eq_iff path path);
        others_kept = λ j ne. ground (
          arith,
          lookup-insert path j g rest,
          lookup-remove tmp j (insert tmp f disk),
          lookup-insert tmp j f disk,
          str_eq_iff tmp j,
        );
      }

  data Writing (o : Status × Disk) : Type 0 where
    undone : {disk' : Disk} (e : StoreError) → Failed disk' → o ≡ (err e, disk') → Writing o
    replaced : {disk' : Disk} → Stored disk' → o ≡ (ok tt, disk') → Writing o

  write_file-Writing : IsFreshTemp os path disk → Writing (write_file os path raw disk)
  unfolding write_file
  write_file-Writing fresh = elim (Option-cases os.temp) [
    | inl none_made ↦
        undone creating_temp (record { path_kept = refl; all_kept = λ may j. refl }) (ground arith)
    | inr (tmp, made) ↦
        let (absent, other) = rw made at fresh in
        elim (Bool-cases os.write_ok) [
          | inr cut ↦
              let f : File = record { content = take os.written raw; mtime = os.now } in
              undone writing_temp (clean_up-Failed tmp f absent other) (ground arith)
          | inl wrote ↦
              let f : File = record { content = raw; mtime = os.now } in
              let back = clean_up-Failed tmp f absent other in
              elim (Bool-cases os.close_ok) [
                | inr open_still ↦ undone closing_temp back (ground arith)
                | inl closed ↦ elim (Bool-cases os.rename_ok) [
                  | inr unnamed ↦ undone renaming_temp back (ground arith)
                  | inl renamed ↦ replaced (rename-Stored tmp f absent other) (ground arith)
                ]
              ]
        ]
  ]

module _ (json : Json) (os : Os) (all : List Record) (gen : ℕ) (w : State) where
  -- The three ways in which a run of `persistSnapshot` ends.
  pub data Run (o : Status × State) : Type 0 where
    -- A newer snapshot was written already: nothing happens.
    stale : 0 < gen → gen ≤ w.store.persisted → o ≡ (ok tt, w) → Run o
    -- An error: the store, the gauge and the file of the store are as they were, and so is every
    -- other file if the temporary file could be removed.
    failed :
        (e : StoreError) (disk : Disk)
        → lookup w.store.file_path disk ≡ lookup w.store.file_path w.disk
        → (os.remove_ok ≡ true → (j : Text) → lookup j disk ≡ lookup j w.disk)
        → o ≡ (err e, record w { disk = disk })
        → Run o
    -- The file holds the whole coded snapshot and no other file has changed; the generation is
    -- noted as written, and the gauge is set from the records of the store.
    stored :
        (raw : Text) (disk : Disk)
        → json.encode all ≡ some raw
        → lookup w.store.file_path disk ≡ some (record { content = raw; mtime = os.now })
        → ((j : Text) → str_eq w.store.file_path j ≡ false → lookup j disk ≡ lookup j w.disk)
        → o ≡ (
          ok tt,
          record {
            store = record w.store {
              last_mod = if os.stat_ok then os.now else w.store.last_mod;
              persisted = gen;
            };
            disk = disk;
            gauge = record_gauge w.store.records [];
          },
        )
        → Run o

  encoded-Run :
      (raw : Text)
      → IsFreshTemp os w.store.file_path w.disk
      → is_stale gen w.store ≡ false
      → json.encode all ≡ some raw
      → Run (persist_snapshot json os (all, gen) w)
  encoded-Run raw fresh new coded =
      elim (write_file-Writing os w.store.file_path raw w.disk fresh) [
        | undone {disk'} e f o ↦
            failed e disk' f.path_kept f.all_kept (unfold persist_snapshot in ground arith)
        | replaced {disk'} f o ↦
            stored raw disk' coded f.at_path f.others_kept
              (unfold persist_snapshot finish stat in ground (arith, f.at_path))
      ]

  -- Whatever the calls of the operating system answer, with a fresh temporary file a run ends in
  -- one of three ways: nothing is done since a newer snapshot was written, or an error leaves the
  -- store and its file as they were, or the file holds the whole snapshot.
  pub persist_snapshot-Run :
      IsFreshTemp os w.store.file_path w.disk → Run (persist_snapshot json os (all, gen) w)
  persist_snapshot-Run fresh = elim (Bool-cases (is_stale gen w.store)) [
    | inl old ↦
        stale (unfold is_stale in ground arith) (unfold is_stale in ground arith)
          (unfold persist_snapshot in ground arith)
    | inr new ↦ elim (Option-cases (json.encode all)) [
      | inl uncoded ↦
          failed marshalling w.disk refl (λ may j. refl) (unfold persist_snapshot in ground arith)
      | inr (raw, coded) ↦ encoded-Run raw fresh new coded
    ]
  ]

-- Where `write_file` returns no error, the file holds what was given.
pub write_file-at_path :
    (os : Os) (path raw : Text) (disk disk' : Disk)
    → IsFreshTemp os path disk
    → write_file os path raw disk ≡ (ok tt, disk')
    → lookup path disk' ≡ some (record { content = raw; mtime = os.now })
write_file-at_path os path raw disk disk' fresh e =
    elim (write_file-Writing os path raw disk fresh) [
      | undone e' f o ↦ cc
      | replaced f o ↦ ground (arith, f.at_path)
    ]

-- After an error the file of the store is as it was.
pub write_file-kept :
    (os : Os) (path raw : Text) (disk disk' : Disk) (e : StoreError)
    → IsFreshTemp os path disk
    → write_file os path raw disk ≡ (err e, disk')
    → lookup path disk' ≡ lookup path disk
write_file-kept os path raw disk disk' e fresh h =
    elim (write_file-Writing os path raw disk fresh) [
      | undone e' f o ↦ ground (arith, f.path_kept)
      | replaced f o ↦ cc
    ]
