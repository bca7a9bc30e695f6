-- ===== src/Sync.antt =====
-- store.go: how mutations, the writing of the file and the reload goroutine interleave. A step is
-- what happens between two points where a lock is taken or released: `mu` guards the store,
-- `persistMu` is held from the staleness test of `persistSnapshot` to its end, and `checkReload`
-- holds no lock while it reads the file.
pub mod Consistent
pub mod Steps
pub mod Quiet
pub mod Missed
pub mod Runs
pub mod Checked
pub mod Progress
pub mod Stopped
pub mod Begin
pub mod Handled
use coredns_updater_plugin.Base.{
  ℕ, ◌+◌, ◌^◌, ◌<◌, ◌≡◌, Bool, true, false, ◌||◌, Option, none, some, List, [], ◌∷◌, ◌++◌, leb,
  if◌then◌else◌, ok, err, Result,
}
use coredns_updater_plugin.Text.{Text, Unicode}
use coredns_updater_plugin.Assoc.{lookup, insert}
use coredns_updater_plugin.Record.{Record}
use coredns_updater_plugin.Store.{Store, Snapshot, StoreError, stop_store}
use coredns_updater_plugin.Store.Mutation.{Mutation, apply}
use coredns_updater_plugin.Persist.{
  Json, File, Disk, Os, State, Status, write_file, finish, is_stale, record_gauge, stat,
  load_from_bytes,
}

-- Where the reload goroutine stands: in the `select` of `run`, in `checkReload`, or at its end.
pub data Reload : Type 0 where
  idle : Reload
  -- `persistMu` was found free
  probed : Reload
  -- phase 1 is done: the value of `lastMod` that it took
  seen : ℕ → Reload
  -- the file was found newer: its modification time
  dated : ℕ → Reload
  -- the file was read: the modification time taken before, and the content
  loaded : ℕ → Text → Reload
  -- `run` has returned
  ended : Reload

pub record System : Type 0 where
  pub state : State
  pub open state use *
  -- snapshots taken by a mutation that wait for `persistMu`
  pub pending : List Snapshot
  -- the generation whose file was renamed and whose metadata is not yet updated
  pub writing : Option ℕ
  pub reload : Reload

-- The tests of phase 1 and phase 3: a mutation is not yet written.
unfoldable pub is_behind : Store → Bool
is_behind s = if leb s.generation s.persisted then false else true

module _ ⦃u : Unicode⦄ (json : Json) where
  -- Phase 3 of `checkReload`.
  pub swap : Bool → Disk → ℕ → Text → Store → Store
  unfolding is_behind
  swap stat_ok disk mtime raw s =
      if is_behind s || leb mtime s.last_mod then s else (load_from_bytes json stat_ok disk raw s).1

  pub data Step (y : System) : System → Type 0 where
    -- A mutation that succeeds; its snapshot waits to be written.
    mutate :
        (m : Mutation) (snap : Snapshot) (s' : Store)
        → apply m y.store ≡ (ok snap, s')
        → y.store.generation + 1 < 2 ^ 64
        → Step y
            (record y { state = record y.state { store = s' }; pending = y.pending ++ snap ∷ [] })
    -- A snapshot gets `persistMu` when a newer one was written.
    skip :
        (before after : List Snapshot) (all : List Record) (gen : ℕ)
        → y.pending ≡ before ++ (all, gen) ∷ after
        → y.writing ≡ none
        → is_stale gen y.store ≡ true
        → Step y (record y { pending = before ++ after })
    -- It cannot be coded, or a call of the operating system fails.
    fail :
        (before after : List Snapshot) (all : List Record) (gen : ℕ) (disk' : Disk)
        → y.pending ≡ before ++ (all, gen) ∷ after
        → y.writing ≡ none
        → lookup y.store.file_path disk' ≡ lookup y.store.file_path y.disk
        → Step y (record y { state = record y.state { disk = disk' }; pending = before ++ after })
    -- It is written, up to the renaming.
    write :
        (before after : List Snapshot) (all : List Record) (gen : ℕ) (os : Os) (raw : Text)
        (disk' : Disk)
        → y.pending ≡ before ++ (all, gen) ∷ after
        → y.writing ≡ none
        → is_stale gen y.store ≡ false
        → json.encode all ≡ some raw
        → write_file os y.store.file_path raw y.disk ≡ (ok tt, disk')
        → Step y (record y {
          state = record y.state { disk = disk' };
          pending = before ++ after;
          writing = some gen;
        })
    -- The metadata is updated and `persistMu` is released.
    settle :
        (gen : ℕ) (stat_ok : Bool)
        → y.writing ≡ some gen
        → Step y (record y {
          state = record y.state {
            store = finish stat_ok gen y.disk y.store;
            gauge = record_gauge y.store.records [];
          };
          writing = none;
        })
    -- The ticker, and `TryLock`: no file is being written.
    probe : y.reload ≡ idle → y.writing ≡ none → Step y (record y { reload = probed })
    -- Phase 1: a mutation is not yet written.
    defer : y.reload ≡ probed → is_behind y.store ≡ true → Step y (record y { reload = idle })
    -- Phase 1: none is.
    check :
        y.reload ≡ probed
        → is_behind y.store ≡ false
        → Step y (record y { reload = seen y.store.last_mod })
    -- The file is not newer, or `os.Stat` fails.
    pass : (last_mod : ℕ) → y.reload ≡ seen last_mod → Step y (record y { reload = idle })
    -- The file is newer than that.
    date :
        (last_mod mtime : ℕ)
        → y.reload ≡ seen last_mod
        → stat true y.store.file_path y.disk ≡ some mtime
        → last_mod < mtime
        → Step y (record y { reload = dated mtime })
    -- Phase 2: the file is read.
    read :
        (mtime : ℕ) (f : File)
        → y.reload ≡ dated mtime
        → lookup y.store.file_path y.disk ≡ some f
        → Step y (record y { reload = loaded mtime f.content })
    -- Phase 3: what was read takes the place of the records, unless a test stops it.
    replace :
        (mtime : ℕ) (raw : Text) (stat_ok : Bool)
        → y.reload ≡ loaded mtime raw
        → Step y (record y {
          state = record y.state { store = swap stat_ok y.disk mtime raw y.store };
          reload = idle;
        })
    -- `os.ReadFile` fails.
    unread : (mtime : ℕ) → y.reload ≡ dated mtime → Step y (record y { reload = idle })
    -- `Store.Stop`
    stop : Step y (record y { state = record y.state { store = stop_store y.store } })
    -- The `select` finds the channel closed.
    halt : y.reload ≡ idle → y.store.stopped ≡ true → Step y (record y { reload = ended })
    -- Another program writes the file.
    edit :
        (f : File)
        → Step y (record y { state = record y.state { disk = insert y.store.file_path f y.disk } })
