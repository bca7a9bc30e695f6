-- ===== src/Sync/Progress.antt =====
-- What can always still happen: the last change is written.
use coredns_updater_plugin.Base.{
  ◌≤◌, ◌≡◌, refl, inl, inr, true, none, some, List, [], ◌∷◌, ◌++◌, ok, arith, Bool-cases,
  Option-cases,
}
use coredns_updater_plugin.Text.{Text, Unicode}
use coredns_updater_plugin.Assoc.{lookup}
use coredns_updater_plugin.Record.{Record}
use coredns_updater_plugin.Store.{Snapshot}
use coredns_updater_plugin.Persist.{
  Json, File, Disk, Os, is_stale, write_file, finish, record_gauge,
}
use coredns_updater_plugin.Persist.Atomic.{IsFreshTemp}
use coredns_updater_plugin.Persist.Restart.{ReadsBack}
use coredns_updater_plugin.Sync.{System, write, settle}
use coredns_updater_plugin.Sync.Consistent.{IsCoded, IsConsistent, QuietRun, start, then_step}
use coredns_updater_plugin.Sync.Steps.{settle-IsConsistent}
use coredns_updater_plugin.Sync.Quiet.{QuietRun-IsCoded}

-- The calls of the operating system succeed: the temporary file is new, and the clock is not behind.
pub record Succeeds (os : Os) (y : System) : Type 0 where
  pub tmp : Text
  pub made : os.temp ≡ some tmp
  pub written : os.write_ok ≡ true
  pub closed : os.close_ok ≡ true
  pub renamed : os.rename_ok ≡ true
  pub fresh : IsFreshTemp os y.store.file_path y.disk
  pub clock : (f : File) → lookup y.store.file_path y.disk ≡ some f → f.mtime ≤ os.now

module _ ⦃u : Unicode⦄ (json : Json) where
  -- The file holds the records of the store, and no writing is under way.
  pub record IsWritten (x z : System) : Type 0 where
    pub run : QuietRun json x z
    pub kept : z.store.records ≡ x.store.records
    pub free : z.writing ≡ none
    pub file : File
    pub there : lookup z.store.file_path z.disk ≡ some file
    pub coded : IsCoded json file.content z.store.records

  module _ (all : List Record) (raw : Text) (os : Os) (coded : json.encode all ≡ some raw)
      (back : ReadsBack json all) where
    write_file-ok :
        (y : System)
        → Succeeds os y
        → (disk' : Disk) × (write_file os y.store.file_path raw y.disk ≡ (ok tt, disk'))
    unfolding write_file
    write_file-ok y k = (
      (write_file os y.store.file_path raw y.disk).1,
      ground (arith, k.made, k.written, k.closed, k.renamed),
    )

    -- With `persistMu` free, the waiting snapshot is written, unless it is on the disk already.
    free-IsWritten :
        (y : System) (before after : List Snapshot)
        → IsConsistent json y
        → Succeeds os y
        → y.pending ≡ before ++ (all, y.store.generation) ∷ after
        → y.writing ≡ none
        → (x : System) → QuietRun json x y
        → y.store.records ≡ x.store.records
        → (z : System) × IsWritten x z
    unfolding is_stale finish
    free-IsWritten y before after c k at free x so_far kept =
        let gen = y.store.generation in
        elim (Bool-cases (is_stale gen y.store)) [
          | inl old ↦
              let order = c.ordered in
              let same : y.store.persisted ≡ gen = ground arith in
              let (f, there, on_disk) = QuietRun-IsCoded json y y c start free same in
              (
                y,
                record {
                  run = so_far;
                  kept = kept;
                  free = free;
                  file = f;
                  there = there;
                  coded = on_disk;
                },
              )
          | inr new ↦
              let (disk', done) = write_file-ok y k in
              let y1 : System = record y {
                state = record y.state { disk = disk' };
                pending = before ++ after;
                writing = some gen;
              } in
              let z : System = record y1 {
                state = record y1.state {
                  store = finish true gen disk' y.store;
                  gauge = record_gauge y.store.records [];
                };
                writing = none;
              } in
              let here_on : QuietRun json y z =
                then_step
                  (then_step start (write before after all gen os raw disk' at free new coded done)
                    (k.fresh, k.clock, back))
                  (settle gen true refl) refl in
              let (f, there, on_disk) = QuietRun-IsCoded json y z c here_on refl refl in
              (
                z,
                record {
                  run =
                      then_step
                        (then_step so_far
                          (write before after all gen os raw disk' at free new coded done)
                          (k.fresh, k.clock, back))
                        (settle gen true refl) refl;
                  kept = kept;
                  free = refl;
                  file = f;
                  there = there;
                  coded = on_disk;
                },
              )
        ]

    -- However far mutations, writes and checks have come: while the snapshot of the last mutation
    -- waits, it can be coded and read back, and the calls of the operating system succeed, there is a
    -- run that ends with a file that gives every name the records of the store, which are those of
    -- now, and no writing under way.
    pub pending-IsWritten :
        (y : System) (before after : List Snapshot)
        → IsConsistent json y
        → Succeeds os y
        → y.pending ≡ before ++ (all, y.store.generation) ∷ after
        → (z : System) × IsWritten y z
    unfolding finish
    pending-IsWritten y before after c k at = elim (Option-cases y.writing) [
      | inl free ↦ free-IsWritten y before after c k at free y start refl
      | inr (gen, busy) ↦
          let y1 : System = record y {
            state = record y.state {
              store = finish true gen y.disk y.store;
              gauge = record_gauge y.store.records [];
            };
            writing = none;
          } in
          let k1 : Succeeds os y1 = record {
            tmp = k.tmp;
            made = k.made;
            written = k.written;
            closed = k.closed;
            renamed = k.renamed;
            fresh = k.fresh;
            clock = k.clock;
          } in
          free-IsWritten y1 before after (settle-IsConsistent json y c gen busy) k1 at refl y
            (then_step start (settle gen true busy) refl) refl
    ]
