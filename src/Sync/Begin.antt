-- ===== src/Sync/Begin.antt =====
-- The system that NewStore starts is consistent.
use coredns_updater_plugin.Base.{
  ℕ, ◌≤◌, ◌≡◌, refl, inl, inr, true, false, none, some, [], ◌∷◌, ltb, if◌then◌else◌, ok, arith,
  Bool-cases, Option-cases,
}
use coredns_updater_plugin.Text.{Text, Unicode}
use coredns_updater_plugin.Assoc.{lookup}
use coredns_updater_plugin.Store.{bucket}
use coredns_updater_plugin.Store.Invariant.{IsWellFormed}
use coredns_updater_plugin.Persist.{
  Json, File, Disk, Os, Gauge, State, group, stat, load_from_bytes, load_or_create, new_store,
  with_max_records, with_sync_policy, with_options,
}
use coredns_updater_plugin.Persist.Atomic.{IsFreshTemp, stale, failed, stored, persist_snapshot-Run}
use coredns_updater_plugin.Persist.Restart.{ReadsBack}
use coredns_updater_plugin.Sync.{System, Reload, idle, ended}
use coredns_updater_plugin.Sync.Consistent.{IsCoded, SawPast, IsConsistent}

-- `NewStore` starts the goroutine if there is an interval for it.
abbrev pub goroutine : ℕ → Reload
goroutine reload = if ltb 0 reload then idle else ended

abbrev pub system_of : State → System
system_of w = record { state = w; pending = []; writing = none; reload = goroutine w.store.reload }

module _ ⦃u : Unicode⦄ (json : Json) where
  goroutine-SawPast : (reload : ℕ) (f : File) → SawPast json (goroutine reload) f
  goroutine-SawPast reload f = elim (Bool-cases (ltb 0 reload)) [
    | inl runs ↦ rw runs tt
    | inr off ↦ rw off tt
  ]

  -- A store with nothing to write and the file that it was loaded from.
  idle-IsConsistent :
      (w : State) (f : File)
      → IsWellFormed w.store.records
      → w.store.persisted ≡ 0
      → w.store.generation ≡ 0
      → lookup w.store.file_path w.disk ≡ some f
      → f.mtime ≤ w.store.last_mod
      → IsCoded json f.content w.store.records
      → IsConsistent json (system_of w)
  idle-IsConsistent w f wf p g there seen coded = record {
    wf = wf;
    ordered = omega (arith, p);
    waiting = tt;
    file = f;
    there = there;
    settled = λ free. (seen, λ same. coded);
    busy = λ gen b. cc;
    past = goroutine-SawPast w.store.reload f;
  }

  module _ (path : Text) (reload limit policy : ℕ) (os : Os) (disk : Disk) (gauge : Gauge)
      (w : State) (stats : os.stat_ok ≡ true)
      (opened : new_store json path reload
          (with_max_records limit ∷ with_sync_policy policy ∷ [])
          true
          os
          disk
          gauge
        ≡ ok w) where
    found-IsConsistent :
        (f : File)
        → lookup path disk ≡ some f
        → IsWellFormed w.store.records
        → IsConsistent json (system_of w)
    unfolding new_store load_or_create load_from_bytes with_max_records with_sync_policy
        with_options stat
    found-IsConsistent f there wf = elim (Option-cases (json.decode f.content)) [
      | inl bad ↦ absurd (ground arith)
      | inr (recs, decoded) ↦
          let grouped : w.store.records ≡ group recs [] = ground arith in
          idle-IsConsistent w f wf (ground arith) (ground arith) (ground arith) (ground arith)
            (recs, decoded, λ key. rw grouped refl)
    ]

    created-IsConsistent :
        lookup path disk ≡ none
        → IsFreshTemp os path disk
        → ReadsBack json []
        → IsWellFormed w.store.records
        → IsConsistent json (system_of w)
    unfolding new_store load_or_create load_from_bytes with_max_records with_sync_policy
        with_options group bucket
    created-IsConsistent missing fresh back wf =
        let begin : State = record {
          store = record {
            records = [];
            file_path = path;
            reload = reload;
            last_mod = 0;
            stopped = false;
            ready = false;
            max_records = limit;
            sync_policy = policy;
            generation = 0;
            persisted = 0;
          };
          disk = disk;
          gauge = gauge;
        } in
        elim (persist_snapshot-Run json os [] 0 begin fresh) [
          | stale pos old e ↦ absurd (omega arith)
          | failed e disk' kept all_kept o ↦ absurd (ground arith)
          | stored raw disk' coded there others o ↦
              let f : File = record { content = raw; mtime = os.now } in
              let empty : w.store.records ≡ [] = ground arith in
              idle-IsConsistent w f wf (ground arith) (ground arith) (ground arith) (ground arith)
                ([], back raw coded, λ key. rw empty refl)
        ]

    -- A store that `NewStore` opened or created without an error starts in a consistent system, with
    -- its reload goroutine if an interval is given. `os.Stat` succeeds, the temporary file is new, an
    -- empty list reads back, and the records that were loaded are well formed.
    pub new_store-IsConsistent :
        IsFreshTemp os path disk
        → ReadsBack json []
        → IsWellFormed w.store.records
        → IsConsistent json (system_of w)
    new_store-IsConsistent fresh back wf = elim (Option-cases (lookup path disk)) [
      | inl missing ↦ created-IsConsistent missing fresh back wf
      | inr (f, there) ↦ found-IsConsistent f there wf
    ]
