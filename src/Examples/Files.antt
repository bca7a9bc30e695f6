-- ===== src/Examples/Files.antt =====
-- A mutation is written, a restart reads it back, and the reload goroutine leaves it alone.
use coredns_updater_plugin.Base.{◌≡◌, refl, none, some, true, [], ◌∷◌, arith, ok}
use coredns_updater_plugin.Text.{Text, lit, str_eq, to_lower}
use coredns_updater_plugin.Store.{
  Store, bucket, collect, get_all, apply_upsert, index_of, count, commit,
}
use coredns_updater_plugin.Store.Mutation.{upsert, apply}
use coredns_updater_plugin.Store.Invariant.{IsWellFormed}
use coredns_updater_plugin.Assoc.{lookup, insert, remove}
use coredns_updater_plugin.Persist.{
  Disk, File, State, group, persist_snapshot, new_store, with_max_records, with_sync_policy,
  write_file, record_gauge, is_stale, stat, finish,
}
use coredns_updater_plugin.Persist.Atomic.{Run, persist_snapshot-Run}
use coredns_updater_plugin.Persist.Restart.{restart-get_all}
use coredns_updater_plugin.Sync.{
  System, Step, idle, loaded, mutate, write, settle, probe, check, date, read, swap, is_behind,
}
use coredns_updater_plugin.Sync.Consistent.{IsCoded, IsConsistent, QuietRun, start, then_step}
use coredns_updater_plugin.Sync.Missed.{
  has_read, has_edited, has_replaced, Undisturbed, edit_missed,
}
use coredns_updater_plugin.Sync.Runs.{Steps}
use coredns_updater_plugin.Sync.Quiet.{QuietRun-IsCoded, QuietRun-swap}
use coredns_updater_plugin.Examples.Coding.{coding-ReadsBack}
use coredns_updater_plugin.Examples.{ascii, web, fresh, coding, smooth}

abbrev pub one : Store
one = record fresh { records = (lit "web.example.", web ∷ []) ∷ []; generation = 1 }

abbrev pub old : File
old = record { content = []; mtime = 50 }

abbrev pub disk : Disk
disk = (lit "/f", old) ∷ []

abbrev pub content : Text
content =
    12 ∷ 87 ∷ 101 ∷ 98 ∷ 46 ∷ 101 ∷ 120 ∷ 97 ∷ 109 ∷ 112 ∷ 108 ∷ 101 ∷ 46 ∷ 1 ∷ 65 ∷ 9 ∷ 49 ∷ 57
    ∷ 50 ∷ 46 ∷ 48 ∷ 46 ∷ 50 ∷ 46 ∷ 49 ∷ 0 ∷ 300 ∷ 0 ∷ 0 ∷ 0 ∷ 0 ∷ []

abbrev pub new : File
new = record { content = content; mtime = 100 }

abbrev pub disk' : Disk
disk' = (lit "/f", new) ∷ []

encodes : coding.encode (web ∷ []) ≡ some content
encodes = refl

pub fresh-IsWellFormed : IsWellFormed fresh.records
fresh-IsWellFormed = record { keys = tt; buckets = tt }

abbrev before : State
before = record { store = one; disk = disk; gauge = [] }

abbrev after : State
after = record {
  store = record one { last_mod = 100; persisted = 1 };
  disk = disk';
  gauge = (lit "A", 1) ∷ [];
}

persist_snapshot-Run_example :
    Run coding smooth (web ∷ []) 1 before (persist_snapshot coding smooth (web ∷ [], 1) before)
unfolding lookup str_eq
persist_snapshot-Run_example = persist_snapshot-Run coding smooth (web ∷ []) 1 before (refl, refl)

restart-get_all_example :
    (w' : State) × (new_store coding
        (lit "/f")
        30
        (with_max_records 3 ∷ with_sync_policy 0 ∷ [])
        true
        smooth
        disk'
        []
      ≡ ok w')
    × (w'.store.ready ≡ true)
    × ((name : Text) → get_all name w'.store ≡ get_all name one)
unfolding apply persist_snapshot apply_upsert index_of bucket lookup count commit collect insert
    to_lower str_eq write_file remove record_gauge
restart-get_all_example =
    restart-get_all coding (upsert web) fresh one (web ∷ [], 1) smooth disk [] after 30 3 0 smooth
      fresh-IsWellFormed (omega arith) (omega arith) refl (refl, refl) refl
      (coding-ReadsBack (web ∷ []))

-- The reload goroutine takes `lastMod` just before a mutation and reads the file just after it was
-- renamed.
abbrev pub begin : System
begin = record {
  state = record { store = fresh; disk = disk; gauge = [] };
  pending = [];
  writing = none;
  reload = idle;
}

abbrev end : System
end = record { state = after; pending = []; writing = none; reload = loaded 100 content }

pub begin-IsConsistent : IsConsistent coding begin
unfolding lookup str_eq group
begin-IsConsistent = record {
  wf = fresh-IsWellFormed;
  ordered = omega arith;
  waiting = tt;
  file = old;
  there = refl;
  settled = λ free. (omega arith, λ same. ([], refl, λ key. refl));
  busy = λ gen b. cc;
  past = tt;
}

race : QuietRun coding begin end
unfolding apply is_behind apply_upsert index_of bucket lookup count commit collect insert to_lower
    is_stale write_file remove str_eq stat finish record_gauge
race =
    then_step
      (then_step
        (then_step
          (then_step
            (then_step (then_step (then_step start (probe refl refl) tt) (check refl refl) tt)
              (mutate (upsert web) (web ∷ [], 1) one refl (omega arith)) tt)
            (write [] [] (web ∷ []) 1 smooth content disk' refl refl refl refl refl)
            ((refl, refl), λ f e. ground arith, (coding-ReadsBack (web ∷ []))))
          (date 50 100 refl refl (omega arith)) tt)
        (read 100 new refl refl) tt)
      (settle 1 true refl) refl

QuietRun-IsCoded_example :
    (f : File) × (lookup (lit "/f") disk' ≡ some f) × IsCoded coding f.content one.records
QuietRun-IsCoded_example = QuietRun-IsCoded coding begin end begin-IsConsistent race refl refl

QuietRun-swap_example : swap coding true disk' 100 content end.store ≡ end.store
QuietRun-swap_example = QuietRun-swap coding begin end 100 content true begin-IsConsistent race refl

-- Another program writes one record, and takes it away again after the file was read.
abbrev changed : System
changed = record begin {
  state = record begin.state { disk = (lit "/f", record new { mtime = 60 }) ∷ [] };
}

abbrev emptied : File
emptied = record { content = []; mtime = 70 }

edit_missed_example :
    Steps coding changed (has_read changed (record new { mtime = 60 }))
    × Step coding
        (has_read changed (record new { mtime = 60 }))
        (has_edited (has_read changed (record new { mtime = 60 })) emptied)
    × Step coding (has_edited (has_read changed (record new { mtime = 60 })) emptied) (
        has_replaced
          (has_edited (has_read changed (record new { mtime = 60 })) emptied)
          (web ∷ [])
          70)
    × ((z : System)
        → Undisturbed coding
            (has_replaced
              (has_edited (has_read changed (record new { mtime = 60 })) emptied)
              (web ∷ [])
              70)
            z
        → (z.store.records ≡ group (web ∷ []) [])
          × (lookup z.store.file_path z.disk ≡ some emptied))
unfolding is_behind lookup str_eq
edit_missed_example =
    edit_missed coding changed (record new { mtime = 60 }) emptied (web ∷ []) refl refl refl refl
      refl (omega arith) refl
