-- ===== src/Examples/Reloads.antt =====
-- A store that is started, told to stop, written, and reloaded after another program wrote its file.
use coredns_updater_plugin.Base.{◌≡◌, refl, true, [], ◌∷◌, arith, ok}
use coredns_updater_plugin.Text.{lit, str_eq, to_lower}
use coredns_updater_plugin.Store.{
  apply_upsert, index_of, bucket, count, commit, collect, stop_store,
}
use coredns_updater_plugin.Store.Mutation.{upsert, apply}
use coredns_updater_plugin.Assoc.{lookup, insert, remove}
use coredns_updater_plugin.Persist.{
  State, new_store, with_max_records, with_sync_policy, load_or_create, persist_snapshot,
  write_file, record_gauge,
}
use coredns_updater_plugin.Sync.{System, idle, probed, check, pass, is_behind}
use coredns_updater_plugin.Sync.Consistent.{IsConsistent}
use coredns_updater_plugin.Sync.Steps.{mutate-IsConsistent}
use coredns_updater_plugin.Sync.Runs.{here, and_step}
use coredns_updater_plugin.Sync.Begin.{system_of, new_store-IsConsistent}
use coredns_updater_plugin.Sync.Checked.{all_well, check_reload, Checked, check_reload-Checked}
use coredns_updater_plugin.Sync.Progress.{Succeeds, IsWritten, pending-IsWritten}
use coredns_updater_plugin.Sync.Stopped.{Ends, stop_store-Ends}
use coredns_updater_plugin.Examples.Coding.{coding-ReadsBack}
use coredns_updater_plugin.Examples.{ascii, web, fresh, coding, smooth}
use coredns_updater_plugin.Examples.Files.{
  one, disk', begin, begin-IsConsistent, content, fresh-IsWellFormed,
}

abbrev pub empty_store : State
empty_store = record {
  store = record fresh { last_mod = 100 };
  disk = (lit "/f", record { content = []; mtime = 100 }) ∷ [];
  gauge = [];
}

pub opens :
    new_store coding (lit "/f") 30 (with_max_records 3 ∷ with_sync_policy 0 ∷ []) true smooth [] []
    ≡ ok empty_store
unfolding new_store load_or_create lookup persist_snapshot write_file with_sync_policy insert
    record_gauge with_max_records remove str_eq
opens = refl

new_store-IsConsistent_example : IsConsistent coding (system_of empty_store)
unfolding lookup str_eq
new_store-IsConsistent_example =
    new_store-IsConsistent coding (lit "/f") 30 3 0 smooth [] [] empty_store refl opens (refl, refl)
      (coding-ReadsBack []) fresh-IsWellFormed

-- A mutation has just been made.
abbrev mutated : System
mutated = record begin { state = record begin.state { store = one }; pending = (web ∷ [], 1) ∷ [] }

mutates : apply (upsert web) fresh ≡ (ok (web ∷ [], 1), one)
unfolding apply apply_upsert index_of bucket lookup count commit collect insert to_lower
mutates = refl

mutated-Succeeds : Succeeds smooth mutated
unfolding lookup str_eq
mutated-Succeeds = record {
  tmp = lit "/tmp/f";
  made = refl;
  written = refl;
  closed = refl;
  renamed = refl;
  fresh = (refl, refl);
  clock = λ f e. ground arith;
}

pending-IsWritten_example : (z : System) × IsWritten coding mutated z
pending-IsWritten_example =
    pending-IsWritten coding (web ∷ []) content smooth refl (coding-ReadsBack (web ∷ [])) mutated []
      []
      (mutate-IsConsistent coding begin begin-IsConsistent (upsert web) (web ∷ [], 1) one mutates
        (omega arith))
      mutated-Succeeds refl

-- Told to stop in the middle of a check.
abbrev stopping : System
stopping = record begin { reload = probed }

abbrev stopped : System
stopped = record stopping {
  state = record stopping.state { store = record fresh { stopped = true } };
}

stop_store-Ends_example : Ends coding 2 (record stopped { reload = idle })
unfolding stop_store is_behind
stop_store-Ends_example =
    stop_store-Ends coding stopping (record stopped { reload = idle }) 2
      (and_step (and_step here (check refl refl)) (pass 50 refl))

-- The file of another program.
check_reload-Checked_example :
    Checked coding all_well disk' fresh (check_reload coding all_well disk' fresh)
check_reload-Checked_example = check_reload-Checked coding all_well disk' fresh
