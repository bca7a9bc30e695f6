-- ===== src/Sync/Quiet.antt =====
-- While no other program writes the file: the store never loads its own writes back, snapshots do
-- not overwrite newer ones, and a file that is up to date holds the records of the store.
use coredns_updater_plugin.Base.{ℕ, ◌≡◌, refl, subst, Bool, none, some}
use coredns_updater_plugin.Text.{Text, Unicode}
use coredns_updater_plugin.Assoc.{lookup}
use coredns_updater_plugin.Persist.{Json, File}
use coredns_updater_plugin.Sync.{
  System, idle, probed, seen, loaded, ended, Step, mutate, skip, fail, write, settle, probe, defer,
  check, pass, date, read, unread, replace, stop, halt, edit, swap,
}
use coredns_updater_plugin.Sync.Consistent.{
  IsCoded, SawPast, IsConsistent, IsQuiet, QuietRun, start, then_step, swap-eq,
}
use coredns_updater_plugin.Sync.Steps.{
  mutate-IsConsistent, drop-IsConsistent, write-IsConsistent, settle-IsConsistent,
  date-IsConsistent, reload-IsConsistent, stop-IsConsistent,
}

module _ ⦃u : Unicode⦄ (json : Json) where
  -- Every quiet step keeps the system consistent.
  Step-IsConsistent :
      {y z : System} (st : Step json y z)
      → IsQuiet json st
      → IsConsistent json y
      → IsConsistent json z
  Step-IsConsistent {y} (mutate m snap s' e small) q c =
      mutate-IsConsistent json y c m snap s' e small
  Step-IsConsistent {y} (skip before after all gen at free old) q c =
      drop-IsConsistent json y c before after (all, gen) y.disk at refl
  Step-IsConsistent {y} (fail before after all gen disk' at free kept) q c =
      drop-IsConsistent json y c before after (all, gen) disk' at kept
  Step-IsConsistent {y} (write before after all gen os raw disk' at free new coded done)
        (fresh, clock, back) c =
      write-IsConsistent json y c before after all gen os raw disk' at new coded done fresh
        (clock c.file c.there) back
  Step-IsConsistent {y} (settle gen stat_ok b) q c = rw q (settle-IsConsistent json y c gen b)
  Step-IsConsistent {y} (probe i free) q c = reload-IsConsistent json y c probed tt
  Step-IsConsistent {y} (defer i behind) q c = reload-IsConsistent json y c idle tt
  Step-IsConsistent {y} (pass last_mod i) q c = reload-IsConsistent json y c idle tt
  Step-IsConsistent {y} (unread mtime i) q c = reload-IsConsistent json y c idle tt
  Step-IsConsistent {y} stop q c = stop-IsConsistent json y c
  Step-IsConsistent {y} (halt i told) q c = reload-IsConsistent json y c ended tt
  Step-IsConsistent {y} (check i now) q c = reload-IsConsistent json y c (seen y.store.last_mod) tt
  Step-IsConsistent {y} (date last_mod mtime i e lt) q c = date-IsConsistent json y c mtime e
  Step-IsConsistent {y} (read mtime f i e) q c =
      reload-IsConsistent json y c (loaded mtime f.content)
        (subst (λ r. SawPast json r c.file) i c.past)
  Step-IsConsistent {y} (replace mtime raw stat_ok i) q c =
      rw (swap-eq json y c mtime raw stat_ok i) (reload-IsConsistent json y c idle tt)
  Step-IsConsistent {y} (edit f) q c = absurd q

  QuietRun-IsConsistent :
      {x y : System} → IsConsistent json x → QuietRun json x y → IsConsistent json y
  QuietRun-IsConsistent c start = c
  QuietRun-IsConsistent c (then_step run st q) =
      Step-IsConsistent st q (QuietRun-IsConsistent c run)

  -- After any quiet run from a consistent system, however mutations, writes and reloads interleave:
  -- when no file is being written and the last generation is noted as written, loading the file
  -- gives every name the records that it has in the store.
  pub QuietRun-IsCoded :
      (x y : System)
      → IsConsistent json x
      → QuietRun json x y
      → y.writing ≡ none
      → y.store.persisted ≡ y.store.generation
      → (f : File) × (lookup y.store.file_path y.disk ≡ some f)
        × IsCoded json f.content y.store.records
  QuietRun-IsCoded x y c run free written =
      let d = QuietRun-IsConsistent c run in (d.file, d.there, (d.settled free).1 written)

  -- In such a run the reload goroutine never replaces the records: what it has read is of the
  -- store's own writing, or a mutation is not yet written.
  pub QuietRun-swap :
      (x y : System) (mtime : ℕ) (raw : Text) (stat_ok : Bool)
      → IsConsistent json x
      → QuietRun json x y
      → y.reload ≡ loaded mtime raw
      → swap json stat_ok y.disk mtime raw y.store ≡ y.store
  QuietRun-swap x y mtime raw stat_ok c run at =
      swap-eq json y (QuietRun-IsConsistent c run) mtime raw stat_ok at
