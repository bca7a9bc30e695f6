-- ===== src/Sync/Runs.antt =====
-- Runs of the steps, also of other programs, and what no step changes.
use coredns_updater_plugin.Base.{◌≡◌, refl, ap, true, arith, ◌∙◌}
use coredns_updater_plugin.Text.{Unicode}
use coredns_updater_plugin.Store.{Store, stop_store}
use coredns_updater_plugin.Store.Outcomes.{apply-IsCommit}
use coredns_updater_plugin.Persist.{Json, finish, load_from_bytes}
use coredns_updater_plugin.Sync.{
  System, ended, Step, mutate, skip, fail, write, settle, probe, defer, check, pass, date, read,
  unread, replace, stop, halt, edit, swap,
}

module _ ⦃u : Unicode⦄ (json : Json) where
  pub data Steps (x : System) : System → Type 0 where
    here : Steps x x
    and_step : {y z : System} → Steps x y → Step json y z → Steps x z

  -- A goroutine that has returned does not come back.
  Step-ended : {y z : System} → Step json y z → y.reload ≡ ended → z.reload ≡ ended
  Step-ended (mutate m snap s' e small) h = h
  Step-ended (skip before after all gen at free old) h = h
  Step-ended (fail before after all gen disk' at free kept) h = h
  Step-ended (write before after all gen os raw disk' at free new coded done) h = h
  Step-ended (settle gen stat_ok b) h = h
  Step-ended (probe i free) h = cc
  Step-ended (defer i behind) h = cc
  Step-ended (check i now) h = cc
  Step-ended (pass last_mod i) h = cc
  Step-ended (date last_mod mtime i e lt) h = cc
  Step-ended (read mtime f i e) h = cc
  Step-ended (unread mtime i) h = cc
  Step-ended (replace mtime raw stat_ok i) h = cc
  Step-ended stop h = h
  Step-ended (halt i told) h = refl
  Step-ended (edit f) h = h

  pub Steps-ended : {x y : System} → Steps x y → x.reload ≡ ended → y.reload ≡ ended
  Steps-ended here h = h
  Steps-ended (and_step run st) h = Step-ended st (Steps-ended run h)

  -- A store that was told to stop stays so.
  pub Step-stopped :
      {y z : System} → Step json y z → y.store.stopped ≡ true → z.store.stopped ≡ true
  unfolding swap load_from_bytes finish stop_store
  Step-stopped {y} (mutate m snap s' e small) h =
      ap (λ (x : Store). x.stopped) (apply-IsCommit m y.store s' snap e).kept ∙ h
  Step-stopped (skip before after all gen at free old) h = h
  Step-stopped (fail before after all gen disk' at free kept) h = h
  Step-stopped (write before after all gen os raw disk' at free new coded done) h = h
  Step-stopped (settle gen stat_ok b) h = h
  Step-stopped (probe i free) h = h
  Step-stopped (defer i behind) h = h
  Step-stopped (check i now) h = h
  Step-stopped (pass last_mod i) h = h
  Step-stopped (date last_mod mtime i e lt) h = h
  Step-stopped (read mtime f i e) h = h
  Step-stopped (unread mtime i) h = h
  Step-stopped (replace mtime raw stat_ok i) h = ground arith
  Step-stopped stop h = refl
  Step-stopped (halt i told) h = h
  Step-stopped (edit f) h = h

  pub Steps-stopped : {x y : System} → Steps x y → x.store.stopped ≡ true → y.store.stopped ≡ true
  Steps-stopped here h = h
  Steps-stopped (and_step run st) h = Step-stopped st (Steps-stopped run h)
