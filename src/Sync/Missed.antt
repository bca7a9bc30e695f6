-- ===== src/Sync/Missed.antt =====
-- checkReload while another program writes the file: `os.ReadFile` and the `os.Stat` of
-- loadFromBytes look at the file at different times.
use coredns_updater_plugin.Base.{
  ◌<◌, ◌≡◌, refl, true, false, none, some, List, [], ◌∷◌, ◌++◌, arith, ℕ, subst,
}
use coredns_updater_plugin.Text.{Text, Unicode}
use coredns_updater_plugin.Text.Fold.{str_eq_iff}
use coredns_updater_plugin.Assoc.{Assoc, lookup, insert, lookup-insert}
use coredns_updater_plugin.Record.{Record}
use coredns_updater_plugin.Store.{Store, Snapshot, stop_store}
use coredns_updater_plugin.Persist.{Json, File, Disk, group, load_from_bytes, stat}
use coredns_updater_plugin.Sync.Runs.{Steps, here, and_step}
use coredns_updater_plugin.Sync.{
  System, Reload, Step, idle, probed, seen, dated, loaded, ended, is_behind, swap, mutate, skip,
  fail, write, settle, probe, defer, check, pass, date, read, unread, replace, stop, halt, edit,
}

-- `os.ReadFile` of a check has returned the content of the file.
abbrev pub has_read : System → File → System
has_read y f = record y { reload = loaded f.mtime f.content }

-- Another program has written the file.
abbrev pub has_edited : System → File → System
has_edited y f = record y { state = record y.state { disk = insert y.store.file_path f y.disk } }

-- The check is done, with the records of one file and the time of another.
abbrev pub has_replaced : ⦃u : Unicode⦄ → System → List Record → ℕ → System
has_replaced y recs mtime = record y {
  state = record y.state { store = record y.store { records = group recs []; last_mod = mtime } };
  reload = idle;
}

-- A check that is under way found the file no newer than `m`.
Calm : ℕ → Reload → Type 0
Calm m idle = Unit
Calm m probed = Unit
Calm m (seen n) = n ≡ m
Calm m (dated n) = ⊥
Calm m (loaded n raw) = ⊥
Calm m ended = Unit

module _ ⦃u : Unicode⦄ (json : Json) where
  -- A step that is no mutation, and in which no other program writes the file.
  pub IsUndisturbed : {y z : System} → Step json y z → Type 0
  IsUndisturbed (mutate m snap s' e small) = ⊥
  IsUndisturbed (skip before after all gen at free old) = Unit
  IsUndisturbed (fail before after all gen disk' at free kept) = Unit
  IsUndisturbed (write before after all gen os raw disk' at free new coded done) = Unit
  IsUndisturbed (settle gen stat_ok b) = Unit
  IsUndisturbed (probe i free) = Unit
  IsUndisturbed (defer i behind) = Unit
  IsUndisturbed (check i now) = Unit
  IsUndisturbed (pass last_mod i) = Unit
  IsUndisturbed (date last_mod mtime i e lt) = Unit
  IsUndisturbed (read mtime f i e) = Unit
  IsUndisturbed (unread mtime i) = Unit
  IsUndisturbed (replace mtime raw stat_ok i) = Unit
  IsUndisturbed stop = Unit
  IsUndisturbed (halt i told) = Unit
  IsUndisturbed (edit f) = ⊥

  pub data Undisturbed (x : System) : System → Type 0 where
    at_once : Undisturbed x x
    then_on :
        {y z : System} → Undisturbed x y → (st : Step json y z) → IsUndisturbed st → Undisturbed x z

  -- The store has taken the time of the file that is on the disk, and nothing waits to be written.
  record HasSeen (recs : Assoc (List Record)) (f : File) (y : System) : Type 0 where
    pub kept : y.store.records ≡ recs
    pub there : lookup y.store.file_path y.disk ≡ some f
    pub noted : y.store.last_mod ≡ f.mtime
    pub nothing : y.pending ≡ []
    pub free : y.writing ≡ none
    pub calm : Calm f.mtime y.reload

  -- A step of the reload goroutine that leaves the store and the disk.
  moved :
      (recs : Assoc (List Record)) (f : File) (y : System)
      → HasSeen recs f y
      → (r : Reload) → Calm f.mtime r
      → HasSeen recs f (record y { reload = r })
  moved recs f y h r calm = record {
    kept = h.kept;
    there = h.there;
    noted = h.noted;
    nothing = h.nothing;
    free = h.free;
    calm = calm;
  }

  no_item : (l before after : List Snapshot) (p : Snapshot) → l ≡ [] → l ≡ before ++ p ∷ after → ⊥
  no_item l [] after a e at = cc
  no_item l (b ∷ before) after a e at = cc

  Step-HasSeen :
      (recs : Assoc (List Record)) (f : File) {y z : System}
      → (st : Step json y z) → IsUndisturbed st
      → HasSeen recs f y
      → HasSeen recs f z
  unfolding stop_store stat IsUndisturbed Calm
  Step-HasSeen recs f (mutate m snap s' e small) q h = absurd q
  Step-HasSeen recs f {y} (skip before after all gen at free old) q h =
      absurd (no_item y.pending before after (all, gen) h.nothing at)
  Step-HasSeen recs f {y} (fail before after all gen disk' at free kept) q h =
      absurd (no_item y.pending before after (all, gen) h.nothing at)
  Step-HasSeen recs f {y} (write before after all gen os raw disk' at free new coded done) q h =
      absurd (no_item y.pending before after (all, gen) h.nothing at)
  Step-HasSeen recs f (settle gen stat_ok b) q h = absurd (let free = h.free in cc)
  Step-HasSeen recs f {y} (probe i free) q h = moved recs f y h probed tt
  Step-HasSeen recs f {y} (defer i behind) q h = moved recs f y h idle tt
  Step-HasSeen recs f {y} (check i now) q h = moved recs f y h (seen y.store.last_mod) h.noted
  Step-HasSeen recs f {y} (pass last_mod i) q h = moved recs f y h idle tt
  Step-HasSeen recs f {y} (date last_mod mtime i e lt) q h =
      let same : last_mod ≡ f.mtime = subst (Calm f.mtime) i h.calm in
      let now : f.mtime ≡ mtime = ground (arith, h.there) in absurd (omega arith)
  Step-HasSeen recs f (read mtime g i e) q h = absurd (subst (Calm f.mtime) i h.calm)
  Step-HasSeen recs f (unread mtime i) q h = absurd (subst (Calm f.mtime) i h.calm)
  Step-HasSeen recs f (replace mtime raw stat_ok i) q h = absurd (subst (Calm f.mtime) i h.calm)
  Step-HasSeen recs f stop q h = record {
    kept = h.kept;
    there = h.there;
    noted = h.noted;
    nothing = h.nothing;
    free = h.free;
    calm = h.calm;
  }
  Step-HasSeen recs f {y} (halt i told) q h = moved recs f y h ended tt
  Step-HasSeen recs f (edit g) q h = absurd q

  Undisturbed-HasSeen :
      (recs : Assoc (List Record)) (f : File) {y z : System}
      → Undisturbed y z
      → HasSeen recs f y
      → HasSeen recs f z
  Undisturbed-HasSeen recs f at_once h = h
  Undisturbed-HasSeen recs f (then_on run st q) h =
      Step-HasSeen recs f st q (Undisturbed-HasSeen recs f run h)

  lookup-edited : (path : Text) (f : File) (disk : Disk) → lookup path (insert path f disk) ≡ some f
  lookup-edited path f disk = ground (arith, lookup-insert path path f disk, str_eq_iff path path)

  -- Phase 3 takes the records from the content that was read and the time from the file of now.
  swap-edited :
      (s : Store) (f1 f2 : File) (recs : List Record) (disk : Disk)
      → is_behind s ≡ false
      → s.last_mod < f1.mtime
      → json.decode f1.content ≡ some recs
      → lookup s.file_path disk ≡ some f2
      → swap json true disk f1.mtime f1.content s
        ≡ record s { records = group recs []; last_mod = f2.mtime }
  unfolding swap load_from_bytes stat
  swap-edited s f1 f2 recs disk now newer decoded there = ground arith

  -- From `select` to the end of `os.ReadFile`.
  reads :
      (y : System) (f : File)
      → y.reload ≡ idle
      → y.writing ≡ none
      → is_behind y.store ≡ false
      → lookup y.store.file_path y.disk ≡ some f
      → y.store.last_mod < f.mtime
      → Steps json y (has_read y f)
  unfolding stat
  reads y f rest free now there newer =
      and_step
        (and_step (and_step (and_step here (probe rest free)) (check refl now))
          (date y.store.last_mod f.mtime refl (ground arith) newer))
        (read f.mtime f refl there)

  -- A store with no mutation that is being written or waits to be written, and no check under way,
  -- checks its file `f1`, which is newer and can be decoded. Another program writes any file `f2`
  -- after `f1` was read and before phase 3. The steps of the code then give the store the records of
  -- `f1` and the time of `f2`; and after every further run without a mutation and without another
  -- write of another program, whatever else it does, the store has the records of `f1`, and `f2` is
  -- on the disk.
  pub edit_missed :
      (y : System) (f1 f2 : File) (recs : List Record)
      → y.reload ≡ idle
      → y.writing ≡ none
      → y.pending ≡ []
      → is_behind y.store ≡ false
      → lookup y.store.file_path y.disk ≡ some f1
      → y.store.last_mod < f1.mtime
      → json.decode f1.content ≡ some recs
      → Steps json y (has_read y f1)
        × Step json (has_read y f1) (has_edited (has_read y f1) f2)
        × Step json
            (has_edited (has_read y f1) f2)
            (has_replaced (has_edited (has_read y f1) f2) recs f2.mtime)
        × ((z : System)
            → Undisturbed (has_replaced (has_edited (has_read y f1) f2) recs f2.mtime) z
            → (z.store.records ≡ group recs []) × (lookup z.store.file_path z.disk ≡ some f2))
  unfolding Calm
  edit_missed y f1 f2 recs rest free nothing now there newer decoded =
      let at_edit = has_edited (has_read y f1) f2 in
      let after = lookup-edited y.store.file_path f2 y.disk in
      let e = swap-edited y.store f1 f2 recs at_edit.disk now newer decoded after in
      (
        reads y f1 rest free now there newer,
        edit f2,
        subst
            (λ s'.
              Step json at_edit
                (record at_edit { state = record at_edit.state { store = s' }; reload = idle }))
            e (replace f1.mtime f1.content true refl),
        λ z run.
            let h : HasSeen (group recs []) f2 z =
              Undisturbed-HasSeen (group recs []) f2 run (record {
                kept = refl;
                there = after;
                noted = refl;
                nothing = nothing;
                free = free;
                calm = tt;
              }) in
            (h.kept, h.there),
      )
