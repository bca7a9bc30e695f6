-- ===== src/Sync/Checked.antt =====
-- `checkReload` as one function, and as a run of steps that nothing comes between.
use coredns_updater_plugin.Base.{
  ◌≤◌, ◌<◌, ◌≡◌, ap, refl, subst, sym, inl, inr, Bool, true, not, none, some, List, [], leb, ltb,
  ◌&&◌, if◌then◌else◌, arith, Bool-cases, Option-cases,
}
use coredns_updater_plugin.Text.{Text, Unicode}
use coredns_updater_plugin.Assoc.{lookup}
use coredns_updater_plugin.Record.{Record}
use coredns_updater_plugin.Store.{Store, bucket}
use coredns_updater_plugin.Persist.Grouping.{of_key, bucket-group}
use coredns_updater_plugin.Persist.{Json, File, Disk, group, load_from_bytes, stat}
use coredns_updater_plugin.Sync.{
  System, idle, is_behind, swap, probe, defer, check, pass, date, read, unread, replace,
}
use coredns_updater_plugin.Sync.Runs.{Steps, here, and_step}

-- What `TryLock` and the calls of the operating system answer in one check.
pub record Answers : Type 0 where
  pub free : Bool
  pub stat_ok : Bool
  pub read_ok : Bool
  -- `os.Stat` of `loadFromBytes`
  pub stat_again : Bool

abbrev pub all_well : Answers
all_well = record { free = true; stat_ok = true; read_ok = true; stat_again = true }

module _ ⦃u : Unicode⦄ (json : Json) where
  unfoldable pub check_reload : Answers → Disk → Store → Store
  unfolding is_behind swap stat
  check_reload a disk s =
      if not a.free then s else if is_behind s then s else elim (stat a.stat_ok s.file_path disk) [
        | none ↦ s
        | some mtime ↦ if leb mtime s.last_mod then s else elim (lookup s.file_path disk) [
          | none ↦ s
          | some f ↦ if a.read_ok then swap json a.stat_again disk mtime f.content s else s
        ]
      ]

  -- A check that no other step comes between is a run of the steps, and ends idle.
  check_reload-Steps :
      (a : Answers) (y : System)
      → y.reload ≡ idle
      → (a.free ≡ true → y.writing ≡ none)
      → Steps json y (record y {
        state = record y.state { store = check_reload a y.disk y.store };
        reload = idle;
      })
  unfolding check_reload stat
  check_reload-Steps a y rest unlocked =
      let s = y.store in
      let to : Store → System =
        λ s'. record y { state = record y.state { store = s' }; reload = idle } in
      let reaches : (s' : Store)
          → check_reload a y.disk s ≡ s'
          → Steps json y (to s')
          → Steps json y (to (check_reload a y.disk s)) =
        λ s' e run. subst (λ x. Steps json y (to x)) (sym e) run in
      elim (Bool-cases a.free) [
        | inr held ↦
            reaches s (ground arith) (subst (λ r. Steps json y (record y { reload = r })) rest here)
        | inl free ↦
            let at_probe = and_step here (probe rest (unlocked free)) in
            elim (Bool-cases (is_behind s)) [
              | inl behind ↦ reaches s (ground arith) (and_step at_probe (defer refl behind))
              | inr now ↦
                  let at_seen = and_step at_probe (check refl now) in
                  let passed = and_step at_seen (pass s.last_mod refl) in
                  elim (Option-cases (stat a.stat_ok s.file_path y.disk)) [
                    | inl unknown ↦ reaches s (ground arith) passed
                    | inr (mtime, known) ↦ elim (Bool-cases (leb mtime s.last_mod)) [
                      | inl old ↦ reaches s (ground arith) passed
                      | inr new ↦ elim (Option-cases (lookup s.file_path y.disk)) [
                        | inl missing ↦ absurd (ground arith)
                        | inr (f, there) ↦
                            let at_dated =
                              and_step at_seen
                                (date s.last_mod mtime refl (ground arith) (ground arith)) in
                            elim (Bool-cases a.read_ok) [
                              | inr failed ↦
                                  reaches s (ground arith) (and_step at_dated (unread mtime refl))
                              | inl ok ↦
                                  reaches (swap json a.stat_again y.disk mtime f.content s)
                                    (ground arith)
                                    (and_step (and_step at_dated (read mtime f refl there))
                                      (replace mtime f.content a.stat_again refl))
                            ]
                      ]
                    ]
                  ]
            ]
      ]

  -- The file of the store was written since the store last saw it and can be decoded, no mutation
  -- waits to be written, and none of the calls up to the reading fails.
  pub record IsDue (a : Answers) (disk : Disk) (s : Store) (f : File) (recs : List Record)
      : Type 0 where
    pub free : a.free ≡ true
    pub stats : a.stat_ok ≡ true
    pub reads : a.read_ok ≡ true
    pub written : s.generation ≤ s.persisted
    pub there : lookup s.file_path disk ≡ some f
    pub newer : s.last_mod < f.mtime
    pub decoded : json.decode f.content ≡ some recs

  -- The two ends of a check, which exclude one another.
  pub data Checked (a : Answers) (disk : Disk) (s s' : Store) : Type 0 where
    reloaded :
        (f : File) (recs : List Record)
        → IsDue a disk s f recs
        → ((key : Text) → bucket key s'.records ≡ of_key key recs)
        → s'.last_mod ≡ (if a.stat_again then f.mtime else s.last_mod)
        → s' ≡ record s { records = s'.records; last_mod = s'.last_mod }
        → Checked a disk s s'
    left_alone :
        ((f : File) (recs : List Record) → ¬ IsDue a disk s f recs) → s' ≡ s → Checked a disk s s'

  check_reload-IsDue :
      (a : Answers) (disk : Disk) (s : Store) (f : File) (recs : List Record)
      → IsDue a disk s f recs
      → Checked a disk s (check_reload a disk s)
  unfolding check_reload swap load_from_bytes stat is_behind bucket lookup
  check_reload-IsDue a disk s f recs d =
      let now : Store = record s {
        records = group recs [];
        last_mod = if a.stat_again then f.mtime else s.last_mod;
      } in
      let e : check_reload a disk s ≡ now =
        ground (arith, d.free, d.stats, d.reads, d.written, d.there, d.newer, d.decoded) in
      subst (Checked a disk s) (sym e)
        (reloaded f recs d (λ key. bucket-group key recs []) refl refl)

  -- Whether the numbers and the calls allow a reload.
  abbrev allows : Answers → Store → File → Bool
  allows a s f =
      a.free
      && (a.stat_ok && (a.read_ok && (leb s.generation s.persisted && ltb s.last_mod f.mtime)))

  -- Whatever the calls answer: if the file is newer than the store has seen, can be decoded, no
  -- mutation waits to be written and none of the calls up to the reading fails, a check gives every
  -- name the records of that name in the file, in their order, takes the time of the file if the
  -- second `os.Stat` succeeds, and leaves the rest of the store; in every other case it leaves the
  -- whole store as it was.
  pub check_reload-Checked :
      (a : Answers) (disk : Disk) (s : Store) → Checked a disk s (check_reload a disk s)
  unfolding check_reload swap load_from_bytes stat is_behind
  check_reload-Checked a disk s = elim (Option-cases (lookup s.file_path disk)) [
    | inl missing ↦ left_alone (λ g recs d. ground (arith, d.there)) (ground arith)
    | inr (f, there) ↦ elim (Option-cases (json.decode f.content)) [
      | inl bad ↦
          left_alone
            (λ g recs d.
              (let same : f ≡ g = ground (arith, d.there) in
                ground (arith, ap (λ (x : File). x.content) same, d.decoded)))
            (ground arith)
      | inr (recs, decoded) ↦ elim (Bool-cases (allows a s f)) [
        | inl go ↦ check_reload-IsDue a disk s f recs (record {
          free = ground arith;
          stats = ground arith;
          reads = ground arith;
          written = ground arith;
          there = there;
          newer = ground arith;
          decoded = decoded;
        })
        | inr barred ↦
            left_alone
              (λ g recs d.
                (let same : f.mtime ≡ g.mtime = ground (arith, d.there) in
                  ground (arith, d.free, d.stats, d.reads, d.written, d.newer)))
              (ground arith)
      ]
    ]
  ]
