-- ===== src/Sync/Consistent.antt =====
-- What holds of the store, the file, the waiting snapshots and the reload goroutine together while
-- no other program writes the file.
use coredns_updater_plugin.Base.{
  ℕ, ◌≤◌, ◌<◌, ◌≡◌, subst, Bool, true, none, some, List, [], ◌∷◌, ◌++◌, arith, inl, inr, All,
  All-append, Option-cases,
}
use coredns_updater_plugin.Text.{Text, Unicode}
use coredns_updater_plugin.Assoc.{Assoc, lookup}
use coredns_updater_plugin.Record.{Record}
use coredns_updater_plugin.Store.{Store, Snapshot, bucket, collect}
use coredns_updater_plugin.Store.Invariant.{IsWellFormed}
use coredns_updater_plugin.Persist.{Json, File, group}
use coredns_updater_plugin.Persist.Atomic.{IsFreshTemp}
use coredns_updater_plugin.Persist.Restart.{ReadsBack}
use coredns_updater_plugin.Sync.{System, Reload, dated, loaded, Step, write, settle, edit, swap}

module _ ⦃u : Unicode⦄ (json : Json) where
  -- Loading the content gives every name the records that it has in the store.
  abbrev pub IsCoded : Text → Assoc (List Record) → Type 0
  IsCoded raw m =
      (recs : List Record) × (json.decode raw ≡ some recs)
      × ((key : Text) → bucket key (group recs []) ≡ bucket key m)

  -- A snapshot that waits is of the past, and that of the last mutation is of the present.
  abbrev pub Waits : Store → Snapshot → Type 0
  Waits s p =
      (0 < p.1)
      × (p.1 ≤ s.generation)
      × (s.persisted < p.1 → p.1 ≡ s.generation → p.0 ≡ collect s.records)

  -- What the reload goroutine has seen is no newer than the file.
  abbrev pub SawPast : Reload → File → Type 0
  SawPast (dated mtime) f = mtime ≤ f.mtime
  SawPast (loaded mtime raw) f = mtime ≤ f.mtime
  SawPast _ f = Unit

  pub record IsConsistent (y : System) : Type 0 where
    pub wf : IsWellFormed y.store.records
    pub ordered : y.store.persisted ≤ y.store.generation
    pub waiting : All (Waits y.store) y.pending
    pub file : File
    pub there : lookup y.store.file_path y.disk ≡ some file
    pub settled :
        y.writing ≡ none
        → (file.mtime ≤ y.store.last_mod)
          × (y.store.persisted ≡ y.store.generation → IsCoded file.content y.store.records)
    pub busy :
        (gen : ℕ)
        → y.writing ≡ some gen
        → (y.store.persisted < gen)
          × (gen ≤ y.store.generation)
          × (gen ≡ y.store.generation → IsCoded file.content y.store.records)
    pub past : SawPast y.reload file

  -- The conditions on a step: no other program writes the file; `os.Stat` succeeds after a write;
  -- the temporary file has a new name, the clock does not go back, and what is written reads back.
  abbrev pub IsQuiet : {y z : System} → Step json y z → Type 0
  IsQuiet {y} (write before after all gen os raw disk' at free new coded done) =
      IsFreshTemp os y.store.file_path y.disk
      × ((f : File) → lookup y.store.file_path y.disk ≡ some f → f.mtime ≤ os.now)
      × ReadsBack json all
  IsQuiet (settle gen stat_ok busy) = stat_ok ≡ true
  IsQuiet (edit f) = ⊥
  IsQuiet _ = Unit

  -- A run of quiet steps.
  pub data QuietRun (x : System) : System → Type 0 where
    start : QuietRun x x
    then_step : {y z : System} → QuietRun x y → (st : Step json y z) → IsQuiet st → QuietRun x z

  -- Phase 3 never replaces the records.
  pub swap-eq :
      (y : System) (c : IsConsistent y) (mtime : ℕ) (raw : Text) (stat_ok : Bool)
      → y.reload ≡ loaded mtime raw
      → swap json stat_ok y.disk mtime raw y.store ≡ y.store
  unfolding swap
  swap-eq y c mtime raw stat_ok e =
      let old : SawPast (loaded mtime raw) c.file = subst (λ r. SawPast r c.file) e c.past in
      elim (Option-cases y.writing) [
        | inl free ↦ let (kept, _) = c.settled free in ground arith
        | inr (gen, b) ↦ let (new, le, _) = c.busy gen b in ground arith
      ]

  -- Parts of a list of snapshots.
  All-before :
      (P : Snapshot → Type 0) (xs ys : List Snapshot) → All P (xs ++ ys) → All P xs × All P ys
  All-before P [] ys h = (tt, h)
  All-before P (x ∷ xs) ys (p, h) = let (hx, hy) = All-before P xs ys h in ((p, hx), hy)

  pub All-map :
      (P Q : Snapshot → Type 0) (xs : List Snapshot)
      → ((p : Snapshot) → P p → Q p)
      → All P xs
      → All Q xs
  All-map P Q [] f h = tt
  All-map P Q (x ∷ xs) f (p, h) = (f x p, All-map P Q xs f h)

  -- Without the snapshot that is being handled the others still wait; and it waited.
  pub handled :
      (y : System) (before after : List Snapshot) (p : Snapshot)
      → IsConsistent y
      → y.pending ≡ before ++ p ∷ after
      → All (Waits y.store) (before ++ after) × Waits y.store p
  handled y before after p c at =
      let all : All (Waits y.store) (before ++ p ∷ after) =
        subst (λ xs. All (Waits y.store) xs) at c.waiting in
      let (hb, (hp, ha)) = All-before (Waits y.store) before (p ∷ after) all in
      (All-append (Waits y.store) before after hb ha, hp)
