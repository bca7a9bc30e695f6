-- ===== src/Sync/Stopped.antt =====
-- `Store.Stop` and the reload goroutine: what is left of `run` once the channel is closed.
use coredns_updater_plugin.Base.{
  ℕ, ◌+◌, ◌*◌, ◌≤◌, ◌≡◌, ◌⊎◌, ap, zero, suc, refl, inl, inr, true, arith, Bool-cases, ◌∙◌,
}
use coredns_updater_plugin.Text.{Unicode}
use coredns_updater_plugin.Store.{stop_store}
use coredns_updater_plugin.Persist.{Json}
use coredns_updater_plugin.Sync.{
  System, Reload, Step, idle, probed, seen, dated, loaded, ended, mutate, skip, fail, write, settle,
  probe, defer, check, pass, date, read, unread, replace, stop, halt, edit, is_behind,
}
use coredns_updater_plugin.Sync.Runs.{Steps, Step-stopped, Steps-ended, Steps-stopped}

-- How many steps the goroutine can take before it is in `select` again, and one for its end.
left : Reload → ℕ
left ended = 0
left idle = 1
left (loaded m raw) = 2
left (dated m) = 3
left (seen m) = 4
left probed = 5

module _ ⦃u : Unicode⦄ (json : Json) where
  -- How often `select` takes the ticker in a step, for a step of the reload goroutine.
  pub Takes : ℕ → {y z : System} → Step json y z → Type 0
  Takes n (mutate m snap s' e small) = ⊥
  Takes n (skip before after all gen at free old) = ⊥
  Takes n (fail before after all gen disk' at free kept) = ⊥
  Takes n (write before after all gen os raw disk' at free new coded done) = ⊥
  Takes n (settle gen stat_ok b) = ⊥
  Takes n (probe i free) = n ≡ 1
  Takes n (defer i behind) = n ≡ 0
  Takes n (check i now) = n ≡ 0
  Takes n (pass last_mod i) = n ≡ 0
  Takes n (date last_mod mtime i e lt) = n ≡ 0
  Takes n (read mtime f i e) = n ≡ 0
  Takes n (unread mtime i) = n ≡ 0
  Takes n (replace mtime raw stat_ok i) = n ≡ 0
  Takes n stop = ⊥
  Takes n (halt i told) = n ≡ 0
  Takes n (edit f) = ⊥

  -- A step of another goroutine or of another program.
  pub IsOther : {y z : System} → Step json y z → Type 0
  IsOther (mutate m snap s' e small) = Unit
  IsOther (skip before after all gen at free old) = Unit
  IsOther (fail before after all gen disk' at free kept) = Unit
  IsOther (write before after all gen os raw disk' at free new coded done) = Unit
  IsOther (settle gen stat_ok b) = Unit
  IsOther (probe i free) = ⊥
  IsOther (defer i behind) = ⊥
  IsOther (check i now) = ⊥
  IsOther (pass last_mod i) = ⊥
  IsOther (date last_mod mtime i e lt) = ⊥
  IsOther (read mtime f i e) = ⊥
  IsOther (unread mtime i) = ⊥
  IsOther (replace mtime raw stat_ok i) = ⊥
  IsOther stop = Unit
  IsOther (halt i told) = ⊥
  IsOther (edit f) = Unit

  pub data Others (y : System) : System → Type 0 where
    none_yet : Others y y
    one_more : {v w : System} → Others y v → (st : Step json v w) → IsOther st → Others y w

  -- The reload goroutine comes to its end and stays there, whatever the others do between any two
  -- of its steps, if `select` takes the ticker at most `n` more times: until then it always has a
  -- step, that does not wait for the ticker, and each of its steps leads to where the same holds.
  pub data Ends : ℕ → System → Type 0 where
    at_end :
        {n : ℕ} {y : System}
        → y.reload ≡ ended
        → ((z : System) → Steps json y z → z.reload ≡ ended)
        → Ends n y
    goes_on :
        {n : ℕ} {y : System}
        → ((v : System) → Others y v → (z : System) × (st : Step json v z) × Takes 0 st)
        → ((m k : ℕ) (v z : System)
            → Others y v
            → (st : Step json v z) → Takes k st
            → m + k ≡ n
            → Ends m z)
        → Ends n y

  Step-reload : {y z : System} → (st : Step json y z) → IsOther st → z.reload ≡ y.reload
  unfolding IsOther
  Step-reload (mutate m snap s' e small) q = refl
  Step-reload (skip before after all gen at free old) q = refl
  Step-reload (fail before after all gen disk' at free kept) q = refl
  Step-reload (write before after all gen os raw disk' at free new coded done) q = refl
  Step-reload (settle gen stat_ok b) q = refl
  Step-reload (probe i free) q = absurd q
  Step-reload (defer i behind) q = absurd q
  Step-reload (check i now) q = absurd q
  Step-reload (pass last_mod i) q = absurd q
  Step-reload (date last_mod mtime i e lt) q = absurd q
  Step-reload (read mtime f i e) q = absurd q
  Step-reload (unread mtime i) q = absurd q
  Step-reload (replace mtime raw stat_ok i) q = absurd q
  Step-reload stop q = refl
  Step-reload (halt i told) q = absurd q
  Step-reload (edit f) q = refl

  Others-kept :
      {y v : System}
      → Others y v
      → y.store.stopped ≡ true
      → (v.reload ≡ y.reload) × (v.store.stopped ≡ true)
  Others-kept none_yet told = (refl, told)
  Others-kept (one_more run st q) told =
      let (same, still) = Others-kept run told in
      (Step-reload st q ∙ same, Step-stopped json st still)

  -- Once the channel is closed, the goroutine has a step from everywhere but its end.
  has_step :
      (v : System) (r : Reload)
      → v.reload ≡ r
      → v.store.stopped ≡ true
      → 1 ≤ left r
      → (z : System) × (st : Step json v z) × Takes 0 st
  unfolding Takes left
  has_step v idle at told lt = (record v { reload = ended }, halt at told, refl)
  has_step v probed at told lt = elim (Bool-cases (is_behind v.store)) [
    | inl behind ↦ (record v { reload = idle }, defer at behind, refl)
    | inr now ↦ (record v { reload = seen v.store.last_mod }, check at now, refl)
  ]
  has_step v (seen m) at told lt = (record v { reload = idle }, pass m at, refl)
  has_step v (dated m) at told lt = (record v { reload = idle }, unread m at, refl)
  has_step v (loaded m raw) at told lt = (_, replace m raw true at, refl)
  has_step v ended at told lt = absurd (omega arith)

  -- What is left gets less in every step of the goroutine.
  Step-left :
      {y z : System}
      → (k : ℕ) (st : Step json y z) → Takes k st
      → left z.reload + 1 ≤ k * 5 + left y.reload
  unfolding Takes left
  Step-left k (mutate m snap s' e small) q = absurd q
  Step-left k (skip before after all gen at free old) q = absurd q
  Step-left k (fail before after all gen disk' at free kept) q = absurd q
  Step-left k (write before after all gen os raw disk' at free new coded done) q = absurd q
  Step-left k (settle gen stat_ok b) q = absurd q
  Step-left k (probe i free) q = rw i (omega arith)
  Step-left k (defer i behind) q = rw i (omega arith)
  Step-left k (check i now) q = rw i (omega arith)
  Step-left k (pass last_mod i) q = rw i (omega arith)
  Step-left k (date last_mod mtime i e lt) q = rw i (omega arith)
  Step-left k (read mtime f i e) q = rw i (omega arith)
  Step-left k (unread mtime i) q = rw i (omega arith)
  Step-left k (replace mtime raw stat_ok i) q = rw i (omega arith)
  Step-left k stop q = absurd q
  Step-left k (halt i told) q = rw i (omega arith)
  Step-left k (edit f) q = absurd q

  is_over : (r : Reload) → (r ≡ ended) ⊎ (1 ≤ left r)
  unfolding left
  is_over idle = inr (omega arith)
  is_over probed = inr (omega arith)
  is_over (seen m) = inr (omega arith)
  is_over (dated m) = inr (omega arith)
  is_over (loaded m raw) = inr (omega arith)
  is_over ended = inl refl

  over-Ends : (n : ℕ) (y : System) → y.reload ≡ ended → Ends n y
  over-Ends n y at = at_end at (λ z run. Steps-ended json run at)

  stopped-Ends :
      (b n : ℕ) (y : System) → y.store.stopped ≡ true → n * 5 + left y.reload ≤ b → Ends n y
  stopped-Ends zero n y told le = elim (is_over y.reload) [
    | inl over ↦ over-Ends n y over
    | inr more ↦ absurd (omega arith)
  ]
  stopped-Ends (suc b) n y told le = elim (is_over y.reload) [
    | inl over ↦ over-Ends n y over
    | inr more ↦
        goes_on
          (λ v run.
            let (same, still) = Others-kept run told in
            has_step v v.reload refl still (rw same more))
          (λ m k v z run st q e.
            let (same, still) = Others-kept run told in
            let less = Step-left k st q in
            let at = ap left same in stopped-Ends b m z (Step-stopped json st still) (omega arith))
  ]

  -- From wherever the system stands when `Stop` is called, and whatever steps have followed: if
  -- `select` takes the ticker at most `n` more times, for any `n`, the reload goroutine comes to its
  -- end. In any order of the steps, also of other goroutines and programs, it has a next step that
  -- does not wait for the ticker until it is at its end, its steps run out, and from there on no
  -- step brings it back.
  pub stop_store-Ends :
      (x y : System) (n : ℕ)
      → Steps json (record x { state = record x.state { store = stop_store x.store } }) y
      → Ends n y
  unfolding stop_store
  stop_store-Ends x y n run =
      stopped-Ends (n * 5 + left y.reload) n y (Steps-stopped json run refl) (omega arith)
