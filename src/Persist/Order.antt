-- ===== src/Persist/Order.antt =====
-- A Go map is visited in any order: which one `collectLocked` takes does not matter to what is loaded.
use coredns_updater_plugin.Base.{◌≡◌, refl, ◌∙◌, subst, List, [], ◌∷◌, arith, All}
use mathlib.Core.List.{Permᴰ}
use coredns_updater_plugin.Text.{Text, Unicode}
use coredns_updater_plugin.Text.Fold.{str_eq_iff}
use coredns_updater_plugin.Assoc.{Assoc, lookup, HasDistinctKeys}
use coredns_updater_plugin.Record.{Record}
use coredns_updater_plugin.Store.{bucket, collect}
use coredns_updater_plugin.Store.Invariant.{IsWellFormed}
use coredns_updater_plugin.Persist.{group}
use coredns_updater_plugin.Persist.Grouping.{bucket-group-collect}

module _ {ℓ} {V : Type ℓ} where
  All-perm {κ} : (P : Text × V → Type κ) {m m' : Assoc V} → Permᴰ m m' → All P m → All P m'
  All-perm P Permᴰ.nil h = tt
  All-perm P (Permᴰ.cons e d) (p, h) = (subst P e p, All-perm P d h)
  All-perm P (Permᴰ.swap e f) (p, (q, h)) = (subst P f q, (subst P e p, h))
  All-perm P (Permᴰ.trans d e) h = All-perm P e (All-perm P d h)

  -- The same keys and values as in another map without a key twice.
  abbrev Agrees : Assoc V → Assoc V → Type ℓ
  Agrees m m' = HasDistinctKeys m' × ((k : Text) → lookup k m' ≡ lookup k m)

  Agrees-swap :
      (a b : Text × V) (m : Assoc V) → HasDistinctKeys (a ∷ b ∷ m) → Agrees (a ∷ b ∷ m) (b ∷ a ∷ m)
  unfolding lookup
  Agrees-swap a b m (fresh, (fresh', h)) = (
    (ground (arith, str_eq_iff a.0 b.0, str_eq_iff b.0 a.0), (ground arith, h)),
    λ k. ground (arith, str_eq_iff a.0 k, str_eq_iff b.0 k, str_eq_iff b.0 a.0),
  )

  lookup-perm : {m m' : Assoc V} → Permᴰ m m' → HasDistinctKeys m → Agrees m m'
  unfolding lookup
  lookup-perm Permᴰ.nil h = (tt, λ k. refl)
  lookup-perm (Permᴰ.cons {a} {b} {l₁} {l₂} e d) (fresh, h) =
      let (keys, same) = lookup-perm d h in
      subst (λ x. Agrees (a ∷ l₁) (x ∷ l₂)) e
        ((same a.0 ∙ fresh, keys), λ k. ground (arith, same k))
  lookup-perm (Permᴰ.swap {a} {b} {a'} {b'} {l} e f) h =
      subst (λ y. Agrees (a ∷ b ∷ l) (a' ∷ y ∷ l)) e
        (subst (λ x. Agrees (a ∷ b ∷ l) (x ∷ a ∷ l)) f (Agrees-swap a b l h))
  lookup-perm (Permᴰ.trans d e) h =
      let (h1, same1) = lookup-perm d h in
      let (h2, same2) = lookup-perm e h1 in (h2, λ k. same2 k ∙ same1 k)

module _ ⦃u : Unicode⦄ where
  -- The buckets of a well-formed store are written in any order. Loading what was written gives
  -- every name the records that it had, in their order.
  pub group-collect-perm :
      (m m' : Assoc (List Record)) (key : Text)
      → IsWellFormed m
      → Permᴰ m m'
      → bucket key (group (collect m') []) ≡ bucket key m
  unfolding bucket
  group-collect-perm m m' key w d =
      let (keys, same) = lookup-perm d w.keys in
      let w' : IsWellFormed m' = record { keys = keys; buckets = All-perm _ d w.buckets } in
      bucket-group-collect key m' w' ∙ rw (same key) refl
