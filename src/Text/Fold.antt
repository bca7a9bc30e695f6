-- ===== src/Text/Fold.antt =====
-- Laws of the comparisons on text.
use coredns_updater_plugin.Base.{
  ◌++◌, drop, length, ◌≡◌, refl, sym, ◌∙◌, ◌↔◌, inl, inr, true, List, [], ◌∷◌, arith, Bool-cases,
  All,
}
use coredns_updater_plugin.Text.{Text, Unicode, str_eq, equal_fold, is_member, has_prefix}

pub str_eq→eq : (s t : Text) → str_eq s t ≡ true → s ≡ t
unfolding str_eq
str_eq→eq [] [] h = refl
str_eq→eq [] (d ∷ t) h = ground arith
str_eq→eq (c ∷ s) [] h = ground arith
str_eq→eq (c ∷ s) (d ∷ t) h = ground (arith, str_eq→eq s t)

pub str_eq_refl : (s : Text) → str_eq s s ≡ true
unfolding str_eq
str_eq_refl [] = refl
str_eq_refl (c ∷ s) = ground (arith, str_eq_refl s)

pub str_eq_iff : (s t : Text) → (str_eq s t ≡ true) ↔ (s ≡ t)
str_eq_iff s t = (str_eq→eq s t, λ e. rw e (str_eq_refl t))

-- To prove something of a listed text, prove it of each text of the list.
pub is_member-All {ℓ} :
    (P : Text → Type ℓ) (s : Text) (ts : List Text) → is_member s ts ≡ true → All P ts → P s
unfolding is_member
is_member-All P s [] h ps = cc
is_member-All P s (t ∷ ts) h (p, ps) = elim (Bool-cases (str_eq s t)) [
  | inl e ↦ rw (str_eq→eq s t e) p
  | inr e ↦ is_member-All P s ts (ground arith) ps
]

module _ ⦃u : Unicode⦄ where
  -- The bytewise path agrees with the comparison of runes.
  equal_fold-eq-fold : (s t : Text) → equal_fold s t ≡ u.fold s t
  unfolding equal_fold
  equal_fold-eq-fold [] [] = sym (u.fold_refl [])
  equal_fold-eq-fold [] (d ∷ t) = elim (Bool-cases (u.fold [] (d ∷ t))) [
    | inl h ↦ ground (arith, u.fold_sym [] (d ∷ t) h, u.fold_short d t)
    | inr h ↦ sym h
  ]
  equal_fold-eq-fold (c ∷ s) [] = sym (u.fold_short c s)
  equal_fold-eq-fold (c ∷ s) (d ∷ t) = ground (arith, equal_fold-eq-fold s t, u.fold_ascii c d s t)

  pub equal_fold_refl : (s : Text) → equal_fold s s ≡ true
  equal_fold_refl s = equal_fold-eq-fold s s ∙ u.fold_refl s

  pub equal_fold_sym : (s t : Text) → equal_fold s t ≡ true → equal_fold t s ≡ true
  equal_fold_sym s t h =
      ground (arith, equal_fold-eq-fold s t, equal_fold-eq-fold t s, u.fold_sym s t)

  pub equal_fold_trans :
      (s t v : Text) → equal_fold s t ≡ true → equal_fold t v ≡ true → equal_fold s v ≡ true
  equal_fold_trans s t v h k = ground (
    arith,
    equal_fold-eq-fold s t,
    equal_fold-eq-fold t v,
    equal_fold-eq-fold s v,
    u.fold_trans s t v,
  )

  -- Texts that fold together fold with the same texts.
  pub equal_fold_left : (s t v : Text) → equal_fold s t ≡ true → equal_fold s v ≡ equal_fold t v
  equal_fold_left s t v h = elim (Bool-cases (equal_fold t v)) [
    | inl k ↦ rw k (equal_fold_trans s t v h k)
    | inr k ↦ elim (Bool-cases (equal_fold s v)) [
      | inl j ↦ ground (arith, equal_fold_trans t s v, equal_fold_sym s t)
      | inr j ↦ j ∙ sym k
    ]
  ]

-- A text has a prefix exactly if it is the prefix and the rest behind it.
pub has_prefix-append : (s p : Text) → has_prefix s p ≡ true → s ≡ p ++ drop (length p) s
unfolding has_prefix
has_prefix-append s [] h = refl
has_prefix-append [] (d ∷ p) h = cc
has_prefix-append (c ∷ s) (d ∷ p) h = ground (arith, has_prefix-append s p)

pub append-has_prefix : (p t : Text) → has_prefix (p ++ t) p ≡ true
unfolding has_prefix
append-has_prefix [] t = refl
append-has_prefix (c ∷ p) t = ground (arith, append-has_prefix p t)

pub drop-append : (p t : Text) → drop (length p) (p ++ t) ≡ t
drop-append [] t = refl
drop-append (c ∷ p) t = drop-append p t
