-- ===== src/Policy/Names.antt =====
-- The names of the policies read back.
use coredns_updater_plugin.Base.{
  ℕ, zero, suc, ◌<◌, ◌≡◌, refl, Bool, true, not, ◌&&◌, Option, none, some, arith, ltb,
  if◌then◌else◌, ◌==◌,
}
use coredns_updater_plugin.Text.{Unicode, to_lower}
use coredns_updater_plugin.Policy.{parse_sync_policy, string}

-- Whether a name was read as the policy `p`, or not at all for a number with no policy.
agrees : ℕ → Option ℕ → Bool
agrees p none = not (ltb p 4)
agrees p (some q) = ltb p 4 && p == q

agrees-eq : (p : ℕ) (o : Option ℕ) → agrees p o ≡ true → o ≡ (if ltb p 4 then some p else none)
unfolding agrees
agrees-eq p none h = ground arith
agrees-eq p (some q) h = ground arith

module _ ⦃u : Unicode⦄ where
  reads_back : ℕ → Bool
  unfolding agrees parse_sync_policy string to_lower
  reads_back p = agrees p (parse_sync_policy (string p))

  -- A number below the bound whose name is not read as it should be.
  misread : ℕ → Option ℕ
  misread zero = none
  misread (suc n) = if reads_back n then misread n else some n

  misread-none : (bound p : ℕ) → misread bound ≡ none → p < bound → reads_back p ≡ true
  unfolding misread
  misread-none zero p none_found h = absurd (omega arith)
  misread-none (suc bound) p none_found h = ground (arith, misread-none bound p)

  misread_uint8 : misread 256 ≡ none
  unfolding misread reads_back
  misread_uint8 = refl

  -- Of the values of a `uint8`, exactly the four policies have a name that reads back, and each
  -- name reads back as its policy.
  pub parse_sync_policy-string :
      (p : ℕ) → p < 256 → parse_sync_policy (string p) ≡ (if ltb p 4 then some p else none)
  parse_sync_policy-string p h =
      agrees-eq p (parse_sync_policy (string p))
        (unfold reads_back in misread-none 256 p misread_uint8 h)
