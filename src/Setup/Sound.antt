-- ===== src/Setup/Sound.antt =====
-- What holds of a configuration that passes the checks.
use coredns_updater_plugin.Base.{
  ℕ, ◌<◌, ◌^◌, ◌≡◌, ◌≢◌, refl, ◌⊎◌, inl, inr, Bool, true, false, not, ◌&&◌, some, List, [], ◌∷◌,
  arith,
}
use coredns_updater_plugin.Text.{Text, Unicode, is_empty}
use coredns_updater_plugin.Policy.{parse_sync_policy}
use coredns_updater_plugin.Setup.{datafile_missing, api_without_auth, grpc_without_auth, Config}
use coredns_updater_plugin.Setup.Parse.{has_any, finish}
use coredns_updater_plugin.Setup.Returns.{Returns, accepted, Returns-guard}

-- What the directives keep true of a configuration.
abbrev pub IsBounded : Config → Type 0
IsBounded cfg = (cfg.sync_policy < 4) × (cfg.max_records < 2 ^ 63)

-- A server that listens has credentials, or authentication is switched off in so many words.
abbrev pub IsGuarded : Text → Text → List Text → Bool → Type 0
IsGuarded listen token cns no_auth = (listen ≡ []) ⊎ (token ≢ []) ⊎ (cns ≢ []) ⊎ (no_auth ≡ true)

pub record IsSound (cfg : Config) : Type 0 where
  pub bounded : IsBounded cfg
  pub datafile : cfg.datafile ≢ []
  pub api : IsGuarded cfg.api_listen cfg.api_token cfg.api_allowed_cn cfg.api_no_auth
  pub grpc : IsGuarded cfg.grpc_listen cfg.grpc_token cfg.grpc_allowed_cn cfg.grpc_no_auth

IsGuarded-test :
    (listen token : Text) (cns : List Text) (no_auth : Bool)
    → (not (is_empty listen) && (is_empty token && (not (has_any cns) && not no_auth))) ≡ false
    → IsGuarded listen token cns no_auth
unfolding is_empty
IsGuarded-test [] token cns no_auth h = inl refl
IsGuarded-test (l ∷ ls) (t ∷ ts) cns no_auth h = inr (inl (λ e. cc))
IsGuarded-test (l ∷ ls) [] (n ∷ ns) no_auth h = inr (inr (inl (λ e. cc)))
IsGuarded-test (l ∷ ls) [] [] true h = inr (inr (inr refl))
IsGuarded-test (l ∷ ls) [] [] false h = cc

pub finish-IsSound : (cfg : Config) → IsBounded cfg → Returns IsSound (finish cfg)
unfolding finish is_empty
finish-IsSound cfg b = Returns-guard (is_empty cfg.datafile) datafile_missing λ given.
    Returns-guard _ api_without_auth λ api. Returns-guard _ grpc_without_auth λ grpc.
      accepted (record {
        bounded = b;
        datafile = λ e. ground arith;
        api = IsGuarded-test cfg.api_listen cfg.api_token cfg.api_allowed_cn cfg.api_no_auth api;
        grpc =
            IsGuarded-test cfg.grpc_listen cfg.grpc_token cfg.grpc_allowed_cn cfg.grpc_no_auth grpc;
      })

module _ ⦃u : Unicode⦄ where
  pub parse_sync_policy-bound : (s : Text) (p : ℕ) → parse_sync_policy s ≡ some p → p < 4
  unfolding parse_sync_policy
  parse_sync_policy-bound s p h = ground arith
