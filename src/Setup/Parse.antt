-- ===== src/Setup/Parse.antt =====
-- `parseConfig` with its nested blocks. The loops run on fuel, of which each round takes one; that
-- the tokens that are left are enough is shown in Setup.Terminates. `time.ParseDuration` and the
-- normalisation of zones by CoreDNS are parameters.
use coredns_updater_plugin.Base.{
  ℕ, zero, suc, Bool, true, false, not, ◌&&◌, Option, none, some, List, [], ◌∷◌, ◌++◌,
  if◌then◌else◌,
}
use mathlib.Core.Option
use coredns_updater_plugin.Text.{Text, lit, Unicode, str_eq, is_empty}
use coredns_updater_plugin.Policy.{parse_sync_policy}
use coredns_updater_plugin.Setup.{
  Config, no_config, Tls, ConfigError, datafile_without_path, reload_without_duration,
  max_records_without_number, sync_policy_without_name, datafile_missing, api_without_auth,
  grpc_without_auth, invalid_reload, invalid_max_records, invalid_sync_policy, unknown_directive,
  api_listen_without_address, api_token_without_value, api_tls_arguments,
  grpc_listen_without_address, grpc_token_without_value, grpc_tls_arguments,
  allowed_cn_without_name, unknown_api_directive, unknown_grpc_directive,
}
use coredns_updater_plugin.Setup.Numbers.{non_negative}
use coredns_updater_plugin.Setup.Tokens.{Controller}

-- `out_of_fuel` has no counterpart in the program.
pub data Parsed (A : Type 0) : Type 0 where
  done : A → Parsed A
  rejected : ConfigError → Parsed A
  out_of_fuel : Parsed A

abbrev pub bind : {A B : Type 0} → Parsed A → (A → Parsed B) → Parsed B
bind (done a) f = f a
bind (rejected e) f = rejected e
bind out_of_fuel f = out_of_fuel

pub record Library : Type 0 where
  -- `time.ParseDuration`, with 0 for what is negative
  pub parse_duration : Text → Option ℕ
  -- `plugin.Host.NormalizeExact`
  pub normalize : Text → List Text

-- `plugin.Host(z).NormalizeExact()` for each zone, joined.
normalize_all : Library → List Text → List Text
normalize_all lib [] = []
normalize_all lib (z ∷ zs) = lib.normalize z ++ normalize_all lib zs

-- `&tlsConfig{…}` of exactly three arguments.
abbrev pub tls_of : List Text → Option Tls
tls_of (cert ∷ key ∷ ca ∷ []) = some (record { cert = cert; key = key; ca = ca })
tls_of _ = none

abbrev pub has_any : List Text → Bool
has_any [] = false
has_any (x ∷ xs) = true

-- The checks at the end.
unfoldable pub finish : Config → Parsed Config
unfolding is_empty
finish cfg =
    if is_empty cfg.datafile
    then rejected datafile_missing
    else if not (is_empty cfg.api_listen)
        && (is_empty cfg.api_token && (not (has_any cfg.api_allowed_cn) && not cfg.api_no_auth))
    then rejected api_without_auth
    else if not (is_empty cfg.grpc_listen)
        && (is_empty cfg.grpc_token && (not (has_any cfg.grpc_allowed_cn) && not cfg.grpc_no_auth))
    then rejected grpc_without_auth
    else done cfg

module _ {C : Type 0} (k : Controller C) where
  abbrev pub Handler : Type 0
  Handler = Text → C → Config → Parsed (Config × C)

  -- `if !c.NextArg() { return err }`, and what is done with `c.Val()`.
  abbrev pub argument : ConfigError → C → (Text → Config) → Parsed (Config × C)
  argument e c f =
      let (more, c') = k.next_arg c in if more then done (f (k.val c'), c') else rejected e

  abbrev pub tls_argument : ConfigError → C → (Tls → Config) → Parsed (Config × C)
  tls_argument e c f =
      let (args, c') = k.remaining_args c in
      elim (tls_of args) [ none ↦ rejected e | some t ↦ done (f t, c') ]

  abbrev pub names_argument : ConfigError → C → (List Text → Config) → Parsed (Config × C)
  names_argument e c f =
      let (args, c') = k.remaining_args c in if has_any args then done (f args, c') else rejected e

  unfoldable pub parse_api_directive : Handler
  unfolding str_eq
  parse_api_directive key c cfg =
      if str_eq key (lit "listen")
      then argument api_listen_without_address c (λ v. record cfg { api_listen = v })
      else if str_eq key (lit "token")
      then argument api_token_without_value c (λ v. record cfg { api_token = v })
      else if str_eq key (lit "tls")
      then tls_argument api_tls_arguments c (λ t. record cfg { api_tls = some t })
      else if str_eq key (lit "allowed_cn")
      then names_argument allowed_cn_without_name c (λ cns. record cfg { api_allowed_cn = cns })
      else if str_eq key (lit "no_auth")
      then done (record cfg { api_no_auth = true }, c)
      else rejected (unknown_api_directive key)

  unfoldable pub parse_grpc_directive : Handler
  unfolding str_eq
  parse_grpc_directive key c cfg =
      if str_eq key (lit "listen")
      then argument grpc_listen_without_address c (λ v. record cfg { grpc_listen = v })
      else if str_eq key (lit "token")
      then argument grpc_token_without_value c (λ v. record cfg { grpc_token = v })
      else if str_eq key (lit "tls")
      then tls_argument grpc_tls_arguments c (λ t. record cfg { grpc_tls = some t })
      else if str_eq key (lit "allowed_cn")
      then names_argument allowed_cn_without_name c (λ cns. record cfg { grpc_allowed_cn = cns })
      else if str_eq key (lit "no_auth")
      then done (record cfg { grpc_no_auth = true }, c)
      else rejected (unknown_grpc_directive key)

  -- `for c.Next()` up to the closing brace.
  unfoldable pub nested_loop : ℕ → Handler → C → Config → Parsed (Config × C)
  nested_loop zero handler c cfg = out_of_fuel
  nested_loop (suc fuel) handler c cfg =
      let (more, c') = k.next c in
      elim (more && not (str_eq (k.val c') (lit "}"))) [
        | false ↦ done (cfg, c')
        | true ↦ bind (handler (k.val c') c' cfg) (λ p. nested_loop fuel handler p.1 p.0)
      ]

  unfoldable pub parse_nested_block : ℕ → Handler → C → Config → Parsed (Config × C)
  parse_nested_block fuel handler c cfg =
      let (more, c') = k.next c in
      if not more
      then done (cfg, c')
      else if str_eq (k.val c') (lit "{")
      then nested_loop fuel handler c' cfg
      else handler (k.val c') c' cfg

  module _ ⦃u : Unicode⦄ (lib : Library) where
    -- The argument of a directive, read by `f`; `none` is an error.
    abbrev pub checked :
        ConfigError → (Text → ConfigError) → C → (Text → Option Config) → Parsed (Config × C)
    checked missing bad c f =
        let (more, c') = k.next_arg c in
        if more
        then (elim (f (k.val c')) [ none ↦ rejected (bad (k.val c')) | some cfg ↦ done (cfg, c') ])
        else rejected missing

    -- The `switch` of the outer block.
    unfoldable pub parse_directive : ℕ → Handler
    unfolding str_eq non_negative parse_sync_policy
    parse_directive fuel key c cfg =
        if str_eq key (lit "datafile")
        then argument datafile_without_path c (λ v. record cfg { datafile = v })
        else if str_eq key (lit "reload")
        then checked reload_without_duration invalid_reload c
            (λ v. Option.map (λ d. record cfg { reload = d }) (lib.parse_duration v))
        else if str_eq key (lit "api")
        then parse_nested_block fuel parse_api_directive c cfg
        else if str_eq key (lit "grpc")
        then parse_nested_block fuel parse_grpc_directive c cfg
        else if str_eq key (lit "max_records")
        then checked max_records_without_number invalid_max_records c
            (λ v. Option.map (λ n. record cfg { max_records = n }) (non_negative v))
        else if str_eq key (lit "sync_policy")
        then checked sync_policy_without_name invalid_sync_policy c
            (λ v. Option.map (λ p. record cfg { sync_policy = p }) (parse_sync_policy v))
        else if str_eq key (lit "fallthrough")
        then (let (args, c') = k.remaining_args c in
            done (record cfg { enable_fall = true; fall_args = args }, c'))
        else rejected (unknown_directive key)

    -- `for c.NextBlock()`
    unfoldable pub block_loop : ℕ → C → Config → Parsed Config
    block_loop zero c cfg = out_of_fuel
    block_loop (suc fuel) c cfg =
        let (more, c') = k.next_block c in
        elim more [
          | false ↦ done cfg
          | true ↦ bind (parse_directive fuel (k.val c') c' cfg) (λ p. block_loop fuel p.1 p.0)
        ]

    unfoldable pub parse_config : ℕ → C → Parsed Config
    unfolding normalize_all
    parse_config fuel c =
        let (args, c') = k.remaining_args (k.next c).1 in
        let zones = if has_any args then args else k.server_block_keys in
        bind (block_loop fuel c' (record no_config { zones = normalize_all lib zones })) finish
