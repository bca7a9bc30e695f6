-- ===== src/Setup/Terminates.antt =====
-- Parsing a configuration ends, and what it accepts is within bounds and guarded.
use coredns_updater_plugin.Base.{
  ℕ, zero, suc, ◌+◌, ◌≤◌, ◌<◌, ◌≡◌, refl, not, ◌&&◌, Option, none, some, List, arith, subst,
}
use mathlib.Core.Option
use coredns_updater_plugin.Text.{Text, lit, Unicode, str_eq}
use coredns_updater_plugin.Policy.{parse_sync_policy}
use coredns_updater_plugin.Setup.{
  reload_without_duration, invalid_reload, max_records_without_number, invalid_max_records,
  sync_policy_without_name, invalid_sync_policy, Tls, Config, ConfigError,
}
use coredns_updater_plugin.Setup.Numbers.{non_negative, non_negative-bound}
use coredns_updater_plugin.Setup.Tokens.{Controller, Loads}
use coredns_updater_plugin.Setup.Parse.{
  Parsed, Library, has_any, Handler, argument, checked, tls_of, tls_argument, names_argument,
  parse_api_directive, parse_grpc_directive, nested_loop, parse_nested_block, parse_directive,
  block_loop, parse_config,
}
use coredns_updater_plugin.Setup.Returns.{
  Returns, accepted, refused, Returns-if, Returns-more, Returns-option, Returns-bind,
}
use coredns_updater_plugin.Setup.Sound.{IsBounded, IsSound, finish-IsSound, parse_sync_policy-bound}

module _ {C : Type 0} (k : Controller C) (l : Loads k) where
  -- The cursor has not gone back, and the configuration is within bounds.
  abbrev Keeps : C → Config × C → Type 0
  Keeps c p = IsBounded p.0 × (l.left p.1 ≤ l.left c)

  argument-Returns :
      (e : ConfigError) (c : C) (f : Text → Config)
      → ((v : Text) → IsBounded (f v))
      → Returns (Keeps c) (argument k e c f)
  argument-Returns e c f h =
      let moved = l.next_arg_left c in
      Returns-if (k.next_arg c).0 (accepted (h (k.val (k.next_arg c).1), omega arith)) refused

  tls-Returns :
      (e : ConfigError) (c : C) (f : Tls → Config)
      → ((t : Tls) → IsBounded (f t))
      → Returns (Keeps c) (tls_argument k e c f)
  tls-Returns e c f h =
      let moved = l.remaining_args_left c in
      Returns-option (tls_of (k.remaining_args c).0) refused (λ t e. accepted (h t, moved))

  names-Returns :
      (e : ConfigError) (c : C) (f : List Text → Config)
      → ((t : List Text) → IsBounded (f t))
      → Returns (Keeps c) (names_argument k e c f)
  names-Returns e c f h =
      let moved = l.remaining_args_left c in
      Returns-if (has_any (k.remaining_args c).0) (accepted (h (k.remaining_args c).0, moved))
        refused

  ruleset directives = (Returns-if, argument-Returns, tls-Returns, names-Returns, accepted, refused)

  abbrev KeepsAll : Handler k → Type 0
  KeepsAll handler =
      (key : Text) (c : C) (cfg : Config) → IsBounded cfg → Returns (Keeps c) (handler key c cfg)

  parse_api_directive-Returns : KeepsAll (parse_api_directive k)
  unfolding parse_api_directive
  parse_api_directive-Returns key c cfg b = search (directives, arith)

  parse_grpc_directive-Returns : KeepsAll (parse_grpc_directive k)
  unfolding parse_grpc_directive
  parse_grpc_directive-Returns key c cfg b = search (directives, arith)

  Keeps-trans :
      (c c' : C) (x : Parsed (Config × C))
      → l.left c' ≤ l.left c
      → Returns (Keeps c') x
      → Returns (Keeps c) x
  Keeps-trans c c' x le (accepted (b, m)) = accepted (b, omega arith)
  Keeps-trans c c' x le refused = refused

  -- A loop with more fuel than tokens ends.
  nested_loop-Returns :
      (fuel : ℕ) (handler : Handler k) (c : C) (cfg : Config)
      → KeepsAll handler
      → l.left c < fuel
      → IsBounded cfg
      → Returns (Keeps c) (nested_loop k fuel handler c cfg)
  unfolding nested_loop
  nested_loop-Returns zero handler c cfg h enough b = absurd (omega arith)
  nested_loop-Returns (suc fuel) handler c cfg h enough b =
      let c' = (k.next c).1 in
      let moved = l.next_left c in
      Returns-more ((k.next c).0 && not (str_eq (k.val c') (lit "}")))
        (λ go.
          let loaded : l.left c' + 1 ≤ l.left c = ground arith in
          Returns-bind (h (k.val c') c' cfg b) (λ p kept.
            Keeps-trans c p.1 _ (omega (arith, kept.1))
              (nested_loop-Returns fuel handler p.1 p.0 h (omega (arith, kept.1)) kept.0)))
        (accepted (b, omega arith))

  parse_nested_block-Returns :
      (fuel : ℕ) (handler : Handler k) (c : C) (cfg : Config)
      → KeepsAll handler
      → l.left c < fuel
      → IsBounded cfg
      → Returns (Keeps c) (parse_nested_block k fuel handler c cfg)
  unfolding parse_nested_block
  parse_nested_block-Returns fuel handler c cfg h enough b =
      let c' = (k.next c).1 in
      let moved = l.next_left c in
      let back : l.left c' ≤ l.left c = omega arith in
      Returns-if _ (accepted (b, back)) (
        Returns-if _
          (Keeps-trans c c' _ back (nested_loop-Returns fuel handler c' cfg h (omega arith) b))
          (Keeps-trans c c' _ back (h (k.val c') c' cfg b)))

  module _ ⦃u : Unicode⦄ (lib : Library) where
    checked-Returns :
        (missing : ConfigError) (bad : Text → ConfigError) (c : C) (f : Text → Option Config)
        → ((v : Text) (cfg : Config) → f v ≡ some cfg → IsBounded cfg)
        → Returns (Keeps c) (checked k lib missing bad c f)
    checked-Returns missing bad c f h =
        let c' = (k.next_arg c).1 in
        let moved = l.next_arg_left c in
        Returns-if (k.next_arg c).0
          (Returns-option (f (k.val c')) refused
            (λ cfg e. accepted (h (k.val c') cfg e, omega arith)))
          refused

    map-IsBounded :
        {A : Type 0} (o : Option A) (g : A → Config) (cfg : Config)
        → ((a : A) → o ≡ some a → IsBounded (g a))
        → Option.map g o ≡ some cfg
        → IsBounded cfg
    map-IsBounded none g cfg h e = cc
    map-IsBounded (some a) g cfg h e = let same : g a ≡ cfg = cc in subst IsBounded same (h a refl)

    parse_directive-Returns :
        (fuel : ℕ) (key : Text) (c : C) (cfg : Config)
        → l.left c < fuel
        → IsBounded cfg
        → Returns (Keeps c) (parse_directive k lib fuel key c cfg)
    unfolding parse_directive
    parse_directive-Returns fuel key c cfg enough b =
        let duration =
          checked-Returns reload_without_duration invalid_reload c
            (λ v. Option.map (λ d. record cfg { reload = d }) (lib.parse_duration v))
            (λ v cfg' e. map-IsBounded (lib.parse_duration v) _ cfg' (λ d h. b) e) in
        let limit =
          checked-Returns max_records_without_number invalid_max_records c
            (λ v. Option.map (λ n. record cfg { max_records = n }) (non_negative v))
            (λ v cfg' e.
              map-IsBounded (non_negative v) _ cfg' (λ n h. (b.0, non_negative-bound v n h)) e) in
        let policy =
          checked-Returns sync_policy_without_name invalid_sync_policy c
            (λ v. Option.map (λ p. record cfg { sync_policy = p }) (parse_sync_policy v))
            (λ v cfg' e.
              map-IsBounded (parse_sync_policy v) _ cfg'
                (λ p h. (parse_sync_policy-bound v p h, b.1)) e) in
        let api =
          parse_nested_block-Returns fuel (parse_api_directive k) c cfg parse_api_directive-Returns
            enough b in
        let grpc =
          parse_nested_block-Returns fuel (parse_grpc_directive k) c cfg
            parse_grpc_directive-Returns enough b in
        let moved = l.remaining_args_left c in search (directives, arith)

    block_loop-Returns :
        (fuel : ℕ) (c : C) (cfg : Config)
        → l.left c < fuel
        → IsBounded cfg
        → Returns IsBounded (block_loop k lib fuel c cfg)
    unfolding block_loop
    block_loop-Returns zero c cfg enough b = absurd (omega arith)
    block_loop-Returns (suc fuel) c cfg enough b =
        let c' = (k.next_block c).1 in
        let moved = l.next_block_left c in
        Returns-more (k.next_block c).0
          (λ go.
            let loaded : l.left c' + 1 ≤ l.left c = ground arith in
            Returns-bind (parse_directive-Returns fuel (k.val c') c' cfg (omega arith) b)
              (λ p kept. block_loop-Returns fuel p.1 p.0 (omega (arith, kept.1)) kept.0))
          (accepted b)

    -- On a cursor whose operations move on whenever they load a token, and with more fuel than tokens
    -- are left, parsing a configuration ends: in an error, or in a configuration that names a data
    -- file, has one of the four policies and a limit that fits an `int`, and whose servers, where
    -- they listen, have a token, a common name or `no_auth`.
    pub parse_config-Returns :
        (fuel : ℕ) (c : C) → l.left c < fuel → Returns IsSound (parse_config k lib fuel c)
    unfolding parse_config
    parse_config-Returns fuel c enough =
        let opened = l.next_left c in
        let zoned = l.remaining_args_left (k.next c).1 in
        Returns-bind
          (block_loop-Returns fuel (k.remaining_args (k.next c).1).1 _ (omega arith)
            (omega arith, omega arith))
          finish-IsSound
