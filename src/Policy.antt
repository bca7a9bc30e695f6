-- ===== src/Policy.antt =====
-- store.go: the sync policy, a `uint8`, with its names.
pub mod Names
use coredns_updater_plugin.Base.{
  ℕ, ◌+◌, ◌/◌, ◌%◌, Option, none, some, [], ◌∷◌, ◌++◌, ltb, ◌==◌, if◌then◌else◌,
}
use coredns_updater_plugin.Text.{Text, lit, Unicode, str_eq, to_lower}

abbrev pub policy_sync : ℕ
policy_sync = 0

abbrev pub policy_create_only : ℕ
policy_create_only = 1

abbrev pub policy_update_only : ℕ
policy_update_only = 2

abbrev pub policy_upsert_only : ℕ
policy_upsert_only = 3

-- `none` is the error "unknown sync policy".
unfoldable pub parse_sync_policy : ⦃u : Unicode⦄ → Text → Option ℕ
unfolding str_eq
parse_sync_policy s =
    let name = to_lower s in
    if str_eq name (lit "sync")
    then some policy_sync
    else if str_eq name (lit "crud")
    then some policy_sync
    else if str_eq name (lit "create-only")
    then some policy_create_only
    else if str_eq name (lit "update-only")
    then some policy_update_only
    else if str_eq name (lit "upsert-only")
    then some policy_upsert_only
    else none

-- `%d` of a number below 1000
decimal : ℕ → Text
decimal n =
    if ltb n 10
    then (b'0' + n) ∷ []
    else if ltb n 100
    then (b'0' + n / 10) ∷ (b'0' + n % 10) ∷ []
    else (b'0' + n / 100) ∷ (b'0' + n / 10 % 10) ∷ (b'0' + n % 10) ∷ []

pub string : ℕ → Text
unfolding decimal
string p =
    if p == policy_sync
    then lit "sync"
    else if p == policy_create_only
    then lit "create-only"
    else if p == policy_update_only
    then lit "update-only"
    else if p == policy_upsert_only
    then lit "upsert-only"
    else lit "SyncPolicy(" ++ decimal p ++ lit ")"
