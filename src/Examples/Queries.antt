-- ===== src/Examples/Queries.antt =====
-- Records that are validated and converted, and a query that follows an alias.
use mathlib.Core.List.{Permᴰ}
use coredns_updater_plugin.Text.{Text}
use coredns_updater_plugin.Store.Invariant.{IsUnique}
use coredns_updater_plugin.Persist.Grouping.{of_key}
use coredns_updater_plugin.Persist.Loaded.{group-IsWellFormed_iff}
use coredns_updater_plugin.Base.{List}
use coredns_updater_plugin.Assoc.{Assoc}
use coredns_updater_plugin.Store.{bucket, collect}
use coredns_updater_plugin.Persist.{group}
use coredns_updater_plugin.Persist.Order.{group-collect-perm}
use coredns_updater_plugin.Net.{parse_ip, to4}
use coredns_updater_plugin.Assoc.{lookup, insert}
use coredns_updater_plugin.Base.{
  ◌≡◌, refl, ◌↔◌, true, false, none, some, [], ◌∷◌, arith, length, replicate, All, ◌≤◌,
}
use mathlib.Core.List.{flatten}
use coredns_updater_plugin.Text.{
  lit, to_lower, str_eq, is_empty, has_suffix, contains, to_upper, is_member, equal_fold,
}
use coredns_updater_plugin.Record.{
  Record, a, cname, to_rr, validate, split_txt, txt_chunk, empty_txt, no_trailing_dot,
  validate_value,
}
use coredns_updater_plugin.Record.Valid.{IsAccepted, validate_iff}
use coredns_updater_plugin.Record.Txt.{flatten-split_txt}
use coredns_updater_plugin.Record.Convert.{KnowsTypes, Converts, to_rr-validate}
use coredns_updater_plugin.Store.{
  Store, apply_upsert, index_of, bucket, count, commit, get_all, of_type,
}
use coredns_updater_plugin.Store.Mutation.{upsert, apply}
use coredns_updater_plugin.Store.Invariant.{IsWellFormed, apply-IsWellFormed}
use coredns_updater_plugin.Dns.{
  Server, Msg, type_a, serve_dns, filter_by_type, cname_answer, chase_cname, records_to_rr,
}
use coredns_updater_plugin.Store.{apply_upsert}
use coredns_updater_plugin.Dns.Chain.{Chain, serve_dns-Chain}
use coredns_updater_plugin.Examples.{ascii, types, web, alias, fresh}

-- A record as a client sends it, with the type in lower case and no TTL.
abbrev sent : Record
sent = record web { type = lit "a"; ttl = 0 }

abbrev normal : Record
normal = record web { ttl = 3600 }

passes : validate types sent ≡ (normal, none)
unfolding validate is_empty has_suffix contains to_upper is_member validate_value parse_ip to4
passes = refl

-- An error, too, leaves what was written before it.
fails :
    (validate types (record sent { type = lit "txt"; value = [] })
      ≡ (record sent { type = lit "TXT"; ttl = 3600; value = [] }, some empty_txt))
    × (validate types (record sent { name = lit "web.example" })
        ≡ (record sent { name = lit "web.example" }, some no_trailing_dot))
unfolding validate is_empty has_suffix contains to_upper is_member validate_value
fails = (refl, refl)

validate_iff_example : (validate types sent ≡ (normal, none)) ↔ IsAccepted types sent normal
validate_iff_example = validate_iff types sent normal

pub types-KnowsTypes : KnowsTypes types
unfolding is_member
types-KnowsTypes t h = ground arith

to_rr-validate_example : Converts types normal
to_rr-validate_example = to_rr-validate types sent normal passes types-KnowsTypes

flatten-split_txt_example :
    (flatten (split_txt (replicate 300 b'x')) ≡ replicate 300 b'x')
    × All (λ c. length c ≤ txt_chunk) (split_txt (replicate 300 b'x'))
flatten-split_txt_example = flatten-split_txt (replicate 300 b'x')

abbrev both : Store
both = record fresh {
  records = (lit "web.example.", web ∷ []) ∷ (lit "www.example.", alias ∷ []) ∷ [];
  generation = 2;
}

both-IsWellFormed : IsWellFormed both.records
unfolding apply apply_upsert index_of bucket lookup count commit insert to_lower str_eq
both-IsWellFormed =
    apply-IsWellFormed (upsert alias)
      (record fresh { records = (lit "web.example.", web ∷ []) ∷ []; generation = 1 })
      (apply-IsWellFormed (upsert web) fresh (record { keys = tt; buckets = tt }))

abbrev pub server : Server
server = record {
  zone_of = λ name. lit "example.";
  through = λ name. false;
  next = (2, true);
  write_ok = true;
  now = 1000;
}

abbrev resolved : Msg
resolved = record {
  rcode = 0;
  authoritative = true;
  answer =
      cname (record { name = lit "www.example."; rrtype = 5; class = 1; ttl = 300 })
        (lit "web.example.")
      ∷ a (record { name = lit "Web.example."; rrtype = 1; class = 1; ttl = 300 })
          (some (192 ∷ 0 ∷ 2 ∷ 1 ∷ []))
      ∷ [];
  ns = [];
}

resolves :
    (serve_dns types server both (λ n. both) (lit "WWW.example.") type_a).sent ≡ some resolved
unfolding serve_dns is_empty get_all bucket lookup str_eq to_lower filter_by_type of_type equal_fold
    cname_answer to_rr chase_cname records_to_rr parse_ip to4
resolves = refl

serve_dns-Chain_example : Chain 11 (lit "WWW.example.") resolved.answer
serve_dns-Chain_example =
    serve_dns-Chain types server both (λ n. both) (lit "WWW.example.") type_a resolved
      both-IsWellFormed (λ n. both-IsWellFormed) refl resolves

-- The store after the record was sent and stored.
abbrev stored : Store
stored = record fresh { records = (lit "web.example.", normal ∷ []) ∷ []; generation = 1 }

-- The buckets of this store, visited in the other order.
abbrev reversed : Assoc (List Record)
reversed = (lit "www.example.", alias ∷ []) ∷ (lit "web.example.", web ∷ []) ∷ []

group-collect-perm_example :
    bucket (lit "web.example.") (group (collect reversed) [])
    ≡ bucket (lit "web.example.") both.records
group-collect-perm_example =
    group-collect-perm both.records reversed (lit "web.example.") both-IsWellFormed
      (Permᴰ.swap refl refl)

group-IsWellFormed_iff_example :
    IsWellFormed (group (web ∷ alias ∷ []) [])
    ↔ ((key : Text) → IsUnique (of_key key (web ∷ alias ∷ [])))
group-IsWellFormed_iff_example = group-IsWellFormed_iff (web ∷ alias ∷ [])
