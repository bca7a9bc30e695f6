-- ===== src/Dns.antt =====
-- dynupdate.go: answering DNS queries from the store. What CoreDNS does, matching the zones, the
-- list of `fallthrough`, the next plugin and the sending of a message, is the record `Server`.
pub mod Chain
pub mod Answer
use mathlib.Core.Option
use coredns_updater_plugin.Base.{
  ℕ, zero, suc, ◌%◌, ◌^◌, Bool, true, false, ◌||◌, Option, none, some, List, [], ◌∷◌, ◌++◌, ◌==◌,
  if◌then◌else◌,
}
use coredns_updater_plugin.Text.{Text, lit, Unicode, is_empty}
use coredns_updater_plugin.Record.{Record, Dns, Rr, Header, soa, to_rr, class_inet}
use coredns_updater_plugin.Store.{Store, get_all, of_type}

abbrev pub max_cname_hops : ℕ
max_cname_hops = 10

abbrev pub type_a : ℕ
type_a = 1

abbrev pub type_cname : ℕ
type_cname = 5

abbrev pub type_soa : ℕ
type_soa = 6

abbrev pub type_aaaa : ℕ
type_aaaa = 28

abbrev pub rcode_success : ℕ
rcode_success = 0

abbrev pub rcode_server_failure : ℕ
rcode_server_failure = 2

abbrev pub rcode_name_error : ℕ
rcode_name_error = 3

pub record Msg : Type 0 where
  pub rcode : ℕ
  pub authoritative : Bool
  pub answer : List Rr
  pub ns : List Rr

-- The surroundings of one query.
pub record Server : Type 0 where
  -- `plugin.Zones(d.Zones).Matches(qname)`: empty if no zone matches
  pub zone_of : Text → Text
  -- `d.Fall.Through`
  pub through : Text → Bool
  -- the result of `plugin.NextOrFailure`: the code, and whether there is an error
  pub next : ℕ × Bool
  -- whether `w.WriteMsg` succeeds
  pub write_ok : Bool
  -- `time.Now().Unix()`
  pub now : ℕ

-- The result of a query: the code and whether there is an error, the message that was handed to
-- the writer, and the increments of the two counters.
pub record Served : Type 0 where
  pub result : ℕ × Bool
  pub sent : Option Msg
  pub requests : List Text
  pub responses : List (Text × ℕ)

module _ (sv : Server) where
  soa_of : Text → Rr
  soa_of zone =
      soa (record { name = zone; rrtype = type_soa; class = class_inet; ttl = 300 })
        (lit "ns1." ++ zone) (lit "hostmaster." ++ zone) (sv.now % 2 ^ 32) 7200 1800 86400 300

  -- `(rcode, nil)`, or a server failure with the error of the writer.
  written : ℕ → ℕ × Bool
  written rcode = if sv.write_ok then (rcode, false) else (rcode_server_failure, true)

  write_answer : List Rr → (ℕ × Bool) × Msg
  unfolding written
  write_answer answers = (
    written rcode_success,
    record { rcode = rcode_success; authoritative = true; answer = answers; ns = [] },
  )

  write_nxdomain : Text → (ℕ × Bool) × Msg
  unfolding written soa_of
  write_nxdomain zone = (
    written rcode_name_error,
    record { rcode = rcode_name_error; authoritative = true; answer = []; ns = soa_of zone ∷ [] },
  )

  write_nodata : Text → (ℕ × Bool) × Msg
  unfolding written soa_of
  write_nodata zone = (
    written rcode_success,
    record { rcode = rcode_success; authoritative = true; answer = []; ns = soa_of zone ∷ [] },
  )

module _ (dns : Dns) where
  -- The records that convert, in their order; an error is logged or dropped.
  unfoldable pub records_to_rr : List Record → List Rr
  records_to_rr [] = []
  records_to_rr (r ∷ recs) = elim (to_rr dns r) [
    | none ↦ records_to_rr recs
    | some rr ↦ rr ∷ records_to_rr recs
  ]

  module _ ⦃u : Unicode⦄ where
    unfoldable pub filter_by_type : List Record → ℕ → List Record
    filter_by_type recs qtype = of_type (dns.type_to_string qtype) recs

    -- `hops` is `maxCNAMEHops + 1 - depth`: at 0 the depth is past the limit. A lookup finds the store
    -- as it is then, `later hops`.
    unfoldable pub chase_cname : (ℕ → Store) → ℕ → Text → ℕ → List Rr
    chase_cname later zero target qtype = []
    chase_cname later (suc hops) target qtype =
        let all = get_all target (later hops) in
        elim (filter_by_type all qtype) [
          | r ∷ recs ↦ records_to_rr (r ∷ recs)
          | [] ↦ elim (filter_by_type all type_cname) [
            | [] ↦ []
            | c ∷ cs ↦ elim (to_rr dns c) [
              | none ↦ []
              | some rr ↦ rr ∷ chase_cname later hops c.value qtype
            ]
          ]
        ]

    -- Where a CNAME stands and converts, it and its chain; `none` if the query goes on to NODATA.
    unfoldable pub cname_answer : (ℕ → Store) → List Record → ℕ → Option (List Rr)
    cname_answer later all qtype =
        if qtype == type_a || qtype == type_aaaa
        then (elim (filter_by_type all type_cname) [
          | [] ↦ none
          | c ∷ cs ↦
              let chain = chase_cname later max_cname_hops c.value qtype in
              elim (to_rr dns c) [ none ↦ none | some rr ↦ some (rr ∷ chain) ]
        ])
        else none

    module _ (sv : Server) where
      -- The reply to a query for a name that has records.
      reply : (ℕ → Store) → Text → List Record → ℕ → (ℕ × Bool) × Msg
      unfolding write_answer write_nodata
      reply later zone all qtype = elim (filter_by_type all qtype) [
        | r ∷ recs ↦ write_answer sv (records_to_rr (r ∷ recs))
        | [] ↦ elim (cname_answer later all qtype) [
          | some answers ↦ write_answer sv answers
          | none ↦ write_nodata sv zone
        ]
      ]

      -- With the counters of the zone; the deferred one counts the code that is returned.
      counted : Text → (ℕ × Bool) × Option Msg → Served
      counted zone (result, sent) = record {
        result = result;
        sent = sent;
        requests = zone ∷ [];
        responses = (zone, result.0) ∷ [];
      }

      sending : (ℕ × Bool) × Msg → (ℕ × Bool) × Option Msg
      sending (result, msg) = (result, some msg)

      -- The name is looked up in `s`; mutations may follow before the further lookups.
      unfoldable pub serve_dns : Store → (ℕ → Store) → Text → ℕ → Served
      unfolding reply counted sending write_nxdomain
      serve_dns s later qname qtype =
          let zone = sv.zone_of qname in
          if is_empty zone
          then record { result = sv.next; sent = none; requests = []; responses = [] }
          else (elim (get_all qname s) [
            | [] ↦
                if sv.through qname
                then counted zone (sv.next, none)
                else counted zone (sending (write_nxdomain sv zone))
            | r ∷ recs ↦ counted zone (sending (reply later zone (r ∷ recs) qtype))
          ])
