-- ===== src/Record.antt =====
-- record.go: the data model, validation and conversion to resource records. The functions of
-- github.com/miekg/dns that the file calls are the interface `Dns`.
pub mod Valid
pub mod Txt
pub mod Convert
use coredns_updater_plugin.Base.{
  ℕ, zero, suc, ◌-◌, ◌≤◌, ◌≡◌, Bool, true, false, not, ◌||◌, Option, none, some, List, [], ◌∷◌, ltb,
  leb, ◌==◌, if◌then◌else◌, length, take, drop,
}
use coredns_updater_plugin.Text.{
  Text, lit, Unicode, str_eq, is_empty, has_suffix, contains, is_member, to_upper,
}
use coredns_updater_plugin.Net.{parse_ip, to4}

abbrev pub default_ttl : ℕ
default_ttl = 3600

abbrev pub min_ttl : ℕ
min_ttl = 60

abbrev pub max_ttl : ℕ
max_ttl = 86400

abbrev pub txt_chunk : ℕ
txt_chunk = 255

abbrev pub supported_types : List Text
supported_types =
    lit "A"
    ∷ lit "AAAA"
    ∷ lit "CNAME"
    ∷ lit "TXT"
    ∷ lit "MX"
    ∷ lit "SRV"
    ∷ lit "NS"
    ∷ lit "PTR"
    ∷ lit "CAA"
    ∷ []

abbrev pub valid_caa_tags : List Text
valid_caa_tags = lit "issue" ∷ lit "issuewild" ∷ lit "iodef" ∷ []

pub record Record : Type 0 where
  pub name : Text
  pub type : Text
  pub ttl : ℕ
  pub value : Text
  pub priority : ℕ
  pub weight : ℕ
  pub port : ℕ
  pub flag : ℕ
  pub tag : Text

-- The tests and tables of miekg/dns: names, and the numbers of the types and their names.
pub record Dns : Type 0 where
  pub is_domain_name : Text → Bool
  pub is_fqdn : Text → Bool
  pub string_to_type : Text → ℕ
  pub type_to_string : ℕ → Text

-- The errors of `Validate`, one for each message.
pub data Invalid : Type 0 where
  empty_name no_trailing_dot consecutive_dots not_domain_name : Invalid
  empty_type unsupported_type ttl_out_of_range : Invalid
  not_ipv4 not_ipv6 not_fqdn empty_txt mx_not_fqdn srv_not_fqdn srv_port_zero : Invalid
  empty_caa empty_caa_tag bad_caa_tag : Invalid

module _ (dns : Dns) where
  validate_a : Record → Option Invalid
  validate_a r = elim (parse_ip r.value) [
    | none ↦ some not_ipv4
    | some ip ↦ elim (to4 ip) [ none ↦ some not_ipv4 | some ip4 ↦ none ]
  ]

  validate_aaaa : Record → Option Invalid
  validate_aaaa r = elim (parse_ip r.value) [
    | none ↦ some not_ipv6
    | some ip ↦ elim (to4 ip) [ none ↦ none | some ip4 ↦ some not_ipv6 ]
  ]

  validate_fqdn : Record → Option Invalid
  validate_fqdn r = if not (dns.is_fqdn r.value) then some not_fqdn else none

  validate_txt : Record → Option Invalid
  validate_txt r = if is_empty r.value then some empty_txt else none

  validate_mx : Record → Option Invalid
  validate_mx r = if not (dns.is_fqdn r.value) then some mx_not_fqdn else none

  validate_srv : Record → Option Invalid
  validate_srv r =
      if not (dns.is_fqdn r.value)
      then some srv_not_fqdn
      else if r.port == 0
      then some srv_port_zero
      else none

  validate_caa : Record → Option Invalid
  validate_caa r =
      if is_empty r.value
      then some empty_caa
      else if is_empty r.tag
      then some empty_caa_tag
      else if not (is_member r.tag valid_caa_tags)
      then some bad_caa_tag
      else none

  unfoldable pub validate_value : Record → Option Invalid
  unfolding validate_a validate_aaaa validate_fqdn validate_txt validate_mx validate_srv
      validate_caa
  validate_value r =
      if str_eq r.type (lit "A")
      then validate_a r
      else if str_eq r.type (lit "AAAA")
      then validate_aaaa r
      else if is_member r.type (lit "CNAME" ∷ lit "NS" ∷ lit "PTR" ∷ [])
      then validate_fqdn r
      else if str_eq r.type (lit "TXT")
      then validate_txt r
      else if str_eq r.type (lit "MX")
      then validate_mx r
      else if str_eq r.type (lit "SRV")
      then validate_srv r
      else if str_eq r.type (lit "CAA")
      then validate_caa r
      else none

  -- The tests on the name, which change nothing.
  validate_name : Record → Option Invalid
  validate_name r =
      if is_empty r.name
      then some empty_name
      else if not (has_suffix r.name (lit "."))
      then some no_trailing_dot
      else if contains r.name (lit "..")
      then some consecutive_dots
      else if not (dns.is_domain_name r.name)
      then some not_domain_name
      else none

  -- `if r.TTL == 0 { r.TTL = DefaultTTL }`, and what follows it.
  validate_ttl : Record → Record × Option Invalid
  validate_ttl r =
      let r' : Record = record r { ttl = if r.ttl == 0 then default_ttl else r.ttl } in
      if ltb r'.ttl min_ttl || ltb max_ttl r'.ttl
      then (r', some ttl_out_of_range)
      else (r', validate_value r')

  validate_type : Record → Record × Option Invalid
  validate_type r =
      if is_empty r.type
      then (r, some empty_type)
      else if not (is_member r.type supported_types)
      then (r, some unsupported_type)
      else validate_ttl r

  module _ ⦃u : Unicode⦄ where
    -- `Validate` writes to the record, also when it ends in an error.
    unfoldable pub validate : Record → Record × Option Invalid
    unfolding validate_name validate_type validate_ttl
    validate r = elim (validate_name r) [
      | some e ↦ (r, some e)
      | none ↦ validate_type (record r { type = to_upper r.type })
    ]

-- Resource records of miekg/dns, as far as the package builds them.
pub record Header : Type 0 where
  pub name : Text
  pub rrtype : ℕ
  pub class : ℕ
  pub ttl : ℕ

pub data Rr : Type 0 where
  a : Header → Option (List ℕ) → Rr
  aaaa : Header → Option (List ℕ) → Rr
  cname : Header → Text → Rr
  txt : Header → List Text → Rr
  mx : Header → ℕ → Text → Rr
  srv : Header → ℕ → ℕ → ℕ → Text → Rr
  ns : Header → Text → Rr
  ptr : Header → Text → Rr
  caa : Header → ℕ → Text → Text → Rr
  soa : Header → Text → Text → ℕ → ℕ → ℕ → ℕ → ℕ → Rr

abbrev pub class_inet : ℕ
class_inet = 1

-- The loop of `splitTXT`; the text gets shorter by a chunk in each round.
chunks : ℕ → Text → List Text
chunks zero s = []
chunks (suc rounds) [] = []
chunks (suc rounds) (c ∷ s) = take txt_chunk (c ∷ s) ∷ chunks rounds (drop txt_chunk (c ∷ s))

pub split_txt : Text → List Text
unfolding chunks
split_txt s = if leb (length s) txt_chunk then s ∷ [] else chunks (length s) s

-- `net.ParseIP(v).To4()`; a nil address has no four bytes.
pub parse_ip4 : Text → Option (List ℕ)
parse_ip4 v = elim (parse_ip v) [ none ↦ none | some ip ↦ to4 ip ]

module _ (dns : Dns) where
  -- `none` is the error "unsupported record type".
  unfoldable pub to_rr : Record → Option Rr
  unfolding split_txt parse_ip4
  to_rr r =
      let hdr : Header = record {
        name = r.name;
        rrtype = dns.string_to_type r.type;
        class = class_inet;
        ttl = r.ttl;
      } in
      if hdr.rrtype == 0
      then none
      else if str_eq r.type (lit "A")
      then some (a hdr (parse_ip4 r.value))
      else if str_eq r.type (lit "AAAA")
      then some (aaaa hdr (parse_ip r.value))
      else if str_eq r.type (lit "CNAME")
      then some (cname hdr r.value)
      else if str_eq r.type (lit "TXT")
      then some (txt hdr (split_txt r.value))
      else if str_eq r.type (lit "MX")
      then some (mx hdr r.priority r.value)
      else if str_eq r.type (lit "SRV")
      then some (srv hdr r.priority r.weight r.port r.value)
      else if str_eq r.type (lit "NS")
      then some (ns hdr r.value)
      else if str_eq r.type (lit "PTR")
      then some (ptr hdr r.value)
      else if str_eq r.type (lit "CAA")
      then some (caa hdr r.flag r.tag r.value)
      else none
