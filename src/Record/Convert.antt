-- ===== src/Record/Convert.antt =====
-- A validated record converts to a complete resource record, and validating it again changes
-- nothing.
use coredns_updater_plugin.Base.{
  ℕ, List, ◌≤◌, ◌≡◌, refl, sym, ap, ◌≢◌, true, none, some, arith, length, All,
}
use coredns_updater_plugin.Text.{Text, lit, Unicode, str_eq, is_member, to_upper}
use coredns_updater_plugin.Text.Fold.{is_member-All}
use coredns_updater_plugin.Record.{
  Record, Dns, Rr, Header, a, aaaa, cname, txt, mx, srv, ns, ptr, caa, soa, to_rr, validate,
  supported_types, txt_chunk, class_inet, parse_ip4, split_txt,
}
use coredns_updater_plugin.Net.{parse_ip, to4}
use mathlib.Core.List.{flatten}
use coredns_updater_plugin.Record.Valid.{IsAccepted, HasValue, validate_iff}
use coredns_updater_plugin.Record.Txt.{flatten-split_txt}

-- The text of a supported type is in upper case already.
to_upper_of_supported :
    ⦃u : Unicode⦄ (t : Text) → is_member t supported_types ≡ true → to_upper t ≡ t
unfolding to_upper
to_upper_of_supported t h = is_member-All (λ s. to_upper s ≡ s) t supported_types h (ground arith)

-- The owner, type number, class and TTL of a resource record.
abbrev pub header : Rr → Header
header (a h _) = h
header (aaaa h _) = h
header (cname h _) = h
header (txt h _) = h
header (mx h _ _) = h
header (srv h _ _ _ _) = h
header (ns h _) = h
header (ptr h _) = h
header (caa h _ _ _) = h
header (soa h _ _ _ _ _ _ _) = h

-- The data of a resource record is that of the record: the kind is its type, an address is the one
-- that its value reads as, a host is its value, the strings of a TXT record join to its value and
-- fit their length byte, and the numbers and the tag are its fields.
abbrev pub Carries : Record → Rr → Type 0
Carries r (a _ none) = ⊥
Carries r (a _ (some ip4)) =
    (r.type ≡ lit "A") × (ip : List ℕ) × (parse_ip r.value ≡ some ip) × (to4 ip ≡ some ip4)
Carries r (aaaa _ none) = ⊥
Carries r (aaaa _ (some ip)) =
    (r.type ≡ lit "AAAA") × (parse_ip r.value ≡ some ip) × (to4 ip ≡ none)
Carries r (cname _ host) = (r.type ≡ lit "CNAME") × (host ≡ r.value)
Carries r (txt _ ts) =
    (r.type ≡ lit "TXT") × (flatten ts ≡ r.value) × All (λ t. length t ≤ txt_chunk) ts
Carries r (mx _ preference host) =
    (r.type ≡ lit "MX") × (preference ≡ r.priority) × (host ≡ r.value)
Carries r (srv _ priority weight port host) =
    (r.type ≡ lit "SRV")
    × (priority ≡ r.priority)
    × (weight ≡ r.weight)
    × (port ≡ r.port)
    × (host ≡ r.value)
Carries r (ns _ host) = (r.type ≡ lit "NS") × (host ≡ r.value)
Carries r (ptr _ host) = (r.type ≡ lit "PTR") × (host ≡ r.value)
Carries r (caa _ flag tag value) =
    (r.type ≡ lit "CAA") × (flag ≡ r.flag) × (tag ≡ r.tag) × (value ≡ r.value)
Carries r (soa _ _ _ _ _ _ _ _) = ⊥

-- The table of type numbers has an entry for each supported type.
abbrev pub KnowsTypes : Dns → Type 0
KnowsTypes dns = (t : Text) → is_member t supported_types ≡ true → dns.string_to_type t ≢ 0

abbrev record_header : Dns → Record → Header
record_header dns r = record {
  name = r.name;
  rrtype = dns.string_to_type r.type;
  class = class_inet;
  ttl = r.ttl;
}

-- The whole resource record of a record.
abbrev pub IsResource : Dns → Record → Rr → Type 0
IsResource dns r rr = (header rr ≡ record_header dns r) × Carries r rr

abbrev pub Converts : Dns → Record → Type 0
Converts dns r = (rr : Rr) × (to_rr dns r ≡ some rr) × IsResource dns r rr

module _ (dns : Dns) (r : Record) (v : HasValue dns r) (known : dns.string_to_type r.type ≢ 0) where
  to_rr-a : lit "A" ≡ r.type → Converts dns r
  unfolding to_rr parse_ip4 str_eq
  to_rr-a e =
      let (ip, ip4, p, q) = v.a (sym e) in
      (a (record_header dns r) (some ip4), ground arith, (refl, (sym e, ip, p, q)))

  to_rr-aaaa : lit "AAAA" ≡ r.type → Converts dns r
  unfolding to_rr str_eq
  to_rr-aaaa e =
      let (ip, p, q) = v.aaaa (sym e) in
      (aaaa (record_header dns r) (some ip), ground arith, (refl, (sym e, p, q)))

  to_rr-txt : lit "TXT" ≡ r.type → Converts dns r
  unfolding to_rr str_eq
  to_rr-txt e =
      let (joined, short) = flatten-split_txt r.value in
      (txt (record_header dns r) (split_txt r.value), ground arith, (refl, (sym e, joined, short)))

  to_rr_supported : is_member r.type supported_types ≡ true → Converts dns r
  unfolding to_rr str_eq
  to_rr_supported m =
      let h = record_header dns r in
      let cname_case : lit "CNAME" ≡ r.type → Converts dns r =
        λ e. (cname h r.value, ground arith, (refl, (sym e, refl))) in
      let mx_case : lit "MX" ≡ r.type → Converts dns r =
        λ e. (mx h r.priority r.value, ground arith, (refl, (sym e, refl, refl))) in
      let srv_case : lit "SRV" ≡ r.type → Converts dns r = λ e. (
        srv h r.priority r.weight r.port r.value,
        ground arith,
        (refl, (sym e, refl, refl, refl, refl)),
      ) in
      let ns_case : lit "NS" ≡ r.type → Converts dns r =
        λ e. (ns h r.value, ground arith, (refl, (sym e, refl))) in
      let ptr_case : lit "PTR" ≡ r.type → Converts dns r =
        λ e. (ptr h r.value, ground arith, (refl, (sym e, refl))) in
      let caa_case : lit "CAA" ≡ r.type → Converts dns r =
        λ e. (caa h r.flag r.tag r.value, ground arith, (refl, (sym e, refl, refl, refl))) in
      is_member-All (λ t. t ≡ r.type → Converts dns r) r.type supported_types m
        (
          to_rr-a,
          (
            to_rr-aaaa,
            (cname_case, (to_rr-txt, (mx_case, (srv_case, (ns_case, (ptr_case, (caa_case, tt))))))),
          ),
        )
        refl

module _ ⦃u : Unicode⦄ (dns : Dns) (r r' : Record) (valid : validate dns r ≡ (r', none)) where
  accepted : IsAccepted dns r r'
  accepted = (validate_iff dns r r').0 valid

  type-accepted : r'.type ≡ to_upper r.type
  type-accepted = ap (λ (s : Record). s.type) accepted.normal

  supported-accepted : is_member r'.type supported_types ≡ true
  supported-accepted = rw type-accepted accepted.supported

  -- Where the type table knows the supported types, a record that `Validate` has passed converts
  -- without an error to the resource record of its type: with its name, TTL and type number and the
  -- class IN; with the address that its value reads as, of the family of the type; with its value as
  -- the host of a CNAME, MX, SRV, NS or PTR record and as the value of a CAA record; with strings of
  -- at most 255 bytes that join to its value in a TXT record; and with its numbers and tag in their
  -- places in MX, SRV and CAA records.
  pub to_rr-validate : KnowsTypes dns → Converts dns r'
  to_rr-validate known =
      to_rr_supported dns r' accepted.value (known r'.type supported-accepted) supported-accepted

  name-accepted : r'.name ≡ r.name
  name-accepted = ap (λ (s : Record). s.name) accepted.normal

  upper-accepted : to_upper r'.type ≡ r'.type
  upper-accepted = to_upper_of_supported r'.type supported-accepted

  IsAccepted-again : IsAccepted dns r' r'
  IsAccepted-again =
      let c = accepted in
      record {
        named = ground (arith, name-accepted, c.named);
        dot = ground (arith, name-accepted, c.dot);
        no_dots = ground (arith, name-accepted, c.no_dots);
        domain = ground (arith, name-accepted, c.domain);
        supported = ground (arith, upper-accepted, supported-accepted);
        normal = ground (arith, upper-accepted, c.ttl_min);
        ttl_min = c.ttl_min;
        ttl_max = c.ttl_max;
        value = c.value;
      }

  -- Validating the record that `Validate` has passed accepts it again and changes nothing.
  pub validate_idem : validate dns r' ≡ (r', none)
  validate_idem = (validate_iff dns r' r').1 IsAccepted-again
