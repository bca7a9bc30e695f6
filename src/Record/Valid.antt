-- ===== src/Record/Valid.antt =====
-- What `Validate` accepts, and what it makes of a record.
use coredns_updater_plugin.Base.{
  ℕ, ◌≤◌, ◌≡◌, refl, ◌≢◌, ◌↔◌, ◌⊎◌, true, false, none, some, List, [], ◌∷◌, arith, ◌==◌,
  if◌then◌else◌,
}
use coredns_updater_plugin.Text.{
  Text, lit, Unicode, str_eq, is_member, to_upper, has_suffix, contains, is_empty,
}
use coredns_updater_plugin.Text.Fold.{str_eq_iff}
use coredns_updater_plugin.Net.{parse_ip, to4}
use coredns_updater_plugin.Record.{
  Record, Dns, validate, validate_value, supported_types, min_ttl, max_ttl, default_ttl,
}

-- The rules for values, type by type.
pub record HasValue (dns : Dns) (r : Record) : Type 0 where
  pub a : r.type ≡ lit "A" → (ip ip4 : List ℕ) × (parse_ip r.value ≡ some ip) × (to4 ip ≡ some ip4)
  pub aaaa : r.type ≡ lit "AAAA" → (ip : List ℕ) × (parse_ip r.value ≡ some ip) × (to4 ip ≡ none)
  pub cname : r.type ≡ lit "CNAME" → dns.is_fqdn r.value ≡ true
  pub ns : r.type ≡ lit "NS" → dns.is_fqdn r.value ≡ true
  pub ptr : r.type ≡ lit "PTR" → dns.is_fqdn r.value ≡ true
  pub txt : r.type ≡ lit "TXT" → r.value ≢ []
  pub mx : r.type ≡ lit "MX" → dns.is_fqdn r.value ≡ true
  pub srv : r.type ≡ lit "SRV" → (dns.is_fqdn r.value ≡ true) × (r.port ≢ 0)
  pub caa :
      r.type ≡ lit "CAA"
      → (r.value ≢ []) × ((r.tag ≡ lit "issue") ⊎ (r.tag ≡ lit "issuewild") ⊎ (r.tag ≡ lit "iodef"))

-- The rules for a whole record `r`, of which `r'` is the normal form.
pub record IsAccepted ⦃u : Unicode⦄ (dns : Dns) (r r' : Record) : Type 0 where
  pub named : r.name ≢ []
  pub dot : has_suffix r.name (lit ".") ≡ true
  pub no_dots : contains r.name (lit "..") ≡ false
  pub domain : dns.is_domain_name r.name ≡ true
  pub supported : is_member (to_upper r.type) supported_types ≡ true
  pub normal :
      r' ≡ record r { type = to_upper r.type; ttl = if r.ttl == 0 then default_ttl else r.ttl }
  pub ttl_min : min_ttl ≤ r'.ttl
  pub ttl_max : r'.ttl ≤ max_ttl
  pub value : HasValue dns r'

supported-is_empty : (t : Text) → is_member t supported_types ≡ true → is_empty t ≡ false
unfolding is_member is_empty str_eq
supported-is_empty [] h = cc
supported-is_empty (c ∷ t) h = refl

module _ (dns : Dns) where
  validate_value-HasValue : (r : Record) → validate_value dns r ≡ none → HasValue dns r
  unfolding validate_value str_eq is_member is_empty
  validate_value-HasValue r h = record {
    a = λ e. ground arith;
    aaaa = λ e. ground arith;
    cname = λ e. ground arith;
    ns = λ e. ground arith;
    ptr = λ e. ground arith;
    txt = λ e. ground arith;
    mx = λ e. ground arith;
    srv = λ e. ground arith;
    caa = λ e. ground (
      arith,
      str_eq_iff r.tag (lit "issue"),
      str_eq_iff r.tag (lit "issuewild"),
      str_eq_iff r.tag (lit "iodef"),
    );
  }

  HasValue-validate_value : (r : Record) → HasValue dns r → validate_value dns r ≡ none
  unfolding validate_value is_member is_empty
  HasValue-validate_value r v = ground (
    arith,
    str_eq_iff r.type (lit "A"),
    str_eq_iff r.type (lit "AAAA"),
    str_eq_iff r.type (lit "CNAME"),
    str_eq_iff r.type (lit "NS"),
    str_eq_iff r.type (lit "PTR"),
    str_eq_iff r.type (lit "TXT"),
    str_eq_iff r.type (lit "MX"),
    str_eq_iff r.type (lit "SRV"),
    str_eq_iff r.type (lit "CAA"),
    str_eq_iff r.tag (lit "issue"),
    str_eq_iff r.tag (lit "issuewild"),
    str_eq_iff r.tag (lit "iodef"),
  )

  module _ ⦃u : Unicode⦄ where
    validate-IsAccepted : (r r' : Record) → validate dns r ≡ (r', none) → IsAccepted dns r r'
    unfolding validate is_empty
    validate-IsAccepted r r' h = record {
      named = ground arith;
      dot = ground arith;
      no_dots = ground arith;
      domain = ground arith;
      supported = ground arith;
      normal = ground arith;
      ttl_min = ground arith;
      ttl_max = ground arith;
      value = validate_value-HasValue r' (ground arith);
    }

    IsAccepted-validate : (r r' : Record) → IsAccepted dns r r' → validate dns r ≡ (r', none)
    unfolding validate is_empty
    IsAccepted-validate r r' c = ground (
      arith,
      HasValue-validate_value r' c.value,
      supported-is_empty (to_upper r.type) c.supported,
    )

    -- `Validate` ends without an error in the record `r'` exactly when `r` keeps every rule and
    -- `r'` is its normal form: the type in upper case and the default TTL in place of zero.
    pub validate_iff : (r r' : Record) → (validate dns r ≡ (r', none)) ↔ IsAccepted dns r r'
    validate_iff r r' = (validate-IsAccepted r r', IsAccepted-validate r r')
