-- ===== src/Net.antt =====
-- `net.ParseIP` and `IP.To4`, which record.go calls: addresses as their sixteen bytes.
pub mod Tests
use mathlib.Core.Option
use coredns_updater_plugin.Base.{
  ℕ, zero, suc, not, ◌+◌, ◌-◌, ◌*◌, ◌/◌, ◌%◌, Bool, true, false, ◌&&◌, ◌||◌, Option, none, some,
  List, [], ◌∷◌, ◌++◌, ltb, leb, ◌==◌, if◌then◌else◌, length, take, drop, replicate,
}
use coredns_updater_plugin.Text.{Text, is_empty, str_eq, has_prefix}

is_digit : ℕ → Bool
is_digit c = leb b'0' c && leb c b'9'

-- The dotted fields from `val` and its `digits` on; `fields` are those already closed.
ipv4_fields : List ℕ → ℕ → ℕ → Text → Option (List ℕ)
unfolding is_digit is_empty
ipv4_fields fields val digits [] = if length fields == 3 then some (fields ++ val ∷ []) else none
ipv4_fields fields val digits (c ∷ s) =
    let val' : ℕ = val * 10 + (c - b'0') in
    let longer = ipv4_fields fields val' (digits + 1) s in
    let closed = ipv4_fields (fields ++ val ∷ []) 0 0 s in
    if is_digit c
    then (if (digits == 1 && val == 0) || ltb 255 val' then none else longer)
    else if c == b'.'
    then (if (digits == 0 || is_empty s) || length fields == 3 then none else closed)
    else none

-- The value of a hexadecimal digit.
hex_digit : ℕ → Option ℕ
unfolding is_digit
hex_digit c =
    if is_digit c
    then some (c - b'0')
    else if leb b'a' c && leb c b'f'
    then some (c - b'a' + 10)
    else if leb b'A' c && leb c b'F'
    then some (c - b'A' + 10)
    else none

-- One group of an IPv6 address: its value, its number of digits, and the text behind it.
hex_group : ℕ → ℕ → Text → Option (ℕ × ℕ × Text)
unfolding hex_digit
hex_group acc off [] = some (acc, off, [])
hex_group acc off (c ∷ s) = elim (hex_digit c) [
  | none ↦ some (acc, off, c ∷ s)
  | some d ↦
      if ltb 3 off || ltb 65535 (acc * 16 + d) then none else hex_group (acc * 16 + d) (off + 1) s
]

-- Behind the last group: `::` stands for the groups that are missing.
expand : List ℕ → Option ℕ → Text → Option (List ℕ)
expand out none s = if is_empty s && length out == 16 then some out else none
expand out (some e) s =
    if is_empty s && ltb (length out) 16
    then some (take e out ++ replicate (16 - length out) 0 ++ drop e out)
    else none

-- What follows a group: the end, or a colon, or the double colon.
pub data Next : Type 0 where
  ends : Next
  group : Option ℕ → Text → Next
  bad : Next

after_group : ℕ → Option ℕ → Text → Next
after_group i ellipsis [] = ends
after_group i ellipsis (c ∷ []) = bad
after_group i ellipsis (c ∷ d ∷ s) =
    if c == b':'
    then (if d == b':'
        then (elim ellipsis [ none ↦ group (some i) s | some e ↦ bad ])
        else group ellipsis (d ∷ s))
    else bad

is_none : Option ℕ → Bool
is_none none = true
is_none (some e) = false

-- The dotted tail of an IPv6 address: after six groups, or after fewer if `::` went before.
ipv4_tail : List ℕ → Option ℕ → Text → Option (List ℕ)
unfolding ipv4_fields expand is_none
ipv4_tail out ellipsis s =
    if (is_none ellipsis && not (length out == 12)) || ltb 12 (length out)
    then none
    else (elim (ipv4_fields [] 0 0 s) [ none ↦ none | some ip ↦ expand (out ++ ip) ellipsis [] ])

starts_dot : Text → Bool
starts_dot [] = false
starts_dot (c ∷ s) = c == b'.'

-- The groups of an IPv6 address, `rounds` of them at most.
ipv6_groups : ℕ → List ℕ → Option ℕ → Text → Option (List ℕ)
unfolding expand hex_group ipv4_tail after_group starts_dot
ipv6_groups zero out ellipsis s = expand out ellipsis s
ipv6_groups (suc rounds) out ellipsis s = elim (hex_group 0 0 s) [
  | none ↦ none
  | some (acc, off, rest) ↦
      if off == 0
      then none
      else if starts_dot rest
      then ipv4_tail out ellipsis s
      else (elim (after_group (length out + 2) ellipsis rest) [
        | bad ↦ none
        | ends ↦ expand (out ++ acc / 256 ∷ acc % 256 ∷ []) ellipsis []
        | group e [] ↦ expand (out ++ acc / 256 ∷ acc % 256 ∷ []) e []
        | group e (c ∷ t) ↦ ipv6_groups rounds (out ++ acc / 256 ∷ acc % 256 ∷ []) e (c ∷ t)
      ])
]

-- An address with a zone is refused.
has_zone : Text → Bool
has_zone [] = false
has_zone (c ∷ s) = c == b'%' || has_zone s

parse_ipv6 : Text → Option (List ℕ)
unfolding ipv6_groups has_zone has_prefix str_eq
parse_ipv6 s =
    if has_zone s
    then none
    else if has_prefix s (b':' ∷ b':' ∷ [])
    then (if str_eq s (b':' ∷ b':' ∷ [])
        then some (replicate 16 0)
        else ipv6_groups 8 [] (some 0) (drop 2 s))
    else ipv6_groups 8 [] none s

-- The prefix of an IPv4 address among the sixteen bytes.
abbrev mapped_prefix : List ℕ
mapped_prefix = replicate 10 0 ++ 255 ∷ 255 ∷ []

-- The first byte that tells the notations apart.
kind_from : Text → Text → Option (List ℕ)
unfolding ipv4_fields parse_ipv6
kind_from whole [] = none
kind_from whole (c ∷ s) =
    if c == b'.'
    then Option.map (λ ip. mapped_prefix ++ ip) (ipv4_fields [] 0 0 whole)
    else if c == b':'
    then parse_ipv6 whole
    else if c == b'%'
    then none
    else kind_from whole s

-- `net.ParseIP`
unfoldable pub parse_ip : Text → Option (List ℕ)
unfolding kind_from
parse_ip s = kind_from s s

-- `IP.To4`
unfoldable pub to4 : List ℕ → Option (List ℕ)
unfolding str_eq
to4 ip =
    if length ip == 4
    then some ip
    else if length ip == 16 && str_eq (take 12 ip) mapped_prefix
    then some (drop 12 ip)
    else none
