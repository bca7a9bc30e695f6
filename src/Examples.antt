-- ===== src/Examples.antt =====
-- Concrete surroundings for the examples: ASCII case mapping, a coding of records, a table of types,
-- an operating system whose calls succeed, and a store.
pub mod Stores
pub mod Files
pub mod Queries
pub mod Requests
pub mod Calls
pub mod Cursor
pub mod Corefiles
pub mod Startup
pub mod Serving
pub mod Reloads
pub mod Coding
pub mod Sessions
use mathlib.Core.Option
use coredns_updater_plugin.Base.{
  ℕ, zero, suc, ◌<◌, ◌≡◌, refl, Bool, true, false, ◌&&◌, Option, none, some, List, [], ◌∷◌, ◌++◌,
  map, arith, ◌==◌, if◌then◌else◌, length, take, drop,
}
use coredns_updater_plugin.Text.{Text, lit, Unicode, str_eq, lower_byte, upper_byte, has_suffix}
use coredns_updater_plugin.Record.{Record, Dns}
use coredns_updater_plugin.Store.{Store}
use coredns_updater_plugin.Policy.{policy_sync}
use coredns_updater_plugin.Persist.{Json, Os}

abbrev fold_bytes : Text → Text → Bool
fold_bytes [] [] = true
fold_bytes [] (d ∷ t) = false
fold_bytes (c ∷ s) [] = false
fold_bytes (c ∷ s) (d ∷ t) = lower_byte c == lower_byte d && fold_bytes s t

fold_bytes_refl : (s : Text) → fold_bytes s s ≡ true
fold_bytes_refl [] = refl
fold_bytes_refl (c ∷ s) = ground (arith, fold_bytes_refl s)

fold_bytes_sym : (s t : Text) → fold_bytes s t ≡ true → fold_bytes t s ≡ true
fold_bytes_sym [] [] h = refl
fold_bytes_sym [] (d ∷ t) h = cc
fold_bytes_sym (c ∷ s) [] h = cc
fold_bytes_sym (c ∷ s) (d ∷ t) h = ground (arith, fold_bytes_sym s t)

fold_bytes_trans :
    (s t v : Text) → fold_bytes s t ≡ true → fold_bytes t v ≡ true → fold_bytes s v ≡ true
fold_bytes_trans [] [] v h k = k
fold_bytes_trans [] (d ∷ t) v h k = cc
fold_bytes_trans (c ∷ s) [] v h k = cc
fold_bytes_trans (c ∷ s) (d ∷ t) [] h k = cc
fold_bytes_trans (c ∷ s) (d ∷ t) (e ∷ v) h k = ground (arith, fold_bytes_trans s t v)

-- Bytes that are not ASCII have no case.
instance pub ascii : Unicode
ascii = record {
  lower = map lower_byte;
  upper = map upper_byte;
  fold = fold_bytes;
  fold_refl = fold_bytes_refl;
  fold_sym = fold_bytes_sym;
  fold_trans = fold_bytes_trans;
  fold_short = λ c s. refl;
  fold_ascii = λ c d s t hc hd. refl;
}

-- A coding: each text behind its length, then the numbers.
abbrev pub encode_text : Text → Text
encode_text t = length t ∷ t

abbrev pub encode_all : List Record → Text
encode_all [] = []
encode_all (r ∷ recs) =
    let numbers = r.ttl ∷ r.priority ∷ r.weight ∷ r.port ∷ r.flag ∷ encode_all recs in
    encode_text r.name
    ++ (encode_text r.type ++ (encode_text r.value ++ (encode_text r.tag ++ numbers)))

infixl 20 ◌>>=◌
abbrev pub ◌>>=◌ {ℓ κ} : {A : Type ℓ} {B : Type κ} → Option A → (A → Option B) → Option B
none >>= f = none
some x >>= f = f x

abbrev pub decode_text : Text → Option (Text × Text)
decode_text [] = none
decode_text (n ∷ s) = some (take n s, drop n s)

abbrev pub decode_numbers : Text → Option (List ℕ × Text)
decode_numbers (a ∷ b ∷ c ∷ d ∷ e ∷ rest) = some (a ∷ b ∷ c ∷ d ∷ e ∷ [], rest)
decode_numbers _ = none

abbrev pub record_of : Text → Text → Text → Text → List ℕ → Record
record_of name type value tag (a ∷ b ∷ c ∷ d ∷ e ∷ _) = record {
  name = name;
  type = type;
  ttl = a;
  value = value;
  priority = b;
  weight = c;
  port = d;
  flag = e;
  tag = tag;
}
record_of name type value tag _ = record {
  name = name;
  type = type;
  ttl = 0;
  value = value;
  priority = 0;
  weight = 0;
  port = 0;
  flag = 0;
  tag = tag;
}

abbrev pub decode_all : ℕ → Text → Option (List Record)
decode_all zero s = if length s == 0 then some [] else none
decode_all (suc rounds) [] = some []
decode_all (suc rounds) (c ∷ s) = do
  (name, s1) ← decode_text (c ∷ s)
  (type, s2) ← decode_text s1
  (value, s3) ← decode_text s2
  (tag, s4) ← decode_text s3
  (numbers, s5) ← decode_numbers s4
  rest ← decode_all rounds s5
  some (record_of name type value tag numbers ∷ rest)

abbrev pub coding : Json
coding = record { encode = λ recs. some (encode_all recs); decode = λ s. decode_all (length s) s }

abbrev type_number : Text → ℕ
type_number t =
    if str_eq t (lit "A")
    then 1
    else if str_eq t (lit "NS")
    then 2
    else if str_eq t (lit "CNAME")
    then 5
    else if str_eq t (lit "PTR")
    then 12
    else if str_eq t (lit "MX")
    then 15
    else if str_eq t (lit "TXT")
    then 16
    else if str_eq t (lit "AAAA")
    then 28
    else if str_eq t (lit "SRV")
    then 33
    else if str_eq t (lit "CAA")
    then 257
    else 0

abbrev type_name : ℕ → Text
type_name n =
    if n == 1 then lit "A" else if n == 5 then lit "CNAME" else if n == 28 then lit "AAAA" else []

abbrev pub types : Dns
types = record {
  is_domain_name = λ s. true;
  is_fqdn = λ s. has_suffix s (lit ".");
  string_to_type = type_number;
  type_to_string = type_name;
}

-- Every call succeeds, at time 100.
abbrev pub smooth : Os
smooth = record {
  temp = some (lit "/tmp/f");
  written = 0;
  write_ok = true;
  close_ok = true;
  rename_ok = true;
  remove_ok = true;
  stat_ok = true;
  now = 100;
}

abbrev pub host : Text → Text → Text → Record
host name type value = record {
  name = name;
  type = type;
  ttl = 300;
  value = value;
  priority = 0;
  weight = 0;
  port = 0;
  flag = 0;
  tag = [];
}

abbrev pub web : Record
web = host (lit "Web.example.") (lit "A") (lit "192.0.2.1")

abbrev pub alias : Record
alias = host (lit "www.example.") (lit "CNAME") (lit "web.example.")

-- A store right after its start on the file "/f", with a limit of three records.
abbrev pub fresh : Store
fresh = record {
  records = [];
  file_path = lit "/f";
  reload = 30;
  last_mod = 50;
  stopped = false;
  ready = true;
  max_records = 3;
  sync_policy = policy_sync;
  generation = 0;
  persisted = 0;
}
