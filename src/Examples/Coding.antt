-- ===== src/Examples/Coding.antt =====
-- The coding of the examples reads every list of records back.
use coredns_updater_plugin.Base.{
  ℕ, zero, suc, ◌≤◌, ◌≡◌, refl, ap, subst, some, List, [], ◌∷◌, ◌++◌, length, take, drop, arith,
}
use coredns_updater_plugin.Text.{Text}
use coredns_updater_plugin.Record.{Record}
use coredns_updater_plugin.Persist.Restart.{ReadsBack}
use coredns_updater_plugin.Examples.{encode_text, encode_all, decode_all, coding}

take-append : (t s : Text) → take (length t) (t ++ s) ≡ t
take-append [] s = refl
take-append (c ∷ t) s = ap (λ xs. c ∷ xs) (take-append t s)

drop-append : (t s : Text) → drop (length t) (t ++ s) ≡ s
drop-append [] s = refl
drop-append (c ∷ t) s = drop-append t s

decode_all-encode_all :
    (n : ℕ) (recs : List Record) → length recs ≤ n → decode_all n (encode_all recs) ≡ some recs
decode_all-encode_all zero [] h = refl
decode_all-encode_all zero (r ∷ recs) h = absurd (omega arith)
decode_all-encode_all (suc n) [] h = refl
decode_all-encode_all (suc n) (r ∷ recs) h =
    let numbers = r.ttl ∷ r.priority ∷ r.weight ∷ r.port ∷ r.flag ∷ encode_all recs in
    let from_tag = encode_text r.tag ++ numbers in
    let from_value = encode_text r.value ++ from_tag in
    let from_type = encode_text r.type ++ from_value in
    rw
      (
        take-append r.name from_type,
        drop-append r.name from_type,
        take-append r.type from_value,
        drop-append r.type from_value,
        take-append r.value from_tag,
        drop-append r.value from_tag,
        take-append r.tag numbers,
        drop-append r.tag numbers,
        decode_all-encode_all n recs (omega arith),
      )
      refl

length-behind : (t s : Text) → length s ≤ length (t ++ s)
length-behind [] s = omega arith
length-behind (c ∷ t) s = omega (arith, length-behind t s)

length-encode_all : (recs : List Record) → length recs ≤ length (encode_all recs)
length-encode_all [] = omega arith
length-encode_all (r ∷ recs) =
    let numbers = r.ttl ∷ r.priority ∷ r.weight ∷ r.port ∷ r.flag ∷ encode_all recs in
    let from_tag = encode_text r.tag ++ numbers in
    let from_value = encode_text r.value ++ from_tag in
    let from_type = encode_text r.type ++ from_value in
    omega (
      arith,
      length-encode_all recs,
      length-behind r.name from_type,
      length-behind r.type from_value,
      length-behind r.value from_tag,
      length-behind r.tag numbers,
    )

pub coding-ReadsBack : (all : List Record) → ReadsBack coding all
coding-ReadsBack all raw e =
    let same : encode_all all ≡ raw = cc in
    subst (λ t. coding.decode t ≡ some all) same
      (decode_all-encode_all (length (encode_all all)) all (length-encode_all all))
