-- ===== src/Setup/Numbers.antt =====
-- `strconv.Atoi`, which reads `max_records`: digits behind an optional sign, in the range of an
-- `int` of 64 bits.
use coredns_updater_plugin.Base.{
  ℕ, ◌+◌, ◌-◌, ◌*◌, ◌^◌, ◌≤◌, ◌<◌, ◌≡◌, Bool, true, false, ◌&&◌, Option, none, some, [], ◌∷◌, leb,
  ltb, ◌==◌, if◌then◌else◌, arith, Option-cases, inl, inr,
}
use coredns_updater_plugin.Text.{Text, is_empty}

digits : ℕ → Text → Option ℕ
digits n [] = some n
digits n (c ∷ s) = if leb b'0' c && leb c b'9' then digits (n * 10 + (c - b'0')) s else none

-- At least one digit.
number : Text → Option ℕ
unfolding digits
number s = if is_empty s then none else digits 0 s

-- The sign, and the magnitude.
in_range : Bool → Option ℕ → Option (Bool × ℕ)
in_range negative none = none
in_range true (some n) = if leb n (2 ^ 63) then some (true, n) else none
in_range false (some n) = if ltb n (2 ^ 63) then some (false, n) else none

pub atoi : Text → Option (Bool × ℕ)
unfolding number in_range
atoi [] = none
atoi (c ∷ s) =
    if c == b'-'
    then in_range true (number s)
    else if c == b'+'
    then in_range false (number s)
    else in_range false (number (c ∷ s))

-- The test of `max_records`: no error and not below zero.
unfoldable pub non_negative : Text → Option ℕ
unfolding atoi
non_negative s = elim (atoi s) [
  | none ↦ none
  | some p ↦ if p.0 && ltb 0 p.1 then none else some p.1
]

in_range-bound :
    (negative : Bool) (o : Option ℕ) (p : Bool × ℕ)
    → in_range negative o ≡ some p
    → (p.1 ≤ 2 ^ 63) × (p.0 ≡ false → p.1 < 2 ^ 63)
unfolding in_range
in_range-bound negative none p h = cc
in_range-bound true (some n) p h = ground arith
in_range-bound false (some n) p h = ground arith

atoi-bound : (s : Text) (p : Bool × ℕ) → atoi s ≡ some p → p.0 ≡ false → p.1 < 2 ^ 63
unfolding atoi
atoi-bound [] p h positive = cc
atoi-bound (c ∷ s) p h positive = ground (
  arith,
  in_range-bound true (number s) p,
  in_range-bound false (number s) p,
  in_range-bound false (number (c ∷ s)) p,
)

-- What passes the test fits an `int`.
pub non_negative-bound : (s : Text) (n : ℕ) → non_negative s ≡ some n → n < 2 ^ 63
unfolding non_negative
non_negative-bound s n h = elim (Option-cases (atoi s)) [
  | inl bad ↦ ground arith
  | inr (p, read) ↦ ground (arith, atoi-bound s p read)
]
