-- ===== src/Text.antt =====
-- Go strings, as lists of bytes, and the functions of the package `strings` that the source calls.
-- ASCII text takes the paths written out here; what `strings` leaves to the tables of the package
-- `unicode` is the interface `Unicode`.
pub mod Fold
use Prim.Native.Char.{code}
use coredns_updater_plugin.Base.{
  ℕ, ◌+◌, ◌-◌, ◌<◌, String, ◌≡◌, Bool, true, false, ◌&&◌, ◌||◌, List, [], ◌∷◌, map, ltb, leb, ◌==◌,
  if◌then◌else◌, length, drop,
}

abbrev pub Text : Type 0
Text = List ℕ

-- The bytes of an ASCII literal.
abbrev pub lit : String → Text
lit String.[] = []
lit (String.◌∷◌ c s) = code c ∷ lit s

unfoldable pub str_eq : Text → Text → Bool
str_eq [] [] = true
str_eq [] (d ∷ t) = false
str_eq (c ∷ s) [] = false
str_eq (c ∷ s) (d ∷ t) = c == d && str_eq s t

unfoldable pub is_empty : Text → Bool
is_empty [] = true
is_empty (c ∷ s) = false

pub lower_byte : ℕ → ℕ
lower_byte c = if leb b'A' c && leb c b'Z' then c + 32 else c

pub upper_byte : ℕ → ℕ
upper_byte c = if leb b'a' c && leb c b'z' then c - 32 else c

pub is_ascii : Text → Bool
is_ascii [] = true
is_ascii (c ∷ s) = ltb c 128 && is_ascii s

-- What `strings` does on text that is not ASCII: case mapping, and equality of the decoded runes
-- under simple case folding, which is an equivalence and goes byte by byte on ASCII.
pub record Unicode : Type 0 where
  pub lower : Text → Text
  pub upper : Text → Text
  pub fold : Text → Text → Bool
  pub fold_refl : (s : Text) → fold s s ≡ true
  pub fold_sym : (s t : Text) → fold s t ≡ true → fold t s ≡ true
  pub fold_trans : (s t v : Text) → fold s t ≡ true → fold t v ≡ true → fold s v ≡ true
  pub fold_short : (c : ℕ) (s : Text) → fold (c ∷ s) [] ≡ false
  pub fold_ascii :
      (c d : ℕ) (s t : Text)
      → c < 128
      → d < 128
      → fold (c ∷ s) (d ∷ t) ≡ (lower_byte c == lower_byte d && fold s t)

-- `strings.HasPrefix`, `strings.TrimPrefix`, `strings.HasSuffix`, `strings.Contains`
unfoldable pub has_prefix : Text → Text → Bool
has_prefix s [] = true
has_prefix [] (d ∷ p) = false
has_prefix (c ∷ s) (d ∷ p) = c == d && has_prefix s p

unfoldable pub contains : Text → Text → Bool
unfolding has_prefix
contains [] p = has_prefix [] p
contains (c ∷ s) p = has_prefix (c ∷ s) p || contains s p

unfoldable pub has_suffix : Text → Text → Bool
unfolding str_eq
has_suffix [] p = str_eq [] p
has_suffix (c ∷ s) p = str_eq (c ∷ s) p || has_suffix s p

-- `strings.TrimPrefix`
unfoldable pub trim_prefix : Text → Text → Text
unfolding has_prefix
trim_prefix s p = if has_prefix s p then drop (length p) s else s

-- A Go map of type `map[string]bool` that holds `true` at the listed keys.
unfoldable pub is_member : Text → List Text → Bool
unfolding str_eq
is_member s [] = false
is_member s (t ∷ ts) = str_eq s t || is_member s ts

module _ ⦃u : Unicode⦄ where
  -- `strings.ToLower` and `strings.ToUpper`
  unfoldable pub to_lower : Text → Text
  unfolding is_ascii lower_byte
  to_lower s = if is_ascii s then map lower_byte s else u.lower s

  unfoldable pub to_upper : Text → Text
  unfolding is_ascii upper_byte
  to_upper s = if is_ascii s then map upper_byte s else u.upper s

  -- `strings.EqualFold`: bytes are compared up to the first that is not ASCII on either side.
  unfoldable pub equal_fold : Text → Text → Bool
  unfolding lower_byte
  equal_fold [] [] = true
  equal_fold [] (d ∷ t) = false
  equal_fold (c ∷ s) [] = false
  equal_fold (c ∷ s) (d ∷ t) =
      if leb 128 c || leb 128 d
      then u.fold (c ∷ s) (d ∷ t)
      else lower_byte c == lower_byte d && equal_fold s t
