-- ===== src/Record/Txt.antt =====
-- TXT values are split into chunks that join to the value, each of at most 255 bytes.
use mathlib.Core.List.{flatten, append-nil}
use coredns_updater_plugin.Base.{
  ℕ, zero, suc, ◌≤◌, ◌≡◌, refl, Bool-cases, inl, inr, [], ◌∷◌, arith, leb, length, drop, All,
}
use coredns_updater_plugin.Base.{take-append-drop, length-take, length-drop}
use coredns_updater_plugin.Text.{Text}
use coredns_updater_plugin.Record.{txt_chunk, chunks, split_txt}

chunks-length : (rounds : ℕ) (s : Text) → All (λ c. length c ≤ txt_chunk) (chunks rounds s)
unfolding chunks
chunks-length zero s = tt
chunks-length (suc rounds) [] = tt
chunks-length (suc rounds) (c ∷ s) =
    (omega (arith, length-take txt_chunk (c ∷ s)), chunks-length rounds (drop txt_chunk (c ∷ s)))

-- Enough rounds: one for each byte of the text.
flatten-chunks : (rounds : ℕ) (s : Text) → length s ≤ rounds → flatten (chunks rounds s) ≡ s
unfolding chunks flatten
flatten-chunks zero [] h = refl
flatten-chunks zero (c ∷ s) h = absurd (omega arith)
flatten-chunks (suc rounds) [] h = refl
flatten-chunks (suc rounds) (c ∷ s) h =
    rw
      (flatten-chunks rounds (drop txt_chunk (c ∷ s))
        (omega (arith, length-drop txt_chunk (c ∷ s))))
      (take-append-drop txt_chunk (c ∷ s))

-- The chunks of a TXT value join to the value, in order and with nothing lost, and none is longer
-- than 255 bytes.
pub flatten-split_txt :
    (s : Text) → (flatten (split_txt s) ≡ s) × All (λ c. length c ≤ txt_chunk) (split_txt s)
unfolding split_txt flatten
flatten-split_txt s = elim (Bool-cases (leb (length s) txt_chunk)) [
  | inl h ↦ rw h (append-nil s, (ground arith, tt))
  | inr h ↦ rw h (flatten-chunks (length s) s (omega arith), chunks-length (length s) s)
]
