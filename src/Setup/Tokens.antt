-- ===== src/Setup/Tokens.antt =====
-- The cursor over the tokens of a Corefile, `caddy.Controller`. What the package relies on is that
-- an operation that loads a token moves on, so that fewer are left.
use coredns_updater_plugin.Base.{ℕ, ◌+◌, ◌≤◌, Bool, List, if◌then◌else◌}
use coredns_updater_plugin.Text.{Text}

pub record Controller (C : Type 0) : Type 0 where
  -- `Next`, `NextArg` and `NextBlock`: whether a token was loaded
  pub next : C → Bool × C
  pub next_arg : C → Bool × C
  pub next_block : C → Bool × C
  -- `Val`: the token that was loaded last
  pub val : C → Text
  pub remaining_args : C → List Text × C
  -- `ServerBlockKeys`
  pub server_block_keys : List Text

-- The tokens that are left: one less after each that is loaded. The tokens of a directive end where
-- its block is closed, so `NextBlock` ends with them.
pub record Loads {C : Type 0} (k : Controller C) : Type 0 where
  pub left : C → ℕ
  pub next_left : (c : C) → left (k.next c).1 + (if (k.next c).0 then 1 else 0) ≤ left c
  pub next_arg_left : (c : C) → left (k.next_arg c).1 + (if (k.next_arg c).0 then 1 else 0) ≤ left c
  pub next_block_left :
      (c : C) → left (k.next_block c).1 + (if (k.next_block c).0 then 1 else 0) ≤ left c
  pub remaining_args_left : (c : C) → left (k.remaining_args c).1 ≤ left c
