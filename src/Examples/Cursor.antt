-- ===== src/Examples/Cursor.antt =====
-- A cursor over tokens with their lines, after the dispenser of Caddy.
use coredns_updater_plugin.Base.{
  ℕ, ◌+◌, ◌≤◌, Bool, true, false, not, ◌&&◌, ◌||◌, List, [], ◌∷◌, List-cases, inl, inr, ◌==◌, ltb,
  length, if◌then◌else◌, arith,
}
use coredns_updater_plugin.Text.{Text, lit, str_eq}
use coredns_updater_plugin.Setup.Tokens.{Controller, Loads}

abbrev pub Tokens : Type 0
Tokens = List (ℕ × Text)

-- The token loaded last, with its line; line 0 is before all.
pub record Cursor : Type 0 where
  pub at : ℕ × Text
  pub rest : Tokens
  pub open_blocks : ℕ

abbrev load : Cursor → Bool × Cursor
load c = elim c.rest [ [] ↦ (false, c) | t ∷ ts ↦ (true, record c { at = t; rest = ts }) ]

-- A token on the same line, or the first of all.
abbrev load_arg : Cursor → Bool × Cursor
load_arg c = elim c.rest [
  | [] ↦ (false, c)
  | t ∷ ts ↦
      if c.at.0 == 0 || c.at.0 == t.0 then (true, record c { at = t; rest = ts }) else (false, c)
]

-- A token of a block, up to the brace that closes it.
abbrev load_inner : Cursor → Bool × Cursor
load_inner c =
    let (more, c') = load c in
    if more && not (str_eq c'.at.1 (lit "}"))
    then (true, c')
    else (false, record c' { open_blocks = 0 })

abbrev load_block : Cursor → Bool × Cursor
load_block c =
    let (more, c') = load_arg c in
    if ltb 0 c.open_blocks
    then load_inner c
    else if more && str_eq c'.at.1 (lit "{")
    then load_inner (record c' { open_blocks = 1 })
    else (false, c)

-- The arguments from a line on, and what is behind them.
abbrev args_of : ℕ → Tokens → List Text × Tokens
args_of line [] = ([], [])
args_of line (t ∷ ts) =
    let rest = args_of line ts in
    if line == t.0 && not (str_eq t.1 (lit "{")) then (t.1 ∷ rest.0, rest.1) else ([], t ∷ ts)

abbrev load_args : Cursor → List Text × Cursor
load_args c = let (args, ts) = args_of c.at.0 c.rest in (args, record c { rest = ts })

abbrev pub dispenser : List Text → Controller Cursor
dispenser keys = record {
  next = load;
  next_arg = load_arg;
  next_block = load_block;
  val = λ c. c.at.1;
  remaining_args = load_args;
  server_block_keys = keys;
}

pub load_left :
    (c : Cursor) → length (load c).1.rest + (if (load c).0 then 1 else 0) ≤ length c.rest
load_left c = elim (List-cases c.rest) [
  | inl none_left ↦ ground arith
  | inr (t, ts, some_left) ↦ ground arith
]

pub load_arg_left :
    (c : Cursor) → length (load_arg c).1.rest + (if (load_arg c).0 then 1 else 0) ≤ length c.rest
load_arg_left c = elim (List-cases c.rest) [
  | inl none_left ↦ ground arith
  | inr (t, ts, some_left) ↦ ground arith
]

load_inner_left :
    (c : Cursor)
    → length (load_inner c).1.rest + (if (load_inner c).0 then 1 else 0) ≤ length c.rest
load_inner_left c = ground (arith, load_left c)

pub load_block_left :
    (c : Cursor)
    → length (load_block c).1.rest + (if (load_block c).0 then 1 else 0) ≤ length c.rest
load_block_left c = ground (
  arith,
  load_inner_left c,
  load_arg_left c,
  load_inner_left (record (load_arg c).1 { open_blocks = 1 }),
)

pub args_of_left : (line : ℕ) (ts : Tokens) → length (args_of line ts).1 ≤ length ts
args_of_left line [] = omega arith
args_of_left line (t ∷ ts) = ground (arith, args_of_left line ts)

abbrev pub dispenser_loads : (keys : List Text) → Loads (dispenser keys)
dispenser_loads keys = record {
  left = λ c. length c.rest;
  next_left = load_left;
  next_arg_left = load_arg_left;
  next_block_left = load_block_left;
  remaining_args_left = λ c. args_of_left c.at.0 c.rest;
}
