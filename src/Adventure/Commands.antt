-- ===== src/Adventure/Commands.antt =====
-- The list of the typed commands of mp2/adventure.c, and how a typed line is read.
use Prim.Native.String.{String}
use ece_391_fall.Prelude.{
  ℕ, zero, suc, Option, none, some, List, [], ◌∷◌, Bool, true, false, ◌&&◌, leb, ◌==◌,
  if◌then◌else◌,
}
use ece_391_fall.Strings.Buffers.{codes}
use ece_391_fall.World.{lower}
use ece_391_fall.World.Devices.{
  Deed, buy, charge, do_it, drink, drop, fix, flash, get, go, install, show_inventory, sigh, use_it,
  wear,
}

pub record TypedCmd : Type 0 where
  pub name : String
  pub min_len : ℕ
  pub deed : Deed

abbrev verb : String → ℕ → Deed → TypedCmd
verb name min_len deed = record { name = name; min_len = min_len; deed = deed }

abbrev pub cmd_list : List TypedCmd
cmd_list =
    verb "buy" 3 buy
    ∷ verb "charge" 2 charge
    ∷ verb "do" 2 do_it
    ∷ verb "drink" 3 drink
    ∷ verb "drop" 2 drop
    ∷ verb "fix" 3 fix
    ∷ verb "flash" 5 flash
    ∷ verb "get" 1 get
    ∷ verb "go" 2 go
    ∷ verb "grab" 2 get
    ∷ verb "install" 3 install
    ∷ verb "inventory" 1 show_inventory
    ∷ verb "sigh" 4 sigh
    ∷ verb "use" 3 use_it
    ∷ verb "wear" 4 wear
    ∷ []

unfoldable pub strip_spaces : List ℕ → List ℕ
strip_spaces [] = []
strip_spaces (c ∷ cs) = if c == b' ' then strip_spaces cs else c ∷ cs

-- `cmd_len`.
unfoldable pub verb_length : List ℕ → ℕ
verb_length [] = 0
verb_length (c ∷ cs) = if c == b' ' then 0 else suc (verb_length cs)

unfoldable pub behind : ℕ → List ℕ → List ℕ
behind zero cs = cs
behind (suc k) [] = []
behind (suc k) (c ∷ cs) = behind k cs

-- `0 == strncasecmp (name, cmd, n)`.
unfoldable pub same_prefix : List ℕ → List ℕ → ℕ → Bool
same_prefix name cmd zero = true
same_prefix [] [] (suc n) = true
same_prefix [] (d ∷ ds) (suc n) = false
same_prefix (c ∷ cs) [] (suc n) = false
same_prefix (c ∷ cs) (d ∷ ds) (suc n) = lower c == lower d && same_prefix cs ds n

-- The entry takes the typed verb.
unfoldable pub matches : TypedCmd → List ℕ → ℕ → Bool
unfolding same_prefix
matches t cmd cmd_len = leb t.min_len cmd_len && same_prefix (codes t.name) cmd cmd_len

unfoldable pub find_command : List TypedCmd → List ℕ → ℕ → Option Deed
unfolding matches
find_command [] cmd cmd_len = none
find_command (t ∷ ts) cmd cmd_len =
    if matches t cmd cmd_len then some t.deed else find_command ts cmd cmd_len
