-- ===== src/World/State.antt =====
-- The state of mp2/world.c, its flags and the small tests that its functions use.
use Prim.Native.String.{String}
use ece_391_fall.Prelude.{
  ℕ, ◌+◌, Option, none, some, List, [], ◌∷◌, Bool, true, false, ◌&&◌, leb, ◌==◌, if◌then◌else◌,
}
use ece_391_fall.Strings.Buffers.{codes}

-- The fields of room_t (`contents` to `view`), of object_t (`object_name` to `image`), the
-- photos' and images' sizes, and the variables of the file.
pub record World : Type 0 where
  pub room_name : ℕ → Option String
  pub view : ℕ → Option ℕ
  pub contents : ℕ → Option ℕ
  pub left : ℕ → Option ℕ
  pub enter : ℕ → Option ℕ
  pub right : ℕ → Option ℕ
  pub object_name : ℕ → Option String
  pub next : ℕ → Option ℕ
  pub loc : ℕ → Option ℕ
  pub x : ℕ → ℕ
  pub y : ℕ → ℕ
  pub image : ℕ → Option ℕ
  pub photo_size : Option ℕ → ℕ × ℕ
  pub image_size : Option ℕ → ℕ × ℕ
  pub player_flags : ℕ → ℕ
  pub swap_photo : ℕ → Option ℕ
  pub random : ℕ → ℕ
  pub status : Option String

-- What a command tells the game to do.
pub data Action : Type 0 where
  allow_edit discard_text redraw_room change_room : Action

-- The value of `*rptr` after a command, none for NULL, with its result and the world.
pub record Outcome : Type 0 where
  pub action : Action
  pub place : Option ℕ
  pub world : World

-- NUM_FLAGS accomplishments.
abbrev pub has_eaten : ℕ
has_eaten = 0

abbrev pub wearing_suit : ℕ
wearing_suit = 1

abbrev pub car_open : ℕ
car_open = 2

abbrev pub car_fixed : ℕ
car_fixed = 3

abbrev pub lured_tux : ℕ
lured_tux = 4

abbrev pub swap_circle : ℕ
swap_circle = 0

abbrev pub swap_car : ℕ
swap_car = 1

-- `p == &room[r]`, and the same for objects.
abbrev pub points_to : Option ℕ → ℕ → Bool
points_to none r = false
points_to (some q) r = q == r

abbrev pub is_null : Option ℕ → Bool
is_null none = true
is_null (some q) = false

-- `object[o].loc == r`.
abbrev pub is_at : World → ℕ → ℕ → Bool
is_at w o r = points_to (w.loc o) r

abbrev pub show_status : String → World → World
show_status s w = record w { status = some s }

-- The next number that rand returns.
abbrev pub rand : World → ℕ
rand w = w.random 0

abbrev pub drawn : World → World
drawn w = record w { random = λ i. w.random (i + 1) }

-- tolower, on a byte.
abbrev pub lower : ℕ → ℕ
lower c = if leb b'A' c && leb c b'Z' then c + 32 else c

-- strcasecmp answers 0.
unfoldable pub same_text : List ℕ → List ℕ → Bool
same_text [] [] = true
same_text [] (d ∷ ds) = false
same_text (c ∷ cs) [] = false
same_text (c ∷ cs) (d ∷ ds) = lower c == lower d && same_text cs ds

-- `0 == strcasecmp (s, arg)` for a literal.
unfoldable pub says : String → List ℕ → Bool
unfolding same_text
says s arg = same_text (codes s) arg
