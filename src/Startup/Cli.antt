-- ===== src/Startup/Cli.antt =====
-- The command line (mujoco/shared/CliOptions.hpp). The messages that are printed are left out.
-- `std::stoi` and `std::stod` are parameters; `none` is an exception of theirs.
pub mod Valid
pub mod Rejected
use nusim.Base.{
  Bool, true, false, ◌&&◌, ◌||◌, not, Option, none, some, List, [], ◌∷◌, if◌then◌else◌, ℤ, pos,
  negsuc, ltb_ℤ, ◌==ℤ◌,
}
use Prim.Native.String.{String}
use text.Mathlib.Text.{◌==◌ as str_eq}
use nusim.Double.{Double}

pub record CliOptions (D : Type 0) : Type 0 where
  pub headless : Bool
  pub field : String
  pub game : ℤ
  pub on_field_positions : Bool
  pub config_dir : String
  pub keyframe : String
  pub rtf : D
  pub robots : ℤ

-- How a call ends: with a value, by `std::exit` with a status, or by an exception.
pub data Outcome {ℓ} (A : Type ℓ) : Type ℓ where
  returned : A → Outcome A
  exited : ℤ → Outcome A
  thrown : Outcome A

infixl 5 ◌>>=◌
abbrev pub ◌>>=◌ {ℓ κ} : {A : Type ℓ} {B : Type κ} → Outcome A → (A → Outcome B) → Outcome B
returned a >>= g = g a
exited c >>= g = exited c
thrown >>= g = thrown

abbrev pub failure : ℤ
failure = pos 1

abbrev pub max_robots : ℤ
max_robots = pos 20

abbrev pub max_game_size : ℤ
max_game_size = pos 11

-- std::stoi and std::stod
pub record Numbers (D : Type 0) : Type 0 where
  pub stoi : String → Option ℤ
  pub stod : String → Option D

-- The variables of `parse_cli` before an argument is read.
pub record Parsed (D : Type 0) : Type 0 where
  pub opts : CliOptions D
  pub robots_given : Bool

abbrev pub out_of_range : ℤ → ℤ → Bool
out_of_range hi n = ltb_ℤ n (pos 1) || ltb_ℤ hi n

-- `value`: the argument that follows.
unfoldable pub value : Option String → Outcome String
value none = exited failure
value (some v) = returned v

abbrev pub or_throw {ℓ} : {A : Type ℓ} → Option A → Outcome A
or_throw none = thrown
or_throw (some a) = returned a

module _ {D : Type 0} ⦃f : Double D⦄ where
  unfoldable pub default_options : CliOptions D
  default_options = record {
    headless = false;
    field = "";
    game = pos 0;
    on_field_positions = false;
    config_dir = "";
    keyframe = "";
    rtf = f.dec (negsuc 0) 0;
    robots = pos 1;
  }

  -- What the branch of an argument does; the flag says that it has read the next one as well.
  unfoldable pub read_field : Option String → Parsed D → Outcome (Parsed D × Bool)
  unfolding value
  read_field next s = do
    v ← value next
    returned (record s { opts = record (s.opts) { field = v } }, true)

  unfoldable pub read_game : Numbers D → Option String → Parsed D → Outcome (Parsed D × Bool)
  unfolding value
  read_game nums next s = do
    v ← value next
    n ← or_throw (nums.stoi v)
    if out_of_range max_game_size n
        then exited failure
        else returned (record s { opts = record (s.opts) { game = n } }, true)

  unfoldable pub read_config_dir : Option String → Parsed D → Outcome (Parsed D × Bool)
  unfolding value
  read_config_dir next s = do
    v ← value next
    returned (record s { opts = record (s.opts) { config_dir = v } }, true)

  unfoldable pub read_keyframe : Option String → Parsed D → Outcome (Parsed D × Bool)
  unfolding value
  read_keyframe next s = do
    v ← value next
    returned (record s { opts = record (s.opts) { keyframe = v } }, true)

  unfoldable pub read_rtf : Numbers D → Option String → Parsed D → Outcome (Parsed D × Bool)
  unfolding value
  read_rtf nums next s = do
    v ← value next
    x ← or_throw (nums.stod v)
    returned (record s { opts = record (s.opts) { rtf = x } }, true)

  unfoldable pub read_robots : Numbers D → Option String → Parsed D → Outcome (Parsed D × Bool)
  unfolding value
  read_robots nums next s = do
    v ← value next
    n ← or_throw (nums.stoi v)
    if out_of_range max_robots n
        then exited failure
        else returned
            (record s { opts = record (s.opts) { robots = n }; robots_given = true }, true)

  -- One round of the loop: the argument, and the one after it if there is one.
  unfoldable pub read_arg :
      Numbers D → String → Option String → Parsed D → Outcome (Parsed D × Bool)
  unfolding read_field read_game read_config_dir read_keyframe read_rtf read_robots
  read_arg nums arg next s =
      if str_eq arg "--headless"
      then returned (record s { opts = record (s.opts) { headless = true } }, false)
      else if str_eq arg "--field"
      then read_field next s
      else if str_eq arg "--game"
      then read_game nums next s
      else if str_eq arg "--on-field-positions"
      then returned (record s { opts = record (s.opts) { on_field_positions = true } }, false)
      else if str_eq arg "--config-dir"
      then read_config_dir next s
      else if str_eq arg "--keyframe"
      then read_keyframe next s
      else if str_eq arg "--rtf"
      then read_rtf nums next s
      else if str_eq arg "--robots"
      then read_robots nums next s
      else if str_eq arg "--help" || str_eq arg "-h"
      then exited (pos 0)
      else exited failure

  -- The loop over the arguments, the program's name left out.
  unfoldable pub read_args : Numbers D → List String → Parsed D → Outcome (Parsed D)
  unfolding read_arg
  read_args nums [] s = returned s
  read_args nums (arg ∷ []) s = read_arg nums arg none s >>= λ (r : Parsed D × Bool). returned r.0
  read_args nums (arg ∷ v ∷ rest) s = read_arg nums arg (some v) s >>= λ (r : Parsed D × Bool).
      (let past_value = read_args nums rest r.0 in
        let past_flag = read_args nums (v ∷ rest) r.0 in if r.1 then past_value else past_flag)

  -- The checks after the loop.
  unfoldable pub check_options : Parsed D → Outcome (CliOptions D)
  check_options s =
      let game_given = ltb_ℤ (pos 0) s.opts.game in
      if game_given && (not (str_eq s.opts.field "") || s.robots_given)
      then exited failure
      else if s.opts.on_field_positions && s.opts.game ==ℤ pos 0
      then exited failure
      else returned s.opts

  unfoldable pub parse_cli : Numbers D → List String → Outcome (CliOptions D)
  unfolding read_args check_options default_options
  parse_cli nums args =
      read_args nums args (record { opts = default_options; robots_given = false })
      >>= check_options
