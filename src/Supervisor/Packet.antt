-- ===== src/Supervisor/Packet.antt =====
-- The RoboCup GameController packet and its parser
-- (mujoco/module/Supervisor/src/GameControllerPacket.hpp). The struct is packed and is filled by
-- `memcpy`, so a field holds whatever byte stands at its offset: the enumerations are bytes, with
-- their named values below. The 16-bit fields are little endian; the two signed ones
-- (`secs_remaining`, `secondary_time`) are kept as their bit patterns.
pub mod State
pub mod Layout
pub mod RoundTrip
use nusim.Base.{
  ℕ, zero, suc, ◌+◌, ◌*◌, Bool, true, false, not, ◌&&◌, ◌||◌, Option, none, some, List, [], ◌∷◌,
  ltb, ◌==◌, if◌then◌else◌, get_or,
}

abbrev pub max_num_players : ℕ
max_num_players = 20

-- 'R', 'G', 'm', 'e'
abbrev pub receive_header : List ℕ
receive_header = 82 ∷ 71 ∷ 109 ∷ 101 ∷ []

abbrev pub supported_version : ℕ
supported_version = 20

-- The state before any packet: no real state equals it.
abbrev pub unknown_state : ℕ
unknown_state = 255

abbrev pub unpenalised : ℕ
unpenalised = 0

pub record Robot : Type 0 where
  pub penalty_state : ℕ
  pub penalised_time_left : ℕ
  pub cautions : ℕ

pub record Team : Type 0 where
  pub team_id : ℕ
  pub field_player_colour : ℕ
  pub goalkeeper_colour : ℕ
  pub goalkeeper : ℕ
  pub score : ℕ
  pub penalty_shot : ℕ
  pub single_shots : ℕ
  pub message_budget : ℕ
  pub players : List Robot

pub record GameControllerPacket : Type 0 where
  pub header : List ℕ
  pub version : ℕ
  pub packet_number : ℕ
  pub players_per_team : ℕ
  pub competition_type : ℕ
  pub stopped : ℕ
  pub game_phase : ℕ
  pub state : ℕ
  pub set_play : ℕ
  pub first_half : ℕ
  pub kicking_team : ℕ
  pub secs_remaining : ℕ
  pub secondary_time : ℕ
  pub team0 : Team
  pub team1 : Team

abbrev pub teams : GameControllerPacket → List Team
teams p = p.team0 ∷ p.team1 ∷ []

abbrev pub robot_size : ℕ
robot_size = 3

-- Ten bytes, then the players.
abbrev pub team_size : ℕ
team_size = 10 + robot_size * max_num_players

-- sizeof(GameControllerPacket): eighteen bytes, then two teams.
abbrev pub packet_size : ℕ
packet_size = 18 + team_size * 2

abbrev pub byte : List ℕ → ℕ → ℕ
byte data_ i = get_or data_ i 0

abbrev pub word : List ℕ → ℕ → ℕ
word data_ i = byte data_ i + 256 * byte data_ (1 + i)

-- A robot at an offset of the payload.
unfoldable pub robot_at : List ℕ → ℕ → Robot
robot_at b o = record {
  penalty_state = byte b o;
  penalised_time_left = byte b (1 + o);
  cautions = byte b (2 + o);
}

-- An array of robots from an offset on.
unfoldable pub robots_at : List ℕ → ℕ → ℕ → List Robot
unfolding robot_at
robots_at b o zero = []
robots_at b o (suc n) = robot_at b o ∷ robots_at b (robot_size + o) n

unfoldable pub team_at : List ℕ → ℕ → Team
team_at b o = record {
  team_id = byte b o;
  field_player_colour = byte b (1 + o);
  goalkeeper_colour = byte b (2 + o);
  goalkeeper = byte b (3 + o);
  score = byte b (4 + o);
  penalty_shot = byte b (5 + o);
  single_shots = word b (6 + o);
  message_budget = word b (8 + o);
  players = robots_at b (10 + o) max_num_players;
}

-- memcpy(&packet, data, sizeof(GameControllerPacket))
unfoldable pub packet_at : List ℕ → GameControllerPacket
packet_at b = record {
  header = byte b 0 ∷ byte b 1 ∷ byte b 2 ∷ byte b 3 ∷ [];
  version = byte b 4;
  packet_number = byte b 5;
  players_per_team = byte b 6;
  competition_type = byte b 7;
  stopped = byte b 8;
  game_phase = byte b 9;
  state = byte b 10;
  set_play = byte b 11;
  first_half = byte b 12;
  kicking_team = byte b 13;
  secs_remaining = word b 14;
  secondary_time = word b 16;
  team0 = team_at b 18;
  team1 = team_at b (18 + team_size);
}

abbrev pub equal_bytes : List ℕ → List ℕ → Bool
equal_bytes [] [] = true
equal_bytes [] (y ∷ ys) = false
equal_bytes (x ∷ xs) [] = false
equal_bytes (x ∷ xs) (y ∷ ys) = x == y && equal_bytes xs ys

-- `none` is a null pointer. The last argument is `out`; the result is `out` afterwards and what
-- the function returns.
unfoldable pub try_parse : Option (List ℕ) → ℕ → GameControllerPacket → GameControllerPacket × Bool
try_parse none len out = (out, false)
try_parse (some b) len out =
    if ltb len packet_size
    then (out, false)
    else let packet = packet_at b in
      if not (equal_bytes packet.header receive_header) || not (packet.version == supported_version)
      then (out, false)
      else (packet, true)
