-- ===== src/Tests/Sdk.antt =====
-- The SDK bridge's theorems on a toy JSON library: a text is a value as it stands, an object with
-- one key, its first byte, and the number that the second byte is.
use nusim.Base.{
  ℕ, zero, ◌+◌, ◌≡◌, Bool, true, false, ◌&&◌, Option, none, some, List, [], ◌∷◌, ◌==◌,
  if◌then◌else◌, All, ℤ, pos, negsuc,
}
use Prim.Native.String.{String}
use text.Mathlib.Text.{◌==◌ as str_eq}
use nusim.Double.Fixed.{fixed}
use nusim.Message.{Message, mode_change_request, walk_command, default_walk}
use nusim.Sdk.Json.{Json}
use nusim.Sdk.Dispatch.{parse_or_empty}
use nusim.Sdk.Dispatch.Outcomes.{IsTyped, IsTypedBody}
use nusim.Sdk.Server.{
  Request, LowCmdSample, DataReader, rpc_req_reader, joint_ctrl_reader, other_reader, on_all,
}
use nusim.Sdk.Server.Replies.{replied, IsTypedRequest}
use nusim.Sdk.Server.Callbacks.{commanded, all_asked, all_commands, on_all-served}
use nusim.Locomotion.Controller.{fresh, post_all}
use nusim.Locomotion.Reactor.{Locomotion, react_all}
use nusim.Locomotion.Reactor.Ignored.{setters, react_all-post_all}
use nusim.Tests.Locomotion.{loco}

-- 97 is the key "api_id", 109 the key "mode"; a number of 0 stands for a value that is no number.
abbrev has_key : List ℕ → String → Bool
has_key [] key = false
has_key (k ∷ v) key = if str_eq key "api_id" then k == 97 else str_eq key "mode" && (k == 109)

abbrev number : List ℕ → Option ℤ
number (k ∷ zero ∷ rest) = none
number (k ∷ v ∷ rest) = some (pos (1900 + v))
number _ = none

abbrev pub toy : Json ℤ (List ℕ)
toy = record {
  parse = λ text. some text;
  object = [];
  contains = has_key;
  get_int64 = λ v key. number v;
  get_int = λ v key. number v;
  get_double = λ v key. none;
  get_bool = λ v key. none;
  dump = λ key n. [];
}

-- {"api_id": 2000} and an empty body.
abbrev change_mode_header : List ℕ
change_mode_header = 97 ∷ 100 ∷ []

typed_header : IsTyped toy toy.get_int64 (parse_or_empty toy change_mode_header) "api_id"
unfolding parse_or_empty
typed_header h e = cc

pub typed_body : IsTypedBody toy (parse_or_empty toy [])
unfolding parse_or_empty
typed_body = record {
  mode = λ h e. cc;
  vx = λ h e. cc;
  vy = λ h e. cc;
  vyaw = λ h e. cc;
  pitch = λ h e. cc;
  yaw = λ h e. cc;
  start = λ h e. cc;
  version = λ h e. cc;
}

abbrev request : ℕ → Bool → Request
request id carries = record {
  valid_data = carries;
  uuid = id ∷ [];
  header = change_mode_header;
  body = [];
  current_mode = pos 1;
}

typed_requests : All (IsTypedRequest toy) (request 5 true ∷ request 6 false ∷ request 7 true ∷ [])
typed_requests =
    ((typed_header, typed_body), ((typed_header, typed_body), ((typed_header, typed_body), tt)))

abbrev sample : LowCmdSample ℤ
sample = record { valid_data = true; cmd_type = pos 1; motor_cmd = [] }

abbrev callbacks : List (DataReader ℤ)
callbacks =
    rpc_req_reader (request 5 true ∷ request 6 false ∷ request 7 true ∷ [])
    ∷ joint_ctrl_reader (sample ∷ [])
    ∷ other_reader
    ∷ rpc_req_reader (request 5 true ∷ request 6 false ∷ request 7 true ∷ [])
    ∷ []

on_all-served_example :
    let r = on_all toy (negsuc 0) callbacks in
    (r.1 ≡ true) × (replied r.0 ≡ all_asked callbacks) × (commanded r.0 ≡ all_commands callbacks)
on_all-served_example =
    on_all-served toy (negsuc 0) callbacks (typed_requests, (typed_requests, tt))

abbrev pub reactor : Locomotion ℤ
reactor = record {
  controller = fresh loco;
  walk_warned = false;
  getup_warned = false;
  liedown_warned = false;
  kick_warned = false;
}

abbrev messages : List (Message ℤ)
messages =
    walk_command default_walk
    ∷ mode_change_request (record { mode = pos 3 })
    ∷ walk_command default_walk
    ∷ []

react_all-post_all_example :
    (react_all messages reactor).0.controller
    ≡ record (fresh loco) { mailbox = post_all (setters messages) (fresh loco).mailbox }
react_all-post_all_example = react_all-post_all messages reactor
