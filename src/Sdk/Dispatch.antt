-- ===== src/Sdk/Dispatch.antt =====
-- What a request asks for (mujoco/module/SdkBridge/src/RpcDispatch.hpp and .cpp). The result is
-- `none` where the function throws.
pub mod Outcomes
use nusim.Base.{
  ℕ, Bool, true, false, not, ◌&&◌, ◌||◌, Option, none, some, List, [], ◌∷◌, leb, ◌==◌,
  if◌then◌else◌, ℤ, pos, ◌==ℤ◌,
}
use Prim.Native.String.{String}
use nusim.Double.{Double, nought}
use nusim.Robot.Booster.ApiId
use nusim.Robot.Booster.RobotMode
use nusim.Message.{
  WalkCommand, HeadCommand, ModeChangeRequest, GetUpRequest, VisualKickRequest, default_get_up,
  default_visual_kick, default_mode_change, default_walk, default_head,
}
use nusim.Sdk.Json.{Json, ◌>>=◌}

pub data RpcActionKind : Type 0 where
  no_kind mode_change_kind walk_kind head_kind get_up_kind lie_down_kind visual_kick_kind :
      RpcActionKind

-- LieDownRequest is empty.
pub record RpcAction (D : Type 0) : Type 0 where
  pub kind : RpcActionKind
  pub mode_change : ModeChangeRequest
  pub walk : WalkCommand D
  pub head : HeadCommand D
  pub get_up : GetUpRequest
  pub visual_kick : VisualKickRequest

pub record RpcOutcome (D : Type 0) : Type 0 where
  pub action : RpcAction D
  pub status : ℤ
  pub response_body : List ℕ
  pub unknown_api_id : Bool
  pub api_id : ℤ

-- std::isspace in the C locale.
abbrev pub is_space : ℕ → Bool
is_space c = c == 32 || (leb 9 c && leb c 13)

abbrev pub is_blank : List ℕ → Bool
is_blank [] = true
is_blank (c ∷ cs) = if not (is_space c) then false else is_blank cs

module _ {D J : Type 0} ⦃f : Double D⦄ (json : Json D J) where
  unfoldable pub parse_or_empty : List ℕ → J
  parse_or_empty text =
      if is_blank text
      then json.object
      else elim (json.parse text) [ some v ↦ v | none ↦ json.object ]

  abbrev pub no_action : RpcAction D
  no_action = record {
    kind = no_kind;
    mode_change = default_mode_change;
    walk = default_walk;
    head = default_head;
    get_up = default_get_up;
    visual_kick = default_visual_kick;
  }

  -- The bytes of "{}".
  abbrev pub empty_body : List ℕ
  empty_body = 123 ∷ 125 ∷ []

  -- An outcome as it is initialised, with an api_id.
  abbrev pub outcome_for : ℤ → RpcOutcome D
  outcome_for api_id = record {
    action = no_action;
    status = pos 0;
    response_body = empty_body;
    unknown_api_id = false;
    api_id = api_id;
  }

  abbrev pub unknown_outcome : ℤ → ℤ → RpcOutcome D
  unknown_outcome api_id unknown_api_status = record (outcome_for api_id) {
    unknown_api_id = true;
    status = unknown_api_status;
  }

  -- get_double, get_int and get_bool of the code
  abbrev pub read : {A : Type 0} → (J → String → Option A) → J → String → A → Option A
  read get body key fallback = if json.contains body key then get body key else some fallback

  -- The cases that read the body.
  unfoldable pub on_change_mode : J → Option (RpcAction D)
  on_change_mode body = do
    mode ← read json.get_int body "mode" RobotMode.unknown
    some (record no_action { kind = mode_change_kind; mode_change = record { mode = mode } })

  unfoldable pub on_move : J → Option (RpcAction D)
  on_move body = do
    vx ← read json.get_double body "vx" nought
    vy ← read json.get_double body "vy" nought
    vyaw ← read json.get_double body "vyaw" nought
    some (record no_action { kind = walk_kind; walk = record { vx = vx; vy = vy; vyaw = vyaw } })

  unfoldable pub on_rotate_head : J → Option (RpcAction D)
  on_rotate_head body = do
    pitch ← read json.get_double body "pitch" nought
    yaw ← read json.get_double body "yaw" nought
    some (record no_action { kind = head_kind; head = record { pitch = pitch; yaw = yaw } })

  unfoldable pub on_get_up_with_mode : J → Option (RpcAction D)
  on_get_up_with_mode body = do
    mode ← read json.get_int body "mode" default_get_up.target_mode
    some (record no_action { kind = get_up_kind; get_up = record { target_mode = mode } })

  unfoldable pub on_visual_kick : J → Option (RpcAction D)
  on_visual_kick body = do
    start ← read json.get_bool body "start" default_visual_kick.start
    version ← read json.get_int body "version" default_visual_kick.version
    some (record no_action {
      kind = visual_kick_kind;
      visual_kick = record { start = start; version = version };
    })

  unfoldable pub acting : ℤ → Option (RpcAction D) → Option (RpcOutcome D)
  acting api_id none = none
  acting api_id (some a) = some (record (outcome_for api_id) { action = a })

  -- The switch.
  unfoldable pub switch_api : ℤ → J → ℤ → ℤ → Option (RpcOutcome D)
  switch_api api_id body current_mode unknown_api_status =
      if api_id ==ℤ ApiId.change_mode
      then acting api_id (on_change_mode body)
      else if api_id ==ℤ ApiId.move
      then acting api_id (on_move body)
      else if api_id ==ℤ ApiId.rotate_head
      then acting api_id (on_rotate_head body)
      else if api_id ==ℤ ApiId.lie_down
      then acting api_id (some (record no_action { kind = lie_down_kind }))
      else if api_id ==ℤ ApiId.get_up
      then acting api_id (some (record no_action { kind = get_up_kind }))
      else if api_id ==ℤ ApiId.get_up_with_mode
      then acting api_id (on_get_up_with_mode body)
      else if api_id ==ℤ ApiId.visual_kick
      then acting api_id (on_visual_kick body)
      else if api_id ==ℤ ApiId.get_mode
      then some (record (outcome_for api_id) { response_body = json.dump "mode" current_mode })
      else some (unknown_outcome api_id unknown_api_status)

  unfoldable pub dispatch_rpc : List ℕ → List ℕ → ℤ → ℤ → Option (RpcOutcome D)
  dispatch_rpc header_json body_json current_mode unknown_api_status =
      let header = parse_or_empty header_json in
      if not (json.contains header "api_id")
      then some (unknown_outcome (pos 0) unknown_api_status)
      else json.get_int64 header "api_id" >>= λ api_id.
          switch_api api_id (parse_or_empty body_json) current_mode unknown_api_status
