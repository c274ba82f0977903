-- ===== src/Sdk/Dispatch/Outcomes.antt =====
-- When a request is answered, and with what status.
use nusim.Base.{
  ℕ, ◌≡◌, refl, ◌≢◌, ◌⊎◌, inl, inr, true, false, Option, none, some, List, arith, Bool-cases,
  Option-cases, ℤ, pos,
}
use Prim.Native.String.{String}
use nusim.Double.{Double, nought}
use nusim.Robot.Booster.RobotMode
use nusim.Message.{default_get_up, default_visual_kick}
use nusim.Robot.Booster.ApiId
use nusim.Sdk.Json.{Json}
use nusim.Sdk.Dispatch.{
  RpcOutcome, no_action, parse_or_empty, read, switch_api, acting, on_change_mode, on_move,
  on_rotate_head, on_get_up_with_mode, on_visual_kick, dispatch_rpc, empty_body,
}

-- The calls that the bridge knows.
abbrev pub IsKnown : ℤ → Type 0
IsKnown id =
    (id ≡ ApiId.change_mode)
    ⊎ (id ≡ ApiId.move)
    ⊎ (id ≡ ApiId.rotate_head)
    ⊎ (id ≡ ApiId.lie_down)
    ⊎ (id ≡ ApiId.get_up)
    ⊎ (id ≡ ApiId.get_up_with_mode)
    ⊎ (id ≡ ApiId.visual_kick)
    ⊎ (id ≡ ApiId.get_mode)

module _ {D J : Type 0} ⦃f : Double D⦄ (json : Json D J) where
  -- A key that holds a value of the type that it is read as, if it is there.
  abbrev pub IsTyped : {A : Type 0} → (J → String → Option A) → J → String → Type 0
  IsTyped get v key = json.contains v key ≡ true → get v key ≢ none

  -- Every key that the switch may read.
  pub record IsTypedBody (v : J) : Type 0 where
    pub mode : IsTyped json.get_int v "mode"
    pub vx : IsTyped json.get_double v "vx"
    pub vy : IsTyped json.get_double v "vy"
    pub vyaw : IsTyped json.get_double v "vyaw"
    pub pitch : IsTyped json.get_double v "pitch"
    pub yaw : IsTyped json.get_double v "yaw"
    pub start : IsTyped json.get_bool v "start"
    pub version : IsTyped json.get_int v "version"

  read-IsTyped :
      {A : Type 0} (get : J → String → Option A) (v : J) (key : String) (d : A)
      → IsTyped get v key
      → read json get v key d ≢ none
  read-IsTyped get v key d h = ground (arith, h)

  on_change_mode-returns : (v : J) → IsTypedBody v → on_change_mode json v ≢ none
  unfolding on_change_mode
  on_change_mode-returns v h =
      ground (arith, read-IsTyped json.get_int v "mode" RobotMode.unknown h.mode)

  on_move-returns : (v : J) → IsTypedBody v → on_move json v ≢ none
  unfolding on_move
  on_move-returns v h = ground (
    arith,
    read-IsTyped json.get_double v "vx" nought h.vx,
    read-IsTyped json.get_double v "vy" nought h.vy,
    read-IsTyped json.get_double v "vyaw" nought h.vyaw,
  )

  on_rotate_head-returns : (v : J) → IsTypedBody v → on_rotate_head json v ≢ none
  unfolding on_rotate_head
  on_rotate_head-returns v h = ground (
    arith,
    read-IsTyped json.get_double v "pitch" nought h.pitch,
    read-IsTyped json.get_double v "yaw" nought h.yaw,
  )

  on_get_up_with_mode-returns : (v : J) → IsTypedBody v → on_get_up_with_mode json v ≢ none
  unfolding on_get_up_with_mode
  on_get_up_with_mode-returns v h =
      ground (arith, read-IsTyped json.get_int v "mode" default_get_up.target_mode h.mode)

  on_visual_kick-returns : (v : J) → IsTypedBody v → on_visual_kick json v ≢ none
  unfolding on_visual_kick
  on_visual_kick-returns v h = ground (
    arith,
    read-IsTyped json.get_bool v "start" default_visual_kick.start h.start,
    read-IsTyped json.get_int v "version" default_visual_kick.version h.version,
  )

  -- Where every key of the body is of its type, the switch does not throw.
  switch_api-returns :
      (id : ℤ) (v : J) (mode st : ℤ) → IsTypedBody v → switch_api json id v mode st ≢ none
  unfolding switch_api acting
  switch_api-returns id v mode st h = ground (
    arith,
    on_change_mode-returns v h,
    on_move-returns v h,
    on_rotate_head-returns v h,
    on_get_up_with_mode-returns v h,
    on_visual_kick-returns v h,
  )

  -- A request is answered, with no exception, where the keys that are read hold values of the types
  -- that they are read as, whether or not its texts parse, and whatever is missing from them.
  pub dispatch_rpc-returns :
      (header body : List ℕ) (mode st : ℤ)
      → IsTyped json.get_int64 (parse_or_empty json header) "api_id"
      → IsTypedBody (parse_or_empty json body)
      → dispatch_rpc json header body mode st ≢ none
  unfolding dispatch_rpc
  dispatch_rpc-returns header body mode st h hb =
      grind (arith, h, λ (id : ℤ). switch_api-returns id (parse_or_empty json body) mode st hb)

  -- A header whose "api_id" cannot be read as an integer makes it throw, whatever the body is.
  pub dispatch_rpc-throws :
      (header body : List ℕ) (mode st : ℤ)
      → json.contains (parse_or_empty json header) "api_id" ≡ true
      → json.get_int64 (parse_or_empty json header) "api_id" ≡ none
      → dispatch_rpc json header body mode st ≡ none
  unfolding dispatch_rpc
  dispatch_rpc-throws header body mode st c g = rw c (rw g refl)

  -- What an outcome says: an unknown call has the status for it, and asks for nothing; a known one
  -- has status 0.
  pub record IsVerdict (st : ℤ) (o : RpcOutcome D) : Type 0 where
    pub known : o.unknown_api_id ≡ false → (o.status ≡ pos 0) × IsKnown o.api_id
    pub unknown :
        o.unknown_api_id ≡ true
        → (o.status ≡ st) × (o.action ≡ no_action json) × (o.response_body ≡ empty_body json)

  switch_api-IsVerdict :
      (id : ℤ) (v : J) (mode st : ℤ) (o : RpcOutcome D)
      → switch_api json id v mode st ≡ some o
      → IsVerdict st o
  unfolding switch_api acting
  switch_api-IsVerdict id v mode st o e = record {
    known = λ k. ground arith;
    unknown = λ k. ground arith;
  }

  -- Every outcome is of one of two kinds. A known call: `unknown_api_id` is false, the status is 0
  -- and the api_id is one of the eight that the bridge handles. An unknown one: `unknown_api_id` is
  -- true, the status is the one for unknown calls, nothing is asked for, and the body is "{}".
  pub dispatch_rpc-IsVerdict :
      (header body : List ℕ) (mode st : ℤ) (o : RpcOutcome D)
      → dispatch_rpc json header body mode st ≡ some o
      → IsVerdict st o
  unfolding dispatch_rpc
  dispatch_rpc-IsVerdict header body mode st o e =
      let h = parse_or_empty json header in
      elim (Option-cases (json.get_int64 h "api_id")) [
        | inl q ↦ record { known = λ k. ground arith; unknown = λ k. ground arith }
        | inr (id, q) ↦ elim (Bool-cases (json.contains h "api_id")) [
          | inl there ↦ switch_api-IsVerdict id (parse_or_empty json body) mode st o (ground arith)
          | inr missing ↦ record { known = λ k. ground arith; unknown = λ k. ground arith }
        ]
      ]
