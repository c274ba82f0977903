-- ===== src/Simulation/Scene.antt =====
-- Building the model (`load_multi_robot_model` and the first part of `load_model` of
-- mujoco/module/Simulation/src/SimCore.cpp). MuJoCo's functions on specs are the fields of `SpecApi`;
-- what is parsed, attached and deleted is recorded in its order.
pub mod Released
pub mod Keys
use nusim.Base.{
  ℕ, zero, suc, Bool, true, false, Option, none, some, List, [], ◌∷◌, ◌++◌, map, ◌==◌,
  if◌then◌else◌, pos, ltb_ℤ,
}
use Prim.Native.String.{String, ◌++◌ as string_append}
use Prim.Native.Char.{code}
use nusim.Double.{Double}
use nusim.MuJoCo.{Model}
use nusim.Simulation.Core.{Engine, SimConfig, SpawnPose, spawn_pose, extra_prefix, copies}

pub record SpecApi (D S : Type 0) : Type 0 where
  -- mj_loadXML and mj_parseXML, `none` for a null pointer
  pub load_xml : String → Option (Model D)
  pub parse_xml : String → Option S
  -- whether mjs_firstElement finds a keyframe, and mjs_delete of that
  pub has_key : S → Bool
  pub delete_key : S → S
  -- mjs_attach of the second spec's trunk at a new frame of the world of the first
  pub attach : S → D × D × D → S → String → Option S
  pub compile : S → Option (Model D)

pub data SpecEvent : Type 0 where
  parse_scene delete_scene : SpecEvent
  parse_robot attach_robot delete_robot : ℕ → SpecEvent

-- The exceptions.
pub data Failure : Type 0 where
  not_loaded not_parsed not_compiled : Failure
  robot_not_parsed not_attached : ℕ → Failure

pub data Built {ℓ} (A : Type ℓ) : Type ℓ where
  built : A → Built A
  failed : Failure → Built A

-- scene_path.substr(0, scene_path.find_last_of('/') + 1)
unfoldable pub directory : String → String
directory String.[] = ""
directory (String.◌∷◌ c s) =
    let rest = directory s in
    elim rest [
      | String.[] ↦ if code c == b'/' then String.◌∷◌ c "" else ""
      | String.◌∷◌ d r ↦ String.◌∷◌ c (String.◌∷◌ d r)
    ]

unfoldable pub robot_xml : String → String
robot_xml scene_path = string_append (directory scene_path) "K1_22dof.xml"

-- A path that is absolute, or is taken from the directory of the sources.
unfoldable pub resolve_path : String → String → String
resolve_path source_dir String.[] = string_append source_dir "/"
resolve_path source_dir (String.◌∷◌ c s) =
    if code c == b'/'
    then String.◌∷◌ c s
    else string_append source_dir (string_append "/" (String.◌∷◌ c s))

-- The rest of a round where the copy's spec is parsed, and where it is attached; a failure deletes
-- the specs that there are.
unfoldable pub with_parsed :
    {S : Type 0} → ℕ → Option S → (S → List SpecEvent × Built S) → List SpecEvent × Built S
with_parsed k none next = (SpecEvent.delete_scene ∷ [], failed (Failure.robot_not_parsed k))
with_parsed k (some robot) next =
    let (events, result) = next robot in (SpecEvent.parse_robot k ∷ events, result)

unfoldable pub with_joined :
    {S : Type 0} → ℕ → Option S → (S → List SpecEvent × Built S) → List SpecEvent × Built S
with_joined k none next =
    (SpecEvent.delete_robot k ∷ SpecEvent.delete_scene ∷ [], failed (Failure.not_attached k))
with_joined k (some joined) next =
    let (events, result) = next joined in
    (SpecEvent.attach_robot k ∷ SpecEvent.delete_robot k ∷ events, result)

-- A copy's yaw is not given to its frame.
abbrev pub place_of : {D : Type 0} → SpawnPose D → D × D × D
place_of pose = (pose.x, pose.y, pose.z)

module _ {D S : Type 0} ⦃f : Double D⦄ (e : Engine D) (api : SpecApi D S) where
  -- The loop that deletes the keyframes, on fuel.
  unfoldable pub delete_keys : ℕ → S → S
  delete_keys zero robot = robot
  delete_keys (suc fuel) robot = elim (api.has_key robot) [
    | true ↦ delete_keys fuel (api.delete_key robot)
    | false ↦ robot
  ]

  -- The loop over the copies, from the k-th on.
  unfoldable pub attach_copies : ℕ → String → S → ℕ → List (D × D × D) → List SpecEvent × Built S
  unfolding with_parsed with_joined
  attach_copies fuel xml scene k [] = ([], built scene)
  attach_copies fuel xml scene k (place ∷ places) = with_parsed k (api.parse_xml xml) λ robot.
      with_joined k (api.attach scene place (delete_keys fuel robot) (extra_prefix e k))
        λ joined. attach_copies fuel xml joined (suc k) places

  unfoldable pub compile_scene : List SpecEvent × Built S → List SpecEvent × Built (Model D)
  compile_scene (events, failed why) = (events, failed why)
  compile_scene (events, built scene) = (
    events ++ (SpecEvent.delete_scene ∷ []),
    elim (api.compile scene) [ none ↦ failed Failure.not_compiled | some m ↦ built m ],
  )

  unfoldable pub build_scene :
      ℕ → String → List (D × D × D) → Option S → List SpecEvent × Built (Model D)
  build_scene fuel xml extras none = ([], failed Failure.not_parsed)
  build_scene fuel xml extras (some scene) =
      let (events, result) = compile_scene (attach_copies fuel xml scene 1 extras) in
      (SpecEvent.parse_scene ∷ events, result)

  unfoldable pub load_multi_robot_model :
      ℕ → String → List (D × D × D) → List SpecEvent × Built (Model D)
  unfolding build_scene
  load_multi_robot_model fuel scene_path extras =
      build_scene fuel (robot_xml scene_path) extras (api.parse_xml scene_path)

  -- What `load_model` starts with.
  unfoldable pub compile_model : String → ℕ → SimConfig D → List SpecEvent × Built (Model D)
  compile_model source_dir fuel cfg =
      if ltb_ℤ (pos 1) cfg.robots
      then load_multi_robot_model fuel (resolve_path source_dir cfg.model_path)
          (map (λ k. place_of (spawn_pose cfg k)) (copies cfg))
      else (
        [],
        elim (api.load_xml (resolve_path source_dir cfg.model_path)) [
          | none ↦ failed Failure.not_loaded
          | some m ↦ built m
        ],
      )
