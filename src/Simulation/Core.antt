-- ===== src/Simulation/Core.antt =====
-- Loading, placing and resetting (mujoco/module/Simulation/src/SimCore.hpp and .cpp). The model is
-- given as MuJoCo has compiled it; MuJoCo's own functions on data are the fields of `Engine`.
pub mod Types
pub mod Resetting
pub mod Placing
pub mod Copies
use nusim.Base.{
  ℕ, suc, ◌+◌, ◌-◌, ◌*◌, ◌/◌, ◌%◌, not, ◌&&◌, none, some, List, [], ◌∷◌, map, ◌==◌, if◌then◌else◌,
  get_or, replicate, count_up, ℤ, pos, negsuc, pos_part,
}
use Prim.Native.String.{String, ◌++◌ as string_append}
use text.Mathlib.Text.{◌==◌ as str_eq}
use mathlib.Core.List.{map as list_map}
use nusim.Double.{Double, nought, two}
use nusim.MuJoCo.{Model, Data, Kind, write, write_all}
use nusim.Robot.Joints.{joint_count, joint_names}
use nusim.Robot.ModelMap.{
  ModelMap, Result, ok, err, missing_joint, no_data, ◌>>=◌, no_joint, find_joints, build,
  is_negative,
}
use nusim.Robot.Pd.{for_joints}
pub use Types.*

module _ {D : Type 0} ⦃f : Double D⦄ where
  open f use {add, sub, mul, div, lt, dec, of_int, cos, sin}

  abbrev pub stand_z : D
  stand_z = dec (pos 555) 3

  -- The slot of the k-th extra robot, k from 1.
  unfoldable pub extra_spawn : ℕ → SpawnPose D
  extra_spawn k =
      let col = (k - 1) % 5 in
      let row = (k - 1) / 5 in
      let side = if row % 2 == 0 then dec (pos 1) 0 else dec (negsuc 0) 0 in
      record {
        x = add (dec (negsuc 29) 1) (mul (dec (pos 15) 1) (of_int (pos col)));
        y = mul side (add (dec (pos 12) 1) (mul (dec (pos 12) 1) (of_int (pos (row / 2)))));
        z = stand_z;
        yaw = nought;
      }

  unfoldable pub spawn_pose : SimConfig D → ℕ → SpawnPose D
  spawn_pose cfg k = elim cfg.spawns [
    | [] ↦ extra_spawn k
    | first ∷ rest ↦
        let s = get_or (first ∷ rest) k first in
        record { x = s.x; y = s.y; z = stand_z; yaw = s.yaw }
  ]

  unfoldable pub place_ball_on_centre_mark : Model D → Data D → Data D
  place_ball_on_centre_mark m d = elim (m.name2id Kind.joint "ball_free") [
    | negsuc _ ↦ d
    | pos joint ↦ elim (m.name2id Kind.geom "ball") [
      | negsuc _ ↦ d
      | pos geom ↦ record d {
        qpos = write d.qpos (m.jnt_qposadr joint) (f.neg (m.geom_pos (3 * geom)));
      }
    ]
  ]

  -- The main robot's base, moved to x and y and turned by the yaw.
  unfoldable pub place_main : SpawnPose D → ℕ → Data D → Data D
  place_main pose root d =
      let cw = cos (div pose.yaw two) in
      let sw = sin (div pose.yaw two) in
      let q = λ (k : ℕ). d.qpos (root + 3 + k) in
      record d {
        qpos = write_all (write_all d.qpos root (pose.x ∷ pose.y ∷ [])) (root + 3) (
            sub (mul cw (q 0)) (mul sw (q 3))
            ∷ sub (mul cw (q 1)) (mul sw (q 2))
            ∷ add (mul cw (q 2)) (mul sw (q 1))
            ∷ add (mul cw (q 3)) (mul sw (q 0))
            ∷ []);
      }

  -- One copy: the root, then the joints.
  unfoldable pub place_extra : (ℕ → D) → SpawnPose D → ModelMap → Data D → Data D
  place_extra ready pose em d =
      for_joints (count_up 0 joint_count)
        (λ i e. record e {
          qpos = write e.qpos (em.qpos_adr i) (ready i);
          qvel = write e.qvel (em.dof_adr i) nought;
        })
        (record d {
          qpos = write_all d.qpos (pos_part em.root_qpos_adr) (
              pose.x
              ∷ pose.y
              ∷ pose.z
              ∷ cos (div pose.yaw two)
              ∷ nought
              ∷ nought
              ∷ sin (div pose.yaw two)
              ∷ []);
          qvel = write_all d.qvel (pos_part em.root_dof_adr) (replicate 6 nought);
        })

  -- The copies from the k-th on.
  unfoldable pub place_extras : SimConfig D → (ℕ → D) → ℕ → List ModelMap → Data D → Data D
  place_extras cfg ready k [] d = d
  place_extras cfg ready k (em ∷ ems) d =
      place_extras cfg ready (suc k) ems (place_extra ready (spawn_pose cfg k) em d)

  -- A game's part of the placement.
  unfoldable pub place_game : Model D → SimConfig D → ModelMap → Data D → Data D
  place_game m cfg map d = elim cfg.spawns [
    | [] ↦ d
    | first ∷ rest ↦
        place_ball_on_centre_mark m (place_main (spawn_pose cfg 0) (pos_part map.root_qpos_adr) d)
  ]

  unfoldable pub place_robots :
      Model D → SimConfig D → ModelMap → (ℕ → D) → List ModelMap → Data D → Data D
  place_robots m cfg map ready extras d = place_extras cfg ready 1 extras (place_game m cfg map d)

  unfoldable pub apply_surface_override : Surface D → Model D → Model D
  apply_surface_override s m = if not s.enabled then m else elim (m.name2id Kind.geom "floor") [
    | negsuc _ ↦ m
    | pos floor ↦
        let min_timeconst = mul two m.timestep in
        let timeconst =
          if lt s.solref_timeconst min_timeconst then min_timeconst else s.solref_timeconst in
        record m {
          geom_priority = write m.geom_priority floor 1;
          geom_friction = write m.geom_friction (3 * floor) s.friction;
          geom_solref =
              write (write m.geom_solref (2 * floor) timeconst) (2 * floor + 1) s.solref_dampratio;
        }
  ]

  -- The prefix of the k-th copy's names, k from 1.
  abbrev pub extra_prefix : Engine D → ℕ → String
  extra_prefix e k = string_append "sub" (string_append (e.format_02d k) "_")

  abbrev pub extra_name : Engine D → ℕ → String → String
  extra_name e k name = string_append (extra_prefix e k) name

  -- The index maps of one copy.
  unfoldable pub find_extra : Engine D → Model D → ℕ → Result ModelMap
  find_extra e m k = do
    joints ← find_joints m (list_map (extra_name e k) joint_names)
    let root = m.name2id Kind.joint (extra_name e k "root")
    if is_negative root
        then err (missing_joint (extra_name e k "root"))
        else ok (record {
          qpos_adr = λ i. (get_or joints i no_joint).qpos_adr;
          dof_adr = λ i. (get_or joints i no_joint).dof_adr;
          act_id = λ i. (get_or joints i no_joint).act_id;
          root_qpos_adr = pos (m.jnt_qposadr (pos_part root));
          root_dof_adr = pos (m.jnt_dofadr (pos_part root));
          root_body_id = negsuc 0;
          imu_site_id = negsuc 0;
          sens_quat = negsuc 0;
          sens_gyro = negsuc 0;
          sens_acc = negsuc 0;
          sens_linvel = negsuc 0;
        })

  unfoldable pub find_extras : Engine D → Model D → List ℕ → Result (List ModelMap)
  find_extras e m [] = ok []
  find_extras e m (k ∷ ks) = do em ← find_extra e m k; ems ← find_extras e m ks; ok (em ∷ ems)

  -- The keyframe to spawn and to reset into.
  unfoldable pub choose_key : SimConfig D → Model D → ℤ
  choose_key cfg m =
      let key = m.name2id Kind.key cfg.initial_keyframe in
      if is_negative key && not (str_eq cfg.initial_keyframe "ready")
      then m.name2id Kind.key "ready"
      else key

  unfoldable pub find_ready : SimConfig D → Model D → ModelMap → ℕ → D
  find_ready cfg m map = elim (m.name2id Kind.key "ready") [
    | negsuc _ ↦ cfg.ready_pose_fallback
    | pos key ↦ λ i. m.key_qpos (key * m.nq + map.qpos_adr i)
  ]

  -- The data as the keyframe leaves it, or as it is where there is none.
  abbrev pub from_key : Engine D → Model D → ℤ → Data D → Data D
  from_key e m (negsuc _) d = d
  from_key e m (pos key) d = e.reset_keyframe m d key

  -- The core from fresh data.
  unfoldable pub assemble :
      Engine D → SimConfig D → Model D → ModelMap → List ModelMap → Data D → SimCore D
  assemble e cfg m map extras d =
      let key = choose_key cfg m in
      let ready = find_ready cfg m map in
      record {
        cfg = cfg;
        model = m;
        data_ = e.forward m (place_robots m cfg map ready extras (from_key e m key d));
        reset_key = key;
        map = map;
        ready_target = ready;
        extra_maps = extras;
        head_body_id = m.name2id Kind.body "Head_2";
      }

  -- The copies' numbers: 1 to robots - 1.
  abbrev pub copies : SimConfig D → List ℕ
  copies cfg = count_up 1 (pos_part cfg.robots - 1)

  unfoldable pub allocate :
      Engine D → SimConfig D → Model D → ModelMap → List ModelMap → Result (SimCore D)
  allocate e cfg m map extras = elim (e.make_data m) [
    | none ↦ err no_data
    | some d ↦ ok (assemble e cfg m map extras d)
  ]

  unfoldable pub load_model : Engine D → SimConfig D → Model D → Result (SimCore D)
  load_model e cfg compiled = build compiled >>= λ map.
      (let m = apply_surface_override cfg.surface compiled in
        find_extras e m (copies cfg) >>= allocate e cfg m map)

  -- mj_resetDataKeyframe or mj_resetData
  abbrev pub restored : Engine D → Model D → ℤ → Data D → Data D
  restored e m (negsuc _) d = e.reset_data m d
  restored e m (pos key) d = e.reset_keyframe m d key

  -- The data after a reset.
  unfoldable pub reset : Engine D → SimCore D → Data D → Data D
  reset e s d = e.forward s.model (
      place_robots s.model s.cfg s.map s.ready_target s.extra_maps
        (restored e s.model s.reset_key d))
