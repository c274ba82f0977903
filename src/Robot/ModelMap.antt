-- ===== src/Robot/ModelMap.antt =====
-- Where the robot's joints, actuators and sensors stand in a model
-- (mujoco/shared/sim/ModelMap.hpp). `build` throws where a name is missing: here it gives an error.
pub mod Present
use nusim.Base.{
  ℕ, ◌≡◌, refl, Bool, true, false, ◌&&◌, ◌||◌, List, [], ◌∷◌, if◌then◌else◌, get_or, count_up, ℤ,
  pos, negsuc, pos_part,
}
use Prim.Native.String.{String}
use nusim.Double.{Double}
use nusim.MuJoCo.{Model, Kind, JointType}
use nusim.Robot.Joints.{joint_names}

-- A field that may be negative is an `int` that is -1 where there is no such thing.
pub record ModelMap : Type 0 where
  pub qpos_adr : ℕ → ℕ
  pub dof_adr : ℕ → ℕ
  pub act_id : ℕ → ℕ
  pub root_qpos_adr : ℤ
  pub root_dof_adr : ℤ
  pub root_body_id : ℤ
  pub imu_site_id : ℤ
  pub sens_quat : ℤ
  pub sens_gyro : ℤ
  pub sens_acc : ℤ
  pub sens_linvel : ℤ

pub data BuildError : Type 0 where
  missing_joint : String → BuildError
  no_free_root : BuildError
  -- of `SimCore::load_model`
  no_data : BuildError

pub data Result (A : Type 0) : Type 0 where
  ok : A → Result A
  err : BuildError → Result A

infixl 5 ◌>>=◌
abbrev pub ◌>>=◌ : {A B : Type 0} → Result A → (A → Result B) → Result B
ok a >>= f = f a
err e >>= f = err e

-- A predicate of the value, if there is one.
abbrev pub Holds : {A : Type 0} → (A → Type 0) → Result A → Type 0
Holds P (ok a) = P a
Holds P (err e) = Unit

-- Inversion of a chain that succeeds.
pub >>=-eq-ok :
    {A B : Type 0} (r : Result A) (k : A → Result B) {b : B}
    → (r >>= k) ≡ ok b
    → (a : A) × (r ≡ ok a) × (k a ≡ ok b)
>>=-eq-ok (ok a) k h = (a, refl, h)
>>=-eq-ok (err e) k h = cc

-- A chain that succeeds.
abbrev pub Returns : {A : Type 0} → Result A → Type 0
Returns {A} r = (a : A) × (r ≡ ok a)

pub >>=-Returns :
    {A B : Type 0} (r : Result A) (k : A → Result B)
    → Returns r
    → ((a : A) → Returns (k a))
    → Returns (r >>= k)
>>=-Returns (ok a) k h g = g a
>>=-Returns (err e) k h g = cc

pub record Joint : Type 0 where
  pub qpos_adr : ℕ
  pub dof_adr : ℕ
  pub act_id : ℕ

abbrev pub no_joint : Joint
no_joint = record { qpos_adr = 0; dof_adr = 0; act_id = 0 }

pub record Root : Type 0 where
  pub qpos_adr : ℤ
  pub dof_adr : ℤ
  pub body_id : ℤ

abbrev pub no_root : Root
no_root = record { qpos_adr = negsuc 0; dof_adr = negsuc 0; body_id = negsuc 0 }

abbrev pub is_negative : ℤ → Bool
is_negative (pos n) = false
is_negative (negsuc n) = true

module _ {D : Type 0} where
  unfoldable pub find_joint : Model D → String → Result Joint
  find_joint m name =
      let jnt = m.name2id Kind.joint name in
      let act = m.name2id Kind.actuator name in
      if is_negative jnt || is_negative act
      then err (missing_joint name)
      else ok (record {
        qpos_adr = m.jnt_qposadr (pos_part jnt);
        dof_adr = m.jnt_dofadr (pos_part jnt);
        act_id = pos_part act;
      })

  -- The first loop: every joint by its name, up to the first that is missing.
  unfoldable pub find_joints : Model D → List String → Result (List Joint)
  unfolding find_joint
  find_joints m [] = ok []
  find_joints m (name ∷ names) = do j ← find_joint m name; js ← find_joints m names; ok (j ∷ js)

  unfoldable pub sensor_adr : Model D → String → ℤ
  sensor_adr m name = elim (m.name2id Kind.sensor name) [
    | negsuc _ ↦ negsuc 0
    | pos id ↦ pos (m.sensor_adr id)
  ]

unfoldable pub is_free_joint : JointType → Bool
is_free_joint JointType.free = true
is_free_joint _ = false

module _ {D : Type 0} ⦃f : Double D⦄ where
  -- One round of the second loop, for joint `j`.
  unfoldable pub take_root : Model D → ℕ → Root → Root
  unfolding is_free_joint
  take_root m j r =
      if is_free_joint (m.jnt_type j)
        && (is_negative r.qpos_adr
            || f.lt (m.body_subtreemass (pos_part r.body_id)) (m.body_subtreemass (m.jnt_bodyid j)))
      then record {
        qpos_adr = pos (m.jnt_qposadr j);
        dof_adr = pos (m.jnt_dofadr j);
        body_id = pos (m.jnt_bodyid j);
      }
      else r

  -- The second loop, over the joints from `j` on.
  unfoldable pub find_root : Model D → List ℕ → Root → Root
  unfolding take_root
  find_root m [] r = r
  find_root m (j ∷ js) r = find_root m js (take_root m j r)

  unfoldable pub build : Model D → Result ModelMap
  unfolding find_joints find_root sensor_adr
  build m = do
    joints ← find_joints m joint_names
    let root = find_root m (count_up 0 m.njnt) no_root
    if is_negative root.qpos_adr
        then err no_free_root
        else ok (record {
          qpos_adr = λ i. (get_or joints i no_joint).qpos_adr;
          dof_adr = λ i. (get_or joints i no_joint).dof_adr;
          act_id = λ i. (get_or joints i no_joint).act_id;
          root_qpos_adr = root.qpos_adr;
          root_dof_adr = root.dof_adr;
          root_body_id = root.body_id;
          imu_site_id = m.name2id Kind.site "imu";
          sens_quat = sensor_adr m "orientation";
          sens_gyro = sensor_adr m "angular-velocity";
          sens_acc = sensor_adr m "acceleration";
          sens_linvel = sensor_adr m "linear-velocity";
        })
