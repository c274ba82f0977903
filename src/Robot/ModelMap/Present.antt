-- ===== src/Robot/ModelMap/Present.antt =====
-- A model of the robot has a map.
use nusim.Base.{
  ℕ, zero, suc, ◌+◌, ◌≤◌, ◌<◌, ◌≤ℤ◌, ◌≡◌, refl, false, List, [], ◌∷◌, arith, All, count_up,
  ℕ_discrete, pos, ℤ, ◌||◌, if◌then◌else◌,
}
use Prim.Native.String.{String}
use nusim.Double.{Double}
use nusim.MuJoCo.{Model, Kind, JointType}
use nusim.Robot.Joints.{joint_names}
use nusim.Robot.ModelMap.{
  Joint, Root, BuildError, missing_joint, no_root, Returns, ok, err, >>=-Returns, is_negative,
  find_joint, find_joints, take_root, find_root, build,
}

-- The model has a joint and an actuator of the name.
abbrev pub HasJoint : {D : Type 0} → Model D → String → Type 0
HasJoint m name = (pos 0 ≤ℤ m.name2id Kind.joint name) × (pos 0 ≤ℤ m.name2id Kind.actuator name)

-- Every joint of the robot with its actuator, and a free joint.
pub record HasRobot {D : Type 0} (m : Model D) : Type 0 where
  pub joints : All (HasJoint m) joint_names
  pub root : ℕ
  pub root_in : root < m.njnt
  pub root_free : m.jnt_type root ≡ JointType.free

found :
    (jnt act : ℤ) (e : BuildError) (v : Joint)
    → pos 0 ≤ℤ jnt
    → pos 0 ≤ℤ act
    → (if is_negative jnt || is_negative act then err e else ok v) ≡ ok v
found jnt act e v h h' = ground arith

module _ {D : Type 0} (m : Model D) where
  find_joint-Returns : (name : String) → HasJoint m name → Returns (find_joint m name)
  unfolding find_joint
  find_joint-Returns name h = (
    _,
    found (m.name2id Kind.joint name) (m.name2id Kind.actuator name) (missing_joint name) _ h.0 h.1,
  )

  find_joints-Returns :
      (names : List String) → All (HasJoint m) names → Returns (find_joints m names)
  unfolding find_joints
  find_joints-Returns [] h = ([], refl)
  find_joints-Returns (name ∷ names) h =
      >>=-Returns (find_joint m name) _ (find_joint-Returns name h.0)
        λ j. >>=-Returns (find_joints m names) _ (find_joints-Returns names h.1) λ js. (_, refl)

module _ {D : Type 0} ⦃f : Double D⦄ (m : Model D) where
  take_root-kept :
      (j : ℕ) (r : Root)
      → is_negative r.qpos_adr ≡ false
      → is_negative (take_root m j r).qpos_adr ≡ false
  unfolding take_root
  take_root-kept j r h = ground (arith, h)

  take_root-free :
      (j : ℕ) (r : Root)
      → m.jnt_type j ≡ JointType.free
      → is_negative (take_root m j r).qpos_adr ≡ false
  unfolding take_root
  take_root-free j r h = rw h (ground arith)

  find_root-kept :
      (js : List ℕ) (r : Root)
      → is_negative r.qpos_adr ≡ false
      → is_negative (find_root m js r).qpos_adr ≡ false
  unfolding find_root
  find_root-kept [] r h = h
  find_root-kept (j ∷ js) r h = find_root-kept js (take_root m j r) (take_root-kept j r h)

  find_root-found :
      (a n j : ℕ) (r : Root)
      → a ≤ j
      → j < a + n
      → m.jnt_type j ≡ JointType.free
      → is_negative (find_root m (count_up a n) r).qpos_adr ≡ false
  unfolding find_root
  find_root-found a zero j r lo hi free = absurd (omega (arith, lo, hi))
  find_root-found a (suc n) j r lo hi free = elim (ℕ_discrete a j) [
    | yes e ↦ find_root-kept (count_up (suc a) n) (take_root m a r) (take_root-free a r (cc))
    | no ne ↦ find_root-found (suc a) n j (take_root m a r) (omega arith) (omega arith) free
  ]

  pub build-Returns : HasRobot m → Returns (build m)
  unfolding build
  build-Returns h =
      >>=-Returns (find_joints m joint_names) _ (find_joints-Returns m joint_names h.joints) λ js.
        rw (find_root-found 0 m.njnt h.root no_root (omega arith) (omega arith) h.root_free)
          (_, refl)
