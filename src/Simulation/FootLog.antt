-- ===== src/Simulation/FootLog.antt =====
-- The forces under the feet (`log_foot_state` of mujoco/module/Simulation/src/SimCore.cpp), up to the
-- printing of the row. The contacts are given as MuJoCo leaves them, with the normal force that
-- `mj_contactForce` computes; a contact is between geoms.
pub mod Apart
use nusim.Base.{
  ℕ, ◌+◌, ◌*◌, Bool, not, ◌&&◌, ◌||◌, Option, none, some, List, [], ◌∷◌, map, ◌==◌, if◌then◌else◌,
  get_or, ℤ, pos, negsuc, pos_part, ◌==ℤ◌,
}
use Prim.Native.String.{String}
use text.Mathlib.Text.{◌==◌ as str_eq}
use nusim.Double.{Double, nought, unit}
use nusim.MuJoCo.{Kind, Model, Data, Mju}
use nusim.Robot.ModelMap.{ModelMap, is_negative}
use nusim.Simulation.Snapshot.{entries, vec3, quat_to_rpy}

-- mjContact
pub record Contact (D : Type 0) : Type 0 where
  pub geom1 : ℕ
  pub geom2 : ℕ
  pub pos : ℕ → D
  pub normal_force : D

pub record FootAcc (D : Type 0) : Type 0 where
  pub fz : D
  pub cop_x : D
  pub cop_y : D
  pub pitch : D
  pub roll : D

pub data Foot : Type 0 where
  left right : Foot

-- The bodies of the feet, negative where the model has none.
pub record FootIds : Type 0 where
  pub left_foot_body_id : ℤ
  pub right_foot_body_id : ℤ

unfoldable pub find_feet : {D : Type 0} → Model D → FootIds
find_feet m = record {
  left_foot_body_id = m.name2id Kind.body "left_foot_link";
  right_foot_body_id = m.name2id Kind.body "right_foot_link";
}

-- Whether the log is written: a path is given, both feet are there and the file opens.
unfoldable pub is_logging : String → FootIds → (String → Bool) → Bool
is_logging path ids opens =
    not (str_eq path "")
    && not (is_negative ids.left_foot_body_id || is_negative ids.right_foot_body_id)
    && opens path

unfoldable pub touches : ℤ → ℕ → ℕ → Bool
touches foot body1 body2 = (pos body1 ==ℤ foot) || (pos body2 ==ℤ foot)

-- The foot that a contact is of, the left one first.
unfoldable pub foot_of : {D : Type 0} → Model D → FootIds → Contact D → Option Foot
foot_of m ids con =
    let body1 = m.geom_bodyid con.geom1 in
    let body2 = m.geom_bodyid con.geom2 in
    if touches ids.left_foot_body_id body1 body2
    then some Foot.left
    else if touches ids.right_foot_body_id body1 body2
    then some Foot.right
    else none

module _ {D : Type 0} ⦃f : Double D⦄ where
  open f use {add, sub, mul, div, lt, le, atan2}

  -- The sole's tilt.
  unfoldable pub tilt : Data D → ℤ → FootAcc D
  tilt d (negsuc _) = record {
    fz = nought;
    cop_x = nought;
    cop_y = nought;
    pitch = nought;
    roll = nought;
  }
  tilt d (pos body) =
      let rot = entries d.xmat (9 * body) in
      record {
        fz = nought;
        cop_x = nought;
        cop_y = nought;
        pitch = atan2 (rot (0 * 3 + 2)) (rot (2 * 3 + 2));
        roll = atan2 (rot (1 * 3 + 2)) (rot (2 * 3 + 2));
      }

  -- A contact of a foot: its force, and its point in the foot's frame.
  unfoldable pub add_contact : Mju D → Data D → ℤ → Contact D → FootAcc D → FootAcc D
  add_contact u d body con acc =
      if le con.normal_force nought
      then acc
      else let rot = entries d.xmat (9 * pos_part body) in
        let org = entries d.xpos (3 * pos_part body) in
        let rel =
          vec3 (sub (con.pos 0) (org 0)) (sub (con.pos 1) (org 1)) (sub (con.pos 2) (org 2)) in
        let local = u.mul_mat_t_vec rot rel in
        record acc {
          fz = add acc.fz con.normal_force;
          cop_x = add acc.cop_x (mul con.normal_force (local 0));
          cop_y = add acc.cop_y (mul con.normal_force (local 1));
        }

  -- One contact of the loop, for both feet.
  unfoldable pub press_foot :
      Mju D
      → Data D
      → FootIds
      → Option Foot
      → Contact D
      → FootAcc D × FootAcc D
      → FootAcc D × FootAcc D
  press_foot u d ids none con feet = feet
  press_foot u d ids (some Foot.left) con (l, r) = (add_contact u d ids.left_foot_body_id con l, r)
  press_foot u d ids (some Foot.right) con (l, r) =
      (l, add_contact u d ids.right_foot_body_id con r)

  unfoldable pub press_all :
      Mju D
      → Model D
      → Data D
      → FootIds
      → List (Contact D)
      → FootAcc D × FootAcc D
      → FootAcc D × FootAcc D
  press_all u m d ids [] feet = feet
  press_all u m d ids (con ∷ cs) feet =
      press_all u m d ids cs (press_foot u d ids (foot_of m ids con) con feet)

  -- The centre of pressure.
  unfoldable pub centre : FootAcc D → FootAcc D
  centre foot =
      if lt nought foot.fz
      then record foot { cop_x = div foot.cop_x foot.fz; cop_y = div foot.cop_y foot.fz }
      else foot

  unfoldable pub foot_state :
      Mju D → Model D → Data D → FootIds → List (Contact D) → FootAcc D × FootAcc D
  foot_state u m d ids cs =
      let (l, r) =
        press_all u m d ids cs (tilt d ids.left_foot_body_id, tilt d ids.right_foot_body_id) in
      (centre l, centre r)

  unfoldable pub base_quat : Data D → ModelMap → ℕ → D
  base_quat d map = elim map.root_body_id [
    | negsuc _ ↦ λ k. if k == 0 then unit else nought
    | pos body ↦ entries d.xquat (4 * body)
  ]

  -- The values of the row.
  unfoldable pub foot_row :
      Mju D → Model D → Data D → ModelMap → FootIds → List (Contact D) → List D
  foot_row u m d map ids cs =
      let (l, r) = foot_state u m d ids cs in
      d.time
      ∷ l.fz
      ∷ l.cop_x
      ∷ l.cop_y
      ∷ l.pitch
      ∷ l.roll
      ∷ r.fz
      ∷ r.cop_x
      ∷ r.cop_y
      ∷ r.pitch
      ∷ r.roll
      ∷ get_or (quat_to_rpy (base_quat d map)) 1 nought
      ∷ d.qpos (pos_part map.root_qpos_adr + 2)
      ∷ []
