-- ===== src/Robot/Joints.antt =====
-- The joints of the K1 in the order of the SDK (mujoco/shared/k1/JointIndex.hpp).
use nusim.Base.{ℕ, List, [], ◌∷◌}
use Prim.Native.String.{String}

abbrev pub head_yaw : ℕ
head_yaw = 0

abbrev pub head_pitch : ℕ
head_pitch = 1

abbrev pub left_hip_pitch : ℕ
left_hip_pitch = 10

abbrev pub joint_count : ℕ
joint_count = 22

-- The names of the joints and of their actuators.
abbrev pub joint_names : List String
joint_names =
    "AAHead_yaw" ∷ "Head_pitch" ∷ "ALeft_Shoulder_Pitch" ∷ "Left_Shoulder_Roll" ∷ "Left_Elbow_Pitch"
    ∷ "Left_Elbow_Yaw" ∷ "ARight_Shoulder_Pitch" ∷ "Right_Shoulder_Roll" ∷ "Right_Elbow_Pitch"
    ∷ "Right_Elbow_Yaw" ∷ "Left_Hip_Pitch" ∷ "Left_Hip_Roll" ∷ "Left_Hip_Yaw" ∷ "Left_Knee_Pitch"
    ∷ "Left_Ankle_Pitch" ∷ "Left_Ankle_Roll" ∷ "Right_Hip_Pitch" ∷ "Right_Hip_Roll"
    ∷ "Right_Hip_Yaw" ∷ "Right_Knee_Pitch" ∷ "Right_Ankle_Pitch" ∷ "Right_Ankle_Roll" ∷ []
