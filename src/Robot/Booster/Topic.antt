-- ===== src/Robot/Booster/Topic.antt =====
-- The `TOPIC_` names.
use Prim.Native.String.{String}

abbrev pub low_state : String
low_state = "rt/low_state"

abbrev pub joint_ctrl : String
joint_ctrl = "rt/joint_ctrl"

abbrev pub odometer_state : String
odometer_state = "rt/odometer_state"

abbrev pub fall_down : String
fall_down = "rt/fall_down"

abbrev pub battery_state : String
battery_state = "rt/battery_state"

abbrev pub button_event : String
button_event = "rt/button_event"

abbrev pub rpc_request : String
rpc_request = "rt/LocoApiTopicReq"

abbrev pub rpc_response : String
rpc_response = "rt/LocoApiTopicResp"

abbrev pub ros_odometer : String
ros_odometer = "rt/odom"

abbrev pub head_pose : String
head_pose = "rt/head_pose"
