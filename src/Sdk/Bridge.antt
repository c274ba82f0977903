-- ===== src/Sdk/Bridge.antt =====
-- The reactor of the SDK bridge (mujoco/module/SdkBridge/src/SdkBridge.cpp): its publisher and the
-- server's `current_mode_` exist from its start to its shutdown. The DDS participant is left out.
pub mod Falls
pub mod Truthful
use nusim.Base.{ℕ, Bool, false, not, ◌&&◌, Option, none, some, List, [], ◌∷◌, ◌++◌, ℤ, pos}
use Prim.Native.String.{String}
use text.Mathlib.Text.{◌==◌ as str_eq}
use nusim.Double.{Double}
use nusim.Simulation.Snapshot.{SimStateUpdate}
use nusim.Sdk.Odometry.{Config}
use nusim.Sdk.Publisher.{StatePublisher, StateMessage, new_publisher, publish, publish_battery}

-- `K1_DDS_UDP_ONLY` and the like; `none` is a variable that is not set.
unfoldable pub env_flag_set : Option String → Bool
env_flag_set none = false
env_flag_set (some v) = not (str_eq v "0") && not (str_eq v "")

-- What the reactions share while the bridge runs.
pub record Session (D : Type 0) : Type 0 where
  pub state_publisher : StatePublisher D
  pub current_mode : ℤ

-- What the bridge reacts to: its start with the battery's charge, a state and the clock, a second
-- that has passed, and the shutdown.
pub data Event (D : Type 0) : Type 0 where
  startup : D → Event D
  state_update : ℕ → SimStateUpdate D → Event D
  second : Event D
  shutdown : Event D

module _ {D F : Type 0} ⦃f : Double D⦄ (to_float : D → F) (normals : ℕ → D) (cfg : Config D) where
  -- The reaction to a state.
  unfoldable pub on_state_update :
      ℕ → SimStateUpdate D → Option (Session D) → Option (Session D) × List (StateMessage D F)
  on_state_update now s none = (none, [])
  on_state_update now s (some b) =
      let (p, out) = publish to_float normals cfg now s b.state_publisher in
      (some (record { state_publisher = p; current_mode = s.mode }), out)

  unfoldable pub on_second : Option (Session D) → List (StateMessage D F)
  on_second none = []
  on_second (some b) = publish_battery to_float b.state_publisher

  unfoldable pub react : Event D → Option (Session D) → Option (Session D) × List (StateMessage D F)
  unfolding on_state_update on_second
  react (startup battery_soc) b =
      (some (record { state_publisher = new_publisher battery_soc; current_mode = pos 0 }), [])
  react (state_update now s) b = on_state_update now s b
  react second b = (b, on_second b)
  react shutdown b = (none, [])

  -- Events in turn: the bridge after them, and all that was published.
  unfoldable pub react_all :
      List (Event D) → Option (Session D) → Option (Session D) × List (StateMessage D F)
  unfolding react
  react_all [] b = (b, [])
  react_all (e ∷ es) b =
      let (b', out) = react e b in let (b'', more) = react_all es b' in (b'', out ++ more)
