-- ===== src/Tests/Bridge.antt =====
-- The theorems on what the SDK bridge publishes, with thousandths for floats too.
use nusim.Base.{ℕ, ◌≡◌, refl, true, false, Option, none, some, List, [], ◌∷◌, ◌++◌, ℤ, pos}
use nusim.Double.Fixed.{fixed}
use nusim.Simulation.Snapshot.{SimStateUpdate}
use nusim.Sdk.Odometry.{Config}
use nusim.Sdk.Publisher.{new_publisher}
use nusim.Sdk.Bridge.{
  Session, Event, startup, state_update, second, shutdown, react_all, on_state_update,
}
use nusim.Sdk.Bridge.Falls.{seen, on_state_update-seen}
use nusim.Sdk.Bridge.Truthful.{reports, truthful_all, react_all-truthful}
use mathlib.Core.Option

abbrev zeros : ℕ → ℤ
zeros k = pos 0

abbrev to_float : ℤ → ℤ
to_float x = x

-- The robot's state at a time, with a fall state.
abbrev state : ℤ → ℤ → SimStateUpdate ℤ
state t fall = record {
  sim_time = t;
  step_count = 20;
  joints = λ i. record { q = pos i; dq = pos 0; ddq = pos 0; tau = pos 0 };
  imu = record { quat = zeros; rpy = pos 0 ∷ pos 0 ∷ pos 0 ∷ []; gyro = zeros; acc = zeros };
  base = record {
    x = pos 100;
    y = pos 200;
    z = pos 555;
    quat = zeros;
    lin_vel = zeros;
    ang_vel = zeros;
  };
  head = record { valid = true; position = zeros; quat = zeros };
  mode = pos 2;
  fall_state = fall;
  getting_up = false;
  measured_rtf = pos 1000;
}

abbrev odometry : Config ℤ
odometry = record {
  enabled = false;
  scale = λ i. pos 1000;
  velocity_noise_density = zeros;
  bias_sigma = zeros;
  bias_time_constant = λ i. pos 10000;
  seed = 1;
}

-- A session in which the robot has fallen.
abbrev session : List (Event ℤ)
session = startup (pos 100000) ∷ state_update 0 (state (pos 20) (pos 0)) ∷ second ∷ []

abbrev or_session : Option (Session ℤ) → Session ℤ
or_session none = record { state_publisher = new_publisher (pos 0); current_mode = pos 0 }
or_session (some b) = b

abbrev running : Session ℤ
running = or_session (react_all to_float zeros odometry session none).0

on_state_update-seen_example :
    (seen none (
        (react_all to_float zeros odometry session none).1
        ++ (on_state_update to_float zeros odometry 0 (state (pos 40) (pos 2)) (some running)).1)
      ≡ some (pos 2))
    × (Option.map
          (λ (b : Session ℤ). b.current_mode)
          (on_state_update to_float zeros odometry 0 (state (pos 40) (pos 2)) (some running)).0
        ≡ some (pos 2))
unfolding react_all
on_state_update-seen_example =
    on_state_update-seen to_float zeros odometry session 0 (state (pos 40) (pos 2)) running refl

-- With a restart.
react_all-truthful_example :
    reports (react_all to_float zeros odometry (shutdown ∷ session) none).1
    ≡ truthful_all to_float false (shutdown ∷ session)
react_all-truthful_example =
    react_all-truthful to_float zeros odometry (shutdown ∷ session) none refl
