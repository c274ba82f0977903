-- ===== src/Lib.antt =====
-- NUSim: the MuJoCo simulation of the K1 robot (mujoco/), as far as its own logic goes.
--
-- The simulator runs MuJoCo in a physics thread and lets the outside reach it in two ways. Clients
-- of the Booster SDK send requests and motor commands; these end as setters of the locomotion
-- controller, which writes the actuators' torques before every physics step. The RoboCup
-- GameController broadcasts packets; the supervisor moves the ball and the robots by them.
--
-- Base            shared names, list and integer helpers, Boolean tests
-- Double          the C++ `double` as a parameter, with the laws that the proofs use; Double/Fixed is
--                 an instance by thousandths, for the tests
-- MuJoCo          the parts of `mjModel` and `mjData` that the code uses, as parameters
-- Supervisor      mujoco/module/Supervisor/src
--   Packet          GameControllerPacket.hpp: the struct and `try_parse`
--   Placement       SupervisorPlacement.hpp: moving a free-jointed body
--   Config, Loader  SupervisorConfig.hpp: the records and the loader
--   Names           GameControllerPacket.hpp: the names for the log
--   Transitions     SupervisorLogic.hpp: what two packets in a row say
--   Logic           SupervisorLogic.hpp: `process` and all that it calls
--   Reaction        Supervisor.cpp: the reaction to a datagram
--   Reactor         Supervisor.cpp: the constructor, and all reactions over a run
-- Robot           mujoco/shared
--   Joints          k1/JointIndex.hpp
--   Booster         k1/BoosterApi.hpp: the enumerations and the topics
--   ModelMap        sim/ModelMap.hpp
--   Pd              sim/PdController.hpp
-- Locomotion      mujoco/module/Locomotion/src
--   Math            LocoMath.hpp
--   Types           LocomotionController.hpp: the state, the mailbox and the setters
--   Servo           LocomotionController.cpp: what each mode writes to the actuators
--   Controller      LocomotionController.hpp and .cpp: `step` and the rest of what it calls
--   Loader          LocomotionController.cpp: the constructor, from the values of the documents;
--                   Locomotion.cpp: the reaction to startup
--   Reactor         Locomotion.cpp: the reactions to messages
-- Message         mujoco/shared/message/Commands.hpp
-- Sdk             mujoco/module/SdkBridge/src
--   Json            the JSON library as a parameter
--   Dispatch        RpcDispatch.hpp and .cpp
--   Server          RpcServer.cpp: the callbacks of the readers
--   Odometry        OdometryModel.hpp and .cpp
--   Publisher       StatePublisher.hpp and .cpp
--   Bridge          SdkBridge.cpp: the reactions, from start to shutdown
--   Participant     DdsParticipant.hpp and .cpp, with the constructors of StatePublisher.cpp and
--                   RpcServer.cpp
--   Synthetic       mujoco/module/SdkBridge/test_support/SyntheticState.cpp
-- Simulation      mujoco/module/Simulation/src
--   Core            SimCore.cpp: loading, placing and resetting
--   Snapshot        mujoco/shared/message/SimMessages.hpp, mujoco/shared/sim/HeadPose.hpp and the
--                   parts of `make_snapshot`
--   Loop            SimCore.cpp: `physics_loop`, with the interface of
--                   mujoco/shared/sim/StepController.hpp, which the locomotion controller fills
--   Pacing          SimCore.cpp: the deadlines of `physics_loop` and the measured real-time factor
--   Sleep           SimCore.cpp: `sleep_until_monotonic`, as it is built for macOS
--   FootLog         SimCore.cpp: the values of a row of the foot log
--   Scene           SimCore.cpp: `load_multi_robot_model` and what `load_model` starts with
--   Threads         SimCore.cpp: `start`, `stop`, `unload`, `reset` and `physics_loop` as the moves of
--                   threads that come in any order
--   Reactor         Simulation.cpp: what the reactions call
--   Heartbeat       Simulation.cpp: the reaction that logs the base pose
-- Camera          mujoco/module/Camera/src
--   ImageWriter     SharedImageWriter.hpp and .cpp
--   PoseWriter      SharedPoseWriter.hpp and .cpp
--   Context         EglContext.hpp and OffscreenContext.hpp
--   Thread          Camera.cpp: the life of the render thread and the pacing of the frames
--   Rows, Renderer  Camera.cpp: the checks before the render loop and a round of it, with
--                   CameraConfig.hpp
-- Startup         what happens before the simulation runs
--   Cli             mujoco/shared/CliOptions.hpp
--   Spread, Game    mujoco/shared/util/Config.hpp: the line-up of a match
--   Settings        mujoco/shared/util/Config.hpp, and `build_sim_config` of
--                   mujoco/module/Simulation/src/Simulation.cpp
-- Commands        from a sample on rt/joint_ctrl to the actuators: Sdk/Server, Locomotion/Reactor and
--                 Locomotion/Controller together
-- ConsoleLog      mujoco/module/ConsoleLog/src/ConsoleLog.cpp
-- Viewer          mujoco/module/Viewer/src/Viewer.cpp: the mouse, the keys and the reactions
-- Tests           concrete runs
--
-- State is passed explicitly. An object of the code is a record, a method a function from the
-- object to the object and what it returns; what a method changes through a pointer (`mjData`) is
-- part of its result. An exception is an error value. An `int` that may be negative is a `ℤ`, any
-- other integer an `ℕ`, with the wrap-around written out where the code relies on one. An array is
-- a function of its index. Threads are modelled where they meet: a step of the controller takes the
-- list of setters that get the lock before it clears the motors, later ones come after it, and the
-- image writer is a sequence of single stores that a reader may look in between of. The threads of
-- the simulation core are one state and the moves of each, between two points at which another may
-- come in; a run is any list of moves that can be made. A loop that waits for the outside (samples,
-- physics steps, the clock) runs over the list of what arrives; nearly every other loop is over a
-- list or an array of known length. The exception is the sampling of half a field, whose two loops
-- count with doubles: they run on one supply of fuel, which is enough if it is above the numbers of
-- steps along the two sides. The loop that deletes a robot's keyframes runs on fuel as well, which
-- is enough if it is above their number.
--
-- The program's start reads the command line and the configuration files and gives the simulation
-- core its configuration; the core's snapshots go to the SDK bridge, which publishes them and
-- remembers the mode for the requests that ask for it; the camera reads the core's data itself.
--
-- Not modelled: OpenGL, DDS, MuJoCo, GLFW, NUClear and yaml-cpp, which are called only, so that what
-- they answer is a parameter or an argument; the drawing of the viewer's window and its overlay, the
-- texts of log lines, and the main programs, which install the modules.
pub mod ConsoleLog
pub mod Base
pub mod Double
pub mod MuJoCo
pub mod Supervisor
pub mod Robot
pub mod Locomotion
pub mod Message
pub mod Sdk
pub mod Simulation
pub mod Startup
pub mod Camera
pub mod Commands
pub mod Viewer
pub mod Tests
