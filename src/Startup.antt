-- ===== src/Startup.antt =====
-- What happens before the simulation runs: the command line (mujoco/shared/CliOptions.hpp), the
-- fields and the line-up of a match (mujoco/shared/util/Config.hpp), and the configuration that they
-- give (`build_sim_config` of mujoco/module/Simulation/src/Simulation.cpp).
pub mod Cli
pub mod Spread
pub mod Game
pub mod Settings
