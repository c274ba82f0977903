-- ===== src/Supervisor/Reactor.antt =====
-- The supervisor as a reactor (the constructor in mujoco/module/Supervisor/src/Supervisor.cpp):
-- which reactions it installs, and what they do. Whether the UDP port can be bound is given. What
-- the simulation makes of the data between two reactions is an event of its own.
pub mod Followed
use nusim.Base.{ℕ, Bool, not, none, some, List, [], ◌∷◌, ◌++◌, if◌then◌else◌}
use nusim.Double.{Double}
use nusim.MuJoCo.{Data}
use nusim.Supervisor.Config.{SupervisorConfig}
use nusim.Supervisor.Logic.{start}
use nusim.Supervisor.Reaction.{Supervisor, Handles, LogLine, on_udp}

-- What the constructor has come to: the return under `!enabled`, the catch, or its end.
pub data Installed : Type 0 where
  disabled unbound bound : Installed

pub record SupervisorReactor (D : Type 0) : Type 0 where
  pub installed : Installed
  pub supervisor : Supervisor D

pub data SupervisorEvent (D : Type 0) : Type 0 where
  startup shutdown : SupervisorEvent D
  sim_handles : Handles D → SupervisorEvent D
  udp : List ℕ → SupervisorEvent D
  simulated : Data D → SupervisorEvent D

pub data ReactorLine (D : Type 0) : Type 0 where
  is_disabled could_not_bind is_ready shutting_down : ReactorLine D
  reaction : LogLine D → ReactorLine D

abbrev pub reactions : {D : Type 0} → List (LogLine D) → List (ReactorLine D)
reactions [] = []
reactions (l ∷ ls) = reaction l ∷ reactions ls

module _ {D : Type 0} where
  abbrev pub installing : SupervisorConfig D → Bool → Installed × List (ReactorLine D)
  installing cfg binds =
      if not cfg.enabled
      then (disabled, [])
      else if binds
      then (bound, [])
      else (unbound, could_not_bind ∷ [])

  -- on<Startup>; it says that it is ready where the port could not be bound, too.
  unfoldable pub startup_line : Installed → List (ReactorLine D)
  startup_line disabled = is_disabled ∷ []
  startup_line unbound = is_ready ∷ []
  startup_line bound = is_ready ∷ []

  -- The data that the handles point to, changed by the simulation.
  abbrev pub write_data : Data D → Supervisor D → Supervisor D
  write_data d s = elim s.handles [
    | none ↦ s
    | some h ↦ record s { handles = some (record h { data_ = d }) }
  ]

module _ {D : Type 0} ⦃f : Double D⦄ where
  -- The constructor.
  unfoldable pub construct_supervisor :
      SupervisorConfig D → Bool → SupervisorReactor D × List (ReactorLine D)
  construct_supervisor cfg binds =
      let (installed, lines) = installing cfg binds in
      (
        record { installed = installed; supervisor = record { logic = start cfg; handles = none } },
        lines,
      )

  -- A datagram, where there is a reaction to it.
  unfoldable pub on_datagram :
      Installed → List ℕ → Supervisor D → Supervisor D × List (ReactorLine D)
  on_datagram bound payload s = let (s', lines) = on_udp payload s in (s', reactions lines)
  on_datagram _ payload s = (s, [])

  unfoldable pub supervise :
      SupervisorEvent D → SupervisorReactor D → SupervisorReactor D × List (ReactorLine D)
  unfolding startup_line on_datagram
  supervise startup r = (r, startup_line r.installed)
  supervise shutdown r = (r, shutting_down ∷ [])
  supervise (sim_handles h) r =
      (record r { supervisor = record r.supervisor { handles = some h } }, [])
  supervise (udp payload) r =
      let (s', lines) = on_datagram r.installed payload r.supervisor in
      (record r { supervisor = s' }, lines)
  supervise (simulated d) r = (record r { supervisor = write_data d r.supervisor }, [])

  unfoldable pub supervise_all :
      List (SupervisorEvent D) → SupervisorReactor D → SupervisorReactor D × List (ReactorLine D)
  supervise_all [] r = (r, [])
  supervise_all (e ∷ es) r =
      let (r1, lines) = supervise e r in let (r2, more) = supervise_all es r1 in (r2, lines ++ more)
