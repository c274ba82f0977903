-- ===== src/Simulation/Threads.antt =====
-- The threads of a core (`start`, `stop`, `unload`, `reset` and `physics_loop` of
-- mujoco/module/Simulation/src/SimCore.cpp, with the calls of Simulation.cpp): the physics thread,
-- the owner, whose calls come one after the other, and any number of clients, which lock the mutex
-- to reset or to read the data. A move is what one thread does between two points at which another
-- may come in between.
pub mod Sound
pub mod Stopping
pub mod Returning
pub mod Freed
use nusim.Base.{ℕ, ◌≡◌, Bool, true, false, not, Option, none, some, List, [], ◌∷◌, if◌then◌else◌}
use nusim.MuJoCo.{write}

-- Where the physics thread is; `pacing` is after the mutex is released.
pub data Pc : Type 0 where
  testing locking stepping pacing ended : Pc

-- Where the owner is. `joining` is in `stop`, with whether `unload` is called after it.
pub data Owner : Type 0 where
  idle spawning : Owner
  joining : Bool → Owner
  closing freeing_data freeing_model : Owner

pub data Client : Type 0 where
  resting waiting inside : Client

-- Who holds the mutex.
pub data Holder : Type 0 where
  nobody thread : Holder
  client : ℕ → Holder

pub record System : Type 0 where
  pub running : Bool
  pub joinable : Bool
  pub physics : Pc
  pub owner : Owner
  pub clients : ℕ → Client
  pub holder : Holder
  pub log_open : Bool
  pub has_data : Bool
  pub has_model : Bool

pub data Turn : Type 0 where
  start spawn : Turn
  stop : Bool → Turn
  join close_log free_data free_model : Turn
  test_running lock_data mj_step sleep : Turn
  ask enter leave : ℕ → Turn

-- A core whose model is loaded, with or without a foot log.
unfoldable pub loaded : Bool → System
loaded log_open = record {
  running = false;
  joinable = false;
  physics = Pc.ended;
  owner = Owner.idle;
  clients = λ i. Client.resting;
  holder = Holder.nobody;
  log_open = log_open;
  has_data = true;
  has_model = true;
}

-- The owner's calls: `start`, whose thread is made after the flag is set, `stop`, which joins after
-- it is cleared, and `unload`.
unfoldable pub own : Turn → Owner → System → Option System
own Turn.start Owner.idle s =
    if not s.has_data
    then none
    else if s.running
    then some s
    else some (record s { running = true; owner = Owner.spawning })
own Turn.spawn Owner.spawning s =
    some (record s { physics = Pc.testing; joinable = true; owner = Owner.idle })
own (Turn.stop unloads) Owner.idle s =
    some (record s { running = false; owner = Owner.joining unloads })
own Turn.join (Owner.joining unloads) s =
    let next = if unloads then Owner.closing else Owner.idle in
    if s.joinable
    then elim s.physics [ Pc.ended ↦ some (record s { joinable = false; owner = next }) | _ ↦ none ]
    else some (record s { owner = next })
own Turn.close_log Owner.closing s =
    some (record s { log_open = false; owner = Owner.freeing_data })
own Turn.free_data Owner.freeing_data s =
    some (record s { has_data = false; owner = Owner.freeing_model })
own Turn.free_model Owner.freeing_model s =
    some (record s { has_model = false; owner = Owner.idle })
own _ _ s = none

-- A round of the physics thread.
unfoldable pub physics_move : Turn → Pc → System → Option System
physics_move Turn.test_running Pc.testing s =
    some (record s { physics = if s.running then Pc.locking else Pc.ended })
physics_move Turn.lock_data Pc.locking s = elim s.holder [
  | Holder.nobody ↦ some (record s { physics = Pc.stepping; holder = Holder.thread })
  | _ ↦ none
]
physics_move Turn.mj_step Pc.stepping s =
    some (record s { physics = Pc.pacing; holder = Holder.nobody })
physics_move Turn.sleep Pc.pacing s = some (record s { physics = Pc.testing })
physics_move _ _ s = none

-- A client waits for the mutex, has it, and lets it go.
unfoldable pub client_move : Turn → Client → System → Option System
client_move (Turn.ask i) Client.resting s =
    some (record s { clients = write s.clients i Client.waiting })
client_move (Turn.enter i) Client.waiting s = elim s.holder [
  | Holder.nobody ↦
      some (record s { clients = write s.clients i Client.inside; holder = Holder.client i })
  | _ ↦ none
]
client_move (Turn.leave i) Client.inside s =
    some (record s { clients = write s.clients i Client.resting; holder = Holder.nobody })
client_move _ _ s = none

-- A move of whichever thread makes it, `none` where it cannot be made.
unfoldable pub perform : Turn → System → Option System
unfolding own physics_move client_move
perform (Turn.ask i) s = client_move (Turn.ask i) (s.clients i) s
perform (Turn.enter i) s = client_move (Turn.enter i) (s.clients i) s
perform (Turn.leave i) s = client_move (Turn.leave i) (s.clients i) s
perform Turn.test_running s = physics_move Turn.test_running s.physics s
perform Turn.lock_data s = physics_move Turn.lock_data s.physics s
perform Turn.mj_step s = physics_move Turn.mj_step s.physics s
perform Turn.sleep s = physics_move Turn.sleep s.physics s
perform m s = own m s.owner s

-- What the threads can get to, in any order of their moves.
pub data Reach (s : System) : List Turn → System → Type 0 where
  here : Reach s [] s
  next :
      {ms : List Turn} {t u : System}
      → Reach s ms t
      → (m : Turn) → perform m t ≡ some u
      → Reach s (m ∷ ms) u
