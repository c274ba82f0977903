-- ===== src/Tests/Threads.antt =====
-- The theorems on threads, scenes, contexts and participants, on concrete runs.
use nusim.Base.{
  ℕ, ◌+◌, ◌-◌, ◌≤◌, ◌≡◌, refl, ◌≢◌, true, false, none, some, List, [], ◌∷◌, ltb, leb, ◌==◌,
  if◌then◌else◌, ℤ, pos,
}
use nusim.Sdk.Participant.Topics.{created, Finds, get_topics-created}
use Prim.Native.String.{String}
use text.Mathlib.Text.{◌==◌ as str_eq}
use nusim.Double.Fixed.{fixed}
use nusim.Simulation.Threads.{Pc, Owner, Client, Holder, System, Turn, Reach, loaded, perform}
use nusim.Simulation.Threads.Sound.{Reach-IsExclusive}
use nusim.Simulation.Threads.Stopping.{count_steps, Reach-stops}
use nusim.Simulation.Threads.Returning.{Returns, Reach-Returns}
use nusim.Simulation.Threads.Freed.{Reach-frees}
use nusim.Simulation.Scene.{
  SpecApi, built, compile_model, load_multi_robot_model, robot_xml, directory, resolve_path,
  attach_copies, compile_scene, delete_keys,
}
use nusim.Simulation.Scene.Released.{Live, watch_all, attached, compile_model-releases}
use nusim.Sdk.Participant.{
  DdsLibrary, DdsParticipant, done, subscriber_created, publisher_created, participant_created,
  topic_created, type_registered, get_topics, get_or_create_topic, find_topic, new_participant,
}
use nusim.MuJoCo.{Model}
use nusim.Tests.Fixtures.{pitch}
use nusim.Tests.Simulation.{engine, sim_config}
use nusim.Simulation.Core.{SimConfig}

-- The thread is made; client 7 has come in first, and the thread is about to test the flag.
abbrev started : System
started = record {
  running = true;
  joinable = true;
  physics = Pc.testing;
  owner = Owner.idle;
  clients =
      λ i. if i == 7 then Client.inside else if i == 7 then Client.waiting else Client.resting;
  holder = Holder.client 7;
  log_open = false;
  has_data = true;
  has_model = true;
}

abbrev first_moves : List Turn
first_moves = Turn.enter 7 ∷ Turn.ask 7 ∷ Turn.spawn ∷ Turn.start ∷ []

started-Reach : Reach (loaded false) first_moves started
unfolding loaded perform
started-Reach =
    Reach.next
      (Reach.next (Reach.next (Reach.next Reach.here Turn.start refl) Turn.spawn refl) (Turn.ask 7)
        refl)
      (Turn.enter 7) refl

Reach-frees_example :
    (us : List Turn) × (t : System) × Reach started us t
    × (t.clients 7 ≡ Client.inside)
    × (t.has_data ≡ false)
Reach-frees_example = Reach-frees false 7 started-Reach refl refl refl

-- The thread waits for the mutex; the owner has cleared the flag.
abbrev stopping : System
stopping = record started { running = false; owner = Owner.joining true; physics = Pc.locking }

stopping-Reach : Reach (loaded false) (Turn.stop true ∷ Turn.test_running ∷ first_moves) stopping
unfolding perform
stopping-Reach = Reach.next (Reach.next started-Reach Turn.test_running refl) (Turn.stop true) refl

Reach-Returns_example : Returns true stopping
Reach-Returns_example = Reach-Returns false true stopping-Reach refl

-- The client leaves, and the thread steps.
abbrev last_step : List Turn
last_step = Turn.mj_step ∷ Turn.lock_data ∷ Turn.leave 7 ∷ []

abbrev stepping : System
stepping = record stopping {
  physics = Pc.stepping;
  holder = Holder.thread;
  clients = λ i. if i == 7 then Client.resting else started.clients i;
}

stepping-Reach : Reach stopping (Turn.lock_data ∷ Turn.leave 7 ∷ []) stepping
unfolding perform
stepping-Reach = Reach.next (Reach.next Reach.here (Turn.leave 7) refl) Turn.lock_data refl

stepped-Reach :
    Reach stopping last_step (record stepping { physics = Pc.pacing; holder = Holder.nobody })
unfolding perform
stepped-Reach = Reach.next stepping-Reach Turn.mj_step refl

Reach-stops_example : count_steps last_step ≤ 1
Reach-stops_example = Reach-stops false stopping-Reach refl stepped-Reach (refl, (refl, (refl, tt)))

whole-Reach :
    Reach
      (loaded false)
      (Turn.lock_data ∷ Turn.leave 7 ∷ Turn.stop true ∷ Turn.test_running ∷ first_moves)
      stepping
unfolding perform
whole-Reach = Reach.next (Reach.next stopping-Reach (Turn.leave 7) refl) Turn.lock_data refl

Reach-IsExclusive_example :
    (stepping.physics ≡ Pc.stepping
      → ((i : ℕ) → stepping.clients i ≢ Client.inside)
        × (stepping.has_data ≡ true)
        × (stepping.has_model ≡ true))
    × ((i j : ℕ) → stepping.clients i ≡ Client.inside → stepping.clients j ≡ Client.inside → i ≡ j)
    × (stepping.owner ≡ Owner.spawning → stepping.joinable ≡ false)
Reach-IsExclusive_example = Reach-IsExclusive false whole-Reach

-- A spec is a number of keyframes; the scene is "/m/scene.xml"; it takes two copies at most.
abbrev specs : SpecApi ℤ ℕ
specs = record {
  load_xml = λ s. none;
  parse_xml = λ s.
      if str_eq s "/m/scene.xml"
      then some 0
      else if str_eq s "/m/K1_22dof.xml"
      then some 2
      else none;
  has_key = λ n. ltb 0 n;
  delete_key = λ n. n - 1;
  attach = λ scene place robot prefix. if leb 2 scene then none else some (scene + 1);
  compile = λ n. some pitch;
}

abbrev three_robots : SimConfig ℤ
three_robots = record sim_config { robots = pos 3; model_path = "m/scene.xml" }

compile_model-releases_example :
    let (events, result) = compile_model engine specs "" 9 three_robots in
    (watch_all events Live.nothing ≡ some Live.nothing)
    × ((m : Model ℤ) → result ≡ built m → attached events ≡ 1 ∷ 2 ∷ [])
compile_model-releases_example = compile_model-releases engine specs 9 "" three_robots

-- Both copies are attached.
compiled : (compile_model engine specs "" 9 three_robots).1 ≡ built pitch
unfolding compile_model load_multi_robot_model robot_xml directory resolve_path attach_copies
    compile_scene delete_keys
compiled = refl

beside_the_scene : robot_xml "/m/scene.xml" ≡ "/m/K1_22dof.xml"
unfolding robot_xml directory
beside_the_scene = refl

abbrev library : DdsLibrary String
library = record {
  create_participant = λ domain udp. true;
  create_publisher = true;
  create_subscriber = true;
  create_topic = λ name ty. some name;
}

abbrev bare : DdsParticipant String
bare = record {
  topics = [];
  calls = subscriber_created ∷ publisher_created ∷ participant_created ∷ [];
}

-- The first topic is asked for twice.
abbrev asked : List (String × String)
asked = ("rt/odom", "Odometry") ∷ ("rt/low_state", "LowState") ∷ ("rt/odom", "Odometry") ∷ []

abbrev topics_after : DdsParticipant String
topics_after = record {
  topics = ("rt/low_state", "rt/low_state") ∷ ("rt/odom", "rt/odom") ∷ [];
  calls =
      topic_created "rt/low_state"
      ∷ type_registered "LowState"
      ∷ topic_created "rt/odom"
      ∷ type_registered "Odometry"
      ∷ bare.calls;
}

abbrev given : List String
given = "rt/odom" ∷ "rt/low_state" ∷ "rt/odom" ∷ []

opened : new_participant library (pos 0) false ≡ done bare
unfolding new_participant
opened = refl

asked_for : get_topics library asked bare ≡ done (given, topics_after)
unfolding get_topics get_or_create_topic find_topic
asked_for = refl

get_topics-created_example :
    ((n : String) → created n topics_after.calls ≤ 1)
    × Finds topics_after asked given
    × ((n ty : String) (t : String)
        → find_topic n topics_after.topics ≡ some t
        → get_or_create_topic library n ty topics_after ≡ done (t, topics_after))
get_topics-created_example =
    get_topics-created library (pos 0) false asked bare topics_after given opened asked_for
