-- ===== src/Sdk/Participant.antt =====
-- The DDS participant (mujoco/module/SdkBridge/src/DdsParticipant.hpp and .cpp), with the writers and
-- readers that StatePublisher.cpp and RpcServer.cpp make of it. What the DDS library answers is
-- given; what it is asked to create, register or delete is recorded in its order.
pub mod Topics
use nusim.Base.{
  ℕ, Bool, true, false, not, Option, none, some, List, [], ◌∷◌, ◌++◌, map, if◌then◌else◌, ℤ,
}
use Prim.Native.String.{String}
use text.Mathlib.Text.{◌==◌ as str_eq}
use nusim.Robot.Booster.Topic

pub record DdsLibrary (T : Type 0) : Type 0 where
  -- false for a null pointer
  pub create_participant : ℤ → Bool → Bool
  pub create_publisher : Bool
  pub create_subscriber : Bool
  -- of a name and a type's name
  pub create_topic : String → String → Option T

pub data DdsCall : Type 0 where
  participant_created publisher_created subscriber_created : DdsCall
  entities_deleted participant_deleted : DdsCall
  type_registered : String → DdsCall
  topic_created : String → DdsCall

pub data DdsFailure : Type 0 where
  no_participant : ℤ → DdsFailure
  no_publisher no_subscriber : DdsFailure
  no_topic : String → DdsFailure

pub record DdsParticipant (T : Type 0) : Type 0 where
  pub topics : List (String × T)
  pub calls : List DdsCall  -- the latest first

pub data Attempt {ℓ} (A : Type ℓ) : Type ℓ where
  done : A → Attempt A
  thrown : DdsFailure → List DdsCall → Attempt A

infixl 5 ◌>>=◌
abbrev pub ◌>>=◌ {ℓ ℓ'} : {A : Type ℓ} {B : Type ℓ'} → Attempt A → (A → Attempt B) → Attempt B
done a >>= g = g a
thrown e calls >>= g = thrown e calls

pub record Qos : Type 0 where
  pub reliable : Bool
  pub volatile : Bool  -- set, not left at the default
  pub keep_last : Bool
  pub depth : ℕ

unfoldable pub state_writer_qos : ℕ → Qos
state_writer_qos depth = record {
  reliable = true;
  volatile = true;
  keep_last = true;
  depth = depth;
}

unfoldable pub rpc_request_reader_qos : ℕ → Qos
rpc_request_reader_qos depth = record {
  reliable = true;
  volatile = false;
  keep_last = true;
  depth = depth;
}

-- std::map's find
unfoldable pub find_topic : {T : Type 0} → String → List (String × T) → Option T
find_topic name [] = none
find_topic name ((n, t) ∷ rest) = if str_eq n name then some t else find_topic name rest

module _ {T : Type 0} (dds : DdsLibrary T) where
  -- The constructor. Its exceptions leave what was created: no destructor runs.
  unfoldable pub new_participant : ℤ → Bool → Attempt (DdsParticipant T)
  new_participant domain_id udp_only =
      if not (dds.create_participant domain_id udp_only)
      then thrown (no_participant domain_id) []
      else if not dds.create_publisher
      then thrown no_publisher (participant_created ∷ [])
      else if not dds.create_subscriber
      then thrown no_subscriber (publisher_created ∷ participant_created ∷ [])
      else done (record {
        topics = [];
        calls = subscriber_created ∷ publisher_created ∷ participant_created ∷ [];
      })

  unfoldable pub delete_participant : DdsParticipant T → List DdsCall
  delete_participant p = participant_deleted ∷ entities_deleted ∷ p.calls

  unfoldable pub create_topic :
      String → String → DdsParticipant T → Option T → Attempt (T × DdsParticipant T)
  create_topic name type_name p none = thrown (no_topic name) (type_registered type_name ∷ p.calls)
  create_topic name type_name p (some topic) = done (
    topic,
    record {
      topics = (name, topic) ∷ p.topics;
      calls = topic_created name ∷ type_registered type_name ∷ p.calls;
    },
  )

  unfoldable pub cached_topic :
      String → String → DdsParticipant T → Option T → Attempt (T × DdsParticipant T)
  cached_topic name type_name p (some topic) = done (topic, p)
  cached_topic name type_name p none =
      create_topic name type_name p (dds.create_topic name type_name)

  unfoldable pub get_or_create_topic :
      String → String → DdsParticipant T → Attempt (T × DdsParticipant T)
  unfolding cached_topic create_topic
  get_or_create_topic name type_name p = cached_topic name type_name p (find_topic name p.topics)

  -- The topics of writers and readers, one after the other.
  unfoldable pub get_topics :
      List (String × String) → DdsParticipant T → Attempt (List T × DdsParticipant T)
  get_topics [] p = done ([], p)
  get_topics ((name, type_name) ∷ rest) p = do
    (topic, p1) ← get_or_create_topic name type_name p
    (topics, p2) ← get_topics rest p1
    done (topic ∷ topics, p2)

-- A writer or a reader: its topic and its quality of service.
pub data Entity : Type 0 where
  writer : String → Qos → Entity
  reader : String → Qos → Entity

abbrev topic_of : Entity → String
topic_of (writer name qos) = name
topic_of (reader name qos) = name

-- What the constructors of StatePublisher and RpcServer create.
unfoldable pub publisher_entities : List Entity
unfolding state_writer_qos
publisher_entities =
    map (λ name. writer name (state_writer_qos 5))
      (Topic.low_state ∷ Topic.odometer_state ∷ Topic.ros_odometer ∷ Topic.head_pose
        ∷ Topic.fall_down ∷ Topic.battery_state ∷ Topic.button_event ∷ [])

unfoldable pub server_entities : List Entity
unfolding state_writer_qos rpc_request_reader_qos
server_entities =
    reader Topic.rpc_request (rpc_request_reader_qos 10)
    ∷ writer Topic.rpc_response (state_writer_qos 5)
    ∷ reader Topic.joint_ctrl (rpc_request_reader_qos 5)
    ∷ []

-- The participant of the bridge, with the topics of its entities; `type_name` is what the generated
-- types are called.
unfoldable pub open_bridge :
    {T : Type 0} → DdsLibrary T → (String → String) → ℤ → Bool → Attempt (List T × DdsParticipant T)
unfolding publisher_entities server_entities
open_bridge dds type_name domain udp_only = do
  p ← new_participant dds domain udp_only
  get_topics dds
      (map (λ e. (topic_of e, type_name (topic_of e))) (publisher_entities ++ server_entities)) p
