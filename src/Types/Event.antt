-- ===== src/Types/Event.antt =====
-- The event envelope: crates/types/src/trajectory/event.rs. A time stamp counts nanoseconds.
use sondera_coding_agent_hoo.Prelude.{ℕ, Option, none, some}
use sondera_coding_agent_hoo.Prelude.Text.{Text}
use sondera_coding_agent_hoo.Types.Agent.{Agent}
use sondera_coding_agent_hoo.Types.Action.{Action}
use sondera_coding_agent_hoo.Types.Observation.{Observation}
use sondera_coding_agent_hoo.Types.Control.{Control}
use sondera_coding_agent_hoo.Types.State.{State}

pub data ActorType : Type 0 where
  human agent system policy : ActorType

pub record Actor : Type 0 where
  pub id : Text
  pub actor_type : ActorType

pub record Causality : Type 0 where
  pub correlation_id : Text
  pub causation_id : Option Text
  pub parent_id : Option Text

pub data TrajectoryEvent : Type 0 where
  action : Action → TrajectoryEvent
  observation : Observation → TrajectoryEvent
  control : Control → TrajectoryEvent
  state : State → TrajectoryEvent

pub record Event : Type 0 where
  pub event_id : Text
  pub trajectory_id : Text
  pub agent : Agent
  pub timestamp : ℕ
  pub event : TrajectoryEvent
  pub actor : Actor
  pub causality : Causality

-- What `Uuid::new_v4` and `Utc::now` return to one `Event::new`.
pub record Fresh : Type 0 where
  pub event_id : Text
  pub correlation_id : Text
  pub now : ℕ

-- `Causality::default()` and `caused_by`.
unfoldable pub default_causality : Text → Causality
default_causality id = record { correlation_id = id; causation_id = none; parent_id = none }

unfoldable pub caused_by : Text → Causality → Causality
caused_by id c = record c { causation_id = some id }

-- `Event::new`; the texts of `fresh` include their prefixes.
unfoldable pub new_event : Fresh → Agent → Text → TrajectoryEvent → Event
unfolding default_causality
new_event fresh who trajectory what = record {
  event_id = fresh.event_id;
  trajectory_id = trajectory;
  agent = who;
  timestamp = fresh.now;
  event = what;
  actor = record { id = who.id; actor_type = ActorType.agent };
  causality = default_causality fresh.correlation_id;
}

unfoldable pub with_actor : Actor → Event → Event
with_actor a e = record e { actor = a }

unfoldable pub with_causality : Causality → Event → Event
with_causality c e = record e { causality = c }
