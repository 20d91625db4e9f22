-- ===== src/Infrastructure/EventPublisher.antt =====
-- infrastructure/messaging/event_publisher.py. Handlers are a parameter: a handler has a name, reads a
-- payload, changes the world of the program and may raise. Logging is left out, and so is a handler
-- that publishes, subscribes or clears by itself.
pub mod Delivery
use multi_cloud_ai_orchestra.Base.{
  String, Bool, List, [], ◌∷◌, ◌++◌, Option, none, some, Method, Result, ok, raised, skip, modify,
  gets, ◌>>=◌, ◌>>◌, Json, fstring,
}
use multi_cloud_ai_orchestra.Base.Dict.{Dict, get, put}

-- An event: its type and its payload.
abbrev pub Event : Type 0
Event = String × Dict Json

-- InMemoryEventPublisher, with the world that its handlers act on.
pub record Publisher (H W : Type 0) : Type 0 where
  pub events : List Event
  pub handlers : Dict (List H)
  pub world : W

-- `self._handlers.get(event_type, [])`
unfoldable pub handlers_of : {H : Type 0} → Option (List H) → List H
handlers_of none = []
handlers_of (some handlers) = handlers

module _ {H W E : Type 0} (handle : H → Dict Json → Method E W (Unit {0})) where
  abbrev pub Publish : Type 0
  Publish = Method E (Publisher H W) (Unit {0})

  -- `await handler(payload)`
  unfoldable pub call_handler : H → Dict Json → Publish
  call_handler h payload s =
      let (r, world) = handle h payload s.world in (r, record s { world = world })

  -- The loop over the handlers.
  unfoldable pub call_handlers : List H → Dict Json → Publish
  unfolding call_handler
  call_handlers [] payload = skip
  call_handlers (h ∷ handlers) payload = do call_handler h payload; call_handlers handlers payload

  unfoldable pub publish : String → Dict Json → Publish
  unfolding call_handlers handlers_of
  publish event_type payload = do
    modify (λ s. record s { events = s.events ++ (event_type, payload) ∷ [] })
    handlers ← gets (λ s. handlers_of (get event_type s.handlers))
    call_handlers handlers payload

  unfoldable pub publish_batch : List Event → Publish
  unfolding publish
  publish_batch [] = skip
  publish_batch ((event_type, payload) ∷ events) = do
    publish event_type payload
    publish_batch events

module _ {H W : Type 0} where
  unfoldable pub subscribe : String → H → Publisher H W → Publisher H W
  unfolding handlers_of
  subscribe event_type h s = record s {
    handlers = put event_type (handlers_of (get event_type s.handlers) ++ h ∷ []) s.handlers;
  }

  unfoldable pub clear : Publisher H W → Publisher H W
  clear s = record s { events = [] }

-- KafkaEventPublisher: the producer is a parameter, and so is the text of a payload as JSON.
pub record Producer (E K : Type 0) : Type 0 where
  pub send_and_wait : (topic : String) → (value : String) → Method E K (Unit {0})
  pub send : (topic : String) → (value : String) → Method E K (Unit {0})
  pub flush : Method E K (Unit {0})

module _ {E K : Type 0} (producer : Producer E K) (dumps : Dict Json → String)
    (topic_prefix : String) where
  -- `f"{self._topic_prefix}.{event_type}"`
  unfoldable pub topic_of : String → String
  unfolding fstring
  topic_of event_type = fstring (topic_prefix ∷ "." ∷ event_type ∷ [])

  unfoldable pub kafka_publish : String → Dict Json → Method E K (Unit {0})
  unfolding topic_of
  kafka_publish event_type payload = producer.send_and_wait (topic_of event_type) (dumps payload)

  -- The loop of publish_batch.
  unfoldable pub send_all : List Event → Method E K (Unit {0})
  unfolding topic_of
  send_all [] = skip
  send_all ((event_type, payload) ∷ events) = do
    producer.send (topic_of event_type) (dumps payload)
    send_all events

  unfoldable pub kafka_publish_batch : List Event → Method E K (Unit {0})
  unfolding send_all
  kafka_publish_batch events = do send_all events; producer.flush
