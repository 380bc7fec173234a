-- ===== src/Bus.antt =====
-- EventBus of internal/events/bus.go. A subscriber is its id with its filter, the events in the buffer
-- of its channel, oldest first, and whether the channel is closed; a channel outlives its place in
-- the map, so the channels that were closed are kept.
pub mod Delivery
mod Tests
use blackgrid.Prelude.{
  ℕ, suc, ◌==◌, ltb, String, Bool, true, false, if◌then◌else◌, ◌&&◌, not, none, some, List, [], ◌∷◌,
  ◌++◌, length, any_of, find_by, remove_by, map,
}
use text.Mathlib.Text.{◌==◌ as str_eq}
use blackgrid.Model.{Event, EventType, event_type_eq}

pub record EventFilter : Type 0 where
  pub types : List EventType
  pub object_types : List String

pub record Subscriber : Type 0 where
  pub id : ℕ
  pub filter : EventFilter
  pub buffer : List Event

-- `closed_channels` are the subscribers whose channel was closed, newest first.
pub record EventBus : Type 0 where
  pub subscribers : List Subscriber
  pub closed_channels : List Subscriber
  pub next_id : ℕ
  pub closed : Bool

abbrev pub subscriber_id_of : Subscriber → ℕ
subscriber_id_of x = x.id

abbrev pub buffer_size : ℕ
buffer_size = 100

abbrev pub new_event_bus : EventBus
new_event_bus = record { subscribers = []; closed_channels = []; next_id = 0; closed = false }

-- An empty list of a filter lets everything through.
abbrev pub passes {ℓ} : {A : Type ℓ} → (A → Bool) → List A → Bool
passes p [] = true
passes p (x ∷ xs) = any_of p (x ∷ xs)

abbrev pub event_matches : Event → EventFilter → Bool
event_matches e f =
    passes (λ t. event_type_eq t e.event_type) f.types
    && passes (λ t. str_eq t e.object_type) f.object_types

-- select { case sub.ch <- event: default: }
abbrev pub offer : Event → Subscriber → Subscriber
offer e x =
    if event_matches e x.filter && ltb (length x.buffer) buffer_size
    then record x { buffer = x.buffer ++ e ∷ [] }
    else x

unfoldable pub publish_to_bus : Event → EventBus → EventBus
publish_to_bus e b = if b.closed then b else record b { subscribers = map (offer e) b.subscribers }

-- The result is the id of the new subscriber, which its `unsubscribe` closes over.
unfoldable pub subscribe : EventFilter → EventBus → ℕ × EventBus
subscribe f b = (
  b.next_id,
  record b {
    subscribers = record { id = b.next_id; filter = f; buffer = [] } ∷ b.subscribers;
    next_id = suc b.next_id;
  },
)

unfoldable pub unsubscribe : ℕ → EventBus → EventBus
unsubscribe id b = elim (find_by subscriber_id_of id b.subscribers) [
  | none ↦ b
  | some x ↦ record b {
    subscribers = remove_by subscriber_id_of id b.subscribers;
    closed_channels = x ∷ b.closed_channels;
  }
]

unfoldable pub shutdown : EventBus → EventBus
shutdown b = record b {
  closed = true;
  subscribers = [];
  closed_channels = b.subscribers ++ b.closed_channels;
}
