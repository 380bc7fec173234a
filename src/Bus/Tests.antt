-- ===== src/Bus/Tests.antt =====
-- The event bus at concrete inputs.
use blackgrid.Prelude.{ℕ, ◌≡◌, refl, some, List, [], ◌∷◌, find_by}
use blackgrid.Model.{Event, EventType, incident_opened, incident_resolved, user_changed}
use blackgrid.Bus.{EventFilter, subscriber_id_of, buffer_size, new_event_bus, subscribe}
use blackgrid.Bus.Delivery.{publish_all_to, accepted, subscribe-publish_all_to}

abbrev incidents_only : EventFilter
incidents_only = record { types = incident_opened ∷ incident_resolved ∷ []; object_types = [] }

abbrev event_of : EventType → ℕ → Event
event_of t id = record { event_type = t; object_type = "incident"; object_id = id; payload = [] }

abbrev events : List Event
events = event_of incident_opened 1 ∷ event_of user_changed 2 ∷ event_of incident_resolved 1 ∷ []

accepted_run :
    accepted incidents_only buffer_size events
    ≡ event_of incident_opened 1 ∷ event_of incident_resolved 1 ∷ []
accepted_run = refl

subscribe-publish_all_to_example :
    find_by subscriber_id_of
      (subscribe incidents_only new_event_bus).0
      (publish_all_to events (subscribe incidents_only new_event_bus).1).subscribers
    ≡ some (record {
      id = 0;
      filter = incidents_only;
      buffer = accepted incidents_only buffer_size events;
    })
subscribe-publish_all_to_example = subscribe-publish_all_to incidents_only events new_event_bus refl
