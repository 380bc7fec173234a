-- ===== src/Notifications/Delivery.antt =====
-- deliver, dispatch, TestChannel, SendIncidentOpened and SendIncidentResolved. The network answers for
-- each channel by itself.
use blackgrid.Prelude.{
  ℕ, String, Bool, if◌then◌else◌, Option, none, some, List, [], ◌∷◌, ◌++◌, sprintf, Result, ok, err,
  suc,
}
use blackgrid.Model.{
  EventType, notification_sent, notification_failed, Notice, send_incident_opened,
  send_incident_resolved,
}
use blackgrid.Secrets.{Fields}
use blackgrid.Notifications.{
  ChannelType, webhook, smtp, NotificationChannel, NotificationDelivery, DeliveryStatus, sent,
  failed, DeliveryEvent, NotificationStore, NotificationQuery, create_delivery_row,
  list_enabled_channels, NotificationError, Library, enabled_channels,
}
use blackgrid.Notifications.Mask.{text_or_empty}
use blackgrid.Notifications.Channels.{get_channel}
use blackgrid.Notifications.Payload.{
  NotificationEvent, incident_opened, incident_resolved, test, event_word, build_incident_payload,
  test_payload,
}
use blackgrid.Notifications.Sending.{Network, send_webhook, send_smtp}

-- The service: `error_text` is the text of one of its errors, and has_bus says whether it has a bus.
pub record NotificationService : Type 0 where
  pub library : Library
  pub error_text : NotificationError → String
  pub has_bus : Bool

-- The switch of deliver.
unfoldable pub send_to :
    NotificationService → Network → NotificationChannel → NotificationEvent → Fields → Option String
unfolding send_webhook send_smtp
send_to svc net c event payload = elim c.channel_type [
  | webhook ↦
      send_webhook svc.library svc.error_text net c.config (svc.library.write_map (some payload))
  | smtp ↦ send_smtp svc.library svc.error_text net c.config (event_word event) payload
  | ChannelType.other t ↦ some (sprintf ("unsupported channel type: " ∷ t ∷ []))
]

abbrev pub delivery_status : Option String → DeliveryStatus
delivery_status none = sent
delivery_status (some _) = failed

abbrev pub sent_time : ℕ → Option String → Option ℕ
sent_time now none = some now
sent_time now (some _) = none

abbrev pub new_delivery : ℕ → ℕ → String → Option String → String → ℕ → NotificationDelivery
new_delivery id channel event failure payload now = record {
  id = id;
  channel_id = channel;
  event_type = event;
  status = delivery_status failure;
  attempts = 1;
  last_error = failure;
  payload = payload;
  sent_at = sent_time now failure;
}

-- The inner variable `eventType`, which is also what the payload has under "event".
abbrev pub delivery_event_type : Option String → EventType
delivery_event_type none = notification_sent
delivery_event_type (some _) = notification_failed

abbrev pub delivery_event : NotificationChannel → Option ℕ → Option String → DeliveryEvent
delivery_event c id failure = record {
  event_type = delivery_event_type failure;
  object_id = id;
  channel_id = c.id;
  channel_name = c.name;
  event = delivery_event_type failure;
  error = text_or_empty failure;
}

abbrev pub publish_delivery :
    NotificationService → DeliveryEvent → NotificationStore → NotificationStore
publish_delivery svc e s =
    if svc.has_bus then record s { published = s.published ++ (e ∷ []) } else s

-- The delivery is `none` where its row is not stored.
unfoldable pub deliver :
    NotificationService
    → (NotificationQuery → Bool)
    → Network
    → ℕ
    → NotificationChannel
    → NotificationEvent
    → Fields
    → NotificationStore
    → Option NotificationDelivery × NotificationStore
unfolding send_to
deliver svc fails net now c event payload s =
    let failure = send_to svc net c event payload in
    let row =
      new_delivery s.next_id c.id (event_word event) failure (svc.library.write_map (some payload))
        now in
    if fails (create_delivery_row c.id)
    then (none, publish_delivery svc (delivery_event c none failure) s)
    else (
      some row,
      publish_delivery svc (delivery_event c (some s.next_id) failure)
          (record s { deliveries = row ∷ s.deliveries; next_id = suc s.next_id }),
    )

-- The loop of dispatch.
unfoldable pub deliver_all :
    NotificationService
    → (NotificationQuery → Bool)
    → (NotificationChannel → Network)
    → ℕ
    → NotificationEvent
    → Fields
    → List NotificationChannel
    → NotificationStore
    → NotificationStore
unfolding deliver
deliver_all svc fails net now event payload [] s = s
deliver_all svc fails net now event payload (c ∷ cs) s =
    deliver_all svc fails net now event payload cs
      (deliver svc fails (net c) now c event payload s).1

unfoldable pub dispatch :
    NotificationService
    → (NotificationQuery → Bool)
    → (NotificationChannel → Network)
    → ℕ
    → NotificationEvent
    → Fields
    → NotificationStore
    → NotificationStore
unfolding deliver_all
dispatch svc fails net now event payload s =
    if fails list_enabled_channels
    then s
    else deliver_all svc fails net now event payload (enabled_channels s) s

unfoldable pub test_channel :
    NotificationService
    → (NotificationQuery → Bool)
    → (NotificationChannel → Network)
    → ℕ
    → ℕ
    → NotificationStore
    → Result NotificationError (Option NotificationDelivery) × NotificationStore
unfolding deliver get_channel
test_channel svc fails net now id s = elim (get_channel fails id s) [
  | err e ↦ (err e, s)
  | ok c ↦
      let (d, s') = deliver svc fails (net c) now c test (test_payload svc.library now) s in
      (ok d, s')
]

-- SendIncidentOpened and SendIncidentResolved
unfoldable pub send_notice :
    NotificationService
    → (NotificationQuery → Bool)
    → (NotificationChannel → Network)
    → ℕ
    → Notice
    → NotificationStore
    → NotificationStore
unfolding dispatch build_incident_payload
send_notice svc fails net now (send_incident_opened i m) s =
    dispatch svc fails net now incident_opened
      (build_incident_payload svc.library incident_opened i m) s
send_notice svc fails net now (send_incident_resolved i m) s =
    dispatch svc fails net now incident_resolved
      (build_incident_payload svc.library incident_resolved i m) s
