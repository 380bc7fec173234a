-- ===== src/Notifications/Tests.antt =====
-- NotificationService at concrete inputs, with a library that knows a few texts.
use blackgrid.Prelude.{
  String, true, false, ◌≡◌, refl, Option, none, some, [], ◌∷◌, ◌++◌, Result, ok, err, if◌then◌else◌,
  ◌⊎◌, arith,
}
use text.Mathlib.Text.{◌==◌ as str_eq}
use blackgrid.Model.{Monitor, http, down, critical, Notice}
use blackgrid.Secrets.{str, obj, Fields, field, end, set_field}
use blackgrid.Incident.Store.{new_incident}
use blackgrid.Incident.Output.{Service}
use blackgrid.Incident.Service.{open_for_monitor, create_for_monitor}
use blackgrid.Incident.Calls.{empty}
use blackgrid.Notifications.{
  webhook, smtp, NotificationChannel, NotificationDelivery, sent, WebhookConfig, SmtpConfig,
  NotificationStore, Library, masked_secret,
}
use blackgrid.Notifications.Mask.{mask_channel_config}
use blackgrid.Notifications.Channels.{validate_channel, validate_smtp, new_channel, update_channel}
use blackgrid.Notifications.Payload.{test, test_payload}
use blackgrid.Notifications.Sending.{Network, send_smtp}
use blackgrid.Notifications.Delivery.{NotificationService, send_to, dispatch, send_notice}
use blackgrid.Notifications.Restored.{update_channel-mask_channel_config}
use blackgrid.Notifications.Reached.{
  Delivered, newest_delivery, count_deliveries, dispatch-Delivered, open_for_monitor-send_notice,
}

abbrev mail_map : String → Fields
mail_map password = field "host" (str "mx") (field "password" (str password) end)

abbrev hook_headers : String → Fields
hook_headers token = field "X-Auth-Token" (str token) end

abbrev hook_map : String → Fields
hook_map token = field "url" (str "http://h") (field "headers" (obj (hook_headers token)) end)

-- "A" and "M" are the texts of a mail configuration with its password and with the mask, "H" and "N" those
-- of a webhook.
abbrev read_text : String → Result String (Option Fields)
read_text s =
    if str_eq s "A"
    then ok (some (mail_map "pw"))
    else if str_eq s "M"
    then ok (some (mail_map masked_secret))
    else if str_eq s "H"
    then ok (some (hook_map "t0ken"))
    else err "syntax"

abbrev write_text : Option Fields → String
write_text none = "null"
write_text (some (field k v (field j (str w) end))) = if str_eq w masked_secret then "M" else "A"
write_text (some _) = "N"

abbrev mail_config : SmtpConfig
mail_config = record {
  host = "mx";
  port = 25;
  username = "";
  password = "pw";
  from = "a@x";
  to = "b@x" ∷ [];
  use_tls = false;
}

abbrev hook_config : WebhookConfig
hook_config = record { url = "http://h"; method = ""; headers = []; timeout = 0 }

abbrev lib : Library
lib = record {
  read_map = read_text;
  write_map = write_text;
  indent = λ m. "{}";
  read_webhook = λ s. ok hook_config;
  read_smtp = λ s. ok mail_config;
  parse_url = λ u. ok ("http", "h");
  trim_space = λ s. s;
  lower = λ s. "x-auth-token";
  upper = λ s. s;
  decimal = λ n. "503";
  rfc3339 = λ t. "now";
  uuid_hex = λ id. "id";
  join = λ xs. "b@x";
}

abbrev mail_row : NotificationChannel
mail_row = new_channel 1 "mail" smtp true "A"

abbrev hook_row : NotificationChannel
hook_row = new_channel 2 "hook" webhook true "H"

abbrev two_channels : NotificationStore
two_channels = record {
  channels = hook_row ∷ mail_row ∷ [];
  deliveries = [];
  next_id = 3;
  published = [];
}

update_channel-mask_channel_config_example :
    (mask_channel_config lib mail_row ≡ "M")
    × (update_channel lib
          (λ q. false)
          1
          "post"
          smtp
          false
          (mask_channel_config lib mail_row)
          two_channels
        ≡ (
          ok (new_channel 1 "post" smtp false "A"),
          record two_channels { channels = hook_row ∷ new_channel 1 "post" smtp false "A" ∷ [] },
        ))
unfolding validate_channel validate_smtp set_field
update_channel-mask_channel_config_example =
    update_channel-mask_channel_config lib (λ q. false) two_channels mail_row (mail_map "pw") "pw"
      "post" false refl refl refl refl refl refl refl refl

abbrev service : NotificationService
service = record { library = lib; error_text = λ e. "error"; has_bus = true }

-- The webhook is answered with 503, and the mail server accepts.
abbrev network : NotificationChannel → Network
network c = record {
  new_request = λ m u. none;
  http_do = λ q. ok 503;
  smtp_call = λ x. none;
  send_mail = λ a u f t m. none;
  any_order = λ hs. hs;
}

dispatch-Delivered_example :
    ((true ≡ true)
      × Delivered service
          (λ q. false)
          network
          9
          test
          (test_payload lib 9)
          mail_row
          two_channels
          (dispatch service (λ q. false) network 9 test (test_payload lib 9) two_channels))
    ⊎ ((true ≡ false)
        × (newest_delivery 1
              (dispatch service (λ q. false) network 9 test (test_payload lib 9) two_channels)
            ≡ none)
        × (count_deliveries 1
              (dispatch service (λ q. false) network 9 test (test_payload lib 9) two_channels)
            ≡ 0))
dispatch-Delivered_example =
    dispatch-Delivered service (λ q. false) network 9 test (test_payload lib 9) 3 two_channels
      mail_row (ground arith) refl refl refl

abbrev web : Monitor
web = record {
  id = 7;
  name = "web";
  slug = "web";
  monitor_type = http;
  target = "http://10.0.0.1";
  config = "";
  ip_address_id = none;
  device_id = none;
  interval_seconds = 60;
  timeout_seconds = 10;
  retry_count = 3;
  enabled = true;
  status = down;
  last_checked_at = none;
  last_status_change_at = none;
  push_token_hash = none;
  last_heartbeat_at = none;
}

abbrev incidents : Service
incidents = record { has_notifier = true; has_bus = true }

open_for_monitor-send_notice_example :
    (asked : Notice) × ((open_for_monitor incidents
        (λ q. false)
        5
        web
        critical
        "web is down"
        ""
        (empty (web ∷ []))).1.notified
      ≡ [] ++ (asked ∷ []))
    × (d : NotificationDelivery) × (newest_delivery 1
          (send_notice service (λ q. false) network 9 asked two_channels)
        ≡ some d)
    × (count_deliveries 1 (send_notice service (λ q. false) network 9 asked two_channels) ≡ 1)
    × (d.event_type ≡ "incident.opened")
    × (d.status ≡ sent)
unfolding open_for_monitor create_for_monitor send_to send_smtp validate_smtp
open_for_monitor-send_notice_example =
    open_for_monitor-send_notice service (λ q. false) network 9 incidents (λ q. false) 5 3 web
      critical "web is down" "" (empty (web ∷ [])) (new_incident 0 5 7 critical "web is down" none)
      two_channels mail_row refl refl (ground arith) refl refl refl refl
