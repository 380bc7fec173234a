-- ===== src/Notifications.antt =====
-- NotificationService of internal/service/notification.go over the tables notification_channels and
-- notification_deliveries (internal/db/notifications.sql.go): what its operations share. Whether a query
-- fails is an argument, and a query that fails changes nothing; encoding/json, net/url and the functions
-- on texts are a parameter.
pub mod Mask
pub mod Channels
pub mod Payload
pub mod Sending
pub mod Delivery
pub mod Restored
pub mod Reached
mod Tests
use blackgrid.Prelude.{
  ℕ, String, Bool, false, Option, none, some, List, find_by, keep_if, update_by, remove_by, sprintf,
  [], ◌∷◌, Result,
}
use text.Mathlib.Text.{◌==◌ as str_eq}
use blackgrid.Model.{EventType}
use blackgrid.Secrets.{Json, str, Fields}
use blackgrid.Secrets.Merge.{lookup_field}

pub data ChannelType : Type 0 where
  webhook smtp : ChannelType
  other : String → ChannelType

-- A row of `notification_channels`.
pub record NotificationChannel : Type 0 where
  pub id : ℕ
  pub name : String
  pub channel_type : ChannelType
  pub enabled : Bool
  pub config : String

pub data DeliveryStatus : Type 0 where
  sent failed : DeliveryStatus

-- A row of `notification_deliveries`.
pub record NotificationDelivery : Type 0 where
  pub id : ℕ
  pub channel_id : ℕ
  pub event_type : String
  pub status : DeliveryStatus
  pub attempts : ℕ
  pub last_error : Option String
  pub payload : String
  pub sent_at : Option ℕ

-- What `deliver` publishes; `none` is the text of a UUID that is not valid.
pub record DeliveryEvent : Type 0 where
  pub event_type : EventType
  pub object_id : Option ℕ
  pub channel_id : ℕ
  pub channel_name : String
  pub event : EventType
  pub error : String

-- WebhookConfig, where a timeout that is not positive reads as 0.
pub record WebhookConfig : Type 0 where
  pub url : String
  pub method : String
  pub headers : List (String × String)
  pub timeout : ℕ

-- SMTPConfig, where a port that is not positive reads as 0.
pub record SmtpConfig : Type 0 where
  pub host : String
  pub port : ℕ
  pub username : String
  pub password : String
  pub from : String
  pub to : List String
  pub use_tls : Bool

-- The tables, newest row first, the number that the next row gets, and what was published, oldest
-- first.
pub record NotificationStore : Type 0 where
  pub channels : List NotificationChannel
  pub deliveries : List NotificationDelivery
  pub next_id : ℕ
  pub published : List DeliveryEvent

-- The queries, by their names; a delivery is inserted for a channel.
pub data NotificationQuery : Type 0 where
  create_channel_row get_channel_row list_enabled_channels : NotificationQuery
  update_channel_row delete_channel_row : NotificationQuery
  create_delivery_row : ℕ → NotificationQuery

-- The errors of the service. `nil_map` is the panic of an assignment to a map that is nil.
pub data NotificationError : Type 0 where
  channel_not_found name_required : NotificationError
  invalid_webhook_config invalid_smtp_config invalid_url : String → NotificationError
  url_required bad_scheme no_host : NotificationError
  smtp_host_required smtp_port_required smtp_from_required smtp_recipient_required :
      NotificationError
  unsupported_channel_type : String → NotificationError
  database_error : NotificationQuery → NotificationError
  nil_map : NotificationError

-- `read_map` is json.Unmarshal into a map[string]any, `none` the nil map that null leaves, and
-- `write_map` json.Marshal; `read_webhook` and `read_smtp` are json.Unmarshal into the structs, and an
-- error is its text. `parse_url` answers the scheme and the host.
pub record Library : Type 0 where
  pub read_map : String → Result String (Option Fields)
  pub write_map : Option Fields → String
  pub indent : Fields → String
  pub read_webhook : String → Result String WebhookConfig
  pub read_smtp : String → Result String SmtpConfig
  pub parse_url : String → Result String (String × String)
  pub trim_space : String → String
  pub lower : String → String
  pub upper : String → String
  pub decimal : ℕ → String
  pub rfc3339 : ℕ → String
  pub uuid_hex : ℕ → String
  pub join : List String → String

abbrev pub channel_id_of : NotificationChannel → ℕ
channel_id_of c = c.id

-- maskedSecret
abbrev pub masked_secret : String
masked_secret = "********"

-- cfg[key].(string)
abbrev pub text_of : Option Json → Option String
text_of none = none
text_of (some (str s)) = some s
text_of (some _) = none

abbrev pub text_field : String → Option Fields → Option String
text_field k none = none
text_field k (some m) = text_of (lookup_field k m)

abbrev pub find_channel : ℕ → NotificationStore → Option NotificationChannel
find_channel id s = find_by channel_id_of id s.channels

-- WHERE enabled = true ORDER BY created_at DESC
abbrev pub enabled_channels : NotificationStore → List NotificationChannel
enabled_channels s = keep_if (λ (c : NotificationChannel). c.enabled) s.channels
