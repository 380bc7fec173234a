-- ===== src/Notifications/Channels.antt =====
-- The validation of a channel, and CreateChannel, UpdateChannel, DeleteChannel and GetChannel.
use blackgrid.Prelude.{
  ℕ, String, Bool, true, false, not, if◌then◌else◌, ◌&&◌, ◌==◌, Option, none, some, List, [], ◌∷◌,
  Result, ok, err, suc, update_by, remove_by,
}
use text.Mathlib.Text.{◌==◌ as str_eq}
use blackgrid.Notifications.{
  ChannelType, webhook, smtp, NotificationChannel, SmtpConfig, NotificationStore, NotificationQuery,
  create_channel_row, get_channel_row, update_channel_row, delete_channel_row, NotificationError,
  channel_not_found, name_required, invalid_webhook_config, invalid_smtp_config, invalid_url,
  url_required, bad_scheme, no_host, smtp_host_required, smtp_port_required, smtp_from_required,
  smtp_recipient_required, unsupported_channel_type, database_error, Library, channel_id_of,
  find_channel,
}
use blackgrid.Notifications.Mask.{merge_smtp_password}

-- validateWebhookURL
unfoldable pub validate_webhook_url : Library → String → Option NotificationError
validate_webhook_url l raw_url =
    if str_eq raw_url "" then some url_required else (elim (l.parse_url raw_url) [
      | err e ↦ some (invalid_url e)
      | ok (scheme, host) ↦
          if not (str_eq scheme "http") && not (str_eq scheme "https")
          then some bad_scheme
          else if str_eq host ""
          then some no_host
          else none
    ])

abbrev pub has_none {ℓ} : {A : Type ℓ} → List A → Bool
has_none [] = true
has_none (_ ∷ _) = false

-- validateSMTP
unfoldable pub validate_smtp : SmtpConfig → Option NotificationError
validate_smtp cfg =
    if str_eq cfg.host ""
    then some smtp_host_required
    else if cfg.port == 0
    then some smtp_port_required
    else if str_eq cfg.from ""
    then some smtp_from_required
    else if has_none cfg.to
    then some smtp_recipient_required
    else none

-- A configuration without a byte is the struct of zero values.
abbrev pub no_smtp : SmtpConfig
no_smtp = record {
  host = "";
  port = 0;
  username = "";
  password = "";
  from = "";
  to = [];
  use_tls = false;
}

unfoldable pub validate_channel : Library → String → ChannelType → String → Option NotificationError
unfolding validate_webhook_url validate_smtp
validate_channel l name ty config =
    if str_eq (l.trim_space name) "" then some name_required else (elim ty [
      | webhook ↦
          if str_eq config "" then validate_webhook_url l "" else (elim (l.read_webhook config) [
            | err e ↦ some (invalid_webhook_config e)
            | ok cfg ↦ validate_webhook_url l cfg.url
          ])
      | smtp ↦ if str_eq config "" then validate_smtp no_smtp else (elim (l.read_smtp config) [
        | err e ↦ some (invalid_smtp_config e)
        | ok cfg ↦ validate_smtp cfg
      ])
      | ChannelType.other t ↦ some (unsupported_channel_type t)
    ])

abbrev pub new_channel : ℕ → String → ChannelType → Bool → String → NotificationChannel
new_channel id name ty enabled config = record {
  id = id;
  name = name;
  channel_type = ty;
  enabled = enabled;
  config = config;
}

unfoldable pub create_channel :
    Library
    → (NotificationQuery → Bool)
    → String
    → ChannelType
    → Bool
    → String
    → NotificationStore
    → Result NotificationError NotificationChannel × NotificationStore
unfolding validate_channel
create_channel l fails name ty enabled config s = elim (validate_channel l name ty config) [
  | some e ↦ (err e, s)
  | none ↦ if fails create_channel_row then (err (database_error create_channel_row), s) else (
    ok (new_channel s.next_id name ty enabled config),
    record s {
      channels = new_channel s.next_id name ty enabled config ∷ s.channels;
      next_id = suc s.next_id;
    },
  )
]

unfoldable pub get_channel :
    (NotificationQuery → Bool)
    → ℕ
    → NotificationStore
    → Result NotificationError NotificationChannel
get_channel fails id s =
    if fails get_channel_row
    then err (database_error get_channel_row)
    else (elim (find_channel id s) [ none ↦ err channel_not_found | some c ↦ ok c ])

-- SET name, channel_type, enabled and config, WHERE id.
abbrev pub update_row :
    (NotificationQuery → Bool)
    → NotificationChannel
    → NotificationStore
    → Result NotificationError NotificationChannel × NotificationStore
update_row fails row s =
    if fails update_channel_row
    then (err (database_error update_channel_row), s)
    else (ok row, record s { channels = update_by channel_id_of row.id (λ c. row) s.channels })

-- The configuration that UpdateChannel validates and stores.
abbrev pub merged_config :
    Library → NotificationChannel → ChannelType → String → Result NotificationError String
merged_config l existing smtp config = merge_smtp_password l existing.config config
merged_config l existing _ config = ok config

unfoldable pub update_channel :
    Library
    → (NotificationQuery → Bool)
    → ℕ
    → String
    → ChannelType
    → Bool
    → String
    → NotificationStore
    → Result NotificationError NotificationChannel × NotificationStore
unfolding get_channel merge_smtp_password validate_channel
update_channel l fails id name ty enabled config s = elim (get_channel fails id s) [
  | err e ↦ (err e, s)
  | ok existing ↦ elim (merged_config l existing ty config) [
    | err e ↦ (err e, s)
    | ok merged ↦ elim (validate_channel l name ty merged) [
      | some e ↦ (err e, s)
      | none ↦ update_row fails (new_channel id name ty enabled merged) s
    ]
  ]
]

unfoldable pub delete_channel :
    (NotificationQuery → Bool)
    → ℕ
    → NotificationStore
    → Option NotificationError × NotificationStore
delete_channel fails id s =
    if fails delete_channel_row
    then (some (database_error delete_channel_row), s)
    else (none, record s { channels = remove_by channel_id_of id s.channels })
