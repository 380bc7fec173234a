-- ===== src/Notifications/Mask.antt =====
-- MaskConfig, MaskWebhookHeaders and mergeSMTPPassword.
use blackgrid.Prelude.{
  String, Bool, true, false, if◌then◌else◌, ◌&&◌, ◌||◌, not, Option, none, some, List, [], ◌∷◌,
  any_of, Result, ok, err,
}
use text.Mathlib.Text.{◌==◌ as str_eq}
use blackgrid.Secrets.{Json, str, obj, Fields, field, end, contains, set_field}
use blackgrid.Secrets.Merge.{lookup_field}
use blackgrid.Notifications.{
  smtp, NotificationChannel, NotificationError, invalid_smtp_config, nil_map, Library,
  masked_secret, text_field,
}

-- sensitiveHeaderKeys
abbrev pub sensitive_header_keys : List String
sensitive_header_keys = "authorization" ∷ "token" ∷ "secret" ∷ "key" ∷ []

abbrev pub is_sensitive : (String → String) → String → Bool
is_sensitive lower k = any_of (contains (lower k)) sensitive_header_keys

abbrev pub is_str : Json → Bool
is_str (str s) = true
is_str _ = false

-- The loop over the headers: the map after it, and the flag `changed`.
unfoldable pub mask_headers : (String → String) → Fields → Fields
mask_headers lower end = end
mask_headers lower (field k v rest) =
    field k (if is_sensitive lower k && is_str v then str masked_secret else v)
      (mask_headers lower rest)

unfoldable pub has_sensitive : (String → String) → Fields → Bool
has_sensitive lower end = false
has_sensitive lower (field k v rest) =
    (is_sensitive lower k && is_str v) || has_sensitive lower rest

-- headers.(map[string]any)
abbrev pub object_of : Option Json → Option Fields
object_of (some (obj fs)) = some fs
object_of _ = none

unfoldable pub mask_webhook_headers : Library → String → String
unfolding mask_headers has_sensitive set_field
mask_webhook_headers l config = if str_eq config "" then config else (elim (l.read_map config) [
  | err _ ↦ config
  | ok none ↦ config
  | ok (some cfg) ↦ elim (object_of (lookup_field "headers" cfg)) [
    | none ↦ config
    | some headers ↦
        if not (has_sensitive l.lower headers)
        then config
        else l.write_map (some (set_field "headers" (obj (mask_headers l.lower headers)) cfg))
  ]
])

-- MaskConfig for a channel of type smtp.
unfoldable pub mask_smtp : Library → String → String
unfolding set_field
mask_smtp l config = elim (l.read_map config) [
  | err _ ↦ config
  | ok none ↦ l.write_map none
  | ok (some cfg) ↦ elim (lookup_field "password" cfg) [
    | none ↦ l.write_map (some cfg)
    | some _ ↦ l.write_map (some (set_field "password" (str masked_secret) cfg))
  ]
]

unfoldable pub mask_channel_config : Library → NotificationChannel → String
unfolding mask_smtp mask_webhook_headers
mask_channel_config l c = elim c.channel_type [
  | smtp ↦ mask_smtp l c.config
  | _ ↦ mask_webhook_headers l c.config
]

abbrev pub text_or_empty : Option String → String
text_or_empty none = ""
text_or_empty (some s) = s

-- newCfg["password"] = oldPw, and json.Marshal.
abbrev pub put_password : Library → String → Option Fields → Result NotificationError String
put_password l pw none = err nil_map
put_password l pw (some cfg) = ok (l.write_map (some (set_field "password" (str pw) cfg)))

abbrev pub keep_password : Library → String → Option Fields → Result NotificationError String
keep_password l existing new_cfg = elim (l.read_map existing) [
  | err _ ↦ ok (l.write_map new_cfg)
  | ok old_cfg ↦ elim (text_field "password" old_cfg) [
    | none ↦ ok (l.write_map new_cfg)
    | some old_pw ↦ put_password l old_pw new_cfg
  ]
]

-- The test of the new password.
abbrev pub choose_password :
    Library → String → String → Option Fields → Result NotificationError String
choose_password l existing pw new_cfg =
    if str_eq pw "" || str_eq pw masked_secret
    then keep_password l existing new_cfg
    else ok (l.write_map new_cfg)

unfoldable pub merge_smtp_password : Library → String → String → Result NotificationError String
unfolding set_field
merge_smtp_password l existing incoming = elim (l.read_map incoming) [
  | err e ↦ err (invalid_smtp_config e)
  | ok new_cfg ↦ choose_password l existing (text_or_empty (text_field "password" new_cfg)) new_cfg
]
