-- ===== src/Notifications/Sending.antt =====
-- sendWebhook and sendSMTP. What the network answers is an argument.
use blackgrid.Prelude.{
  ℕ, String, if◌then◌else◌, leb, ◌==◌, Option, none, some, List, [], ◌∷◌, ◌++◌, map, sprintf,
  Result, ok, err,
}
use text.Mathlib.Text.{◌==◌ as str_eq}
use blackgrid.Secrets.{Fields}
use blackgrid.Notifications.{
  WebhookConfig, SmtpConfig, NotificationError, Library, text_field, invalid_webhook_config,
  invalid_smtp_config,
}
use blackgrid.Notifications.Channels.{validate_webhook_url, validate_smtp}
use blackgrid.Notifications.Mask.{text_or_empty}

-- The request of a webhook: the headers in the order in which they are set.
pub record WebRequest : Type 0 where
  pub method : String
  pub url : String
  pub headers : List (String × String)
  pub body : String
  pub timeout : Option ℕ

-- The user, the password and the host of smtp.PlainAuth.
pub record PlainAuth : Type 0 where
  pub username : String
  pub password : String
  pub host : String

-- The calls of crypto/tls and net/smtp on an implicit TLS connection.
pub data SmtpCall : Type 0 where
  tls_dial : String → String → SmtpCall
  new_client : String → SmtpCall
  authenticate : PlainAuth → SmtpCall
  mail rcpt write : String → SmtpCall
  open_data close_data quit : SmtpCall

-- What net/http and net/smtp answer; `some` is the text of an error, and `any_order` the order of a
-- range over a map.
pub record Network : Type 0 where
  pub new_request : String → String → Option String
  pub http_do : WebRequest → Result String ℕ
  pub smtp_call : SmtpCall → Option String
  pub send_mail : String → Option PlainAuth → String → List String → String → Option String
  pub any_order : List (String × String) → List (String × String)

abbrev pub first_error : List (Option String) → Option String
first_error [] = none
first_error (none ∷ rest) = first_error rest
first_error (some e ∷ rest) = some e

-- fmt.Errorf("prefix: %w", err)
abbrev pub with_prefix : String → Option String → Option String
with_prefix p none = none
with_prefix p (some e) = some (sprintf (p ∷ ": " ∷ e ∷ []))

abbrev pub method_or_post : String → String
method_or_post method = if str_eq method "" then "POST" else method

abbrev pub web_request : Library → WebhookConfig → String → WebRequest
web_request l cfg body = record {
  method = method_or_post (l.upper cfg.method);
  url = cfg.url;
  headers = ("Content-Type", "application/json") ∷ cfg.headers;
  body = body;
  timeout = if cfg.timeout == 0 then none else some cfg.timeout;
}

unfoldable pub send_webhook :
    Library → (NotificationError → String) → Network → String → String → Option String
unfolding validate_webhook_url
send_webhook l error_text net config body = elim (l.read_webhook config) [
  | err e ↦ some (error_text (invalid_webhook_config e))
  | ok cfg ↦ elim (validate_webhook_url l cfg.url) [
    | some e ↦ some (error_text e)
    | none ↦ elim (net.new_request (method_or_post (l.upper cfg.method)) cfg.url) [
      | some e ↦ some e
      | none ↦ elim (net.http_do (web_request l cfg body)) [
        | err e ↦ some e
        | ok status ↦
            if leb 400 status
            then some (sprintf ("webhook responded with status " ∷ l.decimal status ∷ []))
            else none
      ]
    ]
  ]
]

abbrev pub subject_of : Fields → String
subject_of payload =
    let msg = text_or_empty (text_field "message" (some payload)) in
    if str_eq msg "" then "Blackgrid Notification" else msg

abbrev pub header_lines : List (String × String) → List String
header_lines [] = []
header_lines ((k, v) ∷ rest) = k ∷ ": " ∷ v ∷ "\r\n" ∷ header_lines rest

-- The headers in some order, an empty line and the body.
unfoldable pub smtp_message : Library → Network → SmtpConfig → String → Fields → String
smtp_message l net cfg event payload = sprintf (
    header_lines (
      net.any_order (
        ("From", cfg.from)
        ∷ ("To", l.join cfg.to)
        ∷ ("Subject", subject_of payload)
        ∷ ("MIME-Version", "1.0")
        ∷ ("Content-Type", "text/plain; charset=UTF-8")
        ∷ []))
    ++ ("\r\n" ∷ "Event: " ∷ event ∷ "\n\n" ∷ l.indent payload ∷ "\n" ∷ []))

abbrev pub auth_of : SmtpConfig → Option PlainAuth
auth_of cfg =
    if str_eq cfg.username ""
    then none
    else some (record { username = cfg.username; password = cfg.password; host = cfg.host })

abbrev pub auth_error : Network → Option PlainAuth → Option String
auth_error net none = none
auth_error net (some a) = with_prefix "smtp auth" (net.smtp_call (authenticate a))

-- The conversation over TLS, which stops at the first error.
unfoldable pub send_over_tls : Network → SmtpConfig → String → String → Option String
send_over_tls net cfg addr msg = first_error (
    (with_prefix "smtp tls dial" (net.smtp_call (tls_dial addr cfg.host))
      ∷ with_prefix "smtp client" (net.smtp_call (new_client cfg.host))
      ∷ auth_error net (auth_of cfg)
      ∷ net.smtp_call (mail cfg.from)
      ∷ [])
    ++ (map (λ to. net.smtp_call (rcpt to)) cfg.to
        ++ (net.smtp_call open_data
            ∷ net.smtp_call (write msg)
            ∷ net.smtp_call close_data
            ∷ net.smtp_call quit
            ∷ [])))

unfoldable pub send_smtp :
    Library → (NotificationError → String) → Network → String → String → Fields → Option String
unfolding validate_smtp smtp_message send_over_tls
send_smtp l error_text net config event payload = elim (l.read_smtp config) [
  | err e ↦ some (error_text (invalid_smtp_config e))
  | ok cfg ↦ elim (validate_smtp cfg) [
    | some e ↦ some (error_text e)
    | none ↦
        let msg = smtp_message l net cfg event payload in
        let addr = sprintf (cfg.host ∷ ":" ∷ l.decimal cfg.port ∷ []) in
        if cfg.use_tls
        then send_over_tls net cfg addr msg
        else net.send_mail addr (auth_of cfg) cfg.from cfg.to msg
  ]
]
