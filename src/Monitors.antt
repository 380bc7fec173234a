-- ===== src/Monitors.antt =====
-- The monitor handlers of internal/api/handlers/monitor.go over the tables of monitors, results and
-- incidents (internal/db/query.sql.go): what the handlers share. Reading a request and the formats
-- of configurations are a parameter; whether a query fails is an argument.
pub mod Create
pub mod Edit
pub mod Push
pub mod Cases
pub mod Handled
pub mod Requests
pub mod Rows
pub mod Hooked
pub mod Heartbeats
pub mod Tokens
mod Tests
use blackgrid.Prelude.{
  ℕ, suc, String, Bool, true, false, not, ◌&&◌, if◌then◌else◌, ltb, ◌==◌, ◌++◌, Option, none, some,
  List, [], ◌∷◌, find_if, any_of, keep_if, ℤ, pos, negsuc,
}
use text.Mathlib.Text.{◌==◌ as str_eq}
use blackgrid.Model.{
  Monitor, MonitorResult, Incident, MonitorType, http, tcp, ping, dns, tls, push, postgres,
  unsupported, Event, Value,
}
pub use blackgrid.Api.Errors.{ErrCode, validation, not_found, internal}
use blackgrid.Secrets.{Codec, mask_config}
use blackgrid.Incident.Store.{Store, get_monitor}
use blackgrid.Incident.Output
use blackgrid.Incident.Output.{Service}
use blackgrid.Scheduler.{Backend, CheckResult, written, write_monitor}

-- What the handlers get from libraries: encoding/json on configurations, uuid.Scan, the slug of a name
-- (strings.ToLower after strings.ReplaceAll), and SHA-256. `grace_of` reads 0 for a missing number or
-- one below 1.
pub record Formats : Type 0 where
  pub codec : Codec
  pub grace_of : String → ℕ
  pub grace_config : ℕ → String
  pub dsn_of : String → String
  pub parse_uuid : String → Option ℕ
  pub slug_of : String → String
  pub hash_token : String → String

-- The fields of AuditParams that the handlers set; the actor comes from the request.
pub record AuditNote : Type 0 where
  pub action : String
  pub entity_id : ℕ
  pub before : List (String × Value)
  pub after : List (String × Value)

pub record MonitorHandler : Type 0 where
  pub has_bus : Bool
  pub has_audit : Bool
  pub has_hook : Bool
  pub service : Service

-- The tables, the number that the next monitor gets, and the audit log, oldest first.
pub record Site : Type 0 where
  pub backend : Backend
  pub next_monitor : ℕ
  pub audit_log : List AuditNote

pub data MonitorQuery : Type 0 where
  get_row get_by_push_hash create_row update_row delete_row create_result_row record_heartbeat :
      MonitorQuery
  incident_query : Output.Query → MonitorQuery

-- What a handler answers. The monitor of `shown` and `created` has its configuration masked, and the
-- plaintext token stands beside it.
pub data Reply : Type 0 where
  failed : ErrCode → String → Reply
  shown : Monitor → Reply
  created : Monitor → String → Reply
  tested : CheckResult → Reply
  message : String → Reply
  rotated : String → Reply
  no_content : Reply

-- createMonitorRequest: `none` is a field that is not there.
pub record MonitorRequest : Type 0 where
  pub name : String
  pub slug : String
  pub monitor_type : MonitorType
  pub target : String
  pub config : Option String
  pub ip_address_id : Option String
  pub device_id : Option String
  pub interval_seconds : ℤ
  pub timeout_seconds : ℤ
  pub retry_count : ℤ
  pub enabled : Option Bool

-- validMonitorTypes
abbrev pub is_valid_type : MonitorType → Bool
is_valid_type (unsupported s) = false
is_valid_type _ = true

abbrev pub is_blank_type : MonitorType → Bool
is_blank_type (unsupported s) = str_eq s ""
is_blank_type _ = false

abbrev pub is_push : MonitorType → Bool
is_push push = true
is_push _ = false

abbrev pub is_postgres : MonitorType → Bool
is_postgres postgres = true
is_postgres _ = false

-- A number of a request, or the default where it is below the least value.
abbrev pub at_least : ℕ → ℕ → ℤ → ℕ
at_least low default (pos n) = if ltb n low then default else n
at_least low default (negsuc n) = default

abbrev pub or_default {ℓ} : {A : Type ℓ} → A → Option A → A
or_default d none = d
or_default d (some a) = a

-- id.Scan(*req.ID), whose error is ignored: the old value stays.
abbrev pub scan_id : Formats → Option String → Option ℕ → Option ℕ
scan_id f none old = old
scan_id f (some s) old = elim (f.parse_uuid s) [ none ↦ old | some n ↦ some n ]

-- toMonitorResponse
abbrev pub response : Formats → Monitor → Monitor
response f m = record m { config = mask_config f.codec m.config; push_token_hash = none }

abbrev pub monitors_of : Site → List Monitor
monitors_of s = s.backend.store.monitors

abbrev pub with_store : Store → Site → Site
with_store t s = record s { backend = record s.backend { store = t } }

abbrev pub with_monitors : List Monitor → Site → Site
with_monitors ms s = with_store (record s.backend.store { monitors = ms }) s

abbrev pub find_monitor : ℕ → Site → Option Monitor
find_monitor id s = get_monitor id s.backend.store

abbrev pub slug_in_use : String → ℕ → List Monitor → Bool
slug_in_use slug id [] = false
slug_in_use slug id (m ∷ ms) =
    let rest = slug_in_use slug id ms in
    if str_eq m.slug slug && not (m.id == id) then true else rest

-- updateMonitor: the slug is unique in the table. The result is the row, `none` an error.
unfoldable pub update_monitor_row : (MonitorQuery → Bool) → Monitor → Site → Option Monitor × Site
update_monitor_row fails arg s =
    if fails update_row
    then (none, s)
    else if slug_in_use arg.slug arg.id (monitors_of s)
    then (none, s)
    else (elim (find_monitor arg.id s) [
      | none ↦ (none, s)
      | some row ↦ (some (written arg row), with_monitors (write_monitor arg (monitors_of s)) s)
    ])

abbrev pub publish_to : MonitorHandler → Event → Site → Site
publish_to h e s =
    if h.has_bus
    then with_store (record s.backend.store { published = s.backend.store.published ++ (e ∷ []) }) s
    else s

abbrev pub note : MonitorHandler → AuditNote → Site → Site
note h a s = if h.has_audit then record s { audit_log = s.audit_log ++ (a ∷ []) } else s
