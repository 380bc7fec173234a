-- ===== src/Model.antt =====
-- The rows of the database and the values that pass between the components: internal/db/models.go
-- and internal/events/events.go. Texts that the code compares with fixed words are data types with
-- a case `other` for any other text; UUIDs and times are numbers; a nullable column is an `Option`.
use blackgrid.Prelude.{ℕ, String, Bool, true, false, Option, List}
use text.Mathlib.Text.{◌==◌ as str_eq}

pub data MonitorStatus : Type 0 where
  up down degraded unknown paused : MonitorStatus
  other : String → MonitorStatus

abbrev pub status_eq : MonitorStatus → MonitorStatus → Bool
status_eq up up = true
status_eq down down = true
status_eq degraded degraded = true
status_eq unknown unknown = true
status_eq paused paused = true
status_eq (other s) (other t) = str_eq s t
status_eq _ _ = false

-- The text of the column.
abbrev pub status_word : MonitorStatus → String
status_word up = "up"
status_word down = "down"
status_word degraded = "degraded"
status_word unknown = "unknown"
status_word paused = "paused"
status_word (other s) = s

pub data MonitorType : Type 0 where
  http tcp ping dns tls push postgres : MonitorType
  unsupported : String → MonitorType

abbrev pub type_word : MonitorType → String
type_word http = "http"
type_word tcp = "tcp"
type_word ping = "ping"
type_word dns = "dns"
type_word tls = "tls"
type_word push = "push"
type_word postgres = "postgres"
type_word (unsupported s) = s

-- A row of `monitors`. The columns created_at and updated_at, which no code reads, are left out.
pub record Monitor : Type 0 where
  pub id : ℕ
  pub name : String
  pub slug : String
  pub monitor_type : MonitorType
  pub target : String
  pub config : String
  pub ip_address_id : Option ℕ
  pub device_id : Option ℕ
  pub interval_seconds : ℕ
  pub timeout_seconds : ℕ
  pub retry_count : ℕ
  pub enabled : Bool
  pub status : MonitorStatus
  pub last_checked_at : Option ℕ
  pub last_status_change_at : Option ℕ
  pub push_token_hash : Option String
  pub last_heartbeat_at : Option ℕ

-- A row of `monitor_results`.
pub record MonitorResult : Type 0 where
  pub monitor_id : ℕ
  pub status : MonitorStatus
  pub latency_ms : Option ℕ
  pub error_message : Option String
  pub checked_at : ℕ

pub data Severity : Type 0 where
  critical warning info : Severity
  other : String → Severity

-- The words that the queries write to the column `status` of `incidents`.
pub data IncidentStatus : Type 0 where
  opened acknowledged resolved : IncidentStatus

-- A row of `incidents`.
pub record Incident : Type 0 where
  pub id : ℕ
  pub monitor_id : ℕ
  pub status : IncidentStatus
  pub severity : Severity
  pub started_at : ℕ
  pub acknowledged_at : Option ℕ
  pub resolved_at : Option ℕ
  pub summary : String
  pub details : Option String

pub data EventType : Type 0 where
  monitor_result_created monitor_status_changed : EventType
  incident_opened incident_acknowledged incident_resolved : EventType
  user_changed api_token_changed : EventType
  monitor_created monitor_updated monitor_deleted : EventType
  monitor_paused monitor_resumed monitor_tested : EventType
  status_page_changed status_page_monitor_changed : EventType
  discovery_scan_started discovery_scan_completed discovery_scan_failed : EventType
  discovery_result_created discovery_result_accepted discovery_result_ignored : EventType
  discovery_new_host discovery_conflict_detected discovery_stale_detected : EventType
  notification_sent notification_failed : EventType
  ipam_site_changed ipam_vlan_changed ipam_prefix_changed : EventType
  ipam_ip_address_changed ipam_device_changed audit_entry_created : EventType

abbrev pub event_type_eq : EventType → EventType → Bool
event_type_eq monitor_result_created monitor_result_created = true
event_type_eq monitor_status_changed monitor_status_changed = true
event_type_eq incident_opened incident_opened = true
event_type_eq incident_acknowledged incident_acknowledged = true
event_type_eq incident_resolved incident_resolved = true
event_type_eq user_changed user_changed = true
event_type_eq api_token_changed api_token_changed = true
event_type_eq monitor_created monitor_created = true
event_type_eq monitor_updated monitor_updated = true
event_type_eq monitor_deleted monitor_deleted = true
event_type_eq monitor_tested monitor_tested = true
event_type_eq status_page_changed status_page_changed = true
event_type_eq status_page_monitor_changed status_page_monitor_changed = true
event_type_eq discovery_scan_started discovery_scan_started = true
event_type_eq discovery_scan_completed discovery_scan_completed = true
event_type_eq discovery_scan_failed discovery_scan_failed = true
event_type_eq discovery_result_created discovery_result_created = true
event_type_eq discovery_result_accepted discovery_result_accepted = true
event_type_eq discovery_result_ignored discovery_result_ignored = true
event_type_eq discovery_new_host discovery_new_host = true
event_type_eq discovery_conflict_detected discovery_conflict_detected = true
event_type_eq discovery_stale_detected discovery_stale_detected = true
event_type_eq notification_sent notification_sent = true
event_type_eq notification_failed notification_failed = true
event_type_eq ipam_prefix_changed ipam_prefix_changed = true
event_type_eq ipam_ip_address_changed ipam_ip_address_changed = true
event_type_eq monitor_paused monitor_paused = true
event_type_eq monitor_resumed monitor_resumed = true
event_type_eq ipam_site_changed ipam_site_changed = true
event_type_eq ipam_vlan_changed ipam_vlan_changed = true
event_type_eq ipam_device_changed ipam_device_changed = true
event_type_eq audit_entry_created audit_entry_created = true
event_type_eq _ _ = false

pub data Role : Type 0 where
  admin operator viewer : Role
  other : String → Role

-- A value in the payload of an event.
pub data Value : Type 0 where
  string : String → Value
  number : ℕ → Value
  uuid : ℕ → Value
  monitor_status : MonitorStatus → Value
  incident_status : IncidentStatus → Value
  severity : Severity → Value
  role : Role → Value
  bool : Bool → Value

pub record Event : Type 0 where
  pub event_type : EventType
  pub object_type : String
  pub object_id : ℕ
  pub payload : List (String × Value)

-- What the incident service asks of the notification service.
pub data Notice : Type 0 where
  send_incident_opened send_incident_resolved : Incident → Monitor → Notice

-- A row of `users`.
pub record User : Type 0 where
  pub id : ℕ
  pub email : String
  pub display_name : String
  pub password_hash : String
  pub role : Role
  pub enabled : Bool
  pub last_login_at : Option ℕ

-- A row of `sessions`.
pub record Session : Type 0 where
  pub id : ℕ
  pub user_id : ℕ
  pub session_hash : String
  pub expires_at : ℕ
  pub last_seen_at : Option ℕ

-- A row of `api_tokens`.
pub record ApiToken : Type 0 where
  pub id : ℕ
  pub user_id : ℕ
  pub name : String
  pub token_hash : String
  pub role : Role
  pub last_used_at : Option ℕ
  pub expires_at : Option ℕ
