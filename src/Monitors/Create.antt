-- ===== src/Monitors/Create.antt =====
-- CreateMonitor. The text of an error of reading the request is left out.
use blackgrid.Prelude.{
  ℕ, suc, String, Bool, true, not, if◌then◌else◌, ltb, ◌&&◌, ◌||◌, Option, none, some, List, [],
  ◌∷◌,
}
use text.Mathlib.Text.{◌==◌ as str_eq}
use blackgrid.Model.{
  Monitor, MonitorStatus, unknown, paused, type_word, Event, EventType, monitor_created, Value,
  string, number, bool,
}
use blackgrid.Secrets.{mask_config}
use blackgrid.Monitors.{
  Formats, validation, internal, MonitorHandler, Site, MonitorQuery, create_row, Reply, failed,
  created, MonitorRequest, is_valid_type, is_push, is_postgres, at_least, or_default, scan_id,
  response, monitors_of, with_monitors, slug_in_use, publish_to, note,
}

-- The status of a monitor that is created.
abbrev pub first_status : Bool → MonitorStatus
first_status enabled = if enabled then unknown else paused

abbrev pub slug_or_name : Formats → MonitorRequest → String
slug_or_name f r = if str_eq r.slug "" then f.slug_of r.name else r.slug

abbrev pub default_grace : ℕ → ℕ
default_grace n = if ltb n 1 then 120 else n

-- The stored configuration: that of a push monitor holds the grace only.
abbrev pub stored_config : Formats → MonitorRequest → String
stored_config f r =
    let config = or_default "" r.config in
    if is_push r.monitor_type then f.grace_config (default_grace (f.grace_of config)) else config

abbrev pub new_monitor : Formats → ℕ → MonitorRequest → Option String → Monitor
new_monitor f id r token_hash =
    let enabled = or_default true r.enabled in
    record {
      id = id;
      name = r.name;
      slug = slug_or_name f r;
      monitor_type = r.monitor_type;
      target = r.target;
      config = stored_config f r;
      ip_address_id = scan_id f r.ip_address_id none;
      device_id = scan_id f r.device_id none;
      interval_seconds = at_least 10 60 r.interval_seconds;
      timeout_seconds = at_least 1 10 r.timeout_seconds;
      retry_count = at_least 1 3 r.retry_count;
      enabled = enabled;
      status = first_status enabled;
      last_checked_at = none;
      last_status_change_at = none;
      push_token_hash = token_hash;
      last_heartbeat_at = none;
    }

abbrev pub insert_monitor : Monitor → Site → Site
insert_monitor m s = record (with_monitors (m ∷ monitors_of s) s) {
  next_monitor = suc s.next_monitor;
}

abbrev pub monitor_event : EventType → ℕ → List (String × Value) → Event
monitor_event t id payload = record {
  event_type = t;
  object_type = "monitor";
  object_id = id;
  payload = payload;
}

abbrev pub after_create : Formats → MonitorHandler → Monitor → Site → Site
after_create f h m s =
    note h
      (record {
        action = "monitor.create";
        entity_id = m.id;
        before = [];
        after =
            ("name", string m.name)
            ∷ ("slug", string m.slug)
            ∷ ("monitor_type", string (type_word m.monitor_type))
            ∷ ("target", string m.target)
            ∷ ("interval_seconds", number m.interval_seconds)
            ∷ ("enabled", bool m.enabled)
            ∷ ("config", string (mask_config f.codec m.config))
            ∷ [];
      })
      (publish_to h
        (monitor_event monitor_created m.id (
          ("action", string "created")
          ∷ ("name", string m.name)
          ∷ ("type", string (type_word m.monitor_type))
          ∷ []))
        s)

-- h.queries.CreateMonitor and what follows it.
unfoldable pub insert_checked :
    Formats → MonitorHandler → (MonitorQuery → Bool) → String → Monitor → Site → Reply × Site
insert_checked f h fails token m s =
    if fails create_row || slug_in_use m.slug m.id (monitors_of s)
    then (failed internal "internal error", s)
    else (created (response f m) token, after_create f h m (insert_monitor m s))

-- `random` is the token that GeneratePushToken makes, `none` where it fails.
unfoldable pub create_monitor :
    Formats
    → MonitorHandler
    → (MonitorQuery → Bool)
    → Option String
    → MonitorRequest
    → Site
    → Reply × Site
unfolding insert_checked
create_monitor f h fails random r s =
    if str_eq r.name ""
    then (failed validation "name is required", s)
    else if not (is_valid_type r.monitor_type)
    then (failed validation "invalid monitor type", s)
    else if not (is_push r.monitor_type) && str_eq r.target ""
    then (failed validation "target is required", s)
    else if is_push r.monitor_type
    then (elim random [
      | none ↦ (failed internal "internal error", s)
      | some token ↦
          insert_checked f h fails token
            (new_monitor f s.next_monitor r (some (f.hash_token token))) s
    ])
    else if is_postgres r.monitor_type && str_eq (f.dsn_of (or_default "" r.config)) ""
    then (failed validation "dsn is required for postgres monitors", s)
    else insert_checked f h fails "" (new_monitor f s.next_monitor r none) s
