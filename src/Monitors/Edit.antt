-- ===== src/Monitors/Edit.antt =====
-- UpdateMonitor, DeleteMonitor, PauseMonitor and ResumeMonitor. The text of an error of reading the
-- request is left out.
use blackgrid.Prelude.{
  ℕ, String, Bool, true, false, not, if◌then◌else◌, ◌&&◌, Option, none, some, [], ◌∷◌, remove_by,
}
use text.Mathlib.Text.{◌==◌ as str_eq}
use blackgrid.Model.{
  Monitor, MonitorResult, Incident, MonitorStatus, unknown, paused, status_eq, MonitorType,
  monitor_updated, monitor_deleted, string, number, bool, monitor_status,
}
use blackgrid.Secrets.{mask_config, merge_config}
use blackgrid.Scheduler.{status_event}
use blackgrid.Monitors.{
  Formats, validation, not_found, internal, AuditNote, MonitorHandler, Site, MonitorQuery, get_row,
  delete_row, Reply, failed, shown, no_content, MonitorRequest, is_valid_type, is_blank_type,
  at_least, scan_id, response, find_monitor, update_monitor_row, publish_to, note,
}
use blackgrid.Monitors.Create.{monitor_event}

abbrev pub text_or : String → String → String
text_or old new = if str_eq new "" then old else new

-- Enabled, with the status that goes with it.
abbrev pub edit_enabled : Option Bool → Monitor → Monitor
edit_enabled none m = m
edit_enabled (some b) m = record m {
  enabled = b;
  status = if not b then paused else if status_eq m.status paused then unknown else m.status;
}

abbrev pub edited_config : Formats → MonitorType → MonitorRequest → String → String
edited_config f ty r old = elim r.config [ none ↦ old | some new ↦ merge_config f.codec ty old new ]

-- The row after the fields of the request, the type being valid or blank.
abbrev pub edited : Formats → MonitorRequest → Monitor → Monitor
edited f r m =
    let ty = if is_blank_type r.monitor_type then m.monitor_type else r.monitor_type in
    edit_enabled r.enabled (record m {
      name = text_or m.name r.name;
      slug = text_or m.slug r.slug;
      monitor_type = ty;
      target = text_or m.target r.target;
      config = edited_config f ty r m.config;
      interval_seconds = at_least 10 m.interval_seconds r.interval_seconds;
      timeout_seconds = at_least 1 m.timeout_seconds r.timeout_seconds;
      retry_count = at_least 1 m.retry_count r.retry_count;
      ip_address_id = scan_id f r.ip_address_id m.ip_address_id;
      device_id = scan_id f r.device_id m.device_id;
    })

-- What UpdateMonitor logs: `Before` is read from the row after the edit.
abbrev pub update_note : Formats → Monitor → Monitor → AuditNote
update_note f m updated = record {
  action = "monitor.update";
  entity_id = updated.id;
  before =
      ("name", string m.name)
      ∷ ("target", string m.target)
      ∷ ("interval_seconds", number m.interval_seconds)
      ∷ ("enabled", bool m.enabled)
      ∷ [];
  after =
      ("name", string updated.name)
      ∷ ("target", string updated.target)
      ∷ ("interval_seconds", number updated.interval_seconds)
      ∷ ("enabled", bool updated.enabled)
      ∷ ("config", string (mask_config f.codec updated.config))
      ∷ [];
}

unfoldable pub write_edited :
    Formats → MonitorHandler → (MonitorQuery → Bool) → Monitor → Site → Reply × Site
unfolding update_monitor_row
write_edited f h fails m s =
    let (row, s') = update_monitor_row fails m s in
    elim row [
      | none ↦ (failed internal "internal error", s')
      | some updated ↦ (
        shown (response f updated),
        note h (update_note f m updated) (
            publish_to h
              (monitor_event monitor_updated updated.id
                (("action", string "updated") ∷ ("name", string updated.name) ∷ []))
              s'),
      )
    ]

-- `request` is `none` where the body cannot be read.
unfoldable pub update_monitor :
    Formats
    → MonitorHandler
    → (MonitorQuery → Bool)
    → String
    → Option MonitorRequest
    → Site
    → Reply × Site
unfolding write_edited
update_monitor f h fails id request s = elim (f.parse_uuid id) [
  | none ↦ (failed validation "invalid UUID", s)
  | some n ↦
      if fails get_row
      then (failed not_found "monitor not found", s)
      else (elim (find_monitor n s) [
        | none ↦ (failed not_found "monitor not found", s)
        | some m ↦ elim request [
          | none ↦ (failed validation "invalid body", s)
          | some r ↦
              if not (is_blank_type r.monitor_type) && not (is_valid_type r.monitor_type)
              then (failed validation "invalid monitor type", s)
              else write_edited f h fails (edited f r m) s
        ]
      ])
]

-- DELETE FROM monitors, with ON DELETE CASCADE on results and incidents.
abbrev pub without_monitor : ℕ → Site → Site
without_monitor id s = record s {
  backend = record s.backend {
    store = record s.backend.store {
      monitors = remove_by (λ (m : Monitor). m.id) id s.backend.store.monitors;
      incidents = remove_by (λ (i : Incident). i.monitor_id) id s.backend.store.incidents;
    };
    results = remove_by (λ (r : MonitorResult). r.monitor_id) id s.backend.results;
  };
}

unfoldable pub delete_monitor :
    Formats → MonitorHandler → (MonitorQuery → Bool) → String → Site → Reply × Site
delete_monitor f h fails id s = elim (f.parse_uuid id) [
  | none ↦ (failed validation "invalid UUID", s)
  | some n ↦ if fails delete_row then (failed internal "internal error", s) else (
    no_content,
    note h (record { action = "monitor.delete"; entity_id = n; before = []; after = [] })
        (publish_to h (monitor_event monitor_deleted n (("action", string "deleted") ∷ []))
          (without_monitor n s)),
  )
]

-- auditActionForStatus
abbrev pub audit_action_for : MonitorStatus → String
audit_action_for status = if status_eq status paused then "monitor.pause" else "monitor.resume"

abbrev pub with_status : ℕ → MonitorStatus → Bool → Monitor → Monitor
with_status now status enabled m = record m {
  enabled = enabled;
  status = status;
  last_status_change_at =
      if not (status_eq m.status status) then some now else m.last_status_change_at;
}

abbrev pub after_status : MonitorHandler → Monitor → Monitor → MonitorStatus → Bool → Site → Site
after_status h m updated status enabled s =
    note h
      (record {
        action = audit_action_for status;
        entity_id = updated.id;
        before = ("status", monitor_status m.status) ∷ ("enabled", bool m.enabled) ∷ [];
        after =
            ("status", monitor_status status)
            ∷ ("enabled", bool enabled)
            ∷ ("name", string updated.name)
            ∷ [];
      })
      (if not (status_eq m.status status) then publish_to h (status_event m status) s else s)

unfoldable pub set_status :
    Formats
    → MonitorHandler
    → (MonitorQuery → Bool)
    → ℕ
    → String
    → MonitorStatus
    → Bool
    → Site
    → Reply × Site
unfolding update_monitor_row
set_status f h fails now id status enabled s = elim (f.parse_uuid id) [
  | none ↦ (failed validation "invalid UUID", s)
  | some n ↦
      if fails get_row
      then (failed not_found "monitor not found", s)
      else (elim (find_monitor n s) [
        | none ↦ (failed not_found "monitor not found", s)
        | some m ↦
            let (row, s') = update_monitor_row fails (with_status now status enabled m) s in
            elim row [
              | none ↦ (failed internal "internal error", s')
              | some updated ↦
                  (shown (response f updated), after_status h m updated status enabled s')
            ]
      ])
]

abbrev pub pause_monitor :
    Formats → MonitorHandler → (MonitorQuery → Bool) → ℕ → String → Site → Reply × Site
pause_monitor f h fails now id = set_status f h fails now id paused false

abbrev pub resume_monitor :
    Formats → MonitorHandler → (MonitorQuery → Bool) → ℕ → String → Site → Reply × Site
resume_monitor f h fails now id = set_status f h fails now id unknown true
