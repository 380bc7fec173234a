-- ===== src/Monitors/Cases.antt =====
-- How the monitor handlers leave the table of monitors: a predicate that holds before the call, and
-- after each way in which the call writes, holds after it.
use blackgrid.Prelude.{
  ℕ, Bool, ◌≡◌, not, Option, some, List, arith, inl, inr, if◌then◌else◌, Option-cases, subst, sym,
}
use blackgrid.Model.{Monitor, MonitorResult, status_eq, MonitorStatus}
use blackgrid.Incident.Cases.{on_scheduled_status_change-monitors}
use blackgrid.Monitors.{
  with_monitors, MonitorHandler, Site, MonitorQuery, incident_query, find_monitor, monitors_of,
}
use blackgrid.Monitors.Push.{
  beaten, beat_rows, store_result, heartbeat_hook, heartbeat_events, record_beat,
}

heartbeat_hook-monitors :
    (h : MonitorHandler) (fails : MonitorQuery → Bool) (now : ℕ) (m updated : Monitor)
    (status : MonitorStatus) (s : Site)
    → (monitors_of (heartbeat_hook h fails now m updated status s) ≡ monitors_of s)
      × ((heartbeat_hook h fails now m updated status s).next_monitor ≡ s.next_monitor)
heartbeat_hook-monitors h fails now m updated status s = (
  ground (
    arith,
    on_scheduled_status_change-monitors h.service (λ q. fails (incident_query q)) now updated
        m.status status s.backend.store,
  ),
  ground arith,
)

heartbeat_events-monitors :
    (h : MonitorHandler) (m : Monitor) (status : MonitorStatus) (s : Site)
    → (monitors_of (heartbeat_events h m status s) ≡ monitors_of s)
      × ((heartbeat_events h m status s).next_monitor ≡ s.next_monitor)
heartbeat_events-monitors h m status s = (ground arith, ground arith)

pub store_result-monitors :
    (fails : MonitorQuery → Bool) (r : MonitorResult) (s : Site)
    → (monitors_of (store_result fails r s) ≡ monitors_of s)
      × ((store_result fails r s).next_monitor ≡ s.next_monitor)
store_result-monitors fails r s = (ground arith, ground arith)

abbrev pub Holds {κ} : (List Monitor → ℕ → Type κ) → Site → Type κ
Holds P t = P (monitors_of t) t.next_monitor

pub Holds-same {κ} :
    (P : List Monitor → ℕ → Type κ) (s t : Site)
    → (monitors_of t ≡ monitors_of s) × (t.next_monitor ≡ s.next_monitor)
    → Holds P s
    → Holds P t
Holds-same P s t same v =
    subst (λ ms. P ms t.next_monitor) (sym same.0) (subst (λ k. P (monitors_of s) k) (sym same.1) v)

pub heartbeat_cases {κ} :
    (h : MonitorHandler) (fails : MonitorQuery → Bool) (P : List Monitor → ℕ → Type κ) (s : Site)
    (now : ℕ) (m : Monitor) (status : MonitorStatus)
    → Holds P s
    → ((changed_at : Option ℕ)
        → P (beat_rows m.id now status changed_at (monitors_of s)) s.next_monitor)
    → Holds P (record_beat h fails now m status s).1
unfolding record_beat
heartbeat_cases h fails P s now m status v done = elim (Option-cases (find_monitor m.id s)) [
  | inl gone ↦ ground (arith, gone, v)
  | inr (row, found) ↦
      let changed_at =
        if not (status_eq status m.status) then some now else m.last_status_change_at in
      let rows = beat_rows m.id now status changed_at (monitors_of s) in
      let written = with_monitors rows s in
      let events = heartbeat_events h m status written in
      let updated = beaten now status changed_at row in
      let hooked = heartbeat_hook h fails now m updated status events in
      let beat : Holds P hooked =
        Holds-same P events hooked (heartbeat_hook-monitors h fails now m updated status events) (
          Holds-same P written events (heartbeat_events-monitors h m status written)
            (done changed_at)) in
      ground (arith, found, v, beat)
]
