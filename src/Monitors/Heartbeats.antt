-- ===== src/Monitors/Heartbeats.antt =====
-- Runs of heartbeats: the status that a push monitor reports and the incident that it has.
use blackgrid.Prelude.{
  find_if-update_by, ℕ, String, true, false, not, if◌then◌else◌, ◌==◌, ◌≡◌, ◌≢◌, refl, sym, subst,
  ap, ◌∙◌, Option, some, List, [], ◌∷◌, find_if, count_if, arith,
}
use text.Mathlib.Text.{◌==◌ as str_eq}
use text.Mathlib.TextEquality.{eq_iff}
use blackgrid.Model.{Monitor, MonitorStatus, status_eq}
use blackgrid.Incident.Store.{active_for}
use blackgrid.Incident.Outcome.{FreshIds}
use blackgrid.Monitors.{Formats, MonitorHandler, Site, monitors_of, with_monitors, find_monitor}
use blackgrid.Monitors.Push.{
  find_by_hash, hash_is, beaten, beat_rows, pushed_status, heartbeat_result, heartbeat_events,
  record_beat, store_result, receive_push_heartbeat,
}
use blackgrid.Monitors.Hooked.{
  no_failure, is_failing, one_if, is_pushed, pushed_status-is_pushed, heartbeat_events-Holds,
  heartbeat_hook-Holds,
}

-- A site at which the token of the monitor `m` is known, the ids of the incidents are in the order in
-- which they were handed out, and the number of the active incidents of `m` fits its status.
pub record Watched (hash : String) (s : Site) (m : Monitor) : Type 0 where
  pub by_hash : find_by_hash hash s ≡ some m
  pub by_id : find_monitor m.id s ≡ some m
  pub is_on : m.enabled ≡ true
  pub fresh : FreshIds s.backend.store
  pub paired : count_if (active_for m.id) s.backend.store.incidents ≡ one_if (is_failing m.status)

abbrev pub beaten_by : ℕ → MonitorStatus → Monitor → Monitor
beaten_by now status m =
    beaten now status
      (if not (status_eq status m.status) then some now else m.last_status_change_at) m

record_beat-Watched :
    (h : MonitorHandler) (now : ℕ) (hash : String) (m : Monitor) (status : MonitorStatus) (s : Site)
    → h.has_hook ≡ true
    → is_pushed status ≡ true
    → Watched hash s m
    → Watched hash (record_beat h no_failure now m status s).1 (beaten_by now status m)
unfolding record_beat
record_beat-Watched h now hash m status s hook pushed w =
    let after = beaten_by now status m in
    let rows = beat_rows m.id now status after.last_status_change_at (monitors_of s) in
    let v =
      heartbeat_hook-Holds rows h now m after status
        (heartbeat_events h m status (with_monitors rows s)) hook refl pushed
        (heartbeat_events-Holds m.id (one_if (is_failing m.status)) rows h m status
          (with_monitors rows s) (record { fresh = w.fresh; count = w.paired; rows = refl })) in
    rw w.by_id (record {
      by_hash =
          ap (find_if (λ (x : Monitor). hash_is hash x.push_token_hash)) v.rows
          ∙ find_if-update_by (λ (x : Monitor). x.id) m.id
              (beaten now status after.last_status_change_at)
              (λ (x : Monitor). hash_is hash x.push_token_hash) (monitors_of s) m (λ x. refl) refl
              w.by_hash;
      by_id =
          ap (find_if (λ (x : Monitor). x.id == m.id)) v.rows
          ∙ find_if-update_by (λ (x : Monitor). x.id) m.id
              (beaten now status after.last_status_change_at) (λ (x : Monitor). x.id == m.id)
              (monitors_of s) m (λ x. refl) refl w.by_id;
      is_on = w.is_on;
      fresh = v.fresh;
      paired = v.count;
    })

-- A request to the push endpoint: when it comes, and the status of the parameter and of the body.
pub record Heartbeat : Type 0 where
  pub now : ℕ
  pub query : Option MonitorStatus
  pub body : Option MonitorStatus

module _ (f : Formats) (h : MonitorHandler) (token : String) where
  unfoldable pub run_heartbeats : List Heartbeat → Site → Site
  run_heartbeats [] s = s
  run_heartbeats (b ∷ bs) s =
      run_heartbeats bs (receive_push_heartbeat f h no_failure b.now token b.query b.body s).1

  receive-Watched :
      (b : Heartbeat) (s : Site) (m : Monitor)
      → h.has_hook ≡ true
      → str_eq token "" ≡ false
      → Watched (f.hash_token token) s m
      → Watched
          (f.hash_token token)
          (receive_push_heartbeat f h no_failure b.now token b.query b.body s).1
          (beaten_by b.now (pushed_status b.query b.body) m)
  unfolding receive_push_heartbeat
  receive-Watched b s m hook given w =
      let status = pushed_status b.query b.body in
      let s' = store_result no_failure (heartbeat_result b.now m status) s in
      let beat = record_beat h no_failure b.now m status s' in
      let same : receive_push_heartbeat f h no_failure b.now token b.query b.body s ≡ beat =
        ground (arith, given, w.by_hash, w.is_on) in
      subst (λ p. Watched (f.hash_token token) p.1 (beaten_by b.now status m)) (sym same)
        (record_beat-Watched h b.now (f.hash_token token) m status s' hook
          (pushed_status-is_pushed b.query b.body)
          (record {
            by_hash = w.by_hash;
            by_id = w.by_id;
            is_on = w.is_on;
            fresh = w.fresh;
            paired = w.paired;
          }))

-- The status of the last heartbeat, or the one before all.
abbrev pub last_status : MonitorStatus → List Heartbeat → MonitorStatus
last_status before [] = before
last_status before (b ∷ bs) = last_status (pushed_status b.query b.body) bs

module _ (f : Formats) (h : MonitorHandler) (token : String) where
  -- From a site at which the token belongs to the enabled monitor `m`, which is
  -- also the row with `m`'s id, and at which `m` has 1 active incident where its status is down or
  -- degraded and 0 otherwise, with the incident hook set, the ids of the incidents, newest first, falling
  -- and below the next id, and a token that is not empty: any sequence of heartbeats with that token and
  -- no failing query ends at a site at which the token still belongs to that monitor, whose status is
  -- the last one reported (`m`'s own where none was), and whose number of active incidents is again 1
  -- where that status is down or degraded and 0 otherwise.
  pub run_heartbeats-incidents :
      (bs : List Heartbeat) (s : Site) (m : Monitor)
      → h.has_hook ≡ true
      → token ≢ ""
      → Watched (f.hash_token token) s m
      → (let t = run_heartbeats f h token bs s in
          (r : Monitor) × (find_by_hash (f.hash_token token) t ≡ some r)
          × (r.id ≡ m.id)
          × (r.status ≡ last_status m.status bs)
          × (count_if (active_for r.id) t.backend.store.incidents ≡ one_if (is_failing r.status)))
  unfolding run_heartbeats
  run_heartbeats-incidents [] s m hook given w = (m, w.by_hash, refl, refl, w.paired)
  run_heartbeats-incidents (b ∷ bs) s m hook given w =
      run_heartbeats-incidents bs
        (receive_push_heartbeat f h no_failure b.now token b.query b.body s).1
        (beaten_by b.now (pushed_status b.query b.body) m) hook given
        (receive-Watched f h token b s m hook (ground (arith, given, eq_iff token "")) w)
