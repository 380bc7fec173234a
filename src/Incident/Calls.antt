-- ===== src/Incident/Calls.antt =====
-- Sequences of calls of the incident service, and the invariant over them.
use blackgrid.Prelude.{ℕ, refl, Bool, List, [], ◌∷◌, pos, arith, String}
use blackgrid.Model.{Monitor, MonitorStatus, Severity}
use blackgrid.Incident.Store.{Store}
use blackgrid.Incident.Output.{Service, Query}
use blackgrid.Incident.Service.{open_for_monitor, resolve_for_monitor, acknowledge, resolve}
use blackgrid.Incident.Hook.{on_scheduled_status_change}
use blackgrid.Incident.Invariant.{
  Inv, open_for_monitor-Inv, resolve_for_monitor-Inv, acknowledge-Inv, resolve-Inv,
  on_scheduled_status_change-Inv,
}

-- A call, with its time and the queries that fail in it.
pub data Call : Type 0 where
  opens : Monitor → Severity → String → String → Call
  recovers : Monitor → String → Call
  acknowledges resolves : ℕ → String → Call
  changes : Monitor → MonitorStatus → MonitorStatus → Call

pub record Invocation : Type 0 where
  pub call : Call
  pub fails : Query → Bool
  pub now : ℕ

unfoldable pub dispatch : Call → Service → (Query → Bool) → ℕ → Store → Store
dispatch (opens m sev summary details) svc fails now s =
    (open_for_monitor svc fails now m sev summary details s).1
dispatch (recovers m reason) svc fails now s = (resolve_for_monitor svc fails now m reason s).1
dispatch (acknowledges id note) svc fails now s = (acknowledge svc fails now id note s).1
dispatch (resolves id note) svc fails now s = (resolve svc fails now id note s).1
dispatch (changes m old new) svc fails now s = on_scheduled_status_change svc fails now m old new s

unfoldable pub step : Service → Invocation → Store → Store
unfolding dispatch
step svc c s = dispatch c.call svc c.fails c.now s

unfoldable pub run : Service → List Invocation → Store → Store
run svc [] s = s
run svc (c ∷ cs) s = run svc cs (step svc c s)

abbrev pub empty : List Monitor → Store
empty monitors = record {
  monitors = monitors;
  incidents = [];
  next_id = 0;
  incidents_open = pos 0;
  published = [];
  notified = [];
}

dispatch-Inv :
    (c : Call) (svc : Service) (fails : Query → Bool) (now : ℕ) (s : Store)
    → Inv s
    → Inv (dispatch c svc fails now s)
unfolding dispatch
dispatch-Inv (opens m sev summary details) svc fails now s v =
    open_for_monitor-Inv svc fails now s v m sev summary details
dispatch-Inv (recovers m reason) svc fails now s v =
    resolve_for_monitor-Inv svc fails now s v m reason
dispatch-Inv (acknowledges id note) svc fails now s v = acknowledge-Inv svc fails now s v id note
dispatch-Inv (resolves id note) svc fails now s v = resolve-Inv svc fails now s v id note
dispatch-Inv (changes m old new) svc fails now s v =
    on_scheduled_status_change-Inv svc fails now s v m old new

pub step-Inv : (svc : Service) (c : Invocation) (s : Store) → Inv s → Inv (step svc c s)
unfolding step
step-Inv svc c s v = dispatch-Inv c.call svc c.fails c.now s v

pub empty-Inv : (monitors : List Monitor) → Inv (empty monitors)
empty-Inv monitors = record { fresh = tt; single = λ m. omega arith; gauge = refl; stamped = tt }

pub run-Inv : (svc : Service) (cs : List Invocation) (s : Store) → Inv s → Inv (run svc cs s)
unfolding run
run-Inv svc [] s v = v
run-Inv svc (c ∷ cs) s v = run-Inv svc cs (step svc c s) (step-Inv svc c s v)

-- After any sequence of calls from an empty table, whichever queries fail: no monitor has two
-- active incidents, the gauge is the number of active incidents, the ids are distinct, and an
-- incident has a resolution time just when it is resolved.
pub run-empty-Inv :
    (svc : Service) (cs : List Invocation) (monitors : List Monitor)
    → Inv (run svc cs (empty monitors))
run-empty-Inv svc cs monitors = run-Inv svc cs (empty monitors) (empty-Inv monitors)
