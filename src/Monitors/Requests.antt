-- ===== src/Monitors/Requests.antt =====
-- Sequences of calls of the monitor handlers.
use blackgrid.Prelude.{ℕ, String, Bool, Option, List, [], ◌∷◌}
use blackgrid.Model.{MonitorStatus}
use blackgrid.Scheduler.{CheckResult}
use blackgrid.Monitors.{Formats, MonitorHandler, Site, MonitorQuery, MonitorRequest}
use blackgrid.Monitors.Create.{create_monitor}
use blackgrid.Monitors.Edit.{update_monitor, delete_monitor, pause_monitor, resume_monitor}
use blackgrid.Monitors.Push.{receive_push_heartbeat, rotate_push_token, test_monitor}

-- A call of a handler, with what comes from outside: the time, the random token, the result of a check.
pub data Command : Type 0 where
  creates : Option String → MonitorRequest → Command
  updates : String → Option MonitorRequest → Command
  deletes : String → Command
  pauses resumes : ℕ → String → Command
  rotates : Option String → String → Command
  tests : ℕ → String → CheckResult → Command
  beats : ℕ → String → Option MonitorStatus → Option MonitorStatus → Command

pub record Request : Type 0 where
  pub command : Command
  pub fails : MonitorQuery → Bool

module _ (f : Formats) (h : MonitorHandler) where
  unfoldable pub perform : Command → (MonitorQuery → Bool) → Site → Site
  perform (creates random r) fails s = (create_monitor f h fails random r s).1
  perform (updates id r) fails s = (update_monitor f h fails id r s).1
  perform (deletes id) fails s = (delete_monitor f h fails id s).1
  perform (pauses now id) fails s = (pause_monitor f h fails now id s).1
  perform (resumes now id) fails s = (resume_monitor f h fails now id s).1
  perform (rotates random id) fails s = (rotate_push_token f h fails random id s).1
  perform (tests now id r) fails s = (test_monitor f h fails now id r s).1
  perform (beats now token query body) fails s =
      (receive_push_heartbeat f h fails now token query body s).1

  unfoldable pub perform_all : List Request → Site → Site
  unfolding perform
  perform_all [] s = s
  perform_all (q ∷ qs) s = perform_all qs (perform q.command q.fails s)
