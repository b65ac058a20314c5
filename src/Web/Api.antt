-- ===== src/Web/Api.antt =====
-- The state behind the web API, and its replies: `API` and `writeJSON` of internal/web/api/handler.go,
-- with the replies of jobs.go and `emitEvent` of events.go.
use cronbat.Prelude.{ℕ, Bool, Option, List, []}
use cronbat.Text.{Text, codes}
use cronbat.Dict.{Dict}
use cronbat.Errors.{Result, ok, err}
use cronbat.Broker.{Event, Broker, publish}
use cronbat.Daemon.State.{Daemon}
use cronbat.Store.{Table, JobStats}
use cronbat.Web.Status.{status_from_error}

pub record JobSummary : Type 0 where
  pub name : Text
  pub schedule : Text
  pub command : Text
  pub working_dir : Text
  pub executor : Text
  pub enabled : Bool
  pub state : Text
  pub metadata : Dict Text
  pub next_run : Option ℕ
  pub last_run : Option ℕ
  pub last_run_status : Text

pub record JobDetail : Type 0 where
  pub summary : JobSummary
  pub timeout : Text
  pub env : Dict Text
  pub on_success : List Text
  pub on_failure : List Text
  pub stats : Option JobStats

-- The JSON object of a reply
pub data Body : Type 0 where
  error : Text → Body
  done : Text → Body
  done_name : Text → Text → Body
  job_list : List JobSummary → Body
  job : JobDetail → Body
  job_yaml : Text → Text → Body

-- The status code and the object
abbrev pub Reply : Type 0
Reply = ℕ × Body

-- `triggered` are the jobs that `TriggerRun` was called for.
pub record Server : Type 0 where
  pub daemon : Daemon
  pub table : Table
  pub broker : Broker
  pub triggered : List Text

abbrev pub job_event : Text → Text → Event
job_event name action = record {
  id = 0;
  kind = codes "job.changed";
  job_name = name;
  run_id = [];
  action = action;
  status = [];
  trigger = [];
  at = 0;
}

unfoldable pub emit_event : ℕ → Text → Text → Server → Server
emit_event now name action s = record s { broker = publish now (job_event name action) s.broker }

abbrev pub not_allowed : Server → Reply × Server
not_allowed s = ((405, Body.error (codes "method not allowed")), s)

-- What handlers of an operation do with its result: an error is reported; otherwise the event is
-- emitted.
unfoldable pub changed :
    ℕ → Text → Text → Reply → Server → Result (Unit {0}) × Daemon → Reply × Server
unfolding emit_event
changed now name action reply s (err e, d) =
    ((status_from_error e, Body.error e.message), record s { daemon = d })
changed now name action reply s (ok _, d) =
    (reply, emit_event now name action (record s { daemon = d }))
