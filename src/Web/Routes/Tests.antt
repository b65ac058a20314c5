-- ===== src/Web/Routes/Tests.antt =====
-- Requests on jobs at a concrete server.
use cronbat.Prelude.{◌≡◌, refl, ◌⊎◌, none, [], arith}
use cronbat.Text.{
  Text, codes, text_eq, has_prefix, trim_space, trim_left, trim_right, is_space, is_safe_char,
  contains, to_lower,
}
use cronbat.Text.Laws.{every}
use cronbat.Dict.{lookup, insert}
use cronbat.Errors.{ok, err, new_error}
use cronbat.Config.Job.{is_enabled}
use cronbat.Config.Files.{parse_timeout, save_job}
use cronbat.World.{mkdir_all, write_file}
use cronbat.Store.{Engine}
use cronbat.Broker.{new_broker}
use cronbat.Daemon.State.{validate_job, trim_fields, is_safe_job_name, apply_schedule}
use cronbat.Daemon.Create.{create_job}
use cronbat.Daemon.Enable.{set_job_enabled, enable_job}
use cronbat.Daemon.Invariant.{nowhere, IsConsistent}
use cronbat.Daemon.Samples.{good, folder, nightly, empty, empty-IsConsistent}
use cronbat.Web.Status.{status_from_error}
use cronbat.Web.Api.{Reply, Server, changed}
use cronbat.Web.Jobs.{Request, handle_list_jobs, handle_create_job, handle_enable_job}
use cronbat.Web.Routes.{route_jobs, dispatch, trim_prefix, split_slash}
use cronbat.Web.Routes.Laws.{route_jobs_refused, route_jobs_accepted, route_jobs_get}

abbrev no_engine : Engine
no_engine = record {
  format_time = λ t. [];
  parse_time = λ s. err (new_error []);
  newest_first = λ rows. rows;
  latest = λ texts. none;
  average = λ ns. none;
  exec_fault = none;
  query_fault = none;
}

abbrev server : Server
server = record { daemon = empty; table = []; broker = new_broker; triggered = [] }

-- Every body is the job `nightly`.
abbrev serve : Request → Reply × Server
serve r =
    route_jobs good folder no_engine (λ body. ok nightly) (λ body. ok body) 5 (codes "t") r server

abbrev request : Text → Text → Request
request method path = record {
  method = method;
  path = path;
  content_type = [];
  body = ok (codes "x");
}

abbrev post_job : Request
post_job = request (codes "POST") (codes "/api/v1/jobs/")

abbrev enable_missing : Request
enable_missing = request (codes "PUT") (codes "/api/v1/jobs/x/enable")

abbrev get_yaml : Request
get_yaml = request (codes "GET") (codes "/api/v1/jobs/x/yaml")

created : (serve post_job).0.0 ≡ 201
unfolding route_jobs trim_prefix split_slash has_prefix handle_list_jobs handle_create_job changed
    text_eq validate_job trim_fields trim_space trim_left trim_right is_space is_safe_job_name every
    is_safe_char parse_timeout create_job lookup insert apply_schedule is_enabled save_job mkdir_all
    write_file
created = refl

refused : (serve enable_missing).0.0 ≡ 404
unfolding route_jobs dispatch trim_prefix split_slash has_prefix handle_enable_job enable_job
    set_job_enabled changed text_eq lookup status_from_error contains to_lower
refused = refl

route_jobs_refused_example :
    ((serve enable_missing).1.broker ≡ new_broker)
    × ((serve enable_missing).1.triggered ≡ [])
    × ((serve enable_missing).1.table ≡ [])
route_jobs_refused_example =
    route_jobs_refused good folder no_engine (λ body. ok nightly) (λ body. ok body) 5 (codes "t")
      server enable_missing (omega (arith, refused))

route_jobs_accepted_example :
    IsConsistent nowhere good (serve post_job).1.daemon
    × (((serve post_job).1 ≡ server) ⊎ ((serve post_job).1.broker.next_id ≡ 1))
route_jobs_accepted_example =
    route_jobs_accepted good folder no_engine (λ body. ok nightly) (λ body. ok body) 5 (codes "t")
      server post_job (empty-IsConsistent good) (omega (arith, created))

route_jobs_get_example : (serve get_yaml).1 ≡ server
route_jobs_get_example =
    route_jobs_get good folder no_engine (λ body. ok nightly) (λ body. ok body) 5 (codes "t") server
      get_yaml refl
