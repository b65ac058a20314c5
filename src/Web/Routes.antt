-- ===== src/Web/Routes.antt =====
-- `routeJobs` of internal/web/api/handler.go: from a request to its handler.
pub mod Laws
mod Tests
use cronbat.Prelude.{ℕ, Bool, true, false, ◌&&◌, List, [], ◌∷◌, drop, length, if◌then◌else◌, ◌==◌}
use cronbat.Text.{Text, codes, is_empty, text_eq, has_prefix}
use cronbat.Errors.{Result}
use cronbat.Config.Job.{Job}
use cronbat.World.{World}
use cronbat.Store.{Engine}
use cronbat.Web.Api.{Reply, Server, not_allowed}
use cronbat.Web.Jobs.{
  Request, is_method, handle_list_jobs, handle_get_job, handle_trigger_run, handle_enable_job,
  handle_disable_job, handle_start_job, handle_stop_job, handle_pause_job, handle_delete_job,
  handle_archive_job, handle_get_job_yaml, handle_update_job_yaml, handle_update_job_settings,
}

-- strings.TrimPrefix
unfoldable pub trim_prefix : Text → Text → Text
unfolding has_prefix
trim_prefix prefix s = if has_prefix s prefix then drop (length prefix) s else s

-- strings.SplitN(s, "/", 2): the first part, and the second or ""
unfoldable pub split_slash : Text → Text × Text
split_slash [] = ([], [])
split_slash (x ∷ xs) =
    let rest = split_slash xs in if x == b'/' then ([], xs) else (x ∷ rest.0, rest.1)

module _ (w : World) (jobs_dir : Text) (g : Engine) (decode_job : Text → Result Job)
    (decode_payload : Text → Result Text) (now : ℕ) (stamp : Text) where
  unfoldable pub dispatch : Text → Text → Request → Server → Reply × Server
  dispatch name action r s =
      if text_eq action (codes "run") && is_method (codes "POST") r
      then handle_trigger_run w jobs_dir g decode_job decode_payload now name s
      else if text_eq action (codes "start") && is_method (codes "PUT") r
      then handle_start_job w jobs_dir g decode_job decode_payload now name s
      else if text_eq action (codes "stop") && is_method (codes "PUT") r
      then handle_stop_job w jobs_dir g decode_job decode_payload now name s
      else if text_eq action (codes "pause") && is_method (codes "PUT") r
      then handle_pause_job w jobs_dir g decode_job decode_payload now name s
      else if text_eq action (codes "archive") && is_method (codes "PUT") r
      then handle_archive_job w jobs_dir g decode_job decode_payload now stamp name s
      else if text_eq action (codes "enable") && is_method (codes "PUT") r
      then handle_enable_job w jobs_dir g decode_job decode_payload now name s
      else if text_eq action (codes "disable") && is_method (codes "PUT") r
      then handle_disable_job w jobs_dir g decode_job decode_payload now name s
      else if text_eq action (codes "yaml") && is_method (codes "GET") r
      then handle_get_job_yaml w jobs_dir g decode_job decode_payload now name s
      else if text_eq action (codes "yaml") && is_method (codes "PUT") r
      then handle_update_job_yaml w jobs_dir g decode_job decode_payload now name r s
      else if is_empty action && is_method (codes "PUT") r
      then handle_update_job_settings w jobs_dir g decode_job decode_payload now name r s
      else if is_empty action && is_method (codes "DELETE") r
      then handle_delete_job w jobs_dir g decode_job decode_payload now name s
      else if is_empty action && is_method (codes "GET") r
      then handle_get_job w jobs_dir g decode_job decode_payload now name s
      else not_allowed s

  unfoldable pub route_jobs : Request → Server → Reply × Server
  unfolding dispatch trim_prefix split_slash
  route_jobs r s =
      let (name, action) = split_slash (trim_prefix (codes "/api/v1/jobs/") r.path) in
      if is_empty name
      then handle_list_jobs w jobs_dir g decode_job decode_payload now r s
      else dispatch name action r s
