-- ===== src/Web/Jobs/Reads.antt =====
-- The handlers that only read.
use cronbat.Prelude.{ℕ, ◌≡◌, refl, true, Option, none, some}
use cronbat.Text.{Text, codes}
use cronbat.Errors.{Result, ok, err}
use cronbat.Config.Job.{Job}
use cronbat.World.{World}
use cronbat.Store.{Engine}
use cronbat.Daemon.Yaml.{get_job_yaml}
use cronbat.Web.Api.{Reply, Server}
use cronbat.Web.Jobs.{
  Request, is_method, first_named, get_jobs, handle_list_jobs, job_found, handle_get_job, yaml_read,
  handle_get_job_yaml,
}

-- A reply that leaves the server as it was
abbrev pub Keeps : Server → Reply × Server → Type 0
Keeps s a = a.1 ≡ s

module _ (w : World) (jobs_dir : Text) (g : Engine) (decode_job : Text → Result Job)
    (decode_payload : Text → Result Text) (now : ℕ) (s : Server) where
  pub handle_list_jobs-Keeps :
      (r : Request)
      → is_method (codes "GET") r ≡ true
      → Keeps s (handle_list_jobs w jobs_dir g decode_job decode_payload now r s)
  unfolding handle_list_jobs
  handle_list_jobs-Keeps r get = rw get refl

  job_found-Keeps :
      (name : Text) (j : Option Job)
      → Keeps s (job_found w jobs_dir g decode_job decode_payload now name s j)
  unfolding job_found
  job_found-Keeps name none = refl
  job_found-Keeps name (some j) = refl

  pub handle_get_job-Keeps :
      (name : Text) → Keeps s (handle_get_job w jobs_dir g decode_job decode_payload now name s)
  unfolding handle_get_job
  handle_get_job-Keeps name = job_found-Keeps name (first_named name (get_jobs s.daemon.jobs))

  yaml_read-Keeps :
      (name : Text) (r : Result Text)
      → Keeps s (yaml_read w jobs_dir g decode_job decode_payload now name s r)
  unfolding yaml_read
  yaml_read-Keeps name (err e) = refl
  yaml_read-Keeps name (ok t) = refl

  pub handle_get_job_yaml-Keeps :
      (name : Text)
      → Keeps s (handle_get_job_yaml w jobs_dir g decode_job decode_payload now name s)
  unfolding handle_get_job_yaml
  handle_get_job_yaml-Keeps name = yaml_read-Keeps name (get_job_yaml w jobs_dir name s.daemon)
