-- ===== src/Web/Routes/Laws.antt =====
-- What any request on jobs does to the server.
use cronbat.Prelude.{
  ℕ, suc, ◌≤◌, ◌<◌, ◌≡◌, refl, inl, inr, ◌⊎◌, Bool, true, false, ◌&&◌, arith, if◌then◌else◌,
}
use cronbat.Text.{Text, codes, is_empty, text_eq}
use cronbat.Text.Laws.{text_eq_refl}
use cronbat.Errors.{Result}
use cronbat.Config.Job.{Job}
use cronbat.World.{World}
use cronbat.Store.{Engine}
use cronbat.Broker.{publish}
use cronbat.Daemon.Invariant.{IsConsistent}
use cronbat.Daemon.Run.Laws.{perform-IsConsistent_done}
use cronbat.Web.Api.{Reply, Server, emit_event}
use cronbat.Web.Jobs.{Request, is_method, handle_list_jobs}
use cronbat.Web.Jobs.Reads.{
  Keeps, handle_list_jobs-Keeps, handle_get_job-Keeps, handle_get_job_yaml-Keeps,
}
use cronbat.Web.Jobs.Answers.{
  Answer, handle_list_jobs-Answer, handle_get_job-Answer, handle_trigger_run-Answer,
  handle_enable_job-Answer, handle_disable_job-Answer, handle_start_job-Answer,
  handle_stop_job-Answer, handle_pause_job-Answer, handle_delete_job-Answer,
  handle_archive_job-Answer, handle_get_job_yaml-Answer, handle_update_job_yaml-Answer,
  handle_update_job_settings-Answer,
}
use cronbat.Web.Routes.{trim_prefix, split_slash, dispatch, route_jobs}

module _ (w : World) (jobs_dir : Text) (g : Engine) (decode_job : Text → Result Job)
    (decode_payload : Text → Result Text) (now : ℕ) (stamp : Text) where
  module _ (s : Server) where
    abbrev Answered : Reply × Server → Type 0
    Answered = Answer w jobs_dir now s

    infix 1 if◌is◌else◌
    if◌is◌else◌ :
        (b : Bool) {x y : Reply × Server} → Answered x → Answered y → Answered (if b then x else y)
    if true is a else b = a
    if false is a else b = b

    dispatch-Answer :
        (name action : Text) (r : Request)
        → Answered (dispatch w jobs_dir g decode_job decode_payload now stamp name action r s)
    unfolding dispatch
    dispatch-Answer name action r =
        if text_eq action (codes "run") && is_method (codes "POST") r
        is handle_trigger_run-Answer w jobs_dir now s g decode_job decode_payload name
        else (if text_eq action (codes "start") && is_method (codes "PUT") r
            is handle_start_job-Answer w jobs_dir now s g decode_job decode_payload name
            else (if text_eq action (codes "stop") && is_method (codes "PUT") r
                is handle_stop_job-Answer w jobs_dir now s g decode_job decode_payload name
                else (if text_eq action (codes "pause") && is_method (codes "PUT") r
                    is handle_pause_job-Answer w jobs_dir now s g decode_job decode_payload name
                    else (if text_eq action (codes "archive") && is_method (codes "PUT") r
                        is handle_archive_job-Answer w jobs_dir now s g decode_job decode_payload
                            name stamp
                        else (if text_eq action (codes "enable") && is_method (codes "PUT") r
                            is handle_enable_job-Answer w jobs_dir now s g decode_job decode_payload
                                name
                            else (if text_eq action (codes "disable") && is_method (codes "PUT") r
                                is handle_disable_job-Answer w jobs_dir now s g decode_job
                                    decode_payload name
                                else (if text_eq action (codes "yaml") && is_method (codes "GET") r
                                    is handle_get_job_yaml-Answer w jobs_dir now s g decode_job
                                        decode_payload name
                                    else (if text_eq action (codes "yaml")
                                          && is_method (codes "PUT") r
                                        is handle_update_job_yaml-Answer w jobs_dir now s g
                                            decode_job decode_payload name r
                                        else (if is_empty action && is_method (codes "PUT") r
                                            is handle_update_job_settings-Answer w jobs_dir now s g
                                                decode_job decode_payload name r
                                            else (if is_empty action && is_method (codes "DELETE") r
                                                is handle_delete_job-Answer w jobs_dir now s g
                                                    decode_job decode_payload name
                                                else (if is_empty action
                                                      && is_method (codes "GET") r
                                                    is handle_get_job-Answer w jobs_dir now s g
                                                        decode_job decode_payload name
                                                    else Answer.reads _)))))))))))

    route_jobs-Answer :
        (r : Request) → Answered (route_jobs w jobs_dir g decode_job decode_payload now stamp r s)
    unfolding route_jobs
    route_jobs-Answer r =
        if is_empty (split_slash (trim_prefix (codes "/api/v1/jobs/") r.path)).0
        is handle_list_jobs-Answer w jobs_dir now s g decode_job decode_payload r
        else dispatch-Answer _ _ r

    Answer_refused :
        (a : Reply × Server)
        → Answered a
        → 400 ≤ a.0.0
        → (a.1.broker ≡ s.broker) × (a.1.triggered ≡ s.triggered) × (a.1.table ≡ s.table)
    unfolding emit_event
    Answer_refused _ (Answer.reads reply) bad = (refl, refl, refl)
    Answer_refused _ (Answer.fails c code body le failed) bad = (refl, refl, refl)
    Answer_refused _ (Answer.changes c name action code body lt went_well) bad =
        absurd (omega arith)
    Answer_refused _ (Answer.triggers name body) bad = absurd (omega arith)

    -- A request on jobs that is refused, with a status of 400 or more, announces no event, starts no
    -- run and leaves the history of runs as it was.
    pub route_jobs_refused :
        (r : Request)
        → 400 ≤ (route_jobs w jobs_dir g decode_job decode_payload now stamp r s).0.0
        → ((route_jobs w jobs_dir g decode_job decode_payload now stamp r s).1.broker ≡ s.broker)
          × ((route_jobs w jobs_dir g decode_job decode_payload now stamp r s).1.triggered
              ≡ s.triggered)
          × ((route_jobs w jobs_dir g decode_job decode_payload now stamp r s).1.table ≡ s.table)
    route_jobs_refused r = Answer_refused _ (route_jobs-Answer r)

    Answer_accepted :
        {lax : Text → Bool} (a : Reply × Server)
        → Answered a
        → IsConsistent lax w s.daemon
        → a.0.0 < 300
        → IsConsistent lax w a.1.daemon × ((a.1 ≡ s) ⊎ (a.1.broker.next_id ≡ suc s.broker.next_id))
    unfolding emit_event publish
    Answer_accepted _ (Answer.reads reply) h good = (h, inl refl)
    Answer_accepted _ (Answer.fails c code body le failed) h good = absurd (omega arith)
    Answer_accepted _ (Answer.changes c name action code body lt went_well) h good =
        (perform-IsConsistent_done w jobs_dir now s.daemon h c went_well, inr refl)
    Answer_accepted _ (Answer.triggers name body) h good = (h, inr refl)

    -- A request on jobs that is accepted, with a status below 300, keeps a consistent daemon
    -- consistent, and either it changes nothing at all or it announces exactly one event.
    pub route_jobs_accepted :
        {lax : Text → Bool} (r : Request)
        → IsConsistent lax w s.daemon
        → (route_jobs w jobs_dir g decode_job decode_payload now stamp r s).0.0 < 300
        → IsConsistent lax w
            (route_jobs w jobs_dir g decode_job decode_payload now stamp r s).1.daemon
          × (((route_jobs w jobs_dir g decode_job decode_payload now stamp r s).1 ≡ s)
              ⊎ ((route_jobs w jobs_dir g decode_job decode_payload now stamp r s).1.broker.next_id
                  ≡ suc s.broker.next_id))
    route_jobs_accepted r = Answer_accepted _ (route_jobs-Answer r)

    -- ---------------------------------------------------------------- GET

    by_other_method :
        (b : Bool) (x y : Reply × Server) → Keeps s y → Keeps s (if b && false then x else y)
    by_other_method true x y same = same
    by_other_method false x y same = same

    by_get :
        (b : Bool) (x y : Reply × Server)
        → Keeps s x
        → Keeps s y
        → Keeps s (if b && true then x else y)
    by_get true x y same same' = same
    by_get false x y same same' = same'

    dispatch_get :
        (name action : Text) (r : Request)
        → r.method ≡ codes "GET"
        → Keeps s (dispatch w jobs_dir g decode_job decode_payload now stamp name action r s)
    unfolding dispatch text_eq
    dispatch_get name action r get = rw get (
        by_other_method (text_eq action (codes "run")) _ _ (
          by_other_method (text_eq action (codes "start")) _ _ (
            by_other_method (text_eq action (codes "stop")) _ _ (
              by_other_method (text_eq action (codes "pause")) _ _ (
                by_other_method (text_eq action (codes "archive")) _ _ (
                  by_other_method (text_eq action (codes "enable")) _ _ (
                    by_other_method (text_eq action (codes "disable")) _ _ (
                      by_get (text_eq action (codes "yaml")) _ _
                        (handle_get_job_yaml-Keeps w jobs_dir g decode_job decode_payload now s
                          name)
                        (by_other_method (text_eq action (codes "yaml")) _ _ (
                          by_other_method (is_empty action) _ _ (
                            by_other_method (is_empty action) _ _ (
                              by_get (is_empty action) _ _
                                (handle_get_job-Keeps w jobs_dir g decode_job decode_payload now s
                                  name)
                                refl))))))))))))

    -- A GET request on jobs, to whichever path, leaves the server as it was.
    pub route_jobs_get :
        (r : Request)
        → r.method ≡ codes "GET"
        → (route_jobs w jobs_dir g decode_job decode_payload now stamp r s).1 ≡ s
    unfolding route_jobs
    route_jobs_get r get =
        by_name (is_empty (split_slash (trim_prefix (codes "/api/v1/jobs/") r.path)).0)
      where
        by_name :
            (b : Bool)
            → Keeps s (
                if b
                then handle_list_jobs w jobs_dir g decode_job decode_payload now r s
                else dispatch w jobs_dir g decode_job decode_payload now stamp
                    (split_slash (trim_prefix (codes "/api/v1/jobs/") r.path)).0
                    (split_slash (trim_prefix (codes "/api/v1/jobs/") r.path)).1
                    r
                    s)
        by_name true =
            handle_list_jobs-Keeps w jobs_dir g decode_job decode_payload now s r
              (rw get (text_eq_refl (codes "GET")))
        by_name false = dispatch_get _ _ r get
