-- ===== src/Mail/Requests.antt =====
-- The requests to the mail service, the messages of its queue among them, and what each of them may
-- do to the tables.
use docflow_web.Base.{ℕ, String, ◌≡◌, none, List, [], ◌∷◌, ◌⊎◌}
use docflow_web.Base.Paging.{ℤ}
use docflow_web.Base.Text.{trim_space}
use docflow_web.Base.Table.{update_where, find, is_key}
use docflow_web.Mail.Domain.{MailJob, MailTemplate}
use docflow_web.Mail.Repository.{MailEnv, MailDb, MailWorld, Counter, job_key, set_nx}
use docflow_web.Mail.Service
use docflow_web.Mail.Service.{EmailJob}

pub data Request : Type 0 where
  queued : EmailJob → Request
  payload : String ⊎ MailJob → Request
  submit : MailJob → Request
  send_email :
      String → String → String → String → String → List (String × String) → String → Request
  send_bulk_email :
      List String → String → String → String → List (String × String) → String → Request
  get_job : String → Request
  list_jobs : ℤ → ℤ → String → String → Request
  get_template : String → Request
  list_templates : Request
  update_template : MailTemplate → Request
  seed_templates : Request
  get_stats : ℕ → ℕ → Request

module _ (env : MailEnv) where
  abbrev pub respond : Request → MailWorld → MailWorld
  respond (queued m) w = (Service.consume env m w).1
  respond (payload p) w = (Service.handle_queued_payload env p w).1
  respond (submit j) w = (Service.submit env j w).1
  respond (send_email to subject body user_id id vars category) w =
      (Service.send_email env to subject body user_id id vars category w).1
  respond (send_bulk_email to subject body id vars category) w =
      (Service.send_bulk_email env to subject body id vars category w).1
  respond (get_job id) w = (Service.get_job env id w).1
  respond (list_jobs page size status category) w =
      (Service.list_jobs env page size status category w).1
  respond (get_template id) w = (Service.get_template env id w).1
  respond list_templates w = (Service.list_templates env w).1
  respond (update_template t) w = (Service.update_template env t w).1
  respond seed_templates w = (Service.seed_templates env w).1
  respond (get_stats from to) w = (Service.get_stats env from to w).1

  abbrev pub serve_mail : MailWorld → List Request → MailWorld
  serve_mail w [] = w
  serve_mail w (r ∷ rs) = serve_mail (respond r w) rs

-- What a property of the tables must stand, to be kept by every request: the writes of the
-- repository. Those on jobs are the insertion of a row, which is then the request's own, and the
-- change of such a row.
pub record Stable (env : MailEnv) (I : MailDb → Type 0) (Own : String → Type 0) : Type 0 where
  pub marks :
      (now ttl : ℕ) (key : String) (d : MailDb)
      → I d
      → I (record d { marks = (set_nx now ttl key d.marks).1 })
  pub counters : (c : List (String × Counter)) (d : MailDb) → I d → I (record d { counters = c })
  pub templates : (t : List MailTemplate) (d : MailDb) → I d → I (record d { templates = t })
  pub rows :
      (n : ℕ) (j : MailJob) (d : MailDb)
      → j.id ≡ env.pg.new_id n
      → find job_key j.id d.jobs ≡ none
      → I d
      → I (record d { jobs = j ∷ d.jobs }) × Own j.id
  pub changes :
      (id : String) (f : MailJob → MailJob) (d : MailDb)
      → ((r : MailJob) → (job_key (f r) ≡ job_key r) × ((f r).recipient ≡ r.recipient))
      → Own id
      → I d
      → I (record d { jobs = update_where (is_key job_key (trim_space id)) f d.jobs })
  pub own : (id : String) → Own id → Own (trim_space id)
