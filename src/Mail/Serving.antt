-- ===== src/Mail/Serving.antt =====
-- The requests, one by one, for a property that stands the writes of the repository.
use docflow_web.Base.{ℕ, String, Bool, Option, none, some, List, [], ◌∷◌, ◌⊎◌, inl, inr}
use docflow_web.Base.Paging.{ℤ}
use docflow_web.Base.Keeps.{
  Keeps, Keeps-pure, Keeps-raise, Keeps-if, Keeps-query, Keeps-bind, Keeps-fail_if, Keeps-statement,
  Keeps-of_Gives,
}
use docflow_web.Mail.Domain.{MailJob, MailTemplate, default_templates}
use docflow_web.Mail.Repository
use docflow_web.Mail.Repository.{MailEnv, MailDb, MailWorld, App, template_key, upserted}
use docflow_web.Mail.Service
use docflow_web.Mail.Requests.{
  Stable, Request, queued, payload, submit, send_email, send_bulk_email, get_job, list_jobs,
  get_template, list_templates, update_template, seed_templates, get_stats, respond, serve_mail,
}
use docflow_web.Mail.Effects

module _ (env : MailEnv) (I : MailDb → Type 0) (Own : String → Type 0) (s : Stable env I Own) where
  open env use {pg}

  Keeps-create_job : (j : MailJob) → Keeps I (Repository.create_job env j)
  Keeps-create_job j =
      Keeps-of_Gives I (Effects.OwnJob env I Own s) _ (Effects.Gives-create_job env I Own s j)

  Keeps-process_once : (j : MailJob) (fresh : Bool) → Keeps I (Service.process_once env j fresh)
  unfolding Repository.get_job_by_job_id
  Keeps-process_once j fresh =
      Keeps-if I fresh _ _ (Effects.Keeps-process env I Own s j) (Keeps-query I pg _)

  pub Keeps-handle : (j : MailJob) → Keeps I (Service.handle_queued_job env j)
  unfolding Service.handle_queued_job
  Keeps-handle j = Keeps-bind I _ _ (Keeps-fail_if I _ _) λ _.
      Keeps-bind I _ _ (Keeps-fail_if I _ _)
        λ _. Keeps-bind I _ _ (Effects.Keeps-mark_dedup env I Own s _ _) (Keeps-process_once j)

  Keeps-payload : (p : String ⊎ MailJob) → Keeps I (Service.handle_queued_payload env p)
  unfolding Service.handle_queued_payload
  Keeps-payload (inl text) = Keeps-raise I _
  Keeps-payload (inr j) = Keeps-bind I _ _ (Keeps-fail_if I _ _) λ _. Keeps-handle _

  Keeps-submit : (j : MailJob) → Keeps I (Service.submit env j)
  unfolding Service.submit
  Keeps-submit j =
      Keeps-bind I _ _ (Keeps-fail_if I _ _)
        λ _. Keeps-bind I _ _ (Effects.Keeps-or_new_uuid env I Own s _) λ _. Keeps-create_job _

  Keeps-mail_now : (r : String ⊎ MailJob) → Keeps I (Service.mail_now env r)
  Keeps-mail_now (inl text) = Keeps-raise I _
  Keeps-mail_now (inr j) =
      Keeps-if I env.has_mailer _ _
        (Keeps-bind I _ _ (Effects.Keeps-send env I Own s _) λ _. Keeps-pure I _) (Keeps-raise I _)

  Keeps-send_email :
      (to subject body user_id id : String) (vars : List (String × String)) (category : String)
      → Keeps I (Service.send_email env to subject body user_id id vars category)
  unfolding Service.send_email
  Keeps-send_email to subject body user_id id vars category =
      Keeps-bind I _ _ (Keeps-fail_if I _ _) λ _.
        Keeps-bind I _ _ (record { at = λ w h. h })
          λ job_id.
            Keeps-bind I _ _ (Effects.Keeps-template_for_job env I Own s _) λ t. Keeps-mail_now _

  Keeps-send_each :
      (subject body id : String) (vars : List (String × String)) (category : String)
      (to : List String) (counts : ℕ × ℕ)
      → Keeps I (Service.send_each env subject body id vars category to counts)
  unfolding Service.send_each
  Keeps-send_each subject body id vars category [] counts = Keeps-pure I counts
  Keeps-send_each subject body id vars category (t ∷ to) counts =
      Keeps-bind I _ _
        (Effects.Keeps-outcome env I Own s _ (Keeps-send_email t subject body "" id vars category))
        λ r. Keeps-send_each subject body id vars category to (Service.tally env r counts)

  Keeps-bulk :
      (to : List String) (subject body id : String) (vars : List (String × String))
      (category : String)
      → Keeps I (Service.send_bulk_email env to subject body id vars category)
  unfolding Service.send_bulk_email
  Keeps-bulk to subject body id vars category =
      Keeps-bind I _ _ (Keeps-fail_if I _ _)
        λ _. Keeps-send_each subject body id vars category to (0, 0)

  Keeps-list :
      (page size : ℤ) (status category : String)
      → Keeps I (Repository.list_jobs env page size status category)
  unfolding Repository.list_jobs
  Keeps-list page size status category =
      Keeps-bind I _ _ (Keeps-query I pg _)
        λ total. Keeps-bind I _ _ (Keeps-query I pg _) λ rows. Keeps-pure I _

  upserted-keeps :
      (t : MailTemplate) (now : ℕ) (old : Option MailTemplate) (d : MailDb)
      → I d
      → I (upserted t now old d).1
  upserted-keeps t now none d h = s.templates _ d h
  upserted-keeps t now (some old) d h = s.templates _ d h

  Keeps-upsert : (t : MailTemplate) → Keeps I (Repository.upsert_template env t)
  unfolding Repository.upsert_template
  Keeps-upsert t =
      Keeps-bind I _ _ (Keeps-fail_if I _ _)
        λ _. Keeps-statement I pg _ λ n d h. upserted-keeps t (pg.now n) _ d h

  Keeps-seed : (ts : List MailTemplate) → Keeps I (Repository.seed_default_templates env ts)
  unfolding Repository.seed_default_templates
  Keeps-seed [] = Keeps-pure I tt
  Keeps-seed (t ∷ ts) = Keeps-bind I _ _ (Keeps-upsert t) λ _. Keeps-seed ts

  respond-keeps : (r : Request) (w : MailWorld) → I w.db → I (respond env r w).db
  unfolding Service.consume Service.get_job Service.list_jobs Service.get_template
      Service.list_templates Service.update_template Service.seed_templates Service.get_stats
      Repository.get_job_by_id Repository.list_templates
  respond-keeps (queued m) =
      (Keeps-bind I _ _ (Keeps-handle (Service.job_of env m)) λ _. Keeps-pure I tt).at
  respond-keeps (payload p) = (Keeps-payload p).at
  respond-keeps (submit j) = (Keeps-submit j).at
  respond-keeps (send_email to subject body user_id id vars category) =
      (Keeps-send_email to subject body user_id id vars category).at
  respond-keeps (send_bulk_email to subject body id vars category) =
      (Keeps-bulk to subject body id vars category).at
  respond-keeps (get_job id) = (Keeps-query I pg _).at
  respond-keeps (list_jobs page size status category) = (Keeps-list page size status category).at
  respond-keeps (get_template id) =
      (Keeps-bind I _ _
        (Effects.Keeps-outcome env I Own s _ (Effects.Keeps-get_template env I Own s id))
        λ r. record { at = λ w h. h }).at
  respond-keeps list_templates = (Keeps-bind I _ _ (Keeps-query I pg _) λ items. Keeps-pure I _).at
  respond-keeps (update_template t) = (Keeps-upsert t).at
  respond-keeps seed_templates = (Keeps-seed default_templates).at
  respond-keeps (get_stats from to) = (Keeps-bind I _ _ (Keeps-list _ _ _ _) λ r. Keeps-pure I _).at

  pub serve_mail-keeps : (rs : List Request) (w : MailWorld) → I w.db → I (serve_mail env w rs).db
  serve_mail-keeps [] w h = h
  serve_mail-keeps (r ∷ rs) w h = serve_mail-keeps rs (respond env r w) (respond-keeps r w h)
