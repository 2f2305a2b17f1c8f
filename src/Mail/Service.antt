-- ===== src/Mail/Service.antt =====
-- services/mail-service/internal/service/auth_service.go, the consumer of internal/worker, and the
-- Send of internal/sender/smtp.go. Log lines and metrics are left out, but for the nil pointer
-- that a log line reads where the job could not be updated.
use docflow_web.Base.{
  ℕ, String, ◌+◌, Bool, ◌||◌, ◌==◌, Option, none, some, List, [], ◌∷◌, ◌⊎◌, inl, inr, if◌then◌else◌,
  nat_eq, ltb, length,
}
use docflow_web.Base.Text.{trim_space}
use docflow_web.Base.Paging.{ℤ, pos}
use docflow_web.Base.Exec.{
  Result, ok, err, GoError, sentinel, external, wrapped, pure, raise, fail_if, ignore, ◌>>=◌, ◌>>◌,
}
use docflow_web.Mail.Domain.{
  MailError, not_found, invalid_input, nil_dereference, MailJob, MailTemplate, SmtpMessage,
  status_queued, status_processing, status_sent, status_failed, category_system, next_attempt,
  normalize_category, default_templates, default_template_by_id, mail_template_for_category,
}
use docflow_web.Mail.Smtp.{send_error}
use docflow_web.Mail.Repository
use docflow_web.Mail.Repository.{MailEnv, MailWorld, App, or_text}
use docflow_web.Mail.Templates.{merged_vars, strip_html}

pub record MailStats : Type 0 where
  pub total : ℕ
  pub queued : ℕ
  pub processing : ℕ
  pub sent : ℕ
  pub failed : ℕ
  pub by_category : List (String × ℕ)
  pub by_hour : List (String × ℕ)

-- The message of pkg/messaging/emailjob.go
pub record EmailJob : Type 0 where
  pub job_id : String
  pub notification_id : String
  pub user_id : String
  pub recipient : List String
  pub template_id : String
  pub subject : String
  pub body : String
  pub variables : List (String × String)
  pub category : String
  pub created_at : ℕ

-- `err.Error()`
abbrev pub error_text : GoError MailError → String
error_text (sentinel not_found) = "mail job not found"
error_text (sentinel invalid_input) = "invalid input"
error_text (sentinel nil_dereference) = "invalid memory address or nil pointer dereference"
error_text (external text) = text
error_text (wrapped text e) = text

-- The error is kept as a value.
unfoldable pub outcome : {A : Type 0} → App A → App (Result MailError A)
outcome m w = (ok (m w).0, (m w).1)

abbrev pub panic_at_error : {A : Type 0} → Result MailError A → Result MailError A
panic_at_error (ok a) = ok a
panic_at_error (err e) = err (sentinel nil_dereference)

-- The result is read though the call failed: it is a nil pointer then.
unfoldable pub or_panic : {A : Type 0} → App A → App A
or_panic m w = (panic_at_error (m w).0, (m w).1)

abbrev pub lift : {A : Type 0} → Result MailError A → App A
lift r w = (r, w)

-- `template.IsActive`, with what stands behind the test.
abbrev pub with_body : MailJob → String ⊎ String → String ⊎ MailJob
with_body j (inl text) = inl text
with_body j (inr body) = inr (record j { body = body })

abbrev pub rendered : MailEnv → MailTemplate → MailJob → String ⊎ MailJob
rendered env t j =
    if j.body == "" then with_body j (env.render t.body_template (merged_vars j)) else inr j

abbrev pub with_subject : MailTemplate → MailJob → MailJob
with_subject t j = record j { subject = or_text t.subject j.subject }

abbrev pub with_template_id : MailTemplate → MailJob → MailJob
with_template_id t j = record j { template_id = or_text t.template_id j.template_id }

-- The template's part of SendEmail, and that of HandleQueuedJob.
unfoldable pub fill : MailEnv → MailTemplate → MailJob → String ⊎ MailJob
fill env t j = if t.is_active then rendered env t (with_subject t j) else inr j

unfoldable pub fill_queued : MailEnv → MailTemplate → MailJob → String ⊎ MailJob
fill_queued env t j =
    if t.is_active then rendered env t (with_subject t (with_template_id t j)) else inr j

-- The default of a template that is not stored.
abbrev pub or_default_template : MailJob → Option MailTemplate → MailTemplate
or_default_template j none = mail_template_for_category j.category
or_default_template j (some t) = t

abbrev pub stored_or_default : MailJob → Result MailError MailTemplate → MailTemplate
stored_or_default j (ok t) = t
stored_or_default j (err e) = or_default_template j (default_template_by_id j.template_id)

abbrev pub or_default_by_id :
    Option MailTemplate → Result MailError MailTemplate → Result MailError MailTemplate
or_default_by_id default (ok t) = ok t
or_default_by_id none (err e) = err e
or_default_by_id (some t) (err e) = ok t

abbrev pub or_default_templates : List MailTemplate → List MailTemplate
or_default_templates [] = default_templates
or_default_templates (t ∷ ts) = t ∷ ts

module _ (env : MailEnv) where
  open env use {has_mailer}

  -- `New`: 24 hours, in nanoseconds, unless a time is given.
  abbrev pub service_dedup_ttl : ℕ
  service_dedup_ttl = if nat_eq env.dedup_ttl 0 then 86400000000000 else env.dedup_ttl

  -- `time.Now()`
  abbrev pub read_clock : App ℕ
  read_clock w = (ok (env.clock w.calls), w)

  abbrev pub dispatched : Option String → Result MailError (Unit {0})
  dispatched none = ok tt
  dispatched (some text) = err (external text)

  abbrev pub refusal : ℕ → SmtpMessage → Option String
  refusal n m = send_error env.use_starttls env.username (env.smtp n) m.to

  -- The conversation with the mail server on one message.
  unfoldable pub dispatch : SmtpMessage → App (Unit {0})
  dispatch m w = (
    dispatched (refusal w.calls m),
    record {
      calls = w.calls + 1;
      db = w.db;
      out =
          record { message = m; refusal = refusal w.calls m; answer = (env.smtp w.calls).answer }
          ∷ w.out;
    },
  )

  -- `SMTPMailer.Send`; both the mailer and the service are given the same sender.
  unfoldable pub send : SmtpMessage → App (Unit {0})
  send m = do
    fail_if (nat_eq (length m.to) 0) invalid_input
    fail_if (m.sender == "") invalid_input
    dispatch m

  abbrev pub message_of : MailJob → SmtpMessage
  message_of j = record {
    sender = env.from;
    to = j.recipient;
    subject = j.subject;
    html = j.body;
    text = strip_html j.body;
  }

  unfoldable pub template_for_job : MailJob → App MailTemplate
  template_for_job j =
      if trim_space j.template_id == ""
      then pure (mail_template_for_category j.category)
      else outcome (Repository.get_template env j.template_id) >>= λ r. pure (stored_or_default j r)

  -- The update to "failed", the counters and the return of the error: the row is read behind the
  -- update, whose error was dropped.
  abbrev pub fail_job : {A : Type 0} → MailJob → GoError MailError → ℕ → App ℕ → App A
  fail_job j e failed_at counted_at = do
    row ← or_panic (
        Repository.update_job_status env j.id status_failed (error_text e) (next_attempt j.attempts)
          none none (some failed_at))
    at ← counted_at
    ignore (Repository.track_bucket env row.category status_failed at)
    raise e

  abbrev pub conclude : MailJob → ℕ → Result MailError (Unit {0}) → App MailJob
  conclude j send_at (err e) = fail_job j e send_at (pure send_at)
  conclude j send_at (ok _) = do
    row ← or_panic (
        Repository.update_job_status env j.id status_sent "" (next_attempt j.attempts)
          (some send_at) (some send_at) none)
    ignore (Repository.track_bucket env row.category status_sent send_at)
    pure row

  abbrev pub fail_now : {A : Type 0} → MailJob → String → App A
  fail_now j text = do at ← read_clock; fail_job j (external text) at read_clock

  abbrev pub send_job : MailJob → App MailJob
  send_job j = do send_at ← read_clock; r ← outcome (send (message_of j)); conclude j send_at r

  abbrev pub deliver : MailJob → String ⊎ MailJob → App MailJob
  deliver row (inl text) = fail_now row text
  deliver row (inr j) = if has_mailer then send_job j else fail_now j "mailer is not configured"

  -- What HandleQueuedJob does with a job that is not marked yet: it is stored, and then sent.
  abbrev pub processing : MailJob → App MailJob
  processing job = do
    ignore (Repository.track_bucket env job.category status_queued job.queued_at)
    processing_at ← read_clock
    row ← or_panic (
        Repository.update_job_status env job.id status_processing "" (next_attempt job.attempts)
          (some processing_at) none none)
    t ← template_for_job row
    deliver row (fill_queued env t row)

  unfoldable pub process : MailJob → App MailJob
  process incoming = do job ← Repository.create_job env incoming; processing job

  abbrev pub process_once : MailJob → Bool → App MailJob
  process_once incoming fresh =
      if fresh then process incoming else Repository.get_job_by_job_id env incoming.job_id

  unfoldable pub handle_queued_job : MailJob → App MailJob
  handle_queued_job incoming = do
    fail_if (nat_eq (length incoming.recipient) 0) invalid_input
    fail_if (incoming.job_id == "") invalid_input
    fresh ← Repository.mark_dedup env incoming.job_id service_dedup_ttl
    process_once incoming fresh

  -- `HandleQueuedPayload`, behind `json.Unmarshal`
  unfoldable pub handle_queued_payload : String ⊎ MailJob → App MailJob
  handle_queued_payload (inl text) = raise (external text)
  handle_queued_payload (inr incoming) = do
    fail_if (incoming.job_id == "") invalid_input
    handle_queued_job (record incoming { category = or_text category_system incoming.category })

  abbrev pub job_of : EmailJob → MailJob
  job_of m = record {
    id = "";
    job_id = m.job_id;
    notification_id = m.notification_id;
    user_id = m.user_id;
    recipient = m.recipient;
    template_id = m.template_id;
    subject = m.subject;
    body = m.body;
    variables = m.variables;
    category = m.category;
    status = "";
    attempts = pos 0;
    max_attempts = pos 0;
    last_error = "";
    queued_at = 0;
    processed_at = none;
    sent_at = none;
    failed_at = none;
    created_at = m.created_at;
    updated_at = 0;
  }

  -- The consumer's callback, behind `json.Unmarshal`: it only logs what comes back.
  unfoldable pub consume : EmailJob → App (Unit {0})
  consume m = handle_queued_job (job_of m) >>= λ _. pure tt

  unfoldable pub submit : MailJob → App MailJob
  submit j = do
    fail_if (nat_eq (length j.recipient) 0) invalid_input
    job_id ← Repository.or_new_uuid env j.job_id
    Repository.create_job env (record j {
      job_id = job_id;
      category = or_text category_system j.category;
      status = or_text status_queued j.status;
    })

  abbrev pub mail_now : String ⊎ MailJob → App String
  mail_now (inl text) = raise (external text)
  mail_now (inr j) =
      if has_mailer
      then (send (message_of j) >>= λ _. pure j.job_id)
      else raise (external "mailer is not configured")

  abbrev pub direct_job :
      String
      → String
      → String
      → String
      → String
      → String
      → List (String × String)
      → String
      → MailJob
  direct_job job_id to subject body user_id template_id vars category = record {
    id = "";
    job_id = job_id;
    notification_id = "";
    user_id = user_id;
    recipient = trim_space to ∷ [];
    template_id = template_id;
    subject = subject;
    body = body;
    variables = vars;
    category = normalize_category env.unicode category;
    status = status_processing;
    attempts = pos 1;
    max_attempts = pos 3;
    last_error = "";
    queued_at = 0;
    processed_at = none;
    sent_at = none;
    failed_at = none;
    created_at = 0;
    updated_at = 0;
  }

  unfoldable pub send_email :
      String → String → String → String → String → List (String × String) → String → App String
  send_email to subject body user_id template_id vars category = do
    fail_if (trim_space to == "") invalid_input
    job_id ← Repository.new_uuid env
    let job = direct_job job_id to subject body user_id template_id vars category
    t ← template_for_job job
    mail_now (fill env t job)

  abbrev pub tally : Result MailError String → ℕ × ℕ → ℕ × ℕ
  tally (ok id) (sent, failed) = (sent + 1, failed)
  tally (err e) (sent, failed) = (sent, failed + 1)

  -- The loop of SendBulkEmail, for fewer than 2 ^ 31 recipients.
  unfoldable pub send_each :
      String → String → String → List (String × String) → String → List String → ℕ × ℕ → App (ℕ × ℕ)
  send_each subject body template_id vars category [] counts = pure counts
  send_each subject body template_id vars category (to ∷ rest) counts = do
    r ← outcome (send_email to subject body "" template_id vars category)
    send_each subject body template_id vars category rest (tally r counts)

  unfoldable pub send_bulk_email :
      List String → String → String → String → List (String × String) → String → App (ℕ × ℕ)
  send_bulk_email to subject body template_id vars category = do
    fail_if (nat_eq (length to) 0) invalid_input
    send_each subject body template_id vars category to (0, 0)

  unfoldable pub get_job : String → App MailJob
  get_job id = Repository.get_job_by_id env id

  unfoldable pub list_jobs : ℤ → ℤ → String → String → App (List MailJob × ℕ)
  list_jobs page page_size status category = Repository.list_jobs env page page_size status category

  unfoldable pub get_template : String → App MailTemplate
  get_template template_id = do
    r ← outcome (Repository.get_template env template_id)
    lift (or_default_by_id (default_template_by_id template_id) r)

  unfoldable pub list_templates : App (List MailTemplate)
  list_templates = do items ← Repository.list_templates env; pure (or_default_templates items)

  unfoldable pub update_template : MailTemplate → App MailTemplate
  update_template t = Repository.upsert_template env t

  unfoldable pub seed_templates : App (Unit {0})
  seed_templates = Repository.seed_default_templates env default_templates

  -- `m[k]++`
  abbrev pub bump : String → List (String × ℕ) → List (String × ℕ)
  bump k [] = (k, 1) ∷ []
  bump k ((j, n) ∷ m) = let rest = bump k m in if j == k then (j, n + 1) ∷ m else (j, n) ∷ rest

  abbrev pub one_if : Bool → ℕ
  one_if b = if b then 1 else 0

  abbrev pub counted : MailJob → MailStats → MailStats
  counted j s = record {
    total = s.total + 1;
    queued = s.queued + one_if (j.status == status_queued);
    processing = s.processing + one_if (j.status == status_processing);
    sent = s.sent + one_if (j.status == status_sent);
    failed =
        s.failed
        + one_if (j.status == status_failed || (j.status == "bounced" || j.status == "cancelled"));
    by_category = bump j.category s.by_category;
    by_hour = bump (env.hour j.created_at) s.by_hour;
  }

  -- The loop of GetStats.
  unfoldable pub count_jobs : ℕ → ℕ → List MailJob → MailStats → MailStats
  count_jobs from to [] s = s
  count_jobs from to (j ∷ js) s =
      count_jobs from to js
        (if ltb j.created_at from || ltb to j.created_at then s else counted j s)

  unfoldable pub get_stats : ℕ → ℕ → App MailStats
  get_stats from to = do
    (items, _) ← Repository.list_jobs env (pos 1) (pos 1000) "" ""
    pure (
        count_jobs from to items (record {
          total = 0;
          queued = 0;
          processing = 0;
          sent = 0;
          failed = 0;
          by_category = [];
          by_hour = [];
        }))
