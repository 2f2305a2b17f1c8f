-- ===== src/Mail/Success.antt =====
-- A message of the queue where no server fails: it is sent.
use Prim.Native.Nat.{suc}
use docflow_web.Base.{
  ℕ, String, ◌+◌, ◌≡◌, refl, ap, ◌∙◌, true, false, ◌==◌, none, some, List, ◌∷◌, inr, eq_iff, nat_eq,
  length,
}
use docflow_web.Base.Exec.{ok, pure, bind_runs, passes}
use docflow_web.Base.Redis.{get}
use docflow_web.Base.Statements.{statement_runs}
use docflow_web.Base.Table.{find, find-cons}
use docflow_web.Mail.Domain.{MailJob, SmtpMessage, invalid_input}
use docflow_web.Mail.Repository
use docflow_web.Mail.Repository.{
  MailEnv, MailDb, MailWorld, App, job_key, job_id_of, new_job, read_uuid, is_none, dedup_key,
}
use docflow_web.Mail.Service
use docflow_web.Mail.Service.{EmailJob, job_of}
use docflow_web.Mail.Kept.{IsTrimmed}
use docflow_web.Mail.Once.{marked, mark_new}
use docflow_web.Mail.Bulk.{accepted, Answers}
use docflow_web.Mail.Sent.{Ended, handle_queued_job-Ended, handle_queued_job-accepted}
use docflow_web.Mail.Delivery.{Present, Known, Returns-processing}

-- The service is set up and no server fails; a template can always be rendered.
pub record IsUp (env : MailEnv) : Type 0 where
  pub up : (n : ℕ) → env.pg.fault n ≡ none
  pub accepts : (n : ℕ) (m : SmtpMessage) → Service.refusal env n m ≡ none
  pub answers : Answers env
  pub renders :
      (t : String) (vars : List (String × String))
      → (text : String) × (env.render t vars ≡ inr text)
  pub cached : env.has_cache ≡ true
  pub mailer : env.has_mailer ≡ true
  pub named : (env.from == "") ≡ false
  pub trimmed : IsTrimmed env

-- The message is complete, and neither its mark nor its job id nor the next id is there.
pub record IsNew (env : MailEnv) (m : EmailJob) (w : MailWorld) : Type 0 where
  pub many : nat_eq (length m.recipient) 0 ≡ false
  pub marked_by : (m.job_id == "") ≡ false
  pub notification : String
  pub notification_read : read_uuid env.uuid_text m.notification_id ≡ some notification
  pub user : String
  pub user_read : read_uuid env.uuid_text m.user_id ≡ some user
  pub free : is_none (get (env.pg.now w.calls) (dedup_key m.job_id) w.db.marks) ≡ true
  pub new_id : find job_key (env.pg.new_id (suc w.calls)) w.db.jobs ≡ none
  pub new_job_id : find job_id_of m.job_id w.db.jobs ≡ none

module _ (env : MailEnv) (s : IsUp env) (m : EmailJob) where
  open env use {pg}

  abbrev stored_row : String → String → ℕ → MailJob
  stored_row notification user n = record (new_job env n m.job_id (job_of env m)) {
    notification_id = notification;
    user_id = user;
  }

  abbrev with_row : MailJob → MailWorld → MailWorld
  with_row row w = record w { calls = suc w.calls; db = record (w.db) { jobs = row ∷ w.db.jobs } }

  job_id_runs :
      (w : MailWorld)
      → (m.job_id == "") ≡ false
      → Repository.or_new_uuid env m.job_id w ≡ (ok m.job_id, w)
  unfolding pure
  job_id_runs w given = rw given refl

  create_runs :
      (w : MailWorld) (notification user : String)
      → nat_eq (length m.recipient) 0 ≡ false
      → (m.job_id == "") ≡ false
      → read_uuid env.uuid_text m.notification_id ≡ some notification
      → read_uuid env.uuid_text m.user_id ≡ some user
      → find job_key (pg.new_id w.calls) w.db.jobs ≡ none
      → find job_id_of m.job_id w.db.jobs ≡ none
      → Repository.create_job env (job_of env m) w ≡ (
        ok (stored_row notification user w.calls),
        with_row (stored_row notification user w.calls) w,
      )
  unfolding Repository.create_job
  create_runs w notification user many given a b new other =
      bind_runs _ _ w w (job_id_runs w given)
      ∙ passes _ invalid_input _ w many
      ∙ statement_runs pg _ w (s.up w.calls)
      ∙ rw (a, b) (rw new (rw other refl))

  process-returns :
      (w : MailWorld) (notification user : String)
      → nat_eq (length m.recipient) 0 ≡ false
      → (m.job_id == "") ≡ false
      → read_uuid env.uuid_text m.notification_id ≡ some notification
      → read_uuid env.uuid_text m.user_id ≡ some user
      → find job_key (pg.new_id w.calls) w.db.jobs ≡ none
      → find job_id_of m.job_id w.db.jobs ≡ none
      → (row : MailJob) × ((Service.process env (job_of env m) w).0 ≡ ok row)
  unfolding Service.process
  process-returns w notification user many given a b new other =
      let job = stored_row notification user w.calls in
      let id = pg.new_id w.calls in
      let begun =
        bind_runs _ (Service.processing env) w _
          (create_runs w notification user many given a b new other) in
      let here : Present id (with_row job w).db = record {
        row = job;
        here = find-cons job_key id job w.db.jobs ∙ rw ((eq_iff id id).1 refl) refl;
        many = many;
      } in
      let known : Known id job = record { named = refl; many = many } in
      let (row, e, _, _) =
        (Returns-processing env s.up s.accepts s.named s.mailer s.renders id job (s.trimmed w.calls)
            known).at
          (with_row job w) here in
      (row, ap (λ r. r.0) begun ∙ e)

  handle-returns :
      (w : MailWorld)
      → IsNew env m w
      → (row : MailJob) × ((Service.handle_queued_job env (job_of env m) w).0 ≡ ok row)
  unfolding Service.handle_queued_job
  handle-returns w n =
      let j = job_of env m in
      let (row, e) =
        process-returns (marked env j w) n.notification n.user n.many n.marked_by
          n.notification_read n.user_read n.new_id n.new_job_id in
      let run =
        passes _ invalid_input _ w n.many
        ∙ passes _ invalid_input _ w n.marked_by
        ∙ bind_runs _ (Service.process_once env j) w _
            (mark_new env s.cached j w (s.up w.calls) n.free) in
      (row, ap (λ r. r.0) run ∙ e)

  -- Where no server fails and every template can be rendered, a complete message that is new is
  -- sent: the handler returns a job, which says "sent" and is stored so, and the mail server has
  -- accepted one message. The service has a cache, a mailer and an address to send from.
  pub handle_queued_job-delivers :
      (w : MailWorld)
      → IsNew env m w
      → (row : MailJob) × ((Service.handle_queued_job env (job_of env m) w).0 ≡ ok row)
        × Ended row w (Service.handle_queued_job env (job_of env m) w).1
        × (accepted (Service.handle_queued_job env (job_of env m) w).1.out ≡ 1 + accepted w.out)
  handle_queued_job-delivers w n =
      let (row, e) = handle-returns w n in
      (
        row,
        e,
        handle_queued_job-Ended env s.trimmed (job_of env m) row w s.cached n.free e,
        handle_queued_job-accepted env s.trimmed (job_of env m) row w s.answers s.cached n.free e,
      )
