-- ===== src/Mail/Tests.antt =====
-- A small mail service, and runs of the theorems on it.
use docflow_web.Base.{ℕ, String, List, ◌≡◌, ◌≢◌, refl, true, none, some, [], ◌∷◌, inr, length}
use docflow_web.Base.Text.{trim_space}
use docflow_web.Base.Unicode.{Unicode}
use docflow_web.Base.Exec.{program, ok}
use docflow_web.Base.Paging.{pos}
use docflow_web.Base.Postgres.{Postgres, statement}
use docflow_web.Base.Redis.{get, set, del}
use docflow_web.Base.Table.{find, update_where}
use docflow_web.Mail.Domain.{MailJob, SmtpMessage, status_queued, template_with_id}
use docflow_web.Mail.Smtp.{Conversation, rcpt_error, send_error}
use docflow_web.Mail.Repository
use docflow_web.Mail.Repository.{MailEnv, MailWorld, job_key}
use docflow_web.Mail.Templates
use docflow_web.Mail.Service
use docflow_web.Mail.Service.{EmailJob, job_of}
use docflow_web.Mail.Requests.{queued, submit, serve_mail}
use docflow_web.Mail.Kept.{serve_mail-kept}
use docflow_web.Mail.Bulk.{accepted, IsTallied, send_bulk_email-IsTallied}
use docflow_web.Mail.Sent.{Ended, handle_queued_job-Ended}
use docflow_web.Mail.Success.{IsUp, IsNew, handle_queued_job-delivers}
use docflow_web.Mail.Once.{handle_queued_job-once}

abbrev server : Postgres
server = record { fault = λ _. none; now = λ n. 100; new_id = λ _. "n" }

abbrev ascii : Unicode
ascii = record {
  lower = λ c. c;
  is_upper = λ _. true;
  is_lower = λ _. true;
  is_digit = λ _. true;
  is_punct = λ _. true;
  is_symbol = λ _. true;
}

-- Every step of the conversation succeeds.
abbrev served : Conversation
served = record {
  connect = none;
  greeting = none;
  offers_tls = true;
  start_tls = none;
  auth = none;
  mail = none;
  rcpt = λ to. none;
  begin_data = none;
  write = none;
  answer = none;
}

abbrev env : MailEnv
env = record {
  pg = server;
  has_cache = true;
  has_mailer = true;
  clock = λ _. 100;
  uuid = λ _. "u";
  hour = λ _. "2026010203";
  uuid_text = λ s. some s;
  smtp = λ _. served;
  use_starttls = true;
  username = "docflow";
  render = λ t m. inr t;
  newest_first = λ l. l;
  by_template_id = λ l. l;
  unicode = ascii;
  cache_ttl = 300;
  dedup_ttl = 1000;
  from = "docflow@x";
}

abbrev message : EmailJob
message = record {
  job_id = "j";
  notification_id = "";
  user_id = "";
  recipient = "ann@x" ∷ [];
  template_id = "";
  subject = "hello";
  body = "text";
  variables = [];
  category = "mention";
  created_at = 1;
}

abbrev empty : MailWorld
empty = record {
  calls = 0;
  db = record { jobs = []; templates = []; marks = []; counters = [] };
  out = [];
}

abbrev stored : MailJob
stored = record (job_of env message) { id = "s"; job_id = "k"; status = status_queued }

abbrev holding : MailWorld
holding = record empty {
  db = record { jobs = stored ∷ []; templates = []; marks = []; counters = [] };
}

length-dispatches : length (Service.handle_queued_job env (job_of env message) empty).1.out ≡ 1
unfolding program statement Service.handle_queued_job Service.process Service.or_panic
    Service.outcome Service.send Service.dispatch Service.template_for_job Service.fill_queued
    Repository.mark_dedup Repository.create_job Repository.update_job_status Repository.track_bucket
    Repository.incr Repository.expire get set del find update_where trim_space template_with_id
    Templates.strip_html send_error
length-dispatches = refl

one_sent : (Service.handle_queued_job env (job_of env message) empty).1.out ≢ empty.out
one_sent e = let none_sent = rw e at length-dispatches in cc none_sent

serve_mail-kept_example :
    find job_key "s" (serve_mail env holding (queued message ∷ submit stored ∷ [])).db.jobs
    ≡ some stored
unfolding find trim_space
serve_mail-kept_example =
    serve_mail-kept env (λ _. refl) "s" stored (queued message ∷ submit stored ∷ []) holding refl

handle_queued_job-once_example :
    (Service.handle_queued_job env (job_of env message) (
      serve_mail env
        (Service.handle_queued_job env (job_of env message) empty).1
        (queued message ∷ []))).1.out
    ≡ (serve_mail env
        (Service.handle_queued_job env (job_of env message) empty).1
        (queued message ∷ [])).out
handle_queued_job-once_example =
    handle_queued_job-once env refl (job_of env message) (job_of env message) (queued message ∷ [])
      empty one_sent refl refl

send_bulk_email-IsTallied_example :
    IsTallied empty 2
      (Service.send_bulk_email env ("ann@x" ∷ " " ∷ []) "hello" "text" "" [] "system" empty)
send_bulk_email-IsTallied_example =
    send_bulk_email-IsTallied env "hello" "text" "" [] "system" "ann@x" (" " ∷ []) empty

abbrev sent_job : MailJob
sent_job = record (job_of env message) {
  id = "n";
  status = "sent";
  attempts = pos 2;
  max_attempts = pos 3;
  queued_at = 100;
  processed_at = some 100;
  sent_at = some 100;
  created_at = 100;
  updated_at = 100;
}

returned_sent : (Service.handle_queued_job env (job_of env message) empty).0 ≡ ok sent_job
unfolding program statement Service.handle_queued_job Service.process Service.or_panic
    Service.outcome Service.send Service.dispatch Service.template_for_job Service.fill_queued
    Repository.mark_dedup Repository.create_job Repository.update_job_status Repository.track_bucket
    Repository.incr Repository.expire get set del find update_where trim_space template_with_id
    Templates.strip_html send_error
returned_sent = refl

handle_queued_job-Ended_example :
    Ended sent_job empty (Service.handle_queued_job env (job_of env message) empty).1
unfolding get trim_space
handle_queued_job-Ended_example =
    handle_queued_job-Ended env (λ _. refl) (job_of env message) sent_job empty refl refl
      returned_sent

rcpt_accepts : (to : List String) → rcpt_error served to ≡ none
rcpt_accepts [] = refl
rcpt_accepts (t ∷ to) = rcpt_accepts to

accepts : (n : ℕ) (m : SmtpMessage) → Service.refusal env n m ≡ none
unfolding send_error
accepts n m = rw (rcpt_accepts m.to) refl

is_up : IsUp env
unfolding trim_space
is_up = record {
  up = λ n. refl;
  accepts = accepts;
  answers = λ n. refl;
  renders = λ t vars. (t, refl);
  cached = refl;
  mailer = refl;
  named = refl;
  trimmed = λ n. refl;
}

is_new : IsNew env message empty
unfolding get find
is_new = record {
  many = refl;
  marked_by = refl;
  notification = "";
  notification_read = refl;
  user = "";
  user_read = refl;
  free = refl;
  new_id = refl;
  new_job_id = refl;
}

handle_queued_job-delivers_example :
    (row : MailJob) × ((Service.handle_queued_job env (job_of env message) empty).0 ≡ ok row)
    × Ended row empty (Service.handle_queued_job env (job_of env message) empty).1
    × (accepted (Service.handle_queued_job env (job_of env message) empty).1.out ≡ 1)
handle_queued_job-delivers_example = handle_queued_job-delivers env is_up message empty is_new
