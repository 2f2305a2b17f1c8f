-- ===== src/Mail/Repository.antt =====
-- services/mail-service/internal/repository/mail_repository.go and internal/cache/keys.go, over the
-- tables of migrations/0001_init.sql and a Redis database. The calls of PostgreSQL, Redis and the
-- mail server are numbered together, and each may fail.
use docflow_web.Base.{
  ℕ, String, ◌+◌, Bool, true, false, ◌&&◌, ◌||◌, not, ◌==◌, Option, none, some, List, [], ◌∷◌, ◌⊎◌,
  if◌then◌else◌, nat_eq, length, elem,
}
use docflow_web.Base.Text.{trim_space}
use docflow_web.Base.Unicode.{Unicode}
use docflow_web.Base.Paging.{ℤ, pos, is_nonpositive, normalize, window}
use docflow_web.Base.Exec.{
  Exec, Result, ok, err, sentinel, external, pure, fail_if, ignore, ◌>>=◌, ◌>>◌,
}
use docflow_web.Base.Postgres.{Postgres, World, statement}
use docflow_web.Base.Table.{select, update_where, find, is_key, count_where}
use docflow_web.Base.Redis.{Cache, is_live, get, set}
use docflow_web.Mail.Smtp.{Conversation}
use docflow_web.Mail.Domain.{
  MailError, not_found, invalid_input, MailJob, MailTemplate, SmtpMessage, statuses, status_queued,
  category_system, ◌<>◌,
}

-- A counter of the statistics: a text of digits in Redis.
pub record Counter : Type 0 where
  pub count : ℕ
  pub expires : Option ℕ

-- The keys of the marks begin with `mail:dedup:` and those of the counters with `mail:stats:`, so
-- that the two are kept apart here.
pub record MailDb : Type 0 where
  pub jobs : List MailJob
  pub templates : List MailTemplate
  pub marks : Cache
  pub counters : List (String × Counter)

-- A call of Send: the mail, the error that Send returned, and what the server answered to the text,
-- if it came so far. Nothing of the program reads the last.
pub record Dispatch : Type 0 where
  pub message : SmtpMessage
  pub refusal : Option String
  pub answer : Option String

abbrev pub MailWorld : Type 0
MailWorld = World MailDb (List Dispatch)

abbrev pub App : Type 0 → Type 0
App A = Exec MailError MailWorld A

-- What the service is built from. `clock` is `time.Now()` after so many calls of the servers and
-- `uuid` the text of `uuid.NewString()`; `hour` formats a time as "2006010215" in UTC; `uuid_text`
-- is how PostgreSQL reads a text as a uuid and writes it again; `smtp` is how each call of the
-- mail server goes, with the configured STARTTLS and user name; `render` is html/template on a text and a map; the two orders are ORDER BY.
pub record MailEnv : Type 0 where
  pub pg : Postgres
  pub has_cache : Bool
  pub has_mailer : Bool
  pub clock : ℕ → ℕ
  pub uuid : ℕ → String
  pub hour : ℕ → String
  pub uuid_text : String → Option String
  pub smtp : ℕ → Conversation
  pub use_starttls : Bool
  pub username : String
  pub render : String → List (String × String) → String ⊎ String
  pub newest_first : List MailJob → List MailJob
  pub by_template_id : List MailTemplate → List MailTemplate
  pub unicode : Unicode
  pub cache_ttl : ℕ
  pub dedup_ttl : ℕ
  pub from : String

abbrev pub job_key : MailJob → String
job_key j = j.id

abbrev pub job_id_of : MailJob → String
job_id_of j = j.job_id

abbrev pub template_key : MailTemplate → String
template_key t = t.template_id

abbrev pub is_none {ℓ} : {A : Type ℓ} → Option A → Bool
is_none none = true
is_none (some _) = false

abbrev pub dedup_key : String → String
dedup_key job_id = "mail:dedup:" <> trim_space job_id

abbrev pub stats_hour_key : String → String
stats_hour_key hour = "mail:stats:hour:" <> trim_space hour

abbrev pub stats_category_hour_key : String → String → String
stats_category_hour_key category hour =
    "mail:stats:category:" <> trim_space category <> ":" <> trim_space hour

abbrev pub stats_status_hour_key : String → String → String
stats_status_hour_key status hour =
    "mail:stats:status:" <> trim_space status <> ":" <> trim_space hour

-- `INCR`: a key that is gone begins at 0, without an expiry.
unfoldable pub incr : ℕ → String → List (String × Counter) → List (String × Counter)
incr now k [] = (k, record { count = 1; expires = none }) ∷ []
incr now k ((j, c) ∷ m) =
    let rest = incr now k m in
    if j == k
    then (
      j,
      if is_live now c.expires
          then record c { count = c.count + 1 }
          else record { count = 1; expires = none },
    )
      ∷ m
    else (j, c) ∷ rest

-- `EXPIRE`: a duration that is not positive removes the key.
unfoldable pub expire : ℕ → ℕ → String → List (String × Counter) → List (String × Counter)
expire now ttl k [] = []
expire now ttl k ((j, c) ∷ m) =
    let rest = expire now ttl k m in
    if j == k
    then (if nat_eq ttl 0 then m else (j, record c { expires = some (now + ttl) }) ∷ m)
    else (j, c) ∷ rest

-- `SET key 1 NX`
abbrev pub set_nx : ℕ → ℕ → String → Cache → Bool × Cache
set_nx now ttl k m = if is_none (get now k m) then (true, set now ttl k "1" m) else (false, m)

abbrev pub or_text : String → String → String
or_text default s = if s == "" then default else s

abbrev pub found : {R : Type 0} → Option R → Result MailError R
found none = err (sentinel not_found)
found (some r) = ok r

-- What the columns make of a new row: `NULLIF(text, '')::uuid`
abbrev pub read_uuid : (String → Option String) → String → Option String
read_uuid uuid_text s = if s == "" then some "" else uuid_text s

-- The constraints of `mail_jobs`
abbrev pub insert_row : MailJob → MailDb → Result MailError MailJob × MailDb
insert_row row d =
    if not (elem row.status statuses)
    then (err (external "new row violates check constraint"), d)
    else if is_none (find job_key row.id d.jobs) && is_none (find job_id_of row.job_id d.jobs)
    then (ok row, record d { jobs = row ∷ d.jobs })
    else (err (external "duplicate key value violates unique constraint"), d)

abbrev pub insert_read :
    Option String → Option String → MailJob → MailDb → Result MailError MailJob × MailDb
insert_read (some notification_id) (some user_id) row d =
    insert_row (record row { notification_id = notification_id; user_id = user_id }) d
insert_read _ none row d = (err (external "invalid input syntax for type uuid"), d)
insert_read none (some _) row d = (err (external "invalid input syntax for type uuid"), d)

abbrev pub or_time : Option ℕ → Option ℕ → Option ℕ
or_time none old = old
or_time (some t) old = some t

abbrev pub with_status :
    String → String → ℤ → Option ℕ → Option ℕ → Option ℕ → ℕ → MailJob → MailJob
with_status status last_error attempts processed_at sent_at failed_at now j = record j {
  status = status;
  last_error = last_error;
  attempts = attempts;
  processed_at = or_time processed_at j.processed_at;
  sent_at = or_time sent_at j.sent_at;
  failed_at = or_time failed_at j.failed_at;
  updated_at = now;
}

-- ON CONFLICT (template_id) DO UPDATE
abbrev pub with_template : MailTemplate → ℕ → MailTemplate → MailTemplate
with_template t now old = record t { created_at = old.created_at; updated_at = some now }

abbrev pub upserted :
    MailTemplate → ℕ → Option MailTemplate → MailDb → Result MailError MailTemplate × MailDb
upserted t now none d =
    let row = record t { created_at = some now; updated_at = some now } in
    (ok row, record d { templates = row ∷ d.templates })
upserted t now (some old) d = (
  ok (with_template t now old),
  record d {
    templates = update_where (is_key template_key t.template_id) (with_template t now) d.templates;
  },
)

-- The conditions of ListJobs: an empty text asks for none.
abbrev pub matches : String → String → Bool
matches wanted s = trim_space wanted == "" || s == trim_space wanted

abbrev pub job_where : String → String → MailJob → Bool
job_where status category j = matches status j.status && matches category j.category

module _ (env : MailEnv) where
  open env use {pg, has_cache, uuid}

  abbrev pub new_uuid : App String
  new_uuid w = (ok (uuid w.calls), w)

  abbrev pub or_new_uuid : String → App String
  or_new_uuid s = if s == "" then new_uuid else pure s

  abbrev pub new_job : ℕ → String → MailJob → MailJob
  new_job n job_id j = record j {
    id = pg.new_id n;
    job_id = job_id;
    category = or_text category_system j.category;
    status = or_text status_queued j.status;
    max_attempts = if is_nonpositive j.max_attempts then pos 3 else j.max_attempts;
    queued_at = pg.now n;
    processed_at = none;
    sent_at = none;
    failed_at = none;
    created_at = pg.now n;
    updated_at = pg.now n;
  }

  unfoldable pub create_job : MailJob → App MailJob
  create_job j = do
    job_id ← or_new_uuid j.job_id
    fail_if (nat_eq (length j.recipient) 0) invalid_input
    statement pg λ n d.
        insert_read (read_uuid env.uuid_text j.notification_id) (read_uuid env.uuid_text j.user_id)
          (new_job n job_id j) d

  unfoldable pub get_job_by_id : String → App MailJob
  get_job_by_id id = statement pg λ n d. (found (find job_key (trim_space id) d.jobs), d)

  unfoldable pub get_job_by_job_id : String → App MailJob
  get_job_by_job_id job_id =
      statement pg λ n d. (found (find job_id_of (trim_space job_id) d.jobs), d)

  unfoldable pub list_jobs : ℤ → ℤ → String → String → App (List MailJob × ℕ)
  list_jobs page page_size status category = do
    total ← statement pg λ n d. (ok (count_where (job_where status category) d.jobs), d)
    rows ← statement pg λ n d. (
      ok (
          window (normalize page page_size)
            (env.newest_first (select (job_where status category) d.jobs))),
      d,
    )
    pure (rows, total)

  abbrev pub update_job : String → (ℕ → MailJob → MailJob) → App MailJob
  update_job id f = statement pg λ n d.
      let jobs = update_where (is_key job_key (trim_space id)) (f n) d.jobs in
      (found (find job_key (trim_space id) jobs), record d { jobs = jobs })

  unfoldable pub update_job_status :
      String → String → String → ℤ → Option ℕ → Option ℕ → Option ℕ → App MailJob
  update_job_status id status last_error attempts processed_at sent_at failed_at =
      update_job id
        λ n. with_status status last_error attempts processed_at sent_at failed_at (pg.now n)

  unfoldable pub get_template : String → App MailTemplate
  get_template template_id =
      statement pg λ n d. (found (find template_key (trim_space template_id) d.templates), d)

  unfoldable pub list_templates : App (List MailTemplate)
  list_templates = statement pg λ n d. (ok (env.by_template_id d.templates), d)

  unfoldable pub upsert_template : MailTemplate → App MailTemplate
  upsert_template t = do
    fail_if (trim_space t.template_id == "") invalid_input
    statement pg λ n d. upserted t (pg.now n) (find template_key t.template_id d.templates) d

  unfoldable pub seed_default_templates : List MailTemplate → App (Unit {0})
  seed_default_templates [] = pure tt
  seed_default_templates (t ∷ ts) = do _ ← upsert_template t; seed_default_templates ts

  -- `MarkDedup`
  unfoldable pub mark_dedup : String → ℕ → App Bool
  mark_dedup job_id ttl =
      if has_cache
      then statement pg (λ n d.
        let (fresh, marks) =
          set_nx (pg.now n) (if nat_eq ttl 0 then env.dedup_ttl else ttl) (dedup_key job_id)
            d.marks in
        (ok fresh, record d { marks = marks }))
      else pure true

  -- One counter: the error of INCR is returned, that of EXPIRE is not.
  abbrev pub count_key : String → App (Unit {0})
  count_key key = do
    statement pg λ n d. (ok tt, record d { counters = incr (pg.now n) key d.counters })
    ignore {A = Unit {0}} (
        statement pg
          λ n d. (ok tt, record d { counters = expire (pg.now n) env.cache_ttl key d.counters }))

  abbrev pub count_keys : String → String → String → App (Unit {0})
  count_keys category status hour = do
    count_key (stats_hour_key hour)
    count_key (stats_category_hour_key category hour)
    count_key (stats_status_hour_key status hour)

  unfoldable pub track_bucket : String → String → ℕ → App (Unit {0})
  track_bucket category status at =
      if has_cache then count_keys category status (env.hour at) else pure tt
