-- ===== src/Mail/Kept.antt =====
-- What becomes of a job that is stored.
use docflow_web.Base.{
  ℕ, String, ◌≡◌, ◌≢◌, sym, ap, ◌∙◌, false, ◌==◌, none, some, List, eq_iff, inl, inr, Bool-cases,
}
use docflow_web.Base.Text.{trim_space, trim_space_idempotent}
use docflow_web.Base.Table.{find, find-cons, find_key, find-update_miss, is_key}
use docflow_web.Mail.Domain.{MailJob}
use docflow_web.Mail.Repository.{MailEnv, MailDb, MailWorld, job_key}
use docflow_web.Mail.Requests.{Stable, Request, serve_mail}
use docflow_web.Mail.Serving.{serve_mail-keeps}

differ : (s t : String) → s ≢ t → (s == t) ≡ false
differ s t h = elim (Bool-cases (s == t)) [ inl e ↦ absurd (h ((eq_iff s t).0 e)) | inr e ↦ e ]

module _ (env : MailEnv) where
  open env use {pg}

  -- PostgreSQL writes a uuid without spaces around it.
  abbrev pub IsTrimmed : Type 0
  IsTrimmed = (n : ℕ) → trim_space (pg.new_id n) ≡ pg.new_id n

  module _ (trimmed : IsTrimmed) (id : String) (row : MailJob) where
    abbrev pub Stays : MailDb → Type 0
    Stays d = find job_key id d.jobs ≡ some row

    abbrev pub Other : String → Type 0
    Other k = trim_space k ≢ id

    apart : (j : MailJob) (d : MailDb) → find job_key j.id d.jobs ≡ none → Stays d → j.id ≢ id
    apart j d gone here e =
        let both : none ≡ some row = sym gone ∙ ap (λ k. find job_key k d.jobs) e ∙ here in cc both

    pub Stays-Stable : Stable env Stays Other
    Stays-Stable = record {
      marks = λ now ttl key d h. h;
      counters = λ c d h. h;
      templates = λ t d h. h;
      rows = λ n j d e gone h. (
        find-cons job_key id j d.jobs ∙ rw (differ j.id id (apart j d gone h)) h,
        λ t. apart j d gone h (e ∙ sym (trimmed n) ∙ ap trim_space (sym e) ∙ t),
      );
      changes = λ k f d same other h.
          find-update_miss job_key (is_key job_key (trim_space k)) f (λ r. (same r).0) id d.jobs h
            (differ row.id (trim_space k) λ t. other (sym t ∙ find_key job_key id d.jobs h));
      own = λ k other t. other (sym (trim_space_idempotent k) ∙ t);
    }

    -- Once a job is stored, it stays as it is, whatever is asked of the service, whatever messages
    -- the queue delivers and whichever calls fail: its status, its attempts and its times are those
    -- that the request left which stored it. The ids that the database draws have no spaces around
    -- them.
    pub serve_mail-kept :
        (rs : List Request) (w : MailWorld)
        → find job_key id w.db.jobs ≡ some row
        → find job_key id (serve_mail env w rs).db.jobs ≡ some row
    serve_mail-kept rs w h = serve_mail-keeps env Stays Other Stays-Stable rs w h
