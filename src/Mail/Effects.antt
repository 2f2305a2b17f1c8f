-- ===== src/Mail/Effects.antt =====
-- What every request does to the tables, for a property that stands the writes of the repository.
use mathlib.Core.Path.{subst}
use docflow_web.Base.{
  sym, ℕ, String, ◌≡◌, refl, true, ◌==◌, Option, none, some, ◌⊎◌, inl, inr, arith, elem, Bool-cases,
  Option-cases,
}
use docflow_web.Base.Paging.{ℤ}
use docflow_web.Base.Text.{trim_space}
use docflow_web.Base.Exec.{Result, ok, err, GoError, external}
use docflow_web.Base.Table.{find, find_key}
use docflow_web.Base.Keeps.{
  Keeps, Gives, Keeps-pure, Keeps-raise, Keeps-ignore, Keeps-if, Keeps-query, Keeps-bind,
  Keeps-fail_if, Keeps-statement, Gives-statement, Keeps-bind_Gives, Gives-bind,
}
use docflow_web.Mail.Domain.{MailError, MailJob, MailTemplate, SmtpMessage, statuses}
use docflow_web.Mail.Repository
use docflow_web.Mail.Repository.{
  MailEnv, MailDb, MailWorld, App, job_key, job_id_of, found, read_uuid, insert_row, insert_read,
  new_job, with_status, is_none,
}
use docflow_web.Mail.Service
use docflow_web.Mail.Service.{EmailJob}
use docflow_web.Mail.Requests.{Stable}

module _ (env : MailEnv) (I : MailDb → Type 0) (Own : String → Type 0) (s : Stable env I Own) where
  open env use {pg}

  abbrev pub OwnJob : MailJob → Type 0
  OwnJob j = Own j.id

  -- What a statement leaves, and what it returns.
  abbrev Fits : Result MailError MailJob × MailDb → Type 0
  Fits (r, d) = I d × ((a : MailJob) → r ≡ ok a → OwnJob a)

  refused : (e : GoError MailError) (d : MailDb) → I d → Fits (err e, d)
  refused e d h = (h, λ a t. absurd (ground (arith, t)))

  returned_own : (j : MailJob) (d : MailDb) → I d × OwnJob j → Fits (ok j, d)
  returned_own j d (h, o) = (h, λ a t. ground (arith, t, o))

  insert_row-Fits :
      (n : ℕ) (j : MailJob) (d : MailDb) → j.id ≡ pg.new_id n → I d → Fits (insert_row j d)
  insert_row-Fits n j d e h = elim (Bool-cases (elem j.status statuses)) [
    | inr out ↦ rw out (refused (external "new row violates check constraint") d h)
    | inl known ↦ rw known (elim (Option-cases (find job_key j.id d.jobs)) [
      | inr (_, taken) ↦
          rw taken (refused (external "duplicate key value violates unique constraint") d h)
      | inl free ↦ rw free (elim (Option-cases (find job_id_of j.job_id d.jobs)) [
        | inr (_, taken) ↦
            rw taken (refused (external "duplicate key value violates unique constraint") d h)
        | inl fresh ↦ rw fresh (returned_own j _ (s.rows n j d e free h))
      ])
    ])
  ]

  insert_read-Fits :
      (a b : Option String) (n : ℕ) (j : MailJob) (d : MailDb)
      → j.id ≡ pg.new_id n
      → I d
      → Fits (insert_read a b j d)
  insert_read-Fits (some a) (some b) n j d e h =
      insert_row-Fits n (record j { notification_id = a; user_id = b }) d e h
  insert_read-Fits none none n j d e h = refused (external "invalid input syntax for type uuid") d h
  insert_read-Fits (some a) none n j d e h =
      refused (external "invalid input syntax for type uuid") d h
  insert_read-Fits none (some b) n j d e h =
      refused (external "invalid input syntax for type uuid") d h

  pub Keeps-or_new_uuid : (t : String) → Keeps I (Repository.or_new_uuid env t)
  Keeps-or_new_uuid t = Keeps-if I (t == "") _ _ (record { at = λ w h. h }) (Keeps-pure I t)

  pub Gives-create_job : (j : MailJob) → Gives I OwnJob (Repository.create_job env j)
  unfolding Repository.create_job
  Gives-create_job j = Gives-bind I OwnJob _ _ (Keeps-or_new_uuid j.job_id) λ job_id.
      Gives-bind I OwnJob _ _ (Keeps-fail_if I _ _) λ _.
        Gives-statement I OwnJob pg _
          λ n d h. insert_read-Fits _ _ n (new_job env n job_id j) d refl h

  found-Fits :
      (j : MailJob) (o : Option MailJob) (d : MailDb)
      → OwnJob j
      → ((r : MailJob) → o ≡ some r → r.id ≡ trim_space j.id)
      → I d
      → Fits (found o, d)
  found-Fits j none d own key h = refused _ d h
  found-Fits j (some r) d own key h =
      returned_own r d (h, subst Own (sym (key r refl)) (s.own j.id own))

  pub Gives-update :
      (j : MailJob) (status last_error : String) (attempts : ℤ) (p q r : Option ℕ)
      → OwnJob j
      → Gives I OwnJob (
          Service.or_panic (Repository.update_job_status env j.id status last_error attempts p q r))
  unfolding Repository.update_job_status Service.or_panic
  Gives-update j status last_error attempts p q r own =
      let g = Gives-statement I OwnJob pg _ λ n d h.
        let f = with_status status last_error attempts p q r (pg.now n) in
        found-Fits j _ _ own (λ r e. find_key job_key (trim_space j.id) _ e)
          (s.changes j.id f d (λ _. (refl, refl)) own h) in
      record { keeps = g.keeps; gives = λ w h a e. g.gives w h a (ground (arith, e)) }

  pub Keeps-outcome : {A : Type 0} (m : App A) → Keeps I m → Keeps I (Service.outcome m)
  unfolding Service.outcome
  Keeps-outcome m k = record { at = k.at }

  Keeps-count_key : (key : String) → Keeps I (Repository.count_key env key)
  Keeps-count_key key =
      Keeps-bind I _ _ (Keeps-statement I pg _ λ n d h. s.counters _ d h)
        λ _. Keeps-ignore I _ (Keeps-statement I pg _ λ n d h. s.counters _ d h)

  pub Keeps-track_bucket :
      (category status : String) (at : ℕ) → Keeps I (Repository.track_bucket env category status at)
  unfolding Repository.track_bucket
  Keeps-track_bucket category status at =
      Keeps-if I env.has_cache _ _
        (Keeps-bind I _ _ (Keeps-count_key _)
          λ _. Keeps-bind I _ _ (Keeps-count_key _) λ _. Keeps-count_key _)
        (Keeps-pure I tt)

  pub Keeps-mark_dedup :
      (job_id : String) (ttl : ℕ) → Keeps I (Repository.mark_dedup env job_id ttl)
  unfolding Repository.mark_dedup
  Keeps-mark_dedup job_id ttl =
      Keeps-if I env.has_cache _ _ (Keeps-statement I pg _ λ n d h. s.marks _ _ _ d h)
        (Keeps-pure I true)

  Keeps-read_clock : Keeps I (Service.read_clock env)
  Keeps-read_clock = record { at = λ w h. h }

  pub Keeps-send : (m : SmtpMessage) → Keeps I (Service.send env m)
  unfolding Service.send Service.dispatch
  Keeps-send m =
      Keeps-bind I _ _ (Keeps-fail_if I _ _)
        λ _. Keeps-bind I _ _ (Keeps-fail_if I _ _) λ _. record { at = λ w h. h }

  pub Keeps-get_template : (id : String) → Keeps I (Repository.get_template env id)
  unfolding Repository.get_template
  Keeps-get_template id = Keeps-query I pg _

  pub Keeps-template_for_job : (j : MailJob) → Keeps I (Service.template_for_job env j)
  unfolding Service.template_for_job
  Keeps-template_for_job j =
      Keeps-if I (trim_space j.template_id == "") _ _ (Keeps-pure I _)
        (Keeps-bind I _ _ (Keeps-outcome _ (Keeps-get_template _)) λ r. Keeps-pure I _)

  Keeps-fail_job :
      {A : Type 0} (j : MailJob) (e : GoError MailError) (at : ℕ) (later : App ℕ)
      → OwnJob j
      → Keeps I later
      → Keeps I (Service.fail_job env {A = A} j e at later)
  Keeps-fail_job j e at later own k =
      Keeps-bind_Gives I OwnJob _ _ (Gives-update j _ _ _ none none (some at) own) λ row _.
        Keeps-bind I _ _ k
          λ t. Keeps-bind I _ _ (Keeps-ignore I _ (Keeps-track_bucket _ _ t)) λ _. Keeps-raise I e

  Keeps-fail_now :
      (j : MailJob) (text : String) → OwnJob j → Keeps I (Service.fail_now env {A = MailJob} j text)
  Keeps-fail_now j text own =
      Keeps-bind I _ _ Keeps-read_clock
        λ at. Keeps-fail_job j (external text) at _ own Keeps-read_clock

  Keeps-conclude :
      (j : MailJob) (at : ℕ) (r : Result MailError (Unit {0}))
      → OwnJob j
      → Keeps I (Service.conclude env j at r)
  Keeps-conclude j at (err e) own = Keeps-fail_job j e at _ own (Keeps-pure I at)
  Keeps-conclude j at (ok _) own =
      Keeps-bind_Gives I OwnJob _ _ (Gives-update j _ _ _ (some at) (some at) none own) λ row _.
        Keeps-bind I _ _ (Keeps-ignore I _ (Keeps-track_bucket _ _ at)) λ _. Keeps-pure I row

  Keeps-deliver :
      (row : MailJob) (r : String ⊎ MailJob)
      → OwnJob row
      → ((j : MailJob) → r ≡ inr j → OwnJob j)
      → Keeps I (Service.deliver env row r)
  Keeps-deliver row (inl text) own _ = Keeps-fail_now row text own
  Keeps-deliver row (inr j) own same =
      Keeps-if I env.has_mailer _ _
        (Keeps-bind I _ _ Keeps-read_clock λ at.
          Keeps-bind I _ _ (Keeps-outcome _ (Keeps-send _))
            λ r. Keeps-conclude j at r (same j refl))
        (Keeps-fail_now j _ (same j refl))

  fill_queued-id :
      (t : MailTemplate) (row j : MailJob) → Service.fill_queued env t row ≡ inr j → j.id ≡ row.id
  unfolding Service.fill_queued
  fill_queued-id t row j e = ground arith

  pub Keeps-process : (j : MailJob) → Keeps I (Service.process env j)
  unfolding Service.process
  Keeps-process j = Keeps-bind_Gives I OwnJob _ _ (Gives-create_job j) λ job own.
      Keeps-bind I _ _ (Keeps-ignore I _ (Keeps-track_bucket _ _ _)) λ _.
        Keeps-bind I _ _ Keeps-read_clock λ at.
          Keeps-bind_Gives I OwnJob _ _ (Gives-update job _ _ _ (some at) none none own)
            λ row still. Keeps-bind I _ _ (Keeps-template_for_job row) λ t.
              Keeps-deliver row (Service.fill_queued env t row) still
                λ r e. subst Own (sym (fill_queued-id t row r e)) still
