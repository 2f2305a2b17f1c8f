-- ===== src/Mail/Delivery.antt =====
-- The handler of the queue where nothing fails.
use docflow_web.Base.{
  ℕ, String, ◌≡◌, refl, sym, ap, ◌∙◌, Bool, true, false, ◌==◌, Option, none, some, List, eq_iff,
  inl, inr, Bool-cases, if◌then◌else◌, nat_eq, length,
}
use docflow_web.Base.Text.{trim_space}
use docflow_web.Base.Exec.{ok, pure, ignore, ◌>>=◌, passes}
use docflow_web.Base.Paging.{ℤ}
use docflow_web.Base.Postgres.{statement}
use docflow_web.Base.Table.{find, find-cons, find-update_where, find_key, update_where, is_key}
use docflow_web.Base.Keeps.{Keeps}
use docflow_web.Mail.Domain.{
  SmtpMessage, MailJob, MailTemplate, status_sent, next_attempt, invalid_input,
}
use docflow_web.Mail.Repository
use docflow_web.Mail.Repository.{
  MailEnv, MailDb, MailWorld, App, job_key, with_status, found, is_none,
}
use docflow_web.Mail.Service
use docflow_web.Mail.Templates.{merged_vars}
use docflow_web.Mail.Requests.{Stable}
use docflow_web.Mail.Effects

chosen : {A : Type 0} (b : Bool) (m n : A) → b ≡ true → (if b then m else n) ≡ m
chosen true m n e = refl
chosen false m n e = cc

-- From tables with `I` the program returns, with `Q`, and leaves `I` to hold.
pub record Returns {A : Type 0} (I : MailDb → Type 0) (Q : A → Type 0) (m : App A) : Type 0 where
  pub at : (w : MailWorld) → I w.db → (a : A) × ((m w).0 ≡ ok a) × Q a × I (m w).1.db

module _ {A : Type 0} (I : MailDb → Type 0) where
  Returns-pure : (Q : A → Type 0) (a : A) → Q a → Returns I Q (pure a)
  unfolding pure
  Returns-pure Q a q = record { at = λ w h. (a, refl, q, h) }

  Returns-if :
      (Q : A → Type 0) (b : Bool) (m n : App A)
      → Returns I Q m
      → Returns I Q n
      → Returns I Q (if b then m else n)
  Returns-if Q true m n h k = h
  Returns-if Q false m n h k = k

  Returns-ignore : (m : App A) → Keeps I m → Returns I (λ _. Unit {0}) (ignore m)
  unfolding ignore
  Returns-ignore m k = record { at = λ w h. (tt, refl, tt, k.at w h) }

  Returns-outcome : (m : App A) → Keeps I m → Returns I (λ _. Unit {0}) (Service.outcome m)
  unfolding Service.outcome
  Returns-outcome m k = record { at = λ w h. ((m w).0, refl, tt, k.at w h) }

module _ {A B : Type 0} (I : MailDb → Type 0) where
  Returns-bind :
      (P : A → Type 0) (Q : B → Type 0) (m : App A) (f : A → App B)
      → Returns I P m
      → ((a : A) → P a → Returns I Q (f a))
      → Returns I Q (m >>= f)
  unfolding ◌>>=◌
  Returns-bind P Q m f r k = record {
    at = λ w h.
        let (a, e, p, j) = r.at w h in let (b, d, q, l) = (k a p).at (m w).1 j in rw e (b, d, q, l);
  }

-- The job with this id is stored and has recipients.
pub record Present (id : String) (d : MailDb) : Type 0 where
  pub row : MailJob
  pub here : find job_key id d.jobs ≡ some row
  pub many : nat_eq (length row.recipient) 0 ≡ false

still :
    (b : Bool) (f : MailJob → MailJob) (r : MailJob)
    → (f r).recipient ≡ r.recipient
    → nat_eq (length r.recipient) 0 ≡ false
    → nat_eq (length (if b then f r else r).recipient) 0 ≡ false
still true f r e h = rw e h
still false f r e h = h

module _ (env : MailEnv) (id : String) where
  apart :
      (j : MailJob) (d : MailDb)
      → find job_key j.id d.jobs ≡ none
      → Present id d
      → (j.id == id) ≡ false
  apart j d gone h = elim (Bool-cases (j.id == id)) [
    | inr e ↦ e
    | inl e ↦
        let both : none ≡ some h.row =
          sym gone ∙ ap (λ k. find job_key k d.jobs) ((eq_iff j.id id).0 e) ∙ h.here in
        cc both
  ]

  Present-Stable : Stable env (Present id) (λ _. Unit {0})
  Present-Stable = record {
    marks = λ now ttl key d h. record { row = h.row; here = h.here; many = h.many };
    counters = λ c d h. record { row = h.row; here = h.here; many = h.many };
    templates = λ t d h. record { row = h.row; here = h.here; many = h.many };
    rows = λ n j d e gone h. (
      record {
        row = h.row;
        here = find-cons job_key id j d.jobs ∙ rw (apart j d gone h) h.here;
        many = h.many;
      },
      tt,
    );
    changes = λ k f d same o h. record {
      row = if is_key job_key (trim_space k) h.row then f h.row else h.row;
      here =
          find-update_where job_key (is_key job_key (trim_space k)) f (λ r. (same r).0) id d.jobs
          ∙ rw h.here refl;
      many = still (is_key job_key (trim_space k) h.row) f h.row (same h.row).1 h.many;
    };
    own = λ k o. o;
  }

  Keeps-track :
      (category status : String) (at : ℕ)
      → Keeps (Present id) (Repository.track_bucket env category status at)
  Keeps-track = Effects.Keeps-track_bucket env (Present id) (λ _. Unit {0}) Present-Stable

-- What is known of the row that a program returns.
pub record Known (id : String) (j : MailJob) : Type 0 where
  pub named : j.id ≡ id
  pub many : nat_eq (length j.recipient) 0 ≡ false

module _ (env : MailEnv) (up : (n : ℕ) → env.pg.fault n ≡ none) where
  open env use {pg}

  found_row :
      (id : String) (f : MailJob → MailJob) (d : MailDb)
      → ((r : MailJob) → (job_key (f r) ≡ job_key r) × ((f r).recipient ≡ r.recipient))
      → Present id d
      → (r : MailJob) × (find job_key id (update_where (is_key job_key id) f d.jobs) ≡ some r)
        × Known id r
  found_row id f d same h =
      let key = find_key job_key id d.jobs h.here in
      let hit : is_key job_key id h.row ≡ true = (eq_iff (job_key h.row) id).1 key in
      (
        f h.row,
        find-update_where job_key (is_key job_key id) f (λ r. (same r).0) id d.jobs
            ∙ rw h.here (rw hit refl),
        record { named = (same h.row).0 ∙ key; many = rw ((same h.row).1) h.many },
      )

  Returns-update :
      (id : String) (j : MailJob) (status last_error : String) (attempts : ℤ) (p q r : Option ℕ)
      → trim_space id ≡ id
      → Known id j
      → Returns (Present id) (Known id) (
          Service.or_panic (Repository.update_job_status env j.id status last_error attempts p q r))
  unfolding Service.or_panic Repository.update_job_status statement
  Returns-update id j status last_error attempts p q r trimmed known = record {
    at = λ w h.
        let f = with_status status last_error attempts p q r (pg.now w.calls) in
        let (row, here, good) = found_row id f w.db (λ _. (refl, refl)) h in
        (
          row,
          rw (up w.calls, statement) (rw known.named (rw trimmed (rw here refl))),
          good,
          rw (up w.calls, statement)
              (rw known.named (rw trimmed (record { row = row; here = here; many = good.many }))),
        );
  }

  Returns-template :
      (id : String) (j : MailJob)
      → Returns (Present id) (λ _. Unit {0}) (Service.template_for_job env j)
  unfolding Service.template_for_job
  Returns-template id j =
      Returns-if (Present id) _ (trim_space j.template_id == "") _ _
        (Returns-pure (Present id) _ _ tt)
        (Returns-bind (Present id) (λ _. Unit {0}) _ _ _
          (Returns-outcome (Present id) _
            (Effects.Keeps-get_template env (Present id) (λ _. Unit {0}) (Present-Stable env id) _))
          λ r _. Returns-pure (Present id) _ _ tt)

  module _ (accepts : (n : ℕ) (m : SmtpMessage) → Service.refusal env n m ≡ none)
      (named : (env.from == "") ≡ false) where
    send_ok :
        (j : MailJob) (w : MailWorld)
        → nat_eq (length j.recipient) 0 ≡ false
        → (Service.send env (Service.message_of env j) w).0 ≡ ok tt
    unfolding Service.send Service.dispatch
    send_ok j w many =
        ap (λ r. r.0) (passes _ invalid_input _ w many ∙ passes _ invalid_input _ w named)
        ∙ rw (accepts w.calls (Service.message_of env j)) refl

    module _ (mailer : env.has_mailer ≡ true) where
      Returns-send_job :
          (id : String) (j : MailJob)
          → trim_space id ≡ id
          → Known id j
          → Returns (Present id) (Known id) (Service.send_job env j)
      unfolding ◌>>=◌ Service.outcome
      Returns-send_job id j trimmed known = record {
        at = λ w h.
            let at : ℕ = env.clock w.calls in
            let v = (Service.send env (Service.message_of env j) w).1 in
            let kept =
              (Effects.Keeps-send env (Present id) (λ _. Unit {0}) (Present-Stable env id)
                  (Service.message_of env j)).at
                w h in
            let run =
              Returns-bind (Present id) (Known id) (Known id) _
                (λ row. ignore (Repository.track_bucket env row.category status_sent at) >>= λ _.
                  pure row)
                (Returns-update id j status_sent "" (next_attempt j.attempts) (some at) (some at)
                  none trimmed known)
                λ row good.
                  Returns-bind (Present id) (λ _. Unit {0}) (Known id) _ _
                    (Returns-ignore (Present id) _ (Keeps-track env id _ _ at))
                    λ _ _. Returns-pure (Present id) (Known id) row good in
            rw (send_ok j w known.many) (run.at v kept);
      }

      module _
          (renders : (t : String) (vars : List (String × String))
            → (text : String) × (env.render t vars ≡ inr text)) where
        filled :
            (id : String) (t : MailTemplate) (row : MailJob)
            → Known id row
            → (j : MailJob) × (Service.fill_queued env t row ≡ inr j) × Known id j
        unfolding Service.fill_queued
        filled id t row known = elim (Bool-cases t.is_active) [
          | inr e ↦ (row, rw e refl, known)
          | inl e ↦ rw e (elim (Bool-cases (row.body == "")) [
            | inr b ↦ (
              Service.with_subject t (Service.with_template_id t row),
              rw b refl,
              record { named = known.named; many = known.many },
            )
            | inl b ↦
                let named_row = Service.with_subject t (Service.with_template_id t row) in
                let (text, done) = renders t.body_template (merged_vars named_row) in
                (
                  record named_row { body = text },
                  rw b (rw done refl),
                  record { named = known.named; many = known.many },
                )
          ])
        ]

        Returns-deliver :
            (id : String) (t : MailTemplate) (row : MailJob)
            → trim_space id ≡ id
            → Known id row
            → Returns
                (Present id)
                (Known id)
                (Service.deliver env row (Service.fill_queued env t row))
        Returns-deliver id t row trimmed known =
            let (j, e, good) = filled id t row known in
            rw e (record {
              at = λ w h.
                  let r = (Returns-send_job id j trimmed good).at w h in
                  rw (chosen env.has_mailer (Service.send_job env j) _ mailer) r;
            })

        pub Returns-processing :
            (id : String) (job : MailJob)
            → trim_space id ≡ id
            → Known id job
            → Returns (Present id) (Known id) (Service.processing env job)
        Returns-processing id job trimmed known =
            Returns-bind (Present id) (λ _. Unit {0}) (Known id) _ _
              (Returns-ignore (Present id) _ (Keeps-track env id _ _ _))
              λ _ _.
                Returns-bind (Present id) (λ _. Unit {0}) (Known id) _ _
                  (record { at = λ w h. (env.clock w.calls, refl, tt, h) })
                  λ at _.
                    Returns-bind (Present id) (Known id) (Known id) _ _
                      (Returns-update id job _ _ _ (some at) none none trimmed known)
                      λ row good.
                        Returns-bind (Present id) (λ _. Unit {0}) (Known id) _ _
                          (Returns-template id row) λ t _. Returns-deliver id t row trimmed good
