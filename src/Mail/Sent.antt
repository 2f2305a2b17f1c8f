-- ===== src/Mail/Sent.antt =====
-- A message of the queue that is answered with a job.
use Prim.Native.Nat.{suc}
use mathlib.Core.Path.{subst}
use docflow_web.Base.{
  ◌≤◌, ℕ, String, ◌+◌, ◌≡◌, ◌≢◌, refl, sym, ap, ◌∙◌, Bool, true, false, ◌==◌, ◌⊎◌, Option, none,
  some, List, arith, eq_iff, inl, inr, Option-cases, if◌then◌else◌,
}
use docflow_web.Base.Text.{trim_space}
use docflow_web.Base.Exec.{
  Result, ok, err, GoError, external, pure, raise, ignore, ◌>>=◌, returned, passed, bind_runs,
  bind_fails,
}
use docflow_web.Base.Paging.{ℤ}
use docflow_web.Base.Postgres.{statement}
use docflow_web.Base.Table.{find, find-update_where, find_key, update_where, is_key}
use docflow_web.Mail.Domain.{MailError, MailJob, status_sent}
use docflow_web.Mail.Repository
use docflow_web.Mail.Repository.{
  MailEnv, MailDb, MailWorld, App, job_key, Dispatch, with_status, found, is_none, dedup_key,
}
use docflow_web.Mail.Service
use docflow_web.Mail.Requests.{Stable}
use docflow_web.Mail.Effects
use docflow_web.Mail.Kept.{IsTrimmed, Stays-Stable}
use docflow_web.Base.Keeps.{Keeps-ignore}
use docflow_web.Base.Redis.{get}
use docflow_web.Mail.Once.{is_free, mark, mark_new, mark_fails, marked}
use docflow_web.Mail.Bulk.{
  written, Answers, Tallies, made, accepted, Silent, Silent-statement, Silent-if, Silent-pure,
  Silent-bind, Silent-fail_if, Silent-template_for_job, Counted-send,
}

Silent-ignore : {A : Type 0} (m : App A) → Silent m → Silent (ignore m)
unfolding ignore
Silent-ignore m h = record { at = h.at }

Silent-or_panic : {A : Type 0} (m : App A) → Silent m → Silent (Service.or_panic m)
unfolding Service.or_panic
Silent-or_panic m h = record { at = h.at }

-- A chain whose second part never returns does not return.
never_behind :
    {A B : Type 0} (m : App A) (f : A → App B)
    → ((a : A) (v : MailWorld) (b : B) → ((f a v).0 ≡ ok b) → ⊥)
    → (w : MailWorld) (b : B) → (((m >>= f) w).0 ≡ ok b)
    → ⊥
never_behind m f never w b e = let r = returned f m w e in never r.value (m w).1 b r.second

never_raised :
    {B : Type 0} (x : GoError MailError) (v : MailWorld) (b : B) → ((raise x v).0 ≡ ok b) → ⊥
unfolding raise
never_raised x v b e = absurd (ground (arith, e))

-- The row that an UPDATE by its key returns was changed.
changed :
    (k status : String) (f : MailJob → MailJob) (jobs : List MailJob) (row : MailJob)
    → ((r : MailJob) → job_key (f r) ≡ job_key r)
    → ((r : MailJob) → (f r).status ≡ status)
    → find job_key k (update_where (is_key job_key k) f jobs) ≡ some row
    → row.status ≡ status
changed k status f jobs row same sets e =
    let at = sym (find-update_where job_key (is_key job_key k) f same k jobs) ∙ e in
    elim (Option-cases (find job_key k jobs)) [
      | inl gone ↦ absurd (ground (arith, rw gone at at))
      | inr (old, here) ↦
          let hit : is_key job_key k old ≡ true =
            (eq_iff (job_key old) k).1 (find_key job_key k jobs here) in
          let new : some (f old) ≡ some row = rw hit at (rw here at at) in cc (new, sets old)
    ]

found_ok : {o : Option MailJob} {row : MailJob} → found o ≡ ok row → o ≡ some row
found_ok {o = none} e = cc
found_ok {o = some r} e = cc

-- What a job that was sent leaves behind: the row says "sent" and is stored, and one message was
-- written to the connection with the mail server.
pub record Ended (row : MailJob) (w v : MailWorld) : Type 0 where
  pub says : row.status ≡ status_sent
  pub stored : find job_key row.id v.db.jobs ≡ some row
  pub one_written : written v.out ≡ 1 + written w.out
  pub accepted_at_most : accepted v.out ≤ 1 + accepted w.out

module _ (env : MailEnv) where
  open env use {pg}

  Silent-count_key : (key : String) → Silent (Repository.count_key env key)
  Silent-count_key key =
      Silent-bind _ _ (Silent-statement env _) λ _. Silent-ignore _ (Silent-statement env _)

  Silent-track_bucket :
      (category status : String) (at : ℕ) → Silent (Repository.track_bucket env category status at)
  unfolding Repository.track_bucket
  Silent-track_bucket category status at =
      Silent-if env.has_cache _ _
        (Silent-bind _ _ (Silent-count_key _)
          λ _. Silent-bind _ _ (Silent-count_key _) λ _. Silent-count_key _)
        (Silent-pure tt)

  Silent-create_job : (j : MailJob) → Silent (Repository.create_job env j)
  unfolding Repository.create_job
  Silent-create_job j =
      Silent-bind _ _ (Silent-if (j.job_id == "") _ _ (record { at = λ w. refl }) (Silent-pure _))
        λ _. Silent-bind _ _ (Silent-fail_if _ _) λ _. Silent-statement env _

  Silent-update :
      (id status last_error : String) (attempts : ℤ) (p q r : Option ℕ)
      → Silent
          (Service.or_panic (Repository.update_job_status env id status last_error attempts p q r))
  unfolding Repository.update_job_status
  Silent-update id status last_error attempts p q r = Silent-or_panic _ (Silent-statement env _)

  fail_job_never :
      {A : Type 0} (j : MailJob) (e : GoError MailError) (at : ℕ) (later : App ℕ) (w : MailWorld)
      (a : A)
      → ((Service.fail_job env {A = A} j e at later w).0 ≡ ok a)
      → ⊥
  fail_job_never j e at later =
      never_behind _ _ λ row. never_behind _ _ λ t. never_behind _ _ λ _. never_raised e

  fail_now_never :
      (j : MailJob) (text : String) (w : MailWorld) (a : MailJob)
      → ((Service.fail_now env {A = MailJob} j text w).0 ≡ ok a)
      → ⊥
  fail_now_never j text = never_behind _ _ λ at. fail_job_never j (external text) at _

  pub update-status :
      (id status last_error : String) (attempts : ℤ) (p q r : Option ℕ) (w : MailWorld)
      (row : MailJob)
      → (Service.or_panic
          (Repository.update_job_status env id status last_error attempts p q r)
          w).0
        ≡ ok row
      → row.status ≡ status
  unfolding Service.or_panic Repository.update_job_status statement
  update-status id status last_error attempts p q r w row e =
      elim (Option-cases (pg.fault w.calls)) [
        | inr (_, down) ↦ absurd (ground (arith, e, down))
        | inl up ↦
            let f = with_status status last_error attempts p q r (pg.now w.calls) in
            changed (trim_space id) status f w.db.jobs row (λ _. refl) (λ _. refl)
              (found_ok (ground (arith, e, up)))
      ]

  pub update-stored :
      (id status last_error : String) (attempts : ℤ) (p q r : Option ℕ) (w : MailWorld)
      (row : MailJob)
      → (Service.or_panic
          (Repository.update_job_status env id status last_error attempts p q r)
          w).0
        ≡ ok row
      → find job_key row.id
          (Service.or_panic
            (Repository.update_job_status env id status last_error attempts p q r)
            w).1.db.jobs
        ≡ some row
  unfolding Service.or_panic Repository.update_job_status statement
  update-stored id status last_error attempts p q r w row e =
      elim (Option-cases (pg.fault w.calls)) [
        | inr (_, down) ↦ absurd (ground (arith, e, down))
        | inl up ↦
            let jobs =
              update_where (is_key job_key (trim_space id))
                (with_status status last_error attempts p q r (pg.now w.calls)) w.db.jobs in
            let here : find job_key (trim_space id) jobs ≡ some row =
              found_ok (ground (arith, e, up)) in
            rw (up, statement)
              (subst (λ k. find job_key k jobs ≡ some row)
                (sym (find_key job_key (trim_space id) jobs here)) here)
      ]

  -- The row says "sent" and is stored.
  record Says (row : MailJob) (v : MailWorld) : Type 0 where
    says : row.status ≡ status_sent
    stored : find job_key row.id v.db.jobs ≡ some row

  -- And one message was written in the meantime.
  record Done (row : MailJob) (o : List Dispatch) (v : MailWorld) : Type 0 where
    row_is : Says row v
    tallies : Tallies env 1 o v.out

  Done-from :
      {row : MailJob} {o p : List Dispatch} {v : MailWorld} → o ≡ p → Done row o v → Done row p v
  Done-from {v} e d = record {
    row_is = d.row_is;
    tallies = subst (λ q. Tallies env 1 q v.out) e d.tallies;
  }

  module _ (trimmed : IsTrimmed env) where
    abbrev Stays : MailJob → MailDb → Type 0
    Stays row d = find job_key row.id d.jobs ≡ some row

    abbrev Other : MailJob → String → Type 0
    Other row k = trim_space k ≢ row.id

    stays : (row : MailJob) → Stable env (Stays row) (Other row)
    stays row = Stays-Stable env trimmed row.id row

    conclude-Says :
        (j : MailJob) (at : ℕ) (r : Result MailError (Unit {0})) (w : MailWorld) (row : MailJob)
        → (Service.conclude env j at r w).0 ≡ ok row
        → (r ≡ ok tt)
          × Says row (Service.conclude env j at r w).1
          × ((Service.conclude env j at r w).1.out ≡ w.out)
    unfolding pure
    conclude-Says j at (err x) w row e = absurd (fail_job_never j x at _ w row e)
    conclude-Says j at (ok tt) w row e =
        let first = returned _ _ w e in
        let second = returned _ _ _ first.second in
        let last : first.value ≡ row = ground (arith, second.second) in
        (
          refl,
          record {
            says =
                sym (ap (λ (r : MailJob). r.status) last)
                ∙ update-status j.id _ _ _ _ _ _ w first.value first.first;
            stored =
                subst (λ (v : MailWorld). find job_key row.id v.db.jobs ≡ some row)
                  (sym (first.state ∙ second.state))
                  ((Keeps-ignore (Stays row) _ (
                      Effects.Keeps-track_bucket env (Stays row) (Other row) (stays row) _ _ at)).at
                    _ (update-stored j.id _ _ _ _ _ _ w row (first.first ∙ ap (λ x. ok x) last)));
          },
          ap (λ (v : MailWorld). v.out) (first.state ∙ second.state)
              ∙ (Silent-ignore _ (Silent-track_bucket _ _ at)).at _
              ∙ (Silent-update j.id _ _ _ _ _ _).at w,
        )

    send_job-Done :
        (j : MailJob) (w : MailWorld) (row : MailJob)
        → (Service.send_job env j w).0 ≡ ok row
        → Done row w.out (Service.send_job env j w).1
    unfolding Service.outcome
    send_job-Done j w row e =
        let clock = returned _ _ w e in
        let sending = returned _ _ _ clock.second in
        let (went, done, left) = conclude-Says j clock.value sending.value _ row sending.second in
        let sent : (Service.send env (Service.message_of env j) w).0 ≡ ok tt =
          ground (arith, sending.first, went) in
        let counted = (Counted-send env (Service.message_of env j)).at w in
        let one : Tallies env 1 w.out (Service.send env (Service.message_of env j) w).1.out =
          subst
            (λ (r : Result MailError (Unit {0})).
              Tallies env (made r) w.out (Service.send env (Service.message_of env j) w).1.out)
            sent counted in
        subst (λ (v : MailWorld). Done row w.out v) (sym (clock.state ∙ sending.state))
          (record { row_is = done; tallies = subst (λ o. Tallies env 1 w.out o) (sym left) one })

    deliver-Done :
        (j : MailJob) (r : String ⊎ MailJob) (w : MailWorld) (row : MailJob)
        → (Service.deliver env j r w).0 ≡ ok row
        → Done row w.out (Service.deliver env j r w).1
    deliver-Done j (inl text) w row e = absurd (fail_now_never j text w row e)
    deliver-Done j (inr filled) w row e = mailed env.has_mailer e
      where
        mailed :
            (b : Bool)
            → ((if b
                  then Service.send_job env filled
                  else Service.fail_now env filled "mailer is not configured")
                w).0
              ≡ ok row
            → Done row w.out
                ((if b
                    then Service.send_job env filled
                    else Service.fail_now env filled "mailer is not configured")
                  w).1
        mailed true h = send_job-Done filled w row h
        mailed false h = absurd (fail_now_never filled _ w row h)

    process-Done :
        (j : MailJob) (w : MailWorld) (row : MailJob)
        → (Service.process env j w).0 ≡ ok row
        → Done row w.out (Service.process env j w).1
    unfolding Service.process
    process-Done j w row e =
        let a = returned _ _ w e in
        let b = returned _ _ _ a.second in
        let c = returned _ _ _ b.second in
        let d = returned _ _ _ c.second in
        let t = returned _ _ _ d.second in
        let done = deliver-Done d.value _ _ row t.second in
        let quiet =
          (Silent-template_for_job env d.value).at _
          ∙ (Silent-update _ _ _ _ _ _ _).at _
          ∙ (Silent-ignore _ (Silent-track_bucket _ _ _)).at _
          ∙ (Silent-create_job j).at w in
        subst (λ (v : MailWorld). Done row w.out v)
          (sym (a.state ∙ b.state ∙ c.state ∙ d.state ∙ t.state)) (Done-from quiet done)

    free_runs :
        (cached : env.has_cache ≡ true) (j : MailJob) (w : MailWorld) (row : MailJob)
        → is_free env cached j w ≡ true
        → ((mark env cached j >>= Service.process_once env j) w).0 ≡ ok row
        → (mark env cached j >>= Service.process_once env j) w
          ≡ Service.process env j (marked env j w)
    free_runs cached j w row free e = elim (Option-cases (pg.fault w.calls)) [
      | inl up ↦ bind_runs _ (Service.process_once env j) w _ (mark_new env cached j w up free)
      | inr (text, down) ↦
          let failed =
            bind_fails (mark env cached j) (Service.process_once env j) w
              (record w { calls = suc w.calls }) (mark_fails env cached j w text down) in
          absurd (ground (arith, e, failed))
    ]

    handle_queued_job-Done :
        (j row : MailJob) (w : MailWorld)
        → env.has_cache ≡ true
        → is_none (get (pg.now w.calls) (dedup_key j.job_id) w.db.marks) ≡ true
        → (Service.handle_queued_job env j w).0 ≡ ok row
        → Done row w.out (Service.handle_queued_job env j w).1
    unfolding Service.handle_queued_job
    handle_queued_job-Done j row w cached free e =
        let (_, f, s0) = passed _ _ _ _ e in
        let (_, g, s1) = passed _ _ _ _ f in
        let run = free_runs cached j w row free g in
        let done = process-Done j (marked env j w) row (ap (λ r. r.0) (sym run) ∙ g) in
        subst (λ (v : MailWorld). Done row w.out v) (sym (s0 ∙ s1 ∙ ap (λ r. r.1) run)) done

    -- When the handler of the queue answers with a job though there was no mark for the message,
    -- the job says "sent" and is stored so, and one message was written to the connection
    -- without an error, and no more. The mail server has accepted at most one, for Send drops its
    -- answer to the text. The
    -- service has a cache, and the ids that the database draws have no spaces around them.
    pub handle_queued_job-Ended :
        (j row : MailJob) (w : MailWorld)
        → env.has_cache ≡ true
        → is_none (get (pg.now w.calls) (dedup_key j.job_id) w.db.marks) ≡ true
        → (Service.handle_queued_job env j w).0 ≡ ok row
        → Ended row w (Service.handle_queued_job env j w).1
    handle_queued_job-Ended j row w cached free e =
        let done = handle_queued_job-Done j row w cached free e in
        record {
          says = done.row_is.says;
          stored = done.row_is.stored;
          one_written = done.tallies.all_written;
          accepted_at_most = done.tallies.at_most;
        }

    -- It is accepted where the server gets and accepts every text that is written.
    pub handle_queued_job-accepted :
        (j row : MailJob) (w : MailWorld)
        → Answers env
        → env.has_cache ≡ true
        → is_none (get (pg.now w.calls) (dedup_key j.job_id) w.db.marks) ≡ true
        → (Service.handle_queued_job env j w).0 ≡ ok row
        → accepted (Service.handle_queued_job env j w).1.out ≡ 1 + accepted w.out
    handle_queued_job-accepted j row w answers cached free e =
        (handle_queued_job-Done j row w cached free e).tallies.all_taken answers
