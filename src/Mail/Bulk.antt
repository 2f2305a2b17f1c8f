-- ===== src/Mail/Bulk.antt =====
-- A mail to many, and what the mail server accepted of it.
use Prim.Native.Nat.{suc}
use mathlib.Core.Path.{subst}
use docflow_web.Base.{
  ◌≤◌, ℕ, String, ◌+◌, ◌≡◌, refl, sym, ◌∙◌, Bool, true, false, ◌==◌, ◌⊎◌, Option, none, some, List,
  [], ◌∷◌, arith, inl, inr, Option-cases, if◌then◌else◌, nat_eq, length,
}
use docflow_web.Base.Text.{trim_space}
use docflow_web.Base.Exec.{
  program, Result, ok, err, GoError, external, continue, pure, raise, fail_if, ◌>>=◌, passes,
}
use docflow_web.Base.Postgres.{statement}
use docflow_web.Mail.Domain.{
  MailError, MailJob, SmtpMessage, invalid_input, mail_template_for_category,
}
use docflow_web.Mail.Repository
use docflow_web.Mail.Repository.{MailEnv, MailDb, MailWorld, App, Dispatch}
use docflow_web.Mail.Service

-- How many of these messages Send wrote to the connection without an error, and how many of those
-- the mail server then accepted.
abbrev pub one_if_none : Option String → ℕ
one_if_none none = 1
one_if_none (some _) = 0

abbrev pub written : List Dispatch → ℕ
written [] = 0
written (d ∷ ds) = one_if_none d.refusal + written ds

abbrev pub one_if_taken : Option String → Option String → ℕ
one_if_taken none answer = one_if_none answer
one_if_taken (some _) answer = 0

abbrev pub accepted : List Dispatch → ℕ
accepted [] = 0
accepted (d ∷ ds) = one_if_taken d.refusal d.answer + accepted ds

-- The mail server gets every text that was written, and accepts it.
abbrev pub Answers : MailEnv → Type 0
Answers env = (n : ℕ) → (env.smtp n).answer ≡ none

-- How many mails a result stands for.
abbrev pub made : {A : Type 0} → Result MailError A → ℕ
made (ok _) = 1
made (err _) = 0

pub record Silent {A : Type 0} (m : App A) : Type 0 where
  pub at : (w : MailWorld) → (m w).1.out ≡ w.out

-- Between these outboxes `k` messages were written, of which all were accepted if the server accepts
-- what is written to it.
pub record Tallies (env : MailEnv) (k : ℕ) (before behind : List Dispatch) : Type 0 where
  pub all_written : written behind ≡ k + written before
  pub at_most : accepted behind ≤ k + accepted before
  pub all_taken : Answers env → accepted behind ≡ k + accepted before

none_sent : (env : MailEnv) (o : List Dispatch) → Tallies env 0 o o
none_sent env o = record {
  all_written = omega arith;
  at_most = omega arith;
  all_taken = λ _. omega arith;
}

-- A program that returns exactly if it wrote one message, and writes no other.
pub record Counted (env : MailEnv) {A : Type 0} (m : App A) : Type 0 where
  pub at : (w : MailWorld) → Tallies env (made (m w).0) w.out (m w).1.out

module _ {A : Type 0} where
  pub Silent-statement :
      (env : MailEnv) (body : ℕ → MailDb → Result MailError A × MailDb)
      → Silent (statement env.pg body)
  unfolding statement
  Silent-statement env body = record {
    at = λ w. elim (Option-cases (env.pg.fault w.calls)) [
      | inl e ↦ rw (e, statement) refl
      | inr (_, e) ↦ rw (e, statement) refl
    ];
  }

  pub Silent-if : (b : Bool) (m n : App A) → Silent m → Silent n → Silent (if b then m else n)
  Silent-if true m n h k = h
  Silent-if false m n h k = k

  pub Silent-pure : (a : A) → Silent (pure a)
  unfolding pure
  Silent-pure a = record { at = λ w. refl }

  pub Silent-outcome : (m : App A) → Silent m → Silent (Service.outcome m)
  unfolding Service.outcome
  Silent-outcome m h = record { at = h.at }

  Counted-raise : (env : MailEnv) (e : GoError MailError) → Counted env {A = A} (raise e)
  unfolding raise
  Counted-raise env e = record { at = λ w. none_sent env w.out }

  Counted-if :
      (env : MailEnv) (b : Bool) (m n : App A)
      → Counted env m
      → Counted env n
      → Counted env (if b then m else n)
  Counted-if env true m n h k = h
  Counted-if env false m n h k = k

pub Silent-fail_if : (b : Bool) (s : MailError) → Silent (fail_if b s)
unfolding program
Silent-fail_if true s = record { at = λ w. refl }
Silent-fail_if false s = record { at = λ w. refl }

module _ {A B : Type 0} where
  Silent-after :
      (f : A → App B) (r : Result MailError A) (v : MailWorld)
      → ((a : A) → Silent (f a))
      → (continue r f v).1.out ≡ v.out
  Silent-after f (ok a) v h = (h a).at v
  Silent-after f (err e) v h = refl

  pub Silent-bind :
      (m : App A) (f : A → App B) → Silent m → ((a : A) → Silent (f a)) → Silent (m >>= f)
  unfolding ◌>>=◌
  Silent-bind m f h k = record { at = λ w. Silent-after f (m w).0 (m w).1 k ∙ h.at w }

  Counted-after :
      (env : MailEnv) (f : A → App B) (r : Result MailError A) (v : MailWorld)
      → ((a : A) → Counted env (f a))
      → Tallies env (made (continue r f v).0) v.out (continue r f v).1.out
  Counted-after env f (ok a) v h = (h a).at v
  Counted-after env f (err e) v h = none_sent env v.out

  Counted-bind :
      (env : MailEnv) (m : App A) (f : A → App B)
      → Silent m
      → ((a : A) → Counted env (f a))
      → Counted env (m >>= f)
  unfolding ◌>>=◌
  Counted-bind env m f h k = record {
    at = λ w.
        subst
          (λ o.
            Tallies env (made (continue (m w).0 f (m w).1).0) o (continue (m w).0 f (m w).1).1.out)
          (h.at w) (Counted-after env f (m w).0 (m w).1 k);
  }

  return_after :
      (env : MailEnv) (b : B) (r : Result MailError A) (v : MailWorld) (o : List Dispatch)
      → Tallies env (made r) o v.out
      → Tallies env (made (continue r (λ _. pure b) v).0) o (continue r (λ _. pure b) v).1.out
  unfolding pure
  return_after env b (ok a) v o t = t
  return_after env b (err e) v o t = t

  Counted-return :
      (env : MailEnv) (m : App A) (b : B) → Counted env m → Counted env (m >>= λ _. pure b)
  unfolding ◌>>=◌
  Counted-return env m b h = record { at = λ w. return_after env b (m w).0 (m w).1 w.out (h.at w) }

-- What SendBulkEmail answers, in the worlds before and behind it.
pub record IsTallied (w : MailWorld) (n : ℕ) (answer : Result MailError (ℕ × ℕ) × MailWorld)
    : Type 0 where
  pub sent : ℕ
  pub failed : ℕ
  pub result : answer.0 ≡ ok (sent, failed)
  pub all_of_them : sent + failed ≡ n
  pub sent_written : written answer.1.out ≡ sent + written w.out
  pub accepted_at_most : accepted answer.1.out ≤ sent + accepted w.out

module _ (env : MailEnv) where
  one_written :
      (m : SmtpMessage) (n : ℕ) (e : Option String) (o : List Dispatch)
      → Tallies env
          (made (Service.dispatched env e))
          o
          (record { message = m; refusal = e; answer = (env.smtp n).answer } ∷ o)
  one_written m n (some t) o = record {
    all_written = refl;
    at_most = omega arith;
    all_taken = λ _. refl;
  }
  one_written m n none o = record {
    all_written = refl;
    at_most = at_most_one (env.smtp n).answer;
    all_taken = λ h. rw (h n) refl;
  }
    where
      at_most_one : (a : Option String) → one_if_none a + accepted o ≤ 1 + accepted o
      at_most_one none = omega arith
      at_most_one (some x) = omega arith

  Counted-dispatch : (m : SmtpMessage) → Counted env (Service.dispatch env m)
  unfolding Service.dispatch
  Counted-dispatch m = record {
    at = λ w. one_written m w.calls (Service.refusal env w.calls m) w.out;
  }

  pub Counted-send : (m : SmtpMessage) → Counted env (Service.send env m)
  unfolding Service.send
  Counted-send m =
      Counted-bind env _ _ (Silent-fail_if _ _)
        λ _. Counted-bind env _ _ (Silent-fail_if _ _) λ _. Counted-dispatch m

  pub Silent-template_for_job : (j : MailJob) → Silent (Service.template_for_job env j)
  unfolding Service.template_for_job Repository.get_template
  Silent-template_for_job j =
      Silent-if (trim_space j.template_id == "") _ _
        (Silent-pure (mail_template_for_category j.category))
        (Silent-bind _ _ (Silent-outcome _ (Silent-statement env _)) λ r. Silent-pure _)

  Counted-mail_now : (r : String ⊎ MailJob) → Counted env (Service.mail_now env r)
  Counted-mail_now (inl text) = Counted-raise env (external text)
  Counted-mail_now (inr j) =
      Counted-if env env.has_mailer _ _
        (Counted-return env (Service.send env (Service.message_of env j)) j.job_id (Counted-send _))
        (Counted-raise env _)

  Counted-send_email :
      (to subject body user_id id : String) (vars : List (String × String)) (category : String)
      → Counted env (Service.send_email env to subject body user_id id vars category)
  unfolding Service.send_email
  Counted-send_email to subject body user_id id vars category =
      Counted-bind env _ _ (Silent-fail_if _ _) λ _.
        Counted-bind env _ _ (record { at = λ w. refl })
          λ job_id. Counted-bind env _ _ (Silent-template_for_job _) λ t. Counted-mail_now _

  -- The loop, from the counts so far.
  record Run (w : MailWorld) (n a b : ℕ) (answer : Result MailError (ℕ × ℕ) × MailWorld)
      : Type 0 where
    sent : ℕ
    failed : ℕ
    result : answer.0 ≡ ok (sent, failed)
    all_of_them : sent + failed ≡ a + b + n
    sent_written : written answer.1.out + a ≡ sent + written w.out
    at_most : accepted answer.1.out + a ≤ sent + accepted w.out

  count_in :
      (r : Result MailError String) (n a b : ℕ) (u w : MailWorld)
      (rest : ℕ × ℕ → Result MailError (ℕ × ℕ) × MailWorld)
      → Tallies env (made r) w.out u.out
      → ((a b : ℕ) → Run u n a b (rest (a, b)))
      → Run w (suc n) a b (rest (Service.tally env r (a, b)))
  count_in (ok id) n a b u w rest e k =
      let t = k (a + 1) b in
      record {
        sent = t.sent;
        failed = t.failed;
        result = t.result;
        all_of_them = let h = t.all_of_them in omega arith;
        sent_written = let h = t.sent_written in omega (arith, e.all_written);
        at_most = let h = t.at_most in omega (arith, e.at_most);
      }
  count_in (err x) n a b u w rest e k =
      let t = k a (b + 1) in
      record {
        sent = t.sent;
        failed = t.failed;
        result = t.result;
        all_of_them = let h = t.all_of_them in omega arith;
        sent_written = let h = t.sent_written in omega (arith, e.all_written);
        at_most = let h = t.at_most in omega (arith, e.at_most);
      }

  module _ (subject body id : String) (vars : List (String × String)) (category : String) where
    each-Run :
        (to : List String) (a b : ℕ) (w : MailWorld)
        → Run w (length to) a b (Service.send_each env subject body id vars category to (a, b) w)
    unfolding Service.send_each Service.outcome pure ◌>>=◌
    each-Run [] a b w = record {
      sent = a;
      failed = b;
      result = refl;
      all_of_them = omega arith;
      sent_written = omega arith;
      at_most = omega arith;
    }
    each-Run (t ∷ to) a b w =
        let m = Service.send_email env t subject body "" id vars category in
        count_in (m w).0 (length to) a b (m w).1 w
          (λ c. Service.send_each env subject body id vars category to c (m w).1)
          ((Counted-send_email t subject body "" id vars category).at w)
          (λ c d. each-Run to c d (m w).1)

    not_empty : (first : String) (others : List String) → nat_eq (length (first ∷ others)) 0 ≡ false
    not_empty first others = ground arith

    each-IsTallied :
        (to : List String) (w : MailWorld)
        → IsTallied w (length to) (Service.send_each env subject body id vars category to (0, 0) w)
    each-IsTallied to w =
        let t = each-Run to 0 0 w in
        record {
          sent = t.sent;
          failed = t.failed;
          result = t.result;
          all_of_them = let h = t.all_of_them in omega arith;
          sent_written = let h = t.sent_written in omega arith;
          accepted_at_most = let h = t.at_most in omega arith;
        }

    -- For at least one address, whatever fails on the way, `SendBulkEmail` returns two counts that
    -- add up to the number of addresses. Exactly as many messages were written to the
    -- connection without an error as the first count says, and the mail server accepted at most so
    -- many: Send drops its answer to the text.
    pub send_bulk_email-IsTallied :
        (first : String) (others : List String) (w : MailWorld)
        → IsTallied w
            (length (first ∷ others))
            (Service.send_bulk_email env (first ∷ others) subject body id vars category w)
    unfolding Service.send_bulk_email
    send_bulk_email-IsTallied first others w =
        subst (IsTallied w (length (first ∷ others)))
          (sym (passes _ invalid_input _ w (not_empty first others)))
          (each-IsTallied (first ∷ others) w)
