-- ===== src/Mail/Domain.antt =====
-- services/mail-service/internal/domain/mail.go and the templates of internal/service/templates.go.
use Prim.Native.String
use Prim.Native.Nat.{zero, suc}
use docflow_web.Base.{
  ℕ, String, Bool, true, ◌==◌, Option, none, some, List, [], ◌∷◌, if◌then◌else◌, elem, nat_eq, ◌+◌,
}
use docflow_web.Base.Paging.{ℤ, pos, negsuc}
use docflow_web.Base.Text.{trim_space}
use docflow_web.Base.Unicode.{Unicode, to_lower}

-- `nil_dereference` is no sentinel of the source but a run-time panic, which ends the process: like
-- an error it is passed on by every caller.
pub data MailError : Type 0 where
  not_found invalid_input nil_dereference : MailError

abbrev pub status_queued : String
status_queued = "queued"

abbrev pub status_processing : String
status_processing = "processing"

abbrev pub status_sent : String
status_sent = "sent"

abbrev pub status_failed : String
status_failed = "failed"

abbrev pub statuses : List String
statuses =
    status_queued ∷ status_processing ∷ status_sent ∷ status_failed ∷ "bounced" ∷ "cancelled" ∷ []

abbrev pub category_system : String
category_system = "system"

abbrev pub categories : List String
categories =
    "document_assigned" ∷ "status_changed" ∷ "deadline_reminder" ∷ "overdue" ∷ "task_assigned"
    ∷ "mention" ∷ "password_reset" ∷ "verification" ∷ category_system ∷ []

pub record MailJob : Type 0 where
  pub id : String
  pub job_id : String
  pub notification_id : String
  pub user_id : String
  pub recipient : List String
  pub template_id : String
  pub subject : String
  pub body : String
  pub variables : List (String × String)
  pub category : String
  pub status : String
  pub attempts : ℤ
  pub max_attempts : ℤ
  pub last_error : String
  pub queued_at : ℕ
  pub processed_at : Option ℕ
  pub sent_at : Option ℕ
  pub failed_at : Option ℕ
  pub created_at : ℕ
  pub updated_at : ℕ

-- `created_at` and `updated_at` are `none` where Go's time is zero.
pub record MailTemplate : Type 0 where
  pub template_id : String
  pub subject : String
  pub body_template : String
  pub channel : String
  pub is_active : Bool
  pub created_at : Option ℕ
  pub updated_at : Option ℕ

pub record SmtpMessage : Type 0 where
  pub sender : String
  pub to : List String
  pub subject : String
  pub html : String
  pub text : String

-- `attempts + 1` on an int32
abbrev pub next_attempt : ℤ → ℤ
next_attempt (pos n) = if nat_eq n 2147483647 then negsuc 2147483647 else pos (n + 1)
next_attempt (negsuc zero) = pos 0
next_attempt (negsuc (suc n)) = negsuc n

infixr 65 ◌<>◌
abbrev pub ◌<>◌ : String → String → String
a <> b = String.◌++◌ a b

-- A switch whose every branch returns the value that it tests.
abbrev pub one_of : List String → String → String → String
one_of names otherwise s = if elem s names then s else otherwise

-- `NormalizeCategory`
abbrev pub normalize_category : Unicode → String → String
normalize_category u raw = one_of categories category_system (to_lower u (trim_space raw))

-- `NormalizeStatus`
abbrev pub normalize_status : Unicode → String → String
normalize_status u raw = one_of statuses status_queued (to_lower u (trim_space raw))

-- `MailTemplate{...}` of the file templates.go
abbrev pub mail_template : String → String → String → MailTemplate
mail_template id subject body = record {
  template_id = id;
  subject = subject;
  body_template = body;
  channel = "email";
  is_active = true;
  created_at = none;
  updated_at = none;
}

abbrev pub default_templates : List MailTemplate
default_templates =
    mail_template "verification" "Please verify your email"
      "<html><body><h3>Hello</h3><p>Please verify your email by clicking this link: {{.VerificationLink}}</p></body></html>"
    ∷ mail_template "password_reset" "Password reset request"
        "<html><body><h3>Hello</h3><p>Reset your password using this link: {{.ResetLink}}</p></body></html>"
    ∷ mail_template category_system "System notification"
        "<html><body><h3>Notification</h3><p>{{.Title}}</p><p>{{.Body}}</p></body></html>"
    ∷ []

unfoldable pub template_with_id : String → List MailTemplate → Option MailTemplate
template_with_id id [] = none
template_with_id id (t ∷ ts) = if t.template_id == id then some t else template_with_id id ts

-- `defaultTemplateByID`
abbrev pub default_template_by_id : String → Option MailTemplate
default_template_by_id id = template_with_id (trim_space id) default_templates

abbrev pub template_or : MailTemplate → Option MailTemplate → MailTemplate
template_or t none = t
template_or t (some r) = r

-- `mailTemplateForCategory`
abbrev pub mail_template_for_category : String → MailTemplate
mail_template_for_category category =
    template_or
      (mail_template category ("Notification: " <> category)
        "<html><body><p>{{.Title}}</p><p>{{.Body}}</p></body></html>")
      (template_with_id category default_templates)
