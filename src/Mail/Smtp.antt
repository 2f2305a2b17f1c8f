-- ===== src/Mail/Smtp.antt =====
-- The conversation of `SMTPMailer.Send` in internal/sender/smtp.go. What the server and net/smtp
-- answer to each step is a parameter; Send returns at the first error.
use docflow_web.Base.{String, Bool, ◌&&◌, ◌==◌, Option, none, some, List, [], ◌∷◌, if◌then◌else◌}
use docflow_web.Base.Text.{trim_space}

-- `none` is success. `write` is the error of Write, which may leave the text in a buffer; `answer` is
-- that of Close of the writer, which sends the rest and reads what the server answers to the text.
-- Send drops the error of Close.
pub record Conversation : Type 0 where
  pub connect : Option String
  pub greeting : Option String
  pub offers_tls : Bool
  pub start_tls : Option String
  pub auth : Option String
  pub mail : Option String
  pub rcpt : String → Option String
  pub begin_data : Option String
  pub write : Option String
  pub answer : Option String

abbrev pub or_next : Option String → Option String → Option String
or_next (some e) o = some e
or_next none o = o

abbrev pub step_if : Bool → Option String → Option String
step_if b o = if b then o else none

abbrev pub rcpt_error : Conversation → List String → Option String
rcpt_error c [] = none
rcpt_error c (to ∷ rest) = let later = rcpt_error c rest in or_next (c.rcpt (trim_space to)) later

-- The error that Send returns.
unfoldable pub send_error : Bool → String → Conversation → List String → Option String
send_error use_starttls username c to = or_next c.connect (
    or_next c.greeting (
      or_next (step_if (use_starttls && c.offers_tls) c.start_tls) (
        or_next (if username == "" then none else c.auth)
          (or_next c.mail (or_next (rcpt_error c to) (or_next c.begin_data c.write))))))
