-- ===== src/Calendar/Domain.antt =====
-- services/calendar-service/internal/domain/event.go. An instant is a number, 0 for the zero value
-- of `time.Time`; a pointer is an `Option`.
use docflow_web.Base.{
  ℕ, String, Bool, false, ◌||◌, not, Option, none, some, ◌==◌, if◌then◌else◌, ltb, nat_eq,
}
use docflow_web.Base.Text.{trim_space}
use docflow_web.Base.Exec.{Result, ok, err, sentinel}

pub data EventError : Type 0 where
  event_not_found invalid_input forbidden : EventError

abbrev pub type_reminder : String
type_reminder = "reminder"

unfoldable pub type_valid : String → Bool
type_valid t = t == "deadline" || t == "task" || t == "meeting" || t == type_reminder

pub record Event : Type 0 where
  pub id : String
  pub user_id : String
  pub title : String
  pub description : String
  pub event_type : String
  pub ref_id : String
  pub ref_type : String
  pub start_time : ℕ
  pub end_time : ℕ
  pub created_at : ℕ
  pub updated_at : ℕ

pub record CreateEventInput : Type 0 where
  pub title : String
  pub description : String
  pub event_type : String
  pub user_id : String
  pub ref_id : String
  pub ref_type : String
  pub start_time : ℕ
  pub end_time : ℕ

-- The input with its texts trimmed, the default type, and the end that is left out.
abbrev pub normal_create : CreateEventInput → CreateEventInput
normal_create i = record i {
  title = trim_space i.title;
  description = trim_space i.description;
  ref_id = trim_space i.ref_id;
  ref_type = trim_space i.ref_type;
  event_type = if i.event_type == "" then type_reminder else i.event_type;
  end_time = if nat_eq i.end_time 0 then i.start_time else i.end_time;
}

-- `CreateEventInput.Validate`, with the input as the method leaves it.
unfoldable pub validate_create : CreateEventInput → Result EventError CreateEventInput
unfolding type_valid
validate_create i =
    let j = normal_create i in
    if j.title == "" || j.user_id == ""
    then err (sentinel invalid_input)
    else if not (type_valid j.event_type)
    then err (sentinel invalid_input)
    else if nat_eq j.start_time 0
    then err (sentinel invalid_input)
    else if ltb j.end_time j.start_time
    then err (sentinel invalid_input)
    else ok j

pub record UpdateEventInput : Type 0 where
  pub id : String
  pub title : Option String
  pub description : Option String
  pub start_time : Option ℕ
  pub end_time : Option ℕ
  pub updated_by : String

abbrev pub bad_title : Option String → Bool
bad_title none = false
bad_title (some t) = trim_space t == ""

abbrev pub trim_option : Option String → Option String
trim_option none = none
trim_option (some t) = some (trim_space t)

-- Both times are given, and the end is before the start.
abbrev pub unordered : Option ℕ → Option ℕ → Bool
unordered (some from) (some to) = ltb to from
unordered _ _ = false

-- `UpdateEventInput.Validate`, with the input as the method leaves it.
unfoldable pub validate_update : UpdateEventInput → Result EventError UpdateEventInput
validate_update i =
    if i.id == "" || i.updated_by == ""
    then err (sentinel invalid_input)
    else if bad_title i.title
    then err (sentinel invalid_input)
    else if unordered i.start_time i.end_time
    then err (sentinel invalid_input)
    else ok (record i { title = trim_option i.title })

pub record EventStats : Type 0 where
  pub total : ℕ
  pub deadlines : ℕ
  pub tasks : ℕ
  pub meetings : ℕ
  pub reminders : ℕ
