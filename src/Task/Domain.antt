-- ===== src/Task/Domain.antt =====
-- services/task-service/internal/domain/task.go. Statuses and priorities are strings, as in the
-- source; an instant is a number, 0 for the zero value of `time.Time`; a pointer is an `Option`.
use docflow_web.Base.{
  ℕ, String, Bool, false, ◌||◌, not, Option, none, some, List, [], ◌∷◌, ◌==◌, elem, lookup,
  if◌then◌else◌,
}
use docflow_web.Base.Text.{trim_space}
use docflow_web.Base.Paging.{ℤ}
use docflow_web.Base.Exec.{Result, ok, err, sentinel}

pub data TaskError : Type 0 where
  task_not_found invalid_input invalid_transition forbidden : TaskError

abbrev pub status_open : String
status_open = "open"

abbrev pub status_in_progress : String
status_in_progress = "in_progress"

abbrev pub status_done : String
status_done = "done"

abbrev pub status_overdue : String
status_overdue = "overdue"

unfoldable pub status_valid : String → Bool
status_valid s =
    s == status_open || s == status_in_progress || s == status_done || s == status_overdue

abbrev pub priority_medium : String
priority_medium = "medium"

unfoldable pub priority_valid : String → Bool
priority_valid p = p == "low" || p == priority_medium || p == "high" || p == "critical"

abbrev pub allowed_transitions : List (String × List String)
allowed_transitions =
    (status_open, status_in_progress ∷ status_overdue ∷ [])
    ∷ (status_in_progress, status_done ∷ status_overdue ∷ [])
    ∷ (status_done, [])
    ∷ (status_overdue, status_in_progress ∷ status_done ∷ [])
    ∷ []

abbrev among : String → Option (List String) → Bool
among to none = false
among to (some next) = elem to next

unfoldable pub can_transition : String → String → Bool
can_transition from to = if from == to then false else among to (lookup from allowed_transitions)

pub record Task : Type 0 where
  pub id : String
  pub title : String
  pub description : String
  pub document_id : String
  pub assignee_id : Option String
  pub creator_id : String
  pub status : String
  pub priority : String
  pub deadline : Option ℕ
  pub created_at : ℕ
  pub updated_at : ℕ

pub record HistoryEntry : Type 0 where
  pub id : String
  pub task_id : String
  pub changed_by : String
  pub field : String
  pub old_value : String
  pub new_value : String
  pub changed_at : ℕ

pub record CreateTaskInput : Type 0 where
  pub title : String
  pub description : String
  pub document_id : String
  pub creator_id : String
  pub priority : String
  pub deadline : Option ℕ

-- The first lines of `Validate`, and the default that it fills in.
abbrev pub normal_create : CreateTaskInput → CreateTaskInput
normal_create i = record {
  title = trim_space i.title;
  description = trim_space i.description;
  document_id = i.document_id;
  creator_id = i.creator_id;
  priority = if i.priority == "" then priority_medium else i.priority;
  deadline = i.deadline;
}

-- `CreateTaskInput.Validate`, with the input as the method leaves it.
unfoldable pub validate_create : CreateTaskInput → Result TaskError CreateTaskInput
unfolding priority_valid
validate_create i =
    let j = normal_create i in
    if j.title == "" || j.document_id == "" || j.creator_id == ""
    then err (sentinel invalid_input)
    else if not (priority_valid j.priority)
    then err (sentinel invalid_input)
    else ok j

pub record UpdateTaskInput : Type 0 where
  pub id : String
  pub title : Option String
  pub description : Option String
  pub priority : Option String
  pub deadline : Option ℕ
  pub actor_id : String

abbrev pub bad_title : Option String → Bool
bad_title none = false
bad_title (some t) = trim_space t == ""

abbrev pub bad_priority : Option String → Bool
bad_priority none = false
bad_priority (some p) = not (priority_valid p)

abbrev pub trim_option : Option String → Option String
trim_option none = none
trim_option (some t) = some (trim_space t)

-- `UpdateTaskInput.Validate`, with the input as the method leaves it.
unfoldable pub validate_update : UpdateTaskInput → Result TaskError UpdateTaskInput
unfolding priority_valid
validate_update i =
    if i.id == "" || i.actor_id == ""
    then err (sentinel invalid_input)
    else if bad_title i.title
    then err (sentinel invalid_input)
    else if bad_priority i.priority
    then err (sentinel invalid_input)
    else ok (record i { title = trim_option i.title })

pub record ListFilter : Type 0 where
  pub page : ℤ
  pub page_size : ℤ

pub record AdvancedFilter : Type 0 where
  pub status : String
  pub priority : String
  pub assignee_id : String
  pub document_id : String
  pub deadline_from : Option ℕ
  pub deadline_to : Option ℕ
  pub page : ℤ
  pub page_size : ℤ

pub record TaskStats : Type 0 where
  pub total : ℕ
  pub open_count : ℕ
  pub in_progress : ℕ
  pub done : ℕ
  pub overdue : ℕ
