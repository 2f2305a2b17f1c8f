-- ===== src/Document/Domain.antt =====
-- services/document-service/internal/domain/document.go. Statuses and types are strings, as in the
-- source; an instant is a number, 0 for the zero value of `time.Time`; a pointer is an `Option`.
use docflow_web.Base.{
  ℕ, String, Bool, false, ◌||◌, not, Option, none, some, List, [], ◌∷◌, ◌==◌, elem, lookup,
  if◌then◌else◌,
}
use docflow_web.Base.Text.{trim_space}
use docflow_web.Base.Paging.{ℤ}
use docflow_web.Base.Exec.{Result, ok, err, sentinel}

pub data DocumentError : Type 0 where
  document_not_found invalid_input invalid_transition forbidden : DocumentError

abbrev pub status_draft : String
status_draft = "draft"

abbrev pub status_assigned : String
status_assigned = "assigned"

abbrev pub status_in_progress : String
status_in_progress = "in_progress"

abbrev pub status_completed : String
status_completed = "completed"

abbrev pub status_overdue : String
status_overdue = "overdue"

abbrev pub status_archived : String
status_archived = "archived"

unfoldable pub status_valid : String → Bool
status_valid s =
    s == status_draft
    || s == status_assigned
    || s == status_in_progress
    || s == status_completed
    || s == status_overdue
    || s == status_archived

abbrev pub type_other : String
type_other = "other"

unfoldable pub type_valid : String → Bool
type_valid t =
    t == "contract"
    || t == "invoice"
    || t == "report"
    || t == "memo"
    || t == "order"
    || t == type_other

abbrev pub allowed_transitions : List (String × List String)
allowed_transitions =
    (status_draft, status_assigned ∷ status_archived ∷ [])
    ∷ (status_assigned, status_in_progress ∷ status_overdue ∷ status_archived ∷ [])
    ∷ (status_in_progress, status_completed ∷ status_overdue ∷ status_archived ∷ [])
    ∷ (status_completed, status_archived ∷ [])
    ∷ (status_overdue, status_in_progress ∷ status_archived ∷ [])
    ∷ (status_archived, [])
    ∷ []

abbrev among : String → Option (List String) → Bool
among to none = false
among to (some next) = elem to next

unfoldable pub can_transition : String → String → Bool
can_transition from to = if from == to then false else among to (lookup from allowed_transitions)

pub record Document : Type 0 where
  pub id : String
  pub title : String
  pub description : String
  pub doc_type : String
  pub status : String
  pub creator_id : String
  pub responsible_id : Option String
  pub deadline : Option ℕ
  pub file_url : String
  pub tags : List String
  pub is_overdue : Bool
  pub created_at : ℕ
  pub updated_at : ℕ
  pub archived_at : Option ℕ

pub record HistoryEntry : Type 0 where
  pub id : String
  pub document_id : String
  pub changed_by : String
  pub field : String
  pub old_value : String
  pub new_value : String
  pub changed_at : ℕ

pub record CreateDocumentInput : Type 0 where
  pub title : String
  pub description : String
  pub doc_type : String
  pub creator_id : String
  pub responsible_id : Option String
  pub deadline : Option ℕ
  pub file_url : String
  pub tags : List String

-- What `Validate` trims, and the default that it fills in.
abbrev pub normal_create : CreateDocumentInput → CreateDocumentInput
normal_create i = record i {
  title = trim_space i.title;
  description = trim_space i.description;
  file_url = trim_space i.file_url;
  doc_type = if i.doc_type == "" then type_other else i.doc_type;
}

-- `CreateDocumentInput.Validate`, with the input as the method leaves it.
unfoldable pub validate_create : CreateDocumentInput → Result DocumentError CreateDocumentInput
unfolding type_valid
validate_create i =
    let j = normal_create i in
    if j.title == ""
    then err (sentinel invalid_input)
    else if j.creator_id == ""
    then err (sentinel invalid_input)
    else if not (type_valid j.doc_type)
    then err (sentinel invalid_input)
    else ok j

pub record UpdateDocumentInput : Type 0 where
  pub id : String
  pub title : Option String
  pub description : Option String
  pub doc_type : Option String
  pub deadline : Option ℕ
  pub file_url : Option String
  pub tags : List String
  pub actor_id : String

abbrev pub bad_title : Option String → Bool
bad_title none = false
bad_title (some t) = trim_space t == ""

abbrev pub bad_type : Option String → Bool
bad_type none = false
bad_type (some t) = not (type_valid t)

abbrev pub trim_option : Option String → Option String
trim_option none = none
trim_option (some t) = some (trim_space t)

-- `UpdateDocumentInput.Validate`, with the input as the method leaves it.
unfoldable pub validate_update : UpdateDocumentInput → Result DocumentError UpdateDocumentInput
unfolding type_valid
validate_update i =
    if i.id == "" || i.actor_id == ""
    then err (sentinel invalid_input)
    else if bad_title i.title
    then err (sentinel invalid_input)
    else if bad_type i.doc_type
    then err (sentinel invalid_input)
    else ok (record i { title = trim_option i.title })

pub record ListFilter : Type 0 where
  pub page : ℤ
  pub page_size : ℤ
  pub creator_id : String
  pub responsible_id : String

pub record AdvancedFilter : Type 0 where
  pub status : String
  pub doc_type : String
  pub responsible_id : String
  pub creator_id : String
  pub deadline_from : Option ℕ
  pub deadline_to : Option ℕ
  pub page : ℤ
  pub page_size : ℤ

pub record DocumentStats : Type 0 where
  pub total : ℕ
  pub draft : ℕ
  pub assigned : ℕ
  pub in_progress : ℕ
  pub completed : ℕ
  pub overdue : ℕ
  pub archived : ℕ

pub record HistoryFilter : Type 0 where
  pub document_id : String
  pub page : ℤ
  pub page_size : ℤ
