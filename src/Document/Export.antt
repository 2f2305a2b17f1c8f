-- ===== src/Document/Export.antt =====
-- `ExportDocumentsCSV` of document_service.go. `rfc3339` is `time.Time.Format(time.RFC3339)`; the
-- writer writes to a buffer, so its error is always nil.
use docflow_web.Base.{ℕ, String, Bool, true, false, Option, none, some, List, [], ◌∷◌, map, length}
use docflow_web.Base.Exec.{pure, wrap, ◌>>=◌}
use docflow_web.Document.Domain.{Document, AdvancedFilter}
use docflow_web.Document.Repository
use docflow_web.Document.Repository.{DocumentWorld, App, conditions}
use docflow_web.Document.Service.{DocumentEnv, or_empty}
use docflow_web.Document.Csv.{write_rows}

abbrev pub header_after_id : List String
header_after_id =
    "title" ∷ "description" ∷ "type" ∷ "status" ∷ "creator_id" ∷ "responsible_id" ∷ "deadline"
    ∷ "is_overdue" ∷ "created_at" ∷ "updated_at" ∷ []

abbrev pub csv_header : List String
csv_header = "id" ∷ header_after_id

-- The verb %t.
abbrev pub format_bool : Bool → String
format_bool true = "true"
format_bool false = "false"

module _ (env : DocumentEnv) (rfc3339 : ℕ → String) where
  open env use {pg}

  abbrev pub deadline_text : Option ℕ → String
  deadline_text none = ""
  deadline_text (some d) = rfc3339 d

  -- A row without its first field, the id.
  abbrev pub fields_after_id : Document → List String
  fields_after_id t =
      t.title
      ∷ t.description
      ∷ t.doc_type
      ∷ t.status
      ∷ t.creator_id
      ∷ or_empty t.responsible_id
      ∷ deadline_text t.deadline
      ∷ format_bool t.is_overdue
      ∷ rfc3339 t.created_at
      ∷ rfc3339 t.updated_at
      ∷ []

  abbrev pub csv_row : Document → List String
  csv_row t = t.id ∷ fields_after_id t

  -- The filter's own page and size are overwritten, and not normalised.
  unfoldable pub export_documents_csv : AdvancedFilter → App (String × ℕ)
  export_documents_csv f = do
    page ←
        wrap "filter documents for export"
          (Repository.filter pg env.newest_first f (record { page = 1; page_size = 10000 }))
    pure (write_rows (csv_header ∷ map csv_row page.0), length page.0)
