-- ===== src/Document/Refusals.antt =====
-- A request of the document service that is refused with an error of the domain has changed no table.
use docflow_web.Base.{
  ℕ, String, ◌≡◌, refl, Bool, Option, some, List, [], ◌∷◌, ◌==◌, Bool-cases, inl, inr,
}
use docflow_web.Base.Exec.{cause_of, wrap_state}
use docflow_web.Base.Paging.{Window}
use docflow_web.Base.Refusals.{
  Plain, Clean, Quiet, Clean-of_Quiet, Clean-of_Plain, Plain-pure, Plain-wrap, Plain-label,
  Clean-wrap, Clean-label, Quiet-pure, Quiet-wrap, Quiet-label, Plain-if, Plain-ignore, Plain-bind,
  Clean-bind, Clean-write, Quiet-bind, Clean-fail_if,
}
use docflow_web.Base.Statements.{Quiet-statement, Plain-statement, Clean-statement}
use docflow_web.Document.Domain.{
  DocumentError, Document, CreateDocumentInput, UpdateDocumentInput, status_draft, status_archived,
}
use docflow_web.Document.Repository
use docflow_web.Document.Repository.{
  DocumentDb, DocumentWorld, App, find_document, affect, insert_row, insert_entry,
}
use docflow_web.Document.Service
use docflow_web.Document.Service.{DocumentEnv}
use docflow_web.Document.Effects.{get_by_id-found}
use docflow_web.Document.Writes.{IsStill, set_responsible-IsStill, record_history-same}
use docflow_web.Document.Refinement.{
  Request, create, get, update, delete, assign, change_status, history, search_documents, list,
  archive, mark_overdue, get_stats, respond,
}
use docflow_web.Document.Silence.{
  affect-same, insert_row-plain, Clean-set_responsible, Quiet-get, Plain-history, Plain-notify,
  Plain-calendar, Plain-when_some, Plain-report,
}

module _ (env : DocumentEnv) where
  open env use {pg}

  -- The error of the domain that a request is refused with.
  abbrev pub refusal : Request → DocumentWorld → Option DocumentError
  refusal (create i) w = cause_of (Service.create_document env i w).0
  refusal (get id) w = cause_of (Service.get_document env id w).0
  refusal (update i) w = cause_of (Service.update_document env i w).0
  refusal (delete id actor) w = cause_of (Service.delete_document env id actor w).0
  refusal (list f) w = cause_of (Service.list_documents env f w).0
  refusal (assign id who actor) w = cause_of (Service.assign_responsible env id who actor w).0
  refusal (archive id actor) w = cause_of (Service.archive_document env id actor w).0
  refusal (change_status id to actor) w = cause_of (Service.change_status env id to actor w).0
  refusal (history f) w = cause_of (Service.get_document_history env f w).0
  refusal (search_documents f) w = cause_of (Service.filter_documents env f w).0
  refusal mark_overdue w = cause_of (Service.mark_overdue env w).0
  refusal get_stats w = cause_of (Service.get_document_stats env w).0

  Clean-create_document :
      (i : CreateDocumentInput) (w : DocumentWorld) → Clean (Service.create_document env i) w
  unfolding Service.create_document Repository.create
  Clean-create_document i w =
      Clean-bind _ _ w (record { at = refl })
        λ j valid.
          Clean-write _ _ w
            (Clean-of_Plain _ w (
              Plain-wrap _ _ w
                (Plain-wrap _ _ w (Plain-statement pg _ w (insert_row-plain _ _ w.db)))))
            λ t _. Plain-bind _ _ _ (Plain-history env _ _) λ _ _.
              Plain-bind _ _ _ (Plain-notify env t _ _ _ _) λ _ _.
                Plain-bind _ _ _
                  (Plain-when_some env t.deadline _ _ (Plain-calendar env t "document_due" _))
                  λ _ _. Plain-pure t _

  Clean-update_document :
      (i : UpdateDocumentInput) (w : DocumentWorld) → Clean (Service.update_document env i) w
  unfolding Service.update_document Repository.update
  Clean-update_document i w =
      Clean-bind _ _ w (record { at = refl })
        λ j valid. Clean-bind _ _ w (Quiet-get env j.id w) λ t found. Clean-fail_if _ _ _ _ λ alive.
          Clean-write _ _ _
            (Clean-wrap _ _ _ (Clean-label _ _ _ (Clean-statement pg _ _ (affect-same _ _ _ _))))
            λ saved _. Plain-bind _ _ _ (Plain-history env _ _) λ _ _.
              Plain-bind _ _ _
                (Plain-when_some env j.deadline _ _ (Plain-calendar env saved "document_due" _))
                λ _ _. Plain-pure saved _

  Clean-delete_document :
      (id actor : String) (w : DocumentWorld) → Clean (Service.delete_document env id actor) w
  unfolding Service.delete_document Repository.delete
  Clean-delete_document id actor w = Clean-fail_if _ _ _ w λ _.
      Clean-bind _ _ w (Quiet-get env id w) λ t found.
        Clean-fail_if _ _ _ _
          λ is_open. Clean-label _ _ _ (Clean-statement pg _ _ (affect-same _ _ _ _))

  -- After its first write the document is there for the second.
  Plain-leave_draft :
      (id actor : String) (t : Document) (w : DocumentWorld)
      → IsStill id t w.db.documents
      → Plain (Service.leave_draft env id actor t) w
  unfolding Repository.update_status
  Plain-leave_draft id actor t w (old, e, same) =
      Plain-if (t.status == status_draft) _ _ w
        (Plain-bind _ _ w
          (Plain-wrap _ _ w (Plain-label _ _ w (Plain-statement pg _ w (rw e refl))))
          λ _ _. Plain-bind _ _ _ (Plain-history env _ _) λ _ _. Plain-pure _ _)
        (Plain-pure t w)

  Clean-assign_responsible :
      (id who actor : String) (w : DocumentWorld)
      → Clean (Service.assign_responsible env id who actor) w
  unfolding Service.assign_responsible
  Clean-assign_responsible id who actor w = Clean-fail_if _ _ _ w λ _.
      Clean-bind _ _ w (Quiet-get env id w) λ t found. Clean-fail_if _ _ _ _ λ alive.
        Clean-write _ _ _ (Clean-wrap _ _ _ (Clean-set_responsible env id who _)) λ _ _.
          Plain-bind _ _ _ (Plain-history env _ _) λ _ _.
            Plain-bind _ _ _
              (Plain-leave_draft id actor _ _ (
                rw (record_history-same, wrap_state)
                  (set_responsible-IsStill pg id who _ (get_by_id-found pg id w found))))
              λ t' _. Plain-bind _ _ _ (Plain-notify env t' _ _ _ _) λ _ _. Plain-pure t' _

  Clean-write_status :
      (id to : String) (t : Document) (w : DocumentWorld)
      → Clean (Service.write_status env id to t) w
  unfolding Repository.update_status Repository.archive
  Clean-write_status id to t w = elim (Bool-cases (to == status_archived)) [
    | inl e ↦ rw e (
        Clean-write _ _ w
          (Clean-wrap _ _ w (Clean-label _ _ w (Clean-statement pg _ w (affect-same _ _ _ _))))
          λ _ _. Plain-bind _ _ _ (record { at = refl }) λ now _. Plain-pure _ _)
    | inr e ↦ rw e (
        Clean-write _ _ w
          (Clean-wrap _ _ w (Clean-label _ _ w (Clean-statement pg _ w (affect-same _ _ _ _))))
          λ _ _. Plain-pure _ _)
  ]

  Clean-change_status :
      (id to actor : String) (w : DocumentWorld) → Clean (Service.change_status env id to actor) w
  unfolding Service.change_status
  Clean-change_status id to actor w = Clean-fail_if _ _ _ w λ _. Clean-fail_if _ _ _ w λ _.
      Clean-bind _ _ w (Quiet-get env id w) λ t found. Clean-fail_if _ _ _ _ λ allowed.
        Clean-write _ _ _ (Clean-write_status id to t _)
          λ t' _. Plain-report env _ (Service.clear_overdue to t') _ _ _ _ _

  Clean-archive_found :
      (id actor : String) (t : Document) (w : DocumentWorld)
      → Clean (Service.archive_found env id actor t) w
  unfolding Repository.archive
  Clean-archive_found id actor t w = Clean-fail_if _ _ _ w λ _.
      Clean-write _ _ w
        (Clean-wrap _ _ w (Clean-label _ _ w (Clean-statement pg _ w (affect-same _ _ _ _))))
        λ _ _.
          Plain-bind _ _ _ (record { at = refl })
            λ now _. Plain-bind _ _ _ (Plain-history env _ _) λ _ _. Plain-pure _ _

  Clean-archive_document :
      (id actor : String) (w : DocumentWorld) → Clean (Service.archive_document env id actor) w
  unfolding Service.archive_document
  Clean-archive_document id actor w = Clean-fail_if _ _ _ w λ _.
      Clean-bind _ _ w (Quiet-get env id w) λ t found.
        elim (Bool-cases (t.status == status_archived)) [
          | inl e ↦ rw e (Clean-of_Plain _ _ (Plain-pure t _))
          | inr e ↦ rw e (Clean-archive_found id actor t _)
        ]

  Quiet-list :
      {R : Type 0} (count_msg list_msg : String) (table : DocumentDb → List R)
      (order : ℕ → List R → List R) (p : R → Bool) (f : Window) (w : DocumentWorld)
      → Quiet (Repository.list_where pg count_msg list_msg table order p f) w
  Quiet-list count_msg list_msg table order p f w =
      Quiet-bind _ _ w (Quiet-wrap _ _ w (Quiet-statement pg _ w refl)) λ total.
        Quiet-bind _ _ _ (Quiet-wrap _ _ _ (Quiet-statement pg _ _ refl)) λ rows. Quiet-pure _ _

  Plain-report_all : (ts : List Document) (w : DocumentWorld) → Plain (Service.report_all env ts) w
  unfolding Service.report_all
  Plain-report_all [] w = Plain-pure tt w
  Plain-report_all (t ∷ ts) w =
      Plain-bind _ _ w
        (Plain-bind _ _ w (record { at = Plain-ignore _ w }) λ _ _. Plain-notify env _ _ _ _ _)
        λ _ _. Plain-report_all ts _

  Plain-mark_found : (ts : List Document) (w : DocumentWorld) → Plain (Service.mark_found env ts) w
  unfolding Repository.mark_overdue_by_ids
  Plain-mark_found [] w = Plain-pure [] w
  Plain-mark_found (t ∷ ts) w =
      Plain-bind _ _ w (Plain-wrap _ _ w (Plain-wrap _ _ w (Plain-statement pg _ w refl)))
        λ _ _. Plain-bind _ _ _ (Plain-report_all (t ∷ ts) _) λ _ _. Plain-pure _ _

  Clean-mark_overdue : (w : DocumentWorld) → Clean (Service.mark_overdue env) w
  unfolding Service.mark_overdue Repository.find_overdue
  Clean-mark_overdue w =
      Clean-bind _ _ w (Quiet-wrap _ _ w (Quiet-label _ _ w (Quiet-statement pg _ w refl)))
        λ ts _. Clean-of_Plain _ _ (Plain-mark_found ts _)

  -- A request that is refused with an error of the domain (not found, invalid input, invalid
  -- transition, forbidden), at whatever point, leaves the tables as they were; this holds of
  -- `AssignResponsible` too, which writes a draft twice.
  pub respond_documents-refused :
      (r : Request) (w : DocumentWorld) (s : DocumentError)
      → refusal r w ≡ some s
      → (respond env r w).db ≡ w.db
  unfolding Service.get_document Service.list_documents Service.get_document_history
      Service.filter_documents Service.get_document_stats Repository.list Repository.list_history
      Repository.filter Repository.stats
  respond_documents-refused (create i) w s e = (Clean-create_document i w).at s e
  respond_documents-refused (get id) w s e =
      (Clean-fail_if _ _ _ w (λ _. Clean-of_Quiet _ w (Quiet-get env id w))).at s e
  respond_documents-refused (update i) w s e = (Clean-update_document i w).at s e
  respond_documents-refused (delete id actor) w s e = (Clean-delete_document id actor w).at s e
  respond_documents-refused (list f) w s e =
      (Quiet-list _ _ (λ d. d.documents) env.newest_first _ _ w).at
  respond_documents-refused (assign id who actor) w s e =
      (Clean-assign_responsible id who actor w).at s e
  respond_documents-refused (change_status id to actor) w s e =
      (Clean-change_status id to actor w).at s e
  respond_documents-refused (archive id actor) w s e = (Clean-archive_document id actor w).at s e
  respond_documents-refused (history f) w s e =
      (Clean-fail_if _ _ _ w
          (λ _. Clean-of_Quiet _ w (Quiet-list _ _ (λ d. d.history) env.latest_first _ _ w))).at
        s e
  respond_documents-refused (search_documents f) w s e =
      (Quiet-list _ _ (λ d. d.documents) env.newest_first _ _ w).at
  respond_documents-refused mark_overdue w s e = (Clean-mark_overdue w).at s e
  respond_documents-refused get_stats w s e = (Quiet-label _ _ w (Quiet-statement pg _ w refl)).at
