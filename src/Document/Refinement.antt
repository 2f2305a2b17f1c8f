-- ===== src/Document/Refinement.antt =====
-- Every operation of the service, on every schedule of failures, moves the table of documents by the
-- steps of the abstract life of a document.
use docflow_web.Base.{String, List, [], ◌∷◌}
use docflow_web.Document.Domain.{
  AdvancedFilter, CreateDocumentInput, UpdateDocumentInput, ListFilter, HistoryFilter,
}
use docflow_web.Document.Repository.{DocumentWorld}
use docflow_web.Document.Service
use docflow_web.Document.Service.{DocumentEnv, new_document}
use docflow_web.Document.Lifecycle.{DocumentSteps, here, steps_trans}
use docflow_web.Document.Operations.{
  Lives-create_document, Lives-get_document, Lives-update_document, Lives-delete_document,
  Lives-list_documents, Lives-assign_responsible, Lives-change_status, Lives-archive_document,
  Lives-get_document_history, Lives-filter_documents, Lives-mark_overdue_request,
  Lives-get_document_stats,
}

-- The requests that the service answers, one for each method of `DocumentService` but the export,
-- which reads what a filter request reads.
pub data Request : Type 0 where
  create : CreateDocumentInput → Request
  get : String → Request
  update : UpdateDocumentInput → Request
  delete : String → String → Request
  list : ListFilter → Request
  assign : String → String → String → Request
  change_status : String → String → String → Request
  archive : String → String → Request
  history : HistoryFilter → Request
  search_documents : AdvancedFilter → Request
  mark_overdue : Request
  get_stats : Request

module _ (env : DocumentEnv) where
  abbrev pub respond : Request → DocumentWorld → DocumentWorld
  respond (create i) w = (Service.create_document env i w).1
  respond (get id) w = (Service.get_document env id w).1
  respond (update i) w = (Service.update_document env i w).1
  respond (delete id actor) w = (Service.delete_document env id actor w).1
  respond (list f) w = (Service.list_documents env f w).1
  respond (assign id who actor) w = (Service.assign_responsible env id who actor w).1
  respond (change_status id to actor) w = (Service.change_status env id to actor w).1
  respond (archive id actor) w = (Service.archive_document env id actor w).1
  respond (history f) w = (Service.get_document_history env f w).1
  respond (search_documents f) w = (Service.filter_documents env f w).1
  respond mark_overdue w = (Service.mark_overdue env w).1
  respond get_stats w = (Service.get_document_stats env w).1

  abbrev pub serve : DocumentWorld → List Request → DocumentWorld
  serve w [] = w
  serve w (r ∷ rs) = serve (respond r w) rs

  pub respond-DocumentSteps :
      (r : Request) (w : DocumentWorld) → DocumentSteps w.db.documents (respond r w).db.documents
  respond-DocumentSteps (create i) w = (Lives-create_document env i w).at
  respond-DocumentSteps (get id) w = (Lives-get_document env id w).at
  respond-DocumentSteps (update i) w = (Lives-update_document env i w).at
  respond-DocumentSteps (delete id actor) w = (Lives-delete_document env id actor w).at
  respond-DocumentSteps (list f) w = (Lives-list_documents env f w).at
  respond-DocumentSteps (assign id who actor) w = (Lives-assign_responsible env id who actor w).at
  respond-DocumentSteps (change_status id to actor) w = (Lives-change_status env id to actor w).at
  respond-DocumentSteps (archive id actor) w = (Lives-archive_document env id actor w).at
  respond-DocumentSteps (history f) w = (Lives-get_document_history env f w).at
  respond-DocumentSteps (search_documents f) w = (Lives-filter_documents env f w).at
  respond-DocumentSteps mark_overdue w = (Lives-mark_overdue_request env w).at
  respond-DocumentSteps get_stats w = (Lives-get_document_stats env w).at

  -- Any sequence of requests, each answered or refused, whatever statements fail on the way, takes
  -- the table of documents along steps of the abstract life of a document: drafts are created and
  -- removed, documents that are not archived are edited and assigned, statuses follow the diagram,
  -- archiving writes its time, and late documents become overdue.
  pub serve-DocumentSteps :
      (w : DocumentWorld) (rs : List Request)
      → DocumentSteps w.db.documents (serve w rs).db.documents
  serve-DocumentSteps w [] = here
  serve-DocumentSteps w (r ∷ rs) =
      steps_trans (respond-DocumentSteps r w) (serve-DocumentSteps (respond r w) rs)
