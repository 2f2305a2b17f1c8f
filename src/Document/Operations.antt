-- ===== src/Document/Operations.antt =====
-- Each method of document_service.go moves the table of documents along the abstract steps.
use docflow_web.Base.{
  ℕ, String, ◌≡◌, refl, some, List, [], ◌∷◌, eq_of_not, ne_of_eq_false, ◌==◌, ◌∙◌, eq_iff,
  Bool-cases, inl, inr,
}
use mathlib.Core.Path.{subst}
use docflow_web.Base.Exec.{ok_of_wrap, wrap_state}
use docflow_web.Base.Table.{select}
use docflow_web.Base.Moves.{
  Moves-wrap, Moves-label, Moves-pure, Moves-bind, Moves-fail_if, Moves-ignore, Moves-if,
}
use docflow_web.Base.Statements.{Moves-query}
use docflow_web.Document.Domain.{
  Document, AdvancedFilter, CreateDocumentInput, UpdateDocumentInput, ListFilter, HistoryFilter,
  status_draft, status_assigned, status_archived,
}
use docflow_web.Document.Repository
use docflow_web.Document.Repository.{
  DocumentDb, DocumentWorld, with_responsible, App, document_key, find_document, is_late,
}
use docflow_web.Document.Service
use docflow_web.Document.Service.{DocumentEnv, new_document}
use docflow_web.Document.Lifecycle.{Edge, assign, Edge_of_can_transition, here}
use docflow_web.Document.Effects.{
  Lives, Lives-get_by_id, get_by_id-found, Lives-create_entry, Lives-create, Lives-update,
  Lives-set_responsible, Lives-update_status, Lives-delete, Lives-find_overdue, find_overdue-found,
  Lives-mark_overdue, Lives-archive,
}
use docflow_web.Document.Validation.{
  validate_create-IsNew, apply_update-IsSound, not-false, same_key,
}
use docflow_web.Document.Writes.{
  Lives-notify_document_event, Lives-create_calendar_event, Lives-when_some, record_history-same,
  Lives-record_history, Lives-list, set_responsible-IsStill, IsStill,
}

module _ (env : DocumentEnv) where
  open env use {pg}

  pub Lives-create_document :
      (i : CreateDocumentInput) (w : DocumentWorld) → Lives (Service.create_document env i) w
  unfolding Service.create_document
  Lives-create_document i w =
      Moves-bind _ _ _ w (record { at = here })
        λ j valid.
          Moves-bind _ _ _ w
            (Moves-wrap _ _ _ w
              (Lives-create pg (new_document j) w (validate_create-IsNew i j valid)))
            λ t _. Moves-bind _ _ _ _ (Lives-record_history env _ _) λ _ _.
              Moves-bind _ _ _ _ (Lives-notify_document_event env t _ _ _ _) λ _ _.
                Moves-bind _ _ _ _
                  (Lives-when_some env t.deadline _ _
                    (Lives-create_calendar_event env t "document_due" _))
                  λ _ _. Moves-pure _ t _

  pub Lives-update_document :
      (i : UpdateDocumentInput) (w : DocumentWorld) → Lives (Service.update_document env i) w
  unfolding Service.update_document Service.apply_update
  Lives-update_document i w =
      Moves-bind _ _ _ w (record { at = here })
        λ j valid. Moves-bind _ _ _ w (Lives-get_by_id pg j.id w) λ t found.
          Moves-fail_if _ _ _ _ _ λ alive.
            Moves-bind _ _ _ _
              (Moves-wrap _ _ _ _ (
                Lives-update pg (Service.apply_update j t) _
                  (same_key _ _ (get_by_id-found pg j.id w found)) (ne_of_eq_false _ _ alive)
                  (apply_update-IsSound i j t valid)))
              λ saved _. Moves-bind _ _ _ _ (Lives-record_history env _ _) λ _ _.
                Moves-bind _ _ _ _
                  (Lives-when_some env j.deadline _ _
                    (Lives-create_calendar_event env saved "document_due" _))
                  λ _ _. Moves-pure _ saved _

  pub Lives-delete_document :
      (id actor : String) (w : DocumentWorld) → Lives (Service.delete_document env id actor) w
  unfolding Service.delete_document
  Lives-delete_document id actor w = Moves-fail_if _ _ _ _ w λ _.
      Moves-bind _ _ _ w (Lives-get_by_id pg id w) λ t found.
        Moves-fail_if _ _ _ _ _
          λ is_open. Lives-delete pg id _ (get_by_id-found pg id w found) (eq_of_not _ _ is_open)

  Lives-leave_draft :
      (id actor : String) (t : Document) (w : DocumentWorld)
      → IsStill id t w.db.documents
      → Lives (Service.leave_draft env id actor t) w
  Lives-leave_draft id actor t w (old, e, same) = elim (Bool-cases (t.status == status_draft)) [
    | inl draft ↦
        let from : old.status ≡ status_draft = same ∙ (eq_iff t.status status_draft).0 draft in
        rw draft (
          Moves-bind _ _ _ w
            (Moves-wrap _ _ _ w (
              Lives-update_status pg id status_assigned w e (assign from refl)
                (ne_of_eq_false status_assigned status_archived refl)))
            λ _ _. Moves-bind _ _ _ _ (Lives-record_history env _ _) λ _ _. Moves-pure _ _ _)
    | inr other ↦ rw other (Moves-pure _ t w)
  ]

  pub Lives-assign_responsible :
      (id who actor : String) (w : DocumentWorld)
      → Lives (Service.assign_responsible env id who actor) w
  unfolding Service.assign_responsible
  Lives-assign_responsible id who actor w = Moves-fail_if _ _ _ _ w λ _.
      Moves-bind _ _ _ w (Lives-get_by_id pg id w) λ t found. Moves-fail_if _ _ _ _ _ λ alive.
        let row = get_by_id-found pg id w found in
        Moves-bind _ _ _ _
          (Moves-wrap _ _ _ _ (Lives-set_responsible pg id who _ row (ne_of_eq_false _ _ alive)))
          λ _ _. Moves-bind _ _ _ _ (Lives-record_history env _ _) λ _ _.
            Moves-bind _ _ _ _
              (Lives-leave_draft id actor _ _ (
                rw (record_history-same env, wrap_state) (set_responsible-IsStill pg id who _ row)))
              λ t' _.
                Moves-bind _ _ _ _ (Lives-notify_document_event env t' _ _ _ _)
                  λ _ _. Moves-pure _ _ _

  Lives-write_status :
      (id to : String) (t : Document) (w : DocumentWorld)
      → find_document id w.db.documents ≡ some t
      → Edge t.status to
      → Lives (Service.write_status env id to t) w
  Lives-write_status id to t w row edge = elim (Bool-cases (to == status_archived)) [
    | inl e ↦ rw e (
        Moves-bind _ _ _ w
          (Moves-wrap _ _ _ w (
            Lives-archive pg id w row
              (subst (Edge t.status) ((eq_iff to status_archived).0 e) edge)))
          λ _ _. Moves-bind _ _ _ _ (record { at = here }) λ _ _. Moves-pure _ _ _)
    | inr e ↦ rw e (
        Moves-bind _ _ _ w
          (Moves-wrap _ _ _ w
            (Lives-update_status pg id to w row edge (ne_of_eq_false to status_archived e)))
          λ _ _. Moves-pure _ _ _)
  ]

  pub Lives-change_status :
      (id to actor : String) (w : DocumentWorld) → Lives (Service.change_status env id to actor) w
  unfolding Service.change_status
  Lives-change_status id to actor w = Moves-fail_if _ _ _ _ w λ _. Moves-fail_if _ _ _ _ w λ _.
      Moves-bind _ _ _ w (Lives-get_by_id pg id w) λ t found. Moves-fail_if _ _ _ _ _ λ allowed.
        Moves-bind _ _ _ _
          (Lives-write_status id to t _ (get_by_id-found pg id w found)
            (Edge_of_can_transition t.status to (not-false _ allowed)))
          λ t' _. Moves-bind _ _ _ _ (Lives-record_history env _ _) λ _ _.
            Moves-bind _ _ _ _ (Lives-notify_document_event env _ _ _ _ _) λ _ _. Moves-pure _ _ _

  Lives-archive_found :
      (id actor : String) (t : Document) (w : DocumentWorld)
      → find_document id w.db.documents ≡ some t
      → Lives (Service.archive_found env id actor t) w
  Lives-archive_found id actor t w row = Moves-fail_if _ _ _ _ w λ allowed.
      Moves-bind _ _ _ w
        (Moves-wrap _ _ _ w
          (Lives-archive pg id w row (Edge_of_can_transition t.status _ (not-false _ allowed))))
        λ _ _.
          Moves-bind _ _ _ _ (record { at = here })
            λ _ _. Moves-bind _ _ _ _ (Lives-record_history env _ _) λ _ _. Moves-pure _ _ _

  pub Lives-archive_document :
      (id actor : String) (w : DocumentWorld) → Lives (Service.archive_document env id actor) w
  unfolding Service.archive_document
  Lives-archive_document id actor w = Moves-fail_if _ _ _ _ w λ _.
      Moves-bind _ _ _ w (Lives-get_by_id pg id w) λ t found.
        Moves-if _ (t.status == status_archived) _ _ _ (Moves-pure _ t _)
          (Lives-archive_found id actor t _ (get_by_id-found pg id w found))

  Lives-report_all : (ts : List Document) (w : DocumentWorld) → Lives (Service.report_all env ts) w
  unfolding Service.report_all
  Lives-report_all [] w = Moves-pure _ tt w
  Lives-report_all (t ∷ ts) w =
      Moves-bind _ _ _ w
        (Moves-bind _ _ _ w (Moves-ignore _ _ w (Lives-create_entry pg _ w))
          λ _ _. Lives-notify_document_event env _ _ _ _ _)
        λ _ _. Lives-report_all ts _

  Lives-mark_found :
      (ts : List Document) (now : ℕ) (w : DocumentWorld)
      → ts ≡ select (is_late now) w.db.documents
      → Lives (Service.mark_found env ts) w
  Lives-mark_found [] now w e = Moves-pure _ [] w
  Lives-mark_found (t ∷ ts) now w e =
      Moves-bind _ _ _ w (Moves-wrap _ _ _ w (Lives-mark_overdue pg (t ∷ ts) now w e))
        λ _ _. Moves-bind _ _ _ _ (Lives-report_all (t ∷ ts) _) λ _ _. Moves-pure _ _ _

  pub Lives-mark_overdue_request : (w : DocumentWorld) → Lives (Service.mark_overdue env) w
  unfolding Service.mark_overdue
  Lives-mark_overdue_request w =
      Moves-bind _ _ _ w (Moves-wrap _ _ _ w (Lives-find_overdue pg w)) λ ts found.
        Lives-mark_found ts (pg.now w.calls) _
          (rw wrap_state (find_overdue-found pg w (ok_of_wrap _ _ w found)))

  pub Lives-get_document : (id : String) (w : DocumentWorld) → Lives (Service.get_document env id) w
  unfolding Service.get_document
  Lives-get_document id w = Moves-fail_if _ _ _ _ w λ _. Lives-get_by_id pg id w

  pub Lives-list_documents :
      (f : ListFilter) (w : DocumentWorld) → Lives (Service.list_documents env f) w
  unfolding Service.list_documents Repository.list
  Lives-list_documents f w = Lives-list env _ _ (λ d. d.documents) env.newest_first _ _ w

  pub Lives-filter_documents :
      (f : AdvancedFilter) (w : DocumentWorld) → Lives (Service.filter_documents env f) w
  unfolding Service.filter_documents Repository.filter
  Lives-filter_documents f w = Lives-list env _ _ (λ d. d.documents) env.newest_first _ _ w

  pub Lives-get_document_history :
      (f : HistoryFilter) (w : DocumentWorld) → Lives (Service.get_document_history env f) w
  unfolding Service.get_document_history Repository.list_history
  Lives-get_document_history f w =
      Moves-fail_if _ _ _ _ w λ _. Lives-list env _ _ (λ d. d.history) env.latest_first _ _ w

  pub Lives-get_document_stats : (w : DocumentWorld) → Lives (Service.get_document_stats env) w
  unfolding Service.get_document_stats Repository.stats
  Lives-get_document_stats w = Moves-label _ _ _ w (Moves-query _ pg _ w (λ n d. refl))
