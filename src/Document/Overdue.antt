-- ===== src/Document/Overdue.antt =====
-- `MarkOverdue` of document_service.go: which documents it marks.
use docflow_web.Base.{
  ℕ, String, ◌≡◌, refl, ap, ◌∙◌, suc, true, Option, none, some, List, [], ◌∷◌, map, elem, arith,
}
use docflow_web.Base.Exec.{program, Result, ok, pure, ◌>>◌, bind_runs, wrap_runs}
use docflow_web.Base.Postgres.{statement}
use docflow_web.Base.Table.{select, update_where, find_key, elem-select, find-update_hit, Unique}
use docflow_web.Base.Moves.{
  Preorder, Moves, Moves-pure, Moves-bind, Moves-ignore, Moves-wrap, Moves-if,
}
use docflow_web.Base.Statements.{on_db, Moves-statement}
use docflow_web.Document.Domain.{Document, DocumentError, HistoryEntry}
use docflow_web.Document.Repository
use docflow_web.Document.Repository.{
  DocumentDb, DocumentWorld, Outbox, App, document_key, find_document, with_overdue, is_late,
  insert_entry,
}
use docflow_web.Document.Service
use docflow_web.Document.Service.{DocumentEnv}

-- The program leaves the table of documents as it is.
abbrev same_documents : Preorder DocumentDb
same_documents = record {
  rel = λ d e. e.documents ≡ d.documents;
  stay = λ d. refl;
  trans = λ d e f p q. q ∙ p;
}

abbrev Keeps : {A : Type 0} → App A → DocumentWorld → Type 0
Keeps m w = Moves (on_db {O = Outbox} same_documents) m w

insert_entry-documents :
    (e : HistoryEntry) (o : Option Document) (d : DocumentDb)
    → (insert_entry e o d).1.documents ≡ d.documents
insert_entry-documents e none d = refl
insert_entry-documents e (some _) d = refl

module _ (env : DocumentEnv) where
  open env use {pg}

  Keeps-notify :
      (t : Document) (category title body : String) (w : DocumentWorld)
      → Keeps (Service.notify_document_event env t category title body) w
  unfolding Service.notify_document_event pure
  Keeps-notify t category title body w =
      Moves-if _ env.has_notification _ _ w (record { at = refl }) (record { at = refl })

  Keeps-report_all : (ts : List Document) (w : DocumentWorld) → Keeps (Service.report_all env ts) w
  unfolding Service.report_all Repository.create_entry
  Keeps-report_all [] w = Moves-pure _ tt w
  Keeps-report_all (t ∷ ts) w =
      Moves-bind _ _ _ w
        (Moves-bind _ _ _ w
          (Moves-ignore _ _ w
            (Moves-wrap _ _ _ w (Moves-statement _ pg _ w (insert_entry-documents _ _ w.db))))
          λ _ _. Keeps-notify _ _ _ _ _)
        λ _ _. Keeps-report_all ts _

  -- The table after the UPDATE of the documents whose ids are given.
  abbrev marked : List String → DocumentWorld → List Document
  marked ids w = update_where (λ u. elem u.id ids) (with_overdue (pg.now w.calls)) w.db.documents

  mark_all-runs :
      (t : Document) (ts : List Document) (w : DocumentWorld)
      → pg.fault w.calls ≡ none
      → Repository.mark_overdue_by_ids pg (map document_key (t ∷ ts)) w ≡ (
        ok tt,
        record w {
          calls = suc w.calls;
          db = record (w.db) { documents = marked (map document_key (t ∷ ts)) w };
        },
      )
  unfolding Repository.mark_overdue_by_ids program statement
  mark_all-runs t ts w up = ground arith

  mark_found-runs :
      (t : Document) (ts : List Document) (w : DocumentWorld)
      → pg.fault w.calls ≡ none
      → (Service.mark_found env (t ∷ ts) w).1.db.documents ≡ marked (map document_key (t ∷ ts)) w
  mark_found-runs t ts w up =
      let ids = map document_key (t ∷ ts) in
      let wrote = record w {
        calls = suc w.calls;
        db = record (w.db) { documents = marked ids w };
      } in
      let rest : Keeps (Service.report_all env (t ∷ ts) >> pure ids) wrote =
        Moves-bind _ _ _ wrote (Keeps-report_all (t ∷ ts) wrote) (λ _ _. Moves-pure _ ids _) in
      ap (λ (p : Result DocumentError (List String) × DocumentWorld). p.1.db.documents)
        (bind_runs _ _ w wrote (wrap_runs _ _ w wrote (mark_all-runs t ts w up)))
      ∙ rest.at

  find_overdue-runs :
      (w : DocumentWorld)
      → pg.fault w.calls ≡ none
      → Repository.find_overdue pg w
        ≡ (ok (select (is_late (pg.now w.calls)) w.db.documents), record w { calls = suc w.calls })
  unfolding Repository.find_overdue program statement
  find_overdue-runs w up = ground arith

  -- A row that is late is among those found, so it is marked.
  found_marked :
      (ts : List Document) (w : DocumentWorld) (seen : ℕ) (id : String) {row : Document}
      → ts ≡ select (is_late seen) w.db.documents
      → pg.fault w.calls ≡ none
      → Unique document_key w.db.documents
      → find_document id w.db.documents ≡ some row
      → is_late seen row ≡ true
      → find_document id (Service.mark_found env ts w).1.db.documents
        ≡ some (with_overdue (pg.now w.calls) row)
  found_marked ts w seen id {row} e up u h late =
      let own : row.id ≡ id = find_key document_key id w.db.documents h in
      let listed : elem row.id (map document_key ts) ≡ true =
        rw (own, e) (elem-select document_key (is_late seen) id w.db.documents u h ∙ late) in
      by_cases ts listed
    where
      by_cases :
          (us : List Document)
          → elem row.id (map document_key us) ≡ true
          → find_document id (Service.mark_found env us w).1.db.documents
            ≡ some (with_overdue (pg.now w.calls) row)
      by_cases [] listed = cc
      by_cases (t ∷ us) listed = rw (mark_found-runs t us w up) (
          find-update_hit document_key _ (with_overdue (pg.now w.calls)) (λ r. refl) id
            w.db.documents h listed)

  -- In a table with unique ids, if the SELECT and the UPDATE of `MarkOverdue` do not fail, every
  -- document that is past its deadline and neither completed, overdue nor archived is afterwards
  -- found as overdue, with its flag set: also a draft, which the diagram does not let there.
  pub mark_overdue-marks :
      (w : DocumentWorld) (id : String) {row : Document}
      → pg.fault w.calls ≡ none
      → pg.fault (suc w.calls) ≡ none
      → Unique document_key w.db.documents
      → find_document id w.db.documents ≡ some row
      → is_late (pg.now w.calls) row ≡ true
      → find_document id (Service.mark_overdue env w).1.db.documents
        ≡ some (with_overdue (pg.now (suc w.calls)) row)
  unfolding Service.mark_overdue
  mark_overdue-marks w id {row} read write u h late =
      let seen = record w { calls = suc w.calls } in
      let ts = select (is_late (pg.now w.calls)) w.db.documents in
      ap
        (λ (p : Result DocumentError (List String) × DocumentWorld).
          find_document id p.1.db.documents)
        (bind_runs _ _ w seen (wrap_runs _ _ w seen (find_overdue-runs w read)))
      ∙ found_marked ts seen (pg.now w.calls) id refl write u h late
