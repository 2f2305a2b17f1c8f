-- ===== src/Document/Effects.antt =====
-- What each repository operation of the document service does to the table of documents, and what the row
-- that `GetByID` returns says of the table.
use docflow_web.Base.{
  String, ◌≡◌, ◌≢◌, refl, ℕ, Option, none, some, List, [], ◌∷◌, map, elem, sym, arith, true,
}
use mathlib.Core.Path.{subst}
use docflow_web.Base.Exec.{program, ok}
use docflow_web.Base.Postgres.{Postgres, statement}
use docflow_web.Base.Table.{select, update_where}
use docflow_web.Base.Moves.{Moves, Moves-wrap, Moves-label, Moves-pure}
use docflow_web.Base.Statements.{on_db, Moves-statement, Moves-query}
use docflow_web.Document.Domain.{Document, HistoryEntry, status_archived, status_draft, type_valid}
use docflow_web.Document.Repository
use docflow_web.Document.Repository.{
  DocumentDb, Outbox, DocumentWorld, App, document_key, find_document, is_late, insert_row,
  insert_entry, with_overdue,
}
use docflow_web.Document.Lifecycle.{
  Edge, IsNew, IsSound, DocumentSteps, here, created, edited, assigned, moved, filed, removed,
  expired, one_step, document_moves,
}

-- The program moves the table of documents by the abstract steps.
abbrev pub Lives : {A : Type 0} → App A → DocumentWorld → Type 0
Lives m w = Moves (on_db {O = Outbox} document_moves) m w

insert_entry-here :
    (e : HistoryEntry) (o : Option Document) (d : DocumentDb)
    → DocumentSteps d.documents (insert_entry e o d).1.documents
insert_entry-here e none d = here
insert_entry-here e (some _) d = here

insert_row-steps :
    (row : Document) (o : Option Document) (d : DocumentDb)
    → find_document row.id d.documents ≡ o
    → IsNew row
    → DocumentSteps d.documents (insert_row row o d).1.documents
insert_row-steps row none d e fresh = one_step (created row e fresh)
insert_row-steps row (some _) d e fresh = here

module _ (pg : Postgres) where
  pub Lives-get_by_id : (id : String) (w : DocumentWorld) → Lives (Repository.get_by_id pg id) w
  unfolding Repository.get_by_id
  Lives-get_by_id id w = Moves-label _ _ _ w (Moves-query _ pg _ w (λ n d. refl))

  -- The row is the one that the table still holds, and the tables are as before.
  pub get_by_id-found :
      (id : String) (w : DocumentWorld) {t : Document}
      → (Repository.get_by_id pg id w).0 ≡ ok t
      → find_document id (Repository.get_by_id pg id w).1.db.documents ≡ some t
  unfolding Repository.get_by_id program statement
  get_by_id-found id w h = ground arith

  pub Lives-create_entry :
      (e : HistoryEntry) (w : DocumentWorld) → Lives (Repository.create_entry pg e) w
  unfolding Repository.create_entry
  Lives-create_entry e w =
      Moves-wrap _ _ _ w (Moves-statement _ pg _ w (insert_entry-here _ _ w.db))

  pub Lives-create : (t : Document) (w : DocumentWorld) → IsNew t → Lives (Repository.create pg t) w
  unfolding Repository.create
  Lives-create t w fresh = Moves-wrap _ _ _ w (
      Moves-statement _ pg _ w (
        insert_row-steps _ _ w.db refl (record {
          is_draft = fresh.is_draft;
          titled = fresh.titled;
          typed = fresh.typed;
          timely = refl;
          unfiled = refl;
        })))

  pub Lives-update :
      (t : Document) (w : DocumentWorld) {old : Document}
      → find_document t.id w.db.documents ≡ some old
      → old.status ≢ status_archived
      → (IsSound old → (t.title ≢ "") × (type_valid t.doc_type ≡ true))
      → Lives (Repository.update pg t) w
  unfolding Repository.update
  Lives-update t w {old} e alive sound =
      Moves-label _ _ _ w
        (Moves-statement _ pg _ w (rw e (one_step (edited old t (pg.now w.calls) e alive sound))))

  pub Lives-set_responsible :
      (id who : String) (w : DocumentWorld) {old : Document}
      → find_document id w.db.documents ≡ some old
      → old.status ≢ status_archived
      → Lives (Repository.set_responsible pg id who) w
  unfolding Repository.set_responsible
  Lives-set_responsible id who w {old} e alive =
      Moves-label _ _ _ w
        (Moves-statement _ pg _ w (rw e (one_step (assigned id who old (pg.now w.calls) e alive))))

  pub Lives-update_status :
      (id to : String) (w : DocumentWorld) {old : Document}
      → find_document id w.db.documents ≡ some old
      → Edge old.status to
      → to ≢ status_archived
      → Lives (Repository.update_status pg id to) w
  unfolding Repository.update_status
  Lives-update_status id to w {old} e edge open_end = Moves-label _ _ _ w (
      Moves-statement _ pg _ w (rw e (one_step (moved id to old (pg.now w.calls) e edge open_end))))

  pub Lives-archive :
      (id : String) (w : DocumentWorld) {old : Document}
      → find_document id w.db.documents ≡ some old
      → Edge old.status status_archived
      → Lives (Repository.archive pg id) w
  unfolding Repository.archive
  Lives-archive id w {old} e edge =
      Moves-label _ _ _ w
        (Moves-statement _ pg _ w (rw e (one_step (filed id old (pg.now w.calls) e edge))))

  pub Lives-delete :
      (id : String) (w : DocumentWorld) {old : Document}
      → find_document id w.db.documents ≡ some old
      → old.status ≡ status_draft
      → Lives (Repository.delete pg id) w
  unfolding Repository.delete
  Lives-delete id w {old} e alive =
      Moves-label _ _ _ w (Moves-statement _ pg _ w (rw e (one_step (removed id old e alive))))

  -- The table after a read is the table before it.
  pub get_by_id-same :
      (id : String) (w : DocumentWorld) → (Repository.get_by_id pg id w).1.db ≡ w.db
  unfolding Repository.get_by_id program statement
  get_by_id-same id w = ground arith

  pub Lives-find_overdue : (w : DocumentWorld) → Lives (Repository.find_overdue pg) w
  unfolding Repository.find_overdue
  Lives-find_overdue w = Moves-label _ _ _ w (Moves-query _ pg _ w (λ n d. refl))

  -- The rows found are the late ones of the table that the query leaves.
  pub find_overdue-found :
      (w : DocumentWorld) {ts : List Document}
      → (Repository.find_overdue pg w).0 ≡ ok ts
      → ts ≡ select (is_late (pg.now w.calls)) (Repository.find_overdue pg w).1.db.documents
  unfolding Repository.find_overdue program statement
  find_overdue-found w h = ground arith

  pub Lives-mark_overdue :
      (ts : List Document) (now : ℕ) (w : DocumentWorld)
      → ts ≡ select (is_late now) w.db.documents
      → Lives (Repository.mark_overdue_by_ids pg (map document_key ts)) w
  unfolding Repository.mark_overdue_by_ids
  Lives-mark_overdue [] now w e = Moves-pure _ tt w
  Lives-mark_overdue (t ∷ ts) now w e = Moves-wrap _ _ _ w (
      Moves-statement _ pg _ w (
        subst
          (λ late. DocumentSteps w.db.documents (
            update_where (λ u. elem u.id (map document_key late)) (with_overdue (pg.now w.calls))
              w.db.documents))
          (sym e) (one_step (expired now (pg.now w.calls)))))

  pub find_overdue-same :
      (w : DocumentWorld) → (Repository.find_overdue pg w).1.db.documents ≡ w.db.documents
  unfolding Repository.find_overdue program statement
  find_overdue-same w = ground arith
