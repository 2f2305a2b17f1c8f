-- ===== src/Document/Repository.antt =====
-- services/document-service/internal/repository, over the tables of postgres/003_document_init.sql:
-- the statements of document_repository.go and history_repository.go.
use docflow_web.Base.{
  ℕ, String, Bool, true, false, ◌||◌, ◌&&◌, not, Option, none, some, List, [], ◌∷◌, ◌++◌, ◌==◌,
  elem, if◌then◌else◌, ltb, leb, all, length,
}
use docflow_web.Base.Exec.{Exec, Result, ok, err, sentinel, external, pure, wrap, label, ◌>>=◌}
use docflow_web.Base.Postgres.{Postgres, World, statement}
use docflow_web.Base.Table.{select, update_where, delete_where, count_where, find, is_key}
use docflow_web.Base.Paging.{Window, window}
use docflow_web.Document.Domain.{
  DocumentError, document_not_found, Document, HistoryEntry, AdvancedFilter, DocumentStats,
  status_draft, status_assigned, status_in_progress, status_completed, status_overdue,
  status_archived,
}

pub record DocumentDb : Type 0 where
  pub documents : List Document
  pub history : List HistoryEntry

-- What the service asks of the notification service, and of the calendar service.
pub record NotificationInput : Type 0 where
  pub user_id : String
  pub document_id : String
  pub notif_category : String
  pub title : String
  pub body : String
  pub ref_id : String
  pub ref_type : String

pub record EventInput : Type 0 where
  pub user_id : String
  pub title : String
  pub description : String
  pub event_type : String
  pub start_at : ℕ
  pub end_at : ℕ
  pub all_day : Bool
  pub ref_id : String
  pub ref_type : String

pub record Outbox : Type 0 where
  pub notifications : List NotificationInput
  pub events : List EventInput

abbrev pub DocumentWorld : Type 0
DocumentWorld = World DocumentDb Outbox

abbrev pub App : Type 0 → Type 0
App A = Exec DocumentError DocumentWorld A

abbrev pub document_key : Document → String
document_key t = t.id

abbrev pub find_document : String → List Document → Option Document
find_document = find document_key

-- `SET status = $1, updated_at = NOW()`
abbrev pub with_status : String → ℕ → Document → Document
with_status s now t = record t { status = s; updated_at = now }

abbrev pub with_responsible : String → ℕ → Document → Document
with_responsible who now t = record t { responsible_id = some who; updated_at = now }

-- `SET title = $1, description = $2, type = $3, deadline = $4, updated_at = NOW()`
abbrev pub with_fields : Document → ℕ → Document → Document
with_fields new now t = record t {
  title = new.title;
  description = new.description;
  doc_type = new.doc_type;
  deadline = new.deadline;
  updated_at = now;
}

-- `SET status = 'archived', archived_at = NOW(), updated_at = NOW()`
abbrev pub with_archive : ℕ → Document → Document
with_archive now t = record t { status = status_archived; archived_at = some now; updated_at = now }

-- `SET status = 'overdue', is_overdue = TRUE, updated_at = NOW()`
abbrev pub with_overdue : ℕ → Document → Document
with_overdue now t = record t { status = status_overdue; is_overdue = true; updated_at = now }

abbrev pub past : ℕ → Option ℕ → Bool
past now none = false
past now (some d) = ltb d now

-- `deadline IS NOT NULL AND deadline < NOW() AND status NOT IN ('completed', 'overdue', 'archived')`
abbrev pub is_late : ℕ → Document → Bool
is_late now t =
    past now t.deadline
    && not
        (t.status == status_completed || t.status == status_overdue || t.status == status_archived)

abbrev pub insert_row :
    Document → Option Document → DocumentDb → Result DocumentError Document × DocumentDb
insert_row row none d = (ok row, record d { documents = row ∷ d.documents })
insert_row row (some _) d = (err (external "duplicate key"), d)

-- The foreign key of `document_history` refuses a document that is not there.
abbrev pub insert_entry :
    HistoryEntry → Option Document → DocumentDb → Result DocumentError HistoryEntry × DocumentDb
insert_entry e none d = (err (external "foreign key violation"), d)
insert_entry e (some _) d = (ok e, record d { history = e ∷ d.history })

-- An UPDATE or DELETE of one document: the error when no row is affected.
abbrev pub affect :
    {A : Type 0}
    → Option Document
    → A
    → DocumentDb
    → DocumentDb
    → Result DocumentError A × DocumentDb
affect none a d d' = (err (sentinel document_not_found), d)
affect (some _) a d d' = (ok a, d')

abbrev pub found : Option Document → Result DocumentError Document
found none = err (sentinel document_not_found)
found (some t) = ok t

-- `responsible_id = $1` is not true of NULL, and so with the bounds on `deadline`.
abbrev pub option_is : String → Option String → Bool
option_is s none = false
option_is s (some t) = t == s

abbrev pub at_least : ℕ → Option ℕ → Bool
at_least a none = false
at_least a (some d) = leb a d

abbrev pub at_most : ℕ → Option ℕ → Bool
at_most a none = false
at_most a (some d) = leb d a

abbrev pub text_condition : String → (Document → Bool) → List (Document → Bool)
text_condition s p = if s == "" then [] else p ∷ []

abbrev pub time_condition : (ℕ → Option ℕ → Bool) → Option ℕ → List (Document → Bool)
time_condition test none = []
time_condition test (some a) = (λ t. test a t.deadline) ∷ []

-- The conditions that `Filter` joins with AND; an empty field of the filter adds none.
unfoldable pub conditions : AdvancedFilter → List (Document → Bool)
conditions f =
    text_condition f.status (λ t. t.status == f.status)
    ++ (text_condition f.doc_type (λ t. t.doc_type == f.doc_type)
        ++ (text_condition f.responsible_id (λ t. option_is f.responsible_id t.responsible_id)
            ++ (text_condition f.creator_id (λ t. t.creator_id == f.creator_id)
                ++ (time_condition at_least f.deadline_from
                    ++ time_condition at_most f.deadline_to))))

module _ (pg : Postgres) where
  -- `Create`: the database fills in the id, `is_overdue` and the times.
  unfoldable pub create : Document → App Document
  create t = wrap "create document" (
      statement pg λ n d.
        let row = record t {
          id = pg.new_id n;
          is_overdue = false;
          created_at = pg.now n;
          updated_at = pg.now n;
          archived_at = none;
        } in
        insert_row row (find_document row.id d.documents) d)

  unfoldable pub get_by_id : String → App Document
  get_by_id id =
      label "get document by id" (statement pg λ n d. (found (find_document id d.documents), d))

  -- `Update` returns the document with the `updated_at` that the statement wrote.
  unfoldable pub update : Document → App Document
  update t = label "update document" (
      statement pg λ n d.
        affect (find_document t.id d.documents) (record t { updated_at = pg.now n }) d
          (record d {
            documents =
                update_where (is_key document_key t.id) (with_fields t (pg.now n)) d.documents;
          }))

  -- `Delete`; the foreign key of `document_history` deletes on cascade.
  unfoldable pub delete : String → App (Unit {0})
  delete id = label "delete document" (
      statement pg λ n d. affect (find_document id d.documents) tt d (record {
        documents = delete_where (is_key document_key id) d.documents;
        history = delete_where (λ h. h.document_id == id) d.history;
      }))

  -- An UPDATE of the document `id`.
  abbrev pub set_row : String → String → (ℕ → Document → Document) → App (Unit {0})
  set_row msg id f = label msg (
      statement pg λ n d.
        affect (find_document id d.documents) tt d (record d {
          documents = update_where (is_key document_key id) (f (pg.now n)) d.documents;
        }))

  unfoldable pub update_status : String → String → App (Unit {0})
  update_status id status = set_row "update document status" id (with_status status)

  unfoldable pub set_responsible : String → String → App (Unit {0})
  set_responsible id who = set_row "set responsible" id (with_responsible who)

  unfoldable pub archive : String → App (Unit {0})
  archive id = set_row "archive document" id with_archive

  unfoldable pub find_overdue : App (List Document)
  find_overdue =
      label "find overdue documents"
        (statement pg λ n d. (ok (select (is_late (pg.now n)) d.documents), d))

  abbrev pub mark_all : List String → App (Unit {0})
  mark_all ids = wrap "mark overdue" (
      statement pg λ n d. (
        ok tt,
        record d {
          documents = update_where (λ t. elem t.id ids) (with_overdue (pg.now n)) d.documents;
        },
      ))

  unfoldable pub mark_overdue_by_ids : List String → App (Unit {0})
  mark_overdue_by_ids [] = pure tt
  mark_overdue_by_ids (id ∷ ids) = mark_all (id ∷ ids)

  unfoldable pub stats : App DocumentStats
  stats = label "get document stats" (
      statement pg λ n d.
        let count : String → ℕ = λ s. count_where (λ t. t.status == s) d.documents in
        (
          ok (record {
            total = length d.documents;
            draft = count status_draft;
            assigned = count status_assigned;
            in_progress = count status_in_progress;
            completed = count status_completed;
            overdue = count status_overdue;
            archived = count status_archived;
          }),
          d,
        ))

  -- `postgresHistoryRepository.Create`
  unfoldable pub create_entry : HistoryEntry → App HistoryEntry
  create_entry e = wrap "create history entry" (
      statement pg λ n d.
        insert_entry (record e { id = pg.new_id n; changed_at = pg.now n })
          (find_document e.document_id d.documents) d)

  -- The two statements of a list query: the count, then one page in the order asked for. The order
  -- breaks no ties, so each statement, by its number, has an order of its own.
  abbrev pub list_where :
      {R : Type 0}
      → String
      → String
      → (DocumentDb → List R)
      → (ℕ → List R → List R)
      → (R → Bool)
      → Window
      → App (List R × ℕ)
  list_where count_msg list_msg table newest_first p w = do
    total ← wrap count_msg (statement pg (λ n d. (ok (count_where p (table d)), d)))
    rows ←
        wrap list_msg
          (statement pg (λ n d. (ok (window w (newest_first n (select p (table d)))), d)))
    pure (rows, total)

  -- `List` has no WHERE clause: the creator and the responsible of the filter are not read.
  unfoldable pub list : (ℕ → List Document → List Document) → Window → App (List Document × ℕ)
  list newest_first =
      list_where "count documents" "list documents" (λ d. d.documents) newest_first (λ t. true)

  -- `Filter`
  unfoldable pub filter :
      (ℕ → List Document → List Document) → AdvancedFilter → Window → App (List Document × ℕ)
  unfolding conditions
  filter newest_first f =
      list_where "count filtered documents" "filter documents" (λ d. d.documents) newest_first
        (λ t. all (λ p. p t) (conditions f))

  -- `postgresHistoryRepository.List`
  unfoldable pub list_history :
      (ℕ → List HistoryEntry → List HistoryEntry) → String → Window → App (List HistoryEntry × ℕ)
  list_history latest_first document_id =
      list_where "count history entries" "list history entries" (λ d. d.history) latest_first
        (λ h. h.document_id == document_id)
