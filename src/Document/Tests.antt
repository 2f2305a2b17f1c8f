-- ===== src/Document/Tests.antt =====
-- A small document service with four documents, and runs of the theorems on it.
use docflow_web.Base.{
  ◌≡◌, ◌≢◌, refl, true, false, none, some, List, [], ◌∷◌, ne_of_eq_false, ℕ, String, length,
}
use docflow_web.Base.Exec.{program, ok}
use docflow_web.Base.Postgres.{Postgres, statement}
use docflow_web.Base.Table.{find}
use docflow_web.Base.Paging.{pos}
use docflow_web.Document.Domain.{
  Document, AdvancedFilter, invalid_transition, can_transition, status_valid, type_valid,
  status_draft, status_assigned,
}
use docflow_web.Document.Repository
use docflow_web.Document.Repository.{
  DocumentWorld, find_document, is_late, with_status, with_responsible, with_overdue,
}
use docflow_web.Document.Service
use docflow_web.Document.Service.{DocumentEnv, entry}
use docflow_web.Document.Lifecycle.{resume, DocumentSteps}
use docflow_web.Document.Refinement.{Request, respond, serve, serve-DocumentSteps}
use docflow_web.Document.Invariants.{IsWellFormed, serve_documents-IsWellFormed}
use docflow_web.Document.Frozen.{serve_documents-frozen}
use docflow_web.Document.Kept.{Survives, serve_documents-Survives}
use docflow_web.Document.Refusals.{refusal, respond_documents-refused}
use docflow_web.Document.Overdue.{mark_overdue-marks}
use docflow_web.Document.CsvReader.{parse}
use docflow_web.Document.Export.{export_documents_csv}
use docflow_web.Document.Exported.{exported, AreRowsOf, export_documents_csv-reads}
use docflow_web.Document.Progress.{
  updated, logged, change_status-returns, assign_responsible-leaves_draft,
}

abbrev server : Postgres
server = record { fault = λ _. none; now = λ n. 100; new_id = λ _. "n" }

abbrev env : DocumentEnv
env = record {
  pg = server;
  clock = λ n. 100;
  has_notification = true;
  has_calendar = true;
  newest_first = λ n ts. ts;
  latest_first = λ n hs. hs;
  map_order = λ ks. ks;
  quote = λ s. s;
}

abbrev draft : Document
draft = record {
  id = "a";
  title = "Lease";
  description = "";
  doc_type = "contract";
  status = "draft";
  creator_id = "al";
  responsible_id = none;
  deadline = some 7;
  file_url = "";
  tags = [];
  is_overdue = false;
  created_at = 1;
  updated_at = 1;
  archived_at = none;
}

abbrev shelved : Document
shelved = record draft { id = "b"; status = "archived"; archived_at = some 3 }

abbrev missed : Document
missed = record draft { id = "c"; status = "overdue"; is_overdue = true }

abbrev world : DocumentWorld
world = record {
  calls = 0;
  db = record { documents = draft ∷ shelved ∷ missed ∷ []; history = [] };
  out = record { notifications = []; events = [] };
}

abbrev requests : List Request
requests =
    Request.assign "a" "bo" "al"
    ∷ Request.change_status "c" "in_progress" "al"
    ∷ Request.archive "b" "al"
    ∷ Request.mark_overdue
    ∷ []

is_named : draft.title ≢ ""
is_named = ne_of_eq_false "Lease" "" refl

well_formed : IsWellFormed world.db.documents
unfolding find status_valid type_valid
well_formed = record {
  unique = (refl, (refl, (refl, tt)));
  sound = (
    record { known = refl; titled = is_named; typed = refl; filed = refl },
    (
      record { known = refl; titled = is_named; typed = refl; filed = refl },
      (record { known = refl; titled = is_named; typed = refl; filed = refl }, tt),
    ),
  );
}

finds_draft : find_document "a" world.db.documents ≡ some draft
unfolding find
finds_draft = refl

finds_shelved : find_document "b" world.db.documents ≡ some shelved
unfolding find
finds_shelved = refl

finds_missed : find_document "c" world.db.documents ≡ some missed
unfolding find
finds_missed = refl

serve-DocumentSteps_example :
    DocumentSteps world.db.documents (serve env world requests).db.documents
serve-DocumentSteps_example = serve-DocumentSteps env world requests

serve_documents-IsWellFormed_example : IsWellFormed (serve env world requests).db.documents
serve_documents-IsWellFormed_example = serve_documents-IsWellFormed env world requests well_formed

serve_documents-frozen_example :
    find_document "b" (serve env world requests).db.documents ≡ some shelved
serve_documents-frozen_example =
    serve_documents-frozen env world requests "b" well_formed finds_shelved refl

serve_documents-Survives_example : Survives "c" missed (serve env world requests).db.documents
serve_documents-Survives_example =
    serve_documents-Survives env world requests "c" missed well_formed finds_missed
      (ne_of_eq_false "overdue" "draft" refl)

-- An archived document may not be taken up again.
refused : refusal env (Request.change_status "b" "assigned" "al") world ≡ some invalid_transition
unfolding Service.change_status Repository.get_by_id status_valid can_transition statement program
    find
refused = refl

respond_documents-refused_example :
    (respond env (Request.change_status "b" "assigned" "al") world).db ≡ world.db
respond_documents-refused_example =
    respond_documents-refused env (Request.change_status "b" "assigned" "al") world
      invalid_transition refused

-- A late draft is marked, although no edge of the diagram leads from `draft` to `overdue`.
mark_overdue-marks_example :
    find_document "a" (Service.mark_overdue env world).1.db.documents
    ≡ some (with_overdue 100 draft)
mark_overdue-marks_example =
    mark_overdue-marks env world "a" refl refl well_formed.unique finds_draft refl

abbrev read_once : DocumentWorld
read_once = record world { calls = 1 }

change_status-returns_example :
    let out = Service.change_status env "c" "in_progress" "al" world in
    let w' = updated "c" (with_status "in_progress" 100) read_once in
    (out.0 ≡ ok (record missed { status = "in_progress"; is_overdue = false }))
    × (out.1.db ≡ (logged server (entry "c" "al" "status" "overdue" "in_progress") w').db)
    × (find_document "c" w'.db.documents ≡ some (with_status "in_progress" 100 missed))
change_status-returns_example =
    change_status-returns env (λ n. refl) "c" "al" world (ne_of_eq_false "c" "" refl)
      (ne_of_eq_false "al" "" refl) finds_missed "in_progress" (resume refl refl) refl

assign_responsible-leaves_draft_example :
    let out = Service.assign_responsible env "a" "bo" "al" world in
    let w1 = updated "a" (with_responsible "bo" 100) read_once in
    let w2 = logged server (entry "a" "al" "responsible_id" "" "bo") w1 in
    let w3 = updated "a" (with_status status_assigned 100) w2 in
    (out.0 ≡ ok (record draft { responsible_id = some "bo"; status = "assigned" }))
    × (out.1.db ≡ (logged server (entry "a" "al" "status" status_draft status_assigned) w3).db)
assign_responsible-leaves_draft_example =
    assign_responsible-leaves_draft env (λ n. refl) "a" "al" world (ne_of_eq_false "a" "" refl)
      (ne_of_eq_false "al" "" refl) finds_draft "bo" (ne_of_eq_false "bo" "" refl) refl

abbrev contracts : AdvancedFilter
contracts = record {
  status = "";
  doc_type = "contract";
  responsible_id = "";
  creator_id = "al";
  deadline_from = none;
  deadline_to = some 50;
  page = pos 3;
  page_size = pos 5;
}

abbrev stamp : ℕ → String
stamp _ = "1970-01-01T00:00:07Z"

export_documents_csv-reads_example :
    (text : String) × (header : List String) × (rows : List (List String)) × ((export_documents_csv
        env stamp contracts world).0
      ≡ ok (text, length (exported env stamp contracts world)))
    × (parse text ≡ header ∷ rows)
    × AreRowsOf stamp header rows (exported env stamp contracts world)
export_documents_csv-reads_example =
    export_documents_csv-reads env stamp contracts world (λ n. refl)
